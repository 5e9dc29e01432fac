-- ===== src/Supersession/Completeness.antt =====
-- src/memline/staleness.py, `resolve_head`: when its walk ends before the depth limit, the answer
-- holds every active memory that follows the one asked for.
use memline.Prelude.{
  ℕ, zero, suc, ◌+◌, ◌≤◌, String, ◌≡◌, refl, ◌∙◌, ◌⊎◌, ◌↔◌, inl, inr, false, ◌||◌, not, none, List,
  [], ◌∷◌, elem, In, here, there, arith, Bool-cases, In-append_left, In-append_right, if◌then◌else◌,
  Option-cases,
}
use memline.Result.{ok, raise, memory_not_found}
use memline.Dict.{is_empty}
use memline.Supersession.{
  GetPayload, successors, superseded_ids, is_nil, payload_or_empty, Level, Heads, look,
  resolve_level, resolve, resolve_from, resolve_head, max_chain_depth,
}
use memline.Supersession.Graph.{Reaches, start, onward, Sub, elem-In}
use memline.Supersession.Resolving.{IsHead, succ_of, resolve_sound}

module _ (get_payload : GetPayload) where
  abbrev succ : String → List String
  succ = successors get_payload

  -- What one level adds to the visited nodes: each new one is in the heads if it is active, and what
  -- follows it comes next.
  record Looked (frontier : List String) (l l' : Level) : Type 0 where
    kept : Sub l.visited l'.visited
    covered : Sub frontier l'.visited
    pending : Sub l.next l'.next
    heads_kept : Sub l.heads l'.heads
    safe :
        (x : String)
        → In x l'.visited
        → In x l.visited ⊎ ((IsHead get_payload x → In x l'.heads) × Sub (succ x) l'.next)

  after_look : String → Level → Level
  after_look node l = look node (payload_or_empty (get_payload node)) l

  look_heads_kept : (node : String) (l : Level) → Sub l.heads (after_look node l).heads
  unfolding after_look
  look_heads_kept node l x i =
      elim (Bool-cases (
        not (is_nil (superseded_ids (payload_or_empty (get_payload node))))
        || is_empty (payload_or_empty (get_payload node)))) [
          | inl skip ↦ rw skip i
          | inr hit ↦ rw hit (In-append_left x l.heads _ i)
        ]

  head_found :
      (node : String) (l : Level) → IsHead get_payload node → In node (after_look node l).heads
  unfolding after_look
  head_found node l h =
      let none_left : superseded_ids (payload_or_empty (get_payload node)) ≡ [] =
        succ_of get_payload node ∙ h.current in
      rw (none_left, h.exists, h.stored) (In-append_right node l.heads _ (here refl))

  Looked-first :
      (node : String) (rest : List String) (l l' : Level)
      → Looked rest (after_look node l) l'
      → Looked (node ∷ rest) l l'
  unfolding after_look
  Looked-first node rest l l' h = record {
    kept = λ x i. h.kept x (there i);
    covered = covered;
    pending = λ x i. h.pending x (In-append_left x l.next _ i);
    heads_kept = λ x i. h.heads_kept x (look_heads_kept node l x i);
    safe = λ x i. known x (h.safe x i);
  }
    where
      covered : Sub (node ∷ rest) l'.visited
      covered x (here e) = h.kept x (here e)
      covered x (there i) = h.covered x i

      added :
          (x : String)
          → In x (node ∷ l.visited)
          → In x l.visited ⊎ ((IsHead get_payload x → In x l'.heads) × Sub (succ x) l'.next)
      added x (here e) = rw e (
          inr (
            (λ hd. h.heads_kept node (head_found node l hd)),
            (λ y i. h.pending y (In-append_right y l.next _ (rw (succ_of get_payload node) i))),
          ))
      added x (there i) = inl i

      known :
          (x : String)
          → In x (node ∷ l.visited)
            ⊎ ((IsHead get_payload x → In x l'.heads) × Sub (succ x) l'.next)
          → In x l.visited ⊎ ((IsHead get_payload x → In x l'.heads) × Sub (succ x) l'.next)
      known x (inl i) = added x i
      known x (inr done) = inr done

  Looked-again :
      (node : String) (rest : List String) (l l' : Level)
      → In node l.visited
      → Looked rest l l'
      → Looked (node ∷ rest) l l'
  Looked-again node rest l l' old h = record {
    kept = h.kept;
    covered = covered;
    pending = h.pending;
    heads_kept = h.heads_kept;
    safe = h.safe;
  }
    where
      covered : Sub (node ∷ rest) l'.visited
      covered x (here e) = h.kept x (rw e old)
      covered x (there i) = h.covered x i

  resolve_level-Looked :
      (frontier : List String) (l : Level)
      → Looked frontier l (resolve_level get_payload frontier l)
  unfolding resolve_level after_look
  resolve_level-Looked [] l = record {
    kept = λ x i. i;
    covered = λ x i. elim i [ ];
    pending = λ x i. i;
    heads_kept = λ x i. i;
    safe = λ x i. inl i;
  }
  resolve_level-Looked (node ∷ rest) l = elim (Bool-cases (elem node l.visited)) [
    | inl old ↦
        rw old
          (Looked-again node rest l _ (elem-In node l.visited old) (resolve_level-Looked rest l))
    | inr new ↦ rw new (Looked-first node rest l _ (resolve_level-Looked rest (after_look node l)))
  ]

  abbrev Tracked : List String → List String → List String → Type 0
  Tracked visited frontier heads =
      (x : String)
      → In x visited
      → (IsHead get_payload x → In x heads)
        × ((y : String) → In y (succ x) → In y visited ⊎ In y frontier)

  -- A closed set of nodes over the frontier, the active ones of which are in the heads.
  record Exhausted (frontier visited final heads : List String) : Type 0 where
    kept : Sub visited final
    covered : Sub frontier final
    closed : (x : String) → In x final → Sub (succ x) final
    found : (x : String) → In x final → IsHead get_payload x → In x heads

  Tracked-next :
      (frontier : List String) (l l' : Level)
      → Tracked l.visited frontier l.heads
      → Looked frontier l l'
      → Tracked l'.visited l'.next l'.heads
  Tracked-next frontier l l' known h x i = elim (h.safe x i) [
    | inl j ↦ (
      (λ hd. h.heads_kept x ((known x j).0 hd)),
      λ y k. elim ((known x j).1 y k) [ inl a ↦ inl (h.kept y a) | inr b ↦ inl (h.covered y b) ],
    )
    | inr (hd, sub) ↦ (hd, λ y k. inr (sub y k))
  ]

  more_hops :
      (next : List String) (hops fuel : ℕ)
      → hops + suc fuel ≡ suc max_chain_depth
      → is_nil next ≡ false
      → (if is_nil next then hops else hops + 1) + fuel ≡ suc max_chain_depth
  more_hops next hops fuel e more = rw more (omega arith)

  resolve-Exhausted :
      (requested : String) (fuel : ℕ) (frontier visited heads : List String) (hops : ℕ)
      → (is_nil frontier ≡ false → hops + fuel ≡ suc max_chain_depth)
      → Tracked visited frontier heads
      → (resolve get_payload requested fuel frontier visited heads hops).hops ≤ max_chain_depth
      → (final : List String) × Exhausted frontier visited final
          (resolve get_payload requested fuel frontier visited heads hops).heads
  unfolding resolve
  resolve-Exhausted requested fuel [] visited heads hops budget known h = (
    visited,
    record {
      kept = λ x i. i;
      covered = λ x i. elim i [ ];
      closed = λ x i y k. elim ((known x i).1 y k) [ inl a ↦ a | inr b ↦ elim b [ ] ];
      found = λ x i. (known x i).0;
    },
  )
  resolve-Exhausted requested zero (node ∷ rest) visited heads hops budget known h =
      absurd (omega (arith, budget refl))
  resolve-Exhausted requested (suc fuel) (node ∷ rest) visited heads hops budget known h =
      let l : Level = record { visited = visited; next = []; heads = heads } in
      let looked = resolve_level-Looked (node ∷ rest) l in
      let (final, done) =
        resolve-Exhausted requested fuel _ _ _ _ (more_hops _ hops fuel (budget refl))
          (Tracked-next (node ∷ rest) l _ known looked) h in
      (
        final,
        record {
          kept = λ x i. done.kept x (looked.kept x i);
          covered = λ x i. done.kept x (looked.covered x i);
          closed = done.closed;
          found = done.found;
        },
      )

  closed_reach :
      (final : List String) (a : String) {c : String}
      → ((x : String) → In x final → Sub (succ x) final)
      → In a final
      → Reaches succ a c
      → In c final
  closed_reach final a closed i start = i
  closed_reach final a closed i (onward {b = b} {c = c} r j) =
      closed b (closed_reach final a closed i r) c j

  resolved :
      (memory_id : String) (r : Heads)
      → resolve_head get_payload memory_id ≡ ok r
      → r ≡ resolve get_payload memory_id (suc max_chain_depth) (memory_id ∷ []) [] [] 0
  unfolding resolve_head
  resolved memory_id r e = elim (Option-cases (get_payload memory_id)) [
    | inl missing ↦ absurd (not_ok missing (rw (missing, resolve_from) at e))
    | inr (p, found) ↦ same (rw (found, resolve_from) at e)
  ]
    where
      not_ok : get_payload memory_id ≡ none → raise (memory_not_found memory_id) ≡ ok r → ⊥
      not_ok m h = cc

      same :
          ok (resolve get_payload memory_id (suc max_chain_depth) (memory_id ∷ []) [] [] 0) ≡ ok r
          → r ≡ resolve get_payload memory_id (suc max_chain_depth) (memory_id ∷ []) [] [] 0
      same h = cc

  -- If the number of hops that `resolve_head` reports is within MAX_CHAIN_DEPTH, its heads are exactly
  -- the memories that the one asked for leads to, in any number of steps, that exist and that nothing
  -- supersedes.
  pub resolve_head_exact :
      (memory_id : String) (r : Heads)
      → resolve_head get_payload memory_id ≡ ok r
      → r.hops ≤ max_chain_depth
      → (x : String)
      → In x r.heads ↔ (Reaches (successors get_payload) memory_id x × IsHead get_payload x)
  resolve_head_exact memory_id r e within x = (
    (λ i.
        resolve_sound get_payload memory_id memory_id (suc max_chain_depth) (memory_id ∷ []) [] [] 0
          (λ y j. elim j [ here same ↦ rw same start | there k ↦ elim k [ ] ]) (λ y j. elim j [ ]) x
          (rw (resolved memory_id r e) at i)),
    (λ (p, hd).
        let (final, done) =
          resolve-Exhausted memory_id (suc max_chain_depth) (memory_id ∷ []) [] [] 0 (λ _. refl)
            (λ y j. elim j [ ]) (rw (resolved memory_id r e) at within) in
        rw (resolved memory_id r e) (
          done.found x
            (closed_reach final memory_id done.closed (done.covered memory_id (here refl)) p) hd)),
  )
