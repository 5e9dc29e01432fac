-- ===== src/Supersession/NoCycle.antt =====
-- src/memline/staleness.py, `_assert_no_cycle`: what the walk tells of the graph.
use memline.Prelude.{
  ℕ, zero, suc, String, ◌≡◌, ◌≢◌, refl, sym, ap, ◌∙◌, ◌⊎◌, inl, inr, false, List, [], ◌∷◌, ◌++◌,
  ◌==◌, eq_iff, elem, In, here, there, arith, Bool-cases, In-append_left, In-append_right, false_of,
}
use mathlib.Core.Path.{subst}
use memline.Result.{Error, Result, ok, raise, would_cycle, chain_too_long, ◌>>=◌, >>=-eq-ok}
use memline.Supersession.{visit, walk, assert_no_cycle}
use memline.Supersession.Graph.{Reaches, start, onward, Sub, elem-In, In-append}

module _ (succ : String → List String) (target : String) where
  -- What the inner loop guarantees when it does not raise.
  pub record Visited (frontier visited next seen after : List String) : Type 0 where
    pub kept : Sub visited seen
    pub covered : Sub frontier seen
    pub pending : Sub next after
    pub safe : (x : String) → In x seen → In x visited ⊎ ((x ≢ target) × Sub (succ x) after)

  visit-Visited :
      (frontier visited next seen after : List String)
      → visit succ target frontier visited next ≡ ok (seen, after)
      → Visited frontier visited next seen after
  unfolding visit
  visit-Visited [] visited next seen after e =
      let same_seen : visited ≡ seen = cc in
      let same_after : next ≡ after = cc in
      record {
        kept = λ x i. rw (← same_seen) i;
        covered = λ x i. elim i [ ];
        pending = λ x i. rw (← same_after) i;
        safe = λ x i. inl (rw same_seen i);
      }
  visit-Visited (node ∷ rest) visited next seen after e = elim (Bool-cases (elem node visited)) [
    | inl old ↦
        let h = visit-Visited rest visited next seen after (ground arith) in
        record {
          kept = h.kept;
          covered = covered_old h (elem-In node visited old);
          pending = h.pending;
          safe = h.safe;
        }
    | inr new ↦
        let other : (node == target) ≡ false = ground arith in
        let h = visit-Visited rest (node ∷ visited) (next ++ succ node) seen after (ground arith) in
        record {
          kept = λ x i. h.kept x (there i);
          covered = covered_new h;
          pending = λ x i. h.pending x (In-append_left x next (succ node) i);
          safe = λ x i. safe_new h other x (h.safe x i);
        }
  ]
    where
      covered_old : Visited rest visited next seen after → In node visited → Sub (node ∷ rest) seen
      covered_old h known x (here same) = h.kept x (rw same known)
      covered_old h known x (there i) = h.covered x i

      covered_new :
          Visited rest (node ∷ visited) (next ++ succ node) seen after → Sub (node ∷ rest) seen
      covered_new h x (here same) = h.kept x (here same)
      covered_new h x (there i) = h.covered x i

      safe_node :
          Visited rest (node ∷ visited) (next ++ succ node) seen after
          → (node == target) ≡ false
          → (x : String) → In x (node ∷ visited)
          → In x visited ⊎ ((x ≢ target) × Sub (succ x) after)
      safe_node h other x (here same) = inr (
        (λ hit. false_of (node == target) ((eq_iff node target).1 (sym same ∙ hit)) other),
        (λ y i. h.pending y (In-append_right y next (succ node) (rw same at i))),
      )
      safe_node h other x (there i) = inl i

      safe_new :
          Visited rest (node ∷ visited) (next ++ succ node) seen after
          → (node == target) ≡ false
          → (x : String) → In x (node ∷ visited) ⊎ ((x ≢ target) × Sub (succ x) after)
          → In x visited ⊎ ((x ≢ target) × Sub (succ x) after)
      safe_new h other x (inl i) = safe_node h other x i
      safe_new h other x (inr safe) = inr safe

  -- The nodes that a walk has left behind: none is the target, and what follows them is known.
  abbrev Explored : List String → List String → Type 0
  Explored visited frontier =
      (x : String)
      → In x visited
      → (x ≢ target) × ((y : String) → In y (succ x) → In y visited ⊎ In y frontier)

  -- A closed set of nodes without the target, over what the walk has to explore.
  pub record Closed (visited frontier final : List String) : Type 0 where
    pub kept : Sub visited final
    pub covered : Sub frontier final
    pub safe : (x : String) → In x final → (x ≢ target) × Sub (succ x) final

  Explored-next :
      (frontier visited seen after : List String)
      → Explored visited frontier
      → Visited frontier visited [] seen after
      → Explored seen after
  Explored-next frontier visited seen after known h x i = elim (h.safe x i) [
    | inl j ↦ (
      (known x j).0,
      λ y k. elim ((known x j).1 y k) [ inl a ↦ inl (h.kept y a) | inr b ↦ inl (h.covered y b) ],
    )
    | inr (other, sub) ↦ (other, λ y k. inr (sub y k))
  ]

  walk-Closed :
      (fuel : ℕ) (frontier visited : List String)
      → Explored visited frontier
      → walk succ target fuel frontier visited ≡ ok tt
      → (final : List String) × Closed visited frontier final
  unfolding walk
  walk-Closed fuel [] visited known e = (
    visited,
    record {
      kept = λ x i. i;
      covered = λ x i. elim i [ ];
      safe = λ x i.
          ((known x i).0, λ y k. elim ((known x i).1 y k) [ inl a ↦ a | inr b ↦ elim b [ ] ]);
    },
  )
  walk-Closed zero (node ∷ rest) visited known e = cc
  walk-Closed (suc fuel) (node ∷ rest) visited known e =
      let ((seen, after), visits, walks) =
        >>=-eq-ok (visit succ target (node ∷ rest) visited []) (λ r. walk succ target fuel r.1 r.0)
          e in
      let h = visit-Visited (node ∷ rest) visited [] seen after visits in
      let (final, closed) =
        walk-Closed fuel after seen (Explored-next (node ∷ rest) visited seen after known h)
          walks in
      (
        final,
        record {
          kept = λ x i. closed.kept x (h.kept x i);
          covered = λ x i. closed.kept x (h.covered x i);
          safe = closed.safe;
        },
      )

  stays_closed :
      (final : List String) (a : String) {c : String}
      → ((x : String) → In x final → (x ≢ target) × Sub (succ x) final)
      → In a final
      → Reaches succ a c
      → In c final
  stays_closed final a safe i start = i
  stays_closed final a safe i (onward {b = b} {c = c} r j) =
      (safe b (stays_closed final a safe i r)).1 c j

  -- When `_assert_no_cycle` lets an edge pass, the target follows none of the proposed superseders, in
  -- any number of steps.
  pub assert_no_cycle_sound :
      (by_ids : List String)
      → assert_no_cycle succ target by_ids ≡ ok tt
      → (b : String) → In b by_ids
      → ¬ Reaches succ b target
  unfolding assert_no_cycle
  assert_no_cycle_sound by_ids e b i r =
      let (final, closed) = walk-Closed _ by_ids [] (λ x j. elim j [ ]) e in
      (closed.safe target (stays_closed final b closed.safe (closed.covered b i) r)).0 refl

  -- The nodes that a walk meets follow the ids that it started from.
  abbrev Follows : List String → String → Type 0
  Follows by_ids x = (b : String) × In b by_ids × Reaches succ b x

  abbrev Met : List String → Result (List String × List String) → Type 0
  Met by_ids (ok (seen, after)) = (x : String) → In x after → Follows by_ids x
  Met by_ids (raise e) = (e ≡ would_cycle target) × Follows by_ids target

  Follows-next :
      (by_ids next : List String) (node : String)
      → Follows by_ids node
      → ((x : String) → In x next → Follows by_ids x)
      → (x : String) → In x (next ++ succ node)
      → Follows by_ids x
  Follows-next by_ids next node (b, i, r) known x j = elim (In-append x next (succ node) j) [
    | inl k ↦ known x k
    | inr k ↦ (b, i, onward r k)
  ]

  visit-Met :
      (by_ids frontier visited next : List String)
      → ((x : String) → In x frontier → Follows by_ids x)
      → ((x : String) → In x next → Follows by_ids x)
      → Met by_ids (visit succ target frontier visited next)
  unfolding visit
  visit-Met by_ids [] visited next front known = known
  visit-Met by_ids (node ∷ rest) visited next front known = elim (Bool-cases (node == target)) [
    | inl hit ↦
        let same : node ≡ target = (eq_iff node target).0 hit in
        rw hit (ap would_cycle same, rw (← same) (front node (here refl)))
    | inr miss ↦ rw miss (elim (Bool-cases (elem node visited)) [
      | inl old ↦ rw old (visit-Met by_ids rest visited next (λ x i. front x (there i)) known)
      | inr new ↦ rw new (
          visit-Met by_ids rest (node ∷ visited) (next ++ succ node) (λ x i. front x (there i))
            (Follows-next by_ids next node (front node (here refl)) known))
    ])
  ]

  abbrev Refused : List String → Result (Unit {0}) → Type 0
  Refused by_ids (ok done) = Unit
  Refused by_ids (raise e) =
      (e ≡ chain_too_long) ⊎ ((e ≡ would_cycle target) × Follows by_ids target)

  Refused-bind :
      (by_ids : List String) (r : Result (List String × List String))
      (rest : List String × List String → Result (Unit {0}))
      → Met by_ids r
      → ((seen after : List String)
          → ((x : String) → In x after → Follows by_ids x)
          → Refused by_ids (rest (seen, after)))
      → Refused by_ids (r >>= rest)
  Refused-bind by_ids (ok (seen, after)) rest met more = more seen after met
  Refused-bind by_ids (raise e) rest met more = inr met

  walk-Refused :
      (by_ids : List String) (fuel : ℕ) (frontier visited : List String)
      → ((x : String) → In x frontier → Follows by_ids x)
      → Refused by_ids (walk succ target fuel frontier visited)
  unfolding walk
  walk-Refused by_ids fuel [] visited front = tt
  walk-Refused by_ids zero (node ∷ rest) visited front = inl refl
  walk-Refused by_ids (suc fuel) (node ∷ rest) visited front =
      Refused-bind by_ids (visit succ target (node ∷ rest) visited [])
        (λ r. walk succ target fuel r.1 r.0)
        (visit-Met by_ids (node ∷ rest) visited [] front (λ x i. elim i [ ]))
        (λ seen after known. walk-Refused by_ids fuel after seen known)

  -- When `_assert_no_cycle` raises, it is for the depth limit, or because the edge would really close
  -- a cycle: the target follows one of the proposed superseders, in some number of steps.
  pub assert_no_cycle_complete :
      (by_ids : List String) (e : Error)
      → assert_no_cycle succ target by_ids ≡ raise e
      → (e ≡ chain_too_long)
        ⊎ ((e ≡ would_cycle target) × ((b : String) × In b by_ids × Reaches succ b target))
  unfolding assert_no_cycle
  assert_no_cycle_complete by_ids e h =
      subst (Refused by_ids) h (walk-Refused by_ids _ by_ids [] (λ x i. (x, i, start)))
