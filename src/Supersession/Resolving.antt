-- ===== src/Supersession/Resolving.antt =====
-- src/memline/staleness.py, `resolve_head`: the heads that it answers.
use memline.Prelude.{
  ℕ, zero, suc, String, ◌≡◌, refl, inl, inr, Bool, true, false, ◌||◌, not, Option, none, some, List,
  [], ◌∷◌, elem, In, here, there, arith, Bool-cases, false_of, or_split, Option-cases,
}
use memline.Dict.{Dict, is_empty}
use memline.Supersession.{
  GetPayload, successors, superseded_ids, is_nil, payload_or_empty, Level, look, resolve_level,
  resolve,
}
use memline.Supersession.Graph.{Reaches, onward, In-append}

module _ (get_payload : GetPayload) where
  -- A memory that exists and that nothing supersedes.
  pub record IsHead (x : String) : Type 0 where
    pub payload : Dict
    pub exists : get_payload x ≡ some payload
    pub stored : is_empty payload ≡ false
    pub current : successors get_payload x ≡ []

  abbrev pub passed : Dict → Bool
  passed payload = not (is_nil (superseded_ids payload)) || is_empty payload

  pub not-false : (b : Bool) → not b ≡ false → b ≡ true
  not-false b h = ground arith

  nil_of : (xs : List String) → is_nil xs ≡ true → xs ≡ []
  nil_of [] h = refl
  nil_of (x ∷ xs) h = cc

  pub IsHead-of :
      (node : String) (o : Option Dict)
      → get_payload node ≡ o
      → is_nil (superseded_ids (payload_or_empty o)) ≡ true
      → is_empty (payload_or_empty o) ≡ false
      → IsHead node
  IsHead-of node none e h k = absurd (false_of true refl k)
  IsHead-of node (some payload) e h k = record {
    payload = payload;
    exists = e;
    stored = k;
    current = rw e (nil_of (superseded_ids payload) h);
  }

  pub succ_of :
      (node : String)
      → superseded_ids (payload_or_empty (get_payload node)) ≡ successors get_payload node
  succ_of node = elim (Option-cases (get_payload node)) [ inl e ↦ rw e | inr (p, e) ↦ rw e ]

  module _ (from : String) where
    -- What holds of a level: the nodes met follow `from`, and the heads are active.
    pub record Met (l : Level) : Type 0 where
      pub next : (x : String) → In x l.next → Reaches (successors get_payload) from x
      pub heads : (x : String) → In x l.heads → Reaches (successors get_payload) from x × IsHead x

    abbrev pub Leads : String → Type 0
    Leads x = Reaches (successors get_payload) from x

    look_next :
        (node : String) (l : Level)
        → Leads node
        → ((x : String) → In x l.next → Leads x)
        → (x : String) → In x (look node (payload_or_empty (get_payload node)) l).next
        → Leads x
    look_next node l r known x i = elim (In-append x l.next _ i) [
      | inl j ↦ known x j
      | inr j ↦ onward r (rw (succ_of node) at j)
    ]

    look_heads :
        (node : String) (l : Level)
        → Leads node
        → ((x : String) → In x l.heads → Leads x × IsHead x)
        → (x : String) → In x (look node (payload_or_empty (get_payload node)) l).heads
        → Leads x × IsHead x
    look_heads node l r known x i =
        elim (Bool-cases (passed (payload_or_empty (get_payload node)))) [
          | inl skip ↦ known x (rw skip at i)
          | inr hit ↦ elim (In-append x l.heads _ (rw hit at i)) [
            | inl j ↦ known x j
            | inr j ↦ new_head j hit
          ]
        ]
      where
        new_head :
            In x (node ∷ [])
            → passed (payload_or_empty (get_payload node)) ≡ false
            → Leads x × IsHead x
        new_head (here e) hit = rw e (
          r,
          IsHead-of node (get_payload node) refl (not-false _ (or_split _ _ hit).0)
              (or_split _ _ hit).1,
        )
        new_head (there j) hit = elim j [ ]

    look-Met :
        (node : String) (l : Level)
        → Leads node
        → Met l
        → Met (look node (payload_or_empty (get_payload node)) l)
    look-Met node l r m = record {
      next = look_next node l r m.next;
      heads = look_heads node l r m.heads;
    }

    resolve_level-Met :
        (frontier : List String) (l : Level)
        → ((x : String) → In x frontier → Leads x)
        → Met l
        → Met (resolve_level get_payload frontier l)
    unfolding resolve_level
    resolve_level-Met [] l front m = m
    resolve_level-Met (node ∷ rest) l front m = elim (Bool-cases (elem node l.visited)) [
      | inl old ↦ rw old (resolve_level-Met rest l (λ x i. front x (there i)) m)
      | inr new ↦ rw new (
          resolve_level-Met rest _ (λ x i. front x (there i))
            (look-Met node l (front node (here refl)) m))
    ]

    pub resolve_sound :
        (requested : String) (fuel : ℕ) (frontier visited heads : List String) (hops : ℕ)
        → ((x : String) → In x frontier → Leads x)
        → ((x : String) → In x heads → Leads x × IsHead x)
        → (x : String) → In x (resolve get_payload requested fuel frontier visited heads hops).heads
        → Leads x × IsHead x
    unfolding resolve
    resolve_sound requested fuel [] visited heads hops front known = known
    resolve_sound requested zero (node ∷ rest) visited heads hops front known = known
    resolve_sound requested (suc fuel) (node ∷ rest) visited heads hops front known =
        let m =
          resolve_level-Met (node ∷ rest) (record { visited = visited; next = []; heads = heads })
            front (record { next = λ x i. elim i [ ]; heads = known }) in
        resolve_sound requested fuel _ _ _ _ m.next m.heads
