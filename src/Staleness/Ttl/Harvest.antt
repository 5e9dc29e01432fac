-- ===== src/Staleness/Ttl/Harvest.antt =====
-- src/memline/staleness.py, `harvest_expired`: the flag that each harvested entry gets, and what the
-- harvest leaves alone.
use memline.Prelude.{
  ℕ, String, ◌≡◌, refl, ap, ◌∙◌, Bool, true, none, some, Option, List, [], ◌∷◌, ◌++◌, map, arith,
  if◌then◌else◌, ◌&&◌, ◌==◌, eq_refl, filter, any, elem, Bool-cases, inl, inr,
}
use memline.Prelude.Order.{updated}
use memline.Dict.{time}
use memline.Memory.{Item, MemoryClient}
use memline.Pairs.{
  Pair, PairStore, expired, is_opened, is_open_for_old, close, collides, judged_row,
  open_for_old_ids, close_for_old, record_judgment,
}
use memline.Pairs.Closing.{close_for_old_all}
use memline.Staleness.{World}
use memline.Staleness.Edges.{text_at, patched-successors, patched-text}
use memline.Staleness.Invalidating.{graph}
use memline.Staleness.Ttl.{
  is_due, expiry_flag, flag_expiry, harvest_item, harvest_items, harvest_of, harvest_expired,
}

any-map_same :
    {A : Type 0} (p : A → Bool) (f : A → A)
    → ((a : A) → p (f a) ≡ p a)
    → (xs : List A) → any p (map f xs) ≡ any p xs
any-map_same p f same [] = refl
any-map_same p f same (x ∷ xs) = rw (same x, any-map_same p f same xs) refl

filter-append_one :
    {A : Type 0} (p : A → Bool) (a : A) (xs : List A)
    → filter p xs ≡ []
    → p a ≡ true
    → filter p (xs ++ a ∷ []) ≡ a ∷ []
filter-append_one p a [] none_yet holds = rw holds refl
filter-append_one p a (x ∷ xs) none_yet holds = ground (arith, filter-append_one p a xs)

module _ (c : MemoryClient) (sha256 : String → String) (isoformat : ℕ → String) (uuid4 : ℕ → String)
    (default_user_id : String) (now : ℕ) where
  open c use {Store, lookup}

  module _ (pair_id : String) (item : Item) where
    abbrev pub flag_row : Pair
    flag_row =
        judged_row sha256 now pair_id
          (expiry_flag c sha256 isoformat uuid4 default_user_id now item)

    -- Closing the other suspicions changes neither the ids nor the versions of the rows.
    collides_same :
        (p : Pair)
        → collides flag_row (updated (is_open_for_old item.id none) (close now expired none) p)
          ≡ collides flag_row p
    collides_same p = elim (Bool-cases (is_open_for_old item.id none p)) [
      | inl hit ↦ rw (hit, updated) refl
      | inr miss ↦ rw (miss, updated) refl
    ]

    abbrev before_flag : PairStore → PairStore
    before_flag rows = (close_for_old now item.id expired none none rows).0

    none_open : (rows : PairStore) → open_for_old_ids (item.id ∷ []) (before_flag rows) item.id ≡ []
    none_open rows = (close_for_old_all now item.id expired none rows refl).0

    collides_before :
        (rows : PairStore)
        → any (collides flag_row) (before_flag rows) ≡ any (collides flag_row) rows
    unfolding close_for_old
    collides_before rows =
        any-map_same (collides flag_row)
          (updated (is_open_for_old item.id none) (close now expired none)) collides_same rows

    appended :
        (rows : PairStore)
        → open_for_old_ids (item.id ∷ []) (before_flag rows ++ flag_row ∷ []) item.id
          ≡ flag_row ∷ []
    unfolding open_for_old_ids
    appended rows =
        filter-append_one
          (λ p. is_opened p.disposition && elem p.old_id (item.id ∷ []) && p.old_id == item.id)
          flag_row (before_flag rows) (none_open rows) (rw eq_refl refl)

    recorded :
        (rows : PairStore)
        → (record_judgment sha256 now pair_id
            (expiry_flag c sha256 isoformat uuid4 default_user_id now item)
            rows).0
          ≡ (if any (collides flag_row) rows then rows else rows ++ flag_row ∷ [])
    unfolding record_judgment
    recorded rows = elim (Bool-cases (any (collides flag_row) rows)) [
      | inl known ↦ rw known refl
      | inr new ↦ rw new refl
    ]

    -- After the pair table is updated for a harvested entry, the open pairs against the entry are the
    -- one new flag of this deadline, or none where a row of the table has the flag's pair id or its
    -- version (kind, entry and salted text) already.
    pub flag_expiry_open :
        (rows : PairStore)
        → open_for_old_ids
            (item.id ∷ [])
            (flag_expiry c sha256 isoformat uuid4 default_user_id now pair_id item rows)
            item.id
          ≡ (if any (collides flag_row) rows then [] else flag_row ∷ [])
    flag_expiry_open rows =
        ap (λ t. open_for_old_ids (item.id ∷ []) t item.id) (recorded (before_flag rows))
        ∙ (elim (Bool-cases (any (collides flag_row) rows)) [
          | inl known ↦ rw (collides_before rows, known) (none_open rows)
          | inr new ↦ rw (collides_before rows, new) (appended rows)
        ])

  abbrev Same : World Store → World Store → String → Type 0
  Same later w x =
      (graph c later x ≡ graph c w x)
      × (text_at (lookup later.store x) ≡ text_at (lookup w.store x))

  item-Same :
      (item : Item) (state : World Store × ℕ) (x : String)
      → Same (harvest_item c sha256 isoformat uuid4 default_user_id now item state).0 state.0 x
  item-Same item (w, n) x = elim (Bool-cases (is_due now item)) [
    | inl due ↦ rw due (
      patched-successors c w.store item.id (("ttl_expired_at", time now) ∷ []) _ refl x,
      patched-text c w.store item.id (("ttl_expired_at", time now) ∷ []) _ refl x,
    )
    | inr skipped ↦ rw skipped (refl, refl)
  ]

  items-Same :
      (items : List Item) (state : World Store × ℕ) (x : String)
      → Same (harvest_items c sha256 isoformat uuid4 default_user_id now items state).0 state.0 x
  unfolding harvest_items
  items-Same [] state x = (refl, refl)
  items-Same (item ∷ items) state x =
      let one = item-Same item state x in
      let (edges, texts) =
        items-Same items (harvest_item c sha256 isoformat uuid4 default_user_id now item state) x in
      (edges ∙ one.0, texts ∙ one.1)

  scan-Same :
      (w : World Store) (answer : Option (List Item)) (x : String)
      → Same (harvest_of c sha256 isoformat uuid4 default_user_id now w answer).0 w x
  scan-Same w none x = (refl, refl)
  scan-Same w (some items) x = items-Same items (w, 0) x

  -- A harvest changes no supersession and no text, whatever the scan answers.
  pub harvest_expired-keeps :
      (limit : ℕ) (w : World Store) (x : String)
      → (graph c (harvest_expired c sha256 isoformat uuid4 default_user_id now limit w).0 x
          ≡ graph c w x)
        × (text_at (
              lookup
                (harvest_expired c sha256 isoformat uuid4 default_user_id now limit w).0.store
                x)
            ≡ text_at (lookup w.store x))
  unfolding harvest_expired
  harvest_expired-keeps limit w x = scan-Same w _ x
