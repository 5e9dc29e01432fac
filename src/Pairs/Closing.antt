-- ===== src/Pairs/Closing.antt =====
-- src/memline/staleness.py, `PairStore`: what the closures leave open, and how many they report.
use memline.Prelude.{
  ℕ, String, ◌≡◌, refl, inl, inr, Bool, false, ◌&&◌, ◌||◌, Option, none, [], ◌∷◌, ◌==◌, arith,
  filter, count, elem, length, Bool-cases, filter-map_nil,
}
use memline.Prelude.Order.{updated}
use memline.Pairs.{
  Disposition, Pair, PairStore, is_opened, close_for_old, is_open_for_old, close_for_deleted_memory,
  open_for_old_ids, close,
}

module _ (now : ℕ) (old_id : String) (disposition : Disposition) (by : Option String) where
  abbrev open_now : Pair → Bool
  open_now p = is_opened p.disposition && elem p.old_id (old_id ∷ []) && p.old_id == old_id

  closed_now :
      (p : Pair)
      → is_opened disposition ≡ false
      → open_now (updated (is_open_for_old old_id none) (close now disposition by) p) ≡ false
  closed_now p h = elim (Bool-cases (is_open_for_old old_id none p)) [
    | inl hit ↦ rw (hit, updated) (rw h)
    | inr miss ↦ rw (miss, updated) (ground arith)
  ]

  counted :
      (rows : PairStore) → count (is_open_for_old old_id none) rows ≡ length (filter open_now rows)
  counted [] = refl
  counted (p ∷ rows) = ground (arith, counted rows)

  -- Closing the pairs of an old entry, of all kinds and to a disposition other than open, leaves no open
  -- pair against it, and the answer is the number of pairs that were open against it.
  pub close_for_old_all :
      (rows : PairStore)
      → is_opened disposition ≡ false
      → (open_for_old_ids (old_id ∷ []) (close_for_old now old_id disposition by none rows).0 old_id
          ≡ [])
        × ((close_for_old now old_id disposition by none rows).1
            ≡ length (open_for_old_ids (old_id ∷ []) rows old_id))
  unfolding close_for_old open_for_old_ids
  close_for_old_all rows h = (
    filter-map_nil open_now (updated (is_open_for_old old_id none) (close now disposition by))
        (λ p. closed_now p h) rows,
    counted rows,
  )

-- Whether an open pair names a memory, on either side.
abbrev pub is_open_about : String → Pair → Bool
is_open_about id p = is_opened p.disposition && (p.old_id == id || p.new_id == id)

-- After a memory is deleted no open pair names it on either side; the answer counts the open pairs
-- that did, each once.
pub close_for_deleted_memory_all :
    (now : ℕ) (id : String) (rows : PairStore)
    → (count (is_open_about id) (close_for_deleted_memory now id rows).0 ≡ 0)
      × ((close_for_deleted_memory now id rows).1 ≡ count (is_open_about id) rows)
unfolding close_for_deleted_memory
close_for_deleted_memory_all now id [] = (refl, refl)
close_for_deleted_memory_all now id (p ∷ rows) =
    let ih = close_for_deleted_memory_all now id rows in
    (ground (arith, ih.0), ground (arith, ih.1))
