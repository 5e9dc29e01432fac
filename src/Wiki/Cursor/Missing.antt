-- ===== src/Wiki/Cursor/Missing.antt =====
-- src/memline/wiki/state.py and src/memline/wiki/batch.py: what the run after a cursor reads.
use memline.Prelude.{
  String, ◌≡◌, refl, sym, ap, subst, inl, inr, Bool, true, false, Option, List, In, filter, map,
  Bool-cases, In-filter, In-filter_of, In-map, In-map_of, eq_iff, ◌↔◌,
}
use memline.Prelude.Texts.{text_le}
use memline.Prelude.Places.{In-sort_by, In-sort_by_of}
use memline.Wiki.Batch.{Memory, stamp, touched_at, is_touched, is_ledger, select_since}
use memline.Wiki.Batch.Selecting.{Due, loose, moved, select_since-Due}
use memline.Wiki.Cursor.{Cursor, is_at, boundary_ids, close_run, since_of}
use Prim.Native.Char.{Char}
use memline.Prelude.Prefixes.{text_le-append, text_le_refl}
use Prim.Native.String.{◌∷◌, ◌++◌}

module _ (file : Option Cursor) (started_at : String) (memories : List Memory)
    (hashes : Option (List (String × String))) where
  abbrev left : Cursor
  left = close_run file started_at memories hashes

  touched-Due :
      (ledger_source : String) (later : List Memory) (m : Memory)
      → In m later
      → is_touched started_at m ≡ true
      → Due started_at ledger_source later m
  touched-Due ledger_source later m i touched = elim (Bool-cases (is_ledger ledger_source m)) [
    | inl free ↦ loose free touched
    | inr bound ↦ moved m bound i bound refl touched
  ]

  -- The run after the one that closed its cursor reads every memory that was touched at the cursor's time
  -- or later, as the texts compare, whatever the store holds by then. The cursor lists exactly the ids of
  -- the memories of its own second. A memory that the run had read, touched at the cursor's time, is in
  -- that list and is read again all the same, as long as the store holds it: a divergence, since the
  -- module says that the next run must not read it, and the plan does not look at the list.
  pub close_run_lem :
      ((ledger_source : String) (later : List Memory) (m : Memory)
        → In m later
        → text_le started_at (touched_at m) ≡ true
        → In m (
            select_since
              (since_of (close_run file started_at memories hashes))
              ledger_source
              later))
      × ((id : String)
          → In id (close_run file started_at memories hashes).boundary_memory_ids ↔ (
              (m : Memory) × In m memories
              × (id ≡ m.id)
              × (stamp (touched_at m) ≡ stamp started_at)))
      × ((m : Memory)
          → In m memories
          → touched_at m ≡ started_at
          → In m.id (close_run file started_at memories hashes).boundary_memory_ids
            × ((ledger_source : String) (later : List Memory)
                → In m later
                → In m (
                    select_since
                      (since_of (close_run file started_at memories hashes))
                      ledger_source
                      later)))
  unfolding close_run boundary_ids
  close_run_lem = (
    (λ ledger_source later m i touched.
        (select_since-Due started_at ledger_source later m).1
          (i, touched-Due ledger_source later m i touched)),
    λ id. (
      (λ i.
          let (m, j, e) =
            In-map (λ m. m.id) id (filter (is_at started_at) memories)
              (In-sort_by text_le id _ i) in
          let (k, h) = In-filter (is_at started_at) m memories j in (m, k, e, (eq_iff _ _).0 h)),
      (λ (m, k, e, h). In-sort_by_of text_le id _ (
          subst (λ x. In x (map (λ m. m.id) (filter (is_at started_at) memories))) (sym e)
            (In-map_of (λ m. m.id) m _
              (In-filter_of (is_at started_at) m memories k ((eq_iff _ _).1 h))))),
    ),
    λ m k same. (
      In-sort_by_of text_le m.id _ (
          In-map_of (λ x. x.id) m _
            (In-filter_of (is_at started_at) m memories k ((eq_iff _ _).1 (ap stamp same)))),
      (λ ledger_source later i.
          (select_since-Due started_at ledger_source later m).1
            (i, touched-Due ledger_source later m i (rw same (text_le_refl started_at)))),
    ),
  )

module _ (file : Option Cursor) (second : String) (c : Char) (offset : String)
    (memories : List Memory) (hashes : Option (List (String × String))) where
  abbrev with_offset : String
  with_offset = second ++ (c ∷ offset)

  before_cursor : (x : Memory) → touched_at x ≡ second → is_touched with_offset x ≡ false
  before_cursor x touched = rw touched (text_le-append second c offset)

  -- A cursor whose time goes on after the second, as `2026-08-01T10:00:00+00:00` does: a memory of a
  -- session whose memories were all touched last in that second is not read by the next run, whether
  -- or not the store held it when the cursor was left.
  pub boundary_missed :
      (ledger_source : String) (later : List Memory) (m : Memory)
      → In m later
      → ((x : Memory) → In x later → x.session_id ≡ m.session_id → touched_at x ≡ second)
      → In m (
          select_since
            (since_of (close_run file (second ++ (c ∷ offset)) memories hashes))
            ledger_source
            later)
      → ⊥
  unfolding close_run
  boundary_missed ledger_source later m i all j =
      elim ((select_since-Due with_offset ledger_source later m).0 j).1 [
        | loose free late ↦ apart late (before_cursor m (all m i refl))
        | moved x bound k bound_x same late ↦ apart late (before_cursor x (all x k same))
      ]
    where
      apart : {b : Bool} → b ≡ true → b ≡ false → ⊥
      apart e f = cc
