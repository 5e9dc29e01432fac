-- ===== src/Wiki/Cursor/Tests.antt =====
-- A cursor on concrete memories: one read before it was left, one written after it in the same second.
use memline.Prelude.{String, ◌≡◌, refl, ap, true, none, List, [], ◌∷◌, ◌↔◌, In, here, there}
use memline.Prelude.Texts.{text_le}
use memline.Wiki.Batch.{Memory, stamp, touched_at, select_since, group_by_session}
use memline.Wiki.Cursor.{Cursor, boundary_ids, close_run, since_of}
use memline.Wiki.Cursor.Missing.{close_run_lem, boundary_missed}

abbrev written : String → String → String → Memory
written id created_at session_id = record {
  id = id;
  created_at = created_at;
  updated_at = "";
  session_id = session_id;
  source = "agent";
  ingested_at = "";
  updated_by_cli_at = "";
}

abbrev seen : Memory
seen = written "m1" "2026-08-01T10:00:00" "s1"

abbrev fresh : Memory
fresh = written "m2" "2026-08-01T10:00:00" "s2"

abbrev second : String
second = "2026-08-01T10:00:00"

program : Unit {0}
unfolding boundary_ids close_run touched_at select_since group_by_session
program = tt

abbrev cursor : Cursor
cursor = close_run none second (seen ∷ []) none

-- The ids of the boundary are kept, and no plan reads them: the memory that was seen is read again.
boundary_again : select_since (since_of cursor) "agent-memory-ledger" (seen ∷ []) ≡ seen ∷ []
unfolding program
boundary_again = refl

cursor_lists : cursor.boundary_memory_ids ≡ "m1" ∷ []
unfolding program
cursor_lists = refl

abbrev with_offset : String
with_offset = "2026-08-01T10:00:00+00:00"

abbrev later : List Memory
later = seen ∷ fresh ∷ []

close_run_lem_example :
    ((ledger_source : String) (store : List Memory) (m : Memory)
      → In m store
      → text_le second (touched_at m) ≡ true
      → In m (select_since (since_of (close_run none second (seen ∷ []) none)) ledger_source store))
    × ((id : String)
        → In id (close_run none second (seen ∷ []) none).boundary_memory_ids
          ↔ ((m : Memory) × In m (seen ∷ []) × (id ≡ m.id) × (stamp (touched_at m) ≡ stamp second)))
    × ((m : Memory)
        → In m (seen ∷ [])
        → touched_at m ≡ second
        → In m.id (close_run none second (seen ∷ []) none).boundary_memory_ids
          × ((ledger_source : String) (store : List Memory)
              → In m store
              → In m (
                  select_since
                    (since_of (close_run none second (seen ∷ []) none))
                    ledger_source
                    store)))
close_run_lem_example = close_run_lem none second (seen ∷ []) none

all_touched : (x : Memory) → In x later → x.session_id ≡ "s2" → touched_at x ≡ second
unfolding program
all_touched x (here e) same = ap touched_at e
all_touched x (there (here e)) same = ap touched_at e
all_touched x (there (there i)) same = elim i [ ]

-- The fresh memory, written after the cursor was left, is not read.
boundary_missed_example :
    In fresh (
      select_since
        (since_of (close_run none with_offset (seen ∷ []) none))
        "agent-memory-ledger"
        later)
    → ⊥
boundary_missed_example =
    boundary_missed none second "+" "00:00" (seen ∷ []) none "agent-memory-ledger" later fresh
      (there (here refl)) all_touched
