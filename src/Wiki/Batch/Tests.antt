-- ===== src/Wiki/Batch/Tests.antt =====
-- The batch plan on concrete memories, and the theorems about it at them.
use memline.Prelude.{
  String, ◌≡◌, refl, true, List, [], ◌∷◌, ◌==◌, arith, count, map, All, In, here, ◌↔◌, there,
}
use memline.Wiki.Batch.{
  Memory, Batch, Kind, session, pack, ledger, session_part, group_by_session, touched_at,
  select_since, plan_batches, plan_summary, ids, is_touched, earlier, is_ledger,
}
use memline.Wiki.Batch.Partition.{all_ids, plan_batches-partition}
use memline.Wiki.Batch.Limits.{Sized, plan_batches-Sized}
use memline.Wiki.Batch.Grouped.{Distinct, group_of, belongs, group_by_session-filters}
use memline.Wiki.Batch.Selecting.{Due, moved, select_since-Due}
use memline.Prelude.{filter}
use memline.Prelude.Table.{sort_by}

abbrev written : String → String → String → Memory
written id created_at session_id = record {
  id = id;
  created_at = created_at;
  updated_at = "";
  session_id = session_id;
  source = "agent";
  ingested_at = "";
  updated_by_cli_at = "";
}

abbrev m1 : Memory
m1 = written "m1" "2026-07-01T10:00:00.5" "s1"

abbrev m2 : Memory
m2 = written "m2" "2026-07-01T11:00:00.5" "s1"

abbrev m3 : Memory
m3 = record (written "m3" "2026-07-02T10:00:00" "s2") { updated_at = "2026-07-09T10:00:00" }

abbrev m4 : Memory
m4 = written "m4" "2026-07-02T11:00:00" "s2"

abbrev m5 : Memory
m5 = written "m5" "2026-07-02T12:00:00" "s2"

abbrev old : Memory
old = written "m0" "2026-01-01T00:00:00" ""

abbrev store : List Memory
store = m4 ∷ m1 ∷ m5 ∷ old ∷ m3 ∷ m2 ∷ []

program : Unit {0}
unfolding group_by_session touched_at select_since plan_batches plan_summary
program = tt

-- The session of three memories is cut in two parts of at most two, and the ledger comes last although
-- its memory is the oldest.
plan_cut :
    map {B = Kind × List String}
      (λ (b : Batch). (b.kind, b.memory_ids))
      (plan_batches "" 2 2 "agent-memory-ledger" store)
    ≡ (session, "m1" ∷ "m2" ∷ [])
      ∷ (session_part 1 2, "m3" ∷ "m4" ∷ [])
      ∷ (session_part 2 2, "m5" ∷ [])
      ∷ (ledger, "m0" ∷ [])
      ∷ []
unfolding program
plan_cut = refl

plan_packed :
    map {B = Kind × List String}
      (λ (b : Batch). (b.kind, b.session_ids))
      (plan_batches "" 9 9 "agent-memory-ledger" store)
    ≡ (pack, "s1" ∷ "s2" ∷ []) ∷ (ledger, []) ∷ []
unfolding program
plan_packed = refl

plan_since :
    map (λ (b : Batch). b.memory_ids) (plan_batches "2026-07-05" 9 9 "agent-memory-ledger" store)
    ≡ ("m3" ∷ "m4" ∷ "m5" ∷ []) ∷ []
unfolding program
plan_since = refl

summary : plan_summary (plan_batches "" 2 2 "agent-memory-ledger" store) ≡ record {
  batches = 4;
  by_kind = ("session", 1) ∷ ("session-part", 2) ∷ ("ledger", 1) ∷ [];
  sessions = 2;
  memories_in_sessions = 5;
  memories_in_ledger = 1;
  largest_batch = 2;
}
unfolding program
summary = refl

plan_batches-partition_example :
    count (λ i. i == "m4") (all_ids (plan_batches "" 2 2 "agent-memory-ledger" store))
    ≡ count (λ i. i == "m4") (ids store)
plan_batches-partition_example =
    plan_batches-partition (λ i. i == "m4") 2 2 (omega arith) "agent-memory-ledger" store

plan_batches-Sized_example : All (Sized 2) (plan_batches "" 2 2 "agent-memory-ledger" store)
plan_batches-Sized_example = plan_batches-Sized 2 2 (omega arith) "" "agent-memory-ledger" store

group_by_session-filters_example :
    Distinct (group_by_session "agent-memory-ledger" store).0
    × ((session_id : String)
        → group_of session_id (group_by_session "agent-memory-ledger" store).0
          ≡ filter (belongs "agent-memory-ledger" session_id) (sort_by earlier store))
    × ((group_by_session "agent-memory-ledger" store).1
        ≡ filter (is_ledger "agent-memory-ledger") (sort_by earlier store))
group_by_session-filters_example = group_by_session-filters "agent-memory-ledger" store

-- "m4" did not change, and its session did.
select_since-Due_example :
    In m4 (select_since "2026-07-05" "agent-memory-ledger" store)
    ↔ (In m4 store × Due "2026-07-05" "agent-memory-ledger" store m4)
select_since-Due_example = select_since-Due "2026-07-05" "agent-memory-ledger" store m4

m3_touched : is_touched "2026-07-05" m3 ≡ true
unfolding program
m3_touched = refl

m4-Due : Due "2026-07-05" "agent-memory-ledger" store m4
m4-Due = moved m3 refl (there (there (there (there (here refl))))) refl refl m3_touched

m4_selected : In m4 (select_since "2026-07-05" "agent-memory-ledger" store)
m4_selected = (select_since-Due "2026-07-05" "agent-memory-ledger" store m4).1 (here refl, m4-Due)
