-- ===== src/Wiki/Batch/Limits.antt =====
-- src/memline/wiki/batch.py, `plan_batches`: the size of a batch.
use memline.Prelude.{
  ℕ, suc, ◌+◌, ◌≤◌, ◌<◌, String, ◌≡◌, refl, sym, inl, inr, false, List, [], ◌∷◌, ◌++◌, ltb, ◌==◌,
  if◌then◌else◌, arith, length, Bool-cases, All, length-append, length-map, not_ltb→le,
}
use memline.Prelude.Table.{sort_by}
use memline.Prelude.Counting.{All-sort_by, All-append}
use memline.Wiki.Batch.{
  Memory, Sessions, Batch, Kind, State, SessionEntry, members, batch_of, pack_of, flushed,
  flush_pack, cut, push, part_batches, pending_size, place, place_all, session_earlier,
  ledger_batches, numbered, plan_groups, plan_batches, group_by_session, group_all, add_to,
  is_ledger, select_since, earlier,
}
use memline.Wiki.Batch.Placing.{place-cases}
use memline.Wiki.Batch.Chunks.{Fits, chunks-Fits}

-- A batch of at least one memory and at most `limit`, that says how many it has.
pub record Sized (limit : ℕ) (b : Batch) : Type 0 where
  pub counted : b.memory_count ≡ length b.memory_ids
  pub some_memory : 0 < b.memory_count
  pub limited : b.memory_count ≤ limit

abbrev pub Filled : String × List Memory → Type 0
Filled s = 0 < length s.1

length-members : (sessions : Sessions) → length (members sessions) ≡ pending_size sessions
length-members [] = refl
length-members (s ∷ sessions) =
    omega (arith, length-append s.1 (members sessions), length-members sessions)

pending_size-append :
    (xs ys : Sessions) → pending_size (xs ++ ys) ≡ pending_size xs + pending_size ys
pending_size-append [] ys = omega arith
pending_size-append (s ∷ xs) ys = omega (arith, pending_size-append xs ys)

add_to-Filled :
    (session_id : String) (m : Memory) (sessions : Sessions)
    → All Filled sessions
    → All Filled (add_to session_id m sessions)
add_to-Filled session_id m [] h = (omega arith, tt)
add_to-Filled session_id m ((s, group) ∷ sessions) h = elim (Bool-cases (s == session_id)) [
  | inl same ↦ rw same (omega (arith, length-append group (m ∷ [])), h.1)
  | inr other ↦ rw other (h.0, add_to-Filled session_id m sessions h.1)
]

group_all-Filled :
    (ledger_source : String) (ms : List Memory) (sessions : Sessions) (ledger : List Memory)
    → All Filled sessions
    → All Filled (group_all ledger_source ms (sessions, ledger)).0
group_all-Filled ledger_source [] sessions ledger h = h
group_all-Filled ledger_source (m ∷ ms) sessions ledger h =
    elim (Bool-cases (is_ledger ledger_source m)) [
      | inl loose ↦
          rw (loose, group_all) (group_all-Filled ledger_source ms sessions (ledger ++ m ∷ []) h)
      | inr bound ↦
          rw (bound, group_all)
            (group_all-Filled ledger_source ms (add_to m.session_id m sessions) ledger
              (add_to-Filled m.session_id m sessions h))
    ]

module _ (limit : ℕ) where
  batch_of-Sized :
      (kind : Kind) (sids : List String) (ms : List Memory) (entries : List SessionEntry)
      → Fits limit ms
      → Sized limit (batch_of kind sids ms entries)
  batch_of-Sized kind sids ms entries h = record {
    counted = sym (length-map (λ (m : Memory). m.id) ms);
    some_memory = h.0;
    limited = h.1;
  }

  parts-Sized :
      (session_id : String) (part_count number : ℕ) (parts : List (List Memory))
      → All (Fits limit) parts
      → All (Sized limit) (part_batches session_id part_count number parts)
  parts-Sized session_id part_count number [] h = tt
  parts-Sized session_id part_count number (part ∷ parts) h =
      (batch_of-Sized _ _ part _ h.0, parts-Sized session_id part_count (suc number) parts h.1)

  ledger-Sized :
      (parts : List (List Memory))
      → All (Fits limit) parts
      → All (Sized limit) (ledger_batches parts)
  ledger-Sized [] h = tt
  ledger-Sized (part ∷ parts) h = (batch_of-Sized _ _ part _ h.0, ledger-Sized parts h.1)

  numbered-Sized :
      (n : ℕ) (batches : List Batch)
      → All (Sized limit) batches
      → All (Sized limit) (numbered n batches)
  numbered-Sized n [] h = tt
  numbered-Sized n (b ∷ batches) h = (
    record { counted = h.0.counted; some_memory = h.0.some_memory; limited = h.0.limited },
    numbered-Sized (suc n) batches h.1,
  )

  -- The loop keeps this.
  record Fine (st : State) : Type 0 where
    batches : All (Sized limit) st.batches
    filled : All Filled st.pending
    room : pending_size st.pending ≤ limit

  flushed-Sized :
      (batches : List Batch) (pending : Sessions)
      → All (Sized limit) batches
      → All Filled pending
      → pending_size pending ≤ limit
      → All (Sized limit) (flushed batches pending).batches
        × ((flushed batches pending).pending ≡ [])
  flushed-Sized batches [] good filled room = (good, refl)
  flushed-Sized batches (s ∷ pending) good filled room = (
    All-append (Sized limit) batches (pack_of (s ∷ pending) ∷ []) good (
      batch_of-Sized _ _ (members (s ∷ pending)) _ (
        omega (arith, length-members (s ∷ pending), filled.0),
        omega (arith, length-members (s ∷ pending)),
      ),
      tt,
    ),
    refl,
  )

  flush-Fine : (st : State) → Fine st → Fine (flush_pack st)
  flush-Fine st fine =
      let h = flushed-Sized st.batches st.pending fine.batches fine.filled fine.room in
      record { batches = h.0; filled = rw h.1 tt; room = rw h.1 (omega arith) }

  push-Fine :
      (s : String × List Memory) (st : State)
      → Fine st
      → Filled s
      → pending_size st.pending + length s.1 ≤ limit
      → Fine (push s st)
  push-Fine s st fine filled room = record {
    batches = fine.batches;
    filled = All-append Filled st.pending (s ∷ []) fine.filled (filled, tt);
    room = omega (arith, pending_size-append st.pending (s ∷ []));
  }

  flush_push-room :
      (s : String × List Memory) (st : State)
      → Fine st
      → length s.1 ≤ limit
      → pending_size (flush_pack st).pending + length s.1 ≤ limit
  flush_push-room s st fine short =
      let h = flushed-Sized st.batches st.pending fine.batches fine.filled fine.room in
      rw h.1 (omega arith)

  module _ (pack_threshold : ℕ) (positive : 0 < limit) where
    place-Fine :
        (session_id : String) (group : List Memory) (st : State)
        → Fine st
        → Filled (session_id, group)
        → Fine (place limit pack_threshold (session_id, group) st)
    place-Fine session_id group st fine filled =
        let flushed_fine = flush-Fine st fine in
        let push_new = λ (short : ltb limit (length group) ≡ false).
          push-Fine (session_id, group) (flush_pack st) flushed_fine filled
            (flush_push-room (session_id, group) st fine (not_ltb→le limit (length group) short)) in
        place-cases limit pack_threshold session_id group st Fine
          (λ large. record {
            batches = All-append (Sized limit) (flush_pack st).batches _ flushed_fine.batches (
                parts-Sized session_id (length (cut limit group)) 1 (cut limit group)
                  (chunks-Fits (length group) limit group positive));
            filled = tt;
            room = omega arith;
          })
          (λ alone. flush-Fine (push (session_id, group) (flush_pack st)) (push_new alone)) push_new
          (λ joined.
            push-Fine (session_id, group) st fine filled
              (not_ltb→le limit (pending_size st.pending + length group) joined))

    place_all-Fine :
        (sessions : Sessions) (st : State)
        → Fine st
        → All Filled sessions
        → Fine (place_all limit pack_threshold sessions st)
    place_all-Fine [] st fine filled = fine
    place_all-Fine (s ∷ sessions) st fine filled =
        place_all-Fine sessions (place limit pack_threshold s st)
          (place-Fine s.0 s.1 st fine filled.0) filled.1

    plan_groups-Sized :
        (g : Sessions × List Memory)
        → All Filled g.0
        → All (Sized limit) (plan_groups limit pack_threshold g)
    plan_groups-Sized (sessions, rest) filled =
        let start : State = record { batches = []; pending = [] } in
        let ordered = sort_by session_earlier sessions in
        let last = place_all limit pack_threshold ordered start in
        let fine = flush-Fine last (
          place_all-Fine ordered start (record { batches = tt; filled = tt; room = omega arith })
            (All-sort_by Filled session_earlier sessions filled)) in
        numbered-Sized 0 ((flush_pack last).batches ++ ledger_batches (cut limit rest)) (
          All-append (Sized limit) (flush_pack last).batches (ledger_batches (cut limit rest))
            fine.batches
            (ledger-Sized (cut limit rest) (chunks-Fits (length rest) limit rest positive)))

    -- Every batch of a plan, with a cursor or without, has at least one memory and at most the ceiling
    -- (which is at least one), and its count is the number of its ids.
    pub plan_batches-Sized :
        (since ledger_source : String) (memories : List Memory)
        → All (Sized limit) (plan_batches since limit pack_threshold ledger_source memories)
    unfolding plan_batches group_by_session
    plan_batches-Sized since ledger_source memories =
        let taken = if since == "" then memories else select_since since ledger_source memories in
        plan_groups-Sized (group_by_session ledger_source taken)
          (group_all-Filled ledger_source (sort_by earlier taken) [] [] tt)
