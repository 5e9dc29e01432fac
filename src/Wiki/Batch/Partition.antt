-- ===== src/Wiki/Batch/Partition.antt =====
-- src/memline/wiki/batch.py, `plan_batches`: the plan holds each memory as often as the store does.
use memline.Prelude.{
  ℕ, suc, ◌+◌, ◌<◌, String, ◌≡◌, refl, sym, ap, ◌∙◌, Bool, List, [], ◌∷◌, ◌++◌, arith, count,
  length,
}
use memline.Prelude.Table.{sort_by}
use memline.Prelude.Counting.{concat, weigh, count-append, count-map, weigh-append, weigh-sort_by}
use memline.Wiki.Batch.{
  Memory, Sessions, Batch, Kind, State, SessionEntry, ids, members, batch_of, pack_of, flushed,
  flush_pack, cut, push, part_batches, part_of_session, place, place_all, session_earlier,
  ledger_batches, numbered, plan_groups, plan_batches, group_by_session,
}
use memline.Wiki.Batch.Placing.{place-cases}
use memline.Wiki.Batch.Chunks.{concat-cut}
use memline.Wiki.Batch.Grouping.{count_group, count-members, grouped, grouped-group_by_session}

-- The ids that a plan holds, one after another.
abbrev pub all_ids : List Batch → List String
all_ids [] = []
all_ids (b ∷ batches) = b.memory_ids ++ all_ids batches

module _ (q : String → Bool) where
  abbrev p : Memory → Bool
  p m = q m.id

  abbrev planned : List Batch → ℕ
  planned batches = count q (all_ids batches)

  planned-append : (xs ys : List Batch) → planned (xs ++ ys) ≡ planned xs + planned ys
  planned-append [] ys = omega arith
  planned-append (b ∷ xs) ys = omega (
    arith,
    count-append q b.memory_ids (all_ids (xs ++ ys)),
    count-append q b.memory_ids (all_ids xs),
    planned-append xs ys,
  )

  planned-batch_of :
      (kind : Kind) (sids : List String) (ms : List Memory) (entries : List SessionEntry)
      → planned (batch_of kind sids ms entries ∷ []) ≡ count p ms
  planned-batch_of kind sids ms entries =
      omega (arith, count-append q (ids ms) [], count-map (λ (m : Memory). m.id) q ms)

  -- The memories in the batches and in the sessions that wait.
  abbrev held : State → ℕ
  held st = planned st.batches + weigh (count_group p) st.pending

  held-flushed :
      (batches : List Batch) (pending : Sessions)
      → (planned (flushed batches pending).batches
          ≡ planned batches + weigh (count_group p) pending)
        × ((flushed batches pending).pending ≡ [])
  held-flushed batches [] = (omega arith, refl)
  held-flushed batches (s ∷ pending) = (
    omega (
      arith,
      planned-append batches (pack_of (s ∷ pending) ∷ []),
      planned-batch_of _ _ (members (s ∷ pending)) _,
      count-members p (s ∷ pending),
    ),
    refl,
  )

  planned-parts :
      (session_id : String) (part_count number : ℕ) (parts : List (List Memory))
      → planned (part_batches session_id part_count number parts) ≡ count p (concat parts)
  planned-parts session_id part_count number [] = refl
  planned-parts session_id part_count number (part ∷ parts) = omega (
    arith,
    count-append q (ids part) (all_ids (part_batches session_id part_count (suc number) parts)),
    count-map (λ (m : Memory). m.id) q part,
    planned-parts session_id part_count (suc number) parts,
    count-append p part (concat parts),
  )

  planned-ledger :
      (parts : List (List Memory)) → planned (ledger_batches parts) ≡ count p (concat parts)
  planned-ledger [] = refl
  planned-ledger (part ∷ parts) = omega (
    arith,
    count-append q (ids part) (all_ids (ledger_batches parts)),
    count-map (λ (m : Memory). m.id) q part,
    planned-ledger parts,
    count-append p part (concat parts),
  )

  planned-numbered : (n : ℕ) (batches : List Batch) → planned (numbered n batches) ≡ planned batches
  planned-numbered n [] = refl
  planned-numbered n (b ∷ batches) = omega (
    arith,
    count-append q b.memory_ids (all_ids (numbered (suc n) batches)),
    count-append q b.memory_ids (all_ids batches),
    planned-numbered (suc n) batches,
  )

  held-push : (s : String × List Memory) (st : State) → held (push s st) ≡ held st + count p s.1
  held-push s st = omega (arith, weigh-append (count_group p) st.pending (s ∷ []))

  held-flush_pack : (st : State) → held (flush_pack st) ≡ held st
  held-flush_pack st = let h = held-flushed st.batches st.pending in rw h.1 (omega (arith, h.0))

  module _ (max_memories pack_threshold : ℕ) (positive : 0 < max_memories) where
    -- One turn of the loop adds the memories of its session.
    held-place :
        (session_id : String) (group : List Memory) (st : State)
        → held (place max_memories pack_threshold (session_id, group) st) ≡ held st + count p group
    held-place session_id group st =
        let flush = held-flush_pack st in
        let waiting = held-flushed st.batches st.pending in
        place-cases max_memories pack_threshold session_id group st
          (λ later. held later ≡ held st + count p group)
          (λ large. omega (
            arith,
            waiting.0,
            planned-append (flush_pack st).batches (part_of_session max_memories session_id group),
            planned-parts session_id (length (cut max_memories group)) 1 (cut max_memories group),
            ap (count p) (concat-cut max_memories group positive),
          ))
          (λ alone. omega (
            arith,
            flush,
            held-push (session_id, group) (flush_pack st),
            held-flush_pack (push (session_id, group) (flush_pack st)),
          ))
          (λ new. omega (arith, flush, held-push (session_id, group) (flush_pack st)))
          (λ joined. held-push (session_id, group) st)

    held-place_all :
        (sessions : Sessions) (st : State)
        → held (place_all max_memories pack_threshold sessions st)
          ≡ held st + weigh (count_group p) sessions
    held-place_all [] st = omega arith
    held-place_all (s ∷ sessions) st = omega (
      arith,
      held-place s.0 s.1 st,
      held-place_all sessions (place max_memories pack_threshold s st),
    )

    planned-plan_groups :
        (g : Sessions × List Memory)
        → planned (plan_groups max_memories pack_threshold g) ≡ grouped p g
    planned-plan_groups (sessions, rest) =
        let start : State = record { batches = []; pending = [] } in
        let ordered = sort_by session_earlier sessions in
        let end = place_all max_memories pack_threshold ordered start in
        let waiting = held-flushed end.batches end.pending in
        omega (
          arith,
          planned-numbered 0 ((flush_pack end).batches ++ ledger_batches (cut max_memories rest)),
          planned-append (flush_pack end).batches (ledger_batches (cut max_memories rest)),
          planned-ledger (cut max_memories rest),
          ap (count p) (concat-cut max_memories rest positive),
          waiting.0,
          held-place_all ordered start,
          weigh-sort_by (count_group p) session_earlier sessions,
        )

    -- A plan without a cursor holds every id exactly as often as the memories do: nothing is left out
    -- and nothing is profiled twice, whatever the sizes of the sessions, the ceiling (at least one) and
    -- the packing threshold.
    pub plan_batches-partition :
        (ledger_source : String) (memories : List Memory)
        → count q (all_ids (plan_batches "" max_memories pack_threshold ledger_source memories))
          ≡ count q (ids memories)
    unfolding plan_batches
    plan_batches-partition ledger_source memories =
        planned-plan_groups (group_by_session ledger_source memories)
        ∙ grouped-group_by_session p ledger_source memories
        ∙ sym (count-map (λ (m : Memory). m.id) q memories)
