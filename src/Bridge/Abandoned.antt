-- ===== src/Bridge/Abandoned.antt =====
-- src/memline/bridge.py: what `request` leaves behind when it returns or raises.
use memline.Prelude.{
  ℕ, String, ◌≡◌, refl, inl, inr, Bool, true, false, not, some, List, [], ◌∷◌, ◌==◌, arith, eq_iff,
  find, filter, count, Bool-cases, Option-cases,
}
use memline.Prelude.Table.{update_where}
use memline.Prelude.Order.{has_key, Keyed}
use memline.Dict.{Dict}
use memline.Bridge.{
  Request, BridgeQueue, error, waits, answered_row, failure, is_ready, enqueue, response, answer_of,
  acknowledge, acknowledgeable, cancel_if_queued,
}
use memline.Bridge.History.{Call, enqueues, cancels, step, run, handed, submitted}
use memline.Bridge.Once.{handed-le}
use memline.Bridge.Once as Once
use memline.Bridge.Mailbox.{WellFormed}
use memline.Bridge.Refinement.{step-WellFormed}
use memline.Bridge.Client.{Poll, Outcome, await, unless_stopped, stopped_before, request}

pub run-WellFormed :
    (calls : List (ℕ × Call)) (q : BridgeQueue) → WellFormed q → WellFormed (run calls q)
unfolding run
run-WellFormed [] q well = well
run-WellFormed ((now, c) ∷ calls) q well =
    run-WellFormed calls (step now c q) (step-WellFormed q well now c)

module _ (id : String) where
  count-absent :
      (rows : List Request) → has_key (λ r. r.id) id rows ≡ false → count (waits id) rows ≡ 0
  count-absent [] h = refl
  count-absent (r ∷ rows) h = ground (arith, count-absent rows)

  count-cancelled :
      (now : ℕ) (d : Dict) (rows : List Request)
      → count (waits id) (update_where (waits id) (answered_row now error d) rows) ≡ 0
  count-cancelled now d [] = refl
  count-cancelled now d (r ∷ rows) = ground (arith, count-cancelled now d rows)

  -- A request that has an answer does not wait.
  count-answered :
      (rows : List Request) (d : Dict)
      → Keyed (λ r. r.id) rows
      → answer_of (find (λ r. r.id == id) rows) ≡ some d
      → count (waits id) rows ≡ 0
  count-answered [] d keyed h = refl
  count-answered (r ∷ rows) d keyed h = elim (Bool-cases (r.id == id)) [
    | inl same ↦
        let rest : has_key (λ x. x.id) id rows ≡ false = ground (arith, eq_iff r.id id, keyed.0) in
        let none_left = count-absent rows rest in ground arith
    | inr other ↦ let rest = count-answered rows d keyed.1 (rw other at h) in ground arith
  ]

  count-filter_zero :
      (p : Request → Bool) (rows : List Request)
      → count (waits id) rows ≡ 0
      → count (waits id) (filter p rows) ≡ 0
  count-filter_zero p [] h = refl
  count-filter_zero p (r ∷ rows) h = ground (arith, count-filter_zero p rows)

  acknowledged-Over :
      (q : BridgeQueue) (d : Dict)
      → WellFormed q
      → response id q ≡ some d
      → Once.waiting id (acknowledge id q) ≡ 0
  unfolding response acknowledge
  acknowledged-Over q d well h =
      count-filter_zero (λ r. not (acknowledgeable id r)) q.requests
        (count-answered q.requests d well.keyed h)

  stopped-Over :
      (now : ℕ) (q : BridgeQueue)
      → (unless_stopped id now q).1 ≡ true
      → Once.waiting id (unless_stopped id now q).0 ≡ 0
  unfolding cancel_if_queued
  stopped-Over now q h = elim (Bool-cases (is_ready now q)) [
    | inl up ↦ cc
    | inr down ↦ rw down (count-cancelled now (failure stopped_before) q.requests)
  ]

  stopped-WellFormed :
      (now : ℕ) (q : BridgeQueue) → WellFormed q → WellFormed (unless_stopped id now q).0
  unfolding step
  stopped-WellFormed now q well = elim (Bool-cases (is_ready now q)) [
    | inl up ↦ rw up well
    | inr down ↦ rw down (step-WellFormed q well now (cancels id stopped_before))
  ]

  await-Over :
      (timed_out : String) (last : ℕ) (polls : List Poll) (q : BridgeQueue)
      → WellFormed q
      → Once.waiting id (await timed_out id last polls q).0 ≡ 0
  unfolding await cancel_if_queued
  await-Over timed_out last [] q well = count-cancelled last (failure timed_out) q.requests
  await-Over timed_out last (p ∷ polls) q well =
      let seen = run p.before q in
      let sound = run-WellFormed p.before q well in
      elim (Option-cases (response id seen)) [
        | inr (d, e) ↦ rw (e, await) (acknowledged-Over seen d sound e)
        | inl nothing ↦ elim (Bool-cases (unless_stopped id p.now seen).1) [
          | inl over ↦ rw (nothing, over, await) (stopped-Over p.now seen over)
          | inr on ↦
              rw (nothing, on, await)
                (await-Over timed_out last polls (unless_stopped id p.now seen).0
                  (stopped-WellFormed p.now seen sound))
        ]
      ]

  -- Once `request` has returned or raised, on every path (an answer, a failure, a timeout, a daemon
  -- that is not there or stops), with the other processes' calls of any kind between its polls, no
  -- worker is ever handed the request afterwards, unless some call submits its id again. The table has
  -- no repeated ids and no marked rows at the start, and the id is fresh.
  pub request_over :
      (timed_out : String) (payload : Dict) (now : ℕ) (polls : List Poll) (last : ℕ)
      (q after : BridgeQueue) (outcome : Outcome) (calls : List (ℕ × Call))
      → WellFormed q
      → has_key (λ r. r.id) id q.requests ≡ false
      → request timed_out id payload now polls last (some q) ≡ (some after, outcome)
      → submitted id calls ≡ 0
      → handed id calls after ≡ 0
  unfolding request step
  request_over timed_out payload now polls last q after outcome calls well fresh e quiet =
      let over : Once.waiting id after ≡ 0 = elim (Bool-cases (is_ready now q)) [
        | inl up ↦
            let started = enqueue now id payload q in
            let same : after ≡ (await timed_out id last polls started).0 = ground arith in
            rw same (
              await-Over timed_out last polls started
                (step-WellFormed q well now (enqueues id payload)))
        | inr down ↦ let same : after ≡ q = ground arith in rw same (count-absent q.requests fresh)
      ] in
      omega (arith, handed-le id calls after)
