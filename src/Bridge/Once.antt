-- ===== src/Bridge/Once.antt =====
-- src/memline/bridge.py: how often a request is handed to a worker, over any history of calls.
use memline.Prelude.{
  ℕ, ◌+◌, ◌-◌, ◌*◌, ◌≤◌, String, ◌≡◌, refl, inl, inr, Bool, false, not, List, [], ◌∷◌, ◌++◌, ◌==◌,
  if◌then◌else◌, arith, eq_iff, count, filter, Bool-cases, String-cases,
}
use memline.Prelude.Table.{update_where}
use memline.Prelude.Order.{has_key}
use memline.Dict.{Dict}
use memline.Bridge.{
  Request, BridgeQueue, hour, is_queued, new_row, waits, acknowledgeable, answered_row, failure,
  error, claimed_row, is_processing, restarted, purgeable, final_status, claim,
}
use memline.Bridge.History.{
  Call, readies, beats, stops, enqueues, acknowledges, cancels, claims, completes, recovers, purges,
  step, hands, handed, submits, submitted,
}

-- The number of rows of a request that wait for a worker.
abbrev pub waiting : String → BridgeQueue → ℕ
waiting id q = count (waits id) q.requests

module _ (id : String) where
  count-filter-le :
      (p : Request → Bool) (rows : List Request)
      → count (waits id) (filter p rows) ≤ count (waits id) rows
  count-filter-le p [] = omega arith
  count-filter-le p (r ∷ rows) = ground (arith, count-filter-le p rows)

  -- An update that queues no row lets no more rows wait.
  count-update-le :
      (cond : Request → Bool) (set : Request → Request)
      → ((r : Request) → is_queued (set r).status ≡ false)
      → (rows : List Request)
      → count (waits id) (update_where cond set rows) ≤ count (waits id) rows
  count-update-le cond set quiet [] = omega arith
  count-update-le cond set quiet (r ∷ rows) =
      ground (arith, quiet r, count-update-le cond set quiet rows)

  count-append :
      (rows : List Request) (r : Request)
      → count (waits id) (rows ++ r ∷ []) ≤ (if r.id == id then 1 else 0) + count (waits id) rows
  count-append [] r = ground arith
  count-append (x ∷ rows) r = ground (arith, count-append rows r)

  -- The claim of the waiting rows of an id leaves none of them waiting.
  count-claimed :
      (now : ℕ) (rows : List Request)
      → count (waits id) (update_where (waits id) (claimed_row now) rows) ≡ 0
  count-claimed now [] = refl
  count-claimed now (r ∷ rows) = ground (arith, count-claimed now rows)

  final-quiet : (d : Dict) → is_queued (final_status d) ≡ false
  final-quiet d = ground arith

  -- What a call hands out, it takes from the waiting rows.
  claims-Taken :
      (now : ℕ) (row : Request) (q : BridgeQueue)
      → hands now id (claims row) q + waiting id (step now (claims row) q) ≤ waiting id q
  unfolding step hands claim
  claims-Taken now row q = elim (String-cases row.id id) [
    | inl same ↦ rw same (ground (arith, count-claimed now q.requests, eq_iff id id))
    | inr other ↦
        ground (arith, count-update-le (waits row.id) (claimed_row now) (λ r. refl) q.requests)
  ]

  step-Taken :
      (now : ℕ) (c : Call) (q : BridgeQueue)
      → hands now id c q + waiting id (step now c q) ≤ submits id c + waiting id q
  unfolding step hands
  step-Taken now (claims row) q = omega (arith, claims-Taken now row q)
  step-Taken now (readies daemon_id daemon_pid) q = omega arith
  step-Taken now (beats daemon_id) q = omega arith
  step-Taken now (stops daemon_id) q = omega arith
  step-Taken now (enqueues j payload) q = elim (Bool-cases (has_key (λ r. r.id) j q.requests)) [
    | inl taken ↦ rw (taken, step) (omega arith)
    | inr fresh ↦ rw (fresh, step) (omega (arith, count-append q.requests (new_row now j payload)))
  ]
  step-Taken now (acknowledges j) q =
      omega (arith, count-filter-le (λ r. not (acknowledgeable j r)) q.requests)
  step-Taken now (cancels j reason) q = omega (
    arith,
    count-update-le (waits j) (answered_row now error (failure reason)) (λ r. refl) q.requests,
  )
  step-Taken now (completes j d) q = omega (
    arith,
    count-update-le (λ r. r.id == j) (answered_row now (final_status d) d) (λ r. final-quiet d)
        q.requests,
  )
  step-Taken now recovers q = omega (
    arith,
    count-update-le (λ r. is_processing r.status) (answered_row now error restarted) (λ r. refl)
        q.requests,
  )
  step-Taken now (purges hours) q =
      omega (arith, count-filter-le (λ r. not (purgeable (now - hours * hour) r)) q.requests)

  -- Over any history of calls, in whatever order the processes make them, a request is handed to a
  -- worker at most once for each time that it was submitted, counting the rows of it that waited at
  -- the start: no restart, timeout or late answer puts a claimed request back.
  pub handed-le :
      (calls : List (ℕ × Call)) (q : BridgeQueue)
      → handed id calls q ≤ submitted id calls + waiting id q
  unfolding handed submitted
  handed-le [] q = omega arith
  handed-le ((now, c) ∷ calls) q = omega (arith, step-Taken now c q, handed-le calls (step now c q))
