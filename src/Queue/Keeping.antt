-- ===== src/Queue/Keeping.antt =====
-- src/memline/queue.py: no call loses a job that was accepted, and the rows keep distinct ids.
use memline.Prelude.{
  ℕ, ◌-◌, ◌*◌, String, ◌≡◌, refl, sym, ap, ◌⊎◌, inl, inr, true, not, Option, none, some, List, [],
  ◌∷◌, here, there, find, eq_iff, ◌==◌, arith, In, Bool-cases, Option-cases, ltb→lt, and_split,
  In-append_left, In-filter_of,
}
use memline.Prelude.Order.{
  Keyed, has_key, has_key-In, update_where-Keyed, filter-Keyed, Keyed-append_one,
}
use memline.Dict.{Dict}
use memline.Queue.{
  Event, EventQueue, new_row, claim_row, next_queued, complete_row, fail_row, requeue_row,
  retry_row, ack_row, retryable, ackable, is_processing, is_failed, day, purgeable,
}
use memline.Queue.History.{
  Call, enqueues, claims, recovers, refreshes, completes, fails, purges, retries, acks, step, Next,
  stays, completed, faulted, requeued, retried, acknowledged, Dropped, Next-update_where,
  claims-Next, processing_iff, failed_iff,
}

abbrev pub Ids : EventQueue → Type 0
Ids q = Keyed (λ r. r.id) q.events

-- An id finds its own row.
pub row_found :
    (rows : List Event) (m : Event)
    → Keyed (λ x. x.id) rows
    → In m rows
    → find (λ r. r.id == m.id) rows ≡ some m
row_found [] m keyed i = elim i [ ]
row_found (x ∷ rows) m keyed (here e) =
    let same : (x.id == m.id) ≡ true = (eq_iff x.id m.id).1 (ap (λ (r : Event). r.id) (sym e)) in
    rw same (ap some (sym e))
row_found (x ∷ rows) m keyed (there i) = elim (Bool-cases (x.id == m.id)) [
  | inl same ↦ cc (has_key-In (λ r. r.id) m rows i, keyed.0, (eq_iff x.id m.id).0 same)
  | inr other ↦ rw other (row_found rows m keyed.1 i)
]

module _ (now : ℕ) (r : Event) (q : EventQueue) where
  abbrev Moved : Call → Type 0
  Moved c = (r' : Event) × In r' (step now c q).events × Next now r r'

  enqueues-Moved : (id op : String) (args : Dict) → In r q.events → Moved (enqueues id op args)
  unfolding step
  enqueues-Moved id op args i = elim (Bool-cases (has_key (λ e. e.id) id q.events)) [
    | inl taken ↦ rw (taken, step) (r, i, stays refl)
    | inr fresh ↦ rw (fresh, step) (r, In-append_left r q.events _ i, stays refl)
  ]

  purges-Moved : (days : ℕ) → In r q.events → Dropped now (purges days) r ⊎ Moved (purges days)
  unfolding step
  purges-Moved days i = elim (Bool-cases (purgeable (now - days * day) r)) [
    | inl old ↦
        let both = and_split _ _ old in inl (both.1, ltb→lt r.updated_at (now - days * day) both.0)
    | inr kept ↦ inr (
      r,
      In-filter_of (λ e. not (purgeable (now - days * day) e)) r q.events i (rw kept),
      stays refl,
    )
  ]

  retryable_failed : (id : String) → retryable id r ≡ true → is_failed r.status ≡ true
  retryable_failed id h = ground arith

  ackable_failed : (id : Option String) → ackable id r ≡ true → is_failed r.status ≡ true
  ackable_failed none h = ground arith
  ackable_failed (some id) h = ground arith

  -- In a table without repeated ids: a row is deleted only by a purge, when it is settled and last
  -- changed before the cutoff; any other call keeps it, as it was or changed by one transition
  -- (claimed from queued, completed, failed, requeued from processing, retried or acknowledged from
  -- failed).
  pub step-Next : (c : Call) → Ids q → In r q.events → Dropped now c r ⊎ Moved c
  unfolding step
  step-Next (enqueues id op args) keyed i = inr (enqueues-Moved id op args i)
  step-Next claims keyed i = inr (claims-Next now r q keyed i)
  step-Next recovers keyed i = inr (
      Next-update_where now r (λ x. is_processing x.status) (requeue_row now) q.events
        (λ h. requeued (processing_iff r.status h) refl) i)
  step-Next refreshes keyed i = inr (r, i, stays refl)
  step-Next (completes id result) keyed i = inr (
      Next-update_where now r (λ x. x.id == id) (complete_row now result) q.events
        (λ h. completed result refl) i)
  step-Next (fails id error attempts) keyed i = inr (
      Next-update_where now r (λ x. x.id == id) (fail_row now error attempts) q.events
        (λ h. faulted error attempts refl) i)
  step-Next (purges days) keyed i = purges-Moved days i
  step-Next (retries id) keyed i = inr (
      Next-update_where now r (retryable id) (retry_row now) q.events
        (λ h. retried (failed_iff r.status (retryable_failed id h)) refl) i)
  step-Next (acks id) keyed i = inr (
      Next-update_where now r (ackable id) (ack_row now) q.events
        (λ h. acknowledged (failed_iff r.status (ackable_failed id h)) refl) i)

-- Every call keeps the ids of the rows distinct, if they were.
pub step-Ids : (now : ℕ) (c : Call) (q : EventQueue) → Ids q → Ids (step now c q)
unfolding step
step-Ids now (enqueues id op args) q h = elim (Bool-cases (has_key (λ e. e.id) id q.events)) [
  | inl taken ↦ rw (taken, step) h
  | inr fresh ↦
      rw (fresh, step)
        (Keyed-append_one (λ (e : Event). e.id) (new_row now id op args) q.events h fresh)
]
step-Ids now claims q h = elim (Option-cases (next_queued q.events)) [
  | inl nothing ↦ rw (nothing, step) h
  | inr (m, e) ↦
      rw (e, step)
        (update_where-Keyed (λ e. e.id) (λ x. x.id == m.id) (claim_row now) (λ x. refl) q.events h)
]
step-Ids now recovers q h =
    update_where-Keyed (λ e. e.id) (λ x. is_processing x.status) (requeue_row now) (λ x. refl)
      q.events h
step-Ids now refreshes q h = h
step-Ids now (completes id result) q h =
    update_where-Keyed (λ e. e.id) (λ x. x.id == id) (complete_row now result) (λ x. refl) q.events
      h
step-Ids now (fails id error attempts) q h =
    update_where-Keyed (λ e. e.id) (λ x. x.id == id) (fail_row now error attempts) (λ x. refl)
      q.events h
step-Ids now (purges days) q h =
    filter-Keyed (λ e. e.id) (λ e. not (purgeable (now - days * day) e)) q.events h
step-Ids now (retries id) q h =
    update_where-Keyed (λ e. e.id) (retryable id) (retry_row now) (λ x. refl) q.events h
step-Ids now (acks id) q h =
    update_where-Keyed (λ e. e.id) (ackable id) (ack_row now) (λ x. refl) q.events h
