-- ===== src/Queue/History.antt =====
-- src/memline/queue.py as a state machine: the calls that change the queue, and the moves of a row.
use memline.Prelude.{
  ℕ, ◌-◌, ◌*◌, ◌<◌, String, ◌≡◌, refl, ap, ◌∙◌, inl, inr, Bool, true, Option, none, some, List, [],
  ◌∷◌, ◌==◌, eq_iff, arith, In, In-filter, Bool-cases, Option-cases,
}
use memline.Prelude.Table.{update_where, asc}
use memline.Prelude.Order.{first-sort_by-In, updated, In-update_where, Keyed, Keyed-eq}
use memline.Dict.{Dict}
use memline.Prelude.Table.{day}
use memline.Queue.{
  Status, queued, processing, failed, Event, EventQueue, claim_next, claim_row, next_queued,
  complete_row, fail_row, requeue_row, retry_row, ack_row, is_settled, is_queued, is_processing,
  is_failed, purge, complete, fail, enqueue, recover_stale, retry, ack, refresh_alerts,
}

pub data Call : Type 0 where
  enqueues : String → String → Dict → Call
  claims recovers refreshes : Call
  completes : String → Dict → Call
  fails : String → String → ℕ → Call
  purges : ℕ → Call
  retries : String → Call
  acks : Option String → Call

abbrev accepted : EventQueue → Option EventQueue → EventQueue
accepted q none = q
accepted q (some q') = q'

unfoldable pub step : ℕ → Call → EventQueue → EventQueue
unfolding enqueue claim_next complete fail purge recover_stale retry ack refresh_alerts
step now (enqueues id op args) q = accepted q (enqueue now id op args q)
step now claims q = (claim_next now q).0
step now recovers q = (recover_stale now q).0
step now refreshes q = refresh_alerts q
step now (completes id result) q = complete now id result q
step now (fails id error attempts) q = (fail now id error attempts q).0
step now (purges days) q = (purge now days q).0
step now (retries id) q = (retry now id q).0
step now (acks id) q = (ack now id q).0

unfoldable pub run : List (ℕ × Call) → EventQueue → EventQueue
run [] q = q
run ((now, c) ∷ calls) q = run calls (step now c q)

-- What one call may do to a row that it keeps.
pub data Next (now : ℕ) (r r' : Event) : Type 0 where
  stays : r' ≡ r → Next now r r'
  claimed : r.status ≡ queued → r' ≡ claim_row now r → Next now r r'
  completed : (result : Dict) → r' ≡ complete_row now result r → Next now r r'
  faulted : (error : String) (attempts : ℕ) → r' ≡ fail_row now error attempts r → Next now r r'
  requeued : r.status ≡ processing → r' ≡ requeue_row now r → Next now r r'
  retried : r.status ≡ failed → r' ≡ retry_row now r → Next now r r'
  acknowledged : r.status ≡ failed → r' ≡ ack_row now r → Next now r r'

-- The rows that a call deletes: a purge, and of it the settled rows that are old enough.
abbrev pub Dropped : ℕ → Call → Event → Type 0
Dropped now (purges days) r = (is_settled r ≡ true) × (r.updated_at < now - days * day)
Dropped now c r = ⊥

pub queued_iff : (s : Status) → is_queued s ≡ true → s ≡ queued
queued_iff s h = ground arith

pub processing_iff : (s : Status) → is_processing s ≡ true → s ≡ processing
processing_iff s h = ground arith

pub failed_iff : (s : Status) → is_failed s ≡ true → s ≡ failed
failed_iff s h = ground arith

-- The row that `claim_next` picks is a queued row of the table.
pub next_queued-In :
    (rows : List Event) (m : Event) → next_queued rows ≡ some m → In m rows × (m.status ≡ queued)
next_queued-In rows m h =
    let found =
      In-filter (λ r. is_queued r.status) m rows (first-sort_by-In (asc λ r. r.created_at) m _ h) in
    (found.0, queued_iff m.status found.1)

module _ (now : ℕ) (r : Event) where
  -- An update by a condition moves each row at which it holds.
  pub Next-update_where :
      (cond : Event → Bool) (set : Event → Event) (rows : List Event)
      → (cond r ≡ true → Next now r (set r))
      → In r rows
      → (r' : Event) × In r' (update_where cond set rows) × Next now r r'
  Next-update_where cond set rows move i = (
    updated cond set r,
    In-update_where cond set r rows i,
    elim (Bool-cases (cond r)) [
      | inl hit ↦ rw (hit, updated) (move hit)
      | inr miss ↦ rw (miss, updated) (stays refl)
    ],
  )

  pub claims-Next :
      (q : EventQueue)
      → Keyed (λ e. e.id) q.events
      → In r q.events
      → (r' : Event) × In r' (step now claims q).events × Next now r r'
  unfolding step
  claims-Next q keyed i = elim (Option-cases (next_queued q.events)) [
    | inl nothing ↦ rw (nothing, step) (r, i, stays refl)
    | inr (m, e) ↦
        rw (e, step)
          (let found = next_queued-In q.events m e in
            Next-update_where (λ x. x.id == m.id) (claim_row now) q.events
              (λ hit.
                let same : r ≡ m =
                  Keyed-eq (λ x. x.id) r m q.events keyed i found.0 ((eq_iff r.id m.id).0 hit) in
                claimed (ap (λ (x : Event). x.status) same ∙ found.1) refl)
              i)
  ]
