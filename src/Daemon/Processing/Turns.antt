-- ===== src/Daemon/Processing/Turns.antt =====
-- src/memline/daemon.py: what one turn of a worker does to the row that it claims.
use memline.Prelude.{
  ℕ, suc, ◌+◌, ◌-◌, ◌<◌, ◌≡◌, refl, ap, ◌∙◌, false, none, some, ◌==◌, if◌then◌else◌, arith,
}
use memline.Prelude.Table.{update_where}
use memline.Prelude.Counting.{weigh}
use memline.Prelude.Updates.{update_where-twice, weigh-update_key}
use memline.Queue.{
  Event, EventQueue, Item, queued, is_queued, is_processing, item_of, claim_row, complete_row,
  fail_row, claim_next, complete, fail, refresh_alerts, next_queued,
}
use memline.Queue.Keeping.{Ids}
use memline.Queue.History.{next_queued-In}
use memline.Daemon.Processing.{Outcome, raised, returned, process_event, worker_turn, settle}

-- The turns that a row can still take.
abbrev pub effort : Event → ℕ
effort r = if is_queued r.status then suc (2 - r.attempts) else 0

abbrev pub efforts : EventQueue → ℕ
efforts q = weigh effort q.events

-- A claimed row, after its turn.
abbrev pub turned_row : ℕ → ℕ → Outcome → Event → Event
turned_row now attempts (returned result) r = complete_row now result (claim_row now r)
turned_row now attempts (raised error) r = fail_row now error attempts (claim_row now r)

abbrev pub turned : ℕ → (Item → Outcome) → Event → Event → Event
turned now work m = turned_row now (m.attempts + 1) (work (item_of m))

-- A turn that claims `m` is one UPDATE of its row.
settle-events :
    (now : ℕ) (m : Event) (outcome : Outcome) (q q' : EventQueue)
    → q'.events ≡ update_where (λ r. r.id == m.id) (claim_row now) q.events
    → (settle now (item_of m) outcome q').0.events
      ≡ update_where (λ r. r.id == m.id) (turned_row now (m.attempts + 1) outcome) q.events
unfolding complete fail
settle-events now m (returned result) q q' claimed =
    ap (update_where (λ r. r.id == m.id) (complete_row now result)) claimed
    ∙ update_where-twice (λ r. r.id == m.id) (claim_row now) (complete_row now result) (λ r. refl)
        q.events
settle-events now m (raised error) q q' claimed =
    ap (update_where (λ r. r.id == m.id) (fail_row now error (m.attempts + 1))) claimed
    ∙ update_where-twice (λ r. r.id == m.id) (claim_row now) (fail_row now error (m.attempts + 1))
        (λ r. refl) q.events

pub worker_turn-events :
    (now : ℕ) (work : Item → Outcome) (q : EventQueue) (m : Event)
    → next_queued q.events ≡ some m
    → (worker_turn now work q).events
      ≡ update_where (λ r. r.id == m.id) (turned now work m) q.events
unfolding worker_turn claim_next process_event refresh_alerts
worker_turn-events now work q m e =
    rw (e, worker_turn) (settle-events now m (work (item_of m)) q _ refl)

turned-effort :
    (now : ℕ) (m : Event) (outcome : Outcome)
    → m.status ≡ queued
    → effort (turned_row now (m.attempts + 1) outcome m) < effort m
turned-effort now m (returned result) h = ground arith
turned-effort now m (raised error) h = ground arith

pub worker_turn-efforts :
    (now : ℕ) (work : Item → Outcome) (q : EventQueue) (m : Event)
    → Ids q
    → next_queued q.events ≡ some m
    → efforts (worker_turn now work q) < efforts q
worker_turn-efforts now work q m keyed e =
    let (present, waiting) = next_queued-In q.events m e in
    omega (
      arith,
      ap (weigh effort) (worker_turn-events now work q m e),
      weigh-update_key (λ r. r.id) (turned now work m) effort m q.events keyed present,
      turned-effort now m (work (item_of m)) waiting,
    )

pub turned-id :
    (now attempts : ℕ) (outcome : Outcome) (r : Event)
    → (turned_row now attempts outcome r).id ≡ r.id
turned-id now attempts (returned result) r = refl
turned-id now attempts (raised error) r = refl

pub turned-not_processing :
    (now attempts : ℕ) (outcome : Outcome) (r : Event)
    → is_processing (turned_row now attempts outcome r).status ≡ false
turned-not_processing now attempts (returned result) r = refl
turned-not_processing now attempts (raised error) r = ground arith

-- Without a queued row the worker waits.
pub worker_turn-waits :
    (now : ℕ) (work : Item → Outcome) (q : EventQueue)
    → next_queued q.events ≡ none
    → worker_turn now work q ≡ q
unfolding worker_turn claim_next
worker_turn-waits now work q e = rw (e, worker_turn) refl
