-- ===== src/Queue.antt =====
-- src/memline/queue.py: the durable queue of asynchronous operations. The table `events` is a list
-- of rows in the order of insertion; the alerts file is a part of the state. Each method takes the
-- time that it reads, and `enqueue` the id that `uuid4` draws.
pub mod History
pub mod Keeping
pub mod Durability
pub mod Claiming
pub mod Tries
mod Tests
pub mod Alerts
use memline.Prelude.{
  ℕ, zero, suc, ◌+◌, ◌-◌, ◌*◌, String, ◌≡◌, refl, Bool, true, false, ◌&&◌, ◌||◌, not, Option, none,
  some, List, [], ◌∷◌, ◌++◌, map, ltb, leb, ◌==◌, if◌then◌else◌, filter, count, find, take, drop,
}
use memline.Prelude.Table.{day, first, update_where, delete_where, order_by, order_by_desc}
use memline.Prelude.Order.{has_key}
use memline.Dict.{Dict}

pub data Status : Type 0 where
  queued processing done failed : Status

pub record Event : Type 0 where
  pub id : String
  pub op : String
  pub args : Dict
  pub status : Status
  pub attempts : ℕ
  pub acked : Bool
  pub created_at : ℕ
  pub updated_at : ℕ
  pub result : Option Dict
  pub error : Option String

pub record Alert : Type 0 where
  pub failed_unacked : ℕ
  pub latest_error : Option String
  pub updated_at : ℕ

pub record EventQueue : Type 0 where
  pub events : List Event
  pub alerts : Option Alert

-- What `claim_next` hands to a worker.
pub record Item : Type 0 where
  pub id : String
  pub op : String
  pub args : Dict
  pub attempts : ℕ

abbrev pub max_attempts : ℕ
max_attempts = 3

abbrev pub retention_days : ℕ
retention_days = 30

abbrev pub is_queued : Status → Bool
is_queued queued = true
is_queued _ = false

abbrev pub is_processing : Status → Bool
is_processing processing = true
is_processing _ = false

abbrev pub is_done : Status → Bool
is_done done = true
is_done _ = false

abbrev pub is_failed : Status → Bool
is_failed failed = true
is_failed _ = false

-- SELECT … WHERE status = 'queued' ORDER BY created_at LIMIT 1
abbrev pub next_queued : List Event → Option Event
next_queued rows = first (order_by (λ r. r.created_at) (filter (λ r. is_queued r.status) rows))

abbrev pub item_of : Event → Item
item_of r = record { id = r.id; op = r.op; args = r.args; attempts = r.attempts + 1 }

abbrev pub is_terminal : ℕ → Bool
is_terminal attempts = leb max_attempts attempts

abbrev pub is_settled : Event → Bool
is_settled r = is_done r.status || is_failed r.status && r.acked

-- `cutoff` is the time before which a settled row is dropped; the number is `cur.rowcount`.
abbrev pub purgeable : ℕ → Event → Bool
purgeable cutoff r = ltb r.updated_at cutoff && is_settled r

abbrev pub retryable : String → Event → Bool
retryable event_id r = r.id == event_id && is_failed r.status

-- The rows that `ack` updates: the one named, or every failure that is not acknowledged.
abbrev pub ackable : Option String → Event → Bool
ackable none r = is_failed r.status && not r.acked
ackable (some event_id) r =
    if event_id == ""
    then is_failed r.status && not r.acked
    else r.id == event_id && is_failed r.status

module _ (now : ℕ) where
  abbrev pub new_row : String → String → Dict → Event
  new_row event_id op args = record {
    id = event_id;
    op = op;
    args = args;
    status = queued;
    attempts = 0;
    acked = false;
    created_at = now;
    updated_at = now;
    result = none;
    error = none;
  }

  -- `none` is the `IntegrityError` of an id that the table has, which a fresh uuid never is.
  pub enqueue : String → String → Dict → EventQueue → Option EventQueue
  enqueue event_id op args q =
      if has_key (λ r. r.id) event_id q.events
      then none
      else some (record q { events = q.events ++ new_row event_id op args ∷ [] })

  abbrev pub claim_row : Event → Event
  claim_row r = record r { status = processing; attempts = r.attempts + 1; updated_at = now }

  abbrev claim : EventQueue → Option Event → EventQueue × Option Item
  claim q none = (q, none)
  claim q (some row) = (
    record q { events = update_where (λ r. r.id == row.id) claim_row q.events },
    some (item_of row),
  )

  unfoldable pub claim_next : EventQueue → EventQueue × Option Item
  claim_next q = claim q (next_queued q.events)

  abbrev pub complete_row : Dict → Event → Event
  complete_row result r = record r {
    status = done;
    result = some result;
    error = none;
    updated_at = now;
  }

  unfoldable pub complete : String → Dict → EventQueue → EventQueue
  complete event_id result q = record q {
    events = update_where (λ r. r.id == event_id) (complete_row result) q.events;
  }

  abbrev pub fail_row : String → ℕ → Event → Event
  fail_row error attempts r = record r {
    status = if is_terminal attempts then failed else queued;
    error = some error;
    updated_at = now;
  }

  -- The Boolean says whether the failure is terminal.
  unfoldable pub fail : String → String → ℕ → EventQueue → EventQueue × Bool
  fail event_id error attempts q = (
    record q { events = update_where (λ r. r.id == event_id) (fail_row error attempts) q.events },
    is_terminal attempts,
  )

  pub purge : ℕ → EventQueue → EventQueue × ℕ
  purge days q = (
    record q { events = delete_where (purgeable (now - days * day)) q.events },
    count (purgeable (now - days * day)) q.events,
  )

  abbrev pub requeue_row : Event → Event
  requeue_row r = record r { status = queued; updated_at = now }

  pub recover_stale : EventQueue → EventQueue × ℕ
  recover_stale q = (
    record q { events = update_where (λ r. is_processing r.status) requeue_row q.events },
    count (λ r. is_processing r.status) q.events,
  )

  abbrev pub retry_row : Event → Event
  retry_row r = record r {
    status = queued;
    attempts = 0;
    acked = false;
    error = none;
    updated_at = now;
  }

  pub retry : String → EventQueue → EventQueue × Bool
  retry event_id q = (
    record q { events = update_where (retryable event_id) retry_row q.events },
    ltb 0 (count (retryable event_id) q.events),
  )

  abbrev pub ack_row : Event → Event
  ack_row r = record r { acked = true; updated_at = now }

  pub ack : Option String → EventQueue → EventQueue × ℕ
  ack event_id q = (
    record q { events = update_where (ackable event_id) ack_row q.events },
    count (ackable event_id) q.events,
  )

pub get : String → EventQueue → Option Event
get event_id q = find (λ r. r.id == event_id) q.events

unfoldable pub get_args : String → EventQueue → Option Dict
get_args event_id q = elim (find (λ r. r.id == event_id) q.events) [
  | none ↦ none
  | some r ↦ some r.args
]

abbrev pub same_status : Status → Status → Bool
same_status queued s = is_queued s
same_status processing s = is_processing s
same_status done s = is_done s
same_status failed s = is_failed s

abbrev pub matches : Option Status → Event → Bool
matches none r = true
matches (some s) r = same_status s r.status

unfoldable pub list : Option Status → ℕ → ℕ → EventQueue → List Event
list status limit offset q =
    take limit (drop offset (order_by_desc (λ r. r.created_at) (filter (matches status) q.events)))

abbrev pub is_unacked_failure : Event → Bool
is_unacked_failure r = is_failed r.status && not r.acked

abbrev pub publish : List Event → ℕ → Option Alert
publish [] n = none
publish (r ∷ rs) n =
    some (record { failed_unacked = n; latest_error = r.error; updated_at = r.updated_at })

-- COUNT(*), MAX(updated_at) and the error of the row with the latest `updated_at`; the file is
-- removed when there is no such row.
unfoldable pub refresh_alerts : EventQueue → EventQueue
refresh_alerts q = record q {
  alerts =
      publish (order_by_desc (λ r. r.updated_at) (filter is_unacked_failure q.events))
        (count is_unacked_failure q.events);
}
