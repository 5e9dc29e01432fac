-- ===== src/Bridge.antt =====
-- src/memline/bridge.py: the mailbox through which a client that cannot reach the daemon's socket
-- sends its requests. The table `bridge_requests` is a list of rows in the order of insertion, and
-- the single row of `bridge_state` is an option. Each method takes the time that it reads, and
-- `enqueue` the id that `uuid4` draws.
pub mod History
pub mod Once
pub mod Mailbox
pub mod Refinement
pub mod Client
pub mod Abandoned
mod Tests
use memline.Prelude.{
  ℕ, ◌-◌, ◌*◌, String, ◌≡◌, refl, Bool, true, false, ◌&&◌, ◌||◌, Option, none, some, List, [], ◌∷◌,
  ◌++◌, ltb, leb, ◌==◌, if◌then◌else◌, filter, find, count,
}
use memline.Prelude.Table.{first, update_where, delete_where, order_by}
use memline.Prelude.Order.{has_key}
use memline.Dict.{Dict, Value, null, flag, time, text, texts, get}

pub data Status : Type 0 where
  queued processing done error : Status

pub record Request : Type 0 where
  pub id : String
  pub protocol_version : ℕ
  pub payload : Dict
  pub status : Status
  pub created_at : ℕ
  pub updated_at : ℕ
  pub response : Option Dict
  pub acknowledged : Bool

pub record BridgeState : Type 0 where
  pub protocol_version : ℕ
  pub daemon_id : String
  pub daemon_pid : ℕ
  pub ready : Bool
  pub heartbeat_at : ℕ

pub record BridgeQueue : Type 0 where
  pub state : Option BridgeState
  pub requests : List Request

-- What `claim_next` hands to a worker of the daemon.
pub record Item : Type 0 where
  pub id : String
  pub payload : Dict

abbrev pub protocol_version : ℕ
protocol_version = 1

-- HEARTBEAT_STALE_SECONDS, in the unit of time
abbrev pub heartbeat_stale : ℕ
heartbeat_stale = 5000000

abbrev pub retention_hours : ℕ
retention_hours = 24

abbrev pub hour : ℕ
hour = 3600000000

abbrev pub is_queued : Status → Bool
is_queued queued = true
is_queued _ = false

abbrev pub is_processing : Status → Bool
is_processing processing = true
is_processing _ = false

-- status IN ('done', 'error')
abbrev pub is_answered : Status → Bool
is_answered done = true
is_answered error = true
is_answered _ = false

abbrev pub status_text : Status → String
status_text queued = "queued"
status_text processing = "processing"
status_text done = "done"
status_text error = "error"

abbrev pub is_ok : Value → Bool
is_ok (text s) = s == "ok"
is_ok _ = false

abbrev pub is_live : ℕ → BridgeState → Bool
is_live now s =
    leb s.protocol_version protocol_version
    && leb protocol_version s.protocol_version
    && s.ready
    && leb (now - s.heartbeat_at) heartbeat_stale

abbrev pub ready_of : ℕ → Option BridgeState → Bool
ready_of now none = false
ready_of now (some s) = is_live now s

-- The age of a heartbeat that is ahead of the clock is negative in the source and 0 here; both are
-- fresh.
pub is_ready : ℕ → BridgeQueue → Bool
is_ready now q = ready_of now q.state

pub mark_ready : ℕ → String → ℕ → BridgeQueue → BridgeQueue
mark_ready now daemon_id daemon_pid q = record q {
  state = some (record {
    protocol_version = protocol_version;
    daemon_id = daemon_id;
    daemon_pid = daemon_pid;
    ready = true;
    heartbeat_at = now;
  });
}

abbrev pub is_beating : String → BridgeState → Bool
is_beating daemon_id s = s.daemon_id == daemon_id && s.ready

abbrev pub beaten : ℕ → String → Option BridgeState → Option BridgeState × Bool
beaten now daemon_id none = (none, false)
beaten now daemon_id (some s) =
    if is_beating daemon_id s
    then (some (record s { heartbeat_at = now }), true)
    else (some s, false)

pub heartbeat : ℕ → String → BridgeQueue → BridgeQueue × Bool
heartbeat now daemon_id q =
    (record q { state = (beaten now daemon_id q.state).0 }, (beaten now daemon_id q.state).1)

abbrev pub stopped : ℕ → String → Option BridgeState → Option BridgeState
stopped now daemon_id none = none
stopped now daemon_id (some s) =
    if s.daemon_id == daemon_id
    then some (record s { ready = false; heartbeat_at = now })
    else some s

pub mark_stopped : ℕ → String → BridgeQueue → BridgeQueue
mark_stopped now daemon_id q = record q { state = stopped now daemon_id q.state }

abbrev pub new_row : ℕ → String → Dict → Request
new_row now id payload = record {
  id = id;
  protocol_version = protocol_version;
  payload = payload;
  status = queued;
  created_at = now;
  updated_at = now;
  response = none;
  acknowledged = false;
}

-- ON CONFLICT(id) DO NOTHING
pub enqueue : ℕ → String → Dict → BridgeQueue → BridgeQueue
enqueue now id payload q =
    if has_key (λ r. r.id) id q.requests
    then q
    else record q { requests = q.requests ++ new_row now id payload ∷ [] }

abbrev pub response_or_empty : Option Dict → Dict
response_or_empty none = []
response_or_empty (some d) = d

abbrev pub answer_of : Option Request → Option Dict
answer_of none = none
answer_of (some r) =
    if is_answered r.status
    then some (("_bridge_status", text (status_text r.status)) ∷ response_or_empty r.response)
    else none

pub response : String → BridgeQueue → Option Dict
response id q = answer_of (find (λ r. r.id == id) q.requests)

abbrev pub acknowledgeable : String → Request → Bool
acknowledgeable id r = r.id == id && is_answered r.status

pub acknowledge : String → BridgeQueue → BridgeQueue
acknowledge id q = record q { requests = delete_where (acknowledgeable id) q.requests }

abbrev pub failure : String → Dict
failure reason = ("status", text "error") ∷ ("error", text reason) ∷ []

abbrev pub answered_row : ℕ → Status → Dict → Request → Request
answered_row now s d r = record r { status = s; response = some d; updated_at = now }

abbrev pub waits : String → Request → Bool
waits id r = r.id == id && is_queued r.status

-- The Boolean is `cur.rowcount`: whether a row was cancelled.
pub cancel_if_queued : ℕ → String → String → BridgeQueue → BridgeQueue × Bool
cancel_if_queued now id reason q = (
  record q {
    requests = update_where (waits id) (answered_row now error (failure reason)) q.requests;
  },
  ltb 0 (count (waits id) q.requests),
)

abbrev pub is_claimable : Request → Bool
is_claimable r =
    is_queued r.status
    && leb r.protocol_version protocol_version
    && leb protocol_version r.protocol_version

-- SELECT … WHERE status = 'queued' AND protocol_version = 1 ORDER BY created_at LIMIT 1
pub next_request : BridgeQueue → Option Request
next_request q = first (order_by (λ r. r.created_at) (filter is_claimable q.requests))

abbrev pub claimed_row : ℕ → Request → Request
claimed_row now r = record r { status = processing; updated_at = now }

-- The UPDATE that claims the row that was read, if it is still queued.
pub claim : ℕ → Request → BridgeQueue → BridgeQueue × Option Item
claim now row q = (
  record q { requests = update_where (waits row.id) (claimed_row now) q.requests },
  if ltb 0 (count (waits row.id) q.requests)
      then some (record { id = row.id; payload = row.payload })
      else none,
)

abbrev pub claim_found : ℕ → Option Request → BridgeQueue → BridgeQueue × Option Item
claim_found now none q = (q, none)
claim_found now (some row) q = claim now row q

pub claim_next : ℕ → BridgeQueue → BridgeQueue × Option Item
claim_next now q = claim_found now (next_request q) q

abbrev pub final_status : Dict → Status
final_status d = if is_ok (get "status" d) then done else error

pub complete : ℕ → String → Dict → BridgeQueue → BridgeQueue
complete now id d q = record q {
  requests = update_where (λ r. r.id == id) (answered_row now (final_status d) d) q.requests;
}

abbrev pub restarted : Dict
restarted =
    failure
      "host daemon restarted while bridge request was processing; execution outcome is unknown"

pub recover_stale : ℕ → BridgeQueue → BridgeQueue × ℕ
recover_stale now q = (
  record q {
    requests =
        update_where (λ r. is_processing r.status) (answered_row now error restarted) q.requests;
  },
  count (λ r. is_processing r.status) q.requests,
)

abbrev pub purgeable : ℕ → Request → Bool
purgeable cutoff r = r.acknowledged || ltb r.updated_at cutoff && is_answered r.status

pub purge : ℕ → ℕ → BridgeQueue → BridgeQueue × ℕ
purge now hours q = (
  record q { requests = delete_where (purgeable (now - hours * hour)) q.requests },
  count (purgeable (now - hours * hour)) q.requests,
)
