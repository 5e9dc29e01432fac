-- ===== src/Daemon/Processing.antt =====
-- src/memline/daemon.py: what a worker does with an event of the queue or a request of the bridge, and
-- src/memline/ops.py: the operations on the queue. The work itself (an add, a stale check, a request)
-- answers or raises; its outcome is a parameter.
mod Turns
pub mod Draining
mod Tests
use memline.Prelude.{
  ℕ, String, Bool, true, false, ◌++◌, Option, none, some, List, [], ◌∷◌, ◌==◌, if◌then◌else◌,
}
use memline.Dict.{Dict, Value, null, text, flag, has, get, truthy}
use memline.Queue.{
  Event, EventQueue, Item, Status, claim_next, complete, fail, is_terminal, refresh_alerts, retry,
  ack, list,
}
use memline.Queue as Queue
use memline.Bridge as Bridge

pub data Outcome : Type 0 where
  raised : String → Outcome
  returned : Dict → Outcome

-- A row of the live audit; `none` as metadata is `{}`.
pub record AuditRow : Type 0 where
  pub event_id : String
  pub attempts : ℕ
  pub content : Value
  pub infer : Value
  pub metadata : Option Value
  pub result : Dict
  pub scope : Dict

-- args.get("infer", True)
abbrev pub infer_of : Dict → Value
infer_of args = if has "infer" args then get "infer" args else flag true

abbrev pub scope_entry : String → Dict → Dict
scope_entry key args = if truthy (get key args) then (key, get key args) ∷ [] else []

abbrev pub scope_of : Dict → Dict
scope_of args =
    scope_entry "user_id" args ++ scope_entry "agent_id" args ++ scope_entry "run_id" args

-- args.get("metadata") or {}
abbrev pub metadata_of : Dict → Option Value
metadata_of args = if truthy (get "metadata" args) then some (get "metadata" args) else none

abbrev pub audited_result : Outcome → Dict
audited_result (raised error) = ("error", text error) ∷ []
audited_result (returned result) = result

abbrev pub audit_row : Item → Outcome → AuditRow
audit_row item outcome = record {
  event_id = item.id;
  attempts = item.attempts;
  content = get "content" item.args;
  infer = infer_of item.args;
  metadata = metadata_of item.args;
  result = audited_result outcome;
  scope = scope_of item.args;
}

-- `queue.complete` or `queue.fail`; the Boolean says whether the outcome is terminal.
abbrev pub settle : ℕ → Item → Outcome → EventQueue → EventQueue × Bool
settle now item (returned result) q = (complete now item.id result q, true)
settle now item (raised error) q = fail now item.id error item.attempts q

abbrev pub is_stale_check : Item → Bool
is_stale_check item = item.op == "stale_check"

-- `_process_event`, after the work; a stale check writes no audit row.
unfoldable pub process_event : ℕ → Item → Outcome → EventQueue → EventQueue × Option AuditRow
process_event now item outcome q = (
  refresh_alerts (settle now item outcome q).0,
  if is_stale_check item
      then none
      else if (settle now item outcome q).1
      then some (audit_row item outcome)
      else none,
)

abbrev pub turn_of : ℕ → (Item → Outcome) → EventQueue × Option Item → EventQueue
turn_of now work (q, none) = q
turn_of now work (q, some item) = (process_event now item (work item) q).0

-- One turn of `_worker_loop`; it waits where no item is claimed.
unfoldable pub worker_turn : ℕ → (Item → Outcome) → EventQueue → EventQueue
worker_turn now work q = turn_of now work (claim_next now q)

unfoldable pub worker_turns : List (ℕ × (Item → Outcome)) → EventQueue → EventQueue
worker_turns [] q = q
worker_turns ((now, work) ∷ turns) q = worker_turns turns (worker_turn now work q)

-- The response that a bridge worker stores: what `handle_request` answers, or the error.
abbrev pub bridge_response : String → Outcome → Dict
bridge_response traceback (returned response) = response
bridge_response traceback (raised error) =
    ("status", text "error") ∷ ("error", text error) ∷ ("traceback", text traceback) ∷ []

unfoldable pub process_bridge_request :
    ℕ → String → Bridge.Item → Outcome → Bridge.BridgeQueue → Bridge.BridgeQueue
process_bridge_request now traceback item outcome q =
    Bridge.complete now item.id (bridge_response traceback outcome) q

-- What an operation on the queue answers: `no_event_id` is the KeyError of a request that does not
-- name the event, `unsupported` the ValueError.
pub data Reply : Type 0 where
  listed : List Event → Reply
  found : Option Event → Reply
  retried : String → Bool → Reply
  acked : ℕ → Reply
  no_event_id unsupported : Reply

-- The arguments that the operations read.
pub record QueueArgs : Type 0 where
  pub event_id : Option String
  pub status : Option Status
  pub limit : Option ℕ
  pub offset : Option ℕ

abbrev pub or_number : ℕ → Option ℕ → ℕ
or_number fallback none = fallback
or_number fallback (some n) = n

module _ (now : ℕ) (q : EventQueue) where
  abbrev get_named : Option String → EventQueue × Reply
  get_named none = (q, no_event_id)
  get_named (some event_id) = (q, found (Queue.get event_id q))

  abbrev retry_named : Option String → EventQueue × Reply
  retry_named none = (q, no_event_id)
  retry_named (some event_id) =
      (refresh_alerts (retry now event_id q).0, retried event_id (retry now event_id q).1)

  unfoldable pub dispatch_queue : String → QueueArgs → EventQueue × Reply
  dispatch_queue op args =
      if op == "event_list"
      then (q, listed (list args.status (or_number 50 args.limit) (or_number 0 args.offset) q))
      else if op == "event_get"
      then get_named args.event_id
      else if op == "event_retry"
      then retry_named args.event_id
      else if op == "event_ack"
      then (refresh_alerts (ack now args.event_id q).0, acked (ack now args.event_id q).1)
      else (q, unsupported)
