-- ===== src/Bridge/Client.antt =====
-- src/memline/bridge.py: `request`, the client that submits one payload and waits for its answer. The
-- loop polls while its clock is before the deadline: the polls are a list, each with its time and
-- with the calls that other processes have made since the last one, and the list ends at the
-- deadline.
use memline.Prelude.{ℕ, String, Bool, true, false, Option, none, some, List, [], ◌∷◌, if◌then◌else◌}
use memline.Dict.{Dict, Value, text, get, truthy}
use memline.Bridge.{BridgeQueue, is_ok, is_ready, enqueue, response, acknowledge, cancel_if_queued}
use memline.Bridge.History.{Call, run}

-- RuntimeError of a request that failed, BridgeUnavailable, or the result.
pub data Outcome : Type 0 where
  result failed : Value → Outcome
  unavailable : String → Outcome

pub record Poll : Type 0 where
  pub before : List (ℕ × Call)
  pub now : ℕ

abbrev pub stopped_before : String
stopped_before = "host daemon stopped before bridge request was claimed"

-- response.get("error") or "daemon bridge request failed"
abbrev pub error_of : Dict → Value
error_of d = if truthy (get "error" d) then get "error" d else text "daemon bridge request failed"

abbrev pub outcome_of : Dict → Outcome
outcome_of d = if is_ok (get "status" d) then result (get "result" d) else failed (error_of d)

-- A poll that finds no answer looks whether the daemon is still there: the queue that the loop goes
-- on with, and whether the request was cancelled.
abbrev pub unless_stopped : String → ℕ → BridgeQueue → BridgeQueue × Bool
unless_stopped id now q =
    if is_ready now q then (q, false) else cancel_if_queued now id stopped_before q

-- `timed_out` is the message of a timeout, with the number of seconds as it is printed.
module _ (timed_out : String) (id : String) where
  abbrev pub give_up : ℕ → BridgeQueue → BridgeQueue × Outcome
  give_up now q = ((cancel_if_queued now id timed_out q).0, unavailable timed_out)

  unfoldable pub await : ℕ → List Poll → BridgeQueue → BridgeQueue × Outcome
  await last [] q = give_up last q
  await last (p ∷ polls) q =
      let seen = run p.before q in
      elim (response id seen) [
        | some d ↦ (acknowledge id seen, outcome_of d)
        | none ↦ elim (unless_stopped id p.now seen).1 [
          | true ↦ (
            (unless_stopped id p.now seen).0,
            unavailable "host daemon stopped while bridge request was pending",
          )
          | false ↦ await last polls (unless_stopped id p.now seen).0
        ]
      ]

-- No database file, no daemon that answers, or the loop.
unfoldable pub request :
    String → String → Dict → ℕ → List Poll → ℕ → Option BridgeQueue → Option BridgeQueue × Outcome
request timed_out id payload now polls last none =
    (none, unavailable "sandbox bridge database does not exist")
request timed_out id payload now polls last (some q) = elim (is_ready now q) [
  | false ↦ (some q, unavailable "sandbox bridge has no fresh host-daemon heartbeat")
  | true ↦
      let (after, outcome) = await timed_out id last polls (enqueue now id payload q) in
      (some after, outcome)
]
