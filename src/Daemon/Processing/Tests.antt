-- ===== src/Daemon/Processing/Tests.antt =====
-- A worker over a queue of two jobs: one is added, the other one raises every time.
use memline.Prelude.{
  ℕ, ◌≡◌, refl, arith, Bool, true, false, none, some, List, [], ◌∷◌, map, here, there, ◌==◌,
  if◌then◌else◌,
}
use memline.Dict.{Dict, text, flag}
use memline.Queue.{EventQueue, Item, new_row, claim_next, complete, fail, refresh_alerts}
use memline.Queue.Keeping.{Ids}
use memline.Daemon.Processing.{
  Outcome, raised, returned, audit_row, process_event, worker_turn, worker_turns,
  process_bridge_request, no_event_id, unsupported, QueueArgs, dispatch_queue,
}
use memline.Daemon.Processing.Draining.{Idle, Settled, worker_turns-Settled}

abbrev fact : Dict
fact = ("content", text "a fact") ∷ ("user_id", text "ann") ∷ ("infer", flag false) ∷ []

abbrev answer : Dict
answer = ("id", text "m1") ∷ []

abbrev work : Item → Outcome
work item = if item.id == "e1" then returned answer else raised "no endpoint"

abbrev waiting : EventQueue
waiting = record {
  events = new_row 5 "e1" "add" fact ∷ new_row 6 "e2" "add" [] ∷ [];
  alerts = none;
}

abbrev turns : List (ℕ × (Item → Outcome))
turns = (10, work) ∷ (11, work) ∷ (12, work) ∷ (13, work) ∷ (14, work) ∷ (15, work) ∷ []

program : Unit {0}
unfolding process_event worker_turns process_bridge_request dispatch_queue
program = tt

abbrev statuses : EventQueue → List (ℕ × Bool)
statuses q = map (λ r. (r.attempts, r.id == "e1")) q.events

-- The job that raises is tried three times, the other one once.
worker_turns_tries : statuses (worker_turns turns waiting) ≡ (1, true) ∷ (3, false) ∷ []
unfolding worker_turns worker_turn process_event claim_next refresh_alerts complete fail
worker_turns_tries = refl

waiting-Ids : Ids waiting
waiting-Ids = (refl, (refl, tt))

waiting-Idle : Idle waiting
waiting-Idle r (here e) = cc
waiting-Idle r (there (here e)) = cc
waiting-Idle r (there (there i)) = elim i [ ]

worker_turns-Settled_example :
    (map (λ r. r.id) (worker_turns turns waiting).events ≡ map (λ r. r.id) waiting.events)
    × Settled (worker_turns turns waiting)
worker_turns-Settled_example =
    worker_turns-Settled turns waiting waiting-Ids waiting-Idle (omega arith)

abbrev item : Item
item = record { id = "e1"; op = "add"; args = fact; attempts = 1 }

abbrev check : Item
check = record { id = "e1"; op = "stale_check"; args = fact; attempts = 1 }

-- A failure that is tried again leaves no row in the audit, and neither does a stale check.
process_event_again : (process_event 10 item (raised "no endpoint") waiting).1 ≡ none
unfolding process_event fail
process_event_again = refl

process_event-check : (process_event 10 check (returned answer) waiting).1 ≡ none
unfolding process_event
process_event-check = refl

process_event-audit_row :
    (process_event 10 item (returned answer) waiting).1 ≡ some (audit_row item (returned answer))
unfolding process_event
process_event-audit_row = refl

audit_row_scope : (audit_row item (returned answer)).scope ≡ ("user_id", text "ann") ∷ []
audit_row_scope = refl

abbrev no_args : QueueArgs
no_args = record { event_id = none; status = none; limit = none; offset = none }

dispatch_queue-no_event_id : (dispatch_queue 20 waiting "event_get" no_args).1 ≡ no_event_id
unfolding dispatch_queue
dispatch_queue-no_event_id = refl

dispatch_queue-unsupported : (dispatch_queue 20 waiting "event_drop" no_args).1 ≡ unsupported
unfolding dispatch_queue
dispatch_queue-unsupported = refl
