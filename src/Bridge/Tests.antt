-- ===== src/Bridge/Tests.antt =====
-- The bridge on concrete requests, and the theorems about it at them.
use memline.Prelude.{ℕ, ◌+◌, ◌≤◌, ◌≡◌, refl, true, false, none, some, List, [], ◌∷◌}
use memline.Dict.{text, Dict}
use memline.Bridge.{
  BridgeQueue, is_ready, mark_ready, heartbeat, mark_stopped, enqueue, response, acknowledge,
  cancel_if_queued, claim, claim_next, next_request, complete, recover_stale, purge, new_row,
  retention_hours, restarted,
}
use memline.Bridge.History.{Call, claims, completes, recovers, step, run, hands, handed, submitted}
use memline.Bridge.Once.{waiting, handed-le}
use memline.Bridge.Mailbox.{view, act, acts, WellFormed, answered}
use memline.Bridge.Refinement.{view-run}
use memline.Bridge.Client.{Poll, result, unavailable, await, request}
use memline.Bridge.Abandoned.{request_over}

abbrev payload : Dict
payload = ("op", text "search") ∷ []

abbrev answer : Dict
answer = ("status", text "ok") ∷ ("result", text "found") ∷ []

program : Unit {0}
unfolding is_ready mark_ready heartbeat mark_stopped enqueue response acknowledge cancel_if_queued
    claim claim_next next_request complete recover_stale purge step run hands handed submitted act
    acts await request
program = tt

abbrev idle : BridgeQueue
idle = record { state = none; requests = [] }

abbrev up : BridgeQueue
up = record {
  state = some (record {
    protocol_version = 1;
    daemon_id = "d1";
    daemon_pid = 42;
    ready = true;
    heartbeat_at = 10;
  });
  requests = new_row 10 "r0" payload ∷ [];
}

up-WellFormed : WellFormed up
up-WellFormed = record { keyed = (refl, tt); unmarked = (refl, tt) }

mark_ready_up : is_ready 5000010 (mark_ready 10 "d1" 42 idle) ≡ true
unfolding program
mark_ready_up = refl

stale_heartbeat : is_ready 5000011 (mark_ready 10 "d1" 42 idle) ≡ false
unfolding program
stale_heartbeat = refl

revived_heartbeat : is_ready 5000011 (heartbeat 11 "d1" (mark_ready 10 "d1" 42 idle)).0 ≡ true
unfolding program
revived_heartbeat = refl

foreign_stop : is_ready 20 (mark_stopped 15 "d2" (mark_ready 10 "d1" 42 idle)) ≡ true
unfolding program
foreign_stop = refl

enqueue_twice : enqueue 12 "r0" answer up ≡ up
unfolding program
enqueue_twice = refl

claim_next_oldest :
    (claim_next 12 (enqueue 11 "r1" payload up)).1 ≡ some (record { id = "r0"; payload = payload })
unfolding program
claim_next_oldest = refl

cancelled_not_claimed : (claim_next 12 (cancel_if_queued 11 "r0" "gone" up).0).1 ≡ none
unfolding program
cancelled_not_claimed = refl

complete_answers :
    response "r0" (complete 13 "r0" answer (claim_next 12 up).0)
    ≡ some (("_bridge_status", text "done") ∷ answer)
unfolding program
complete_answers = refl

acknowledged_gone : (acknowledge "r0" (complete 13 "r0" answer up)).requests ≡ []
unfolding program
acknowledged_gone = refl

purge_keeps_waiting : (purge 99999999999999 retention_hours up).1 ≡ 0
unfolding program
purge_keeps_waiting = refl

-- A worker that claims late, after a restart has answered for the lost request.
abbrev calls : List (ℕ × Call)
calls =
    (12, claims (new_row 10 "r0" payload))
    ∷ (13, recovers)
    ∷ (14, claims (new_row 10 "r0" payload))
    ∷ []

handed_once : handed "r0" calls up ≡ 1
unfolding program
handed_once = refl

handed-le_example : handed "r0" calls up ≤ submitted "r0" calls + waiting "r0" up
handed-le_example = handed-le "r0" calls up

view-run_lost : view "r0" (run calls up) ≡ answered false restarted 13
unfolding program
view-run_lost = refl

view-run_example : view "r0" (run calls up) ≡ acts "r0" calls (view "r0" up)
view-run_example = view-run "r0" calls up up-WellFormed

-- The daemon answers between the first poll and the second.
abbrev served : List Poll
served =
    record { before = (13, claims (new_row 12 "r1" payload)) ∷ []; now = 13 }
    ∷ record { before = (14, completes "r1" answer) ∷ []; now = 15 }
    ∷ []

served_found : (request "timed out" "r1" payload 12 served 99 (some up)).1 ≡ result (text "found")
unfolding program
served_found = refl

-- Nobody answers.
abbrev ignored : List Poll
ignored = record { before = []; now = 13 } ∷ []

abbrev left_over : BridgeQueue
left_over = (cancel_if_queued 99 "r1" "timed out" (enqueue 12 "r1" payload up)).0

ignored_times_out :
    request "timed out" "r1" payload 12 ignored 99 (some up)
    ≡ (some left_over, unavailable "timed out")
unfolding program
ignored_times_out = refl

late : List (ℕ × Call)
late = (100, claims (new_row 12 "r1" payload)) ∷ []

late_quiet : submitted "r1" late ≡ 0
unfolding program late
late_quiet = refl

request_over_example : handed "r1" late left_over ≡ 0
request_over_example =
    request_over "r1" "timed out" payload 12 ignored 99 up left_over (unavailable "timed out") late
      up-WellFormed refl ignored_times_out late_quiet
