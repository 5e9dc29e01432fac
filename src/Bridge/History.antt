-- ===== src/Bridge/History.antt =====
-- src/memline/bridge.py as a state machine: the calls of the clients and of the daemon, in the order
-- in which the database takes them. A claim names the row that was read before, since another
-- process may have changed it in between.
use memline.Prelude.{ℕ, ◌+◌, String, Option, none, some, List, [], ◌∷◌, ◌==◌, if◌then◌else◌}
use memline.Dict.{Dict}
use memline.Bridge.{
  Request, BridgeQueue, Item, mark_ready, heartbeat, mark_stopped, enqueue, acknowledge,
  cancel_if_queued, claim, complete, recover_stale, purge,
}

pub data Call : Type 0 where
  readies : String → ℕ → Call
  beats stops : String → Call
  enqueues : String → Dict → Call
  acknowledges : String → Call
  cancels : String → String → Call
  claims : Request → Call
  completes : String → Dict → Call
  recovers : Call
  purges : ℕ → Call

unfoldable pub step : ℕ → Call → BridgeQueue → BridgeQueue
unfolding mark_ready heartbeat mark_stopped enqueue acknowledge cancel_if_queued claim complete
    recover_stale purge
step now (readies daemon_id daemon_pid) q = mark_ready now daemon_id daemon_pid q
step now (beats daemon_id) q = (heartbeat now daemon_id q).0
step now (stops daemon_id) q = mark_stopped now daemon_id q
step now (enqueues id payload) q = enqueue now id payload q
step now (acknowledges id) q = acknowledge id q
step now (cancels id reason) q = (cancel_if_queued now id reason q).0
step now (claims row) q = (claim now row q).0
step now (completes id d) q = complete now id d q
step now recovers q = (recover_stale now q).0
step now (purges hours) q = (purge now hours q).0

unfoldable pub run : List (ℕ × Call) → BridgeQueue → BridgeQueue
run [] q = q
run ((now, c) ∷ calls) q = run calls (step now c q)

-- Whether a call hands the request `id` to a worker.
abbrev pub is_item : String → Option Item → ℕ
is_item id none = 0
is_item id (some item) = if item.id == id then 1 else 0

unfoldable pub hands : ℕ → String → Call → BridgeQueue → ℕ
unfolding claim
hands now id (claims row) q = is_item id (claim now row q).1
hands now id _ q = 0

-- How many times a history hands out the request `id`, and how many times it submits it.
unfoldable pub handed : String → List (ℕ × Call) → BridgeQueue → ℕ
handed id [] q = 0
handed id ((now, c) ∷ calls) q = hands now id c q + handed id calls (step now c q)

abbrev pub submits : String → Call → ℕ
submits id (enqueues j payload) = if j == id then 1 else 0
submits id _ = 0

unfoldable pub submitted : String → List (ℕ × Call) → ℕ
submitted id [] = 0
submitted id ((now, c) ∷ calls) = submits id c + submitted id calls
