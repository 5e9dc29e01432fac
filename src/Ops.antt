-- ===== src/Ops.antt =====
-- src/memline/ops.py: the registry of the operations on the store, and of those on the queue.
pub mod Registry
mod Tests
use memline.Prelude.{
  ℕ, String, Bool, true, false, ◌&&◌, Option, none, some, List, [], ◌∷◌, ◌==◌, if◌then◌else◌, elem,
}
use memline.Dict.{Value, null, Dict, get, truthy}

-- The handler is left out; `timeout` is in seconds.
pub record OpSpec : Type 0 where
  pub timeout : Dict → ℕ
  pub llm_bound : Dict → Bool
  pub exclusive : Dict → Bool

abbrev pub never : Dict → Bool
never args = false

abbrev pub plain : ℕ → OpSpec
plain seconds = record { timeout = λ args. seconds; llm_bound = never; exclusive = never }

abbrev pub flag : String → Dict → Bool
flag key args = truthy (get key args)

-- a.get("infer", True)
abbrev pub is_null : Value → Bool
is_null null = true
is_null _ = false

abbrev pub has_key : String → Dict → Bool
has_key key [] = false
has_key key ((k, v) ∷ args) = let rest = has_key key args in if k == key then true else rest

abbrev pub flag_or_true : String → Dict → Bool
flag_or_true key args = if has_key key args then truthy (get key args) else true

-- OPS
abbrev pub ops : List (String × OpSpec)
ops =
    ("get", plain 30)
    ∷ (
      "search",
      record {
        timeout = λ args. if flag "rerank" args then 180 else 30;
        llm_bound = flag "rerank";
        exclusive = never;
      },
    )
    ∷ ("list", plain 30)
    ∷ (
      "add",
      record {
        timeout = λ args. if flag "infer" args then 300 else 30;
        llm_bound = flag_or_true "infer";
        exclusive = never;
      },
    )
    ∷ ("update", plain 300)
    ∷ ("delete", record (plain 30) { exclusive = flag "all" })
    ∷ ("set_displacement_protection", plain 30)
    ∷ ("clear_displacement_protection", plain 30)
    ∷ ("list_displacement_protections", plain 30)
    ∷ ("history", plain 30)
    ∷ ("invalidate", plain 30)
    ∷ ("revive", plain 30)
    ∷ ("set_ttl", plain 30)
    ∷ ("resolve_head", plain 30)
    ∷ ("entity_list", plain 30)
    ∷ ("entity_get", plain 30)
    ∷ ("entity_delete", plain 30)
    ∷ []

-- OPS.get(op)
abbrev pub spec_in : String → List (String × OpSpec) → Option OpSpec
spec_in op [] = none
spec_in op ((name, s) ∷ specs) = let rest = spec_in op specs in if name == op then some s else rest

abbrev pub queue_ops : List String
queue_ops = "event_list" ∷ "event_get" ∷ "event_retry" ∷ "event_ack" ∷ []

abbrev pub exclusive_of : Dict → Option OpSpec → Bool
exclusive_of args none = false
exclusive_of args (some s) = s.exclusive args

abbrev pub llm_bound_of : Dict → Option OpSpec → Bool
llm_bound_of args none = false
llm_bound_of args (some s) = s.llm_bound args

unfoldable pub is_exclusive : String → Dict → Bool
is_exclusive op args = exclusive_of args (spec_in op ops)

unfoldable pub is_llm_bound : String → Dict → Bool
is_llm_bound op args = llm_bound_of args (spec_in op ops)

abbrev pub timeout_of : String → Dict → Option OpSpec → ℕ
timeout_of op args (some s) = s.timeout args
timeout_of op args none = if elem op queue_ops then 30 else 300

-- `override` is MEMLINE_DAEMON_TIMEOUT, where it is set to a number.
unfoldable pub op_timeout : Option ℕ → String → Dict → ℕ
op_timeout (some seconds) op args = seconds
op_timeout none op args = timeout_of op args (spec_in op ops)

-- What src/memline/daemon.py, `handle_request`, does with a request before it runs it: it answers of its
-- own, enqueues an add, passes the request to the queue, or takes a side of the gate, and perhaps one of
-- the slots for calls of an LLM.
pub data Plan : Type 0 where
  pings stops unavailable queue_plane : Plan
  enqueues : Dict → Plan
  gated : (exclusive llm_slot : Bool) → Plan

-- {k: v for k, v in args.items() if k != key}
abbrev pub without : String → Dict → Dict
without key [] = []
without key ((k, v) ∷ args) =
    let rest = without key args in if k == key then rest else (k, v) ∷ rest

-- Whether the daemon has its queue is `has_queue`.
unfoldable pub plan : Bool → String → Dict → Plan
plan has_queue op args =
    if op == "ping"
    then pings
    else if op == "daemon_stop"
    then stops
    else if op == "add" && flag "async" args
    then (if has_queue then enqueues (without "async" args) else unavailable)
    else if elem op queue_ops
    then queue_plane
    else gated (is_exclusive op args) (is_llm_bound op args)
