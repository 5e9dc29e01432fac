-- ===== src/Ops/Tests.antt =====
-- Requests to the daemon.
use memline.Prelude.{◌≡◌, refl, true, none, [], ◌∷◌}
use memline.Dict.{flag, text, Dict, get}
use memline.Ops.{plan, enqueues, queue_plane, without, is_exclusive, is_llm_bound, op_timeout}
use memline.Ops.Registry.{get-without}

abbrev everything : Dict
everything = ("all", flag true) ∷ []

program : Unit {0}
unfolding plan is_exclusive is_llm_bound op_timeout
program = tt

asynchronous :
    plan true "add" (("async", flag true) ∷ ("content", text "a fact") ∷ [])
    ≡ enqueues (("content", text "a fact") ∷ [])
unfolding program
asynchronous = refl

acknowledges : plan true "event_ack" [] ≡ queue_plane
unfolding program
acknowledges = refl

reranks : op_timeout none "search" (("rerank", flag true) ∷ []) ≡ 180
unfolding program
reranks = refl

queued_content : get "content" (without "async" (("content", text "a fact") ∷ [])) ≡ text "a fact"
queued_content = get-without "async" "content" (("content", text "a fact") ∷ [])
