-- ===== src/Llm.antt =====
-- src/memline/llm.py: `FallbackLLM`, the chain of judge endpoints. Building an endpoint's client and
-- calling it is `call`, which answers or fails with a text; `is_empty` is `_is_empty_answer`.
pub mod Fallback
mod Tests
use memline.Prelude.{
  String, Bool, true, false, Option, none, some, List, [], ◌∷◌, ◌++◌, elem, filter, not, ◌==◌,
  if◌then◌else◌,
}
use memline.Prelude.Texts.{strip, append}
use memline.Result.{Result}

pub record Endpoint : Type 0 where
  pub name : String
  pub model : String

-- An answer of an endpoint: a text, a dictionary (tool calls), or None.
pub data Answer : Type 0 where
  nothing tool_calls : Answer
  said : String → Answer

pub data Outcome : Type 0 where
  answered : Answer → Outcome
  failed : String → Outcome

unfoldable pub is_empty_answer : Answer → Bool
is_empty_answer nothing = true
is_empty_answer tool_calls = false
is_empty_answer (said s) = strip s == ""

-- The endpoints in order, the names of those whose client is built, and who answered last.
pub record FallbackLlm : Type 0 where
  pub endpoints : List Endpoint
  pub llms : List String
  pub active_model : String

-- What `generate_response` comes to: an answer, or the RuntimeError with the errors of all endpoints.
pub data Response : Type 0 where
  response : Answer → Response
  all_failed : List String → Response

-- `FallbackLLM(endpoints)`; none where the list is empty, which raises.
abbrev pub new : List Endpoint → Option FallbackLlm
new [] = none
new (e ∷ endpoints) = some (record { endpoints = e ∷ endpoints; llms = []; active_model = e.model })

-- `_llm_for`: a client that is not kept is built and kept.
abbrev pub keep : String → List String → List String
keep name llms = if elem name llms then llms else name ∷ llms

abbrev pub drop_llm : String → List String → List String
drop_llm name llms = filter (λ n. not (n == name)) llms

abbrev pub failure : Endpoint → String → String
failure e what = append e.name (append "(" (append e.model (append "): " what)))

module _ (call : Endpoint → Outcome) where
  -- The loop over the endpoints, with the errors so far.
  unfoldable pub try_endpoints : List Endpoint → FallbackLlm → List String → FallbackLlm × Response
  try_endpoints [] l errors = (l, all_failed errors)
  try_endpoints (e ∷ es) l errors =
      let kept = keep e.name l.llms in
      let broken = try_endpoints es (record l { llms = drop_llm e.name kept }) in
      let silent = try_endpoints es (record l { llms = kept }) in
      elim (call e) [
        | failed what ↦ broken (errors ++ failure e what ∷ [])
        | answered a ↦
            if is_empty_answer a
            then silent (errors ++ failure e "empty response" ∷ [])
            else (record l { llms = kept; active_model = e.model }, response a)
      ]

  unfoldable pub generate_response : FallbackLlm → FallbackLlm × Response
  generate_response l = try_endpoints l.endpoints l []
