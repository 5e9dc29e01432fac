-- ===== src/Llm/Tests.antt =====
-- A chain of two endpoints, the first of which fails or says nothing.
use memline.Prelude.{◌≡◌, refl, false, [], ◌∷◌, In, here, there, if◌then◌else◌, ◌==◌}
use memline.Prelude.Texts.{strip}
use memline.Llm.{
  Endpoint, said, Outcome, answered, failed, is_empty_answer, FallbackLlm, response,
  generate_response,
}
use memline.Llm.Fallback.{is_usable, generate_response_first}

abbrev primary : Endpoint
primary = record { name = "primary"; model = "a" }

abbrev second : Endpoint
second = record { name = "second"; model = "b" }

abbrev chain : FallbackLlm
chain = record { endpoints = primary ∷ second ∷ []; llms = []; active_model = "a" }

-- The first endpoint answers with blanks.
abbrev call : Endpoint → Outcome
call e = if e.name == "primary" then answered (said " ") else answered (said "kept")

abbrev broken : Endpoint → Outcome
broken e = failed "timeout"

blank : (x : Endpoint) → In x (primary ∷ []) → is_usable (call x) ≡ false
unfolding is_empty_answer strip
blank x (here e) = rw e refl
blank x (there i) = elim i [ ]

kept : is_empty_answer (said "kept") ≡ false
unfolding is_empty_answer strip
kept = refl

generate_response_first_example :
    ((generate_response call chain).1 ≡ response (said "kept"))
    × ((generate_response call chain).0.active_model ≡ "b")
generate_response_first_example =
    generate_response_first call chain (primary ∷ []) second [] (said "kept") refl blank refl kept
