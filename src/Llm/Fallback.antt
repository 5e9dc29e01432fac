-- ===== src/Llm/Fallback.antt =====
-- src/memline/llm.py, `FallbackLLM.generate_response`: who answers.
use memline.Prelude.{
  suc, ◌+◌, String, ◌≡◌, refl, sym, subst, Bool, true, false, not, List, [], ◌∷◌, ◌++◌, In, here,
  there, length, arith,
}
use memline.Llm.{
  Endpoint, Answer, Outcome, answered, failed, is_empty_answer, FallbackLlm, response, all_failed,
  try_endpoints, generate_response, keep, drop_llm, failure,
}

-- The endpoint gave an answer that can be used.
abbrev pub is_usable : Outcome → Bool
is_usable (failed what) = false
is_usable (answered a) = not (is_empty_answer a)

length-append_one : {A : Type 0} (xs : List A) (x : A) → length (xs ++ x ∷ []) ≡ suc (length xs)
length-append_one [] x = refl
length-append_one (y ∷ xs) x = omega (arith, length-append_one xs x)

module _ (call : Endpoint → Outcome) where
  goes_on :
      (a : Answer) (e : Endpoint) (es : List Endpoint) (l : FallbackLlm) (errors : List String)
      → is_empty_answer a ≡ true
      → call e ≡ answered a
      → try_endpoints call (e ∷ es) l errors
        ≡ try_endpoints call es
            (record l { llms = keep e.name l.llms })
            (errors ++ failure e "empty response" ∷ [])
  unfolding try_endpoints
  goes_on a e es l errors empty c = rw (c, try_endpoints, empty) refl

  -- Where an endpoint fails, the loop goes on with the next.
  skips :
      (o : Outcome) (e : Endpoint) (es : List Endpoint) (l : FallbackLlm) (errors : List String)
      → call e ≡ o
      → is_usable o ≡ false
      → (llms : List String) × (error : String) × (try_endpoints call (e ∷ es) l errors
          ≡ try_endpoints call es (record l { llms = llms }) (errors ++ error ∷ []))
  unfolding try_endpoints
  skips (failed what) e es l errors c h =
      (drop_llm e.name (keep e.name l.llms), failure e what, rw (c, try_endpoints) refl)
  skips (answered a) e es l errors c h =
      let empty : is_empty_answer a ≡ true = ground arith in
      (keep e.name l.llms, failure e "empty response", goes_on a e es l errors empty c)

  first_try :
      (before : List Endpoint) (e : Endpoint) (after : List Endpoint) (a : Answer)
      → ((x : Endpoint) → In x before → is_usable (call x) ≡ false)
      → call e ≡ answered a
      → is_empty_answer a ≡ false
      → (l : FallbackLlm) (errors : List String)
      → ((try_endpoints call (before ++ e ∷ after) l errors).1 ≡ response a)
        × ((try_endpoints call (before ++ e ∷ after) l errors).0.active_model ≡ e.model)
  unfolding try_endpoints
  first_try [] e after a h c some_answer l errors = rw (c, some_answer) (refl, refl)
  first_try (x ∷ before) e after a h c some_answer l errors =
      let (llms, error, later) =
        skips (call x) x (before ++ e ∷ after) l errors refl (h x (here refl)) in
      rw later (
        first_try before e after a (λ y i. h y (there i)) c some_answer (record l { llms = llms })
          (errors ++ error ∷ []))

  -- The answer is that of the first endpoint, in the order of the configuration, whose call does not fail
  -- and is not empty, and `active_model` then names that endpoint's model.
  pub generate_response_first :
      (l : FallbackLlm) (before : List Endpoint) (e : Endpoint) (after : List Endpoint) (a : Answer)
      → l.endpoints ≡ before ++ e ∷ after
      → ((x : Endpoint) → In x before → is_usable (call x) ≡ false)
      → call e ≡ answered a
      → is_empty_answer a ≡ false
      → ((generate_response call l).1 ≡ response a)
        × ((generate_response call l).0.active_model ≡ e.model)
  unfolding generate_response
  generate_response_first l before e after a order h c some_answer =
      subst
        (λ es.
          ((try_endpoints call es l []).1 ≡ response a)
          × ((try_endpoints call es l []).0.active_model ≡ e.model))
        (sym order) (first_try before e after a h c some_answer l [])

  every_try :
      (es : List Endpoint)
      → ((x : Endpoint) → In x es → is_usable (call x) ≡ false)
      → (l : FallbackLlm) (errors : List String)
      → (all : List String) × ((try_endpoints call es l errors).1 ≡ all_failed all)
        × (length all ≡ length errors + length es)
        × ((try_endpoints call es l errors).0.active_model ≡ l.active_model)
  unfolding try_endpoints
  every_try [] h l errors = (errors, refl, omega arith, refl)
  every_try (x ∷ es) h l errors =
      let (llms, error, later) = skips (call x) x es l errors refl (h x (here refl)) in
      let (all, failed_all, counted, model) =
        every_try es (λ y i. h y (there i)) (record l { llms = llms }) (errors ++ error ∷ []) in
      (
        all,
        rw later failed_all,
        omega (arith, counted, length-append_one errors error),
        rw later model,
      )

  -- If every endpoint fails or answers nothing, the error lists one failure for each endpoint, and
  -- `active_model` still names who answered last before.
  pub generate_response_none :
      (l : FallbackLlm)
      → ((x : Endpoint) → In x l.endpoints → is_usable (call x) ≡ false)
      → (all : List String) × ((generate_response call l).1 ≡ all_failed all)
        × (length all ≡ length l.endpoints)
        × ((generate_response call l).0.active_model ≡ l.active_model)
  unfolding generate_response
  generate_response_none l h =
      let (all, failed_all, counted, model) = every_try l.endpoints h l [] in
      (all, failed_all, omega (arith, counted), model)
