-- ===== src/Wiki/Adjudication/Tests.antt =====
-- A review report with its adjudications, and the theorem about the gate at them. Numbers are natural
-- numbers here, and the hash of an artifact is a fixed text.
use memline.Prelude.{
  ℕ, String, ◌≡◌, refl, true, false, some, [], ◌∷◌, ◌==◌, ltb, leb, ◌&&◌, Bool, In, here,
}
use memline.Prelude.Texts.{strip}
use memline.Json.{
  Json, null, number, text, array, object, end, next, Fields, field, no_more, get_or,
}
use memline.Wiki.Adjudication.{Validation, validate_adjudication, reason_missing}
use memline.Wiki.Adjudication.Collecting.{
  collect_review_findings, expected_ids, validate_report, listed,
}
use memline.Wiki.Adjudication.Gate.{Passed}
use memline.Wiki.Adjudication.Publishing.{validate_report-clean}

program : Unit {0}
unfolding strip validate_adjudication collect_review_findings validate_report
program = tt

abbrev digit : ℕ → String
digit n = "n"

abbrev repr : Json ℕ → String
repr j = "None"

abbrev is_zero : ℕ → Bool
is_zero n = ltb n 1

-- Equality, of the values that the headers hold here.
abbrev same : Json ℕ → Json ℕ → Bool
same (number a) (number b) = leb a b && leb b a
same (text s) (text t) = s == t
same null null = true
same _ _ = false

abbrev sha : Json ℕ → String
sha j = "hash"

abbrev claim : Fields ℕ
claim =
    field "claim_id" (text "c1")
      (field "verdict" (text "contradicted") (field "reason" (text "stale") no_more))

abbrev supported : Fields ℕ
supported = field "claim_id" (text "c2") (field "verdict" (text "supported") no_more)

abbrev report : Fields ℕ
report =
    field "claim_reviews" (array (next (object claim) (next (object supported) end)))
      (field "scope_review" (object (field "verdict" (text "in_scope") no_more)) no_more)

report_ids : expected_ids is_zero repr digit report ≡ "claim:c1" ∷ []
unfolding program
report_ids = refl

abbrev ruling : String → Json ℕ
ruling reason = object (
    field "finding_id" (text "claim:c1") (
      field "decision" (text "non_blocking")
        (field "category" (text "non_material") (field "reason" (text reason) no_more))))

abbrev adjudication : String → Fields ℕ
adjudication reason = field "schema_version" (number 1) (
    field "review_report_sha256" (text "hash")
      (field "findings" (array (next (ruling reason) end)) no_more))

abbrev passed : Validation
passed = record {
  findings = [];
  valid = true;
  required = true;
  total_findings = 1;
  adjudicated_findings = 1;
  unresolved_blocking_findings = 0;
  non_blocking_findings = 1;
  clean = true;
}

validates :
    validate_report is_zero repr digit same 1 sha (some (adjudication "cosmetic")) report
    ≡ some passed
unfolding program
validates = refl

blank_reason :
    validate_report is_zero repr digit same 1 sha (some (adjudication "  ")) report
    ≡ some (record passed {
      findings = reason_missing "claim:c1" ∷ [];
      valid = false;
      adjudicated_findings = 0;
      non_blocking_findings = 0;
      clean = false;
    })
unfolding program
blank_reason = refl

abbrev found : Fields ℕ
found = field "finding_id" (text "claim:c1") (
    field "source" (text "claim") (
      field "claim_id" (text "c1") (
        field "reviewer_verdict" (text "contradicted") (
          field "confidence" null (
            field "finding" (text "stale")
              (field "evidence_refs" (array end) (field "suggested_rewrite" (text "") no_more)))))))

found_there : In found (collect_review_findings is_zero repr digit report)
unfolding program
found_there = here refl

validate_report-clean_example :
    (item : Fields ℕ) × In (object item) (listed (get_or null "findings" (adjudication "cosmetic")))
    × Passed (expected_ids is_zero repr digit report) item "claim:c1"
validate_report-clean_example =
    validate_report-clean is_zero repr digit same 1 sha (adjudication "cosmetic") report found
      "claim:c1" passed validates refl found_there refl
