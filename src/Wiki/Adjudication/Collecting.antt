-- ===== src/Wiki/Adjudication/Collecting.antt =====
-- src/memline/wiki/adjudication.py, `collect_review_findings`: the findings of a report, with their ids.
-- A report has lists (or nothing) under its plural keys, as the review that writes it makes them.
use memline.Prelude.{
  ℕ, suc, String, Bool, true, false, Option, List, [], ◌∷◌, ◌++◌, map, ◌==◌, if◌then◌else◌,
}
use memline.Prelude.Texts.{append}
use memline.Json.{
  Json, null, flag, text, array, object, end, Fields, field, no_more, get_or, items, truthy,
}
use memline.Staleness.{dedup}
use memline.Wiki.Adjudication.{validate_adjudication, Validation}

module _ {Number : Type 0} where
  -- value or [] of a list
  abbrev pub listed : Json Number → List (Json Number)
  listed (array js) = items js
  listed _ = []

  abbrev pub has_field : String → Fields Number → Bool
  has_field key no_more = false
  has_field key (field k v d) = let rest = has_field key d in if k == key then true else rest

  abbrev pub is_verdict : String → Json Number → Bool
  is_verdict v (text s) = s == v
  is_verdict v _ = false

  abbrev pub is_true : Json Number → Bool
  is_true (flag b) = b
  is_true _ = false

  -- (report.get("validation") or {}).get("scope_clean") is not True
  abbrev pub scope_clean : Json Number → Bool
  scope_clean (object d) = is_true (get_or null "scope_clean" d)
  scope_clean _ = false

  abbrev pub text_or_empty : Json Number → String
  text_or_empty (text s) = s
  text_or_empty _ = ""

  module _ (is_zero : Number → Bool) (repr : Json Number → String) (text_of : ℕ → String) where
    abbrev pub or_else : Json Number → Json Number → Json Number
    or_else fallback j = if truthy is_zero j then j else fallback

    -- str(value), in an f-string
    abbrev pub str : Json Number → String
    str (text s) = s
    str j = repr j

    abbrev pub id_with : String → Json Number → String
    id_with prefix j = append prefix (str j)

    abbrev pub pass_of : Fields Number → Json Number
    pass_of item = get_or null "pass" item

    abbrev pub refs_of : Fields Number → Json Number
    refs_of item = or_else (array end) (get_or null "evidence_refs" item)

    abbrev pub merged_claim : Json Number → Fields Number → Fields Number
    merged_claim claim_id item =
        field "finding_id"
          (text (append (id_with "claim:" claim_id) (id_with ":pass:" (pass_of item))))
          (field "source" (text "claim") (
            field "pass" (pass_of item) (
              field "claim_id" claim_id (
                field "reviewer_verdict" (get_or null "verdict" item) (
                  field "confidence" (get_or null "confidence" item) (
                    field "finding" (get_or null "reason" item) (
                      field "evidence_refs" (refs_of item) (
                        field "suggested_rewrite"
                          (or_else (text "") (get_or null "suggested_rewrite" item)) no_more))))))))

    abbrev pub merged_claims : Json Number → List (Json Number) → List (Fields Number)
    merged_claims claim_id [] = []
    merged_claims claim_id (object item ∷ js) =
        merged_claim claim_id item ∷ merged_claims claim_id js
    merged_claims claim_id (_ ∷ js) = merged_claims claim_id js

    abbrev pub plain_claim : Fields Number → Fields Number
    plain_claim claim =
        let claim_id = get_or null "claim_id" claim in
        field "finding_id" (text (id_with "claim:" claim_id)) (
          field "source" (text "claim") (
            field "claim_id" claim_id (
              field "reviewer_verdict" (get_or null "verdict" claim) (
                field "confidence" (get_or null "confidence" claim) (
                  field "finding" (get_or null "reason" claim) (
                    field "evidence_refs" (refs_of claim) (
                      field "suggested_rewrite"
                        (or_else (text "") (get_or null "suggested_rewrite" claim)) no_more)))))))

    abbrev pub claim_findings : Bool → Json Number → List (Fields Number)
    claim_findings true (object claim) =
        merged_claims (get_or null "claim_id" claim) (listed (get_or null "findings" claim))
    claim_findings false (object claim) =
        if is_verdict "supported" (get_or null "verdict" claim) then [] else plain_claim claim ∷ []
    claim_findings merged _ = []

    abbrev pub all_claims : Bool → List (Json Number) → List (Fields Number)
    all_claims merged [] = []
    all_claims merged (j ∷ js) = claim_findings merged j ++ all_claims merged js

    abbrev pub omission_id : Bool → ℕ → Json Number → String
    omission_id true index pass =
        append (id_with "omission:pass:" pass) (append ":item:" (text_of index))
    omission_id false index pass = append "omission:item:" (text_of index)

    abbrev pub with_pass : Bool → Json Number → Fields Number → Fields Number
    with_pass true pass d = field "pass" pass d
    with_pass false pass d = d

    abbrev pub omission_finding : Bool → ℕ → Fields Number → Fields Number
    omission_finding merged index item =
        field "finding_id" (text (omission_id merged index (pass_of item))) (
          field "source" (text "omission") (
            with_pass merged (pass_of item) (
              field "reviewer_severity" (get_or null "severity" item) (
                field "reviewer_kind" (get_or null "kind" item) (
                  field "finding" (get_or null "finding" item) (
                    field "evidence_refs" (refs_of item) (
                      field "article_quotes"
                        (or_else (array end) (get_or null "article_quotes" item))
                        (field "article_location"
                          (or_else (text "") (get_or null "article_location" item)) no_more))))))))

    -- The items are counted from 1, those that are no dictionaries too.
    abbrev pub omission_findings : Bool → ℕ → List (Json Number) → List (Fields Number)
    omission_findings merged index [] = []
    omission_findings merged index (object item ∷ js) =
        omission_finding merged index item ∷ omission_findings merged (suc index) js
    omission_findings merged index (_ ∷ js) = omission_findings merged (suc index) js

    abbrev pub scope_finding : Bool → String → Fields Number → Fields Number
    scope_finding merged id item = field "finding_id" (text id) (
        field "source" (text "scope") (
          with_pass merged (pass_of item) (
            field "reviewer_verdict" (get_or null "verdict" item) (
              field "finding" (get_or null "reason" item)
                (field "evidence_refs" (array end) no_more)))))

    abbrev pub merged_scopes : List (Json Number) → List (Fields Number)
    merged_scopes [] = []
    merged_scopes (object item ∷ js) =
        let rest = merged_scopes js in
        if is_verdict "in_scope" (get_or null "verdict" item)
        then rest
        else scope_finding true (id_with "scope:pass:" (pass_of item)) item ∷ rest
    merged_scopes (_ ∷ js) = merged_scopes js

    abbrev pub legacy_scope : Fields Number
    legacy_scope = field "finding_id" (text "scope:legacy-aggregate") (
        field "source" (text "scope") (
          field "reviewer_verdict" (text "legacy_non_clean") (
            field "finding" (text "A legacy merged review recorded a non-clean scope result.")
              (field "evidence_refs" (array end) no_more))))

    abbrev pub merged_scope_findings : Json Number → Json Number → List (Fields Number)
    merged_scope_findings (array js) validation = merged_scopes (items js)
    merged_scope_findings _ validation = if scope_clean validation then [] else legacy_scope ∷ []

    abbrev pub plain_scope_findings : Json Number → List (Fields Number)
    plain_scope_findings (object scope) =
        if is_verdict "in_scope" (get_or null "verdict" scope)
        then []
        else scope_finding false "scope" scope ∷ []
    plain_scope_findings _ = []

    abbrev pub scope_findings : Bool → Fields Number → List (Fields Number)
    scope_findings true report =
        merged_scope_findings (get_or null "scope_reviews" report) (get_or null "validation" report)
    scope_findings false report = plain_scope_findings (get_or null "scope_review" report)

    unfoldable pub collect_review_findings : Fields Number → List (Fields Number)
    collect_review_findings report =
        let merged = has_field "passes" report in
        all_claims merged (listed (get_or null "claim_reviews" report))
        ++ omission_findings merged 1 (listed (get_or null "omission_reviews" report))
        ++ scope_findings merged report

    -- {item["finding_id"]: item for item in collect_review_findings(report)}
    abbrev pub expected_ids : Fields Number → List String
    expected_ids report =
        dedup
          (map (λ d. text_or_empty (get_or null "finding_id" d)) (collect_review_findings report))

    unfoldable pub validate_report :
        (eq : Json Number → Json Number → Bool) (one : Number)
        (artifact_sha256 : Json Number → String)
        → Option (Fields Number)
        → Fields Number
        → Option Validation
    validate_report eq one artifact_sha256 adjudication report =
        validate_adjudication eq one artifact_sha256 (expected_ids report) adjudication report
