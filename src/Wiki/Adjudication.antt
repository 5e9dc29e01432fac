-- ===== src/Wiki/Adjudication.antt =====
-- src/memline/wiki/adjudication.py: the decisions on the findings of a review, and the gate that they
-- open. Reports and adjudications are JSON values. Parameters: which numbers are zero, the number 1,
-- Python's text and equality of a value, and the hash of an artifact.
pub mod Collecting
pub mod Deciding
pub mod Gate
pub mod Publishing
mod Tests
use memline.Prelude.{
  ℕ, zero, suc, ◌+◌, String, Bool, true, false, ◌&&◌, ◌||◌, not, Option, none, some, List, [], ◌∷◌,
  ◌++◌, map, leb, ◌==◌, if◌then◌else◌, filter, elem, length,
}
use memline.Prelude.Texts.{strip, append, text_le}
use memline.Prelude.Table.{sort_by}
use memline.Json.{
  Json, null, flag, number, text, array, object, Jsons, end, Fields, field, no_more, get, get_or,
  items, truthy,
}
use memline.Staleness.{dedup}

abbrev pub blocking_categories : List String
blocking_categories =
    "factual_contradiction" ∷ "superseded_current_claim" ∷ "core_claim_unverifiable"
    ∷ "decision_changing_omission" ∷ "severe_causal_overclaim" ∷ "safety_privacy_or_scope" ∷ []

abbrev pub non_blocking_categories : List String
non_blocking_categories = "non_material" ∷ []

abbrev pub decisions : List String
decisions = "blocking" ∷ "non_blocking" ∷ []

-- The dictionaries of the errors, by their kinds.
pub data Problem : Type 0 where
  adjudication_missing schema_invalid findings_missing : Problem
  hash_mismatch : String → Problem
  not_object id_invalid : ℕ → Problem
  duplicate unknown decision_invalid reason_missing : String → Problem
  category_invalid : String → String → Problem
  incomplete : List String → Problem

pub record Tally : Type 0 where
  pub errors : List Problem
  pub seen : List String
  pub adjudicated : ℕ
  pub blocking : ℕ
  pub non_blocking : ℕ

pub record Validation : Type 0 where
  pub findings : List Problem
  pub valid : Bool
  pub required : Bool
  pub total_findings : ℕ
  pub adjudicated_findings : ℕ
  pub unresolved_blocking_findings : ℕ
  pub non_blocking_findings : ℕ
  pub clean : Bool

abbrev pub is_nil {ℓ} : {A : Type ℓ} → List A → Bool
is_nil [] = true
is_nil (x ∷ xs) = false

abbrev pub report_problem : Problem → Tally → Tally
report_problem e t = record t { errors = t.errors ++ e ∷ [] }

abbrev pub note_seen : String → Tally → Tally
note_seen id t =
    let told = if elem id t.seen then report_problem (duplicate id) t else t in
    record told { seen = id ∷ told.seen }

abbrev pub then_items : (Tally → Option Tally) → Option Tally → Option Tally
then_items rest none = none
then_items rest (some t) = rest t

abbrev pub missing : List String → List String → List String
missing expected seen = sort_by text_le (filter (λ id. not (elem id seen)) expected)

abbrev pub is_required : List String → Bool
is_required expected = not (is_nil expected)

abbrev pub final_errors : List String → Tally → List Problem
final_errors expected t =
    if is_nil (missing expected t.seen)
    then t.errors
    else t.errors ++ incomplete (missing expected t.seen) ∷ []

abbrev pub validation_of : List String → Tally → Validation
validation_of expected t =
    let errors = final_errors expected t in
    record {
      findings = errors;
      valid = is_nil errors;
      required = is_required expected;
      total_findings = length expected;
      adjudicated_findings = t.adjudicated;
      unresolved_blocking_findings = t.blocking;
      non_blocking_findings = t.non_blocking;
      clean = is_nil errors && leb t.blocking 0;
    }

abbrev pub finish : List String → Option Tally → Option Validation
finish expected none = none
finish expected (some t) = some (validation_of expected t)

abbrev pub start : List Problem → Tally
start errors = record {
  errors = errors;
  seen = [];
  adjudicated = 0;
  blocking = 0;
  non_blocking = 0;
}

abbrev pub absent_validation : List String → Validation
absent_validation expected =
    let errors = if is_nil expected then [] else adjudication_missing ∷ [] in
    record {
      findings = errors;
      valid = is_nil errors;
      required = is_required expected;
      total_findings = length expected;
      adjudicated_findings = 0;
      unresolved_blocking_findings = 0;
      non_blocking_findings = 0;
      clean = is_nil errors;
    }

module _ {Number : Type 0} where
  -- value in a set of texts; none is the TypeError of a value that has no hash.
  abbrev pub member : Json Number → List String → Option Bool
  member (text s) allowed = some (elem s allowed)
  member (array js) allowed = none
  member (object d) allowed = none
  member _ allowed = some false

  -- isinstance(reason, str) and reason.strip()
  abbrev pub is_reason : Json Number → Bool
  is_reason (text s) = not (strip s == "")
  is_reason _ = false

  abbrev pub is_blocking : Json Number → Bool
  is_blocking (text s) = s == "blocking"
  is_blocking _ = false

  abbrev pub decision_text : Json Number → String
  decision_text (text s) = s
  decision_text _ = ""

  abbrev pub allowed_categories : Json Number → List String
  allowed_categories decision =
      if is_blocking decision then blocking_categories else non_blocking_categories

  abbrev pub count_decision : Json Number → Tally → Tally
  count_decision decision t =
      if is_blocking decision
      then record t { adjudicated = t.adjudicated + 1; blocking = t.blocking + 1 }
      else record t { adjudicated = t.adjudicated + 1; non_blocking = t.non_blocking + 1 }

  abbrev pub check_category : String → Json Number → Option Bool → Tally → Option Tally
  check_category id decision none t = none
  check_category id decision (some false) t =
      some (report_problem (category_invalid id (decision_text decision)) t)
  check_category id decision (some true) t = some (count_decision decision t)

  abbrev pub check_decision : String → Fields Number → Option Bool → Tally → Option Tally
  check_decision id item none t = none
  check_decision id item (some false) t = some (report_problem (decision_invalid id) t)
  check_decision id item (some true) t =
      if is_reason (get_or null "reason" item)
      then check_category id (get_or null "decision" item)
          (member (get_or null "category" item) (allowed_categories (get_or null "decision" item)))
          t
      else some (report_problem (reason_missing id) t)

  abbrev pub check_known : List String → String → Fields Number → Tally → Option Tally
  check_known expected id item t =
      if elem id expected
      then check_decision id item (member (get_or null "decision" item) decisions) t
      else some (report_problem (unknown id) t)

  abbrev pub check_id : List String → ℕ → Fields Number → Json Number → Tally → Option Tally
  check_id expected index item (text id) t = check_known expected id item (note_seen id t)
  check_id expected index item _ t = some (report_problem (id_invalid index) t)

  -- One turn of the loop over the adjudicated findings.
  abbrev pub check_item : List String → ℕ → Json Number → Tally → Option Tally
  check_item expected index (object item) t =
      check_id expected index item (get_or null "finding_id" item) t
  check_item expected index _ t = some (report_problem (not_object index) t)

  abbrev pub check_items : List String → ℕ → List (Json Number) → Tally → Option Tally
  check_items expected index [] t = some t
  check_items expected index (j ∷ js) t =
      then_items (check_items expected (suc index) js) (check_item expected index j t)

  abbrev pub list_or_problem : Json Number → List (Json Number) × List Problem
  list_or_problem (array js) = (items js, [])
  list_or_problem _ = ([], findings_missing ∷ [])

  module _ (eq : Json Number → Json Number → Bool) (one : Number)
      (artifact_sha256 : Json Number → String) where
    abbrev pub differs : String → Fields Number → Fields Number → List Problem
    differs key adjudication report =
        if eq (get_or null key adjudication) (get_or null key report)
        then []
        else hash_mismatch key ∷ []

    -- The errors that are found before the findings are read.
    abbrev pub header_errors : Fields Number → Fields Number → List Problem
    header_errors adjudication report =
        (if eq (get_or null "schema_version" adjudication) (number one)
          then []
          else schema_invalid ∷ [])
        ++ differs "article_sha256" adjudication report
        ++ differs "review_bundle_sha256" adjudication report
        ++ (if eq (get_or null "review_report_sha256" adjudication)
              (text (artifact_sha256 (object report)))
            then []
            else hash_mismatch "review_report_sha256" ∷ [])

    -- `expected` are the distinct ids of the findings that `collect_review_findings` makes of the
    -- report.
    unfoldable pub validate_adjudication :
        List String → Option (Fields Number) → Fields Number → Option Validation
    validate_adjudication expected none report = some (absent_validation expected)
    validate_adjudication expected (some adjudication) report =
        let (js, problems) = list_or_problem (get_or null "findings" adjudication) in
        finish expected
          (check_items expected 0 js (start (header_errors adjudication report ++ problems)))
