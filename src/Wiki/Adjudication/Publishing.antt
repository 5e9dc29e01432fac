-- ===== src/Wiki/Adjudication/Publishing.antt =====
-- src/memline/wiki/adjudication.py: the gate over the findings that a report holds.
use memline.Prelude.{
  ℕ, String, ◌≡◌, refl, subst, ap, inl, inr, Bool, true, not, some, List, [], ◌∷◌, ◌==◌, map,
  String-cases, In, here, there, In-map_of, In-filter_of,
}
use memline.Json.{Json, null, text, object, Fields, get_or}
use memline.Staleness.{dedup}
use memline.Wiki.Adjudication.{Validation}
use memline.Wiki.Adjudication.Collecting.{
  listed, collect_review_findings, expected_ids, text_or_empty, validate_report,
}
use memline.Wiki.Adjudication.Gate.{Passed, validate_adjudication-clean}

In-dedup : (x : String) (xs : List String) → In x xs → In x (dedup xs)
In-dedup x [] i = elim i [ ]
In-dedup x (y ∷ xs) (here e) = here e
In-dedup x (y ∷ xs) (there i) = elim (String-cases x y) [
  | inl same ↦ here same
  | inr other ↦
      there (In-filter_of (λ z. not (z == y)) x (dedup xs) (In-dedup x xs i) (rw other refl))
]

module _ {Number : Type 0} (is_zero : Number → Bool) (repr : Json Number → String)
    (text_of : ℕ → String) (eq : Json Number → Json Number → Bool) (one : Number)
    (artifact_sha256 : Json Number → String) where
  -- If the validation of an adjudication against its report is clean, then every finding that the report
  -- holds (claims, omissions and scope) has an entry of its id in the adjudication, decided as not
  -- blocking, under the category that is not material, with a reason that is not blank.
  pub validate_report-clean :
      (adjudication report finding : Fields Number) (id : String) (v : Validation)
      → validate_report is_zero repr text_of eq one artifact_sha256 (some adjudication) report
        ≡ some v
      → v.clean ≡ true
      → In finding (collect_review_findings is_zero repr text_of report)
      → get_or null "finding_id" finding ≡ text id
      → (item : Fields Number) × In (object item) (listed (get_or null "findings" adjudication))
        × Passed (expected_ids is_zero repr text_of report) item id
  unfolding validate_report
  validate_report-clean adjudication report finding id v h clean i named =
      validate_adjudication-clean (expected_ids is_zero repr text_of report) eq one artifact_sha256
        adjudication report v h clean id
        (In-dedup id _ (
          subst
            (λ x. In x (
              map (λ d. text_or_empty (get_or null "finding_id" d))
                (collect_review_findings is_zero repr text_of report)))
            (ap text_or_empty named)
            (In-map_of (λ d. text_or_empty (get_or null "finding_id" d)) finding _ i)))
