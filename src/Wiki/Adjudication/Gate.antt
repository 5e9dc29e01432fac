-- ===== src/Wiki/Adjudication/Gate.antt =====
-- src/memline/wiki/adjudication.py, `validate_adjudication`: what a clean adjudication says.
use memline.Prelude.{
  ℕ, suc, ◌+◌, ◌⊎◌, String, ◌≡◌, refl, sym, ap, ◌∙◌, inl, inr, Bool, true, false, Option, none,
  some, List, [], ◌∷◌, ◌++◌, ◌==◌, if◌then◌else◌, elem, not, filter, arith, eq_iff, Bool-cases,
  Option-cases, In, here, there, and_split, In-filter_of,
}
use memline.Prelude.Texts.{text_le}
use memline.Prelude.Places.{In-sort_by_of}
use memline.Json.{Json, null, flag, number, text, array, object, Fields, get_or}
use memline.Wiki.Adjudication.{
  Problem, Tally, Validation, is_nil, member, is_reason, is_blocking, decisions, check_item,
  check_items, missing, final_errors, validation_of, finish, list_or_problem, blocking_categories,
  non_blocking_categories, validate_adjudication, incomplete,
}
use memline.Wiki.Adjudication.Deciding.{Decided, item-Turn}
use memline.Wiki.Adjudication.Collecting.{listed}

none-some : {A : Type 0} {a : A} → ◌≡◌ {A = Option A} none (some a) → ⊥
none-some h = cc

not_blocking : (b : Bool) (n : ℕ) → n + (if b then 1 else 0) ≡ 0 → b ≡ false
not_blocking true n h = absurd (omega arith)
not_blocking false n h = refl

cons-elem :
    (id k : String) (seen : List String)
    → elem id (k ∷ seen) ≡ true
    → (id ≡ k) ⊎ (elem id seen ≡ true)
cons-elem id k seen h = elim (Bool-cases (id == k)) [
  | inl same ↦ inl ((eq_iff id k).0 same)
  | inr other ↦ inr (rw other at h)
]

empty : {A : Type 0} {a : A} (xs : List A) → xs ≡ [] → In a xs → ⊥
empty [] h i = elim i [ ]
empty (x ∷ xs) h i = cc

nil_of : {A : Type 0} (xs : List A) → is_nil xs ≡ true → xs ≡ []
nil_of [] h = refl
nil_of (x ∷ xs) h = cc

not_nil_append : (es : List Problem) (e : Problem) → is_nil (es ++ e ∷ []) ≡ true → ⊥
not_nil_append [] e k = cc
not_nil_append (x ∷ es) e k = cc

none_seen : (id : String) → elem id [] ≡ true → ⊥
none_seen id h = cc

list-listed : {Number : Type 0} (j : Json Number) → (list_or_problem j).0 ≡ listed j
list-listed (array js) = refl
list-listed null = refl
list-listed (flag b) = refl
list-listed (number n) = refl
list-listed (text s) = refl
list-listed (object d) = refl

missing-nil :
    (expected seen : List String) (id : String)
    → missing expected seen ≡ []
    → In id expected
    → elem id seen ≡ true
missing-nil expected seen id h i = elim (Bool-cases (elem id seen)) [
  | inl there_it_is ↦ there_it_is
  | inr away ↦ absurd (
      empty (missing expected seen) h (
        In-sort_by_of text_le id (filter (λ x. not (elem x seen)) expected)
          (In-filter_of (λ x. not (elem x seen)) id expected i (rw away refl))))
]

final-clean :
    (expected : List String) (t : Tally)
    → is_nil (final_errors expected t) ≡ true
    → (t.errors ≡ []) × (missing expected t.seen ≡ [])
final-clean expected t h = elim (Bool-cases (is_nil (missing expected t.seen))) [
  | inl complete ↦ (nil_of t.errors (rw complete at h), nil_of (missing expected t.seen) complete)
  | inr lacking ↦
      absurd (not_nil_append t.errors (incomplete (missing expected t.seen)) (rw lacking at h))
]

module _ {Number : Type 0} (expected : List String) where
  -- A finding that the adjudication passes: decided as not blocking, with its one category and a reason.
  pub record Passed (item : Fields Number) (id : String) : Type 0 where
    pub named : get_or null "finding_id" item ≡ text id
    pub decision : get_or null "decision" item ≡ text "non_blocking"
    pub category : get_or null "category" item ≡ text "non_material"
    pub reason : is_reason (get_or null "reason" item) ≡ true

  member_two :
      (j : Json Number)
      → member j decisions ≡ some true
      → is_blocking j ≡ false
      → j ≡ text "non_blocking"
  member_two null h k = absurd (ground arith)
  member_two (flag b) h k = absurd (ground arith)
  member_two (number n) h k = absurd (ground arith)
  member_two (array js) h k = cc
  member_two (object d) h k = cc
  member_two (text s) h k = ap text (ground (arith, eq_iff s "non_blocking"))

  member_one :
      (j : Json Number) → member j non_blocking_categories ≡ some true → j ≡ text "non_material"
  member_one null h = absurd (ground arith)
  member_one (flag b) h = absurd (ground arith)
  member_one (number n) h = absurd (ground arith)
  member_one (array js) h = cc
  member_one (object d) h = cc
  member_one (text s) h = ap text (ground (arith, eq_iff s "non_material"))

  Decided-Passed :
      (item : Fields Number) (id : String)
      → Decided expected item id
      → is_blocking (get_or null "decision" item) ≡ false
      → Passed item id
  Decided-Passed item id d passes = record {
    named = d.named;
    decision = member_two (get_or null "decision" item) d.decision passes;
    category = member_one (get_or null "category" item) (
        ap
          (λ b.
            member (get_or null "category" item)
              (if b then blocking_categories else non_blocking_categories))
          (sym passes)
        ∙ d.category);
    reason = d.reason;
  }

  seen_here :
      (id k : String) (seen : List String) (j : Json Number) (js : List (Json Number))
      (item : Fields Number)
      → elem id (k ∷ seen) ≡ true
      → j ≡ object item
      → Passed item k
      → (elem id seen ≡ true) ⊎ ((x : Fields Number) × In (object x) (j ∷ js) × Passed x id)
  seen_here id k seen j js item h same passed = elim (cons-elem id k seen h) [
    | inl it ↦ inr (item, here (sym same), rw it passed)
    | inr earlier ↦ inl earlier
  ]

  -- Each id that was seen since the start of a clean loop was passed, when nothing blocks.
  check_items-Passed :
      (index : ℕ) (js : List (Json Number)) (t t' : Tally)
      → check_items expected index js t ≡ some t'
      → t'.errors ≡ []
      → t'.blocking ≡ 0
      → (t.errors ≡ [])
        × (t.blocking ≡ 0)
        × ((id : String)
            → elem id t'.seen ≡ true
            → (elem id t.seen ≡ true)
              ⊎ ((item : Fields Number) × In (object item) js × Passed item id))
  check_items-Passed index [] t t' h clean none_blocks =
      let same : t ≡ t' = ground arith in rw same (clean, none_blocks, λ id seen. inl seen)
  check_items-Passed index (j ∷ js) t t' h clean none_blocks =
      elim (Option-cases (check_item expected index j t)) [
        | inl raised ↦ absurd (none-some (rw raised at h))
        | inr (u, e) ↦
            let rest = check_items-Passed (suc index) js u t' (rw e at h) clean none_blocks in
            let turn = item-Turn expected index j t u e rest.0 in
            let passes : is_blocking (get_or null "decision" turn.item) ≡ false =
              not_blocking (is_blocking (get_or null "decision" turn.item)) t.blocking
                (sym turn.counted ∙ rest.1) in
            (
              turn.before,
              omega (arith, turn.counted, rest.1),
              λ id seen. elim (rest.2 id seen) [
                | inr (item, i, p) ↦ inr (item, there i, p)
                | inl earlier ↦
                    seen_here id turn.id t.seen j js turn.item (rw turn.seen at earlier) turn.same
                      (Decided-Passed turn.item turn.id turn.decided passes)
              ],
            )
      ]

  finish-Passed :
      (js : List (Json Number)) (t : Tally) (o : Option Tally) (v : Validation)
      → check_items expected 0 js t ≡ o
      → finish expected o ≡ some v
      → v.clean ≡ true
      → t.seen ≡ []
      → (id : String) → In id expected
      → (item : Fields Number) × In (object item) js × Passed item id
  finish-Passed js t none v e h clean fresh id i = cc
  finish-Passed js t (some t') v e h clean fresh id i =
      let same : validation_of expected t' ≡ v = ground arith in
      let both = and_split _ _ (ap (λ (x : Validation). x.clean) same ∙ clean) in
      let ends = final-clean expected t' both.0 in
      let passed = check_items-Passed 0 js t t' e ends.0 (ground (arith, both.1)) in
      elim (passed.2 id (missing-nil expected t'.seen id ends.1 i)) [
        | inl before ↦ absurd (none_seen id (rw fresh at before))
        | inr found ↦ found
      ]

  module _ (eq : Json Number → Json Number → Bool) (one : Number)
      (artifact_sha256 : Json Number → String) where
    -- A clean validation of an adjudication is a decision on everything the report found: for each of
    -- the report's findings the adjudication has an entry of that id, decided as not blocking, under the
    -- one category that is not material, with a reason that is not blank.
    pub validate_adjudication-clean :
        (adjudication report : Fields Number) (v : Validation)
        → validate_adjudication eq one artifact_sha256 expected (some adjudication) report ≡ some v
        → v.clean ≡ true
        → (id : String) → In id expected
        → (item : Fields Number) × In (object item) (listed (get_or null "findings" adjudication))
          × Passed item id
    unfolding validate_adjudication
    validate_adjudication-clean adjudication report v h clean id i =
        let found =
          finish-Passed (list_or_problem (get_or null "findings" adjudication)).0 _ _ v refl h clean
            refl id i in
        rw (sym (list-listed (get_or null "findings" adjudication))) found
