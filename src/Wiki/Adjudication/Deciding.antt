-- ===== src/Wiki/Adjudication/Deciding.antt =====
-- src/memline/wiki/adjudication.py: what a turn of the loop has seen when it reports no error.
use memline.Prelude.{
  ℕ, ◌+◌, String, ◌≡◌, refl, ap, ◌∙◌, inl, inr, Bool, true, false, Option, none, some, List, [],
  ◌∷◌, ◌++◌, if◌then◌else◌, elem, arith, Bool-cases,
}
use memline.Json.{Json, null, flag, number, text, array, object, Fields, get_or}
use memline.Wiki.Adjudication.{
  Problem, Tally, report_problem, duplicate, member, is_reason, is_blocking, allowed_categories,
  count_decision, decisions, check_category, check_decision, note_seen, check_known, check_id,
  check_item,
}

append_not_nil : (es : List Problem) (e : Problem) → es ++ e ∷ [] ≡ [] → ⊥
append_not_nil [] e k = cc
append_not_nil (x ∷ es) e k = cc

-- An error that was reported is not forgotten.
reported :
    {A : Type 0} (e : Problem) (t t' : Tally)
    → ◌≡◌ {A = Option Tally} (some (report_problem e t)) (some t')
    → t'.errors ≡ []
    → A
reported e t t' h clean =
    let same : report_problem e t ≡ t' = ground arith in
    absurd (append_not_nil t.errors e (ap (λ (x : Tally). x.errors) same ∙ clean))

note_seen-clean :
    (id : String) (t : Tally)
    → (note_seen id t).errors ≡ []
    → (t.errors ≡ [])
      × ((note_seen id t).seen ≡ id ∷ t.seen)
      × ((note_seen id t).blocking ≡ t.blocking)
note_seen-clean id t h = elim (Bool-cases (elem id t.seen)) [
  | inl again ↦ absurd (append_not_nil t.errors (duplicate id) (rw again at h))
  | inr new ↦ rw (new, note_seen) ((rw new at h), refl, refl)
]

module _ {Number : Type 0} (expected : List String) where
  -- A complete decision on the finding `id`.
  pub record Decided (item : Fields Number) (id : String) : Type 0 where
    pub named : get_or null "finding_id" item ≡ text id
    pub known : elem id expected ≡ true
    pub decision : member (get_or null "decision" item) decisions ≡ some true
    pub reason : is_reason (get_or null "reason" item) ≡ true
    pub category :
        member (get_or null "category" item) (allowed_categories (get_or null "decision" item))
        ≡ some true

  -- A turn without errors, of the item that it is about.
  pub record Turn (j : Json Number) (t t' : Tally) : Type 0 where
    pub item : Fields Number
    pub id : String
    pub same : j ≡ object item
    pub decided : Decided item id
    pub before : t.errors ≡ []
    pub seen : t'.seen ≡ id ∷ t.seen
    pub counted :
        t'.blocking ≡ t.blocking + (if is_blocking (get_or null "decision" item) then 1 else 0)

  category-Turn :
      (id : String) (item : Fields Number) (t t' : Tally) (o : Option Bool)
      → get_or null "finding_id" item ≡ text id
      → elem id expected ≡ true
      → member (get_or null "decision" item) decisions ≡ some true
      → is_reason (get_or null "reason" item) ≡ true
      → member (get_or null "category" item) (allowed_categories (get_or null "decision" item)) ≡ o
      → check_category id (get_or null "decision" item) o t ≡ some t'
      → t'.errors ≡ []
      → (t.errors ≡ [])
        × (t'.seen ≡ t.seen)
        × Decided item id
        × (t'.blocking ≡ t.blocking + (if is_blocking (get_or null "decision" item) then 1 else 0))
  category-Turn id item t t' none named known d r c h clean = cc
  category-Turn id item t t' (some false) named known d r c h clean = reported _ t t' h clean
  category-Turn id item t t' (some true) named known d r c h clean =
      let same : count_decision (get_or null "decision" item) t ≡ t' = ground arith in
      let decided : Decided item id = record {
        named = named;
        known = known;
        decision = d;
        reason = r;
        category = c;
      } in
      elim (Bool-cases (is_blocking (get_or null "decision" item))) [
        | inl blocks ↦ (ground arith, ground arith, decided, ground arith)
        | inr passes ↦ (ground arith, ground arith, decided, ground arith)
      ]

  decision-Turn :
      (id : String) (item : Fields Number) (t t' : Tally) (o : Option Bool)
      → get_or null "finding_id" item ≡ text id
      → elem id expected ≡ true
      → member (get_or null "decision" item) decisions ≡ o
      → check_decision id item o t ≡ some t'
      → t'.errors ≡ []
      → (t.errors ≡ [])
        × (t'.seen ≡ t.seen)
        × Decided item id
        × (t'.blocking ≡ t.blocking + (if is_blocking (get_or null "decision" item) then 1 else 0))
  decision-Turn id item t t' none named known d h clean = cc
  decision-Turn id item t t' (some false) named known d h clean = reported _ t t' h clean
  decision-Turn id item t t' (some true) named known d h clean =
      elim (Bool-cases (is_reason (get_or null "reason" item))) [
        | inl given ↦ category-Turn id item t t' _ named known d given refl (rw given at h) clean
        | inr missing ↦ reported _ t t' (rw missing at h) clean
      ]

  known-Turn :
      (id : String) (item : Fields Number) (t t' : Tally)
      → get_or null "finding_id" item ≡ text id
      → check_known expected id item (note_seen id t) ≡ some t'
      → t'.errors ≡ []
      → Turn (object item) t t'
  known-Turn id item t t' named h clean = elim (Bool-cases (elem id expected)) [
    | inl known ↦
        let turn =
          decision-Turn id item (note_seen id t) t' _ named known refl (rw known at h) clean in
        let noted = note_seen-clean id t turn.0 in
        record {
          item = item;
          id = id;
          same = refl;
          decided = turn.2;
          before = noted.0;
          seen = turn.1 ∙ noted.1;
          counted = omega (arith, turn.3, noted.2);
        }
    | inr stray ↦ reported _ (note_seen id t) t' (rw stray at h) clean
  ]

  id-Turn :
      (index : ℕ) (item : Fields Number) (t t' : Tally) (j : Json Number)
      → get_or null "finding_id" item ≡ j
      → check_id expected index item j t ≡ some t'
      → t'.errors ≡ []
      → Turn (object item) t t'
  id-Turn index item t t' (text id) named h clean = known-Turn id item t t' named h clean
  id-Turn index item t t' null named h clean = reported _ t t' h clean
  id-Turn index item t t' (flag b) named h clean = reported _ t t' h clean
  id-Turn index item t t' (number n) named h clean = reported _ t t' h clean
  id-Turn index item t t' (array js) named h clean = reported _ t t' h clean
  id-Turn index item t t' (object d) named h clean = reported _ t t' h clean

  pub item-Turn :
      (index : ℕ) (j : Json Number) (t t' : Tally)
      → check_item expected index j t ≡ some t'
      → t'.errors ≡ []
      → Turn j t t'
  item-Turn index (object item) t t' h clean = id-Turn index item t t' _ refl h clean
  item-Turn index null t t' h clean = reported _ t t' h clean
  item-Turn index (flag b) t t' h clean = reported _ t t' h clean
  item-Turn index (number n) t t' h clean = reported _ t t' h clean
  item-Turn index (text s) t t' h clean = reported _ t t' h clean
  item-Turn index (array js) t t' h clean = reported _ t t' h clean
