-- ===== src/Review/Listing.antt =====
-- Whether a row with some property is in a listing of a table, with its filter, order and limit.
use memline.Prelude.{
  ℕ, suc, ◌≤◌, ◌≡◌, refl, ap, ◌∙◌, Bool, true, ◌&&◌, ◌||◌, not, List, [], ◌∷◌, ◌++◌, map, arith,
  filter, any, length, take, take_all, Bool-cases, inl, inr,
}
use memline.Prelude.Table.{insert_by, sort_by}
use memline.Supersession.{is_nil}

module _ {A : Type 0} where
  pub is_nil-append : (xs ys : List A) → is_nil (xs ++ ys) ≡ (is_nil xs && is_nil ys)
  is_nil-append [] ys = refl
  is_nil-append (x ∷ xs) ys = refl

  pub is_nil-map : {B : Type 0} (f : A → B) (xs : List A) → is_nil (map f xs) ≡ is_nil xs
  is_nil-map f [] = refl
  is_nil-map f (x ∷ xs) = refl

  pub is_nil-filter : (p : A → Bool) (xs : List A) → is_nil (filter p xs) ≡ not (any p xs)
  is_nil-filter p [] = refl
  is_nil-filter p (x ∷ xs) = elim (Bool-cases (p x)) [
    | inl hit ↦ rw hit refl
    | inr miss ↦ rw miss (is_nil-filter p xs)
  ]

  pub is_nil-any : (xs : List A) → is_nil xs ≡ not (any (λ x. true) xs)
  is_nil-any [] = refl
  is_nil-any (x ∷ xs) = refl

  pub any-filter : (p c : A → Bool) (xs : List A) → any p (filter c xs) ≡ any (λ x. c x && p x) xs
  any-filter p c [] = refl
  any-filter p c (x ∷ xs) = elim (Bool-cases (c x)) [
    | inl hit ↦ rw (hit, any-filter p c xs) refl
    | inr miss ↦ rw (miss, any-filter p c xs) refl
  ]

  pub any_same : (p q : A → Bool) → ((a : A) → p a ≡ q a) → (xs : List A) → any p xs ≡ any q xs
  any_same p q same [] = refl
  any_same p q same (x ∷ xs) = rw (same x, any_same p q same xs) refl

  pub any_either :
      (p q : A → Bool) (xs : List A) → (any p xs || any q xs) ≡ any (λ x. p x || q x) xs
  any_either p q [] = refl
  any_either p q (x ∷ xs) = rw (← any_either p q xs) (ground arith)

  any-insert_by :
      (p : A → Bool) (before : A → A → Bool) (r : A) (xs : List A)
      → any p (insert_by before r xs) ≡ (p r || any p xs)
  any-insert_by p before r [] = refl
  any-insert_by p before r (x ∷ xs) = elim (Bool-cases (before r x)) [
    | inl first ↦ rw first refl
    | inr later ↦ rw (later, any-insert_by p before r xs) (ground arith)
  ]

  pub any-sort_by :
      (p : A → Bool) (before : A → A → Bool) (xs : List A) → any p (sort_by before xs) ≡ any p xs
  any-sort_by p before [] = refl
  any-sort_by p before (x ∷ xs) =
      any-insert_by p before x (sort_by before xs) ∙ ap (λ b. p x || b) (any-sort_by p before xs)

  length-insert_by :
      (before : A → A → Bool) (r : A) (xs : List A)
      → length (insert_by before r xs) ≡ suc (length xs)
  length-insert_by before r [] = refl
  length-insert_by before r (x ∷ xs) = elim (Bool-cases (before r x)) [
    | inl first ↦ rw first refl
    | inr later ↦ rw later (ap suc (length-insert_by before r xs))
  ]

  length-sort_by : (before : A → A → Bool) (xs : List A) → length (sort_by before xs) ≡ length xs
  length-sort_by before [] = refl
  length-sort_by before (x ∷ xs) =
      length-insert_by before x (sort_by before xs) ∙ ap suc (length-sort_by before xs)

  length-filter-le : (p : A → Bool) (xs : List A) → length (filter p xs) ≤ length xs
  length-filter-le p [] = omega arith
  length-filter-le p (x ∷ xs) = elim (Bool-cases (p x)) [
    | inl hit ↦ rw hit (omega (arith, length-filter-le p xs))
    | inr miss ↦ rw miss (omega (arith, length-filter-le p xs))
  ]

  -- A listing with a limit that the table does not reach lists everything.
  pub any-listing :
      (p c : A → Bool) (before : A → A → Bool) (limit : ℕ) (xs : List A)
      → length xs ≤ limit
      → any p (take limit (sort_by before (filter c xs))) ≡ any (λ x. c x && p x) xs
  any-listing p c before limit xs few =
      ap (any p) (
        take_all (sort_by before (filter c xs)) limit
          (rw length-sort_by (omega (arith, length-filter-le c xs))))
      ∙ any-sort_by p before (filter c xs)
      ∙ any-filter p c xs
