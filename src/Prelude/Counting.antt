-- ===== src/Prelude/Counting.antt =====
-- How often a list holds the elements that pass a test, however it is sorted or cut up.
use Prim.Native.Nat.{ℕ, zero, suc, ◌+◌, ◌≤◌}
use mathlib.Core.Path.{◌≡◌, refl, sym, ap, ◌∙◌}
use mathlib.Core.Logic.{inl, inr}
use mathlib.Core.Bool.{Bool}
use mathlib.Core.List.{List, [], ◌∷◌, ◌++◌, map}
use native.Mathlib.Omega.{arith}
use memline.Prelude.Tests.{if◌then◌else◌, Bool-cases}
use memline.Prelude.Lists.{count, length, take, drop, All}
use memline.Prelude.Table.{insert_by, sort_by}

module _ {ℓ} {A : Type ℓ} where
  abbrev pub concat : List (List A) → List A
  concat [] = []
  concat (xs ∷ xss) = xs ++ concat xss

  abbrev pub one_if : (A → Bool) → A → ℕ
  one_if p a = if p a then 1 else 0

  module _ (p : A → Bool) where
    pub count-cons : (x : A) (xs : List A) → count p (x ∷ xs) ≡ one_if p x + count p xs
    count-cons x xs = ground arith

    pub count-append : (xs ys : List A) → count p (xs ++ ys) ≡ count p xs + count p ys
    count-append [] ys = omega arith
    count-append (x ∷ xs) ys =
        omega (arith, count-cons x (xs ++ ys), count-cons x xs, count-append xs ys)

    pub count-concat_append :
        (xss yss : List (List A))
        → count p (concat (xss ++ yss)) ≡ count p (concat xss) + count p (concat yss)
    count-concat_append [] yss = omega arith
    count-concat_append (xs ∷ xss) yss = omega (
      arith,
      count-append xs (concat (xss ++ yss)),
      count-append xs (concat xss),
      count-concat_append xss yss,
    )

  -- The sum of a weight over a list.
  abbrev pub weigh : (A → ℕ) → List A → ℕ
  weigh f [] = 0
  weigh f (x ∷ xs) = f x + weigh f xs

  pub weigh-append : (f : A → ℕ) (xs ys : List A) → weigh f (xs ++ ys) ≡ weigh f xs + weigh f ys
  weigh-append f [] ys = omega arith
  weigh-append f (x ∷ xs) ys = omega (arith, weigh-append f xs ys)

  module _ (f : A → ℕ) (before : A → A → Bool) where
    weigh-insert_by : (x : A) (xs : List A) → weigh f (insert_by before x xs) ≡ f x + weigh f xs
    weigh-insert_by x [] = refl
    weigh-insert_by x (y ∷ xs) = elim (Bool-cases (before x y)) [
      | inl first ↦ rw first refl
      | inr later ↦ rw later (omega (arith, weigh-insert_by x xs))
    ]

    -- Sorting keeps the sum.
    pub weigh-sort_by : (xs : List A) → weigh f (sort_by before xs) ≡ weigh f xs
    weigh-sort_by [] = refl
    weigh-sort_by (x ∷ xs) = omega (arith, weigh-insert_by x (sort_by before xs), weigh-sort_by xs)

  count-weigh : (p : A → Bool) (xs : List A) → count p xs ≡ weigh (one_if p) xs
  count-weigh p [] = refl
  count-weigh p (x ∷ xs) = omega (arith, count-cons p x xs, count-weigh p xs)

  -- Sorting keeps every element as often as it was there.
  pub count-sort_by :
      (p : A → Bool) (before : A → A → Bool) (xs : List A)
      → count p (sort_by before xs) ≡ count p xs
  count-sort_by p before xs =
      count-weigh p (sort_by before xs)
      ∙ weigh-sort_by (one_if p) before xs
      ∙ sym (count-weigh p xs)

  module _ {κ} (P : A → Type κ) (before : A → A → Bool) where
    All-insert_by : (x : A) (xs : List A) → P x → All P xs → All P (insert_by before x xs)
    All-insert_by x [] h k = (h, tt)
    All-insert_by x (y ∷ xs) h k = elim (Bool-cases (before x y)) [
      | inl first ↦ rw first (h, k)
      | inr later ↦ rw later (k.0, All-insert_by x xs h k.1)
    ]

    pub All-sort_by : (xs : List A) → All P xs → All P (sort_by before xs)
    All-sort_by [] h = tt
    All-sort_by (x ∷ xs) h = All-insert_by x (sort_by before xs) h.0 (All-sort_by xs h.1)

  pub All-append {κ} : (P : A → Type κ) (xs ys : List A) → All P xs → All P ys → All P (xs ++ ys)
  All-append P [] ys h k = k
  All-append P (x ∷ xs) ys h k = (h.0, All-append P xs ys h.1 k)

  pub take-drop : (n : ℕ) (xs : List A) → take n xs ++ drop n xs ≡ xs
  take-drop zero xs = refl
  take-drop (suc n) [] = refl
  take-drop (suc n) (x ∷ xs) = ap (◌∷◌ x) (take-drop n xs)

  pub length-drop_le : (n : ℕ) (xs : List A) → length (drop n xs) ≤ length xs
  length-drop_le zero xs = omega arith
  length-drop_le (suc n) [] = omega arith
  length-drop_le (suc n) (x ∷ xs) = omega (arith, length-drop_le n xs)

pub count-map {ℓ κ} :
    {A : Type ℓ} {B : Type κ} (f : A → B) (p : B → Bool) (xs : List A)
    → count p (map f xs) ≡ count (λ a. p (f a)) xs
count-map f p [] = refl
count-map f p (x ∷ xs) = ground (arith, count-map f p xs)
