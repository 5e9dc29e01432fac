-- ===== src/Prelude/Places.antt =====
-- Where an element of a list that was sorted, appended or concatenated comes from.
use mathlib.Core.Path.{◌≡◌, refl, sym, ap}
use mathlib.Core.Logic.{◌⊎◌, inl, inr}
use mathlib.Core.Bool.{Bool, true}
use mathlib.Core.List.{List, [], ◌∷◌, ◌++◌}
use native.Mathlib.Omega.{arith}
use memline.Prelude.Tests.{Bool-cases}
use memline.Prelude.Lists.{In, here, there, any, In-append_left, In-append_right}
use memline.Prelude.Table.{insert_by, sort_by}
use memline.Prelude.Counting.{concat}

module _ {ℓ} {A : Type ℓ} where
  pub In-append : (a : A) (xs ys : List A) → In a (xs ++ ys) → In a xs ⊎ In a ys
  In-append a [] ys i = inr i
  In-append a (x ∷ xs) ys (here e) = inl (here e)
  In-append a (x ∷ xs) ys (there i) = elim (In-append a xs ys i) [
    | inl j ↦ inl (there j)
    | inr j ↦ inr j
  ]

  pub In-concat :
      (a : A) (xss : List (List A)) → In a (concat xss) → (xs : List A) × In xs xss × In a xs
  In-concat a [] i = elim i [ ]
  In-concat a (xs ∷ xss) i = elim (In-append a xs (concat xss) i) [
    | inl j ↦ (xs, here refl, j)
    | inr j ↦ let (ys, k, m) = In-concat a xss j in (ys, there k, m)
  ]

  pub In-concat_of :
      (a : A) (xs : List A) (xss : List (List A)) → In xs xss → In a xs → In a (concat xss)
  In-concat_of a xs [] i j = elim i [ ]
  In-concat_of a xs (ys ∷ xss) (here e) j = In-append_left a ys (concat xss) (rw (sym e) j)
  In-concat_of a xs (ys ∷ xss) (there i) j =
      In-append_right a ys (concat xss) (In-concat_of a xs xss i j)

  pub any-In : (p : A → Bool) (xs : List A) → any p xs ≡ true → (x : A) × In x xs × (p x ≡ true)
  any-In p [] h = cc
  any-In p (x ∷ xs) h = elim (Bool-cases (p x)) [
    | inl hit ↦ (x, here refl, hit)
    | inr miss ↦ let (y, i, e) = any-In p xs (rw miss at h) in (y, there i, e)
  ]

  pub any_of : (p : A → Bool) (x : A) (xs : List A) → In x xs → p x ≡ true → any p xs ≡ true
  any_of p x [] i h = elim i [ ]
  any_of p x (y ∷ xs) (here e) h = ground (arith, ap p e)
  any_of p x (y ∷ xs) (there i) h = ground (arith, any_of p x xs i h)

  In-swap :
      (a x y : A) {ys zs : List A} → (In a zs → In a (x ∷ ys)) → In a (y ∷ zs) → In a (x ∷ y ∷ ys)
  In-swap a x y f (here e) = there (here e)
  In-swap a x y f (there j) = elim (f j) [ here e ↦ here e | there k ↦ there (there k) ]

  In-swap_of :
      (a x y : A) {ys zs : List A} → (In a (x ∷ ys) → In a zs) → In a (x ∷ y ∷ ys) → In a (y ∷ zs)
  In-swap_of a x y f (here e) = there (f (here e))
  In-swap_of a x y f (there (here e)) = here e
  In-swap_of a x y f (there (there k)) = there (f (there k))

  module _ (before : A → A → Bool) (a : A) where
    In-insert_by : (x : A) (xs : List A) → In a (insert_by before x xs) → In a (x ∷ xs)
    In-insert_by x [] i = i
    In-insert_by x (y ∷ xs) i = elim (Bool-cases (before x y)) [
      | inl first ↦ rw first at i
      | inr later ↦ In-swap a x y (In-insert_by x xs) (rw later at i)
    ]

    pub In-sort_by : (xs : List A) → In a (sort_by before xs) → In a xs
    In-sort_by [] i = i
    In-sort_by (x ∷ xs) i = elim (In-insert_by x (sort_by before xs) i) [
      | here e ↦ here e
      | there j ↦ there (In-sort_by xs j)
    ]

    In-insert_by_of : (x : A) (xs : List A) → In a (x ∷ xs) → In a (insert_by before x xs)
    In-insert_by_of x [] i = i
    In-insert_by_of x (y ∷ xs) i = elim (Bool-cases (before x y)) [
      | inl first ↦ rw first i
      | inr later ↦ rw later (In-swap_of a x y (In-insert_by_of x xs) i)
    ]

    pub In-sort_by_of : (xs : List A) → In a xs → In a (sort_by before xs)
    In-sort_by_of [] i = i
    In-sort_by_of (x ∷ xs) (here e) = In-insert_by_of x (sort_by before xs) (here e)
    In-sort_by_of (x ∷ xs) (there i) =
        In-insert_by_of x (sort_by before xs) (there (In-sort_by_of xs i))
