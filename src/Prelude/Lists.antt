-- ===== src/Prelude/Lists.antt =====
-- Lists measured by native numbers, filtered by Boolean tests, and searched for texts.
use Prim.Native.Nat.{ℕ, zero, suc, ◌+◌, ◌≤◌}
use Prim.Native.String.{String}
use mathlib.Core.Path.{◌≡◌, refl, sym, ap, ◌∙◌}
use mathlib.Core.Logic.{◌⊎◌, inl, inr}
use mathlib.Core.Bool.{Bool, true, false, ◌||◌}
use mathlib.Core.List.{List, [], ◌∷◌, ◌++◌, map}
use mathlib.Core.Option.{Option, none, some}
use native.Mathlib.Omega.{arith}
use text.Mathlib.Text.{◌==◌}
use memline.Prelude.Tests.{if◌then◌else◌, Bool-cases, or_split, or_join}

module _ {ℓ} {A : Type ℓ} where
  abbrev pub length : List A → ℕ
  length [] = 0
  length (x ∷ xs) = suc (length xs)

  abbrev pub take : ℕ → List A → List A
  take zero xs = []
  take (suc n) [] = []
  take (suc n) (x ∷ xs) = x ∷ take n xs

  abbrev pub drop : ℕ → List A → List A
  drop zero xs = xs
  drop (suc n) [] = []
  drop (suc n) (x ∷ xs) = drop n xs

  -- The library's `filter` decides a predicate; this one runs a test.
  abbrev pub filter : (A → Bool) → List A → List A
  filter p [] = []
  filter p (x ∷ xs) = let rest = filter p xs in if p x then x ∷ rest else rest

  abbrev pub count : (A → Bool) → List A → ℕ
  count p [] = 0
  count p (x ∷ xs) = let rest = count p xs in if p x then suc rest else rest

  abbrev pub any : (A → Bool) → List A → Bool
  any p [] = false
  any p (x ∷ xs) = p x || any p xs

  -- The first element that passes a test.
  abbrev pub find : (A → Bool) → List A → Option A
  find p [] = none
  find p (x ∷ xs) = let rest = find p xs in if p x then some x else rest

  abbrev pub All {κ} : (A → Type κ) → List A → Type κ
  All P [] = Unit
  All P (x ∷ xs) = P x × All P xs

-- A place in a list where an element stands.
pub data In {ℓ} {A : Type ℓ} (a : A) : List A → Type ℓ where
  here : {x : A} {xs : List A} → a ≡ x → In a (x ∷ xs)
  there : {x : A} {xs : List A} → In a xs → In a (x ∷ xs)

-- `x in xs` on a list or a set of texts.
abbrev pub elem : String → List String → Bool
elem x [] = false
elem x (y ∷ ys) = (x == y) || elem x ys

module _ {ℓ} {A : Type ℓ} where
  pub length-append : (xs ys : List A) → length (xs ++ ys) ≡ length xs + length ys
  length-append [] ys = omega arith
  length-append (x ∷ xs) ys = omega (arith, length-append xs ys)

  pub length-filter-le : (p : A → Bool) (xs : List A) → length (filter p xs) ≤ length xs
  length-filter-le p [] = omega arith
  length-filter-le p (x ∷ xs) = ground (arith, length-filter-le p xs)

  pub length-filter : (p : A → Bool) (xs : List A) → length (filter p xs) ≡ count p xs
  length-filter p [] = refl
  length-filter p (x ∷ xs) = ground (arith, length-filter p xs)

  pub length-take-le : (limit : ℕ) (rows : List A) → length (take limit rows) ≤ limit
  length-take-le zero rows = omega arith
  length-take-le (suc limit) [] = omega arith
  length-take-le (suc limit) (r ∷ rows) = omega (arith, length-take-le limit rows)

  pub length-take_of_le : (n : ℕ) (xs : List A) → n ≤ length xs → length (take n xs) ≡ n
  length-take_of_le zero xs h = refl
  length-take_of_le (suc n) [] h = absurd (omega arith)
  length-take_of_le (suc n) (x ∷ xs) h = ap suc (length-take_of_le n xs (omega arith))

  -- a limit that the list does not reach
  pub take_all : (rows : List A) (limit : ℕ) → length rows ≤ limit → take limit rows ≡ rows
  take_all [] zero le = refl
  take_all [] (suc limit) le = refl
  take_all (r ∷ rows) zero le = absurd (omega arith)
  take_all (r ∷ rows) (suc limit) le = ap (◌∷◌ r) (take_all rows limit (omega arith))

  pub In-take : (n : ℕ) (a : A) (xs : List A) → In a (take n xs) → In a xs
  In-take zero a xs m = elim m [ ]
  In-take (suc n) a [] m = elim m [ ]
  In-take (suc n) a (x ∷ xs) (here e) = here e
  In-take (suc n) a (x ∷ xs) (there m) = there (In-take n a xs m)

  In-head :
      (p : A → Bool) (a x : A) {xs ys : List A}
      → p x ≡ true
      → (In a ys → In a xs × (p a ≡ true))
      → In a (x ∷ ys)
      → In a (x ∷ xs) × (p a ≡ true)
  In-head p a x hit later (here same) = (here same, ap p same ∙ hit)
  In-head p a x hit later (there m) = let h = later m in (there h.0, h.1)

  pub In-filter : (p : A → Bool) (a : A) (xs : List A) → In a (filter p xs) → In a xs × (p a ≡ true)
  In-filter p a [] m = elim m [ ]
  In-filter p a (x ∷ xs) m = elim (Bool-cases (p x)) [
    | inl hit ↦ In-head p a x hit (In-filter p a xs) (rw hit at m)
    | inr miss ↦ let h = In-filter p a xs (rw miss at m) in (there h.0, h.1)
  ]

  pub In-filter_of :
      (p : A → Bool) (a : A) (xs : List A) → In a xs → p a ≡ true → In a (filter p xs)
  In-filter_of p a [] i h = elim i [ ]
  In-filter_of p a (x ∷ xs) (here e) h = let hit : p x ≡ true = ap p (sym e) ∙ h in rw hit (here e)
  In-filter_of p a (x ∷ xs) (there i) h = elim (Bool-cases (p x)) [
    | inl hit ↦ rw hit (there (In-filter_of p a xs i h))
    | inr miss ↦ rw miss (In-filter_of p a xs i h)
  ]

  pub In-append_left : (a : A) (xs ys : List A) → In a xs → In a (xs ++ ys)
  In-append_left a [] ys i = elim i [ ]
  In-append_left a (x ∷ xs) ys (here e) = here e
  In-append_left a (x ∷ xs) ys (there i) = there (In-append_left a xs ys i)

  pub In-append_right : (a : A) (xs ys : List A) → In a ys → In a (xs ++ ys)
  In-append_right a [] ys i = i
  In-append_right a (x ∷ xs) ys i = there (In-append_right a xs ys i)

  -- Where every image fails a test, none is counted.
  pub count-zero_all :
      (p : A → Bool) (f : A → A)
      → ((a : A) → p (f a) ≡ false)
      → (xs : List A) → count p (map f xs) ≡ 0
  count-zero_all p f h [] = refl
  count-zero_all p f h (x ∷ xs) = rw (h x) (count-zero_all p f h xs)

module _ {ℓ} {A : Type ℓ} where
  pub any_mono :
      (f g : A → Bool)
      → ((a : A) → f a ≡ true → g a ≡ true)
      → (xs : List A) → any f xs ≡ true
      → any g xs ≡ true
  any_mono f g h [] k = k
  any_mono f g h (x ∷ xs) k = ground (arith, h x, any_mono f g h xs)

  pub any_or :
      (f g : A → Bool) (xs : List A)
      → any f xs ≡ false
      → any g xs ≡ false
      → any (λ a. f a || g a) xs ≡ false
  any_or f g [] h k = refl
  any_or f g (x ∷ xs) h k =
      let a = or_split (f x) (any f xs) h in
      let b = or_split (g x) (any g xs) k in
      or_join (f x || g x) (any (λ p. f p || g p) xs) (or_join (f x) (g x) a.0 b.0)
        (any_or f g xs a.1 b.1)

  pub any-append_right :
      (f : A → Bool) (xs : List A) (a : A) → f a ≡ true → any f (xs ++ a ∷ []) ≡ true
  any-append_right f [] a h = ground arith
  any-append_right f (x ∷ xs) a h = ground (arith, any-append_right f xs a h)

  -- Where every image fails a test, none is kept.
  pub filter-map_nil :
      (p : A → Bool) (f : A → A)
      → ((a : A) → p (f a) ≡ false)
      → (xs : List A) → filter p (map f xs) ≡ []
  filter-map_nil p f h [] = refl
  filter-map_nil p f h (x ∷ xs) = rw (h x) (filter-map_nil p f h xs)

  -- Filtering twice by one test is filtering once.
  pub filter-filter : (p : A → Bool) (xs : List A) → filter p (filter p xs) ≡ filter p xs
  filter-filter p [] = refl
  filter-filter p (x ∷ xs) = elim (Bool-cases (p x)) [
    | inl hit ↦ rw (hit, hit) (ap (◌∷◌ x) (filter-filter p xs))
    | inr miss ↦ rw miss (filter-filter p xs)
  ]

pub length-map : {A B : Type 0} (f : A → B) (xs : List A) → length (map f xs) ≡ length xs
length-map f [] = refl
length-map f (x ∷ xs) = ap suc (length-map f xs)

-- What a list of values comes from.
pub In-map :
    {A B : Type 0} (f : A → B) (b : B) (xs : List A)
    → In b (map f xs)
    → (a : A) × In a xs × (b ≡ f a)
In-map f b [] i = elim i [ ]
In-map f b (x ∷ xs) (here e) = (x, here refl, e)
In-map f b (x ∷ xs) (there i) = let (a, j, e) = In-map f b xs i in (a, there j, e)

pub In-map_of : {A B : Type 0} (f : A → B) (a : A) (xs : List A) → In a xs → In (f a) (map f xs)
In-map_of f a [] i = elim i [ ]
In-map_of f a (x ∷ xs) (here e) = here (ap f e)
In-map_of f a (x ∷ xs) (there i) = there (In-map_of f a xs i)

-- A limit leaves something out only when it is reached.
pub In-take_or_full :
    {A : Type 0} (a : A) (xs : List A) (limit : ℕ)
    → In a xs
    → In a (take limit xs) ⊎ (length (take limit xs) ≡ limit)
In-take_or_full a [] limit i = elim i [ ]
In-take_or_full a (x ∷ xs) zero i = inr refl
In-take_or_full a (x ∷ xs) (suc limit) (here e) = inl (here e)
In-take_or_full a (x ∷ xs) (suc limit) (there i) = elim (In-take_or_full a xs limit i) [
  | inl j ↦ inl (there j)
  | inr full ↦ inr (ap suc full)
]
