-- ===== src/Supersession/Graph.antt =====
-- The supersession graph: what follows what, in any number of steps.
use memline.Prelude.{
  String, ◌≡◌, true, false, List, [], ◌∷◌, ◌++◌, ◌==◌, eq_iff, elem, In, here, there, arith,
  Bool-cases, inl, inr, ◌⊎◌,
}

-- `b` follows `a` in the graph.
pub data Reaches (succ : String → List String) (a : String) : String → Type 0 where
  start : Reaches succ a a
  onward : {b c : String} → Reaches succ a b → In c (succ b) → Reaches succ a c

pub Reaches-trans :
    (succ : String → List String) (a b : String) {c : String}
    → Reaches succ a b
    → Reaches succ b c
    → Reaches succ a c
Reaches-trans succ a b r start = r
Reaches-trans succ a b r (onward s i) = onward (Reaches-trans succ a b r s) i

abbrev pub Sub : List String → List String → Type 0
Sub xs ys = (x : String) → In x xs → In x ys

-- No memory follows itself: what supersedes a memory never leads back to it.
abbrev pub Acyclic : (String → List String) → Type 0
Acyclic succ = (x y : String) → In y (succ x) → Reaches succ y x → ⊥

pub elem-In : (x : String) (xs : List String) → elem x xs ≡ true → In x xs
elem-In x [] h = absurd (never h)
  where
    never : false ≡ true → ⊥
    never e = cc
elem-In x (y ∷ ys) h = elim (Bool-cases (x == y)) [
  | inl same ↦ here ((eq_iff x y).0 same)
  | inr other ↦ there (elem-In x ys (ground arith))
]

pub In-elem : (x : String) (xs : List String) → In x xs → elem x xs ≡ true
In-elem x [] i = elim i [ ]
In-elem x (y ∷ ys) (here e) = ground (arith, eq_iff x y)
In-elem x (y ∷ ys) (there i) = ground (arith, In-elem x ys i)

pub In-append {ℓ} : {A : Type ℓ} (a : A) (xs ys : List A) → In a (xs ++ ys) → In a xs ⊎ In a ys
In-append a [] ys i = inr i
In-append a (x ∷ xs) ys (here e) = inl (here e)
In-append a (x ∷ xs) ys (there i) = elim (In-append a xs ys i) [
  | inl j ↦ inl (there j)
  | inr j ↦ inr j
]
