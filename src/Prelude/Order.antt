-- ===== src/Prelude/Order.antt =====
-- The row that ORDER BY … LIMIT 1 answers is the least one, and what SELECT and UPDATE do to a
-- row that is read by its key.
use Prim.Native.Nat.{ℕ, ◌≤◌}
use Prim.Native.String.{String}
use mathlib.Core.Path.{◌≡◌, refl, sym, ap, ◌∙◌}
use mathlib.Core.Logic.{inl, inr}
use mathlib.Core.Bool.{Bool, true, false}
use mathlib.Core.List.{List, [], ◌∷◌, ◌++◌}
use mathlib.Core.Option
use mathlib.Core.Option.{Option, none, some}
use native.Mathlib.Omega.{arith}
use text.Mathlib.Text.{◌==◌}
use text.Mathlib.TextEquality.{eq_iff}
use memline.Prelude.Tests.{if◌then◌else◌, Bool-cases, Option-cases}
use memline.Prelude.Lists.{filter, find, any, In, here, there}
use memline.Prelude.Table.{
  update_where, insert_by, sort_by, asc, desc, order_by, order_by_desc, first,
}

-- The row that a sort puts first.
module _ {ℓ} {R : Type ℓ} (before : R → R → Bool) where
  abbrev pub earlier : R → Option R → R
  earlier r none = r
  earlier r (some x) = if before r x then r else x

  abbrev pub least : List R → Option R
  least [] = none
  least (r ∷ rs) = some (earlier r (least rs))

  first-insert_by :
      (r : R) (xs : List R) → first (insert_by before r xs) ≡ some (earlier r (first xs))
  first-insert_by r [] = refl
  first-insert_by r (x ∷ xs) = ground arith

  pub first-sort_by : (xs : List R) → first (sort_by before xs) ≡ least xs
  first-sort_by [] = refl
  first-sort_by (x ∷ xs) = rw (first-insert_by x (sort_by before xs), first-sort_by xs)

  least-In-earlier :
      (r m : R) (rs : List R) (o : Option R)
      → ((x : R) → o ≡ some x → In x rs)
      → earlier r o ≡ m
      → In m (r ∷ rs)
  least-In-earlier r m rs none ih h = here (sym h)
  least-In-earlier r m rs (some x) ih h = elim (Bool-cases (before r x)) [
    | inl le ↦ here (ground arith)
    | inr gt ↦ there (let same : m ≡ x = ground arith in rw same (ih x refl))
  ]

  least-In : (m : R) (rs : List R) → least rs ≡ some m → In m rs
  least-In m [] h = cc
  least-In m (r ∷ rs) h = least-In-earlier r m rs (least rs) (λ x. least-In x rs) (ground arith)

  -- The answer of ORDER BY … LIMIT 1 is a row of the table.
  pub first-sort_by-In : (m : R) (rs : List R) → first (sort_by before rs) ≡ some m → In m rs
  first-sort_by-In m rs h = least-In m rs (sym (first-sort_by rs) ∙ h)

  not-In-least : (x : R) (rs : List R) → least rs ≡ none → In x rs → ⊥
  not-In-least x [] h i = elim i [ ]
  not-In-least x (r ∷ rs) h i = cc

  pub not-In-first-sort_by : (x : R) (rs : List R) → first (sort_by before rs) ≡ none → In x rs → ⊥
  not-In-first-sort_by x rs h i = not-In-least x rs (sym (first-sort_by rs) ∙ h) i

  -- It comes before the others, in any order that the test decides.
  module _ {κ} (Le : R → R → Type κ) (yes_le : (r x : R) → before r x ≡ true → Le r x)
      (no_le : (r x : R) → before r x ≡ false → Le x r) (le_refl : (r : R) → Le r r)
      (le_trans : (r x y : R) → Le r x → Le x y → Le r y) where
    earlier-le : (r : R) (o : Option R) → Le (earlier r o) r
    earlier-le r none = le_refl r
    earlier-le r (some x) = elim (Bool-cases (before r x)) [
      | inl y ↦ rw (y, earlier) (le_refl r)
      | inr n ↦ rw (n, earlier) (no_le r x n)
    ]

    earlier-le_some : (r x : R) → Le (earlier r (some x)) x
    earlier-le_some r x = elim (Bool-cases (before r x)) [
      | inl y ↦ rw (y, earlier) (yes_le r x y)
      | inr n ↦ rw (n, earlier) (le_refl x)
    ]

    least-le : (x : R) (rs : List R) (m : R) → least rs ≡ some m → In x rs → Le m x
    least-le x [] m h i = elim i [ ]
    least-le x (r ∷ rs) m h (here e) =
        let same : m ≡ earlier r (least rs) = ground arith in rw (same, e) (earlier-le r (least rs))
    least-le x (r ∷ rs) m h (there i) = elim (Option-cases (least rs)) [
      | inl nothing ↦ absurd (not-In-least x rs nothing i)
      | inr (y, e) ↦
          let same : m ≡ earlier r (some y) = ground arith in
          rw same (le_trans _ y x (earlier-le_some r y) (least-le x rs y e i))
    ]

    pub first-sort_by-le :
        (x m : R) (rs : List R) → first (sort_by before rs) ≡ some m → In x rs → Le m x
    first-sort_by-le x m rs h i = least-le x rs m (sym (first-sort_by rs) ∙ h) i

module _ {ℓ} {R : Type ℓ} (key : R → ℕ) (x m : R) (rs : List R) where
  pub first-order_by-le : first (order_by key rs) ≡ some m → In x rs → key m ≤ key x
  first-order_by-le h i =
      first-sort_by-le (asc key) (λ a b. key a ≤ key b) (λ a b h. ground arith)
        (λ a b h. ground arith) (λ a. omega arith) (λ a b c h k. omega arith) x m rs h i

  pub first-order_by_desc-le : first (order_by_desc key rs) ≡ some m → In x rs → key x ≤ key m
  first-order_by_desc-le h i =
      first-sort_by-le (desc key) (λ a b. key b ≤ key a) (λ a b h. ground arith)
        (λ a b h. ground arith) (λ a. omega arith) (λ a b c h k. omega arith) x m rs h i

module _ {ℓ} {R : Type ℓ} (cond : R → Bool) (set : R → R) where
  abbrev pub updated : R → R
  updated r = if cond r then set r else r

  pub In-update_where :
      (r : R) (rows : List R) → In r rows → In (updated r) (update_where cond set rows)
  In-update_where r [] i = elim i [ ]
  In-update_where r (x ∷ rows) (here e) = here (ap updated e)
  In-update_where r (x ∷ rows) (there i) = there (In-update_where r rows i)

  -- An update that keeps the keys is read through the key.
  pub find-update_where :
      (key : R → String)
      → ((r : R) → key (set r) ≡ key r)
      → (j : String) (rows : List R)
      → find (λ r. key r == j) (update_where cond set rows)
        ≡ Option.map updated (find (λ r. key r == j) rows)
  find-update_where key keeps j [] = refl
  find-update_where key keeps j (r ∷ rows) =
      ground (arith, keeps r, find-update_where key keeps j rows)

-- No two rows have one key, as PRIMARY KEY demands.
module _ {ℓ} {R : Type ℓ} (key : R → String) where
  abbrev pub has_key : String → List R → Bool
  has_key k rows = any (λ r. key r == k) rows

  abbrev pub Keyed : List R → Type 0
  Keyed [] = Unit
  Keyed (r ∷ rows) = (has_key (key r) rows ≡ false) × Keyed rows

  pub has_key-In : (r : R) (rows : List R) → In r rows → has_key (key r) rows ≡ true
  has_key-In r [] i = elim i [ ]
  has_key-In r (x ∷ rows) (here e) = ground (arith, ap key e, eq_iff (key x) (key r))
  has_key-In r (x ∷ rows) (there i) = ground (arith, has_key-In r rows i)

  pub has_key-update_where :
      (cond : R → Bool) (set : R → R)
      → ((r : R) → key (set r) ≡ key r)
      → (k : String) (rows : List R) → has_key k (update_where cond set rows) ≡ has_key k rows
  has_key-update_where cond set keeps k [] = refl
  has_key-update_where cond set keeps k (r ∷ rows) =
      ground (arith, keeps r, has_key-update_where cond set keeps k rows)

  pub update_where-Keyed :
      (cond : R → Bool) (set : R → R)
      → ((r : R) → key (set r) ≡ key r)
      → (rows : List R) → Keyed rows
      → Keyed (update_where cond set rows)
  update_where-Keyed cond set keeps [] h = tt
  update_where-Keyed cond set keeps (r ∷ rows) h = (
    ground (arith, keeps r, has_key-update_where cond set keeps (key r) rows, h.0),
    update_where-Keyed cond set keeps rows h.1,
  )

  pub has_key-filter :
      (p : R → Bool) (k : String) (rows : List R)
      → has_key k rows ≡ false
      → has_key k (filter p rows) ≡ false
  has_key-filter p k [] h = refl
  has_key-filter p k (r ∷ rows) h = ground (arith, has_key-filter p k rows)

  pub filter-Keyed : (p : R → Bool) (rows : List R) → Keyed rows → Keyed (filter p rows)
  filter-Keyed p [] h = tt
  filter-Keyed p (r ∷ rows) h =
      ground (arith, filter-Keyed p rows h.1, has_key-filter p (key r) rows h.0)

  has_key-append_one :
      (k : String) (r : R) (rows : List R)
      → has_key k rows ≡ false
      → (key r == k) ≡ false
      → has_key k (rows ++ r ∷ []) ≡ false
  has_key-append_one k r [] h e = ground arith
  has_key-append_one k r (x ∷ rows) h e = ground (arith, has_key-append_one k r rows)

  has_key_other :
      (x r : R) (rows : List R) → has_key (key r) (x ∷ rows) ≡ false → (key r == key x) ≡ false
  has_key_other x r rows h = ground (arith, eq_iff (key x) (key r), eq_iff (key r) (key x))

  pub Keyed-append_one :
      (r : R) (rows : List R) → Keyed rows → has_key (key r) rows ≡ false → Keyed (rows ++ r ∷ [])
  Keyed-append_one r [] h fresh = (refl, tt)
  Keyed-append_one r (x ∷ rows) h fresh = (
    has_key-append_one (key x) r rows h.0 (has_key_other x r rows fresh),
    Keyed-append_one r rows h.1 (ground arith),
  )

  -- Two rows with one key are one row.
  pub Keyed-eq :
      (r x : R) (rows : List R) → Keyed rows → In r rows → In x rows → key r ≡ key x → r ≡ x
  Keyed-eq r x [] h i j same = elim i [ ]
  Keyed-eq r x (y ∷ rows) h (here e) (here f) same = e ∙ sym f
  Keyed-eq r x (y ∷ rows) h (here e) (there j) same = cc (has_key-In x rows j, h.0, ap key e, same)
  Keyed-eq r x (y ∷ rows) h (there i) (here f) same = cc (has_key-In r rows i, h.0, ap key f, same)
  Keyed-eq r x (y ∷ rows) h (there i) (there j) same = Keyed-eq r x rows h.1 i j same
