-- ===== src/Prelude/Rows.antt =====
-- What SELECT … WHERE key = ? answers after a DELETE and after an INSERT, in a table without two
-- rows of one key.
use Prim.Native.String.{String}
use mathlib.Core.Path.{◌≡◌, refl, sym}
use mathlib.Core.Logic.{inl, inr}
use mathlib.Core.Bool.{Bool, true, false, not}
use mathlib.Core.List.{List, [], ◌∷◌, ◌++◌}
use mathlib.Core.Option.{Option, none, some}
use native.Mathlib.Omega.{arith}
use text.Mathlib.Text.{◌==◌}
use text.Mathlib.TextEquality.{eq_iff}
use memline.Prelude.Tests.{if◌then◌else◌, Bool-cases}
use memline.Prelude.Lists.{filter, find, All}
use memline.Prelude.Table.{update_where}
use memline.Prelude.Order.{has_key, Keyed, has_key-filter}

module _ {ℓ} {R : Type ℓ} where
  abbrev pub unless : (R → Bool) → Option R → Option R
  unless cond none = none
  unless cond (some r) = if cond r then none else some r

  abbrev pub or_else : Option R → Option R → Option R
  or_else none o = o
  or_else (some r) o = some r

  abbrev pub when : (R → Bool) → R → Option R
  when cond r = if cond r then some r else none

  pub or_else-none : (o : Option R) → or_else o none ≡ o
  or_else-none none = refl
  or_else-none (some r) = refl

  pub All-filter {κ} :
      (P : R → Type κ) (p : R → Bool) (rows : List R) → All P rows → All P (filter p rows)
  All-filter P p [] h = tt
  All-filter P p (r ∷ rows) h = elim (Bool-cases (p r)) [
    | inl hit ↦ rw hit (h.0, All-filter P p rows h.1)
    | inr miss ↦ rw miss (All-filter P p rows h.1)
  ]

  pub All-append_one {κ} :
      (P : R → Type κ) (r : R) (rows : List R) → All P rows → P r → All P (rows ++ r ∷ [])
  All-append_one P r [] h k = (k, tt)
  All-append_one P r (x ∷ rows) h k = (h.0, All-append_one P r rows h.1 k)

  pub All-update_where {κ} :
      (P : R → Type κ) (cond : R → Bool) (set : R → R)
      → ((r : R) → P r → P (set r))
      → (rows : List R) → All P rows
      → All P (update_where cond set rows)
  All-update_where P cond set keeps [] h = tt
  All-update_where P cond set keeps (r ∷ rows) h = elim (Bool-cases (cond r)) [
    | inl hit ↦ rw hit (keeps r h.0, All-update_where P cond set keeps rows h.1)
    | inr miss ↦ rw miss (h.0, All-update_where P cond set keeps rows h.1)
  ]

  -- What a search finds passes its test.
  pub find_holds : (p : R → Bool) (r : R) (rows : List R) → find p rows ≡ some r → p r ≡ true
  find_holds p r [] h = cc
  find_holds p r (x ∷ rows) h = elim (Bool-cases (p x)) [
    | inl hit ↦ let same : x ≡ r = ground arith in rw (sym same) hit
    | inr miss ↦ find_holds p r rows (rw miss at h)
  ]

  pub find-append_one :
      (p : R → Bool) (r : R) (rows : List R)
      → find p (rows ++ r ∷ []) ≡ or_else (find p rows) (when p r)
  find-append_one p r [] = refl
  find-append_one p r (x ∷ rows) = elim (Bool-cases (p x)) [
    | inl yes_x ↦ rw yes_x refl
    | inr no_x ↦ rw no_x (find-append_one p r rows)
  ]

module _ {ℓ} {R : Type ℓ} (key : R → String) where
  pub find_absent :
      (k : String) (rows : List R) → has_key key k rows ≡ false → find (λ r. key r == k) rows ≡ none
  find_absent k [] h = refl
  find_absent k (r ∷ rows) h = ground (arith, find_absent k rows)

  pub find_present :
      (k : String) (rows : List R)
      → has_key key k rows ≡ true
      → (r : R) × (find (λ r. key r == k) rows ≡ some r)
  find_present k [] h = cc
  find_present k (r ∷ rows) h = elim (Bool-cases (key r == k)) [
    | inl same ↦ (r, rw same refl)
    | inr other ↦ let (x, e) = find_present k rows (rw other at h) in (x, rw other e)
  ]

  -- The row of a key after a DELETE.
  pub find-delete_where :
      (cond : R → Bool) (k : String) (rows : List R)
      → Keyed key rows
      → find (λ r. key r == k) (filter (λ r. not (cond r)) rows)
        ≡ unless cond (find (λ r. key r == k) rows)
  find-delete_where cond k [] h = refl
  find-delete_where cond k (r ∷ rows) h = elim (Bool-cases (key r == k)) [
    | inl same ↦
        let gone : has_key key k rows ≡ false = ground (arith, eq_iff (key r) k, h.0) in
        let found = find_absent k _ (has_key-filter key (λ x. not (cond x)) k rows gone) in
        ground arith
    | inr other ↦ ground (arith, find-delete_where cond k rows h.1)
  ]
