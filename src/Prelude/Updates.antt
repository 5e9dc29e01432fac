-- ===== src/Prelude/Updates.antt =====
-- What an UPDATE by the key of one row changes: no other row, and a weight by that row's part only.
use Prim.Native.Nat.{ℕ, ◌+◌}
use mathlib.Core.Path.{◌≡◌, refl, sym, ap, ◌∙◌}
use mathlib.Core.Logic.{inl, inr}
use mathlib.Core.Bool.{Bool, false}
use mathlib.Core.List.{List, [], ◌∷◌, map}
use native.Mathlib.Omega.{arith}
use Prim.Native.String.{String}
use text.Mathlib.Text.{◌==◌}
use text.Mathlib.TextEquality.{eq_iff}
use memline.Prelude.Tests.{Bool-cases}
use memline.Prelude.Lists.{In, here, there}
use memline.Prelude.Table.{update_where}
use memline.Prelude.Order.{updated, has_key, Keyed, has_key-In}
use memline.Prelude.Counting.{weigh}

module _ {ℓ} {R : Type ℓ} where
  updated_twice :
      (cond : R → Bool) (f g : R → R) (r : R)
      → cond (f r) ≡ cond r
      → updated cond g (updated cond f r) ≡ updated cond (λ x. g (f x)) r
  updated_twice cond f g r keeps = elim (Bool-cases (cond r)) [
    | inl hit ↦ rw (hit, keeps ∙ hit, updated) refl
    | inr miss ↦
        let inner : updated cond f r ≡ r = rw (miss, updated) refl in
        ap (updated cond g) inner ∙ rw (miss, updated) refl
  ]

  -- Two updates of the same rows are one.
  pub update_where-twice :
      (cond : R → Bool) (f g : R → R)
      → ((r : R) → cond (f r) ≡ cond r)
      → (rows : List R)
      → update_where cond g (update_where cond f rows) ≡ update_where cond (λ r. g (f r)) rows
  update_where-twice cond f g keeps [] = refl
  update_where-twice cond f g keeps (r ∷ rows) =
      cc (updated_twice cond f g r (keeps r), update_where-twice cond f g keeps rows)

  -- An update that keeps the keys keeps them in their order.
  pub map-update_where {κ} :
      {K : Type κ} (key : R → K) (cond : R → Bool) (set : R → R)
      → ((r : R) → key (set r) ≡ key r)
      → (rows : List R) → map key (update_where cond set rows) ≡ map key rows
  map-update_where key cond set keeps [] = refl
  map-update_where key cond set keeps (r ∷ rows) =
      let same : key (updated cond set r) ≡ key r = elim (Bool-cases (cond r)) [
        | inl hit ↦ rw (hit, updated) (keeps r)
        | inr miss ↦ rw (miss, updated) refl
      ] in
      cc (same, map-update_where key cond set keeps rows)

  module _ (key : R → String) (set : R → R) where
    update_where-miss :
        (k : String) (rows : List R)
        → has_key key k rows ≡ false
        → update_where (λ r. key r == k) set rows ≡ rows
    update_where-miss k [] h = refl
    update_where-miss k (r ∷ rows) h = ground (arith, update_where-miss k rows)

    pub weigh-update_key :
        (w : R → ℕ) (m : R) (rows : List R)
        → Keyed key rows
        → In m rows
        → weigh w (update_where (λ r. key r == key m) set rows) + w m ≡ weigh w rows + w (set m)
    weigh-update_key w m [] keyed i = elim i [ ]
    weigh-update_key w m (x ∷ rows) keyed (here e) =
        let fresh : has_key key (key m) rows ≡ false = cc (keyed.0, ap key e) in
        let hit : updated (λ r. key r == key m) set x ≡ set m =
          rw ((eq_iff (key x) (key m)).1 (ap key (sym e)), updated) (ap set (sym e)) in
        omega (arith, ap (weigh w) (update_where-miss (key m) rows fresh), ap w hit, ap w e)
    weigh-update_key w m (x ∷ rows) keyed (there i) =
        let other : updated (λ r. key r == key m) set x ≡ x = elim (Bool-cases (key x == key m)) [
          | inl same ↦ cc (has_key-In key m rows i, keyed.0, (eq_iff (key x) (key m)).0 same)
          | inr apart ↦ rw (apart, updated) refl
        ] in
        omega (arith, ap w other, weigh-update_key w m rows keyed.1 i)
