-- ===== src/Prelude/Table.antt =====
-- A table of an SQLite database, as the list of its rows in the order of their insertion, and the
-- statements that the program runs on one: SELECT, UPDATE and DELETE by a condition, ORDER BY on
-- a time with LIMIT and OFFSET. Rows with the same time keep the order of their insertion.
use Prim.Native.Nat.{ℕ}
use mathlib.Core.Bool.{Bool, not}
use mathlib.Core.List.{List, [], ◌∷◌, map}
use mathlib.Core.Option.{Option, none, some}
use memline.Prelude.Tests.{ltb, leb, if◌then◌else◌}
use memline.Prelude.Lists.{filter}

module _ {ℓ} {R : Type ℓ} where
  -- UPDATE … SET … WHERE …
  abbrev pub update_where : (R → Bool) → (R → R) → List R → List R
  update_where cond set rows = map (λ r. if cond r then set r else r) rows

  -- DELETE FROM … WHERE …
  abbrev pub delete_where : (R → Bool) → List R → List R
  delete_where cond rows = filter (λ r. not (cond r)) rows

  -- A row goes before the first one that it comes before.
  abbrev pub insert_by : (R → R → Bool) → R → List R → List R
  insert_by before r [] = r ∷ []
  insert_by before r (x ∷ xs) =
      let rest = insert_by before r xs in if before r x then r ∷ x ∷ xs else x ∷ rest

  abbrev pub sort_by : (R → R → Bool) → List R → List R
  sort_by before [] = []
  sort_by before (r ∷ rs) = insert_by before r (sort_by before rs)

  -- ORDER BY key
  abbrev pub asc : (R → ℕ) → R → R → Bool
  asc key r x = leb (key r) (key x)

  abbrev pub order_by : (R → ℕ) → List R → List R
  order_by key = sort_by (asc key)

  -- ORDER BY key DESC, rowid DESC: the later row comes first where two keys are equal.
  abbrev pub desc : (R → ℕ) → R → R → Bool
  desc key r x = ltb (key x) (key r)

  abbrev pub order_by_desc : (R → ℕ) → List R → List R
  order_by_desc key = sort_by (desc key)

-- The first row of an answer, `fetchone()`.
abbrev pub first {ℓ} : {R : Type ℓ} → List R → Option R
first [] = none
first (r ∷ rs) = some r

-- One day, in the unit of time.
abbrev pub day : ℕ
day = 86400000000
