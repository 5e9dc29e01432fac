-- ===== src/Wiki/Batch/Chunks.antt =====
-- src/memline/wiki/batch.py: the slices of a list of a given size.
use memline.Prelude.{
  ℕ, zero, suc, ◌≤◌, ◌<◌, ◌≡◌, refl, ap, ◌∙◌, List, [], ◌∷◌, ◌++◌, arith, length, take, drop,
  length-take-le, All,
}
use memline.Prelude.Counting.{concat, take-drop, length-drop_le}
use memline.Wiki.Batch.{chunks, cut}

module _ {ℓ} {A : Type ℓ} where
  concat-chunks :
      (fuel size : ℕ) (xs : List A)
      → length xs ≤ fuel
      → 0 < size
      → concat (chunks fuel size xs) ≡ xs
  concat-chunks zero size [] enough positive = refl
  concat-chunks zero size (x ∷ xs) enough positive = absurd (omega arith)
  concat-chunks (suc fuel) size [] enough positive = refl
  concat-chunks (suc fuel) zero (x ∷ xs) enough positive = absurd (omega arith)
  concat-chunks (suc fuel) (suc size) (x ∷ xs) enough positive =
      ap (λ rest. take (suc size) (x ∷ xs) ++ rest)
        (concat-chunks fuel (suc size) (drop size xs) (omega (arith, length-drop_le size xs))
          positive)
      ∙ take-drop (suc size) (x ∷ xs)

  -- The slices, in their order, are the list.
  pub concat-cut : (size : ℕ) (xs : List A) → 0 < size → concat (cut size xs) ≡ xs
  concat-cut size xs positive = concat-chunks (length xs) size xs (omega arith) positive

  -- Between one element and `size` of them.
  abbrev pub Fits : ℕ → List A → Type 0
  Fits size xs = (0 < length xs) × (length xs ≤ size)

  pub chunks-Fits : (fuel size : ℕ) (xs : List A) → 0 < size → All (Fits size) (chunks fuel size xs)
  chunks-Fits zero size xs positive = tt
  chunks-Fits (suc fuel) size [] positive = tt
  chunks-Fits (suc fuel) zero (x ∷ xs) positive = absurd (omega arith)
  chunks-Fits (suc fuel) (suc size) (x ∷ xs) positive = (
    (omega arith, omega (arith, length-take-le size xs)),
    chunks-Fits fuel (suc size) (drop size xs) positive,
  )
