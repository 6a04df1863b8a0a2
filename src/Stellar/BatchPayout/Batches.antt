-- ===== src/Stellar/BatchPayout/Batches.antt =====
-- Cutting a list into batches.
use brand_blitz.Prelude.{
  ℕ, zero, suc, ◌≤◌, ◌<◌, ◌≡◌, refl, ap, ◌∙◌, List, [], ◌∷◌, ◌++◌, arith, length, take, drop,
  concat, take-append-drop, length-drop, length-take-le, All,
}
use brand_blitz.Stellar.BatchPayout.{chunk_from, chunk_array}

module _ {ℓ} {A : Type ℓ} where
  -- A batch is not empty and holds at most `size`.
  abbrev pub IsBatch : ℕ → List A → Type 0
  IsBatch size batch = (0 < length batch) × (length batch ≤ size)

  take-nonempty : (size : ℕ) (x : A) (xs : List A) → 0 < size → 0 < length (take size (x ∷ xs))
  take-nonempty zero x xs h = absurd (omega arith)
  take-nonempty (suc n) x xs h = omega arith

  chunk_from-concat :
      (f size : ℕ) (xs : List A) → 0 < size → length xs ≤ f → concat (chunk_from f size xs) ≡ xs
  unfolding chunk_from
  chunk_from-concat zero size [] h k = refl
  chunk_from-concat zero size (x ∷ xs) h k = absurd (omega arith)
  chunk_from-concat (suc f) size [] h k = refl
  chunk_from-concat (suc f) size (x ∷ xs) h k =
      ap (◌++◌ (take size (x ∷ xs)))
        (chunk_from-concat f size (drop size (x ∷ xs)) h (omega (arith, length-drop size (x ∷ xs))))
      ∙ take-append-drop size (x ∷ xs)

  chunk_from-IsBatch :
      (f size : ℕ) (xs : List A) → 0 < size → All (IsBatch size) (chunk_from f size xs)
  unfolding chunk_from
  chunk_from-IsBatch zero size xs h = tt
  chunk_from-IsBatch (suc f) size [] h = tt
  chunk_from-IsBatch (suc f) size (x ∷ xs) h = (
    (take-nonempty size x xs h, length-take-le size (x ∷ xs)),
    chunk_from-IsBatch f size (drop size (x ∷ xs)) h,
  )

  -- For a positive size, the chunks put together are the list, in order, and each holds between one
  -- and `size` items.
  pub chunk_array-IsBatch :
      (xs : List A) (size : ℕ)
      → 0 < size
      → (concat (chunk_array xs size) ≡ xs) × All (IsBatch size) (chunk_array xs size)
  unfolding chunk_array
  chunk_array-IsBatch xs size h = (
    chunk_from-concat (length xs) size xs h (omega arith),
    chunk_from-IsBatch (length xs) size xs h,
  )
