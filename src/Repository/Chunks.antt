-- ===== src/Repository/Chunks.antt =====
-- `chunks`: queries and inserts go in blocks of a fixed size.
use author.Common.{
  ℕ, zero, suc, ◌≤◌, ◌<◌, ◌≡◌, refl, ap, ◌∙◌, sym, List, [], ◌∷◌, ◌++◌, arith, length, take, drop,
  for_each, take-append-drop, length-drop,
}

module _ {ℓ} {A : Type ℓ} where
  chunk_loop : ℕ → ℕ → List A → List (List A)
  chunk_loop zero size items = []
  chunk_loop (suc fuel) size [] = []
  chunk_loop (suc fuel) size (x ∷ xs) =
      take size (x ∷ xs) ∷ chunk_loop fuel size (drop size (x ∷ xs))

  -- The loop makes at most one round per item, if the size is positive.
  unfoldable pub chunks : List A → ℕ → List (List A)
  unfolding chunk_loop
  chunks items size = chunk_loop (length items) size items

module _ {ℓ κ} {A : Type ℓ} {S : Type κ} (f : S → A → S) where
  pub for_each-append :
      (s : S) (xs ys : List A) → for_each f s (xs ++ ys) ≡ for_each f (for_each f s xs) ys
  for_each-append s [] ys = refl
  for_each-append s (x ∷ xs) ys = for_each-append (f s x) xs ys

  chunk_loop_lem :
      (fuel size : ℕ) (s : S) (xs : List A)
      → 0 < size
      → length xs ≤ fuel
      → for_each (for_each f) s (chunk_loop fuel size xs) ≡ for_each f s xs
  unfolding chunk_loop
  chunk_loop_lem zero size s [] p h = refl
  chunk_loop_lem zero size s (x ∷ xs) p h = absurd (omega arith)
  chunk_loop_lem (suc fuel) size s [] p h = refl
  chunk_loop_lem (suc fuel) size s (x ∷ xs) p h =
      chunk_loop_lem fuel size (for_each f s (take size (x ∷ xs))) (drop size (x ∷ xs)) p
        (omega (arith, length-drop size (x ∷ xs)))
      ∙ sym (for_each-append s (take size (x ∷ xs)) (drop size (x ∷ xs)))
      ∙ ap (for_each f s) (take-append-drop size (x ∷ xs))

  pub for_each-chunks :
      (size : ℕ) (s : S) (xs : List A)
      → 0 < size
      → for_each (for_each f) s (chunks xs size) ≡ for_each f s xs
  unfolding chunks
  for_each-chunks size s xs p = chunk_loop_lem (length xs) size s xs p (omega arith)

module _ {ℓ} {A : Type ℓ} where
  abbrev pub concat : List (List A) → List A
  concat [] = []
  concat (xs ∷ xss) = xs ++ concat xss

  concat-chunk_loop :
      (fuel size : ℕ) (xs : List A)
      → 0 < size
      → length xs ≤ fuel
      → concat (chunk_loop fuel size xs) ≡ xs
  unfolding chunk_loop
  concat-chunk_loop zero size [] p h = refl
  concat-chunk_loop zero size (x ∷ xs) p h = absurd (omega arith)
  concat-chunk_loop (suc fuel) size [] p h = refl
  concat-chunk_loop (suc fuel) size (x ∷ xs) p h =
      ap (λ r. take size (x ∷ xs) ++ r)
        (concat-chunk_loop fuel size (drop size (x ∷ xs)) p
          (omega (arith, length-drop size (x ∷ xs))))
      ∙ take-append-drop size (x ∷ xs)

  -- The blocks are the list, in its order.
  pub concat-chunks : (size : ℕ) (xs : List A) → 0 < size → concat (chunks xs size) ≡ xs
  unfolding chunks
  concat-chunks size xs p = concat-chunk_loop (length xs) size xs p (omega arith)
