-- ===== src/Client/Batches/Covers.antt =====
-- The requests of a push, and the pending records.
use author.Common.{
  ℕ, zero, suc, ◌+◌, ◌-◌, ◌≤◌, ◌<◌, ◌≡◌, refl, ap, sym, ◌∙◌, ◌||◌, some, List, [], ◌∷◌, ◌++◌, drop,
  length, ltb, flat_map, All, arith, length-take, length-drop, take-append-drop, Bool-cases, inl,
  inr, ◌⊎◌,
}
use author.Client.Batches.{
  push_batch_size, slice, Batch, batch_size, notebook_batch_end, note_batch_end, push_batches,
}

module _ {ℓ} {A : Type ℓ} where
  drop_nothing : (n : ℕ) → drop {A = A} n [] ≡ []
  drop_nothing zero = refl
  drop_nothing (suc n) = refl

  drop-drop_start :
      (start end : ℕ) (xs : List A) → start ≤ end → drop (end - start) (drop start xs) ≡ drop end xs
  drop-drop_start zero end xs h = ap (λ n. drop n xs) (omega arith)
  drop-drop_start (suc start) zero xs h = absurd (omega arith)
  drop-drop_start (suc start) (suc end) [] h = drop_nothing (suc end - suc start)
  drop-drop_start (suc start) (suc end) (x ∷ xs) h =
      let e : suc end - suc start ≡ end - start = omega arith in
      ap (λ n. drop n (drop start xs)) e ∙ drop-drop_start start end xs (omega arith)

  drop_all : (xs : List A) (n : ℕ) → length xs ≤ n → drop n xs ≡ []
  drop_all [] zero h = refl
  drop_all [] (suc n) h = refl
  drop_all (x ∷ xs) zero h = absurd (omega arith)
  drop_all (x ∷ xs) (suc n) h = drop_all xs n (omega arith)

  slice-append-drop :
      (start end : ℕ) (xs : List A)
      → start ≤ end
      → slice start end xs ++ drop end xs ≡ drop start xs
  slice-append-drop start end xs h =
      ap (λ r. slice start end xs ++ r) (sym (drop-drop_start start end xs h))
      ∙ take-append-drop (end - start) (drop start xs)

  length-slice :
      (start end : ℕ) (xs : List A)
      → start ≤ end
      → end ≤ length xs
      → length (slice start end xs) ≡ end - start
  length-slice start end xs h k =
      omega (arith, length-take (end - start) (drop start xs), length-drop start xs)

-- A request of the program has a record at least, and no more of them than the limit.
abbrev pub IsFilled {ℓ κ} : {A : Type ℓ} {B : Type κ} → Batch A B → Type 0
IsFilled batch = (0 < batch_size batch) × (batch_size batch ≤ push_batch_size)

module _ {ℓ κ} {A : Type ℓ} {B : Type κ} (notes : List A) (notebooks : List B) where
  note_end-bounds :
      (note_start notebook_start : ℕ)
      → note_start ≤ length notes
      → notebook_start ≤ length notebooks
      → (note_start ≤ note_batch_end notes notebooks note_start notebook_start)
        × (note_batch_end notes notebooks note_start notebook_start ≤ length notes)
  unfolding note_batch_end notebook_batch_end
  note_end-bounds note_start notebook_start h k = (omega arith, omega arith)

  notebook_end-bounds :
      (notebook_start : ℕ)
      → notebook_start ≤ length notebooks
      → (notebook_start ≤ notebook_batch_end notes notebooks notebook_start)
        × (notebook_batch_end notes notebooks notebook_start ≤ length notebooks)
  unfolding notebook_batch_end
  notebook_end-bounds notebook_start k = (omega arith, omega arith)

  ends-IsFilled :
      (note_start notebook_start : ℕ)
      → note_start ≤ length notes
      → notebook_start ≤ length notebooks
      → (note_start < length notes) ⊎ (notebook_start < length notebooks)
      → (0
          < (note_batch_end notes notebooks note_start notebook_start - note_start)
            + (notebook_batch_end notes notebooks notebook_start - notebook_start))
        × ((note_batch_end notes notebooks note_start notebook_start - note_start)
              + (notebook_batch_end notes notebooks notebook_start - notebook_start)
            ≤ push_batch_size)
  unfolding note_batch_end notebook_batch_end
  ends-IsFilled note_start notebook_start h k (inl l) = (omega arith, omega arith)
  ends-IsFilled note_start notebook_start h k (inr l) = (omega arith, omega arith)

  abbrev Covers : ℕ → ℕ → List (Batch A B) → Type (ℓ ⊔ κ)
  Covers note_start notebook_start batches =
      (flat_map (λ (b : Batch A B). b.notes) batches ≡ drop note_start notes)
      × (flat_map (λ (b : Batch A B). b.notebooks) batches ≡ drop notebook_start notebooks)
      × All IsFilled batches

  push_batches-Covers :
      (fuel note_start notebook_start : ℕ)
      → note_start ≤ length notes
      → notebook_start ≤ length notebooks
      → (length notes - note_start) + (length notebooks - notebook_start) < fuel
      → (batches : List (Batch A B)) × (push_batches notes notebooks fuel note_start notebook_start
          ≡ some batches)
        × Covers note_start notebook_start batches
  unfolding push_batches
  push_batches-Covers zero note_start notebook_start h k enough = absurd (omega arith)
  push_batches-Covers (suc fuel) note_start notebook_start h k enough =
      let (low, high) = note_end-bounds note_start notebook_start h k in
      let (low', high') = notebook_end-bounds notebook_start k in
      let note_end = note_batch_end notes notebooks note_start notebook_start in
      let notebook_end = notebook_batch_end notes notebooks notebook_start in
      elim (Bool-cases (ltb note_start (length notes) || ltb notebook_start (length notebooks))) [
        | inr done ↦ (
          [],
          rw done refl,
          (
            sym (drop_all notes note_start (ground arith)),
            sym (drop_all notebooks notebook_start (ground arith)),
            tt,
          ),
        )
        | inl more ↦
            let size = ends-IsFilled note_start notebook_start h k (ground arith) in
            let (batches, e, (ns, bs, filled)) =
              push_batches-Covers fuel note_end notebook_end high high' (omega arith) in
            (
              record {
                notes = slice note_start note_end notes;
                notebooks = slice notebook_start notebook_end notebooks;
              }
                  ∷ batches,
              rw (more, e) refl,
              (
                ap (λ r. slice note_start note_end notes ++ r) ns
                    ∙ slice-append-drop note_start note_end notes low,
                ap (λ r. slice notebook_start notebook_end notebooks ++ r) bs
                    ∙ slice-append-drop notebook_start notebook_end notebooks low',
                (
                  (
                    rw
                        (
                          length-slice note_start note_end notes low high,
                          length-slice notebook_start notebook_end notebooks low' high',
                        )
                        size.0,
                    rw
                        (
                          length-slice note_start note_end notes low high,
                          length-slice notebook_start notebook_end notebooks low' high',
                        )
                        size.1,
                  ),
                  filled,
                ),
              ),
            )
      ]

  -- The loop that pushes ends, after at most as many rounds as there are pending records: its requests
  -- have every pending note and every pending notebook exactly once, in order, and each of them has one
  -- record at least and 20 at most.
  pub push_batches_cover :
      (batches : List (Batch A B)) × (push_batches notes notebooks
          (suc (length notes + length notebooks))
          0
          0
        ≡ some batches)
      × (flat_map (λ (b : Batch A B). b.notes) batches ≡ notes)
      × (flat_map (λ (b : Batch A B). b.notebooks) batches ≡ notebooks)
      × All IsFilled batches
  push_batches_cover =
      let (batches, e, (ns, bs, filled)) =
        push_batches-Covers (suc (length notes + length notebooks)) 0 0 (omega arith) (omega arith)
          (omega arith) in
      (batches, e, ns, bs, filled)
