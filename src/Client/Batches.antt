-- ===== src/Client/Batches.antt =====
-- The `while` loop of `runSyncUnlocked` (sync.ts) as far as it cuts the pending records into requests:
-- what it does with a response does not touch the variables that it loops on. The fuel bounds the
-- rounds; `none` means that it ran out.
pub mod Covers
use author.Common.{
  ℕ, zero, suc, ◌+◌, ◌-◌, Bool, ◌||◌, Option, none, some, List, [], ◌∷◌, take, drop, length, min,
  ltb, if◌then◌else◌,
}

abbrev pub push_batch_size : ℕ
push_batch_size = 20

-- `Array.prototype.slice`
abbrev pub slice {ℓ} : {A : Type ℓ} → ℕ → ℕ → List A → List A
slice start end xs = take (end - start) (drop start xs)

pub record Batch {ℓ κ} (A : Type ℓ) (B : Type κ) : Type (ℓ ⊔ κ) where
  pub notes : List A
  pub notebooks : List B

-- `batchSize`
abbrev pub batch_size {ℓ κ} : {A : Type ℓ} {B : Type κ} → Batch A B → ℕ
batch_size batch = length batch.notes + length batch.notebooks

module _ {ℓ κ} {A : Type ℓ} {B : Type κ} (notes : List A) (notebooks : List B) where
  unfoldable pub notebook_batch_end : ℕ → ℕ
  notebook_batch_end notebook_start = min (notebook_start + push_batch_size) (length notebooks)

  -- A request takes notebooks first, and notes into the places that are left.
  unfoldable pub note_batch_end : ℕ → ℕ → ℕ
  note_batch_end note_start notebook_start =
      min (note_start + (push_batch_size - (notebook_batch_end notebook_start - notebook_start)))
        (length notes)

  unfoldable pub push_batches : ℕ → ℕ → ℕ → Option (List (Batch A B))
  push_batches zero note_start notebook_start = none
  push_batches (suc fuel) note_start notebook_start =
      let note_end = note_batch_end note_start notebook_start in
      let notebook_end = notebook_batch_end notebook_start in
      let batch : Batch A B = record {
        notes = slice note_start note_end notes;
        notebooks = slice notebook_start notebook_end notebooks;
      } in
      let later = push_batches fuel note_end notebook_end in
      if ltb note_start (length notes) || ltb notebook_start (length notebooks)
      then elim later [ none ↦ none | some batches ↦ some (batch ∷ batches) ]
      else some []
