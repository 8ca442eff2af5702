-- ===== src/Client/Resolve/Names.antt =====
-- The search for the name of a copy of a notebook.
use author.Common.{
  ℕ, zero, suc, ◌+◌, ◌≤◌, ◌<◌, ◌≡◌, ◌≢◌, refl, sym, ◌∙◌, true, not, some, List, [], ◌∷◌, ◌++◌, Text,
  lit, text_eq, text_eq_iff, text_Eq, keep_if, length, arith, Bool-cases, inl, inr,
}
use author.Common.Dedup.{contains, contains-keep_if}
use author.Client.Resolve.{Resolver, normalized_name, free_name}

abbrev without : Text → List Text → List Text
without name taken = keep_if (λ t. not (text_eq t name)) taken

length-without_le : (name : Text) (taken : List Text) → length (without name taken) ≤ length taken
length-without_le name [] = omega arith
length-without_le name (t ∷ taken) = ground (arith, length-without_le name taken)

length-without :
    (name : Text) (taken : List Text)
    → contains taken name ≡ true
    → length (without name taken) < length taken
unfolding contains
length-without name [] h = absurd (ground arith)
length-without name (t ∷ taken) h = elim (Bool-cases (text_eq t name)) [
  | inl same ↦ ground (arith, length-without_le name taken)
  | inr other ↦ ground (arith, length-without name taken)
]

contains-without :
    (name : Text) (taken : List Text) (a : Text)
    → a ≢ name
    → contains taken a ≡ contains (without name taken) a
contains-without name taken a other = elim (Bool-cases (text_eq a name)) [
  | inl same ↦ absurd (other ((text_eq_iff a name).0 same))
  | inr differs ↦ sym (contains-keep_if (λ t. not (text_eq t name)) taken a ∙ rw differs refl)
]

module _ (R : Resolver) (base : Text) where
  abbrev numbered : ℕ → Text
  numbered n = base ++ lit " copy " ++ R.digits n

  -- Two lists that agree on the candidates give the same name.
  free_name_agree :
      (fuel : ℕ) (taken taken' : List Text) (suffix : ℕ) (candidate : Text)
      → contains taken (normalized_name R candidate) ≡ contains taken' (normalized_name R candidate)
      → ((n : ℕ)
          → suffix ≤ n
          → contains taken (normalized_name R (numbered n))
            ≡ contains taken' (normalized_name R (numbered n)))
      → free_name R fuel taken base suffix candidate ≡ free_name R fuel taken' base suffix candidate
  unfolding free_name
  free_name_agree zero taken taken' suffix candidate e later = refl
  free_name_agree (suc fuel) taken taken' suffix candidate e later =
      let rest =
        free_name_agree fuel taken taken' (suffix + 1) (numbered suffix)
          (later suffix (omega arith)) (λ n h. later n (omega arith)) in
      rw (free_name, e, rest) refl

  -- The candidates differ as names; then one of them is free.
  pub free_name-some :
      (fuel : ℕ) (taken : List Text) (suffix : ℕ) (candidate : Text)
      → ((m n : ℕ) → normalized_name R (numbered m) ≡ normalized_name R (numbered n) → m ≡ n)
      → ((n : ℕ) → suffix ≤ n → normalized_name R (numbered n) ≢ normalized_name R candidate)
      → length taken < fuel
      → (name : Text) × (free_name R fuel taken base suffix candidate ≡ some name)
  unfolding free_name
  free_name-some zero taken suffix candidate differ fresh enough = absurd (omega arith)
  free_name-some (suc fuel) taken suffix candidate differ fresh enough =
      let name = normalized_name R candidate in
      elim (Bool-cases (contains taken name)) [
        | inr free ↦ (candidate, rw (free_name, free) refl)
        | inl used ↦
            let fewer = length-without name taken used in
            let (found, e) =
              free_name-some fuel (without name taken) (suffix + 1) (numbered suffix) differ
                (λ n h same. (let e : n ≡ suffix = differ n suffix same in omega arith))
                (omega arith) in
            let same =
              free_name_agree fuel taken (without name taken) (suffix + 1) (numbered suffix)
                (contains-without name taken (normalized_name R (numbered suffix))
                  (fresh suffix (omega arith)))
                (λ n h.
                  contains-without name taken (normalized_name R (numbered n))
                    (fresh n (omega arith))) in
            (found, rw (free_name, used) (same ∙ e))
      ]
