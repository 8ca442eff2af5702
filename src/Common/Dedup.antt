-- ===== src/Common/Dedup.antt =====
-- `[...new Set(items)]`: each item once, at the place of its first occurrence; and `includes`.
use author.Common.{
  ◌≡◌, refl, ap, Bool, false, not, ◌||◌, List, [], ◌∷◌, ◌++◌, arith, Eq, if◌then◌else◌, Bool-cases,
  inl, inr, keep_if,
}

module _ {ℓ} {A : Type ℓ} ⦃e : Eq A⦄ where
  unfoldable pub contains : List A → A → Bool
  contains [] a = false
  contains (x ∷ xs) a = e.equals x a || contains xs a

  -- The first occurrence stays, the later ones go.
  unfoldable pub dedup : List A → List A
  dedup [] = []
  dedup (x ∷ xs) = x ∷ keep_if (λ y. not (e.equals x y)) (dedup xs)

  pub contains-append :
      (xs ys : List A) (a : A) → contains (xs ++ ys) a ≡ contains xs a || contains ys a
  unfolding contains
  contains-append [] ys a = refl
  contains-append (x ∷ xs) ys a = ground (arith, contains-append xs ys a)

  pub contains-keep_if :
      (p : A → Bool) (xs : List A) (a : A)
      → contains (keep_if p xs) a ≡ (if p a then contains xs a else false)
  unfolding contains
  contains-keep_if p [] a = ground arith
  contains-keep_if p (x ∷ xs) a = elim (Bool-cases (e.equals x a)) [
    | inl same ↦
        let eq : p x ≡ p a = ap p ((e.equals_iff x a).0 same) in
        ground (arith, contains-keep_if p xs a)
    | inr other ↦ ground (arith, contains-keep_if p xs a)
  ]

  pub contains-dedup : (xs : List A) (a : A) → contains (dedup xs) a ≡ contains xs a
  unfolding contains dedup
  contains-dedup [] a = refl
  contains-dedup (x ∷ xs) a =
      ground (arith, contains-keep_if (λ y. not (e.equals x y)) (dedup xs) a, contains-dedup xs a)

  -- No item twice.
  abbrev pub Distinct : List A → Type 0
  Distinct [] = Unit
  Distinct (x ∷ xs) = (contains xs x ≡ false) × Distinct xs

  pub keep_if-Distinct : (p : A → Bool) (xs : List A) → Distinct xs → Distinct (keep_if p xs)
  keep_if-Distinct p [] h = tt
  keep_if-Distinct p (x ∷ xs) (h, d) =
      ground (arith, contains-keep_if p xs x, keep_if-Distinct p xs d)

  pub dedup-Distinct : (xs : List A) → Distinct (dedup xs)
  unfolding dedup
  dedup-Distinct [] = tt
  dedup-Distinct (x ∷ xs) = (
    ground (arith, contains-keep_if (λ y. not (e.equals x y)) (dedup xs) x, e.equals_iff x x),
    keep_if-Distinct (λ y. not (e.equals x y)) (dedup xs) (dedup-Distinct xs),
  )

  keep_if_absent :
      (x : A) (xs : List A) → contains xs x ≡ false → keep_if (λ y. not (e.equals x y)) xs ≡ xs
  unfolding contains
  keep_if_absent x [] h = refl
  keep_if_absent x (y ∷ ys) h =
      ground (arith, keep_if_absent x ys, e.equals_iff x y, e.equals_iff y x)

  pub dedup_of_Distinct : (xs : List A) → Distinct xs → dedup xs ≡ xs
  unfolding dedup
  dedup_of_Distinct [] h = refl
  dedup_of_Distinct (x ∷ xs) (h, d) = ground (arith, dedup_of_Distinct xs d, keep_if_absent x xs h)
