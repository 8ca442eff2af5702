-- ===== src/Common/Table.antt =====
-- Tables with a primary key, and JavaScript's `Map`: a list of rows, where a write replaces the row
-- of its key in place, or adds a row at the end.
use author.Common.{
  ◌≡◌, ap, Bool, Option, none, some, List, [], ◌∷◌, arith, Eq, if◌then◌else◌, Bool-cases, inl, inr,
  map, refl,
}

abbrev pub Table {ℓ κ} : Type ℓ → Type κ → Type (ℓ ⊔ κ)
Table K V = List (K × V)

module _ {ℓ κ} {K : Type ℓ} {V : Type κ} where
  abbrev pub keys : Table K V → List K
  keys [] = []
  keys ((k, v) ∷ t) = k ∷ keys t

  pub keys-map {μ} :
      {A : Type μ} (key : A → K) (value : A → V) (xs : List A)
      → keys (map (λ x. (key x, value x)) xs) ≡ map key xs
  keys-map key value [] = refl
  keys-map key value (x ∷ xs) = ap {B = List K} (λ r. key x ∷ r) (keys-map key value xs)

-- The row that a write leaves, from the row that it finds.
abbrev pub merged {ℓ} : {V : Type ℓ} → (V → V → V) → Option V → V → V
merged f none v = v
merged f (some w) v = f w v

module _ {ℓ κ} {K : Type ℓ} {V : Type κ} ⦃e : Eq K⦄ where
  unfoldable pub get : Table K V → K → Option V
  get [] k = none
  get ((j, v) ∷ t) k = if e.equals j k then some v else get t k

  -- `INSERT … ON CONFLICT(key) DO UPDATE`, where `f` merges the new row into the old one
  unfoldable pub upsert : (V → V → V) → Table K V → K → V → Table K V
  upsert f [] k v = (k, v) ∷ []
  upsert f ((j, w) ∷ t) k v = if e.equals j k then (j, f w v) ∷ t else (j, w) ∷ upsert f t k v

  -- `Map.set`
  unfoldable pub put : Table K V → K → V → Table K V
  unfolding upsert
  put t k v = upsert (λ _ new. new) t k v

  -- `DELETE … WHERE p(key)`
  unfoldable pub remove_if : (K → Bool) → Table K V → Table K V
  remove_if p [] = []
  remove_if p ((j, v) ∷ t) = let rest = remove_if p t in if p j then rest else (j, v) ∷ rest

  unfoldable pub remove : Table K V → K → Table K V
  unfolding remove_if
  remove t k = remove_if (λ j. e.equals j k) t

  pub get-upsert :
      (f : V → V → V) (t : Table K V) (k : K) (v : V) (j : K)
      → get (upsert f t k v) j ≡ (if e.equals k j then some (merged f (get t k) v) else get t j)
  unfolding get upsert
  get-upsert f [] k v j = ground arith
  get-upsert f ((i, w) ∷ t) k v j =
      ground (arith, e.equals_iff k j, e.equals_iff i k, e.equals_iff i j, get-upsert f t k v j)

  pub get-put :
      (t : Table K V) (k : K) (v : V) (j : K)
      → get (put t k v) j ≡ (if e.equals k j then some v else get t j)
  unfolding put
  get-put t k v j = ground (arith, get-upsert (λ _ new. new) t k v j)

  pub get-remove_if :
      (p : K → Bool) (t : Table K V) (k : K)
      → get (remove_if p t) k ≡ (if p k then none else get t k)
  unfolding get remove_if
  get-remove_if p [] k = ground arith
  get-remove_if p ((j, v) ∷ t) k = elim (Bool-cases (e.equals j k)) [
    | inl same ↦
        let eq : p j ≡ p k = ap p ((e.equals_iff j k).0 same) in ground (arith, get-remove_if p t k)
    | inr other ↦ ground (arith, get-remove_if p t k)
  ]

  pub get-remove :
      (t : Table K V) (k j : K) → get (remove t k) j ≡ (if e.equals j k then none else get t j)
  unfolding remove
  get-remove t k j = get-remove_if (λ i. e.equals i k) t j
