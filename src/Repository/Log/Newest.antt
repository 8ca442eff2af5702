-- ===== src/Repository/Log/Newest.antt =====
-- The newest change of a record in `entity_changes`.
use mathlib.Core.List.{reverse_aux, Memᴰ}
use mathlib.Core.Bool.{false≢true}
use author.Common.{
  ℕ, ◌≤◌, ◌<◌, ◌≡◌, refl, ap, sym, ◌∙◌, Bool, true, some, List, [], ◌∷◌, keep_if, find, any, All,
  arith, Bool-cases, inl, inr, subst,
}
use author.Repository.Store.{Change, EntityKey, entity_key_eq, entity_key_eq_iff}
use author.Repository.Log.{IsOrdered, max_revision}

module _ {A : Type 0} where
  pub keep_if-Memᴰ :
      (p : A → Bool) (xs : List A) (x : A) → p x ≡ true → Memᴰ x xs → Memᴰ x (keep_if p xs)
  keep_if-Memᴰ p [] x h m = elim m [ ]
  keep_if-Memᴰ p (y ∷ xs) x h (Memᴰ.head e) =
      let t : p y ≡ true = ap p (sym e) ∙ h in rw (t, keep_if) (Memᴰ.head e)
  keep_if-Memᴰ p (y ∷ xs) x h (Memᴰ.tail m) = elim (Bool-cases (p y)) [
    | inl t ↦ rw (t, keep_if) (Memᴰ.tail (keep_if-Memᴰ p xs x h m))
    | inr f ↦ rw (f, keep_if) (keep_if-Memᴰ p xs x h m)
  ]

  pub reverse_aux-Memᴰ_right : (xs ys : List A) (x : A) → Memᴰ x ys → Memᴰ x (reverse_aux xs ys)
  reverse_aux-Memᴰ_right [] ys x m = m
  reverse_aux-Memᴰ_right (y ∷ xs) ys x m = reverse_aux-Memᴰ_right xs (y ∷ ys) x (Memᴰ.tail m)

  pub reverse_aux-Memᴰ : (xs ys : List A) (x : A) → Memᴰ x xs → Memᴰ x (reverse_aux xs ys)
  reverse_aux-Memᴰ [] ys x m = elim m [ ]
  reverse_aux-Memᴰ (y ∷ xs) ys x (Memᴰ.head e) = reverse_aux-Memᴰ_right xs (y ∷ ys) x (Memᴰ.head e)
  reverse_aux-Memᴰ (y ∷ xs) ys x (Memᴰ.tail m) = reverse_aux-Memᴰ xs (y ∷ ys) x m

  pub find-Memᴰ :
      (p : A → Bool) (xs : List A) (x : A) → find p xs ≡ some x → Memᴰ x xs × (p x ≡ true)
  find-Memᴰ p [] x e = absurd (cc)
  find-Memᴰ p (y ∷ xs) x e = elim (Bool-cases (p y)) [
    | inl t ↦ let same : x ≡ y = ground arith in (Memᴰ.head same, rw same t)
    | inr f ↦ let (m, t) = find-Memᴰ p xs x (rw (f, find) at e) in (Memᴰ.tail m, t)
  ]

  pub All-keep_if_test : (p : A → Bool) (xs : List A) → All (λ x. p x ≡ true) (keep_if p xs)
  All-keep_if_test p [] = tt
  All-keep_if_test p (x ∷ xs) = ground (arith, All-keep_if_test p xs)

  pub any-Memᴰ : (p : A → Bool) (xs : List A) (x : A) → Memᴰ x xs → p x ≡ true → any p xs ≡ true
  any-Memᴰ p [] x m t = elim m [ ]
  any-Memᴰ p (y ∷ xs) x (Memᴰ.head e) t = let s : p y ≡ true = ap p (sym e) ∙ t in ground arith
  any-Memᴰ p (y ∷ xs) x (Memᴰ.tail m) t = let s = any-Memᴰ p xs x m t in ground arith

  pub find-keep_if :
      (p q : A → Bool) (xs : List A)
      → ((x : A) → find p xs ≡ some x → q x ≡ true)
      → find p (keep_if q xs) ≡ find p xs
  find-keep_if p q [] h = refl
  find-keep_if p q (x ∷ xs) h = elim (Bool-cases (p x)) [
    | inl t ↦ let kept = h x (ground arith) in rw (kept, keep_if) (ground arith)
    | inr f ↦ let rest = find-keep_if p q xs (λ y e. h y (ground arith)) in ground arith
  ]

  pub All-keep_if_of :
      (P : A → Type 0) (p : A → Bool) (xs : List A) → All P xs → All P (keep_if p xs)
  All-keep_if_of P p [] h = tt
  All-keep_if_of P p (x ∷ xs) (t, h) = ground (arith, All-keep_if_of P p xs h)

pub All-zip :
    {A : Type 0} {P Q R : A → Type 0}
    → ((x : A) → P x → Q x → R x)
    → (xs : List A) → All P xs
    → All Q xs
    → All R xs
All-zip f [] h k = tt
All-zip f (x ∷ xs) (p, h) (q, k) = (f x p q, All-zip f xs h k)

-- The newest change of a record in an ordered log is newer than the others.
abbrev pub Newest : (Change → Bool) → Change → Change → Type 0
Newest p c d = p d ≡ true → (d.revision ≤ c.revision) × (d.revision ≡ c.revision → d ≡ c)

pub IsOrdered-All :
    (bound : ℕ) (cs : List Change) → IsOrdered bound cs → All (λ d. d.revision < bound) cs
IsOrdered-All bound [] h = tt
IsOrdered-All bound (c ∷ cs) (lt, h) = (lt, All-weaken cs (IsOrdered-All c.revision cs h))
  where
    All-weaken :
        (ds : List Change)
        → All (λ d. d.revision < c.revision) ds
        → All (λ d. d.revision < bound) ds
    All-weaken [] k = tt
    All-weaken (d ∷ ds) (k, ks) = (omega arith, All-weaken ds ks)

pub All-Newest_of_lt :
    (p : Change → Bool) (c : Change) (cs : List Change)
    → All (λ d. d.revision < c.revision) cs
    → All (Newest p c) cs
All-Newest_of_lt p c [] h = tt
All-Newest_of_lt p c (d ∷ cs) (lt, h) =
    (λ _. (omega arith, λ e. absurd (omega arith)), All-Newest_of_lt p c cs h)

pub find-Newest :
    (p : Change → Bool) (bound : ℕ) (cs : List Change) (c : Change)
    → IsOrdered bound cs
    → find p cs ≡ some c
    → All (Newest p c) cs
find-Newest p bound [] c h e = tt
find-Newest p bound (d ∷ cs) c (lt, h) e = elim (Bool-cases (p d)) [
  | inl t ↦
      let same : d ≡ c = ground arith in
      (
        λ _. (rw same (omega arith), λ _. same),
        All-Newest_of_lt p c cs (
            subst (λ (x : Change). All (λ f. f.revision < x.revision) cs) same
              (IsOrdered-All d.revision cs h)),
      )
  | inr f ↦
      (λ t. absurd (false≢true (sym f ∙ t)), find-Newest p d.revision cs c h (rw (f, find) at e))
]

pub max_revision-le :
    (cs : List Change) (n : ℕ) → All (λ c. c.revision ≤ n) cs → max_revision cs ≤ n
max_revision-le [] n h = omega arith
max_revision-le (c ∷ cs) n (le, h) = omega (arith, max_revision-le cs n h)

pub le-max_revision : (cs : List Change) (c : Change) → Memᴰ c cs → c.revision ≤ max_revision cs
le-max_revision [] c m = elim m [ ]
le-max_revision (d ∷ cs) c (Memᴰ.head e) =
    let same = ap (λ (x : Change). x.revision) e in omega arith
le-max_revision (d ∷ cs) c (Memᴰ.tail m) = omega (arith, le-max_revision cs c m)

-- Where the newest change of a record is in a list that has none newer, it has the greatest revision.
pub max_revision-Newest :
    (key : EntityKey) (c : Change) (cs : List Change)
    → c.key ≡ key
    → Memᴰ c cs
    → All (Newest (λ d. entity_key_eq d.key key) c) cs
    → max_revision (keep_if (λ d. entity_key_eq d.key c.key) cs) ≡ c.revision
max_revision-Newest key c cs same m newest =
    let alike = λ (d : Change). entity_key_eq d.key c.key in
    let most = max_revision-le (keep_if alike cs) c.revision (
      All-zip
        (λ d t n.
          (n ((entity_key_eq_iff d.key key).1 ((entity_key_eq_iff d.key c.key).0 t ∙ same))).0)
        (keep_if alike cs) (All-keep_if_test alike cs)
        (All-keep_if_of (Newest (λ d. entity_key_eq d.key key) c) alike cs newest)) in
    let least =
      le-max_revision (keep_if alike cs) c
        (keep_if-Memᴰ alike cs c ((entity_key_eq_iff c.key c.key).1 refl) m) in
    omega arith
