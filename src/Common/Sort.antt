-- ===== src/Common/Sort.antt =====
-- `[...].sort()`: texts in the order of their code units. An insertion sort; any stable sort by a
-- total order gives the same list.
use mathlib.Core.List.{Permᴰ}
use author.Common.{◌≡◌, refl, ◌∙◌, true, false, List, [], ◌∷◌, arith, Text, text_le}

unfoldable pub insert_text : Text → List Text → List Text
insert_text s [] = s ∷ []
insert_text s (t ∷ ts) =
    let rest = insert_text s ts in elim (text_le s t) [ true ↦ s ∷ t ∷ ts | false ↦ t ∷ rest ]

unfoldable pub sort_texts : List Text → List Text
unfolding insert_text
sort_texts [] = []
sort_texts (s ∷ ss) = insert_text s (sort_texts ss)

text_le_antisymm : (s t : Text) → text_le s t ≡ true → text_le t s ≡ true → s ≡ t
unfolding text_le
text_le_antisymm [] [] h k = refl
text_le_antisymm [] (b ∷ t) h k = ground arith
text_le_antisymm (a ∷ s) [] h k = ground arith
text_le_antisymm (a ∷ s) (b ∷ t) h k = ground (arith, text_le_antisymm s t)

text_le_total : (s t : Text) → text_le s t ≡ false → text_le t s ≡ true
unfolding text_le
text_le_total [] t h = ground arith
text_le_total (a ∷ s) [] h = refl
text_le_total (a ∷ s) (b ∷ t) h = ground (arith, text_le_total s t)

text_le_trans : (s t u : Text) → text_le s t ≡ true → text_le t u ≡ true → text_le s u ≡ true
unfolding text_le
text_le_trans [] t u h k = refl
text_le_trans (a ∷ s) [] u h k = ground arith
text_le_trans (a ∷ s) (b ∷ t) [] h k = ground arith
text_le_trans (a ∷ s) (b ∷ t) (c ∷ u) h k = ground (arith, text_le_trans s t u)

insert_text_comm :
    (s t : Text) (us : List Text)
    → insert_text s (insert_text t us) ≡ insert_text t (insert_text s us)
unfolding insert_text
insert_text_comm s t [] = ground (arith, text_le_antisymm s t, text_le_total s t, text_le_total t s)
insert_text_comm s t (u ∷ us) = ground (
  arith,
  text_le_antisymm s t,
  text_le_total s t,
  text_le_total t s,
  text_le_trans s t u,
  text_le_trans t s u,
  insert_text_comm s t us,
)

-- The sorted list does not depend on the order of the items.
pub sort_texts-Permᴰ : {ss ts : List Text} → Permᴰ ss ts → sort_texts ss ≡ sort_texts ts
unfolding sort_texts
sort_texts-Permᴰ Permᴰ.nil = refl
sort_texts-Permᴰ (Permᴰ.cons p h) = cc (p, sort_texts-Permᴰ h)
sort_texts-Permᴰ (Permᴰ.swap {a} {b} {l} p q) = cc (p, q, insert_text_comm a b (sort_texts l))
sort_texts-Permᴰ (Permᴰ.trans h k) = sort_texts-Permᴰ h ∙ sort_texts-Permᴰ k
