-- ===== src/Common/Texts.antt =====
-- Texts as JavaScript has them, lists of UTF-16 code units, with the string methods that the program
-- calls: `===`, truthiness, `trim`, `slice`, `join`, and the order `<` by code units.
use Prim.Native.Nat.{ℕ, compare, Ordering}
use Prim.Native.Char.{code}
use Prim.Native.String.{String}
use mathlib.Core.Path.{◌≡◌, refl}
use mathlib.Core.Logic.{◌↔◌}
use mathlib.Core.Bool.{Bool, true, false, ◌&&◌, ◌||◌}
use mathlib.Core.Option.{Option, none, some}
use mathlib.Core.List.{List, [], ◌∷◌, ◌++◌, reverse}
use native.Mathlib.Omega.{arith}
use author.Common.Tests.{leb, ◌==◌, if◌then◌else◌, Eq}

abbrev pub Text : Type 0
Text = List ℕ

-- A literal: its code points are its code units, for the characters that the program's literals use.
abbrev pub lit : String → Text
lit String.[] = []
lit (String.◌∷◌ c s) = code c ∷ lit s

unfoldable pub text_eq : Text → Text → Bool
text_eq [] [] = true
text_eq (a ∷ s) (b ∷ t) = a == b && text_eq s t
text_eq _ _ = false

pub text_eq_iff : (s t : Text) → (text_eq s t ≡ true) ↔ (s ≡ t)
unfolding text_eq
text_eq_iff [] [] = (λ _. refl, λ _. refl)
text_eq_iff [] (b ∷ t) = ground arith
text_eq_iff (a ∷ s) [] = ground arith
text_eq_iff (a ∷ s) (b ∷ t) = ground (arith, text_eq_iff s t)

instance abbrev pub text_Eq : Eq Text
text_Eq = record { equals = text_eq; equals_iff = text_eq_iff }

-- A text is truthy if it is not empty, and a nullable one if it is there and not empty.
abbrev pub truthy : Text → Bool
truthy [] = false
truthy (_ ∷ _) = true

abbrev pub truthy? : Option Text → Bool
truthy? none = false
truthy? (some s) = truthy s

-- `===` on nullable texts
unfoldable pub text_eq? : Option Text → Option Text → Bool
text_eq? none none = true
text_eq? (some s) (some t) = text_eq s t
text_eq? _ _ = false

pub text_eq?_iff : (a b : Option Text) → (text_eq? a b ≡ true) ↔ (a ≡ b)
unfolding text_eq?
text_eq?_iff none none = (λ _. refl, λ _. refl)
text_eq?_iff none (some t) = ground arith
text_eq?_iff (some s) none = ground arith
text_eq?_iff (some s) (some t) = ground (arith, text_eq_iff s t)

-- White space and line terminators, as `trim` and `\s` have them.
unfoldable pub is_space : ℕ → Bool
is_space c =
    (leb 9 c && leb c 13)
    || c == 32
    || c == 160
    || c == 0x1680
    || (leb 0x2000 c && leb c 0x200a)
    || c == 0x2028
    || c == 0x2029
    || c == 0x202f
    || c == 0x205f
    || c == 0x3000
    || c == 0xfeff

unfoldable pub trim_start : Text → Text
unfolding is_space
trim_start [] = []
trim_start (c ∷ s) = elim (is_space c) [ true ↦ trim_start s | false ↦ c ∷ s ]

unfoldable pub trim : Text → Text
unfolding trim_start
trim s = reverse (trim_start (reverse (trim_start s)))

unfoldable pub join : Text → List Text → Text
join sep [] = []
join sep (s ∷ []) = s
join sep (s ∷ t ∷ ts) = s ++ sep ++ join sep (t ∷ ts)

-- `s <= t`, by code units
unfoldable pub text_le : Text → Text → Bool
text_le [] t = true
text_le (a ∷ s) [] = false
text_le (a ∷ s) (b ∷ t) =
    let rest = text_le s t in
    elim (compare a b) [ Ordering.lt ↦ true | Ordering.eq ↦ rest | Ordering.gt ↦ false ]

-- `s < t`
unfoldable pub text_lt : Text → Text → Bool
unfolding text_le
text_lt s t = text_le s t && (if text_eq s t then false else true)
