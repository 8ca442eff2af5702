-- ===== src/Server/Base32.antt =====
-- `base32Encode` and `base32Decode` of auth.ts. A number that JavaScript shifts has 32
-- bits; it is held here as the natural number with the same bits.
pub mod RoundTrip
use author.Common.{
  ℕ, zero, suc, ◌+◌, ◌-◌, ◌*◌, ◌/◌, ◌%◌, ◌^◌, Bool, true, false, not, ◌||◌, ◌&&◌, Option, none,
  some, List, [], ◌∷◌, ◌++◌, Text, lit, keep_if, is_space, ltb, leb, ◌==◌, if◌then◌else◌,
}

abbrev pub base32_alphabet : Text
base32_alphabet = lit "ABCDEFGHIJKLMNOPQRSTUVWXYZ234567"

unfoldable pub char_at : ℕ → Text → ℕ
char_at n [] = 0
char_at zero (c ∷ s) = c
char_at (suc n) (c ∷ s) = char_at n s

-- `indexOf`, where -1 is `none`.
unfoldable pub index_of : ℕ → Text → Option ℕ
index_of c [] = none
index_of c (d ∷ s) =
    let rest = index_of c s in
    if d == c then some 0 else elim rest [ none ↦ none | some i ↦ some (suc i) ]

-- `value << n`, `value >>> n`
abbrev pub shift_left : ℕ → ℕ → ℕ
shift_left value n = (value * 2 ^ n) % 2 ^ 32

abbrev pub shift_right : ℕ → ℕ → ℕ
shift_right value n = value / 2 ^ n

abbrev pub symbol : ℕ → ℕ
symbol value = char_at (value % 32) base32_alphabet

-- The inner loop, with the bits that it leaves; the fuel is their number at first.
unfoldable pub emit : ℕ → ℕ → ℕ → Text × ℕ
emit zero bits value = ([], bits)
emit (suc fuel) bits value =
    let (later, left) = emit fuel (bits - 5) value in
    if leb 5 bits then (symbol (shift_right value (bits - 5)) ∷ later, left) else ([], bits)

unfoldable pub encode_from : ℕ → ℕ → List ℕ → Text
encode_from bits value [] = if ltb 0 bits then symbol (shift_left value (5 - bits)) ∷ [] else []
encode_from bits value (byte ∷ bytes) =
    let value' = (shift_left value 8) + byte in
    let (out, left) = emit (bits + 8) (bits + 8) value' in out ++ encode_from left value' bytes

unfoldable pub base32_encode : List ℕ → Text
base32_encode bytes = encode_from 0 0 bytes

unfoldable pub decode_from : ℕ → ℕ → Text → Option (List ℕ)
decode_from bits buffer [] = some []
decode_from bits buffer (c ∷ s) = elim (index_of c base32_alphabet) [
  | none ↦ none
  | some index ↦
      let buffer' = (shift_left buffer 5) + index in
      let full = leb 8 (bits + 5) in
      let rest = decode_from (if full then bits + 5 - 8 else bits + 5) buffer' s in
      if full
      then elim rest [
        | none ↦ none
        | some bytes ↦ some ((shift_right buffer' (bits + 5 - 8)) % 256 ∷ bytes)
      ]
      else rest
]

-- `toUpperCase` is a parameter.
unfoldable pub clean_secret : (Text → Text) → Text → Text
clean_secret to_upper_case value = keep_if (λ c. not (is_space c || c == 61)) (to_upper_case value)

unfoldable pub base32_decode : (Text → Text) → Text → Option (List ℕ)
base32_decode to_upper_case value = elim (clean_secret to_upper_case value) [
  | [] ↦ none
  | c ∷ s ↦ decode_from 0 0 (c ∷ s)
]
