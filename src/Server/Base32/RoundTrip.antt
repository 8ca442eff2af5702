-- ===== src/Server/Base32/RoundTrip.antt =====
-- Decoding what was encoded.
use author.Common.{
  ℕ, zero, suc, ◌+◌, ◌-◌, ◌*◌, ◌%◌, ◌^◌, ◌≤◌, ◌<◌, ◌≡◌, refl, ap, ◌∙◌, Bool, true, false, Option,
  none, some, List, [], ◌∷◌, Text, ltb, leb, ◌==◌, All, arith, Bool-cases, inl, inr, ◌&&◌, ◌||◌,
  not, keep_if, is_space, All-append,
}
use author.Server.Base32.{
  base32_alphabet, char_at, index_of, symbol, shift_left, shift_right, emit, encode_from,
  base32_encode, decode_from, base32_decode, clean_secret,
}

-- A test of all numbers below a bound.
abbrev all_below : (ℕ → Bool) → ℕ → Bool
all_below p zero = true
all_below p (suc n) = p n && all_below p n

all_below_lem : (p : ℕ → Bool) (n i : ℕ) → all_below p n ≡ true → i < n → p i ≡ true
all_below_lem p zero i h k = absurd (omega arith)
all_below_lem p (suc n) i h k = elim (Bool-cases (ltb i n)) [
  | inl below ↦ all_below_lem p n i (ground arith) (ground arith)
  | inr other ↦ let same : i ≡ n = ground arith in rw same (ground arith)
]

abbrev is_index : Option ℕ → ℕ → Bool
is_index none n = false
is_index (some i) n = i == n

is_index-some : (o : Option ℕ) (n : ℕ) → is_index o n ≡ true → o ≡ some n
is_index-some none n h = absurd (cc)
is_index-some (some i) n h = let same : i ≡ n = ground arith in ap {B = Option ℕ} (λ k. some k) same

symbols_found :
    all_below (λ n. is_index (index_of (char_at n base32_alphabet) base32_alphabet) n) 32 ≡ true
unfolding index_of char_at
symbols_found = refl

index_of-symbol : (x : ℕ) → index_of (symbol x) base32_alphabet ≡ some (x % 32)
index_of-symbol x = is_index-some (index_of (symbol x) base32_alphabet) (x % 32) (
    all_below_lem (λ n. is_index (index_of (char_at n base32_alphabet) base32_alphabet) n) 32
      (x % 32) symbols_found (omega arith))

abbrev add_byte : ℕ → Option (List ℕ) → Option (List ℕ)
add_byte b none = none
add_byte b (some bytes) = some (b ∷ bytes)

abbrev grown : ℕ → ℕ → ℕ
grown buffer x = shift_left buffer 5 + x % 32

decode_part :
    (bits buffer x : ℕ) (s : Text)
    → bits < 3
    → decode_from bits buffer (symbol x ∷ s) ≡ decode_from (bits + 5) (grown buffer x) s
unfolding decode_from
decode_part bits buffer x s h =
    let short : leb 8 (bits + 5) ≡ false = ground arith in
    rw (decode_from, index_of-symbol x, short) refl

decode_whole :
    (bits buffer x : ℕ) (s : Text)
    → 3 ≤ bits
    → decode_from bits buffer (symbol x ∷ s)
      ≡ add_byte
          (shift_right (grown buffer x) (bits + 5 - 8) % 256)
          (decode_from (bits + 5 - 8) (grown buffer x) s)
unfolding decode_from
decode_whole bits buffer x s h =
    let full : leb 8 (bits + 5) ≡ true = ground arith in
    rw (decode_from, index_of-symbol x, full) refl

abbrev pub IsByte : ℕ → Type 0
IsByte b = b < 256

-- What the decoder gives of the text that the encoder makes, from each state that the two are in together:
-- the bits that the encoder keeps, with those that the decoder keeps, are the byte `p` that is under way.
abbrev Part : ℕ → ℕ → List ℕ → Type 0
Part kept left bytes =
    (value buffer p : ℕ)
    → (buffer % 2 ^ left) * 2 ^ kept + value % 2 ^ kept ≡ p
    → decode_from left buffer (encode_from kept value bytes) ≡ some (p ∷ bytes)

abbrev Whole : List ℕ → Type 0
Whole bytes = (value buffer : ℕ) → decode_from 0 buffer (encode_from 0 value bytes) ≡ some bytes

abbrev next_value : ℕ → ℕ → ℕ
next_value value byte = shift_left value 8 + byte

step_0 : (b : ℕ) (bytes : List ℕ) → IsByte b → Part 3 5 bytes → Whole (b ∷ bytes)
unfolding encode_from emit
step_0 b bytes small next value buffer =
    let v = next_value value b in
    let x = shift_right v 3 in
    decode_part 0 buffer x (encode_from 3 v bytes) (omega arith)
    ∙ next v (grown buffer x) b (omega arith)

step_3 : (b : ℕ) (bytes : List ℕ) → IsByte b → Part 1 7 bytes → Part 3 5 (b ∷ bytes)
unfolding encode_from emit
step_3 b bytes small next value buffer p e =
    let v = next_value value b in
    let x = shift_right v 6 in
    let y = shift_right v 1 in
    decode_whole 5 buffer x (symbol y ∷ encode_from 1 v bytes) (omega arith)
    ∙ ap (add_byte _) (
        decode_part 2 (grown buffer x) y (encode_from 1 v bytes) (omega arith)
        ∙ next v (grown (grown buffer x) y) b (omega arith))
    ∙ ap (λ q. some (q ∷ b ∷ bytes)) (omega arith)

step_1 : (b : ℕ) (bytes : List ℕ) → IsByte b → Part 4 4 bytes → Part 1 7 (b ∷ bytes)
unfolding encode_from emit
step_1 b bytes small next value buffer p e =
    let v = next_value value b in
    let x = shift_right v 4 in
    decode_whole 7 buffer x (encode_from 4 v bytes) (omega arith)
    ∙ ap (add_byte _) (next v (grown buffer x) b (omega arith))
    ∙ ap (λ q. some (q ∷ b ∷ bytes)) (omega arith)

step_4 : (b : ℕ) (bytes : List ℕ) → IsByte b → Part 2 6 bytes → Part 4 4 (b ∷ bytes)
unfolding encode_from emit
step_4 b bytes small next value buffer p e =
    let v = next_value value b in
    let x = shift_right v 7 in
    let y = shift_right v 2 in
    decode_whole 4 buffer x (symbol y ∷ encode_from 2 v bytes) (omega arith)
    ∙ ap (add_byte _) (
        decode_part 1 (grown buffer x) y (encode_from 2 v bytes) (omega arith)
        ∙ next v (grown (grown buffer x) y) b (omega arith))
    ∙ ap (λ q. some (q ∷ b ∷ bytes)) (omega arith)

step_2 : (b : ℕ) (bytes : List ℕ) → IsByte b → Whole bytes → Part 2 6 (b ∷ bytes)
unfolding encode_from emit
step_2 b bytes small next value buffer p e =
    let v = next_value value b in
    let x = shift_right v 5 in
    let y = shift_right v 0 in
    decode_whole 6 buffer x (symbol y ∷ encode_from 0 v bytes) (omega arith)
    ∙ ap (add_byte _) (
        decode_whole 3 (grown buffer x) y (encode_from 0 v bytes) (omega arith)
        ∙ ap (add_byte _) (next v (grown (grown buffer x) y))
        ∙ ap (λ q. some (q ∷ bytes)) (omega arith))
    ∙ ap (λ q. some (q ∷ b ∷ bytes)) (omega arith)

end_3 : Part 3 5 []
unfolding encode_from decode_from
end_3 value buffer p e =
    decode_whole 5 buffer (shift_left value 2) [] (omega arith)
    ∙ ap (λ q. some (q ∷ [])) (omega arith)

end_1 : Part 1 7 []
unfolding encode_from decode_from
end_1 value buffer p e =
    decode_whole 7 buffer (shift_left value 4) [] (omega arith)
    ∙ ap (λ q. some (q ∷ [])) (omega arith)

end_4 : Part 4 4 []
unfolding encode_from decode_from
end_4 value buffer p e =
    decode_whole 4 buffer (shift_left value 1) [] (omega arith)
    ∙ ap (λ q. some (q ∷ [])) (omega arith)

end_2 : Part 2 6 []
unfolding encode_from decode_from
end_2 value buffer p e =
    decode_whole 6 buffer (shift_left value 3) [] (omega arith)
    ∙ ap (λ q. some (q ∷ [])) (omega arith)

-- All states at once.
abbrev Works : List ℕ → Type 0
Works bytes = Whole bytes × Part 3 5 bytes × Part 1 7 bytes × Part 4 4 bytes × Part 2 6 bytes

works : (bytes : List ℕ) → All IsByte bytes → Works bytes
unfolding encode_from decode_from
works [] all = (λ value buffer. refl, end_3, end_1, end_4, end_2)
works (b ∷ bytes) (small, all) =
    let (whole, part_3, part_1, part_4, part_2) = works bytes all in
    (
      step_0 b bytes small part_3,
      step_3 b bytes small part_1,
      step_1 b bytes small part_4,
      step_4 b bytes small part_2,
      step_2 b bytes small whole,
    )

-- A character of the alphabet.
abbrev pub IsSymbol : ℕ → Type 0
IsSymbol c = (n : ℕ) × (n < 32) × (c ≡ char_at n base32_alphabet)

emit-IsSymbol : (fuel bits value : ℕ) → All IsSymbol (emit fuel bits value).0
unfolding emit
emit-IsSymbol zero bits value = tt
emit-IsSymbol (suc fuel) bits value = elim (Bool-cases (leb 5 bits)) [
  | inl more ↦
      rw more (
        (shift_right value (bits - 5) % 32, omega arith, refl),
        emit-IsSymbol fuel (bits - 5) value,
      )
  | inr done ↦ rw done tt
]

encode_from-IsSymbol :
    (bits value : ℕ) (bytes : List ℕ) → All IsSymbol (encode_from bits value bytes)
unfolding encode_from
encode_from-IsSymbol bits value [] = elim (Bool-cases (ltb 0 bits)) [
  | inl more ↦ rw more ((shift_left value (5 - bits) % 32, omega arith, refl), tt)
  | inr done ↦ rw done tt
]
encode_from-IsSymbol bits value (b ∷ bytes) =
    All-append IsSymbol (emit (bits + 8) (bits + 8) (next_value value b)).0
      (encode_from (emit (bits + 8) (bits + 8) (next_value value b)).1 (next_value value b) bytes)
      (emit-IsSymbol (bits + 8) (bits + 8) (next_value value b))
      (encode_from-IsSymbol (emit (bits + 8) (bits + 8) (next_value value b)).1 (next_value value b)
        bytes)

abbrev is_kept : ℕ → Bool
is_kept c = not (is_space c || c == 61)

symbols_kept : all_below (λ n. is_kept (char_at n base32_alphabet)) 32 ≡ true
unfolding char_at is_space
symbols_kept = refl

keep_symbols : (s : Text) → All IsSymbol s → keep_if is_kept s ≡ s
keep_symbols [] all = refl
keep_symbols (c ∷ s) ((n, below, e), all) =
    let kept : is_kept c ≡ true =
      ap is_kept e
      ∙ all_below_lem (λ n. is_kept (char_at n base32_alphabet)) 32 n symbols_kept below in
    rw (keep_if, kept) (ap {B = Text} (λ r. c ∷ r) (keep_symbols s all))

decode_clean :
    (to_upper_case : Text → Text) (value : Text) (c : ℕ) (s : Text)
    → clean_secret to_upper_case value ≡ c ∷ s
    → base32_decode to_upper_case value ≡ decode_from 0 0 (c ∷ s)
unfolding base32_decode
decode_clean to_upper_case value c s e = rw (base32_decode, e) refl

-- What is encoded decodes to itself: `base32Decode` gives the bytes of `base32Encode`, any number of them
-- but 0, each below 256, where `toUpperCase` leaves the letters A to Z and the digits 2 to 7 alone.
pub base32_decode-base32_encode :
    (to_upper_case : Text → Text) (b : ℕ) (bytes : List ℕ)
    → ((s : Text) → All IsSymbol s → to_upper_case s ≡ s)
    → All IsByte (b ∷ bytes)
    → base32_decode to_upper_case (base32_encode (b ∷ bytes)) ≡ some (b ∷ bytes)
unfolding base32_encode clean_secret encode_from emit
base32_decode-base32_encode to_upper_case b bytes upper all =
    let symbols = encode_from-IsSymbol 0 0 (b ∷ bytes) in
    let clean : clean_secret to_upper_case (encode_from 0 0 (b ∷ bytes))
        ≡ encode_from 0 0 (b ∷ bytes) =
      ap (keep_if is_kept) (upper (encode_from 0 0 (b ∷ bytes)) symbols)
      ∙ keep_symbols (encode_from 0 0 (b ∷ bytes)) symbols in
    let v = next_value 0 b in
    decode_clean to_upper_case (encode_from 0 0 (b ∷ bytes)) (symbol (shift_right v 3))
      (encode_from 3 v bytes) clean
    ∙ (works (b ∷ bytes) all).0 0 0
