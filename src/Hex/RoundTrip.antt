-- ===== src/Hex/RoundTrip.antt =====
-- `hex_decode` inverts `hex`, and where it panics.
use otelview_postgres.Common.{
  ℕ, ◌*◌, ◌/◌, ◌%◌, ◌<◌, ◌≡◌, ◌≢◌, refl, ap, true, false, Option, none, some, [], ◌∷◌, leb, ltb,
  ◌==◌, Bytes, Str, length, All, arith, Bool-cases, inl, inr, ==_iff,
}
use otelview_postgres.Hex.{
  Outcome, returned, panicked, hex_digit, hex, to_digit, from_str_radix, is_char_boundary, push,
  decode_pairs, hex_decode,
}

abbrev pub IsByte : ℕ → Type 0
IsByte b = b < 256

abbrev pub IsAscii : ℕ → Type 0
IsAscii c = c < 128

to_digit-hex_digit : (n : ℕ) → n < 16 → to_digit (hex_digit n) ≡ some n
unfolding to_digit hex_digit
to_digit-hex_digit n h = ground arith

hex_digit-lt : (n : ℕ) → n < 16 → hex_digit n < 128
unfolding hex_digit
hex_digit-lt n h = ground arith

hex_digit-ne-plus : (n : ℕ) → (hex_digit n == b'+') ≡ false
unfolding hex_digit
hex_digit-ne-plus n = ground arith

from_str_radix-hex_digit :
    (b : ℕ) → b < 256 → from_str_radix (hex_digit (b / 16)) (hex_digit (b % 16)) ≡ some b
unfolding from_str_radix
from_str_radix-hex_digit b h =
    rw
      (
        hex_digit-ne-plus (b / 16),
        to_digit-hex_digit (b / 16) (omega arith),
        to_digit-hex_digit (b % 16) (omega arith),
      )
      (ap some (omega arith))

is_char_boundary-cons : (c : ℕ) (s : Str) → c < 128 → is_char_boundary (c ∷ s) ≡ true
unfolding is_char_boundary
is_char_boundary-cons c s h = ground arith

is_char_boundary-hex : (bytes : Bytes) → All IsByte bytes → is_char_boundary (hex bytes) ≡ true
unfolding is_char_boundary hex
is_char_boundary-hex [] h = refl
is_char_boundary-hex (b ∷ bytes) h =
    unfold is_char_boundary in ground (arith, hex_digit-lt (b / 16) (omega arith))

even-test : (n : ℕ) → (2 * n % 2 == 0) ≡ true
even-test n = ground arith

length-hex : (bytes : Bytes) → length (hex bytes) ≡ 2 * length bytes
unfolding hex
length-hex [] = omega arith
length-hex (b ∷ bytes) = omega (arith, length-hex bytes)

decode_pairs_step :
    (a b : ℕ) (rest : Str)
    → is_char_boundary (a ∷ b ∷ rest) ≡ true
    → is_char_boundary rest ≡ true
    → decode_pairs (a ∷ b ∷ rest)
      ≡ (elim (from_str_radix a b) [ none ↦ returned none | some v ↦ push v (decode_pairs rest) ])
unfolding decode_pairs
decode_pairs_step a b rest p q = rw (p, q)

decode_pairs-hex :
    (bytes : Bytes) → All IsByte bytes → decode_pairs (hex bytes) ≡ returned (some bytes)
unfolding hex
decode_pairs-hex [] h = unfold decode_pairs in refl
decode_pairs-hex (b ∷ bytes) h = rw (
  decode_pairs_step _ _ (hex bytes)
      (is_char_boundary-cons _ _ (hex_digit-lt (b / 16) (omega arith)))
      (is_char_boundary-hex bytes h.1),
  from_str_radix-hex_digit b h.0,
  decode_pairs-hex bytes h.1,
)

-- Every byte string comes back from its hexadecimal text.
pub hex_decode-hex :
    (bytes : Bytes) → All IsByte bytes → hex_decode (hex bytes) ≡ returned (some bytes)
unfolding hex_decode
hex_decode-hex bytes h = rw (length-hex bytes, even-test (length bytes)) (decode_pairs-hex bytes h)

-- A slice that ends inside a character panics: a first character of one byte, then a character
-- whose second byte falls outside the first pair, in a text of even length.
pub hex_decode-panics :
    (a b c : ℕ) (rest : Str)
    → IsAscii a
    → leb 128 c ≡ true
    → ltb c 192 ≡ true
    → length rest % 2 ≡ 1
    → hex_decode (a ∷ b ∷ c ∷ rest) ≡ panicked
unfolding hex_decode decode_pairs is_char_boundary
hex_decode-panics a b c rest ha hb hc even = ground arith

-- A text of ASCII characters never makes the decoder panic, whatever its length.
ascii-boundary : (s : Str) → All IsAscii s → is_char_boundary s ≡ true
ascii-boundary [] h = unfold is_char_boundary in refl
ascii-boundary (c ∷ s) h = is_char_boundary-cons c s h.0

abbrev Even : Str → Type 0
Even s = length s % 2 ≡ 0

step-ne-panicked :
    (v : Option ℕ) (r : Outcome (Option Bytes))
    → r ≢ panicked
    → elim v as (λ _. Outcome (Option Bytes)) [ none ↦ returned none | some x ↦ push x r ]
      ≢ panicked
step-ne-panicked v r h = ground arith

decode_pairs-ne-panicked : (s : Str) → All IsAscii s → Even s → decode_pairs s ≢ panicked
decode_pairs-ne-panicked [] h e = unfold decode_pairs in λ p. cc
decode_pairs-ne-panicked (a ∷ []) h e = absurd (omega arith)
decode_pairs-ne-panicked (a ∷ b ∷ rest) h e =
    rw (decode_pairs_step a b rest (is_char_boundary-cons a _ h.0) (ascii-boundary rest h.1.1)) (
      step-ne-panicked (from_str_radix a b) (decode_pairs rest)
        (decode_pairs-ne-panicked rest h.1.1 (omega arith)))

pub hex_decode-ne-panicked : (s : Str) → All IsAscii s → hex_decode s ≢ panicked
unfolding hex_decode
hex_decode-ne-panicked s h = elim (Bool-cases (length s % 2 == 0)) [
  | inl even ↦ rw even (decode_pairs-ne-panicked s h ((==_iff _ 0).0 even))
  | inr odd ↦ rw odd (λ p. cc)
]
