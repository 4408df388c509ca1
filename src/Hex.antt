-- ===== src/Hex.antt =====
-- Hexadecimal text: `hex` of src/store.rs, which renders byte values, and `hex_decode` of
-- src/logs.rs, which reads the trace id of a log query.
pub mod RoundTrip
use otelview_postgres.Common.{
  ℕ, ◌+◌, ◌-◌, ◌*◌, ◌/◌, ◌%◌, Bool, true, not, ◌&&◌, Option, none, some, List, [], ◌∷◌, leb, ltb,
  ◌==◌, if◌then◌else◌, Bytes, Str, length,
}

unfoldable pub hex_digit : ℕ → ℕ
hex_digit n = if ltb n 10 then b'0' + n else b'a' + (n - 10)

-- `format!("{b:02x}")` of each byte
unfoldable pub hex : Bytes → Str
unfolding hex_digit
hex [] = []
hex (b ∷ bytes) = hex_digit (b / 16) ∷ hex_digit (b % 16) ∷ hex bytes

-- What a call that can panic comes to.
pub data Outcome {ℓ} (A : Type ℓ) : Type ℓ where
  returned : A → Outcome A
  panicked : Outcome A

-- `char::to_digit(16)` on an ASCII character
unfoldable pub to_digit : ℕ → Option ℕ
to_digit c =
    if leb b'0' c && leb c b'9'
    then some (c - b'0')
    else if leb b'a' c && leb c b'f'
    then some (c - b'a' + 10)
    else if leb b'A' c && leb c b'F'
    then some (c - b'A' + 10)
    else none

abbrev two_digits : Option ℕ → Option ℕ → Option ℕ
two_digits (some h) (some l) = some (16 * h + l)
two_digits _ _ = none

-- `u8::from_str_radix(s, 16)` on two bytes; a leading plus sign is accepted.
unfoldable pub from_str_radix : ℕ → ℕ → Option ℕ
unfolding to_digit
from_str_radix a b = if a == b'+' then to_digit b else two_digits (to_digit a) (to_digit b)

-- No character begins at a continuation byte of UTF-8.
unfoldable pub is_char_boundary : Str → Bool
is_char_boundary [] = true
is_char_boundary (c ∷ rest) = not (leb 128 c && ltb c 192)

abbrev push : ℕ → Outcome (Option Bytes) → Outcome (Option Bytes)
push v (returned (some bytes)) = returned (some (v ∷ bytes))
push v (returned none) = returned none
push v panicked = panicked

-- The iterator of `hex_decode`: a slice off a character boundary panics, and the first pair that
-- is no number ends it.
unfoldable pub decode_pairs : Str → Outcome (Option Bytes)
decode_pairs [] = returned (some [])
decode_pairs (a ∷ []) = panicked
decode_pairs (a ∷ b ∷ rest) =
    let tail = decode_pairs rest in
    if is_char_boundary (a ∷ b ∷ rest) && is_char_boundary rest
    then elim (from_str_radix a b) [ none ↦ returned none | some v ↦ push v tail ]
    else panicked

unfoldable pub hex_decode : Str → Outcome (Option Bytes)
unfolding decode_pairs
hex_decode s = if length s % 2 == 0 then decode_pairs s else returned none
