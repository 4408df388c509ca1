-- ===== src/Retention/Parse.antt =====
-- `parse_retention` of src/retention.rs. A text is the list of its characters here. Lowercasing beyond
-- ASCII belongs to the Unicode tables of the standard library, so it is an argument. Arithmetic on `u64` wraps, as
-- in a release build.
use mathlib.Core.List.{reverse}
use otelview_postgres.Common.{
  ℕ, ◌+◌, ◌-◌, ◌*◌, ◌%◌, ◌^◌, Bool, true, false, not, ◌&&◌, ◌||◌, Option, none, some, ite, [], ◌∷◌,
  leb, ltb, ◌==◌, if◌then◌else◌, Str, text, Bytes-discrete, select,
}

-- The White_Space characters.
unfoldable pub is_whitespace : ℕ → Bool
is_whitespace c =
    (leb 0x9 c && leb c 0xd)
    || (c == 0x20)
    || (c == 0x85)
    || (c == 0xa0)
    || (c == 0x1680)
    || (leb 0x2000 c && leb c 0x200a)
    || (c == 0x2028)
    || (c == 0x2029)
    || (c == 0x202f)
    || (c == 0x205f)
    || (c == 0x3000)

unfoldable pub trim_start : Str → Str
trim_start [] = []
trim_start (c ∷ s) = let rest = trim_start s in if is_whitespace c then rest else c ∷ s

unfoldable pub trim : Str → Str
unfolding trim_start
trim s = reverse (trim_start (reverse (trim_start s)))

-- `raw.trim().to_lowercase().replace(' ', "")`
unfoldable pub normalize : (Str → Str) → Str → Str
normalize to_lowercase raw = select (λ c. not (c == b' ')) (to_lowercase (trim raw))

abbrev pub is_digit : ℕ → Bool
is_digit c = leb b'0' c && leb c b'9'

-- The text before the first character that is no digit, and from there on.
unfoldable pub split_digits : Str → Str × Str
split_digits [] = ([], [])
split_digits (c ∷ s) =
    let rest = split_digits s in if is_digit c then (c ∷ rest.0, rest.1) else ([], c ∷ s)

abbrev pub u64_limit : ℕ
u64_limit = 2 ^ 64

-- `str::parse::<u64>` of digits: each step is checked.
unfoldable pub parse_digits : ℕ → Str → Option ℕ
parse_digits n [] = some n
parse_digits n (c ∷ s) =
    let next = n * 10 + (c - b'0') in
    let rest = parse_digits next s in if ltb next u64_limit then rest else none

unfoldable pub parse_u64 : Str → Option ℕ
parse_u64 [] = none
parse_u64 (c ∷ s) = parse_digits 0 (c ∷ s)

-- `unit.trim_end_matches('s')`
unfoldable pub trim_end_s : Str → Str
trim_end_s [] = []
trim_end_s (c ∷ s) =
    let rest = trim_end_s s in
    elim rest [ [] ↦ (if c == b's' then [] else c ∷ []) | d ∷ r ↦ c ∷ d ∷ r ]

abbrev is_text : Str → Str → Bool
is_text s t = ite (Bytes-discrete s t) true false

-- The hours of one unit.
unfoldable pub unit_hours : Str → Option ℕ
unit_hours unit =
    if is_text unit (text "h") || is_text unit (text "hour")
    then some 1
    else if is_text unit (text "d") || is_text unit (text "day")
    then some 24
    else if is_text unit (text "w") || is_text unit (text "week")
    then some 168
    else if is_text unit (text "m") || is_text unit (text "mo") || is_text unit (text "month")
    then some 720
    else none

pub data Refusal : Type 0 where
  no_unit no_number is_zero unknown_unit : Refusal

-- A duration in seconds, or why there is none.
pub data Parsed : Type 0 where
  seconds : ℕ → Parsed
  refused : Refusal → Parsed

abbrev pub times_unit : ℕ → Option ℕ → Parsed
times_unit n none = refused unknown_unit
times_unit n (some hours) = seconds (n * hours % u64_limit * 3600 % u64_limit)

abbrev pub checked_number : Str → Option ℕ → Parsed
checked_number unit none = refused no_number
checked_number unit (some n) =
    if n == 0 then refused is_zero else times_unit n (unit_hours (trim_end_s unit))

abbrev pub from_parts : Str × Str → Parsed
from_parts (digits, []) = refused no_unit
from_parts (digits, c ∷ unit) = checked_number (c ∷ unit) (parse_u64 digits)

unfoldable pub parse_retention : (Str → Str) → Str → Parsed
unfolding normalize split_digits parse_u64 trim_end_s
parse_retention to_lowercase raw = from_parts (split_digits (normalize to_lowercase raw))
