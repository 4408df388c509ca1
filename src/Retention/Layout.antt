-- ===== src/Retention/Layout.antt =====
-- How a retention is written: the texts that `parse_retention` accepts, from their characters on.
use mathlib.Core.List.{reverse, reverse-append, reverse-cons, reverse-reverse}
use otelview_postgres.Common.{
  ℕ, ◌+◌, ◌*◌, ◌^◌, ◌<◌, ◌≡◌, ◌≢◌, refl, ◌∙◌, sym, subst, Bool, true, false, not, ◌&&◌, ◌||◌, some,
  [], ◌∷◌, ◌++◌, leb, ltb, ◌==◌, if◌then◌else◌, Str, text, All, arith, ap, map, select,
  Bytes-discrete, All-append, select-append, map-append, append-nil,
}
use otelview_postgres.Retention.Parse.{
  is_whitespace, trim_start, trim, normalize, is_digit, trim_end_s, unit_hours, seconds,
  parse_retention,
}
use otelview_postgres.Retention.Units.{IsDigit, value, within_u64, wrapped_hours}

abbrev pub IsSpace : ℕ → Type 0
IsSpace c = is_whitespace c ≡ true

abbrev pub IsAscii : ℕ → Type 0
IsAscii c = ltb c 128 ≡ true

abbrev is_letter : ℕ → Bool
is_letter c = (leb b'A' c && leb c b'Z') || (leb b'a' c && leb c b'z')

abbrev pub IsLetter : ℕ → Type 0
IsLetter c = is_letter c ≡ true

abbrev pub ascii_lower : ℕ → ℕ
ascii_lower c = if leb b'A' c && leb c b'Z' then c + 32 else c

-- The names of the units.
pub data Name : Type 0 where
  just_h hour just_d day just_w week just_m mo month : Name

abbrev pub spelled : Name → Str
spelled just_h = text "h"
spelled hour = text "hour"
spelled just_d = text "d"
spelled day = text "day"
spelled just_w = text "w"
spelled week = text "week"
spelled just_m = text "m"
spelled mo = text "mo"
spelled month = text "month"

-- A day has 24 hours, a week 7 days, and a month 30.
abbrev pub hours_in : Name → ℕ
hours_in just_h = 1
hours_in hour = 1
hours_in just_d = 24
hours_in day = 24
hours_in just_w = 7 * 24
hours_in week = 7 * 24
hours_in just_m = 30 * 24
hours_in mo = 30 * 24
hours_in month = 30 * 24

All-reverse : (P : ℕ → Type 0) (s : Str) → All P s → All P (reverse s)
All-reverse P [] h = tt
All-reverse P (c ∷ s) h =
    subst (All P) (sym (reverse-cons c s))
      (All-append P (reverse s) (c ∷ []) (All-reverse P s h.1) (h.0, tt))

trim_start_spaces : (front s : Str) → All IsSpace front → trim_start (front ++ s) ≡ trim_start s
unfolding trim_start
trim_start_spaces [] s h = refl
trim_start_spaces (c ∷ front) s h = rw h.0 (trim_start_spaces front s h.1)

trim_start_at : (c : ℕ) (s : Str) → is_whitespace c ≡ false → trim_start (c ∷ s) ≡ c ∷ s
unfolding trim_start
trim_start_at c s h = rw h refl

digit_is_no_space : (c : ℕ) → IsDigit c → is_whitespace c ≡ false
unfolding is_whitespace
digit_is_no_space c h = ground (arith, h)

letter_is_no_space : (c : ℕ) → IsLetter c → is_whitespace c ≡ false
unfolding is_whitespace
letter_is_no_space c h = ground (arith, h)

trim_start_letters :
    (word s : Str) → word ≢ [] → All IsLetter word → trim_start (word ++ s) ≡ word ++ s
trim_start_letters [] s n h = absurd (n refl)
trim_start_letters (c ∷ word) s n h = trim_start_at c (word ++ s) (letter_is_no_space c h.0)

-- Spaces around a text go; it begins with a digit and ends with a word.
trim_layout :
    (front back word : Str) (x : ℕ) (s : Str)
    → All IsSpace front
    → All IsSpace back
    → IsDigit x
    → word ≢ []
    → All IsLetter word
    → trim (front ++ ((x ∷ s ++ word) ++ back)) ≡ x ∷ s ++ word
unfolding trim
trim_layout front back word x s before after digit n letters =
    let body : Str = x ∷ s ++ word in
    let turned : Str = reverse word ++ reverse (x ∷ s) in
    let never : reverse word ≢ [] = λ e. n (sym (reverse-reverse word) ∙ ap reverse e) in
    ap (λ t. reverse (trim_start (reverse t)))
      (trim_start_spaces front (body ++ back) before
        ∙ trim_start_at x ((s ++ word) ++ back) (digit_is_no_space x digit))
    ∙ ap (λ t. reverse (trim_start t)) (reverse-append body back)
    ∙ ap reverse (
        trim_start_spaces (reverse back) (reverse body) (All-reverse IsSpace back after)
        ∙ ap trim_start (reverse-append (x ∷ s) word)
        ∙ trim_start_letters (reverse word) (reverse (x ∷ s)) never
            (All-reverse IsLetter word letters)
        ∙ sym (reverse-append (x ∷ s) word))
    ∙ reverse-reverse body

abbrev not_blank : ℕ → Bool
not_blank c = not (c == b' ')

abbrev unspaced : Str → Str
unspaced = select not_blank

digits_stay : (s : Str) → All IsDigit s → unspaced (map ascii_lower s) ≡ s
digits_stay [] h = refl
digits_stay (c ∷ s) h = ground (arith, h.0, digits_stay s h.1)

blanks_go : (s : Str) → All (λ c. c ≡ b' ') s → unspaced (map ascii_lower s) ≡ []
blanks_go [] h = refl
blanks_go (c ∷ s) h = ground (arith, h.0, blanks_go s h.1)

letters_stay : (s : Str) → All IsLetter s → unspaced (map ascii_lower s) ≡ map ascii_lower s
letters_stay [] h = refl
letters_stay (c ∷ s) h = ground (arith, h.0, letters_stay s h.1)

All-weaken : (P Q : ℕ → Type 0) → ((c : ℕ) → P c → Q c) → (s : Str) → All P s → All Q s
All-weaken P Q f [] h = tt
All-weaken P Q f (c ∷ s) h = (f c h.0, All-weaken P Q f s h.1)

trim_end_s_plural : (plural : Str) → All (λ c. c ≡ b's') plural → trim_end_s plural ≡ []
unfolding trim_end_s
trim_end_s_plural [] h = refl
trim_end_s_plural (c ∷ plural) h = rw (trim_end_s_plural plural h.1, h.0) refl

trim_end_s-append :
    (s plural : Str) → All (λ c. c ≡ b's') plural → trim_end_s (s ++ plural) ≡ trim_end_s s
unfolding trim_end_s
trim_end_s-append [] plural h = trim_end_s_plural plural h
trim_end_s-append (c ∷ s) plural h = rw (trim_end_s-append s plural h) refl

unit_hours-spelled : (name : Name) → unit_hours (trim_end_s (spelled name)) ≡ some (hours_in name)
unfolding unit_hours trim_end_s Bytes-discrete
unit_hours-spelled just_h = refl
unit_hours-spelled hour = refl
unit_hours-spelled just_d = refl
unit_hours-spelled day = refl
unit_hours-spelled just_w = refl
unit_hours-spelled week = refl
unit_hours-spelled just_m = refl
unit_hours-spelled mo = refl
unit_hours-spelled month = refl

some_hours : (name : Name) → 0 < hours_in name
some_hours just_h = omega arith
some_hours hour = omega arith
some_hours just_d = omega arith
some_hours day = omega arith
some_hours just_w = omega arith
some_hours week = omega arith
some_hours just_m = omega arith
some_hours mo = omega arith
some_hours month = omega arith

starts : (name : Name) → (c : ℕ) × (unit : Str) × (spelled name ≡ c ∷ unit) × (is_digit c ≡ false)
starts just_h = (_, _, refl, refl)
starts hour = (_, _, refl, refl)
starts just_d = (_, _, refl, refl)
starts day = (_, _, refl, refl)
starts just_w = (_, _, refl, refl)
starts week = (_, _, refl, refl)
starts just_m = (_, _, refl, refl)
starts mo = (_, _, refl, refl)
starts month = (_, _, refl, refl)

-- A text of spaces, digits, blanks, a word and spaces, where the word in lower case is the name of a unit, with any number of `s` after it. Of
-- lowercasing it is known what it does to ASCII.
module _ (to_lowercase : Str → Str)
    (lowers : (s : Str) → All IsAscii s → to_lowercase s ≡ map ascii_lower s) (front : Str) (x : ℕ)
    (digits gap word back : Str) (name : Name) (plural : Str) (before : All IsSpace front)
    (numeric : All IsDigit (x ∷ digits)) (blank : All (λ c. c ≡ b' ') gap)
    (letters : All IsLetter word) (unit : map ascii_lower word ≡ spelled name ++ plural)
    (several : All (λ c. c ≡ b's') plural) (behind : All IsSpace back) where
  abbrev body : Str
  body = x ∷ (digits ++ gap) ++ word

  a_word : word ≢ []
  a_word e =
      let (c, rest, s, _) = starts name in
      let none_left : c ∷ rest ++ plural ≡ [] =
        ap (λ t. t ++ plural) (sym s) ∙ sym unit ∙ ap (map ascii_lower) e in
      absurd (cc)

  body-All-IsAscii : All IsAscii body
  body-All-IsAscii =
      All-append IsAscii ((x ∷ digits) ++ gap) word
        (All-append IsAscii (x ∷ digits) gap
          (All-weaken IsDigit IsAscii (λ c h. ground (arith, h)) (x ∷ digits) numeric)
          (All-weaken (λ c. c ≡ b' ') IsAscii (λ c h. ground (arith, h)) gap blank))
        (All-weaken IsLetter IsAscii (λ c h. ground (arith, h)) word letters)

  unspaced-body : unspaced (map ascii_lower body) ≡ (x ∷ digits) ++ (spelled name ++ plural)
  unspaced-body =
      let none_left : (x ∷ digits) ++ [] ≡ x ∷ digits = append-nil (x ∷ digits) in
      let number : unspaced (map ascii_lower ((x ∷ digits) ++ gap)) ≡ x ∷ digits =
        ap unspaced (map-append ascii_lower (x ∷ digits) gap)
        ∙ select-append not_blank (map ascii_lower (x ∷ digits)) (map ascii_lower gap)
        ∙ rw (digits_stay (x ∷ digits) numeric, blanks_go gap blank) none_left in
      let rest : unspaced (map ascii_lower word) ≡ spelled name ++ plural =
        letters_stay word letters ∙ unit in
      ap unspaced (map-append ascii_lower ((x ∷ digits) ++ gap) word)
      ∙ select-append not_blank (map ascii_lower ((x ∷ digits) ++ gap)) (map ascii_lower word)
      ∙ rw (number, rest) refl

  abbrev written : Str
  written = front ++ (body ++ back)

  normalize-written : normalize to_lowercase written ≡ (x ∷ digits) ++ (spelled name ++ plural)
  unfolding normalize
  normalize-written =
      ap (λ t. unspaced (to_lowercase t))
        (trim_layout front back word x (digits ++ gap) before behind numeric.0 a_word letters)
      ∙ ap unspaced (lowers body body-All-IsAscii)
      ∙ unspaced-body

  split_normal :
      normalize to_lowercase written ≡ x ∷ digits ++ (starts name).0 ∷ ((starts name).1 ++ plural)
  split_normal = normalize-written ∙ ap (λ t. x ∷ digits ++ (t ++ plural)) (starts name).2

  known_unit :
      unit_hours (trim_end_s ((starts name).0 ∷ ((starts name).1 ++ plural))) ≡ some (hours_in name)
  known_unit =
      ap (λ t. unit_hours (trim_end_s (t ++ plural))) (sym (starts name).2)
      ∙ ap unit_hours (trim_end_s-append (spelled name) plural several)
      ∙ unit_hours-spelled name

  -- Where lowercasing does to ASCII what it should, a positive number and a unit (h, hour, d, day, w, week, m, mo or month, in any case, and with any number of `s` after it), with blanks at most between
  -- them and white space at most around them, is that many times 1, 24, 168 or 720 hours in seconds, provided the
  -- seconds fit in 64 bits.
  pub retention_exact :
      0 < value (x ∷ digits)
      → value (x ∷ digits) * hours_in name * 3600 < 2 ^ 64
      → parse_retention to_lowercase written ≡ seconds (value (x ∷ digits) * hours_in name * 3600)
  retention_exact positive fits =
      within_u64 to_lowercase written x digits (starts name).0 ((starts name).1 ++ plural)
        split_normal numeric (starts name).3 (hours_in name) known_unit positive (some_hours name)
        fits

  -- Where lowercasing does to ASCII what it should, a number of hours that is a positive multiple of 2^60 below 2^64, with blanks at most between it and the unit and white space at most around them, is accepted, and makes a retention of no time at all.
  pub retention_wraps_to_zero :
      (k : ℕ)
      → hours_in name ≡ 1
      → 0 < k
      → value (x ∷ digits) ≡ k * 2 ^ 60
      → value (x ∷ digits) < 2 ^ 64
      → parse_retention to_lowercase written ≡ seconds 0
  retention_wraps_to_zero k hourly positive many fits =
      wrapped_hours to_lowercase written x digits (starts name).0 ((starts name).1 ++ plural)
        split_normal numeric (starts name).3 k (known_unit ∙ ap some hourly) positive many fits
