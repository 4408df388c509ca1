-- ===== src/Retention/Units.antt =====
-- What `parse_retention` makes of a number and a unit, once spaces and case are gone.
use otelview_postgres.Common.{
  ℕ, ◌+◌, ◌-◌, ◌*◌, ◌%◌, ◌^◌, ◌≤◌, ◌<◌, ◌≡◌, refl, ◌∙◌, true, false, none, some, [], ◌∷◌, ◌++◌, ltb,
  Str, All, arith, Bool-cases, inl, inr, ap, lt→ltb,
}
use otelview_postgres.Retention.Parse.{
  is_digit, split_digits, u64_limit, parse_digits, parse_u64, normalize, trim_end_s, unit_hours,
  seconds, refused, no_number, checked_number, from_parts, parse_retention,
}

abbrev pub IsDigit : ℕ → Type 0
IsDigit c = is_digit c ≡ true

-- The number that digits write, behind a number `n` read before them.
unfoldable pub value_from : ℕ → Str → ℕ
value_from n [] = n
value_from n (c ∷ s) = value_from (n * 10 + (c - b'0')) s

-- The decimal number that a text of digits writes.
abbrev pub value : Str → ℕ
value = value_from 0

value_from-le : (n : ℕ) (s : Str) → n ≤ value_from n s
unfolding value_from
value_from-le n [] = omega arith
value_from-le n (c ∷ s) = omega (arith, value_from-le (n * 10 + (c - b'0')) s)

parse_digits-value :
    (n : ℕ) (s : Str) → value_from n s < u64_limit → parse_digits n s ≡ some (value_from n s)
unfolding parse_digits value_from
parse_digits-value n [] h = refl
parse_digits-value n (c ∷ s) h =
    let next : ℕ = n * 10 + (c - b'0') in
    rw (lt→ltb next u64_limit (omega (arith, value_from-le next s))) (parse_digits-value next s h)

parse_digits_overflow :
    (n : ℕ) (s : Str) → u64_limit ≤ value_from n s → n < u64_limit → parse_digits n s ≡ none
unfolding parse_digits value_from
parse_digits_overflow n [] h lt = absurd (omega arith)
parse_digits_overflow n (c ∷ s) h lt =
    let next : ℕ = n * 10 + (c - b'0') in
    elim (Bool-cases (ltb next u64_limit)) [
      | inl e ↦ rw e (parse_digits_overflow next s h (ground arith))
      | inr e ↦ rw e
    ]

split_digits-append :
    (digits unit : Str) (c : ℕ)
    → All IsDigit digits
    → is_digit c ≡ false
    → split_digits (digits ++ c ∷ unit) ≡ (digits, c ∷ unit)
unfolding split_digits
split_digits-append [] unit c d h = rw h
split_digits-append (x ∷ digits) unit c d h = rw (d.0, split_digits-append digits unit c d.1 h)

split_digits_whole : (digits : Str) → All IsDigit digits → split_digits digits ≡ (digits, [])
unfolding split_digits
split_digits_whole [] d = refl
split_digits_whole (x ∷ digits) d = rw (d.0, split_digits_whole digits d.1)

parse_u64-value :
    (x : ℕ) (digits : Str)
    → value (x ∷ digits) < u64_limit
    → parse_u64 (x ∷ digits) ≡ some (value (x ∷ digits))
unfolding parse_u64
parse_u64-value x digits fits = parse_digits-value 0 (x ∷ digits) fits

parse_u64_overflow :
    (x : ℕ) (digits : Str) → u64_limit ≤ value (x ∷ digits) → parse_u64 (x ∷ digits) ≡ none
unfolding parse_u64
parse_u64_overflow x digits large = parse_digits_overflow 0 (x ∷ digits) large (omega arith)

no_wrap : (p : ℕ) → p * 3600 < u64_limit → p % u64_limit * 3600 % u64_limit ≡ p * 3600
no_wrap p h = omega arith

full_wrap : (k v : ℕ) → v ≡ k * 2 ^ 60 → v * 1 % u64_limit * 3600 % u64_limit ≡ 0
full_wrap k v e = omega arith

le_product : (v h : ℕ) → 0 < h → v ≤ v * h
le_product v h p = grind arith

module _ (to_lowercase : Str → Str) (raw : Str) (x : ℕ) (digits : Str) (c : ℕ) (unit : Str)
    (shape : normalize to_lowercase raw ≡ x ∷ digits ++ c ∷ unit)
    (numeric : All IsDigit (x ∷ digits)) (letter : is_digit c ≡ false) where
  parse_retention_shape :
      parse_retention to_lowercase raw ≡ checked_number (c ∷ unit) (parse_u64 (x ∷ digits))
  unfolding parse_retention
  parse_retention_shape =
      ap (λ s. from_parts (split_digits s)) shape
      ∙ ap from_parts (split_digits-append (x ∷ digits) unit c numeric letter)

  parse_retention_value :
      value (x ∷ digits) < u64_limit
      → parse_retention to_lowercase raw ≡ checked_number (c ∷ unit) (some (value (x ∷ digits)))
  parse_retention_value fits =
      parse_retention_shape ∙ ap (checked_number (c ∷ unit)) (parse_u64-value x digits fits)

  retention_wrapped :
      (hours : ℕ)
      → unit_hours (trim_end_s (c ∷ unit)) ≡ some hours
      → 0 < value (x ∷ digits)
      → value (x ∷ digits) < u64_limit
      → parse_retention to_lowercase raw
        ≡ seconds (value (x ∷ digits) * hours % u64_limit * 3600 % u64_limit)
  retention_wrapped hours known positive fits = parse_retention_value fits ∙ rw known (ground arith)

  pub within_u64 :
      (hours : ℕ)
      → unit_hours (trim_end_s (c ∷ unit)) ≡ some hours
      → 0 < value (x ∷ digits)
      → 0 < hours
      → value (x ∷ digits) * hours * 3600 < u64_limit
      → parse_retention to_lowercase raw ≡ seconds (value (x ∷ digits) * hours * 3600)
  within_u64 hours known positive some_hours fits =
      let v : ℕ = value (x ∷ digits) in
      retention_wrapped hours known positive (omega (arith, le_product v hours some_hours))
      ∙ ap seconds (no_wrap (v * hours) fits)

  pub wrapped_hours :
      (k : ℕ)
      → unit_hours (trim_end_s (c ∷ unit)) ≡ some 1
      → 0 < k
      → value (x ∷ digits) ≡ k * 2 ^ 60
      → value (x ∷ digits) < u64_limit
      → parse_retention to_lowercase raw ≡ seconds 0
  wrapped_hours k known positive many fits =
      retention_wrapped 1 known (omega arith) fits
      ∙ ap seconds (full_wrap k (value (x ∷ digits)) many)

  -- A number that does not fit in 64 bits is refused.
  pub retention_overflow :
      u64_limit ≤ value (x ∷ digits) → parse_retention to_lowercase raw ≡ refused no_number
  retention_overflow large =
      parse_retention_shape ∙ ap (checked_number (c ∷ unit)) (parse_u64_overflow x digits large)
