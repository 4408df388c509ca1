-- ===== src/Time.antt =====
-- Time in nanoseconds: the conversions of src/store.rs between protobuf timestamps, durations and
-- the BIGINT columns. An `i64` is an integer, and each operation that can leave its range says so.
pub mod RoundTrip
use otelview_postgres.Common.{
  ℕ, Bool, Option, none, some, ite, ltb, if◌then◌else◌, Str, text, Result, ok, err, anyhow, ok_or,
  ◌>>=◌, ◌++◌,
}
use otelview_postgres.Common.Int.{
  ℤ, pos, ℤ-discrete, checked_add, checked_mul, div_euclid, rem_euclid,
}

-- `prost_types::Timestamp`
pub record Timestamp : Type 0 where
  pub seconds : ℤ
  pub nanos : ℤ

-- `prost_types::Duration`
pub record Duration : Type 0 where
  pub seconds : ℤ
  pub nanos : ℤ

abbrev and_then : Option ℤ → (ℤ → Option ℤ) → Option ℤ
and_then none f = none
and_then (some v) f = f v

unfoldable pub timestamp_to_nanos : Timestamp → Result ℤ
unfolding checked_add checked_mul
timestamp_to_nanos ts =
    ok_or (and_then (checked_mul ts.seconds (pos 1000000000)) (λ v. checked_add v ts.nanos))
      (anyhow (text "timestamp is outside nanosecond range"))

unfoldable pub duration_to_nanos : Duration → Result ℤ
unfolding checked_add checked_mul
duration_to_nanos d =
    ok_or (and_then (checked_mul d.seconds (pos 1000000000)) (λ v. checked_add v d.nanos))
      (anyhow (text "duration is outside nanosecond range"))

-- A bound of zero is no bound.
unfoldable pub duration_bound : Option Duration → Result (Option ℤ)
unfolding duration_to_nanos ℤ-discrete
duration_bound none = ok none
duration_bound (some d) = do
  nanos ← duration_to_nanos d
  ite (ℤ-discrete nanos (pos 0)) (ok none) (ok (some nanos))

unfoldable pub nanos_to_timestamp : ℤ → Timestamp
unfolding div_euclid rem_euclid
nanos_to_timestamp value = record {
  seconds = div_euclid value 1000000000;
  nanos = pos (rem_euclid value 1000000000);
}

unfoldable pub u64_to_i64 : ℕ → Str → Result ℤ
u64_to_i64 value name =
    if ltb value 9223372036854775808
    then ok (pos value)
    else err (anyhow (name ++ text " exceeds PostgreSQL BIGINT"))
