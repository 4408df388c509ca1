-- ===== src/Time/RoundTrip.antt =====
-- Round trips and ranges of the time conversions.
use otelview_postgres.Common.{◌≡◌, true, if◌then◌else◌, text, Result, ok, err, anyhow, arith}
use otelview_postgres.Common.Int.{ℤ, pos, negsuc, in_i64, leb_ℤ, ◌+ℤ◌, ◌*ℤ◌}
use otelview_postgres.Time.{Timestamp, timestamp_to_nanos, nanos_to_timestamp}

abbrev pub out_of_range : Result ℤ
out_of_range = err (anyhow (text "timestamp is outside nanosecond range"))

-- The least whole second that an `i64` of nanoseconds holds.
abbrev pub first_second : ℤ
first_second = negsuc 9223372035999999999

-- A nanosecond count that PostgreSQL can hold comes back from its timestamp unchanged if it lies
-- at or above the first whole second of the range; below it the conversion back fails.
pub timestamp_round_trip :
    (value : ℤ)
    → in_i64 value ≡ true
    → timestamp_to_nanos (nanos_to_timestamp value)
      ≡ (if leb_ℤ first_second value then ok value else out_of_range)
unfolding timestamp_to_nanos nanos_to_timestamp
timestamp_round_trip (pos n) h = ground arith
timestamp_round_trip (negsuc n) h = ground arith

-- A conversion that succeeds is exact and in range.
pub timestamp_to_nanos_exact :
    (ts : Timestamp) (n : ℤ)
    → timestamp_to_nanos ts ≡ ok n
    → (n ≡ ts.seconds *ℤ pos 1000000000 +ℤ ts.nanos) × (in_i64 n ≡ true)
unfolding timestamp_to_nanos ◌+ℤ◌ ◌*ℤ◌
timestamp_to_nanos_exact ts n h = ground arith
