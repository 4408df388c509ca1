-- ===== src/Tests/Values.antt =====
-- Timestamps, hexadecimal text and JSON values at concrete inputs.
use otelview_postgres.Common.{
  ◌≡◌, refl, true, none, some, [], ◌∷◌, Bytes, text, arith, ok, if◌then◌else◌,
}
use otelview_postgres.Common.Int.{ℤ, pos, negsuc, leb_ℤ, in_i64, ◌+ℤ◌, ◌*ℤ◌}
use otelview_postgres.Time.{Timestamp, timestamp_to_nanos, nanos_to_timestamp}
use otelview_postgres.Time.RoundTrip.{
  first_second, out_of_range, timestamp_round_trip, timestamp_to_nanos_exact,
}
use otelview_postgres.Hex.{hex, hex_decode, returned, panicked, from_str_radix, is_char_boundary}
use otelview_postgres.Hex.RoundTrip.{hex_decode-hex, hex_decode-panics}
use otelview_postgres.Otlp.{KeyValues, end, pair, int_value, bool_value}
use otelview_postgres.Json.{get, attributes_to_json, otel_value_to_json}
use otelview_postgres.Json.Lookup.{last_value, get-attributes_to_json}
use otelview_postgres.Json.Queries
use otelview_postgres.Json.Queries.{
  QueryValue, query_value_to_json, as_otel, query_value_to_json-as_otel,
}

abbrev before_epoch : ℤ
before_epoch = negsuc 0

timestamp_round_trip_example :
    timestamp_to_nanos (nanos_to_timestamp before_epoch)
    ≡ (if leb_ℤ first_second before_epoch then ok before_epoch else out_of_range)
timestamp_round_trip_example = timestamp_round_trip before_epoch refl

-- The least `i64` does not come back.
least_i64 : timestamp_to_nanos (nanos_to_timestamp (negsuc 9223372036854775807)) ≡ out_of_range
unfolding timestamp_to_nanos nanos_to_timestamp
least_i64 = refl

abbrev early : Timestamp
early = record { seconds = negsuc 0; nanos = pos 999999999 }

timestamp_to_nanos_exact_example :
    (before_epoch ≡ early.seconds *ℤ pos 1000000000 +ℤ early.nanos) × (in_i64 before_epoch ≡ true)
unfolding timestamp_to_nanos
timestamp_to_nanos_exact_example = timestamp_to_nanos_exact early before_epoch refl

abbrev two_bytes : Bytes
two_bytes = 0x0a ∷ 0xff ∷ []

hex_decode-hex_example : hex_decode (hex two_bytes) ≡ returned (some two_bytes)
hex_decode-hex_example = hex_decode-hex two_bytes (omega arith)

-- The source's own examples.
hex_decode_runs :
    (hex_decode (text "0aff") ≡ returned (some two_bytes))
    × (hex_decode (text "0a f") ≡ returned none)
    × (hex_decode (text "abc") ≡ returned none)
    × (hex_decode (text "") ≡ returned (some []))
    × (hex_decode (text "+a") ≡ returned (some (10 ∷ [])))
unfolding hex_decode from_str_radix is_char_boundary
hex_decode_runs = (refl, refl, refl, refl, refl)

-- The text "aéb", whose second character has two bytes.
hex_decode-panics_example : hex_decode (b'a' ∷ 0xc3 ∷ 0xa9 ∷ b'b' ∷ []) ≡ panicked
hex_decode-panics_example =
    hex_decode-panics b'a' 0xc3 0xa9 (b'b' ∷ []) (omega arith) refl refl refl

abbrev attempts : KeyValues
attempts =
    pair (text "attempt") (int_value (pos 1))
      (pair (text "ok") (bool_value true) (pair (text "attempt") (int_value (pos 3)) end))

get-attributes_to_json_example :
    get (attributes_to_json attempts) (text "attempt") ≡ last_value (text "attempt") attempts none
get-attributes_to_json_example = get-attributes_to_json (text "attempt") attempts

abbrev listed : QueryValue
listed =
    Queries.array_value
      (Queries.value (Queries.int_value (pos 3)) (Queries.value Queries.unset Queries.no_values))

query_value_to_json-as_otel_example :
    query_value_to_json listed ≡ otel_value_to_json (as_otel listed)
query_value_to_json-as_otel_example = query_value_to_json-as_otel listed
