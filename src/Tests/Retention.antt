-- ===== src/Tests/Retention.antt =====
-- Retention at concrete settings and tables.
use otelview_postgres.Common.{
  ◌++◌, map, ◌≡◌, Bytes-discrete, refl, none, some, [], ◌∷◌, Str, text, arith, ok,
}
use otelview_postgres.Database.{Connection, calm}
use otelview_postgres.Schema.{Database}
use otelview_postgres.Retention.{cutoff_at, sweep_expired}
use otelview_postgres.Retention.Parse.{
  seconds, refused, no_unit, no_number, is_zero, unknown_unit, parse_retention, normalize, trim,
  trim_start, is_whitespace, unit_hours, trim_end_s, parse_digits,
}
use otelview_postgres.Retention.Units.{value_from}
use otelview_postgres.Retention.Layout.{
  ascii_lower, day, just_h, retention_exact, retention_wraps_to_zero,
}
use otelview_postgres.Retention.Sweep.{after_sweep, sweep_expired_complete}
use otelview_postgres.Retention.{run_retention}
use otelview_postgres.Retention.Retries.{run_retention_catches_up}
use otelview_postgres.Retention.Safety.{sweep_keeps_fresh}
use otelview_postgres.Tests.Samples.{refused as reset, empty_database, row_at}

-- The tests use ASCII only.
abbrev lowercase : Str → Str
lowercase = map ascii_lower

retention_exact_example : parse_retention lowercase (text " 14 Days" ++ (9 ∷ [])) ≡ seconds 1209600
unfolding value_from is_whitespace
retention_exact_example =
    retention_exact lowercase (λ s h. refl) (text " ") b'1' (text "4") (text " ") (text "Days")
      (9 ∷ []) day (text "s") (refl, tt) (refl, (refl, tt)) (refl, tt)
      (refl, (refl, (refl, (refl, tt)))) refl (refl, tt) (refl, tt) (omega arith) (omega arith)

retention_wraps_to_zero_example :
    parse_retention lowercase (text "1152921504606846976h") ≡ seconds 0
unfolding value_from
retention_wraps_to_zero_example =
    retention_wraps_to_zero lowercase (λ s h. refl) [] b'1' (text "152921504606846976") []
      (text "h") [] just_h [] tt
      (
        refl,
        (
          refl,
          (
            refl,
            (
              refl,
              (
                refl,
                (
                  refl,
                  (
                    refl,
                    (
                      refl,
                      (
                        refl,
                        (
                          refl,
                          (
                            refl,
                            (refl, (refl, (refl, (refl, (refl, (refl, (refl, (refl, tt)))))))),
                          ),
                        ),
                      ),
                    ),
                  ),
                ),
              ),
            ),
          ),
        ),
      )
      tt (refl, tt) refl tt tt 1 refl (omega arith) refl (omega arith)

-- Two rows of which the first has expired, at 60 with a retention of 50.
abbrev aged : Database
aged = record empty_database { spans = row_at 3 ∷ row_at 10 ∷ [] }

sweep_expired_complete_example : sweep_expired 1 60 50 (calm aged) ≡ (
  ok (record { from_spans = some 1; from_logs = some 0; from_metric_points = some 0 }),
  calm (after_sweep (cutoff_at 60 50) aged),
)
unfolding cutoff_at
sweep_expired_complete_example =
    sweep_expired_complete 1 60 50 aged (omega arith) (omega arith) (omega arith)

-- The second request fails.
abbrev half_swept : Connection
half_swept = record { database = aged; faults = none ∷ some reset ∷ [] }

sweep_keeps_fresh_example :
    after_sweep (cutoff_at 60 50) (sweep_expired 1 60 50 half_swept).1.database
    ≡ after_sweep (cutoff_at 60 50) aged
sweep_keeps_fresh_example = sweep_keeps_fresh 1 60 50 half_swept

run_retention_catches_up_example :
    run_retention 1 50 (40 ∷ 55 ∷ 60 ∷ []) half_swept ≡ calm (after_sweep (cutoff_at 60 50) aged)
run_retention_catches_up_example =
    run_retention_catches_up 1 50 60 (40 ∷ 55 ∷ []) half_swept (omega arith, (omega arith, tt))
      (omega arith) (omega arith) (omega arith) (omega arith)

-- The source's own refusals.
refusals :
    (parse_retention lowercase (text "") ≡ refused no_unit)
    × (parse_retention lowercase (text "d") ≡ refused no_number)
    × (parse_retention lowercase (text "7") ≡ refused no_unit)
    × (parse_retention lowercase (text "0d") ≡ refused is_zero)
    × (parse_retention lowercase (text "7 fortnights") ≡ refused unknown_unit)
    × (parse_retention lowercase (text "-3d") ≡ refused no_number)
    × (parse_retention lowercase (text "1.5d") ≡ refused unknown_unit)
unfolding parse_retention normalize trim trim_start is_whitespace unit_hours trim_end_s parse_digits
    Bytes-discrete
refusals = (refl, refl, refl, refl, refl, refl, refl)
