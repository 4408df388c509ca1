-- ===== src/Tests/Search.antt =====
-- Trace queries and summaries at concrete rows.
use mathlib.Core.List.Perm
use otelview_postgres.Common.{
  ℕ, ◌≡◌, ◌≤◌, refl, List, [], ◌∷◌, map, All, length, select, Str, text, arith, ok,
}
use otelview_postgres.Common.Int.{pos}
use otelview_postgres.HashMap.{Iteration}
use otelview_postgres.Schema.{Database}
use otelview_postgres.Time.{duration_bound}
use otelview_postgres.Search.{
  service_is, apply_query, matches, time_condition, attribute_conditions, StoredSpan, row_to_span,
}
use otelview_postgres.Search.Filters.{wanted, apply_query-wanted}
use otelview_postgres.Summary.{summarize}
use otelview_postgres.Common.{any, true, ◌==◌}
use otelview_postgres.Common.Int.{pos_part}
use otelview_postgres.Summary.{is_orphan}
use otelview_postgres.Summary.Extent.{summarize_extent}
use otelview_postgres.Tests.Samples.{empty_database, row_at, of_api, never}

built : apply_query of_api ≡ ok (service_is (text "api") ∷ [])
unfolding apply_query time_condition duration_bound attribute_conditions
built = refl

apply_query-wanted_example :
    matches never (service_is (text "api") ∷ []) (row_at 3) ≡ wanted never of_api (row_at 3)
apply_query-wanted_example =
    apply_query-wanted never of_api (service_is (text "api") ∷ []) (row_at 3) built

abbrev table : Database
table = record empty_database { spans = row_at 3 ∷ row_at 10 ∷ [] }

abbrev stored : List StoredSpan
stored = map row_to_span (row_at 10 ∷ record (row_at 3) { status = pos 2 } ∷ [])

abbrev services_in_order : Iteration (Str × (ℕ × ℕ))
services_in_order = record { order = λ xs. xs; rearranges = λ xs. Perm.refl xs }

summarize_extent_example :
    All
      (λ (s : StoredSpan).
        (summarize services_in_order stored).min_start_time_unix_nano ≤ pos_part s.start)
      stored
    × (any
          (λ (s : StoredSpan).
            (summarize services_in_order stored).min_start_time_unix_nano == pos_part s.start)
          stored
        ≡ true)
    × All
        (λ (s : StoredSpan).
          pos_part s.end ≤ (summarize services_in_order stored).max_end_time_unix_nano)
        stored
    × (any
          (λ (s : StoredSpan).
            (summarize services_in_order stored).max_end_time_unix_nano == pos_part s.end)
          stored
        ≡ true)
    × ((summarize services_in_order stored).orphan_span_count
        ≡ pos (length (select (is_orphan stored) stored)))
summarize_extent_example = summarize_extent services_in_order stored (omega arith) (omega arith)
