-- ===== src/Tests/Dependencies.antt =====
-- Dependencies and counters at concrete rows and requests.
use otelview_postgres.Common.{◌⊎◌, ◌≡◌, ◌≤◌, some, List, [], ◌∷◌, Str, text, length, any, ok}
use otelview_postgres.Common.Int.{ℤ, pos, negsuc}
use otelview_postgres.Schema.{SpanRow, Database}
use otelview_postgres.Database.{calm}
use otelview_postgres.Search.{same}
use otelview_postgres.Dependencies.{Calls, busiest_first, dependencies}
use otelview_postgres.Dependencies.Counts.{entries, listed_calls, calls_between, dependencies_lem}
use otelview_postgres.Common.Sorted.{IsSorted}
use otelview_postgres.Diagnostics.{Estimates, stats}
use otelview_postgres.Diagnostics.Services.{NoRepeats, reports, stats_lem}
use otelview_postgres.Server.{status, invalid_argument}
use otelview_postgres.Server.Readers.{DependenciesRequest, get_dependencies}
use otelview_postgres.Server.Readers.Bounds.{Answered, Window, get_dependencies_lem}
use otelview_postgres.Tests.Samples.{repeated, row_at, empty_database, shaky, by_bytes}

-- A span of `api` with a child in `db`.
abbrev parent_row : SpanRow
parent_row = record (row_at 3) { trace_id = repeated 16 1; span_id = repeated 8 1 }

abbrev child_row : SpanRow
child_row = record (row_at 5) {
  trace_id = repeated 16 1;
  span_id = repeated 8 2;
  parent_span_id = repeated 8 1;
  service = text "db";
}

abbrev called : Database
called = record empty_database { spans = parent_row ∷ child_row ∷ [] }

dependencies_lem_example :
    (gs : List Calls) × (dependencies (pos 0) (pos 10) (calm called) ≡ (ok gs, calm called))
    × IsSorted busiest_first gs
    × (entries (text "api", text "db") gs ≤ 1)
    × (listed_calls (text "api", text "db") gs
        ≡ calls_between (pos 0) (pos 10) called.spans (text "api") (text "db"))
dependencies_lem_example = dependencies_lem (pos 0) (pos 10) called (text "api") (text "db")

-- An end that is not after the start.
abbrev backwards : DependenciesRequest
backwards = record {
  start_time = some (record { seconds = pos 5; nanos = pos 0 });
  end_time = some (record { seconds = pos 5; nanos = pos 0 });
}

get_dependencies_lem_example :
    ((start : ℤ) × (end : ℤ) × Window backwards start end
      × Answered (dependencies start end shaky).0 (get_dependencies backwards shaky).0
      × ((get_dependencies backwards shaky).1 ≡ (dependencies start end shaky).1))
    ⊎ (((start end : ℤ) → Window backwards start end → ⊥)
        × ((message : Str) × (get_dependencies backwards shaky
              ≡ (status (record { code = invalid_argument; message = message }), shaky))))
get_dependencies_lem_example = get_dependencies_lem backwards shaky

abbrev guesses : Estimates
guesses = record { spans = pos 2; logs = negsuc 0; metric_points = pos 7 }

stats_lem_example :
    (names : List Str) × NoRepeats names
    × ((s : Str) → any (same s) names ≡ reports s called)
    × (stats by_bytes guesses (calm called) ≡ (
      ok (record { spans = 2; logs = 0; metric_points = 7; services = length names }),
      calm called,
    ))
stats_lem_example = stats_lem by_bytes guesses called
