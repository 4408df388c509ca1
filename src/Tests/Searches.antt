-- ===== src/Tests/Searches.antt =====
-- Searches of logs and metrics at concrete tables.
use mathlib.Core.List.{Perm, Sublist}
use otelview_postgres.Common.{
  ◌≡◌, ◌⊎◌, ◌<◌, refl, Bool, false, none, some, List, [], ◌∷◌, ◌++◌, map, length, min, select,
  Bytes, Str, text, ok, arith,
}
use otelview_postgres.Common.Int.{pos}
use otelview_postgres.Common.Sorted.{IsSorted}
use otelview_postgres.Hex.{returned, hex_decode, decode_pairs, is_char_boundary, from_str_radix}
use otelview_postgres.Json.{Json}
use otelview_postgres.Schema.{LogRow, MetricRow, Database}
use otelview_postgres.Database.{Db, calm}
use otelview_postgres.Search.{search_depth}
use otelview_postgres.Logs.{
  LogQuery, LogCondition, service_is, severity_from, trace_is, log_conditions, trace_condition,
  newest_first, find_logs,
}
use otelview_postgres.Logs as Logs
use otelview_postgres.Logs.Wanted as LogsWanted
use otelview_postgres.Logs.Queries.{find_logs_returns, other_length_finds_nothing}
use otelview_postgres.Metrics.Query.{
  MetricQuery, MetricCondition, name_is, metric_conditions, requested_points, max_metric_rows,
  oldest_first, find_metrics,
}
use otelview_postgres.Metrics.Query.Wanted.{wanted}
use otelview_postgres.Metrics.Query.Answers.{find_metrics_returns}
use otelview_postgres.Tests.Samples.{empty_database, log_at, point_at, never, as_it_comes}

-- No text here is like another, and none is rendered.
abbrev unlike : Str → Str → Bool
unlike a b = false

abbrev no_text : Json → Str
no_text _ = []

abbrev logged : Database
logged = record empty_database { logs = log_at 3 ∷ log_at 20 ∷ [] }

abbrev of_trace : Str → LogQuery
of_trace trace = record {
  service_name = text "api";
  min_severity = pos 5;
  search = [];
  trace_id = trace;
  time_min = none;
  time_max = none;
  search_depth = pos 1;
}

abbrev conditions_of_api : List LogCondition
conditions_of_api = service_is (text "api") ∷ severity_from (pos 5) ∷ []

converts : log_conditions (of_trace []) ≡ returned (ok conditions_of_api)
unfolding log_conditions trace_condition Logs.time_condition
converts = refl

find_logs_returns_example :
    (rows : List LogRow) × (left_out : List LogRow) × (found : Db (List Bytes)) × (find_logs unlike
        no_text 100
        (of_trace [])
      ≡ returned found)
    × (found (calm logged) ≡ (ok (map (λ (r : LogRow). r.payload) rows), calm logged))
    × (length rows ≡ min (search_depth 100 (pos 1)) (length (rows ++ left_out)))
    × IsSorted newest_first (rows ++ left_out)
    × Perm (rows ++ left_out) (select (LogsWanted.wanted unlike no_text (of_trace [])) logged.logs)
find_logs_returns_example =
    find_logs_returns unlike no_text 100 (of_trace []) conditions_of_api logged converts

abbrev conditions_of_trace : List LogCondition
conditions_of_trace = service_is (text "api") ∷ severity_from (pos 5) ∷ trace_is (10 ∷ 11 ∷ []) ∷ []

decodes : hex_decode (text "0a0b") ≡ returned (some (10 ∷ 11 ∷ []))
unfolding hex_decode decode_pairs is_char_boundary from_str_radix
decodes = refl

trace_converts : log_conditions (of_trace (text "0a0b")) ≡ returned (ok conditions_of_trace)
unfolding log_conditions trace_condition Logs.time_condition hex_decode decode_pairs
    is_char_boundary from_str_radix
trace_converts = refl

-- Both records are of the trace that is asked for.
other_length_finds_nothing_example :
    (found : Db (List Bytes)) × (find_logs unlike no_text 100 (of_trace (text "0a0b"))
      ≡ returned found)
    × (found (calm logged) ≡ (ok [], calm logged))
other_length_finds_nothing_example =
    other_length_finds_nothing unlike no_text 100 (of_trace (text "0a0b")) conditions_of_trace
      (10 ∷ 11 ∷ []) logged trace_converts refl decodes (λ h. omega arith)

abbrev measured : Database
measured = record empty_database {
  metric_points = point_at 5 ∷ record (point_at 4) { name = text "errors" } ∷ point_at 3 ∷ [];
}

abbrev of_requests : MetricQuery
of_requests = record {
  metric_name = text "requests";
  service_name = [];
  time_min = none;
  time_max = none;
  max_points = pos 2;
}

abbrev named : List MetricCondition
named = name_is (text "requests") ∷ []

bounds_convert : metric_conditions of_requests ≡ ok named
unfolding metric_conditions
bounds_convert = refl

find_metrics_returns_example :
    (rows : List MetricRow) × (hits : List MetricRow) × (find_metrics never no_text as_it_comes
        of_requests
        (calm measured)
      ≡ (ok (map (λ (r : MetricRow). r.payload) rows), calm measured))
    × Perm hits (select (wanted of_requests) measured.metric_points)
    × IsSorted oldest_first hits
    × Sublist rows hits
    × ((rows ≡ hits) ⊎ (min (requested_points (pos 2)) max_metric_rows < length hits))
find_metrics_returns_example =
    find_metrics_returns never no_text as_it_comes of_requests named measured bounds_convert
