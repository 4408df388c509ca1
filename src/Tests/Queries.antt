-- ===== src/Tests/Queries.antt =====
-- Metric queries at concrete points.
use mathlib.Core.List.Perm
use otelview_postgres.Common.{
  ℕ, ◌≡◌, ◌≤◌, ◌<◌, ◌/◌, ◌+◌, refl, true, Bool, some, List, [], ◌∷◌, map, length, get_elem?, text,
  ok, arith,
}
use otelview_postgres.Json.{Json, object, no_fields}
use otelview_postgres.HashMap.{Iteration}
use otelview_postgres.Schema.{MetricRow, Database}
use otelview_postgres.Database.{calm}
use otelview_postgres.Listing.{distinct_values}
use otelview_postgres.Metrics.Catalog.{MetricInfo, list_metrics}
use otelview_postgres.Metrics.Catalog.Complete.{info_name, metric_names, list_metrics_complete}
use otelview_postgres.Metrics.Query.{SeriesKey, keep_flags, thin}
use otelview_postgres.Metrics.Query.Thinning.{thin_below_budget}
use otelview_postgres.Metrics.Query.Marks.{mem}
use otelview_postgres.Metrics.Query.Samples.{sample}
use otelview_postgres.Metrics.Query.Places.{positions}
use otelview_postgres.Metrics.Query.Series.{series_sampled}
use otelview_postgres.Tests.Samples.{empty_database, by_bytes, point_at}

abbrev measured : Database
measured = record empty_database {
  metric_points = point_at 3 ∷ record (point_at 4) { name = text "errors" } ∷ [];
}

list_metrics_complete_example :
    (infos : List MetricInfo) × (list_metrics by_bytes (λ _. []) (λ _. 1) (calm measured)
      ≡ (ok infos, calm measured))
    × (map info_name infos ≡ distinct_values by_bytes (metric_names measured))
list_metrics_complete_example = list_metrics_complete by_bytes (λ _. 1) measured

-- All attributes here are the same.
abbrev always : Json → Json → Bool
always a b = true

abbrev six : List MetricRow
six = point_at 1 ∷ point_at 2 ∷ point_at 3 ∷ point_at 4 ∷ point_at 5 ∷ point_at 6 ∷ []

thin_below_budget_example :
    (length (thin always 5 six [] six) < 5) × (length (thin always 5 six [] six) ≤ 5 / 2 + 2)
thin_below_budget_example =
    thin_below_budget always (text "api") (object no_fields) 5 six refl (omega arith) refl (
      (refl, refl),
      ((refl, refl), ((refl, refl), ((refl, refl), ((refl, refl), ((refl, refl), tt))))),
    )

abbrev as_found : Iteration (List ℕ)
as_found = record { order = λ xs. xs; rearranges = λ xs. Perm.refl xs }

abbrev two_series : List SeriesKey
two_series = (text "api", []) ∷ (text "db", []) ∷ (text "api", []) ∷ (text "api", []) ∷ []

series_sampled_example :
    (flags : List Bool) × (keep_flags as_found 2 two_series ≡ some flags)
    × (length flags ≡ length two_series)
    × (get_elem? flags 2 ≡ some (mem 2 (sample 2 (positions (text "api", []) 0 two_series))))
series_sampled_example = series_sampled as_found 2 two_series 2 (text "api", []) (omega arith) refl
