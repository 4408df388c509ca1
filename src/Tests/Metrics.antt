-- ===== src/Tests/Metrics.antt =====
-- Metric writes at a concrete export.
use otelview_postgres.Common.{
  ℕ, ◌≡◌, refl, true, none, some, List, [], ◌∷◌, ◌++◌, map, All, text, total, get_elem?, length,
  min, ◌-◌, arith, Result, ok, err,
}
use otelview_postgres.Common.Chunks.{concat}
use otelview_postgres.Common.Int.{ℤ, pos, pos_part}
use otelview_postgres.Codec.{Codec}
use otelview_postgres.Database.{calm}
use otelview_postgres.Otlp.{end}
use otelview_postgres.Otlp.Metrics.{NumberDataPoint, as_int, MetricData, sum, Metric, MetricsData}
use otelview_postgres.Schema.{MetricRow}
use otelview_postgres.Metrics.{
  FlatPoint, flatten_metric, metric_row, gather, gather_resource, gather_scope, gather_metric,
  gather_point, write_metrics,
}
use otelview_postgres.Metrics.Flatten.{data_points, descriptor, flatten_metric_lossless}
use otelview_postgres.Metrics.Sampling.{downsample}
use otelview_postgres.Metrics.Sampling.Ends.{downsample_keeps_ends}
use otelview_postgres.HashMap.LastIndex.{index_all}
use mathlib.Core.List.{Sublist}
use otelview_postgres.Metrics.Writes.{resource_points, write_metrics-appends}
use otelview_postgres.Tests.Samples.{empty_database}

abbrev point : ℕ → NumberDataPoint
point n = record { time_unix_nano = n; value = some (as_int (pos n)); attributes = end; rest = [] }

abbrev two_points : MetricData
two_points = sum (point 3 ∷ point 4 ∷ []) (pos 2) true

abbrev requests : Metric
requests = record {
  name = text "requests";
  description = [];
  unit = text "1";
  contents = some two_points;
  rest = [];
}

-- Stands for the conversion to doubles.
abbrev as_bits : ℤ → ℕ
as_bits = pos_part

flatten_metric_lossless_example :
    (concat
        (map (λ (p : FlatPoint). data_points p.metric.contents) (flatten_metric as_bits requests))
      ≡ data_points requests.contents)
    × All
        (λ (p : FlatPoint). descriptor p.metric ≡ descriptor requests)
        (flatten_metric as_bits requests)
flatten_metric_lossless_example = flatten_metric_lossless as_bits requests two_points refl

abbrev export : MetricsData
export = record {
  resource_metrics =
      record {
        resource = none;
        scope_metrics = record { scope = none; metrics = requests ∷ []; schema_url = [] } ∷ [];
        schema_url = [];
      }
      ∷ [];
}

abbrev metric_codec : Codec MetricsData
metric_codec = record { encode = λ _. []; decode = λ _. ok (record { resource_metrics = [] }) }

abbrev rows_or_none : Result (List MetricRow) → List MetricRow
rows_or_none (ok rows) = rows
rows_or_none (err e) = []

gathered : List MetricRow
gathered = rows_or_none (gather metric_codec as_bits export)

gathered_runs : gather metric_codec as_bits export ≡ ok gathered
unfolding gathered gather gather_resource gather_scope gather_metric gather_point metric_row
    flatten_metric
gathered_runs = refl

write_metrics-appends_example : write_metrics metric_codec as_bits export (calm empty_database) ≡ (
  ok (total resource_points export.resource_metrics),
  calm (record empty_database { metric_points = [] ++ gathered }),
)
write_metrics-appends_example =
    write_metrics-appends metric_codec as_bits export empty_database gathered gathered_runs

abbrev series : List ℕ
series = 0 ∷ 1 ∷ 2 ∷ 3 ∷ 4 ∷ 5 ∷ 6 ∷ 7 ∷ 8 ∷ 9 ∷ []

downsample_keeps_ends_example :
    (out : List ℕ) × (downsample series 4 ≡ some out)
    × (length out ≡ min 4 (length series))
    × Sublist out series
    × (get_elem? out 0 ≡ get_elem? series 0)
    × (get_elem? out (length out - 1) ≡ get_elem? series (length series - 1))
downsample_keeps_ends_example = downsample_keeps_ends series 4 (omega arith)

-- The source's own examples.
downsample_runs :
    (downsample series 20 ≡ some series)
    × (downsample series 4 ≡ some (0 ∷ 3 ∷ 6 ∷ 9 ∷ []))
    × (downsample series 1 ≡ some (9 ∷ []))
unfolding downsample index_all
downsample_runs = (refl, refl, refl)
