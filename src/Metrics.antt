-- ===== src/Metrics.antt =====
-- Metric storage: `flatten_metric`, `metric_row` and `write_metrics` of src/metrics.rs. The conversion of an integer to a double
-- (`as f64`) is an argument, since doubles are their bits here.
pub mod Flatten
pub mod Sampling
pub mod Writes
pub mod Rows
pub mod Catalog
pub mod Query
use otelview_postgres.Common.{
  ℕ, Bool, true, false, Option, none, some, List, [], ◌∷◌, ◌++◌, map, Str, text, length, Result, ok,
  err, anyhow, ok_or, try_fold,
}
use otelview_postgres.Common as Common
use otelview_postgres.Common.Chunks.{chunks}
use otelview_postgres.Common.Int.{ℤ}
use otelview_postgres.Codec.{Codec}
use otelview_postgres.Otlp.Metrics.{
  NumberValue, as_double, as_int, NumberDataPoint, HistogramDataPoint,
  ExponentialHistogramDataPoint, SummaryDataPoint, MetricData, gauge, sum, histogram,
  exponential_histogram, summary, Metric, ScopeMetrics, ResourceMetrics, MetricsData,
}
use otelview_postgres.Json.{Json, attributes_to_json, resource_attributes, service_name}
use otelview_postgres.Time.{u64_to_i64}
use otelview_postgres.Schema.{MetricRow, Database}
use otelview_postgres.Database.{Db, ◌>>=◌, pure, lift, begin, execute, commit}
use otelview_postgres.Spans.{insert_chunk_rows}

pub record FlatPoint : Type 0 where
  pub metric : Metric
  pub time : ℕ
  pub value : ℕ
  pub count : ℕ
  pub attributes : Json

unfoldable pub number_value : (ℤ → ℕ) → Option NumberValue → ℕ
number_value to_double none = 0
number_value to_double (some (as_double d)) = d
number_value to_double (some (as_int i)) = to_double i

abbrev or_zero : Option ℕ → ℕ
or_zero none = 0
or_zero (some n) = n

abbrev pub with_data : Metric → MetricData → Metric
with_data m d = record m { contents = some d }

module _ (to_double : ℤ → ℕ) where
  unfoldable pub flatten_data : Metric → MetricData → List FlatPoint
  unfolding number_value
  flatten_data m (gauge points) =
      map
        (λ (dp : NumberDataPoint). record {
          metric = with_data m (gauge (dp ∷ []));
          time = dp.time_unix_nano;
          value = number_value to_double dp.value;
          count = 0;
          attributes = attributes_to_json dp.attributes;
        })
        points
  flatten_data m (sum points temporality monotonic) =
      map
        (λ (dp : NumberDataPoint). record {
          metric = with_data m (sum (dp ∷ []) temporality monotonic);
          time = dp.time_unix_nano;
          value = number_value to_double dp.value;
          count = 0;
          attributes = attributes_to_json dp.attributes;
        })
        points
  flatten_data m (histogram points temporality) =
      map
        (λ (dp : HistogramDataPoint). record {
          metric = with_data m (histogram (dp ∷ []) temporality);
          time = dp.time_unix_nano;
          value = or_zero dp.sum;
          count = dp.count;
          attributes = attributes_to_json dp.attributes;
        })
        points
  flatten_data m (exponential_histogram points temporality) =
      map
        (λ (dp : ExponentialHistogramDataPoint). record {
          metric = with_data m (exponential_histogram (dp ∷ []) temporality);
          time = dp.time_unix_nano;
          value = or_zero dp.sum;
          count = dp.count;
          attributes = attributes_to_json dp.attributes;
        })
        points
  flatten_data m (summary points) =
      map
        (λ (dp : SummaryDataPoint). record {
          metric = with_data m (summary (dp ∷ []));
          time = dp.time_unix_nano;
          value = dp.sum;
          count = dp.count;
          attributes = attributes_to_json dp.attributes;
        })
        points

  abbrev flatten_contents : Metric → Option MetricData → List FlatPoint
  flatten_contents m none = []
  flatten_contents m (some d) = flatten_data m d

  unfoldable pub flatten_metric : Metric → List FlatPoint
  unfolding flatten_data
  flatten_metric m = flatten_contents m m.contents

abbrev pub data_type : MetricData → Str
data_type (gauge _) = text "gauge"
data_type (sum _ _ _) = text "sum"
data_type (histogram _ _) = text "histogram"
data_type (exponential_histogram _ _) = text "exponential_histogram"
data_type (summary _) = text "summary"

abbrev type_of : Option MetricData → Option Str
type_of none = none
type_of (some d) = some (data_type d)

unfoldable pub metric_type_str : Metric → Option Str
metric_type_str m = type_of m.contents

unfoldable pub singleton_payload : ResourceMetrics → ScopeMetrics → Metric → MetricsData
singleton_payload resource scope metric = record {
  resource_metrics =
      record {
        resource = resource.resource;
        scope_metrics =
            record { scope = scope.scope; metrics = metric ∷ []; schema_url = scope.schema_url }
            ∷ [];
        schema_url = resource.schema_url;
      }
      ∷ [];
}

module _ (codec : Codec MetricsData) (to_double : ℤ → ℕ) where
  unfoldable pub metric_row :
      ResourceMetrics → ScopeMetrics → FlatPoint → Str → Json → Result MetricRow
  unfolding u64_to_i64 metric_type_str
  metric_row resource scope point service resource_attrs =
      Common.◌>>=◌ (u64_to_i64 point.time (text "metric timestamp")) λ time.
        Common.◌>>=◌ (u64_to_i64 point.count (text "metric count")) λ count.
          Common.◌>>=◌
            (ok_or (metric_type_str point.metric)
              (anyhow (text "metric " ++ (point.metric.name ++ text " has no data"))))
            λ metric_type. ok (record {
              name = point.metric.name;
              description = point.metric.description;
              unit = point.metric.unit;
              metric_type = metric_type;
              service = service;
              time = time;
              value = point.value;
              count = count;
              attributes = point.attributes;
              resource_attributes = resource_attrs;
              payload = codec.encode (singleton_payload resource scope point.metric);
            })

  unfoldable pub gather_point :
      ResourceMetrics
      → Str
      → Json
      → ScopeMetrics
      → List MetricRow
      → FlatPoint
      → Result (List MetricRow)
  gather_point resource service resource_attrs scope rows point =
      Common.◌>>=◌ (metric_row resource scope point service resource_attrs)
        λ row. ok (rows ++ row ∷ [])

  unfoldable pub gather_metric :
      ResourceMetrics
      → Str
      → Json
      → ScopeMetrics
      → List MetricRow
      → Metric
      → Result (List MetricRow)
  gather_metric resource service resource_attrs scope rows metric =
      try_fold (gather_point resource service resource_attrs scope) rows
        (flatten_metric to_double metric)

  unfoldable pub gather_scope :
      ResourceMetrics → Str → Json → List MetricRow → ScopeMetrics → Result (List MetricRow)
  gather_scope resource service resource_attrs rows scope =
      try_fold (gather_metric resource service resource_attrs scope) rows scope.metrics

  unfoldable pub gather_resource : List MetricRow → ResourceMetrics → Result (List MetricRow)
  gather_resource rows resource =
      let resource_attrs = attributes_to_json (resource_attributes resource.resource) in
      try_fold (gather_scope resource (service_name resource_attrs) resource_attrs) rows
        resource.scope_metrics

  -- The loops of `write_metrics`.
  unfoldable pub gather : MetricsData → Result (List MetricRow)
  gather metrics = try_fold gather_resource [] metrics.resource_metrics

unfoldable pub insert_statement : List MetricRow → Database → Result Database
insert_statement rows db = ok (record db { metric_points = db.metric_points ++ rows })

unfoldable pub insert_chunks : Database → List (List MetricRow) → Db Database
insert_chunks tx [] = pure tx
insert_chunks tx (chunk ∷ rest) = do
  tx' ← execute tx (insert_statement chunk)
  insert_chunks tx' rest

-- An export without a point sends nothing.
unfoldable pub write_rows : List MetricRow → Db ℕ
write_rows [] = pure 0
write_rows (row ∷ rows) = do
  tx ← begin
  tx' ← insert_chunks tx (chunks insert_chunk_rows (row ∷ rows))
  done ← commit tx'
  pure (length (row ∷ rows))

unfoldable pub write_metrics : Codec MetricsData → (ℤ → ℕ) → MetricsData → Db ℕ
write_metrics codec to_double metrics = do
  rows ← lift (gather codec to_double metrics)
  write_rows rows
