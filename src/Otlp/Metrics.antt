-- ===== src/Otlp/Metrics.antt =====
-- The OpenTelemetry metric messages that the program reads. Fields that it only copies stand in `rest`.
use otelview_postgres.Common.{ℕ, Bool, Option, List, Bytes, Str}
use otelview_postgres.Common.Int.{ℤ}
use otelview_postgres.Otlp.{KeyValues, Resource, Scope}

pub data NumberValue : Type 0 where
  as_double : ℕ → NumberValue
  as_int : ℤ → NumberValue

pub record NumberDataPoint : Type 0 where
  pub time_unix_nano : ℕ
  pub value : Option NumberValue
  pub attributes : KeyValues
  pub rest : Bytes

pub record HistogramDataPoint : Type 0 where
  pub time_unix_nano : ℕ
  pub count : ℕ
  pub sum : Option ℕ
  pub attributes : KeyValues
  pub rest : Bytes

pub record ExponentialHistogramDataPoint : Type 0 where
  pub time_unix_nano : ℕ
  pub count : ℕ
  pub sum : Option ℕ
  pub attributes : KeyValues
  pub rest : Bytes

pub record SummaryDataPoint : Type 0 where
  pub time_unix_nano : ℕ
  pub count : ℕ
  pub sum : ℕ
  pub attributes : KeyValues
  pub rest : Bytes

-- `metric::Data`, with the aggregation temporality, and for a sum whether it is monotonic.
pub data MetricData : Type 0 where
  gauge : List NumberDataPoint → MetricData
  sum : List NumberDataPoint → ℤ → Bool → MetricData
  histogram : List HistogramDataPoint → ℤ → MetricData
  exponential_histogram : List ExponentialHistogramDataPoint → ℤ → MetricData
  summary : List SummaryDataPoint → MetricData

pub record Metric : Type 0 where
  pub name : Str
  pub description : Str
  pub unit : Str
  pub contents : Option MetricData
  pub rest : Bytes

pub record ScopeMetrics : Type 0 where
  pub scope : Option Scope
  pub metrics : List Metric
  pub schema_url : Str

pub record ResourceMetrics : Type 0 where
  pub resource : Option Resource
  pub scope_metrics : List ScopeMetrics
  pub schema_url : Str

pub record MetricsData : Type 0 where
  pub resource_metrics : List ResourceMetrics
