-- ===== src/Metrics/Flatten.antt =====
-- Splitting a metric into points loses nothing.
use otelview_postgres.Common.{ℕ, Bool, ◌≡◌, refl, ap, Option, none, some, List, [], ◌∷◌, map, All}
use otelview_postgres.Common.Chunks.{concat}
use otelview_postgres.Common.Int.{ℤ}
use otelview_postgres.Otlp.Metrics.{
  NumberDataPoint, HistogramDataPoint, ExponentialHistogramDataPoint, SummaryDataPoint, MetricData,
  gauge, sum, histogram, exponential_histogram, summary, Metric,
}
use otelview_postgres.Metrics.{FlatPoint, with_data, flatten_data, flatten_metric}

-- A data point of any kind.
pub data DataPoint : Type 0 where
  number : NumberDataPoint → DataPoint
  buckets : HistogramDataPoint → DataPoint
  scaled : ExponentialHistogramDataPoint → DataPoint
  quantiles : SummaryDataPoint → DataPoint

abbrev points_in : MetricData → List DataPoint
points_in (gauge points) = map number points
points_in (sum points _ _) = map number points
points_in (histogram points _) = map buckets points
points_in (exponential_histogram points _) = map scaled points
points_in (summary points) = map quantiles points

abbrev pub data_points : Option MetricData → List DataPoint
data_points none = []
data_points (some d) = points_in d

-- The data without its points: its kind, temporality and monotonicity.
abbrev frame_of : MetricData → MetricData
frame_of (gauge _) = gauge []
frame_of (sum _ temporality monotonic) = sum [] temporality monotonic
frame_of (histogram _ temporality) = histogram [] temporality
frame_of (exponential_histogram _ temporality) = exponential_histogram [] temporality
frame_of (summary _) = summary []

-- The metric without its points.
abbrev pub descriptor : Metric → Metric
descriptor m = record m { contents = elim m.contents [ none ↦ none | some d ↦ some (frame_of d) ] }

module _ (to_double : ℤ → ℕ) (m : Metric) where
  abbrev Lossless : MetricData → Type 0
  Lossless d =
      (concat (map (λ (p : FlatPoint). data_points p.metric.contents) (flatten_data to_double m d))
        ≡ points_in d)
      × All (λ (p : FlatPoint). descriptor p.metric ≡ with_data m (frame_of d))
          (flatten_data to_double m d)

  flatten_gauge : (points : List NumberDataPoint) → Lossless (gauge points)
  unfolding flatten_data
  flatten_gauge [] = (refl, tt)
  flatten_gauge (p ∷ points) =
      (ap (◌∷◌ (number p)) (flatten_gauge points).0, (refl, (flatten_gauge points).1))

  flatten_sum :
      (points : List NumberDataPoint) (temporality : ℤ) (monotonic : Bool)
      → Lossless (sum points temporality monotonic)
  unfolding flatten_data
  flatten_sum [] t b = (refl, tt)
  flatten_sum (p ∷ points) t b =
      (ap (◌∷◌ (number p)) (flatten_sum points t b).0, (refl, (flatten_sum points t b).1))

  flatten_histogram :
      (points : List HistogramDataPoint) (temporality : ℤ) → Lossless (histogram points temporality)
  unfolding flatten_data
  flatten_histogram [] t = (refl, tt)
  flatten_histogram (p ∷ points) t =
      (ap (◌∷◌ (buckets p)) (flatten_histogram points t).0, (refl, (flatten_histogram points t).1))

  flatten_exponential :
      (points : List ExponentialHistogramDataPoint) (temporality : ℤ)
      → Lossless (exponential_histogram points temporality)
  unfolding flatten_data
  flatten_exponential [] t = (refl, tt)
  flatten_exponential (p ∷ points) t = (
    ap (◌∷◌ (scaled p)) (flatten_exponential points t).0,
    (refl, (flatten_exponential points t).1),
  )

  flatten_summary : (points : List SummaryDataPoint) → Lossless (summary points)
  unfolding flatten_data
  flatten_summary [] = (refl, tt)
  flatten_summary (p ∷ points) =
      (ap (◌∷◌ (quantiles p)) (flatten_summary points).0, (refl, (flatten_summary points).1))

  flatten_data-Lossless : (d : MetricData) → Lossless d
  flatten_data-Lossless (gauge points) = flatten_gauge points
  flatten_data-Lossless (sum points t b) = flatten_sum points t b
  flatten_data-Lossless (histogram points t) = flatten_histogram points t
  flatten_data-Lossless (exponential_histogram points t) = flatten_exponential points t
  flatten_data-Lossless (summary points) = flatten_summary points

-- The pieces of a metric that holds data have, put together, exactly its data points in order, and each piece has the metric's
-- descriptor: name, unit, kind of data, temporality and whatever else is not a point.
pub flatten_metric_lossless :
    (to_double : ℤ → ℕ) (m : Metric) (d : MetricData)
    → m.contents ≡ some d
    → (concat (map (λ (p : FlatPoint). data_points p.metric.contents) (flatten_metric to_double m))
        ≡ data_points m.contents)
      × All (λ (p : FlatPoint). descriptor p.metric ≡ descriptor m) (flatten_metric to_double m)
unfolding flatten_metric
flatten_metric_lossless to_double m d h = rw h (flatten_data-Lossless to_double m d)
