-- ===== src/Metrics/Writes.antt =====
-- `write_metrics` stores every data point of an export, in order, or none.
use otelview_postgres.Common.{
  ℕ, ◌+◌, ◌≡◌, refl, sym, ap, subst, ◌∙◌, Option, none, some, List, [], ◌∷◌, ◌++◌, ok, err, Error,
  length, length-append, length-map, total, try_fold_counts, >>=-eq-ok, ok-injective, arith,
  append_assoc, append-nil, Str,
}
use otelview_postgres.Common.Chunks.{chunks, concat, concat-chunks}
use otelview_postgres.Common.Int.{ℤ}
use otelview_postgres.Codec.{Codec}
use otelview_postgres.Json.{Json, attributes_to_json, resource_attributes, service_name}
use otelview_postgres.Otlp.Metrics.{
  MetricData, gauge, sum, histogram, exponential_histogram, summary, Metric, ScopeMetrics,
  ResourceMetrics, MetricsData,
}
use otelview_postgres.Schema.{MetricRow, Database}
use otelview_postgres.Database.{
  Connection, calm, ◌>>=◌, pure, lift, request, begin, execute, commit,
}
use otelview_postgres.Database.Transactions.{
  Reads, IsAtomic, atomic_rules, Reads-pure, Reads-bind, Reads-execute, Reads-IsAtomic,
}
use otelview_postgres.Spans.{insert_chunk_rows}
use otelview_postgres.Metrics.{
  FlatPoint, flatten_data, flatten_metric, metric_row, gather_point, gather_metric, gather_scope,
  gather_resource, gather, insert_statement, insert_chunks, write_rows, write_metrics,
}

abbrev points_in : MetricData → ℕ
points_in (gauge points) = length points
points_in (sum points _ _) = length points
points_in (histogram points _) = length points
points_in (exponential_histogram points _) = length points
points_in (summary points) = length points

abbrev points_or_none : Option MetricData → ℕ
points_or_none none = 0
points_or_none (some d) = points_in d

-- The data points of a metric and of a resource.
abbrev pub points_of : Metric → ℕ
points_of m = points_or_none m.contents

abbrev pub resource_points : ResourceMetrics → ℕ
resource_points r = total (λ (s : ScopeMetrics). total points_of s.metrics) r.scope_metrics

total_ones : (xs : List FlatPoint) → total (λ _. 1) xs ≡ length xs
total_ones [] = refl
total_ones (x ∷ xs) = omega (arith, total_ones xs)

length-flatten_data :
    (to_double : ℤ → ℕ) (m : Metric) (d : MetricData)
    → length (flatten_data to_double m d) ≡ points_in d
unfolding flatten_data
length-flatten_data to_double m (gauge points) = length-map _ points
length-flatten_data to_double m (sum points t b) = length-map _ points
length-flatten_data to_double m (histogram points t) = length-map _ points
length-flatten_data to_double m (exponential_histogram points t) = length-map _ points
length-flatten_data to_double m (summary points) = length-map _ points

length-flatten_metric :
    (to_double : ℤ → ℕ) (m : Metric) → length (flatten_metric to_double m) ≡ points_of m
unfolding flatten_metric
length-flatten_metric to_double m = by_contents m.contents refl
  where
    by_contents :
        (contents : Option MetricData)
        → m.contents ≡ contents
        → length (flatten_metric to_double m) ≡ points_or_none m.contents
    by_contents none h = rw h
    by_contents (some d) h = rw h (length-flatten_data to_double m d)

abbrev Counted : ℕ → List MetricRow → Type 0
Counted n rows = length rows ≡ n

module _ (codec : Codec MetricsData) (to_double : ℤ → ℕ) where
  gather_point-Counted :
      (r : ResourceMetrics) (service : Str) (ra : Json) (s : ScopeMetrics) (n : ℕ)
      (rows rows' : List MetricRow) (point : FlatPoint)
      → gather_point codec to_double r service ra s rows point ≡ ok rows'
      → Counted n rows
      → Counted (n + 1) rows'
  unfolding gather_point
  gather_point-Counted r service ra s n rows rows' point e h =
      let (row, made, rest) = >>=-eq-ok (metric_row codec to_double r s point service ra) _ e in
      subst (Counted (n + 1)) (ok-injective rest)
        (omega (arith, length-append {0} rows (row ∷ []), h))

  gather_metric-Counted :
      (r : ResourceMetrics) (service : Str) (ra : Json) (s : ScopeMetrics) (n : ℕ)
      (rows rows' : List MetricRow) (m : Metric)
      → gather_metric codec to_double r service ra s rows m ≡ ok rows'
      → Counted n rows
      → Counted (n + points_of m) rows'
  unfolding gather_metric
  gather_metric-Counted r service ra s n rows rows' m e h =
      try_fold_counts Counted (gather_point codec to_double r service ra s) (λ _. 1)
        (gather_point-Counted r service ra s) n rows rows' (flatten_metric to_double m) e h
      ∙ ap (λ k. n + k)
          (total_ones (flatten_metric to_double m) ∙ length-flatten_metric to_double m)

  gather_scope-Counted :
      (r : ResourceMetrics) (service : Str) (ra : Json) (n : ℕ) (rows rows' : List MetricRow)
      (s : ScopeMetrics)
      → gather_scope codec to_double r service ra rows s ≡ ok rows'
      → Counted n rows
      → Counted (n + total points_of s.metrics) rows'
  unfolding gather_scope
  gather_scope-Counted r service ra n rows rows' s =
      try_fold_counts Counted (gather_metric codec to_double r service ra s) points_of
        (gather_metric-Counted r service ra s) n rows rows' s.metrics

  gather_resource-Counted :
      (n : ℕ) (rows rows' : List MetricRow) (r : ResourceMetrics)
      → gather_resource codec to_double rows r ≡ ok rows'
      → Counted n rows
      → Counted (n + resource_points r) rows'
  unfolding gather_resource
  gather_resource-Counted n rows rows' r =
      let attrs = attributes_to_json (resource_attributes r.resource) in
      try_fold_counts Counted (gather_scope codec to_double r (service_name attrs) attrs)
        (λ s. total points_of s.metrics) (gather_scope-Counted r (service_name attrs) attrs) n rows
        rows' r.scope_metrics

  gather-Counted :
      (metrics : MetricsData) (rows : List MetricRow)
      → gather codec to_double metrics ≡ ok rows
      → length rows ≡ total resource_points metrics.resource_metrics
  unfolding gather
  gather-Counted metrics rows e =
      try_fold_counts Counted (gather_resource codec to_double) resource_points
        gather_resource-Counted 0 [] rows metrics.resource_metrics e refl
      ∙ omega arith

insert_chunks-calm :
    (db tx : Database) (pieces : List (List MetricRow))
    → insert_chunks tx pieces (calm db)
      ≡ (ok (record tx { metric_points = tx.metric_points ++ concat pieces }), calm db)
unfolding insert_chunks pure ◌>>=◌ execute request insert_statement
insert_chunks-calm db tx [] = rw append-nil
insert_chunks-calm db tx (piece ∷ pieces) =
    rw (sym (append_assoc tx.metric_points piece (concat pieces)))
      (insert_chunks-calm db (record tx { metric_points = tx.metric_points ++ piece }) pieces)

write_rows-calm :
    (db : Database) (rows : List MetricRow)
    → write_rows rows (calm db)
      ≡ (ok (length rows), calm (record db { metric_points = db.metric_points ++ rows }))
unfolding write_rows ◌>>=◌ begin request commit pure
write_rows-calm db [] = rw append-nil
write_rows-calm db (row ∷ rows) = rw (
  insert_chunks-calm db db (chunks insert_chunk_rows (row ∷ rows)),
  concat-chunks insert_chunk_rows (row ∷ rows) (omega arith),
)

-- If every data point of an export becomes a row and no request fails, `write_metrics` appends exactly these rows, in order, to the
-- table of metric points and returns the number of data points in the export.
pub write_metrics-appends :
    (codec : Codec MetricsData) (to_double : ℤ → ℕ) (metrics : MetricsData) (db : Database)
    (rows : List MetricRow)
    → gather codec to_double metrics ≡ ok rows
    → write_metrics codec to_double metrics (calm db) ≡ (
      ok (total resource_points metrics.resource_metrics),
      calm (record db { metric_points = db.metric_points ++ rows }),
    )
unfolding write_metrics ◌>>=◌ lift
write_metrics-appends codec to_double metrics db rows e =
    rw (e, write_rows-calm db rows, gather-Counted codec to_double metrics rows e)

insert_chunks-Reads :
    (tx : Database) (pieces : List (List MetricRow)) → Reads (insert_chunks tx pieces)
unfolding insert_chunks
insert_chunks-Reads tx [] = Reads-pure tx
insert_chunks-Reads tx (piece ∷ pieces) =
    Reads-bind _ _ (Reads-execute tx (insert_statement piece))
      (λ tx'. insert_chunks-Reads tx' pieces)

write_rows-IsAtomic : (rows : List MetricRow) → IsAtomic (write_rows rows)
unfolding write_rows
write_rows-IsAtomic [] = Reads-IsAtomic _ (Reads-pure 0)
write_rows-IsAtomic (row ∷ rows) = search (atomic_rules, insert_chunks-Reads) depth 8

pub write_metrics-IsAtomic :
    (codec : Codec MetricsData) (to_double : ℤ → ℕ) (metrics : MetricsData)
    → IsAtomic (write_metrics codec to_double metrics)
unfolding write_metrics
write_metrics-IsAtomic codec to_double metrics = search (atomic_rules, write_rows-IsAtomic)

-- A `write_metrics` that ends in an error leaves the database as it was.
pub write_metrics_fails_unchanged :
    (codec : Codec MetricsData) (to_double : ℤ → ℕ) (metrics : MetricsData) (c : Connection)
    (e : Error)
    → (write_metrics codec to_double metrics c).0 ≡ err e
    → (write_metrics codec to_double metrics c).1.database ≡ c.database
write_metrics_fails_unchanged codec to_double metrics c e h =
    (write_metrics-IsAtomic codec to_double metrics).at c e h
