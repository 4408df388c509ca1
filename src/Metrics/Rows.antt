-- ===== src/Metrics/Rows.antt =====
-- The rows that `write_metrics` gathers, and what its statements keep.
use otelview_postgres.Common.{
  ℕ, ◌≡◌, subst, List, [], ◌∷◌, ok, All, All-append, arith, Str, length, >>=-eq-ok, ok-injective,
  try_fold_keeps,
}
use otelview_postgres.Common.Chunks.{chunks, All-chunks}
use otelview_postgres.Codec.{Codec}
use otelview_postgres.Json.{Json, attributes_to_json, resource_attributes, service_name}
use otelview_postgres.Common.Int.{ℤ}
use otelview_postgres.Otlp.Metrics.{Metric, ScopeMetrics, ResourceMetrics, MetricsData}
use otelview_postgres.Schema.{MetricRow, Database}
use otelview_postgres.Database.Keeps.{
  Keeps, Anything, Keeps-pure, Keeps-lift, Keeps-begin, Keeps-execute, Keeps-commit, Keeps-bind,
}
use otelview_postgres.Spans.{insert_chunk_rows}
use otelview_postgres.Metrics.{
  FlatPoint, flatten_metric, metric_row, gather_point, gather_metric, gather_scope, gather_resource,
  gather, insert_statement, insert_chunks, write_rows, write_metrics,
}

module _ (codec : Codec MetricsData) (to_double : ℤ → ℕ) (L : MetricRow → Type 0)
    (made : (r : ResourceMetrics) (s : ScopeMetrics) (point : FlatPoint) (service : Str) (ra : Json)
        (row : MetricRow)
      → metric_row codec to_double r s point service ra ≡ ok row
      → L row) where
  gather_point-All :
      (r : ResourceMetrics) (service : Str) (ra : Json) (s : ScopeMetrics)
      (rows rows' : List MetricRow) (point : FlatPoint)
      → gather_point codec to_double r service ra s rows point ≡ ok rows'
      → All L rows
      → All L rows'
  unfolding gather_point
  gather_point-All r service ra s rows rows' point e h =
      let (row, one, rest) = >>=-eq-ok (metric_row codec to_double r s point service ra) _ e in
      subst (All L) (ok-injective rest)
        (All-append L rows (row ∷ []) h (made r s point service ra row one, tt))

  gather_metric-All :
      (r : ResourceMetrics) (service : Str) (ra : Json) (s : ScopeMetrics)
      (rows rows' : List MetricRow) (metric : Metric)
      → gather_metric codec to_double r service ra s rows metric ≡ ok rows'
      → All L rows
      → All L rows'
  unfolding gather_metric
  gather_metric-All r service ra s rows rows' metric =
      try_fold_keeps (All L) (gather_point codec to_double r service ra s)
        (gather_point-All r service ra s) rows rows' (flatten_metric to_double metric)

  gather_scope-All :
      (r : ResourceMetrics) (service : Str) (ra : Json) (rows rows' : List MetricRow)
      (s : ScopeMetrics)
      → gather_scope codec to_double r service ra rows s ≡ ok rows'
      → All L rows
      → All L rows'
  unfolding gather_scope
  gather_scope-All r service ra rows rows' s =
      try_fold_keeps (All L) (gather_metric codec to_double r service ra s)
        (gather_metric-All r service ra s) rows rows' s.metrics

  gather_resource-All :
      (rows rows' : List MetricRow) (r : ResourceMetrics)
      → gather_resource codec to_double rows r ≡ ok rows'
      → All L rows
      → All L rows'
  unfolding gather_resource
  gather_resource-All rows rows' r =
      let attrs = attributes_to_json (resource_attributes r.resource) in
      try_fold_keeps (All L) (gather_scope codec to_double r (service_name attrs) attrs)
        (gather_scope-All r (service_name attrs) attrs) rows rows' r.scope_metrics

  -- What holds of each row that is made of a data point holds of all that are gathered.
  pub gather-All :
      (metrics : MetricsData) (rows : List MetricRow)
      → gather codec to_double metrics ≡ ok rows
      → All L rows
  unfolding gather
  gather-All metrics rows e =
      try_fold_keeps (All L) (gather_resource codec to_double) gather_resource-All [] rows
        metrics.resource_metrics e tt

  -- What the insertion of such rows keeps, a `write_metrics` keeps, whichever of its requests fail.
  module _ (P : Database → Type 0)
      (inserts : (rows : List MetricRow) (db db' : Database)
        → All L rows
        → insert_statement rows db ≡ ok db'
        → P db
        → P db') where
    insert_chunks-Keeps :
        (pieces : List (List MetricRow)) (tx : Database)
        → All (All L) pieces
        → P tx
        → Keeps P P (insert_chunks tx pieces)
    unfolding insert_chunks
    insert_chunks-Keeps [] tx h p = Keeps-pure P P tx p
    insert_chunks-Keeps (piece ∷ pieces) tx h p =
        Keeps-bind P P P _ _
          (Keeps-execute P tx (insert_statement piece) (λ tx' e. inserts piece tx tx' h.0 e p))
          (λ tx' p'. insert_chunks-Keeps pieces tx' h.1 p')

    write_rows-Keeps : (rows : List MetricRow) → All L rows → Keeps P Anything (write_rows rows)
    unfolding write_rows
    write_rows-Keeps [] h = Keeps-pure P Anything 0 tt
    write_rows-Keeps (row ∷ rows) h = Keeps-bind P P Anything _ _ (Keeps-begin P) λ tx p.
        Keeps-bind P P Anything _ _
          (insert_chunks-Keeps (chunks insert_chunk_rows (row ∷ rows)) tx
            (All-chunks L insert_chunk_rows (row ∷ rows) (omega arith) h) p)
          λ tx' p'.
            Keeps-bind P Anything Anything _ _ (Keeps-commit P tx' p')
              λ done q. Keeps-pure P Anything (length (row ∷ rows)) tt

    pub write_metrics-Keeps :
        (metrics : MetricsData) → Keeps P Anything (write_metrics codec to_double metrics)
    unfolding write_metrics
    write_metrics-Keeps metrics =
        Keeps-bind P (All L) Anything _ _
          (Keeps-lift P (All L) (gather codec to_double metrics) (gather-All metrics))
          write_rows-Keeps
