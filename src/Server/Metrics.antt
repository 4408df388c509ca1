-- ===== src/Server/Metrics.antt =====
-- The handlers of metrics: `MetricsService::export` and `MetricReader::find_metrics` of src/server.rs.
use otelview_postgres.Common.{
  ℕ, Bool, Option, List, [], ◌∷◌, ◌++◌, map, Bytes, Str, Result, ok, try_fold,
}
use otelview_postgres.Common as Common
use otelview_postgres.Common.Int.{ℤ}
use otelview_postgres.Codec.{Codec}
use otelview_postgres.HashMap.{Iteration}
use otelview_postgres.Json.{Json}
use otelview_postgres.Otlp.Metrics.{MetricsData}
use otelview_postgres.Metrics.{write_metrics}
use otelview_postgres.Metrics.Query as Query
use otelview_postgres.Metrics.Query.{MetricQuery}
use otelview_postgres.Server.{
  Reply, reply, Handler, and_then, required, internal, invalid_or_internal, stream_chunks,
}

-- `MetricsService::export`
unfoldable pub export_metrics : Codec MetricsData → (ℤ → ℕ) → MetricsData → Handler (Unit {0})
unfolding internal
export_metrics codec to_double metrics c =
    and_then internal (write_metrics codec to_double metrics c) λ n c'. (reply tt, c')

module _ (codec : Codec MetricsData) where
  abbrev merge_one : MetricsData → Bytes → Result MetricsData
  merge_one chunk payload = Common.◌>>=◌ (codec.decode payload) λ metrics.
      ok (record { resource_metrics = chunk.resource_metrics ++ metrics.resource_metrics })

  -- The closure of `MetricReader::find_metrics`.
  unfoldable pub merge_metrics : List Bytes → Result MetricsData
  merge_metrics payloads = try_fold merge_one (record { resource_metrics = [] }) payloads

  -- `MetricReader::find_metrics`
  unfoldable pub stream_metrics :
      (Json → Json → Bool)
      → (Json → Str)
      → Iteration (List ℕ)
      → Option MetricQuery
      → Handler (List (Reply MetricsData))
  unfolding merge_metrics stream_chunks invalid_or_internal
  stream_metrics jsonb_eq json_text iteration query = required query λ q c.
      and_then invalid_or_internal (Query.find_metrics jsonb_eq json_text iteration q c)
        λ payloads c'. (reply (stream_chunks payloads merge_metrics), c')
