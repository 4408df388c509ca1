-- ===== src/System.antt =====
-- The whole service: every request that `main` of src/main.rs makes it answer, over the handlers of src/server.rs, and its states under requests and
-- sweeps in any order.
pub mod Reads
pub mod Failures
pub mod Exports
pub mod Steps
pub mod Validity
pub mod Durability
use otelview_postgres.Common.{ℕ, zero, Bool, Option, none, some, List, Bytes, Str, Error}
use otelview_postgres.Common.Int.{ℤ}
use otelview_postgres.Codec.{Codec}
use otelview_postgres.HashMap.{Iteration}
use otelview_postgres.Hex.{Outcome, returned, panicked}
use otelview_postgres.Json.{Json}
use otelview_postgres.Otlp.{TracesData, LogsData}
use otelview_postgres.Otlp.Metrics.{MetricsData}
use otelview_postgres.Database.{Connection}
use otelview_postgres.Search.{TraceQuery, StoredSpan}
use otelview_postgres.Logs.{LogQuery}
use otelview_postgres.Metrics.Query.{MetricQuery}
use otelview_postgres.Listing.{Collation}
use otelview_postgres.Diagnostics.{Estimates}
use otelview_postgres.Spans.{Rejection}
use otelview_postgres.Server.{
  Status, Reply, status, reply, export_traces, export_logs, get_traces, find_traces,
  find_trace_i_ds, find_trace_summaries, stream_logs,
}
use otelview_postgres.Server.Readers.{
  OperationsRequest, DependenciesRequest, get_services, get_log_services, get_metric_services,
  get_operations, list_metrics, get_dependencies, get_stats,
}
use otelview_postgres.Server.Metrics.{export_metrics, stream_metrics}

-- What the answer to a request depends on beside the request and the database.
pub record Environment : Type 0 where
  pub trace_codec : Codec TracesData
  pub log_codec : Codec LogsData
  pub metric_codec : Codec MetricsData
  pub describe : Rejection → Str
  pub json_text : Json → Str
  pub to_double : ℤ → ℕ
  pub jsonb_contains : Json → Json → Bool
  pub jsonb_eq : Json → Json → Bool
  pub ilike : Str → Str → Bool
  pub collation : Collation
  pub estimates : Estimates
  pub max_search_depth : ℕ
  pub keys : Iteration ℕ
  pub traces : Iteration (List StoredSpan)
  pub services : Iteration (Str × (ℕ × ℕ))
  pub series : Iteration (List ℕ)
  pub task_faults : ℕ → List (Option Error)
  pub choices : ℕ → ℕ

-- A request to one of the services, with what its handler reads of it.
pub data Request : Type 0 where
  trace_export : TracesData → Request
  log_export : LogsData → Request
  metric_export : MetricsData → Request
  traces_of : List Bytes → Request
  traces_found ids_found summaries_found : Option TraceQuery → Request
  services_asked log_services_asked metric_services_asked : Request
  operations_asked : OperationsRequest → Request
  dependencies_asked : DependenciesRequest → Request
  logs_found : Option LogQuery → Request
  metrics_listed : Request
  metrics_found : Option MetricQuery → Request
  stats_asked : Request

-- How a handler ends, as far as it does not depend on the request.
pub data Ending : Type 0 where
  answered : Ending
  refused : Status → Ending
  crashed : Ending

abbrev pub ending : {A : Type 0} → Reply A × Connection → Ending × Connection
ending (status s, c) = (refused s, c)
ending (reply a, c) = (answered, c)

abbrev pub ending_of :
    {A : Type 0} → Connection → Outcome (Reply A × Connection) → Ending × Connection
ending_of c panicked = (crashed, c)
ending_of c (returned r) = ending r

-- The handler of each request. A panic comes before any request to the database.
unfoldable pub answer : Environment → Request → Connection → Ending × Connection
answer env (trace_export data') c =
    ending (export_traces env.trace_codec env.keys env.describe data' c)
answer env (log_export data') c = ending (export_logs env.log_codec env.json_text data' c)
answer env (metric_export data') c = ending (export_metrics env.metric_codec env.to_double data' c)
answer env (traces_of ids) c = ending (get_traces env.trace_codec ids c)
answer env (traces_found query) c =
    ending (find_traces env.trace_codec env.jsonb_contains env.max_search_depth query c)
answer env (ids_found query) c =
    ending (find_trace_i_ds env.jsonb_contains env.max_search_depth query c)
answer env (summaries_found query) c =
    ending
      (find_trace_summaries env.jsonb_contains env.max_search_depth env.traces env.services query c)
answer env services_asked c = ending (get_services env.collation c)
answer env log_services_asked c = ending (get_log_services env.collation c)
answer env metric_services_asked c = ending (get_metric_services env.collation c)
answer env (operations_asked request) c = ending (get_operations env.collation request c)
answer env (dependencies_asked request) c = ending (get_dependencies request c)
answer env (logs_found query) c =
    ending_of c (stream_logs env.log_codec env.ilike env.json_text env.max_search_depth query c)
answer env metrics_listed c = ending (list_metrics env.collation env.task_faults env.choices c)
answer env (metrics_found query) c =
    ending (stream_metrics env.metric_codec env.jsonb_eq env.json_text env.series query c)
answer env stats_asked c = ending (get_stats env.collation env.estimates c)
