-- ===== src/Server/Readers.antt =====
-- The listings of services, of operations and of dependencies, and the counters: `TraceReader`, `DependencyReader`, `LogReader`, `MetricReader` and `Diagnostics` of src/server.rs.
pub mod Bounds
use otelview_postgres.Common.{
  ℕ, not, Option, none, some, List, map, if◌then◌else◌, Str, text, is_empty, Result, ok, err, Error,
}
use otelview_postgres.Common.Int.{ℤ, ltb_ℤ}
use otelview_postgres.Time.{Timestamp, timestamp_to_nanos}
use otelview_postgres.Listing.{Collation}
use otelview_postgres.Listing as Listing
use otelview_postgres.Listing.Operations.{Operation}
use otelview_postgres.Listing.Operations as Operations
use otelview_postgres.Dependencies.{Calls, dependencies}
use otelview_postgres.Diagnostics.{Stats, Estimates, stats}
use otelview_postgres.Metrics.Catalog.{MetricInfo}
use otelview_postgres.Metrics.Catalog as Catalog
use otelview_postgres.Server.{Reply, status, reply, Handler, and_then, internal, invalid}

-- `GetOperationsRequest`
pub record OperationsRequest : Type 0 where
  pub service : Str
  pub span_kind : Str

-- `GetDependenciesRequest`
pub record DependenciesRequest : Type 0 where
  pub start_time : Option Timestamp
  pub end_time : Option Timestamp

-- `Dependency`
pub record Dependency : Type 0 where
  pub parent : Str
  pub child : Str
  pub call_count : ℕ
  pub source : Str

module _ (collation : Collation) where
  unfoldable pub get_services : Handler (List Str)
  unfolding internal
  get_services c = and_then internal (Listing.services collation c) λ names c'. (reply names, c')

  unfoldable pub get_log_services : Handler (List Str)
  unfolding internal
  get_log_services c =
      and_then internal (Listing.log_services collation c) λ names c'. (reply names, c')

  unfoldable pub get_metric_services : Handler (List Str)
  unfolding internal
  get_metric_services c =
      and_then internal (Listing.metric_services collation c) λ names c'. (reply names, c')

  unfoldable pub get_operations : OperationsRequest → Handler (List Operation)
  unfolding internal
  get_operations request c =
      if is_empty request.service
      then (status (invalid (text "service is required")), c)
      else and_then internal (Operations.operations collation request.service request.span_kind c)
          λ found c'. (reply found, c')

  -- `MetricReader::list_metrics`, with the answers to the lookups and the order in which they end.
  unfoldable pub list_metrics : (ℕ → List (Option Error)) → (ℕ → ℕ) → Handler (List MetricInfo)
  unfolding internal
  list_metrics faults choices c =
      and_then internal (Catalog.list_metrics collation faults choices c)
        λ infos c'. (reply infos, c')

-- `timestamp_to_nanos(request.field.as_ref().ok_or_else(…)?).map_err(…)?`
abbrev pub bound : Str → Option Timestamp → Reply ℤ
bound missing none = status (invalid missing)
bound missing (some ts) = elim (timestamp_to_nanos ts) [
  | err e ↦ status (invalid e.message)
  | ok nanos ↦ reply nanos
]

-- The counts are of rows, so `calls.max(0)` is `calls`.
abbrev pub dependency : Calls → Dependency
dependency calls = record {
  parent = calls.parent;
  child = calls.child;
  call_count = calls.calls;
  source = text "postgres";
}

abbrev pub between : Reply ℤ → Reply ℤ → Handler (List Dependency)
between (status s) end c = (status s, c)
between (reply start) (status s) c = (status s, c)
between (reply start) (reply end) c =
    if not (ltb_ℤ start end)
    then (status (invalid (text "start_time must be before end_time")), c)
    else and_then internal (dependencies start end c) λ calls c'. (reply (map dependency calls), c')

unfoldable pub get_dependencies : DependenciesRequest → Handler (List Dependency)
unfolding internal
get_dependencies request =
    between (bound (text "start_time is required") request.start_time)
      (bound (text "end_time is required") request.end_time)

-- `GetStatsResponse`
pub record StatsResponse : Type 0 where
  pub spans : ℕ
  pub logs : ℕ
  pub metric_points : ℕ
  pub services : ℕ
  pub backend : Str

-- `Diagnostics::get_stats`
unfoldable pub get_stats : Collation → Estimates → Handler StatsResponse
unfolding internal
get_stats collation estimates c = and_then internal (stats collation estimates c) λ found c'. (
  reply (record {
    spans = found.spans;
    logs = found.logs;
    metric_points = found.metric_points;
    services = found.services;
    backend = text "postgres";
  }),
  c',
)
