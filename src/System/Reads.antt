-- ===== src/System/Reads.antt =====
-- Requests that only read.
use otelview_postgres.Common.{
  ℕ, ◌≡◌, refl, ◌∙◌, Bool, true, false, Option, none, some, List, [], ◌∷◌, map, Bytes, Str, Result,
  ok, err, Error, is_empty, Bool-cases, inl, inr, not, text,
}
use otelview_postgres.Common.Int.{ℤ, ltb_ℤ}
use otelview_postgres.Schema.{Database}
use otelview_postgres.Hex.{Outcome, returned, panicked}
use otelview_postgres.Json.{Json}
use otelview_postgres.Codec.{Codec}
use otelview_postgres.Otlp.{TracesData, LogsData}
use otelview_postgres.Database.{Connection, Db, request}
use otelview_postgres.Database.Transactions.{
  Reads, Reads-pure, Reads-request, Reads-bind, Reads-with_context, reading_rules,
}
use otelview_postgres.Search.{TraceQuery, FoundTraceId, find_ids, spans_for_ids}
use otelview_postgres.Listing.{Collation, distinct_indexed, services, log_services, metric_services}
use otelview_postgres.Listing.Operations.{operations}
use otelview_postgres.Dependencies.{dependencies}
use otelview_postgres.Diagnostics.{Estimates, stats}
use otelview_postgres.Logs.{LogQuery, LogCondition, log_conditions, run_query, find_logs}
use otelview_postgres.Metrics.Catalog as Catalog
use otelview_postgres.HashMap.{Iteration}
use otelview_postgres.Metrics.Query.{MetricQuery, find_metrics}
use otelview_postgres.Server.{
  Status, Reply, status, reply, Handler, and_then, required, stream_ids, after_validation,
  validate_trace_ids, get_traces, find_traces, find_trace_i_ds, internal, invalid_or_internal,
  find_trace_summaries, stream_found, stream_logs,
}
use otelview_postgres.Server.Readers.{
  bound, between, get_services, get_log_services, get_metric_services, get_operations, list_metrics,
  get_dependencies, get_stats,
}
use otelview_postgres.Server.Metrics.{stream_metrics}
use otelview_postgres.System.{
  Environment, Request, trace_export, log_export, metric_export, traces_of, traces_found, ids_found,
  summaries_found, services_asked, log_services_asked, metric_services_asked, operations_asked,
  dependencies_asked, logs_found, metrics_listed, metrics_found, stats_asked, ending, ending_of,
  answer,
}

unfoldable pub is_export : Request → Bool
is_export (trace_export _) = true
is_export (log_export _) = true
is_export (metric_export _) = true
is_export (traces_of _) = false
is_export (traces_found _) = false
is_export (ids_found _) = false
is_export (summaries_found _) = false
is_export services_asked = false
is_export log_services_asked = false
is_export metric_services_asked = false
is_export (operations_asked _) = false
is_export (dependencies_asked _) = false
is_export (logs_found _) = false
is_export metrics_listed = false
is_export (metrics_found _) = false
is_export stats_asked = false

Reads-services : (collation : Collation) → Reads (services collation)
unfolding services distinct_indexed
Reads-services collation = Reads-request _

Reads-log_services : (collation : Collation) → Reads (log_services collation)
unfolding log_services distinct_indexed
Reads-log_services collation = Reads-request _

Reads-metric_services : (collation : Collation) → Reads (metric_services collation)
unfolding metric_services distinct_indexed
Reads-metric_services collation = Reads-request _

Reads-operations :
    (collation : Collation) (service kind : Str) → Reads (operations collation service kind)
unfolding operations
Reads-operations collation service kind = Reads-request _

Reads-find_ids :
    (contains : Json → Json → Bool) (limit : ℕ) (query : TraceQuery)
    → Reads (find_ids contains limit query)
unfolding find_ids
Reads-find_ids contains limit query = search reading_rules depth 8

Reads-spans_for_ids : (ids : List Bytes) → Reads (spans_for_ids ids)
unfolding spans_for_ids
Reads-spans_for_ids [] = Reads-pure []
Reads-spans_for_ids (id ∷ ids) = Reads-request _

Reads-stats : (collation : Collation) (estimates : Estimates) → Reads (stats collation estimates)
unfolding stats
Reads-stats collation estimates =
    search (reading_rules, Reads-services, Reads-log_services, Reads-metric_services) depth 12

Reads-find_metrics :
    (jsonb_eq : Json → Json → Bool) (json_text : Json → Str) (iteration : Iteration (List ℕ))
    (query : MetricQuery)
    → Reads (find_metrics jsonb_eq json_text iteration query)
unfolding find_metrics
Reads-find_metrics jsonb_eq json_text iteration query = search reading_rules depth 12

Reads-list_metrics :
    (collation : Collation) (faults : ℕ → List (Option Error)) (choices : ℕ → ℕ)
    → Reads (Catalog.list_metrics collation faults choices)
unfolding Catalog.list_metrics distinct_indexed
Reads-list_metrics collation faults choices =
    Reads-bind _ _ (Reads-with_context _ _ (Reads-request _)) (λ names. record { at = λ c. refl })

Reads-run_query :
    (ilike : Str → Str → Bool) (json_text : Json → Str) (limit : ℕ) (query : LogQuery)
    (built : Result (List LogCondition))
    → Reads (run_query ilike json_text limit query built)
Reads-run_query ilike json_text limit query built = search reading_rules depth 8

module _ {A B : Type 0} where
  -- What follows a read, and reads itself, leaves the database as it was.
  and_then_reads :
      (f : Error → Status) (r : Result A × Connection) (next : A → Handler B) (db : Database)
      → r.1.database ≡ db
      → ((a : A) (c : Connection) → (next a c).1.database ≡ c.database)
      → (and_then f r next).1.database ≡ db
  and_then_reads f (ok a, c) next db h k = k a c ∙ h
  and_then_reads f (err e, c) next db h k = h

  required_reads :
      (o : Option A) (next : A → Handler B) (c : Connection)
      → ((a : A) (c : Connection) → (next a c).1.database ≡ c.database)
      → (required o next c).1.database ≡ c.database
  required_reads none next c k = refl
  required_reads (some a) next c k = k a c

ending_lem : {A : Type 0} (r : Reply A × Connection) → (ending r).1 ≡ r.1
ending_lem (status s, c) = refl
ending_lem (reply a, c) = refl

module _ (codec : Codec TracesData) where
  stream_ids_reads :
      (ids : List Bytes) (c : Connection) → (stream_ids codec ids c).1.database ≡ c.database
  unfolding stream_ids
  stream_ids_reads ids c =
      and_then_reads _ _ _ c.database ((Reads-spans_for_ids ids).at c) (λ a d. refl)

  after_validation_reads :
      (ids : List Bytes) (r : Reply (Unit {0})) (c : Connection)
      → (after_validation codec ids r c).1.database ≡ c.database
  after_validation_reads ids (status s) c = refl
  after_validation_reads ids (reply a) c = stream_ids_reads ids c

between_reads :
    (start end : Reply ℤ) (c : Connection) → (between start end c).1.database ≡ c.database
unfolding dependencies
between_reads (status s) end c = refl
between_reads (reply start) (status s) c = refl
between_reads (reply start) (reply end) c = elim (Bool-cases (not (ltb_ℤ start end))) [
  | inl e ↦ rw e refl
  | inr e ↦ rw e (and_then_reads _ _ _ c.database ((Reads-request _).at c) (λ a d. refl))
]

find_logs_reads :
    (ilike : Str → Str → Bool) (json_text : Json → Str) (limit : ℕ) (codec : Codec LogsData)
    (query : LogQuery) (c : Connection) (built : Outcome (Result (List LogCondition)))
    → (ending_of c (
        stream_found codec
          (elim built as (λ o. Outcome (Db (List Bytes))) [
            | panicked ↦ panicked
            | returned r ↦ returned (run_query ilike json_text limit query r)
          ])
          c)).1.database
      ≡ c.database
find_logs_reads ilike json_text limit codec query c panicked = refl
find_logs_reads ilike json_text limit codec query c (returned r) = rw ending_lem (
    and_then_reads _ _ _ c.database ((Reads-run_query ilike json_text limit query r).at c)
      (λ a d. refl))

summaries_reads :
    (env : Environment) (query : Option TraceQuery) (c : Connection)
    → (find_trace_summaries env.jsonb_contains env.max_search_depth env.traces env.services query
        c).1.database
      ≡ c.database
unfolding find_trace_summaries
summaries_reads env none c = refl
summaries_reads env (some q) c =
    and_then_reads invalid_or_internal (find_ids env.jsonb_contains env.max_search_depth q c) _
      c.database ((Reads-find_ids env.jsonb_contains env.max_search_depth q).at c)
      (λ ids d.
        and_then_reads internal (spans_for_ids (map (λ (id : FoundTraceId). id.trace_id) ids) d) _
          d.database ((Reads-spans_for_ids _).at d) (λ spans d'. refl))

-- A request that is no export leaves the database as it was, whatever it asks and whichever of its own requests to the database fail.
pub answer_reads :
    (env : Environment) (request : Request) (c : Connection)
    → is_export request ≡ false
    → (answer env request c).1.database ≡ c.database
unfolding answer is_export get_traces find_traces find_trace_i_ds get_services get_log_services
    get_metric_services get_operations get_dependencies stream_logs find_logs list_metrics
    stream_metrics get_stats
answer_reads env (trace_export d) c h = absurd (cc)
answer_reads env (log_export d) c h = absurd (cc)
answer_reads env (metric_export d) c h = absurd (cc)
answer_reads env (traces_of ids) c h =
    rw ending_lem (after_validation_reads env.trace_codec ids (validate_trace_ids ids) c)
answer_reads env (traces_found query) c h = rw ending_lem (
    required_reads query _ c λ q d.
      and_then_reads _ _ _ d.database ((Reads-find_ids _ _ q).at d)
        (λ ids d'. stream_ids_reads env.trace_codec _ d'))
answer_reads env (ids_found query) c h = rw ending_lem (
    required_reads query _ c
      λ q d. and_then_reads _ _ _ d.database ((Reads-find_ids _ _ q).at d) (λ ids d'. refl))
answer_reads env (summaries_found query) c h = rw ending_lem (summaries_reads env query c)
answer_reads env services_asked c h =
    rw ending_lem
      (and_then_reads _ _ _ c.database ((Reads-services env.collation).at c) (λ a d. refl))
answer_reads env log_services_asked c h =
    rw ending_lem
      (and_then_reads _ _ _ c.database ((Reads-log_services env.collation).at c) (λ a d. refl))
answer_reads env metric_services_asked c h =
    rw ending_lem
      (and_then_reads _ _ _ c.database ((Reads-metric_services env.collation).at c) (λ a d. refl))
answer_reads env (operations_asked request) c h = elim (Bool-cases (is_empty request.service)) [
  | inl e ↦ rw e refl
  | inr e ↦
      rw (e, ending_lem)
        (and_then_reads _ _ _ c.database
          ((Reads-operations env.collation request.service request.span_kind).at c) (λ a d. refl))
]
answer_reads env (dependencies_asked request) c h = rw ending_lem (
    between_reads (bound (text "start_time is required") request.start_time)
      (bound (text "end_time is required") request.end_time) c)
answer_reads env (logs_found none) c h = refl
answer_reads env (logs_found (some query)) c h =
    find_logs_reads env.ilike env.json_text env.max_search_depth env.log_codec query c
      (log_conditions query)
answer_reads env metrics_listed c h = rw ending_lem (
    and_then_reads _ _ _ c.database
      ((Reads-list_metrics env.collation env.task_faults env.choices).at c) (λ a d. refl))
answer_reads env (metrics_found query) c h = rw ending_lem (
    required_reads query _ c λ q d.
      and_then_reads _ _ _ d.database
        ((Reads-find_metrics env.jsonb_eq env.json_text env.series q).at d) (λ a d'. refl))
answer_reads env stats_asked c h =
    rw ending_lem (
      and_then_reads _ _ _ c.database ((Reads-stats env.collation env.estimates).at c)
        (λ a d. refl))
