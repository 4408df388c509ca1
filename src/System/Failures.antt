-- ===== src/System/Failures.antt =====
-- Requests that are not answered.
use otelview_postgres.Common.{◌≡◌, ◌⊎◌, inl, inr, false, refl, Result, ok, err, Error}
use otelview_postgres.Database.{Connection}
use otelview_postgres.Server.{reply, internal, and_then, export_traces, export_logs}
use otelview_postgres.Server.Metrics.{export_metrics}
use otelview_postgres.Spans.Upsert.{write-IsAtomic}
use otelview_postgres.Logs.Writes.{write_logs-IsAtomic}
use otelview_postgres.Metrics.Writes.{write_metrics-IsAtomic}
use otelview_postgres.System.{
  Environment, Request, trace_export, log_export, metric_export, traces_of, traces_found, ids_found,
  summaries_found, services_asked, log_services_asked, metric_services_asked, operations_asked,
  dependencies_asked, logs_found, metrics_listed, metrics_found, stats_asked, answered, ending,
  answer,
}
use otelview_postgres.System.Reads.{is_export, answer_reads}

export_fails :
    {A B : Type 0} (r : Result A × Connection) (g : A → B) (c : Connection)
    → ((e : Error) → r.0 ≡ err e → r.1.database ≡ c.database)
    → ¬ ((ending (and_then internal r (λ a d. (reply (g a), d)))).0 ≡ answered)
    → (ending (and_then internal r (λ a d. (reply (g a), d)))).1.database ≡ c.database
export_fails (ok a, d) g c h n = absurd (n refl)
export_fails (err e, d) g c h n = h e refl

-- A request that is refused, or whose handler panics, leaves the database as it was, whichever of its own requests to the database failed.
unanswered_unchanged :
    (env : Environment) (request : Request) (c : Connection)
    → ¬ ((answer env request c).0 ≡ answered)
    → (answer env request c).1.database ≡ c.database
unfolding answer export_traces export_logs export_metrics is_export
unanswered_unchanged env (trace_export data') c n =
    export_fails _ _ c ((write-IsAtomic env.trace_codec env.keys data').at c) n
unanswered_unchanged env (log_export data') c n =
    export_fails _ _ c ((write_logs-IsAtomic env.log_codec env.json_text data').at c) n
unanswered_unchanged env (metric_export data') c n =
    export_fails _ _ c ((write_metrics-IsAtomic env.metric_codec env.to_double data').at c) n
unanswered_unchanged env (traces_of ids) c n = answer_reads env (traces_of ids) c refl
unanswered_unchanged env (traces_found query) c n = answer_reads env (traces_found query) c refl
unanswered_unchanged env (ids_found query) c n = answer_reads env (ids_found query) c refl
unanswered_unchanged env (summaries_found query) c n =
    answer_reads env (summaries_found query) c refl
unanswered_unchanged env services_asked c n = answer_reads env services_asked c refl
unanswered_unchanged env log_services_asked c n = answer_reads env log_services_asked c refl
unanswered_unchanged env metric_services_asked c n = answer_reads env metric_services_asked c refl
unanswered_unchanged env (operations_asked asked) c n =
    answer_reads env (operations_asked asked) c refl
unanswered_unchanged env (dependencies_asked asked) c n =
    answer_reads env (dependencies_asked asked) c refl
unanswered_unchanged env (logs_found query) c n = answer_reads env (logs_found query) c refl
unanswered_unchanged env metrics_listed c n = answer_reads env metrics_listed c refl
unanswered_unchanged env (metrics_found query) c n = answer_reads env (metrics_found query) c refl
unanswered_unchanged env stats_asked c n = answer_reads env stats_asked c refl

-- A request that is no export, and any request that is refused or whose handler panics, leaves the database as it was, whichever of its own requests to the database failed.
pub unchanged_unless_exported :
    (env : Environment) (request : Request) (c : Connection)
    → (is_export request ≡ false) ⊎ ¬ ((answer env request c).0 ≡ answered)
    → (answer env request c).1.database ≡ c.database
unchanged_unless_exported env request c (inl h) = answer_reads env request c h
unchanged_unless_exported env request c (inr n) = unanswered_unchanged env request c n
