-- ===== src/System/Exports.antt =====
-- What every statement of the program keeps, every answer keeps.
use otelview_postgres.Common.{ℕ, ◌≡◌, refl, sym, subst, false, List, Str, All, Result, ok, err}
use otelview_postgres.Common.Int.{ℤ}
use otelview_postgres.Codec.{Codec}
use otelview_postgres.Json.{Json}
use otelview_postgres.Otlp.{
  Span, ScopeSpans, ResourceSpans, LogRecord, ScopeLogs, ResourceLogs, TracesData, LogsData,
}
use otelview_postgres.Otlp.Metrics.{ScopeMetrics, ResourceMetrics, MetricsData}
use otelview_postgres.Schema.{SpanRow, LogRow, MetricRow, Database}
use otelview_postgres.Database.{Connection}
use otelview_postgres.Spans as Spans
use otelview_postgres.Spans.Rows.{write-Keeps}
use otelview_postgres.Logs as Logs
use otelview_postgres.Logs.Rows.{write_logs-Keeps}
use otelview_postgres.Metrics as Metrics
use otelview_postgres.Metrics.Rows.{write_metrics-Keeps}
use otelview_postgres.Server.{reply, internal, and_then, export_traces, export_logs}
use otelview_postgres.Server.Metrics.{export_metrics}
use otelview_postgres.System.{
  Environment, Request, trace_export, log_export, metric_export, traces_of, traces_found, ids_found,
  summaries_found, services_asked, log_services_asked, metric_services_asked, operations_asked,
  dependencies_asked, logs_found, metrics_listed, metrics_found, stats_asked, ending, answer,
}
use otelview_postgres.System.Reads.{is_export, answer_reads}

-- `P` is kept by each INSERT of rows that the program makes: what is known of such rows is `S`, `L` and `M`.
pub record InsertsKeep (P : Database → Type 0) (S : SpanRow → Type 0) (L : LogRow → Type 0)
    (M : MetricRow → Type 0) : Type 0 where
  pub span_made :
      (codec : Codec TracesData) (r : ResourceSpans) (s : ScopeSpans) (span : Span) (service : Str)
      (ra sa : Json) (row : SpanRow)
      → Spans.span_row codec r s span service ra sa ≡ ok row
      → S row
  pub log_made :
      (codec : Codec LogsData) (json_text : Json → Str) (r : ResourceLogs) (s : ScopeLogs)
      (log : LogRecord) (service : Str) (ra : Json) (row : LogRow)
      → Logs.log_row codec json_text r s log service ra ≡ ok row
      → L row
  pub point_made :
      (codec : Codec MetricsData) (to_double : ℤ → ℕ) (r : ResourceMetrics) (s : ScopeMetrics)
      (point : Metrics.FlatPoint) (service : Str) (ra : Json) (row : MetricRow)
      → Metrics.metric_row codec to_double r s point service ra ≡ ok row
      → M row
  pub spans_inserted :
      (rows : List SpanRow) (db db' : Database)
      → All S rows
      → Spans.insert_statement rows db ≡ ok db'
      → P db
      → P db'
  pub logs_inserted :
      (rows : List LogRow) (db db' : Database)
      → All L rows
      → Logs.insert_statement rows db ≡ ok db'
      → P db
      → P db'
  pub points_inserted :
      (rows : List MetricRow) (db db' : Database)
      → All M rows
      → Metrics.insert_statement rows db ≡ ok db'
      → P db
      → P db'

export_at :
    {A B : Type 0} (P : Database → Type 0) (r : Result A × Connection) (g : A → B)
    → P r.1.database
    → P (ending (and_then internal r (λ a d. (reply (g a), d)))).1.database
export_at P (ok a, d) g h = h
export_at P (err e, d) g h = h

module _ (P : Database → Type 0) (S : SpanRow → Type 0) (L : LogRow → Type 0)
    (M : MetricRow → Type 0) (keeps : InsertsKeep P S L M) where
  read_at :
      (env : Environment) (request : Request) (c : Connection)
      → is_export request ≡ false
      → P c.database
      → P (answer env request c).1.database
  read_at env request c h p = subst P (sym (answer_reads env request c h)) p

  pub answer_at :
      (env : Environment) (request : Request) (c : Connection)
      → P c.database
      → P (answer env request c).1.database
  unfolding answer export_traces export_logs export_metrics is_export
  answer_at env (trace_export data') c p = export_at P _ _ (
      (write-Keeps env.trace_codec S (keeps.span_made env.trace_codec) P keeps.spans_inserted
          env.keys data').at
        c p)
  answer_at env (log_export data') c p = export_at P _ _ (
      (write_logs-Keeps env.log_codec env.json_text L (keeps.log_made env.log_codec env.json_text) P
          keeps.logs_inserted data').at
        c p)
  answer_at env (metric_export data') c p = export_at P _ _ (
      (write_metrics-Keeps env.metric_codec env.to_double M
          (keeps.point_made env.metric_codec env.to_double) P keeps.points_inserted data').at
        c p)
  answer_at env (traces_of ids) c p = read_at env (traces_of ids) c refl p
  answer_at env (traces_found query) c p = read_at env (traces_found query) c refl p
  answer_at env (ids_found query) c p = read_at env (ids_found query) c refl p
  answer_at env (summaries_found query) c p = read_at env (summaries_found query) c refl p
  answer_at env services_asked c p = read_at env services_asked c refl p
  answer_at env log_services_asked c p = read_at env log_services_asked c refl p
  answer_at env metric_services_asked c p = read_at env metric_services_asked c refl p
  answer_at env (operations_asked asked) c p = read_at env (operations_asked asked) c refl p
  answer_at env (dependencies_asked asked) c p = read_at env (dependencies_asked asked) c refl p
  answer_at env (logs_found query) c p = read_at env (logs_found query) c refl p
  answer_at env metrics_listed c p = read_at env metrics_listed c refl p
  answer_at env (metrics_found query) c p = read_at env (metrics_found query) c refl p
  answer_at env stats_asked c p = read_at env stats_asked c refl p
