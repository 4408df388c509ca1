-- ===== src/System/Validity.antt =====
-- What holds of the tables in every state of the service.
use otelview_postgres.Common.{
  ℕ, zero, suc, ◌≡◌, refl, sym, ◌∙◌, ap, subst, Bool, true, false, not, ◌&&◌, ◌||◌, ite, List, [],
  ◌∷◌, ◌++◌, All, All-append, ltb, Bool-cases, inl, inr, ok, err, arith, if◌then◌else◌, >>=-eq-ok,
  ok-injective, Str, text, ok_or, anyhow, Result, ◌==◌,
}
use otelview_postgres.Common as Common
use otelview_postgres.Common.Int.{ℤ, pos, leb_ℤ, ltb_ℤ}
use otelview_postgres.Schema.{SpanRow, LogRow, MetricRow, Database}
use otelview_postgres.Otlp.{
  Span, ScopeSpans, ResourceSpans, LogRecord, ScopeLogs, ResourceLogs, TracesData, LogsData,
}
use otelview_postgres.Otlp.Metrics.{ScopeMetrics, ResourceMetrics, MetricsData}
use otelview_postgres.Codec.{Codec}
use otelview_postgres.Json.{Json}
use otelview_postgres.Spans.Integrity.{insert_rows-valid}
use otelview_postgres.Retention.Remaining.{All-delete_up_to, Distinct-delete_up_to}
use otelview_postgres.Spans as Spans
use otelview_postgres.Spans.{insert_rows}
use otelview_postgres.Spans.Counts.{HasIds}
use otelview_postgres.Spans.Dedupe.{Distinct}
use otelview_postgres.Logs as Logs
use otelview_postgres.Metrics as Metrics
use otelview_postgres.Retention.{
  Table, spans, logs, metric_points, batch_rows, span_expired, log_expired, point_expired,
  delete_statement,
}
use otelview_postgres.Time.{u64_to_i64}
use otelview_postgres.System.Exports.{InsertsKeep}
use otelview_postgres.System.Steps.{Reach, Reach-keeps}

-- A time or a count that was an unsigned integer and fits BIGINT.
abbrev pub IsBigint : ℤ → Type 0
IsBigint n = leb_ℤ (pos 0) n && ltb_ℤ n (pos 9223372036854775808) ≡ true

abbrev pub SpanTimes : SpanRow → Type 0
SpanTimes row = IsBigint row.start × IsBigint row.end

abbrev pub LogTimes : LogRow → Type 0
LogTimes row = IsBigint row.time × IsBigint row.observed

abbrev pub PointTimes : MetricRow → Type 0
PointTimes row = IsBigint row.time × IsBigint row.count

-- The identifiers of every span have their lengths, no two spans have one key, and every time in the three tables and every count is from 0 to the largest BIGINT.
pub record IsValid (db : Database) : Type 0 where
  pub ids : All HasIds db.spans
  pub distinct : Distinct db.spans
  pub span_times : All SpanTimes db.spans
  pub log_times : All LogTimes db.logs
  pub point_times : All PointTimes db.metric_points

u64_to_i64-IsBigint : (n : ℕ) (name : Str) (z : ℤ) → u64_to_i64 n name ≡ ok z → IsBigint z
unfolding u64_to_i64
u64_to_i64-IsBigint n name z e = elim (Bool-cases (ltb n 9223372036854775808)) [
  | inl t ↦ subst IsBigint (ok-injective (rw t at e)) (ground (arith, t))
  | inr t ↦ absurd (cc)
]

-- A conversion that the code goes on from.
conversion_passed :
    {A : Type 0} (n : ℕ) (name : Str) (f : ℤ → Result A) {a : A}
    → Common.◌>>=◌ (u64_to_i64 n name) f ≡ ok a
    → (z : ℤ) × IsBigint z × (f z ≡ ok a)
conversion_passed n name f e =
    let (z, made, rest) = >>=-eq-ok (u64_to_i64 n name) f e in
    (z, u64_to_i64-IsBigint n name z made, rest)

span_row-SpanTimes :
    (codec : Codec TracesData) (r : ResourceSpans) (s : ScopeSpans) (span : Span) (service : Str)
    (ra sa : Json) (row : SpanRow)
    → Spans.span_row codec r s span service ra sa ≡ ok row
    → SpanTimes row
unfolding Spans.span_row
span_row-SpanTimes codec r s span service ra sa row e =
    let (start, a, rest) =
      conversion_passed span.start_time_unix_nano (text "start timestamp") _ e in
    let (end, b, last) = conversion_passed span.end_time_unix_nano (text "end timestamp") _ rest in
    subst SpanTimes (ok-injective last) (a, b)

log_row-LogTimes :
    (codec : Codec LogsData) (json_text : Json → Str) (r : ResourceLogs) (s : ScopeLogs)
    (log : LogRecord) (service : Str) (ra : Json) (row : LogRow)
    → Logs.log_row codec json_text r s log service ra ≡ ok row
    → LogTimes row
unfolding Logs.log_row
log_row-LogTimes codec json_text r s log service ra row e =
    let time =
      if not (log.time_unix_nano == 0) then log.time_unix_nano else log.observed_time_unix_nano in
    let (time', a, rest) = conversion_passed time (text "log timestamp") _ e in
    let (observed, b, last) =
      conversion_passed log.observed_time_unix_nano (text "observed timestamp") _ rest in
    subst LogTimes (ok-injective last) (a, b)

metric_row-PointTimes :
    (codec : Codec MetricsData) (to_double : ℤ → ℕ) (r : ResourceMetrics) (s : ScopeMetrics)
    (point : Metrics.FlatPoint) (service : Str) (ra : Json) (row : MetricRow)
    → Metrics.metric_row codec to_double r s point service ra ≡ ok row
    → PointTimes row
unfolding Metrics.metric_row
metric_row-PointTimes codec to_double r s point service ra row e =
    let (time, a, rest) = conversion_passed point.time (text "metric timestamp") _ e in
    let (count, b, more) = conversion_passed point.count (text "metric count") _ rest in
    let (name, named, last) =
      >>=-eq-ok
        (ok_or (Metrics.metric_type_str point.metric)
          (anyhow (text "metric " ++ (point.metric.name ++ text " has no data"))))
        _ more in
    subst PointTimes (ok-injective last) (a, b)

IsValid-spans_inserted :
    (rows : List SpanRow) (db db' : Database)
    → All SpanTimes rows
    → Spans.insert_statement rows db ≡ ok db'
    → IsValid db
    → IsValid db'
unfolding Spans.insert_statement
IsValid-spans_inserted rows db db' h e v =
    let (table, inserted, rest) = >>=-eq-ok (insert_rows [] rows db.spans) _ e in
    let kept =
      insert_rows-valid SpanTimes [] rows db.spans table inserted h
        (v.ids, v.distinct, v.span_times) in
    subst IsValid (ok-injective rest) (record {
      ids = kept.0;
      distinct = kept.1;
      span_times = kept.2;
      log_times = v.log_times;
      point_times = v.point_times;
    })

IsValid-inserts : InsertsKeep IsValid SpanTimes LogTimes PointTimes
unfolding Logs.insert_statement Metrics.insert_statement
IsValid-inserts = record {
  span_made = span_row-SpanTimes;
  log_made = log_row-LogTimes;
  point_made = metric_row-PointTimes;
  spans_inserted = IsValid-spans_inserted;
  logs_inserted = λ rows db db' h e v. subst IsValid (ok-injective e) (record {
    ids = v.ids;
    distinct = v.distinct;
    span_times = v.span_times;
    log_times = All-append LogTimes db.logs rows v.log_times h;
    point_times = v.point_times;
  });
  points_inserted = λ rows db db' h e v. subst IsValid (ok-injective e) (record {
    ids = v.ids;
    distinct = v.distinct;
    span_times = v.span_times;
    log_times = v.log_times;
    point_times = All-append PointTimes db.metric_points rows v.point_times h;
  });
}

IsValid-delete_statement :
    (table : Table) (cutoff : ℤ) (n : ℕ) (db db' : Database)
    → delete_statement table cutoff db ≡ ok (n, db')
    → IsValid db
    → IsValid db'
unfolding delete_statement
IsValid-delete_statement spans cutoff n db db' e v =
    subst IsValid (ap (λ r. r.1) (ok-injective e)) (record {
      ids = All-delete_up_to (span_expired cutoff) HasIds batch_rows db.spans v.ids;
      distinct = Distinct-delete_up_to (span_expired cutoff) batch_rows db.spans v.distinct;
      span_times =
          All-delete_up_to (span_expired cutoff) SpanTimes batch_rows db.spans v.span_times;
      log_times = v.log_times;
      point_times = v.point_times;
    })
IsValid-delete_statement logs cutoff n db db' e v =
    subst IsValid (ap (λ r. r.1) (ok-injective e)) (record {
      ids = v.ids;
      distinct = v.distinct;
      span_times = v.span_times;
      log_times = All-delete_up_to (log_expired cutoff) LogTimes batch_rows db.logs v.log_times;
      point_times = v.point_times;
    })
IsValid-delete_statement metric_points cutoff n db db' e v =
    subst IsValid (ap (λ r. r.1) (ok-injective e)) (record {
      ids = v.ids;
      distinct = v.distinct;
      span_times = v.span_times;
      log_times = v.log_times;
      point_times =
          All-delete_up_to (point_expired cutoff) PointTimes batch_rows db.metric_points
            v.point_times;
    })

-- Every state that the service reaches from a valid one is valid, whatever requests it answers, whichever of its requests to the database fail, and whatever retention deletes.
pub Reach-IsValid : (bound : ℤ) (db db' : Database) → Reach bound db db' → IsValid db → IsValid db'
Reach-IsValid bound db db' r v =
    Reach-keeps IsValid SpanTimes LogTimes PointTimes IsValid-inserts bound
      (λ table cutoff n db db' b e v. IsValid-delete_statement table cutoff n db db' e v) db r v
