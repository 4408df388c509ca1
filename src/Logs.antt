-- ===== src/Logs.antt =====
-- Log storage: `write_logs`, `find_logs` and their helpers of src/logs.rs. The JSON text of a structured body is serde_json's, and
-- ILIKE and the text form of a JSONB column are PostgreSQL's: arguments of the definitions that use them.
pub mod Like
pub mod Writes
pub mod Rows
pub mod Wanted
pub mod Queries
use otelview_postgres.Common.{
  ℕ, zero, suc, ◌+◌, Bool, true, false, not, ◌&&◌, ◌||◌, Option, none, some, ite, List, [], ◌∷◌,
  ◌++◌, map, leb, ltb, ◌==◌, if◌then◌else◌, Bytes, Str, text, is_empty, length, select, take,
  Result, ok, err, anyhow, try_fold, Bytes-discrete,
}
use otelview_postgres.Common as Common
use otelview_postgres.Common.Chunks.{chunks}
use otelview_postgres.Common.Int.{ℤ, pos, negsuc, leb_ℤ, ltb_ℤ}
use otelview_postgres.Common.Sorting.{sort}
use otelview_postgres.Codec.{Codec}
use otelview_postgres.Hex.{Outcome, returned, panicked, hex_decode}
use otelview_postgres.Otlp.{AnyValue, LogRecord, ScopeLogs, ResourceLogs, LogsData}
use otelview_postgres.Json.{
  Json, null, string, otel_value_to_json, attributes_to_json, resource_attributes, service_name,
}
use otelview_postgres.Time.{Timestamp, timestamp_to_nanos, u64_to_i64}
use otelview_postgres.Schema.{LogRow, Database}
use otelview_postgres.Database.{
  Db, ◌>>=◌, pure, lift, request, begin, execute, commit, with_context,
}
use otelview_postgres.Search.{search_depth}
use otelview_postgres.Spans.{insert_chunk_rows}

unfoldable pub singleton_payload : ResourceLogs → ScopeLogs → LogRecord → LogsData
singleton_payload resource scope log = record {
  resource_logs =
      record {
        resource = resource.resource;
        scope_logs =
            record { scope = scope.scope; log_records = log ∷ []; schema_url = scope.schema_url }
            ∷ [];
        schema_url = resource.schema_url;
      }
      ∷ [];
}

abbrev body_json : Option AnyValue → Json
body_json none = null
body_json (some v) = otel_value_to_json v

abbrev render : (Json → Str) → Json → Str
render json_text (string s) = s
render json_text null = []
render json_text other = json_text other

unfoldable pub body_text : (Json → Str) → LogRecord → Str
body_text json_text log = render json_text (body_json log.body)

module _ (codec : Codec LogsData) (json_text : Json → Str) where
  -- A record without a time goes by when it was observed.
  unfoldable pub log_row : ResourceLogs → ScopeLogs → LogRecord → Str → Json → Result LogRow
  unfolding u64_to_i64
  log_row resource scope log service resource_attrs =
      let time =
        if not (log.time_unix_nano == 0) then log.time_unix_nano else log.observed_time_unix_nano in
      Common.◌>>=◌ (u64_to_i64 time (text "log timestamp")) λ time'.
        Common.◌>>=◌ (u64_to_i64 log.observed_time_unix_nano (text "observed timestamp"))
          λ observed. ok (record {
            time = time';
            observed = observed;
            severity_number = log.severity_number;
            severity_text = log.severity_text;
            service = service;
            trace_id = log.trace_id;
            span_id = log.span_id;
            body = body_text json_text log;
            attributes = attributes_to_json log.attributes;
            resource_attributes = resource_attrs;
            payload = codec.encode (singleton_payload resource scope log);
          })

  unfoldable pub gather_record :
      ResourceLogs → Str → Json → ScopeLogs → List LogRow → LogRecord → Result (List LogRow)
  gather_record resource service resource_attrs scope rows log =
      Common.◌>>=◌ (log_row resource scope log service resource_attrs) λ row. ok (rows ++ row ∷ [])

  unfoldable pub gather_scope :
      ResourceLogs → Str → Json → List LogRow → ScopeLogs → Result (List LogRow)
  gather_scope resource service resource_attrs rows scope =
      try_fold (gather_record resource service resource_attrs scope) rows scope.log_records

  unfoldable pub gather_resource : List LogRow → ResourceLogs → Result (List LogRow)
  gather_resource rows resource =
      let resource_attrs = attributes_to_json (resource_attributes resource.resource) in
      try_fold (gather_scope resource (service_name resource_attrs) resource_attrs) rows
        resource.scope_logs

  -- The loops of `write_logs`.
  unfoldable pub gather : LogsData → Result (List LogRow)
  gather logs = try_fold gather_resource [] logs.resource_logs

unfoldable pub insert_statement : List LogRow → Database → Result Database
insert_statement rows db = ok (record db { logs = db.logs ++ rows })

unfoldable pub insert_chunks : Database → List (List LogRow) → Db Database
insert_chunks tx [] = pure tx
insert_chunks tx (chunk ∷ rest) = do
  tx' ← execute tx (insert_statement chunk)
  insert_chunks tx' rest

-- An export without a row sends nothing.
unfoldable pub write_rows : List LogRow → Db ℕ
write_rows [] = pure 0
write_rows (row ∷ rows) = do
  tx ← begin
  tx' ← insert_chunks tx (chunks insert_chunk_rows (row ∷ rows))
  done ← commit tx'
  pure (length (row ∷ rows))

unfoldable pub write_logs : Codec LogsData → (Json → Str) → LogsData → Db ℕ
write_logs codec json_text logs = do rows ← lift (gather codec json_text logs); write_rows rows

-- `LogQueryParameters`
pub record LogQuery : Type 0 where
  pub service_name : Str
  pub min_severity : ℤ
  pub search : Str
  pub trace_id : Str
  pub time_min : Option Timestamp
  pub time_max : Option Timestamp
  pub search_depth : ℤ

-- A conjunct of the WHERE clause, with its bound values. That on the trace also wants 16 bytes.
pub data LogCondition : Type 0 where
  service_is : Str → LogCondition
  severity_from time_from time_before : ℤ → LogCondition
  trace_is : Bytes → LogCondition
  like_any : Str → LogCondition

-- `s.replace(c, "\\c")` of a single character
unfoldable pub escape_char : ℕ → Str → Str
escape_char c [] = []
escape_char c (d ∷ s) = let rest = escape_char c s in if d == c then b'\\' ∷ d ∷ rest else d ∷ rest

unfoldable pub escape_like : Str → Str
unfolding escape_char
escape_like needle = escape_char b'_' (escape_char b'%' (escape_char b'\\' needle))

unfoldable pub search_pattern : Str → Str
search_pattern search = b'%' ∷ (escape_like search ++ b'%' ∷ [])

abbrev pub when : Bool → LogCondition → List LogCondition
when true c = c ∷ []
when false c = []

abbrev pub is_positive : ℤ → Bool
is_positive n = ltb_ℤ (pos 0) n

unfoldable pub trace_condition : Str → Outcome (Result (List LogCondition))
trace_condition [] = returned (ok [])
trace_condition (c ∷ trace) = elim (hex_decode (c ∷ trace)) [
  | panicked ↦ panicked
  | returned none ↦ returned (err (anyhow (text "trace_id must be a hex string")))
  | returned (some id) ↦ returned (ok (trace_is id ∷ []))
]

unfoldable pub time_condition : (ℤ → LogCondition) → Option Timestamp → Result (List LogCondition)
time_condition c none = ok []
time_condition c (some ts) = Common.◌>>=◌ (timestamp_to_nanos ts) λ nanos. ok (c nanos ∷ [])

abbrev pub other_conditions : LogQuery → List LogCondition → Result (List LogCondition)
other_conditions query trace = Common.◌>>=◌ (time_condition time_from query.time_min) λ from.
    Common.◌>>=◌ (time_condition time_before query.time_max) λ before. ok (
      when (not (is_empty query.service_name)) (service_is query.service_name)
      ++ (when (is_positive query.min_severity) (severity_from query.min_severity)
          ++ (trace
              ++ (from
                  ++ (before
                      ++ when (not (is_empty query.search))
                          (like_any (search_pattern query.search)))))))

unfoldable pub log_conditions : LogQuery → Outcome (Result (List LogCondition))
log_conditions query = elim (trace_condition query.trace_id) [
  | panicked ↦ panicked
  | returned (err e) ↦ returned (err e)
  | returned (ok trace) ↦ returned (other_conditions query trace)
]

abbrev pub newest_first : LogRow → LogRow → Bool
newest_first a b = leb_ℤ b.time a.time

module _ (ilike : Str → Str → Bool) (json_text : Json → Str) where
  unfoldable pub holds : LogCondition → LogRow → Bool
  holds (service_is s) row = ite (Bytes-discrete row.service s) true false
  holds (severity_from n) row = leb_ℤ n row.severity_number
  holds (time_from n) row = leb_ℤ n row.time
  holds (time_before n) row = ltb_ℤ row.time n
  holds (trace_is id) row =
      ite (Bytes-discrete row.trace_id id) true false && (length row.trace_id == 16)
  holds (like_any pattern) row =
      ilike row.body pattern
      || (ilike row.severity_text pattern || ilike (json_text row.attributes) pattern)

  unfoldable pub matches : List LogCondition → LogRow → Bool
  matches [] row = true
  matches (c ∷ cs) row = holds c row && matches cs row

  abbrev pub run_query : ℕ → LogQuery → Result (List LogCondition) → Db (List Bytes)
  run_query limit query built = do
    conditions ← lift built
    with_context (text "query logs") (
        request λ db. ok (
          map (λ (r : LogRow). r.payload)
            (take (search_depth limit query.search_depth)
              (sort newest_first (select (matches conditions) db.logs)))))

  unfoldable pub find_logs : ℕ → LogQuery → Outcome (Db (List Bytes))
  find_logs limit query = elim (log_conditions query) [
    | panicked ↦ panicked
    | returned built ↦ returned (run_query limit query built)
  ]
