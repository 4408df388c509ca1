-- ===== src/Server.antt =====
-- gRPC handlers: src/server.rs. A request message is known by the fields that its handler reads. A stream is the list
-- of the items that the handler puts into its channel as long as these are taken; the client's call ends at the first error among them. Tracing
-- and the channels' capacity are left out.
pub mod Streams
pub mod Errors
pub mod Merging
pub mod Readers
pub mod Metrics
pub mod ReadBack
use otelview_postgres.Common.{
  ℕ, ◌+◌, Bool, true, false, not, ◌||◌, Option, none, some, List, [], ◌∷◌, ◌++◌, map, ltb, ◌==◌,
  if◌then◌else◌, Bytes, Str, text, length, contains, any, Result, ok, err, Error, try_fold,
}
use otelview_postgres.Common as Common
use otelview_postgres.Common.Chunks.{chunks}
use otelview_postgres.Codec.{Codec}
use otelview_postgres.Hex.{Outcome, returned, panicked}
use otelview_postgres.HashMap.{Iteration}
use otelview_postgres.Json.{Json}
use otelview_postgres.Otlp.{TracesData, LogsData}
use otelview_postgres.Database.{Connection, Db}
use otelview_postgres.Search.{TraceQuery, FoundTraceId, StoredSpan, find_ids, spans_for_ids}
use otelview_postgres.Summary.{TraceSummary, summaries}
use otelview_postgres.Spans.{Rejection, write}
use otelview_postgres.Logs.{LogQuery, write_logs, find_logs}

pub data Code : Type 0 where
  invalid_argument internal_error : Code

-- `tonic::Status`
pub record Status : Type 0 where
  pub code : Code
  pub message : Str

pub data Reply (A : Type 0) : Type 0 where
  status : Status → Reply A
  reply : A → Reply A

-- What a handler answers, and the connection that it leaves.
abbrev pub Handler : Type 0 → Type 0
Handler A = Connection → Reply A × Connection

abbrev pub invalid : Str → Status
invalid message = record { code = invalid_argument; message = message }

unfoldable pub internal : Error → Status
internal e = record { code = internal_error; message = text "storage request failed" }

unfoldable pub invalid_or_internal : Error → Status
unfolding internal
invalid_or_internal e =
    if contains e.message (text "timestamp")
      || (contains e.message (text "duration")
          || (contains e.message (text "trace_id") || contains e.message (text "metric_name")))
    then invalid e.message
    else internal e

module _ {A : Type 0} where
  abbrev pub map_err : (Error → Status) → Result A → Reply A
  map_err f (ok a) = reply a
  map_err f (err e) = status (f e)

module _ {A B : Type 0} where
  -- `store.operation().await.map_err(f)?` and what follows it.
  abbrev pub and_then :
      (Error → Status) → Result A × Connection → (A → Handler B) → Reply B × Connection
  and_then f (ok a, c) next = next a c
  and_then f (err e, c) next = (status (f e), c)

  -- `request.query.ok_or_else(|| Status::invalid_argument("query is required"))?`
  abbrev pub required : Option A → (A → Handler B) → Handler B
  required none next c = (status (invalid (text "query is required")), c)
  required (some a) next c = next a c

abbrev pub chunk_size : ℕ
chunk_size = 256

-- `stream_chunks`
unfoldable pub stream_chunks : {T : Type 0} → List Bytes → (List Bytes → Result T) → List (Reply T)
unfolding internal
stream_chunks payloads merge =
    map (λ chunk. map_err internal (merge chunk)) (chunks chunk_size payloads)

unfoldable pub validate_trace_ids : List Bytes → Reply (Unit {0})
validate_trace_ids ids =
    if any (λ id. not (length id == 16)) ids
    then status (invalid (text "trace_id must contain exactly 16 bytes"))
    else reply tt

-- `errors.join("; ")`
unfoldable pub join : List Str → Str
join [] = []
join (s ∷ []) = s
join (s ∷ t ∷ rest) = s ++ (text "; " ++ join (t ∷ rest))

-- `ExportTracePartialSuccess`
pub record PartialSuccess : Type 0 where
  pub rejected_spans : ℕ
  pub error_message : Str

-- `TraceService::export`. `describe` formats the message about a rejected span.
unfoldable pub export_traces :
    Codec TracesData
    → Iteration ℕ
    → (Rejection → Str)
    → TracesData
    → Handler (Option PartialSuccess)
unfolding internal join
export_traces codec iteration describe traces c =
    and_then internal (write codec iteration traces c) λ counts c'. (
      reply (
          if ltb 0 counts.0
          then some
              (record { rejected_spans = counts.0; error_message = join (map describe counts.1) })
          else none),
      c',
    )

-- `LogsService::export`
unfoldable pub export_logs : Codec LogsData → (Json → Str) → LogsData → Handler (Unit {0})
unfolding internal
export_logs codec json_text logs c =
    and_then internal (write_logs codec json_text logs c) λ n c'. (reply tt, c')

module _ (codec : Codec TracesData) where
  unfoldable pub stream_ids : List Bytes → Handler (List (Reply TracesData))
  unfolding internal
  stream_ids ids c = and_then internal (spans_for_ids ids c) λ spans c'.
      (reply (map (λ (s : StoredSpan). map_err internal (codec.decode s.payload)) spans), c')

  abbrev pub after_validation : List Bytes → Reply (Unit {0}) → Handler (List (Reply TracesData))
  after_validation ids (status s) c = (status s, c)
  after_validation ids (reply _) c = stream_ids ids c

  unfoldable pub get_traces : List Bytes → Handler (List (Reply TracesData))
  unfolding stream_ids validate_trace_ids
  get_traces ids = after_validation ids (validate_trace_ids ids)

  module _ (jsonb_contains : Json → Json → Bool) (max_search_depth : ℕ) where
    unfoldable pub find_traces : Option TraceQuery → Handler (List (Reply TracesData))
    unfolding stream_ids invalid_or_internal
    find_traces query = required query λ q c.
        and_then invalid_or_internal (find_ids jsonb_contains max_search_depth q c)
          λ ids. stream_ids (map (λ (id : FoundTraceId). id.trace_id) ids)

module _ (jsonb_contains : Json → Json → Bool) (max_search_depth : ℕ) where
  unfoldable pub find_trace_i_ds : Option TraceQuery → Handler (List FoundTraceId)
  unfolding invalid_or_internal
  find_trace_i_ds query = required query λ q c.
      and_then invalid_or_internal (find_ids jsonb_contains max_search_depth q c)
        λ ids c'. (reply ids, c')

  unfoldable pub find_trace_summaries :
      Iteration (List StoredSpan)
      → Iteration (Str × (ℕ × ℕ))
      → Option TraceQuery
      → Handler (List TraceSummary)
  unfolding internal invalid_or_internal
  find_trace_summaries traces services query = required query λ q c.
      and_then invalid_or_internal (find_ids jsonb_contains max_search_depth q c) λ ids c'.
        and_then internal (spans_for_ids (map (λ (id : FoundTraceId). id.trace_id) ids) c')
          λ spans c''. (reply (summaries traces services spans), c'')

module _ (codec : Codec LogsData) where
  abbrev merge_one : LogsData → Bytes → Result LogsData
  merge_one chunk payload =
      Common.◌>>=◌ (codec.decode payload)
        λ logs. ok (record { resource_logs = chunk.resource_logs ++ logs.resource_logs })

  -- The closure of `LogReader::find_logs`.
  unfoldable pub merge_logs : List Bytes → Result LogsData
  merge_logs payloads = try_fold merge_one (record { resource_logs = [] }) payloads

  abbrev pub stream_found :
      Outcome (Db (List Bytes)) → Connection → Outcome (Reply (List (Reply LogsData)) × Connection)
  stream_found panicked c = panicked
  stream_found (returned found) c = returned (
      and_then invalid_or_internal (found c)
        λ payloads c'. (reply (stream_chunks payloads merge_logs), c'))

  -- `LogReader::find_logs`
  unfoldable pub stream_logs :
      (Str → Str → Bool)
      → (Json → Str)
      → ℕ
      → Option LogQuery
      → Connection
      → Outcome (Reply (List (Reply LogsData)) × Connection)
  unfolding merge_logs stream_chunks invalid_or_internal
  stream_logs ilike json_text max_search_depth none c =
      returned (status (invalid (text "query is required")), c)
  stream_logs ilike json_text max_search_depth (some query) c =
      stream_found (find_logs ilike json_text max_search_depth query) c
