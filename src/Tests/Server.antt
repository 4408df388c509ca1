-- ===== src/Tests/Server.antt =====
-- Handlers at concrete requests.
use otelview_postgres.Common.{
  ◌≡◌, refl, none, some, List, [], ◌∷◌, map, length, text, Error, anyhow, ok, err,
}
use otelview_postgres.Common.Chunks.{chunks}
use otelview_postgres.Common.Int.{pos}
use otelview_postgres.Codec.{Codec}
use otelview_postgres.Otlp.{LogsData}
use otelview_postgres.Time.{timestamp_to_nanos}
use otelview_postgres.Search.{TraceQuery, apply_query, time_condition}
use otelview_postgres.Server.{
  reply, status, invalid, stream_chunks, merge_logs, validate_trace_ids, find_trace_i_ds,
}
use otelview_postgres.Server.Streams.{all_resource_logs, stream_chunks_lossless}
use otelview_postgres.Server.Errors.{find_trace_i_ds_refuses}
use otelview_postgres.Tests.Samples.{repeated, shaky, of_api, never}

-- A codec that counts resources: enough for messages of resources without content.
abbrev blank : LogsData
blank = record { resource_logs = record { resource = none; scope_logs = []; schema_url = [] } ∷ [] }

abbrev one_message : Codec LogsData
one_message = record { encode = λ _. []; decode = λ _. ok blank }

stream_chunks_lossless_example :
    (chunks' : List LogsData) × (stream_chunks
        (map one_message.encode (blank ∷ blank ∷ []))
        (merge_logs one_message)
      ≡ map reply chunks')
    × (all_resource_logs chunks' ≡ all_resource_logs (blank ∷ blank ∷ []))
    × (length chunks' ≡ length (chunks 256 (blank ∷ blank ∷ [])))
stream_chunks_lossless_example =
    stream_chunks_lossless one_message (blank ∷ blank ∷ []) (refl, (refl, tt))

abbrev far_future : TraceQuery
far_future = record of_api {
  start_time_min = some (record { seconds = pos 9223372037; nanos = pos 0 });
}

abbrev out_of_range : Error
out_of_range = anyhow (text "timestamp is outside nanosecond range")

cannot_convert : apply_query far_future ≡ err out_of_range
unfolding apply_query time_condition timestamp_to_nanos
cannot_convert = refl

find_trace_i_ds_refuses_example :
    find_trace_i_ds never 100 (some far_future) shaky
    ≡ (status (invalid (text "timestamp is outside nanosecond range")), shaky)
find_trace_i_ds_refuses_example =
    find_trace_i_ds_refuses never 100 far_future shaky out_of_range cannot_convert

-- The source's own example.
rejects_invalid_trace_ids :
    validate_trace_ids (repeated 16 0 ∷ repeated 8 0 ∷ [])
    ≡ status (invalid (text "trace_id must contain exactly 16 bytes"))
unfolding validate_trace_ids
rejects_invalid_trace_ids = refl
