-- ===== src/Server/Streams.antt =====
-- Streaming payloads back loses none of what was stored.
use otelview_postgres.Common.{◌≡◌, refl, List, map, All, length}
use otelview_postgres.Common.Chunks.{chunks, concat}
use otelview_postgres.Codec.{Codec, Survives}
use otelview_postgres.Otlp.{LogsData, ResourceLogs}
use otelview_postgres.Otlp.Metrics.{MetricsData, ResourceMetrics}
use otelview_postgres.Server.{reply, merge_logs, stream_chunks}
use otelview_postgres.Server.Merging.{stream_parts}
use otelview_postgres.Server.Metrics.{merge_metrics}

-- The resource logs of messages, in order.
abbrev pub all_resource_logs : List LogsData → List ResourceLogs
all_resource_logs ms = concat (map (λ (m : LogsData). m.resource_logs) ms)

-- The resource metrics of messages, in order.
abbrev pub all_resource_metrics : List MetricsData → List ResourceMetrics
all_resource_metrics ms = concat (map (λ (m : MetricsData). m.resource_metrics) ms)

-- If every stored payload decodes to the message that it was made from, the stream of the payloads holds no error, its messages have
-- together exactly the resource logs of the stored messages, in order, and there is a message for each piece of up to 256 payloads.
pub stream_chunks_lossless :
    (codec : Codec LogsData) (messages : List LogsData)
    → All (Survives codec) messages
    → (chunks' : List LogsData) × (stream_chunks (map codec.encode messages) (merge_logs codec)
        ≡ map reply chunks')
      × (all_resource_logs chunks' ≡ all_resource_logs messages)
      × (length chunks' ≡ length (chunks 256 messages))
unfolding merge_logs
stream_chunks_lossless codec messages h =
    stream_parts (λ (m : LogsData). m.resource_logs) (λ rs. record { resource_logs = rs }) codec
      (λ rs. refl) messages h

-- The same of metrics: if every stored payload decodes to the message that it was made from, the stream of the payloads holds no error, its messages have together exactly
-- the resource metrics of the stored messages, in order, and there is a message for each piece of up to 256 payloads.
pub stream_metrics_lossless :
    (codec : Codec MetricsData) (messages : List MetricsData)
    → All (Survives codec) messages
    → (chunks' : List MetricsData) × (stream_chunks
          (map codec.encode messages)
          (merge_metrics codec)
        ≡ map reply chunks')
      × (all_resource_metrics chunks' ≡ all_resource_metrics messages)
      × (length chunks' ≡ length (chunks 256 messages))
unfolding merge_metrics
stream_metrics_lossless codec messages h =
    stream_parts (λ (m : MetricsData). m.resource_metrics) (λ rs. record { resource_metrics = rs })
      codec (λ rs. refl) messages h
