-- ===== src/Tests/Spans.antt =====
-- Writing spans at concrete exports.
use otelview_postgres.Common.{◌≡◌, refl, none, some, List, [], ◌∷◌, map, text, Result, ok, err}
use otelview_postgres.Database.{calm}
use otelview_postgres.HashMap.{insert, remove}
use otelview_postgres.HashMap.LastIndex.{record_indices, index_all}
use otelview_postgres.Schema.{SpanRow, SpanKey, SpanKey-discrete}
use otelview_postgres.Spans.{
  Batch, gather, write_resource, write_scope, write_span, span_row, bad_ids, reject, dedupe_spans,
  write,
}
use otelview_postgres.Spans.Counts.{
  Gathered, Sent, alone, sent_key, sent_spans, well_sized, gather-Gathered,
}
use otelview_postgres.Spans.Latest.{last_under}
use otelview_postgres.Codec.{Codec, Survives}
use otelview_postgres.Otlp.{Span, ScopeSpans, ResourceSpans}
use otelview_postgres.Common.{Str, ite, Bytes-discrete, anyhow, All, select}
use otelview_postgres.Spans.Dedupe.{find}
use otelview_postgres.Spans.Upsert.{upsert_all, write-eq-row_at_a_time}
use otelview_postgres.Common.{Option}
use otelview_postgres.Schema.{Database}
use otelview_postgres.Otlp.{TracesData}
use otelview_postgres.Server.{PartialSuccess, reply, export_traces, get_traces}
use otelview_postgres.Server.ReadBack.{Holds, export-get_traces}
use otelview_postgres.Tests.Samples.{
  span, uploaded, resource_with, scope_with, repeated, in_order, upload, blank_codec,
  empty_database,
}

abbrev rows_of : Result Batch → List SpanRow
rows_of (ok b) = b.rows
rows_of (err e) = []

abbrev or_empty : Result Batch → Batch
or_empty (ok b) = b
or_empty (err e) = record { rows = []; rejected = 0; errors = [] }

gathered : Batch
gathered = or_empty (gather blank_codec upload)

gathered_runs : gather blank_codec upload ≡ ok gathered
unfolding gathered gather write_resource write_scope write_span bad_ids reject span_row
gathered_runs = refl

gather-Gathered_example : Gathered blank_codec (sent_spans upload) gathered
gather-Gathered_example = gather-Gathered blank_codec upload gathered gathered_runs

-- As in the source's unit test, the older version of the repeated span is gone.
kept_operations :
    (elim (dedupe_spans in_order gathered.rows) [
      | none ↦ []
      | some rows ↦ map (λ (r : SpanRow). r.operation) rows
    ])
    ≡ text "other" ∷ text "second" ∷ []
unfolding gathered gather write_resource write_scope write_span bad_ids reject span_row dedupe_spans
    record_indices index_all insert remove SpanKey-discrete
kept_operations = refl

write-eq-row_at_a_time_example :
    (table : List SpanRow) × (write blank_codec in_order upload (calm empty_database)
      ≡ (ok (gathered.rejected, gathered.errors), calm (record empty_database { spans = table })))
    × ((k : SpanKey) → find k table ≡ find k (upsert_all gathered.rows empty_database.spans))
write-eq-row_at_a_time_example =
    write-eq-row_at_a_time blank_codec in_order upload empty_database gathered gathered_runs

-- Messages are known here by the name of their span.
abbrev first_name : List Span → Str
first_name [] = []
first_name (span ∷ spans) = span.name

abbrev scope_name : List ScopeSpans → Str
scope_name [] = []
scope_name (s ∷ ss) = first_name s.spans

abbrev message_name : List ResourceSpans → Str
message_name [] = []
message_name (r ∷ rs) = scope_name r.scope_spans

abbrev found_message : Str → List Sent → Result TracesData
found_message name [] = err (anyhow (text "unknown"))
found_message name (x ∷ xs) =
    let rest = found_message name xs in ite (Bytes-discrete name x.span.name) (ok (alone x)) rest

abbrev by_name : Codec TracesData
by_name = record {
  encode = λ m. message_name m.resource_spans;
  decode = λ name. found_message name (sent_spans upload);
}

named : Batch
named = or_empty (gather by_name upload)

named_runs : gather by_name upload ≡ ok named
unfolding named gather write_resource write_scope write_span bad_ids reject span_row
named_runs = refl

-- The newer version of the repeated span.
abbrev newest : Sent
newest = record {
  resource = resource_with uploaded;
  scope = scope_with uploaded;
  span = span 1 1 (text "second") 12;
}

sent_survive : All (λ y. Survives by_name (alone y)) (select well_sized (sent_spans upload))
unfolding Bytes-discrete
sent_survive = (refl, (refl, (refl, tt)))

newest_last :
    last_under sent_key (sent_key newest) (select well_sized (sent_spans upload)) ≡ some newest
unfolding SpanKey-discrete
newest_last = refl

export-get_traces_example :
    (answer : Option PartialSuccess) × (written : Database) × (messages : List TracesData)
    × (export_traces by_name in_order (λ _. []) upload (calm empty_database)
        ≡ (reply answer, calm written))
    × (get_traces by_name (repeated 16 1 ∷ []) (calm written)
        ≡ (reply (map reply messages), calm written))
    × Holds (alone newest) messages
export-get_traces_example =
    export-get_traces by_name in_order (λ _. []) upload empty_database named newest tt sent_survive
      named_runs newest_last
