-- ===== src/Spans.antt =====
-- Writing spans: `Store::write` of src/store.rs with the row of one span, the collapse of duplicates
-- and the multi-row upsert that it sends. `values_panic` cannot panic, since each row has as many values as
-- there are columns, and building the SQL text is left out: the statement stands for what it does.
pub mod Dedupe
pub mod Counts
pub mod Upsert
pub mod Rows
pub mod Integrity
pub mod Latest
use otelview_postgres.Common.{
  ℕ, zero, suc, ◌+◌, ◌-◌, ◌%◌, ◌^◌, Bool, true, false, not, ◌&&◌, ◌||◌, Option, none, some, ite,
  List, [], ◌∷◌, ◌++◌, leb, ltb, ◌==◌, if◌then◌else◌, Bytes, Str, text, length, Result, ok, err,
  anyhow, ok_or, try_fold,
}
use otelview_postgres.Common as Common
use otelview_postgres.Common.Chunks.{chunks}
use otelview_postgres.Common.Int.{ℤ, pos, negsuc, saturating_sub, rem_euclid}
use otelview_postgres.Common.Sorting.{sort}
use otelview_postgres.Codec.{Codec}
use otelview_postgres.Otlp.{Span, Status, ScopeSpans, ResourceSpans, TracesData}
use otelview_postgres.Json.{
  Json, attributes_to_json, resource_attributes, scope_attributes, service_name,
}
use otelview_postgres.HashMap.{Iteration, into_values}
use otelview_postgres.HashMap.LastIndex.{record_indices, index_all, occurs}
use otelview_postgres.Time.{u64_to_i64}
use otelview_postgres.Schema.{SpanRow, SpanKey-discrete, span_key, check_ids, Database}
use otelview_postgres.Database.{Db, ◌>>=◌, pure, lift, begin, execute, commit}

abbrev pub insert_chunk_rows : ℕ
insert_chunk_rows = 1000

unfoldable pub span_kind : ℤ → Str
span_kind (negsuc n) = text "unspecified"
span_kind (pos n) =
    if n == 1
    then text "internal"
    else if n == 2
    then text "server"
    else if n == 3
    then text "client"
    else if n == 4
    then text "producer"
    else if n == 5
    then text "consumer"
    else text "unspecified"

-- `code as i16` keeps the low 16 bits.
unfoldable pub as_i16 : ℤ → ℤ
unfolding rem_euclid
as_i16 code =
    let bits = rem_euclid code 65536 in if ltb bits 32768 then pos bits else negsuc (65535 - bits)

abbrev pub status_code : Option Status → ℤ
status_code none = pos 0
status_code (some s) = as_i16 s.code

unfoldable pub singleton_payload : ResourceSpans → ScopeSpans → Span → TracesData
singleton_payload resource scope span = record {
  resource_spans =
      record {
        resource = resource.resource;
        scope_spans =
            record { scope = scope.scope; spans = span ∷ []; schema_url = scope.schema_url } ∷ [];
        schema_url = resource.schema_url;
      }
      ∷ [];
}

-- The arguments of the message about a rejected span.
pub record Rejection : Type 0 where
  pub name : Str
  pub trace_id_length : ℕ
  pub span_id_length : ℕ

-- The variables of the loops in `write`.
pub record Batch : Type 0 where
  pub rows : List SpanRow
  pub rejected : ℕ
  pub errors : List Rejection

abbrev pub empty_batch : Batch
empty_batch = record { rows = []; rejected = 0; errors = [] }

unfoldable pub bad_ids : Span → Bool
bad_ids span = not (length span.trace_id == 16) || not (length span.span_id == 8)

unfoldable pub reject : Batch → Span → Batch
reject b span = record b {
  rejected = b.rejected + 1;
  errors =
      if ltb (length b.errors) 5
      then b.errors
        ++ record {
          name = span.name;
          trace_id_length = length span.trace_id;
          span_id_length = length span.span_id;
        }
          ∷ []
      else b.errors;
}

module _ (codec : Codec TracesData) where
  unfoldable pub span_row : ResourceSpans → ScopeSpans → Span → Str → Json → Json → Result SpanRow
  unfolding u64_to_i64
  span_row resource scope span service resource_attrs scope_attrs =
      Common.◌>>=◌ (u64_to_i64 span.start_time_unix_nano (text "start timestamp")) λ start.
        Common.◌>>=◌ (u64_to_i64 span.end_time_unix_nano (text "end timestamp")) λ end. ok (record {
          trace_id = span.trace_id;
          span_id = span.span_id;
          parent_span_id = span.parent_span_id;
          service = service;
          operation = span.name;
          kind = span_kind span.kind;
          start = start;
          end = end;
          duration = saturating_sub end start;
          status = status_code span.status;
          span_attributes = attributes_to_json span.attributes;
          resource_attributes = resource_attrs;
          scope_attributes = scope_attrs;
          payload = codec.encode (singleton_payload resource scope span);
        })

  -- One round of the innermost loop: a span is rejected, or becomes a row, or ends the call.
  unfoldable pub write_span :
      ResourceSpans → ScopeSpans → Str → Json → Json → Batch → Span → Result Batch
  write_span resource scope service resource_attrs scope_attrs b span =
      if bad_ids span
      then ok (reject b span)
      else Common.◌>>=◌ (span_row resource scope span service resource_attrs scope_attrs)
          λ row. ok (record b { rows = b.rows ++ row ∷ [] })

  unfoldable pub write_scope : ResourceSpans → Str → Json → Batch → ScopeSpans → Result Batch
  write_scope resource service resource_attrs b scope =
      try_fold
        (write_span resource scope service resource_attrs
          (attributes_to_json (scope_attributes scope.scope)))
        b scope.spans

  unfoldable pub write_resource : Batch → ResourceSpans → Result Batch
  write_resource b resource =
      let resource_attrs = attributes_to_json (resource_attributes resource.resource) in
      try_fold (write_scope resource (service_name resource_attrs) resource_attrs) b
        resource.scope_spans

  -- The loops of `write`: the rows of the accepted spans, in order.
  unfoldable pub gather : TracesData → Result Batch
  gather traces = try_fold write_resource empty_batch traces.resource_spans

-- `none` is the panic of an index out of range.
unfoldable pub dedupe_spans : Iteration ℕ → List SpanRow → Option (List SpanRow)
dedupe_spans iteration rows = index_all rows (
    sort leb
      (iteration.order (into_values (record_indices SpanKey-discrete span_key zero rows []))))

-- The row in place of the one with its key, or at the end.
unfoldable pub upsert : SpanRow → List SpanRow → List SpanRow
upsert row [] = row ∷ []
upsert row (old ∷ rest) =
    ite (SpanKey-discrete (span_key row) (span_key old)) (row ∷ rest) (old ∷ upsert row rest)

-- `INSERT … ON CONFLICT (trace_id, span_id) DO UPDATE` of several rows. PostgreSQL refuses a row
-- that breaks a CHECK, and one with the key of a row that the same statement has written.
unfoldable pub insert_rows : List SpanRow → List SpanRow → List SpanRow → Result (List SpanRow)
insert_rows written [] table = ok table
insert_rows written (row ∷ rows) table =
    if not (check_ids row)
    then err (anyhow (text "violates check constraint"))
    else if occurs SpanKey-discrete span_key (span_key row) written
    then err (anyhow (text "ON CONFLICT DO UPDATE command cannot affect row a second time"))
    else insert_rows (row ∷ written) rows (upsert row table)

unfoldable pub insert_statement : List SpanRow → Database → Result Database
insert_statement rows db =
    Common.◌>>=◌ (insert_rows [] rows db.spans) λ spans. ok (record db { spans = spans })

unfoldable pub insert_chunks : Database → List (List SpanRow) → Db Database
insert_chunks tx [] = pure tx
insert_chunks tx (chunk ∷ rest) = do
  tx' ← execute tx (insert_statement chunk)
  insert_chunks tx' rest

unfoldable pub write_rows : List SpanRow → Db (Unit {0})
write_rows rows = do tx ← begin; tx' ← insert_chunks tx (chunks insert_chunk_rows rows); commit tx'

unfoldable pub write : Codec TracesData → Iteration ℕ → TracesData → Db (ℕ × List Rejection)
write codec iteration traces = do
  batch ← lift (gather codec traces)
  deduped ← lift (ok_or (dedupe_spans iteration batch.rows) (anyhow (text "index out of bounds")))
  written ← write_rows deduped
  pure (batch.rejected, batch.errors)
