-- ===== src/Spans/Rows.antt =====
-- The rows that `Store::write` gathers, and what its statements keep.
use otelview_postgres.Common.{
  ℕ, ◌≡◌, subst, List, [], ◌∷◌, ◌++◌, ok, All, All-append, arith, Str, >>=-eq-ok, ok-injective,
  try_fold_keeps, Bool-cases, inl, inr, ok_or, anyhow, text,
}
use otelview_postgres.Common.Chunks.{chunks, All-chunks}
use otelview_postgres.Codec.{Codec}
use otelview_postgres.HashMap.{Iteration}
use otelview_postgres.HashMap.LastIndex.{index_all-sort-values}
use otelview_postgres.Json.{Json, attributes_to_json, resource_attributes, service_name}
use otelview_postgres.Otlp.{Span, ScopeSpans, ResourceSpans, TracesData}
use otelview_postgres.Schema.{SpanRow, SpanKey-discrete, span_key, Database}
use otelview_postgres.Database.Keeps.{
  Keeps, Anything, Keeps-pure, Keeps-lift, Keeps-begin, Keeps-execute, Keeps-commit, Keeps-bind,
}
use otelview_postgres.Spans.{
  insert_chunk_rows, Batch, bad_ids, scope_attributes, empty_batch, reject, span_row, write_span,
  write_scope, write_resource, gather, dedupe_spans, insert_statement, insert_chunks, write_rows,
  write,
}
use otelview_postgres.Spans.Dedupe.{All-last_rows}

module _ (codec : Codec TracesData) (L : SpanRow → Type 0)
    (made : (r : ResourceSpans) (s : ScopeSpans) (span : Span) (service : Str) (ra sa : Json)
        (row : SpanRow)
      → span_row codec r s span service ra sa ≡ ok row
      → L row) where
  abbrev AllRows : Batch → Type 0
  AllRows b = All L b.rows

  write_span-All :
      (r : ResourceSpans) (s : ScopeSpans) (service : Str) (ra sa : Json) (b b' : Batch)
      (span : Span)
      → write_span codec r s service ra sa b span ≡ ok b'
      → AllRows b
      → AllRows b'
  unfolding write_span reject
  write_span-All r s service ra sa b b' span e h = elim (Bool-cases (bad_ids span)) [
    | inl bad ↦ subst AllRows (ok-injective (rw bad at e)) h
    | inr fine ↦
        let (row, one, rest) =
          >>=-eq-ok (span_row codec r s span service ra sa)
            (λ row. ok (record b { rows = b.rows ++ row ∷ [] })) (rw fine at e) in
        subst AllRows (ok-injective rest)
          (All-append L b.rows (row ∷ []) h (made r s span service ra sa row one, tt))
  ]

  write_scope-All :
      (r : ResourceSpans) (service : Str) (ra : Json) (b b' : Batch) (s : ScopeSpans)
      → write_scope codec r service ra b s ≡ ok b'
      → AllRows b
      → AllRows b'
  unfolding write_scope
  write_scope-All r service ra b b' s =
      let attrs = attributes_to_json (scope_attributes s.scope) in
      try_fold_keeps AllRows (write_span codec r s service ra attrs)
        (write_span-All r s service ra attrs) b b' s.spans

  write_resource-All :
      (b b' : Batch) (r : ResourceSpans) → write_resource codec b r ≡ ok b' → AllRows b → AllRows b'
  unfolding write_resource
  write_resource-All b b' r =
      let attrs = attributes_to_json (resource_attributes r.resource) in
      try_fold_keeps AllRows (write_scope codec r (service_name attrs) attrs)
        (write_scope-All r (service_name attrs) attrs) b b' r.scope_spans

  -- What holds of each row that is made of a span holds of all that are gathered.
  pub gather-All : (traces : TracesData) (b : Batch) → gather codec traces ≡ ok b → All L b.rows
  unfolding gather
  gather-All traces b e =
      try_fold_keeps AllRows (write_resource codec) write_resource-All empty_batch b
        traces.resource_spans e tt

  -- What the insertion of such rows keeps, a `write` keeps, whichever of its requests fail.
  module _ (P : Database → Type 0)
      (inserts : (rows : List SpanRow) (db db' : Database)
        → All L rows
        → insert_statement rows db ≡ ok db'
        → P db
        → P db') where
    insert_chunks-Keeps :
        (pieces : List (List SpanRow)) (tx : Database)
        → All (All L) pieces
        → P tx
        → Keeps P P (insert_chunks tx pieces)
    unfolding insert_chunks
    insert_chunks-Keeps [] tx h p = Keeps-pure P P tx p
    insert_chunks-Keeps (piece ∷ pieces) tx h p =
        Keeps-bind P P P _ _
          (Keeps-execute P tx (insert_statement piece) (λ tx' e. inserts piece tx tx' h.0 e p))
          (λ tx' p'. insert_chunks-Keeps pieces tx' h.1 p')

    write_rows-Keeps : (rows : List SpanRow) → All L rows → Keeps P Anything (write_rows rows)
    unfolding write_rows
    write_rows-Keeps rows h = Keeps-bind P P Anything _ _ (Keeps-begin P) λ tx p.
        Keeps-bind P P Anything _ _
          (insert_chunks-Keeps (chunks insert_chunk_rows rows) tx
            (All-chunks L insert_chunk_rows rows (omega arith) h) p)
          λ tx' p'. Keeps-commit P tx' p'

    deduped-All :
        (iteration : Iteration ℕ) (rows kept : List SpanRow)
        → All L rows
        → ok_or (dedupe_spans iteration rows) (anyhow (text "index out of bounds")) ≡ ok kept
        → All L kept
    unfolding dedupe_spans
    deduped-All iteration rows kept h e =
        subst (All L)
          (ok-injective (rw (index_all-sort-values SpanKey-discrete span_key iteration rows) at e))
          (All-last_rows L rows h)

    pub write-Keeps :
        (iteration : Iteration ℕ) (traces : TracesData)
        → Keeps P Anything (write codec iteration traces)
    unfolding write
    write-Keeps iteration traces =
        Keeps-bind P AllRows Anything _ _
          (Keeps-lift P AllRows (gather codec traces) (gather-All traces))
          λ b h.
            Keeps-bind P (All L) Anything _ _
              (Keeps-lift P (All L) _ (λ kept e. deduped-All iteration b.rows kept h e))
              λ kept k.
                Keeps-bind P Anything Anything _ _ (write_rows-Keeps kept k)
                  λ done q. Keeps-pure P Anything (b.rejected, b.errors) tt
