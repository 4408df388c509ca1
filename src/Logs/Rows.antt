-- ===== src/Logs/Rows.antt =====
-- The rows that `write_logs` gathers, and what its statements keep.
use otelview_postgres.Common.{
  ◌≡◌, subst, List, [], ◌∷◌, ok, All, All-append, arith, Str, length, >>=-eq-ok, ok-injective,
  try_fold_keeps,
}
use otelview_postgres.Common.Chunks.{chunks, All-chunks}
use otelview_postgres.Codec.{Codec}
use otelview_postgres.Json.{Json, attributes_to_json, resource_attributes, service_name}
use otelview_postgres.Otlp.{LogRecord, ScopeLogs, ResourceLogs, LogsData}
use otelview_postgres.Schema.{LogRow, Database}
use otelview_postgres.Database.Keeps.{
  Keeps, Anything, Keeps-pure, Keeps-lift, Keeps-begin, Keeps-execute, Keeps-commit, Keeps-bind,
}
use otelview_postgres.Spans.{insert_chunk_rows}
use otelview_postgres.Logs.{
  log_row, gather_record, gather_scope, gather_resource, gather, insert_statement, insert_chunks,
  write_rows, write_logs,
}

module _ (codec : Codec LogsData) (json_text : Json → Str) (L : LogRow → Type 0)
    (made : (r : ResourceLogs) (s : ScopeLogs) (log : LogRecord) (service : Str) (ra : Json)
        (row : LogRow)
      → log_row codec json_text r s log service ra ≡ ok row
      → L row) where
  gather_record-All :
      (r : ResourceLogs) (service : Str) (ra : Json) (s : ScopeLogs) (rows rows' : List LogRow)
      (log : LogRecord)
      → gather_record codec json_text r service ra s rows log ≡ ok rows'
      → All L rows
      → All L rows'
  unfolding gather_record
  gather_record-All r service ra s rows rows' log e h =
      let (row, one, rest) = >>=-eq-ok (log_row codec json_text r s log service ra) _ e in
      subst (All L) (ok-injective rest)
        (All-append L rows (row ∷ []) h (made r s log service ra row one, tt))

  gather_scope-All :
      (r : ResourceLogs) (service : Str) (ra : Json) (rows rows' : List LogRow) (s : ScopeLogs)
      → gather_scope codec json_text r service ra rows s ≡ ok rows'
      → All L rows
      → All L rows'
  unfolding gather_scope
  gather_scope-All r service ra rows rows' s =
      try_fold_keeps (All L) (gather_record codec json_text r service ra s)
        (gather_record-All r service ra s) rows rows' s.log_records

  gather_resource-All :
      (rows rows' : List LogRow) (r : ResourceLogs)
      → gather_resource codec json_text rows r ≡ ok rows'
      → All L rows
      → All L rows'
  unfolding gather_resource
  gather_resource-All rows rows' r =
      let attrs = attributes_to_json (resource_attributes r.resource) in
      try_fold_keeps (All L) (gather_scope codec json_text r (service_name attrs) attrs)
        (gather_scope-All r (service_name attrs) attrs) rows rows' r.scope_logs

  -- What holds of each row that is made of a record holds of all that are gathered.
  pub gather-All :
      (logs : LogsData) (rows : List LogRow) → gather codec json_text logs ≡ ok rows → All L rows
  unfolding gather
  gather-All logs rows e =
      try_fold_keeps (All L) (gather_resource codec json_text) gather_resource-All [] rows
        logs.resource_logs e tt

  -- What the insertion of such rows keeps, a `write_logs` keeps, whichever of its requests fail.
  module _ (P : Database → Type 0)
      (inserts : (rows : List LogRow) (db db' : Database)
        → All L rows
        → insert_statement rows db ≡ ok db'
        → P db
        → P db') where
    insert_chunks-Keeps :
        (pieces : List (List LogRow)) (tx : Database)
        → All (All L) pieces
        → P tx
        → Keeps P P (insert_chunks tx pieces)
    unfolding insert_chunks
    insert_chunks-Keeps [] tx h p = Keeps-pure P P tx p
    insert_chunks-Keeps (piece ∷ pieces) tx h p =
        Keeps-bind P P P _ _
          (Keeps-execute P tx (insert_statement piece) (λ tx' e. inserts piece tx tx' h.0 e p))
          (λ tx' p'. insert_chunks-Keeps pieces tx' h.1 p')

    write_rows-Keeps : (rows : List LogRow) → All L rows → Keeps P Anything (write_rows rows)
    unfolding write_rows
    write_rows-Keeps [] h = Keeps-pure P Anything 0 tt
    write_rows-Keeps (row ∷ rows) h = Keeps-bind P P Anything _ _ (Keeps-begin P) λ tx p.
        Keeps-bind P P Anything _ _
          (insert_chunks-Keeps (chunks insert_chunk_rows (row ∷ rows)) tx
            (All-chunks L insert_chunk_rows (row ∷ rows) (omega arith) h) p)
          λ tx' p'.
            Keeps-bind P Anything Anything _ _ (Keeps-commit P tx' p')
              λ done q. Keeps-pure P Anything (length (row ∷ rows)) tt

    pub write_logs-Keeps : (logs : LogsData) → Keeps P Anything (write_logs codec json_text logs)
    unfolding write_logs
    write_logs-Keeps logs =
        Keeps-bind P (All L) Anything _ _
          (Keeps-lift P (All L) (gather codec json_text logs) (gather-All logs)) write_rows-Keeps
