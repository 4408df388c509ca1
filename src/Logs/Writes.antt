-- ===== src/Logs/Writes.antt =====
-- `write_logs` stores every record of an export, in order, or none.
use otelview_postgres.Common.{
  ℕ, ◌+◌, ◌≡◌, refl, sym, subst, ◌∙◌, List, [], ◌∷◌, ◌++◌, ok, err, Error, length, length-append,
  total, try_fold_counts, >>=-eq-ok, ok-injective, arith, append_assoc, append-nil, Str,
}
use otelview_postgres.Common.Chunks.{chunks, concat, concat-chunks}
use otelview_postgres.Codec.{Codec}
use otelview_postgres.Json.{Json, attributes_to_json, resource_attributes, service_name}
use otelview_postgres.Otlp.{LogRecord, ScopeLogs, ResourceLogs, LogsData}
use otelview_postgres.Schema.{LogRow, Database}
use otelview_postgres.Database.{
  Connection, calm, ◌>>=◌, pure, lift, request, begin, execute, commit,
}
use otelview_postgres.Database.Transactions.{
  Reads, IsAtomic, atomic_rules, Reads-pure, Reads-bind, Reads-execute, Reads-IsAtomic,
}
use otelview_postgres.Spans.{insert_chunk_rows}
use otelview_postgres.Logs.{
  log_row, gather_record, gather_scope, gather_resource, gather, insert_statement, insert_chunks,
  write_rows, write_logs,
}

-- The records of a resource.
abbrev pub records_of : ResourceLogs → ℕ
records_of r = total (λ (s : ScopeLogs). total (λ _. 1) s.log_records) r.scope_logs

abbrev Counted : ℕ → List LogRow → Type 0
Counted n rows = length rows ≡ n

module _ (codec : Codec LogsData) (json_text : Json → Str) where
  gather_record-Counted :
      (r : ResourceLogs) (service : Str) (ra : Json) (s : ScopeLogs) (n : ℕ)
      (rows rows' : List LogRow) (log : LogRecord)
      → gather_record codec json_text r service ra s rows log ≡ ok rows'
      → Counted n rows
      → Counted (n + 1) rows'
  unfolding gather_record
  gather_record-Counted r service ra s n rows rows' log e h =
      let (row, made, rest) = >>=-eq-ok (log_row codec json_text r s log service ra) _ e in
      subst (Counted (n + 1)) (ok-injective rest)
        (omega (arith, length-append {0} rows (row ∷ []), h))

  gather_scope-Counted :
      (r : ResourceLogs) (service : Str) (ra : Json) (n : ℕ) (rows rows' : List LogRow)
      (s : ScopeLogs)
      → gather_scope codec json_text r service ra rows s ≡ ok rows'
      → Counted n rows
      → Counted (n + total (λ _. 1) s.log_records) rows'
  unfolding gather_scope
  gather_scope-Counted r service ra n rows rows' s =
      try_fold_counts Counted (gather_record codec json_text r service ra s) (λ _. 1)
        (gather_record-Counted r service ra s) n rows rows' s.log_records

  gather_resource-Counted :
      (n : ℕ) (rows rows' : List LogRow) (r : ResourceLogs)
      → gather_resource codec json_text rows r ≡ ok rows'
      → Counted n rows
      → Counted (n + records_of r) rows'
  unfolding gather_resource
  gather_resource-Counted n rows rows' r =
      let attrs = attributes_to_json (resource_attributes r.resource) in
      try_fold_counts Counted (gather_scope codec json_text r (service_name attrs) attrs)
        (λ s. total (λ _. 1) s.log_records) (gather_scope-Counted r (service_name attrs) attrs) n
        rows rows' r.scope_logs

  gather-Counted :
      (logs : LogsData) (rows : List LogRow)
      → gather codec json_text logs ≡ ok rows
      → length rows ≡ total records_of logs.resource_logs
  unfolding gather
  gather-Counted logs rows e =
      try_fold_counts Counted (gather_resource codec json_text) records_of gather_resource-Counted 0
        [] rows logs.resource_logs e refl
      ∙ omega arith

insert_chunks-calm :
    (db tx : Database) (pieces : List (List LogRow))
    → insert_chunks tx pieces (calm db)
      ≡ (ok (record tx { logs = tx.logs ++ concat pieces }), calm db)
unfolding insert_chunks pure ◌>>=◌ execute request insert_statement
insert_chunks-calm db tx [] = rw append-nil
insert_chunks-calm db tx (piece ∷ pieces) =
    rw (sym (append_assoc tx.logs piece (concat pieces)))
      (insert_chunks-calm db (record tx { logs = tx.logs ++ piece }) pieces)

write_rows-calm :
    (db : Database) (rows : List LogRow)
    → write_rows rows (calm db) ≡ (ok (length rows), calm (record db { logs = db.logs ++ rows }))
unfolding write_rows ◌>>=◌ begin request commit pure
write_rows-calm db [] = rw append-nil
write_rows-calm db (row ∷ rows) = rw (
  insert_chunks-calm db db (chunks insert_chunk_rows (row ∷ rows)),
  concat-chunks insert_chunk_rows (row ∷ rows) (omega arith),
)

-- If every record of an export becomes a row and no request fails, `write_logs` appends exactly these rows, in order, to the table of logs
-- and returns the number of records in the export.
pub write_logs-appends :
    (codec : Codec LogsData) (json_text : Json → Str) (logs : LogsData) (db : Database)
    (rows : List LogRow)
    → gather codec json_text logs ≡ ok rows
    → write_logs codec json_text logs (calm db)
      ≡ (ok (total records_of logs.resource_logs), calm (record db { logs = db.logs ++ rows }))
unfolding write_logs ◌>>=◌ lift
write_logs-appends codec json_text logs db rows e =
    rw (e, write_rows-calm db rows, gather-Counted codec json_text logs rows e)

insert_chunks-Reads :
    (tx : Database) (pieces : List (List LogRow)) → Reads (insert_chunks tx pieces)
unfolding insert_chunks
insert_chunks-Reads tx [] = Reads-pure tx
insert_chunks-Reads tx (piece ∷ pieces) =
    Reads-bind _ _ (Reads-execute tx (insert_statement piece))
      (λ tx'. insert_chunks-Reads tx' pieces)

write_rows-IsAtomic : (rows : List LogRow) → IsAtomic (write_rows rows)
unfolding write_rows
write_rows-IsAtomic [] = Reads-IsAtomic _ (Reads-pure 0)
write_rows-IsAtomic (row ∷ rows) = search (atomic_rules, insert_chunks-Reads) depth 8

pub write_logs-IsAtomic :
    (codec : Codec LogsData) (json_text : Json → Str) (logs : LogsData)
    → IsAtomic (write_logs codec json_text logs)
unfolding write_logs
write_logs-IsAtomic codec json_text logs = search (atomic_rules, write_rows-IsAtomic)

-- A `write_logs` that ends in an error leaves the database as it was.
pub write_logs_fails_unchanged :
    (codec : Codec LogsData) (json_text : Json → Str) (logs : LogsData) (c : Connection) (e : Error)
    → (write_logs codec json_text logs c).0 ≡ err e
    → (write_logs codec json_text logs c).1.database ≡ c.database
write_logs_fails_unchanged codec json_text logs c e h =
    (write_logs-IsAtomic codec json_text logs).at c e h
