-- ===== src/Spans/Upsert.antt =====
-- `Store::write` of src/store.rs against writing its rows one at a time, and its failures.
use otelview_postgres.Common.{
  ℕ, ◌≡◌, refl, sym, ◌∙◌, false, some, ite, List, [], ◌∷◌, ◌++◌, arith, All, ok, err, Error,
}
use otelview_postgres.Common.Chunks.{chunks, concat, concat-chunks}
use otelview_postgres.Codec.{Codec}
use otelview_postgres.HashMap.{Iteration}
use otelview_postgres.HashMap.LastIndex.{index_all-sort-values}
use otelview_postgres.Otlp.{TracesData}
use otelview_postgres.Schema.{SpanRow, SpanKey, SpanKey-discrete, span_key, Database}
use otelview_postgres.Database.{
  calm, Connection, ◌>>=◌, pure, lift, request, begin, execute, commit,
}
use otelview_postgres.Database.Transactions.{
  Reads, IsAtomic, atomic_rules, Reads-pure, Reads-bind, Reads-execute,
}
use otelview_postgres.Spans.{
  Batch, gather, dedupe_spans, upsert, insert_rows, insert_statement, insert_chunks,
  insert_chunk_rows, write_rows, write,
}
use otelview_postgres.Spans.Counts.{HasIds, gather-Gathered}
use otelview_postgres.Spans.Dedupe.{
  last_rows, has_key, Distinct, find, or_else, find_last, find_last-last_rows, last_rows-Distinct,
  All-last_rows,
}

-- One statement for each row, in order.
unfoldable pub upsert_all : List SpanRow → List SpanRow → List SpanRow
upsert_all [] table = table
upsert_all (row ∷ rows) table = upsert_all rows (upsert row table)

find-upsert :
    (k : SpanKey) (row : SpanRow) (table : List SpanRow)
    → find k (upsert row table) ≡ ite (SpanKey-discrete k (span_key row)) (some row) (find k table)
unfolding upsert
find-upsert k row [] = refl
find-upsert k row (old ∷ table) = ground (arith, find-upsert k row table)

pub find-upsert_all :
    (k : SpanKey) (rows table : List SpanRow)
    → find k (upsert_all rows table) ≡ or_else (find_last k rows) (find k table)
unfolding upsert_all
find-upsert_all k [] table = refl
find-upsert_all k (row ∷ rows) table =
    ground (arith, find-upsert_all k rows (upsert row table), find-upsert k row table)

upsert_all-append :
    (xs ys table : List SpanRow) → upsert_all (xs ++ ys) table ≡ upsert_all ys (upsert_all xs table)
unfolding upsert_all
upsert_all-append [] ys table = refl
upsert_all-append (x ∷ xs) ys table = upsert_all-append xs ys (upsert x table)

-- No row has the key of one that is written already.
abbrev Apart : List SpanRow → List SpanRow → Type 0
Apart written rows = All (λ row. has_key (span_key row) written ≡ false) rows

Apart-cons :
    (row : SpanRow) (written rows : List SpanRow)
    → has_key (span_key row) rows ≡ false
    → Apart written rows
    → Apart (row ∷ written) rows
Apart-cons row written [] h a = tt
Apart-cons row written (r ∷ rows) h a =
    (ground (arith, a.0), Apart-cons row written rows (ground arith) a.1)

insert_rows-upsert_all :
    (written rows table : List SpanRow)
    → All HasIds rows
    → Distinct rows
    → Apart written rows
    → insert_rows written rows table ≡ ok (upsert_all rows table)
unfolding insert_rows upsert_all
insert_rows-upsert_all written [] table v d a = refl
insert_rows-upsert_all written (row ∷ rows) table v d a =
    rw (v.0, a.0)
      (insert_rows-upsert_all (row ∷ written) rows (upsert row table) v.1 d.1
        (Apart-cons row written rows d.0 a.1))

has_key-append :
    (k : SpanKey) (xs ys : List SpanRow) → has_key k (xs ++ ys) ≡ false → has_key k xs ≡ false
has_key-append k [] ys h = refl
has_key-append k (x ∷ xs) ys h = ground (arith, has_key-append k xs ys)

Distinct-append_left : (xs ys : List SpanRow) → Distinct (xs ++ ys) → Distinct xs
Distinct-append_left [] ys d = tt
Distinct-append_left (x ∷ xs) ys d =
    (has_key-append (span_key x) xs ys d.0, Distinct-append_left xs ys d.1)

Distinct-append_right : (xs ys : List SpanRow) → Distinct (xs ++ ys) → Distinct ys
Distinct-append_right [] ys d = d
Distinct-append_right (x ∷ xs) ys d = Distinct-append_right xs ys d.1

All-append_left :
    (P : SpanRow → Type 0) (xs ys : List SpanRow) → All P (xs ++ ys) → All P xs × All P ys
All-append_left P [] ys h = (tt, h)
All-append_left P (x ∷ xs) ys h =
    let (front, back) = All-append_left P xs ys h.1 in ((h.0, front), back)

Apart-nil : (rows : List SpanRow) → Apart [] rows
Apart-nil [] = tt
Apart-nil (row ∷ rows) = (refl, Apart-nil rows)

insert_statement-upsert_all :
    (tx : Database) (rows : List SpanRow)
    → All HasIds rows
    → Distinct rows
    → insert_statement rows tx ≡ ok (record tx { spans = upsert_all rows tx.spans })
unfolding insert_statement
insert_statement-upsert_all tx rows v d =
    rw (insert_rows-upsert_all [] rows tx.spans v d (Apart-nil rows))

insert_chunks-calm :
    (db tx : Database) (pieces : List (List SpanRow))
    → All HasIds (concat pieces)
    → Distinct (concat pieces)
    → insert_chunks tx pieces (calm db)
      ≡ (ok (record tx { spans = upsert_all (concat pieces) tx.spans }), calm db)
unfolding insert_chunks pure ◌>>=◌ execute request upsert_all
insert_chunks-calm db tx [] v d = refl
insert_chunks-calm db tx (piece ∷ pieces) v d =
    let (valid, later) = All-append_left HasIds piece (concat pieces) v in
    rw (insert_statement-upsert_all tx piece valid (Distinct-append_left piece (concat pieces) d)) (
      rw (upsert_all-append piece (concat pieces) tx.spans) (
        insert_chunks-calm db (record tx { spans = upsert_all piece tx.spans }) pieces later
          (Distinct-append_right piece (concat pieces) d)))

write_rows-calm :
    (db : Database) (rows : List SpanRow)
    → All HasIds rows
    → Distinct rows
    → write_rows rows (calm db) ≡ (ok tt, calm (record db { spans = upsert_all rows db.spans }))
unfolding write_rows ◌>>=◌ begin request commit
write_rows-calm db rows v d =
    let whole = concat-chunks insert_chunk_rows rows (omega arith) in
    rw (insert_chunks-calm db db (chunks insert_chunk_rows rows) (rw whole v) (rw whole d))
      (rw whole)

-- The table that a `write` without errors leaves.
pub write-calm :
    (codec : Codec TracesData) (iteration : Iteration ℕ) (traces : TracesData) (db : Database)
    (b : Batch)
    → gather codec traces ≡ ok b
    → write codec iteration traces (calm db) ≡ (
      ok (b.rejected, b.errors),
      calm (record db { spans = upsert_all (last_rows b.rows) db.spans }),
    )
unfolding write dedupe_spans ◌>>=◌ lift pure
write-calm codec iteration traces db b e =
    let valid = (gather-Gathered codec traces b e).valid in
    rw (e, index_all-sort-values SpanKey-discrete span_key iteration b.rows)
      (rw (
        write_rows-calm db (last_rows b.rows) (All-last_rows HasIds b.rows valid)
          (last_rows-Distinct b.rows)))

pub find-upsert_last :
    (k : SpanKey) (rows table : List SpanRow)
    → find k (upsert_all (last_rows rows) table) ≡ find k (upsert_all rows table)
find-upsert_last k rows table =
    find-upsert_all k (last_rows rows) table
    ∙ rw (find_last-last_rows k rows) (sym (find-upsert_all k rows table))

-- If the loops end without an error and no request to the database fails, `write` succeeds with the
-- counts of the loops, and only the table of spans has changed: under every key it shows what
-- writing the rows one at a time, in order, would have left there.
pub write-eq-row_at_a_time :
    (codec : Codec TracesData) (iteration : Iteration ℕ) (traces : TracesData) (db : Database)
    (b : Batch)
    → gather codec traces ≡ ok b
    → (table : List SpanRow) × (write codec iteration traces (calm db)
        ≡ (ok (b.rejected, b.errors), calm (record db { spans = table })))
      × ((k : SpanKey) → find k table ≡ find k (upsert_all b.rows db.spans))
write-eq-row_at_a_time codec iteration traces db b e = (
  upsert_all (last_rows b.rows) db.spans,
  write-calm codec iteration traces db b e,
  λ k. find-upsert_last k b.rows db.spans,
)

insert_chunks-Reads :
    (tx : Database) (pieces : List (List SpanRow)) → Reads (insert_chunks tx pieces)
unfolding insert_chunks
insert_chunks-Reads tx [] = Reads-pure tx
insert_chunks-Reads tx (piece ∷ pieces) =
    Reads-bind _ _ (Reads-execute tx (insert_statement piece))
      (λ tx'. insert_chunks-Reads tx' pieces)

write_rows-IsAtomic : (rows : List SpanRow) → IsAtomic (write_rows rows)
unfolding write_rows
write_rows-IsAtomic rows = search (atomic_rules, insert_chunks-Reads)

pub write-IsAtomic :
    (codec : Codec TracesData) (iteration : Iteration ℕ) (traces : TracesData)
    → IsAtomic (write codec iteration traces)
unfolding write
write-IsAtomic codec iteration traces = search (atomic_rules, write_rows-IsAtomic) depth 8

-- A `write` that ends in an error, from the loops or at any request to the database, leaves the
-- database as it was.
pub write_fails_unchanged :
    (codec : Codec TracesData) (iteration : Iteration ℕ) (traces : TracesData) (c : Connection)
    (e : Error)
    → (write codec iteration traces c).0 ≡ err e
    → (write codec iteration traces c).1.database ≡ c.database
write_fails_unchanged codec iteration traces c e h =
    (write-IsAtomic codec iteration traces).at c e h
