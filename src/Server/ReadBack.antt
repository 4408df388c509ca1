-- ===== src/Server/ReadBack.antt =====
-- What an export of spans stores, `get_traces` of src/server.rs gives back.
use otelview_postgres.Common.{
  sym, ok-injective, Bytes, ℕ, ◌⊎◌, inl, inr, ◌≡◌, refl, ap, ◌∙◌, Bool, true, Option, none, some,
  List, [], ◌∷◌, map, select, All, ok, Str, length, ◌==◌, arith, Bool-cases, ltb, if◌then◌else◌,
}
use otelview_postgres.Common.Sorting.{sort, insert_sorted}
use otelview_postgres.Codec.{Codec, Survives}
use otelview_postgres.HashMap.{Iteration}
use otelview_postgres.Otlp.{TracesData}
use otelview_postgres.Schema.{SpanRow, SpanKey, SpanKey-discrete, span_key, Database}
use otelview_postgres.Database.{calm, request}
use otelview_postgres.Search.{
  StoredSpan, same, listed, by_trace_and_start, row_to_span, spans_for_ids,
}
use otelview_postgres.Spans.{Batch, Rejection, gather}
use otelview_postgres.Common.Sorted.{All-sort}
use otelview_postgres.Spans.Counts.{Sent, alone, sent_key, sent_spans, well_sized, gather-Gathered}
use otelview_postgres.Spans.Latest.{
  last_under, All-last_under, select_passes, row_of_last, Readable, All-Readable, All-upsert_all,
}
use otelview_postgres.Spans.Dedupe.{find, last_rows, All-last_rows}
use otelview_postgres.Spans.Upsert.{upsert_all, find-upsert_all, find-upsert_last, write-calm}
use otelview_postgres.Server.{
  PartialSuccess, join, Reply, reply, map_err, internal, validate_trace_ids, export_traces,
  stream_ids, get_traces,
}

-- An element of a list.
abbrev pub Holds : {A : Type 0} → A → List A → Type 0
Holds x [] = ⊥
Holds x (y ∷ ys) = (y ≡ x) ⊎ Holds x ys

Holds-map : {A B : Type 0} (f : A → B) (x : A) (xs : List A) → Holds x xs → Holds (f x) (map f xs)
Holds-map f x [] h = h
Holds-map f x (y ∷ ys) (inl p) = inl (ap f p)
Holds-map f x (y ∷ ys) (inr h) = inr (Holds-map f x ys h)

module _ {A : Type 0} where
  Holds-select :
      (p : A → Bool) (x : A) (xs : List A) → p x ≡ true → Holds x xs → Holds x (select p xs)
  Holds-select p x [] e h = h
  Holds-select p x (y ∷ ys) e (inl q) = rw (ap p q ∙ e) (inl q)
  Holds-select p x (y ∷ ys) e (inr h) = elim (Bool-cases (p y)) [
    | inl t ↦ rw t (inr (Holds-select p x ys e h))
    | inr t ↦ rw t (Holds-select p x ys e h)
  ]

  Holds-past :
      (x y z : A) (ys rest : List A)
      → ((y ≡ x) ⊎ Holds x ys → Holds x rest)
      → (y ≡ x) ⊎ ((z ≡ x) ⊎ Holds x ys)
      → (z ≡ x) ⊎ Holds x rest
  Holds-past x y z ys rest k (inl p) = inr (k (inl p))
  Holds-past x y z ys rest k (inr (inl p)) = inl p
  Holds-past x y z ys rest k (inr (inr h)) = inr (k (inr h))

  Holds-insert_sorted :
      (before : A → A → Bool) (x y : A) (ys : List A)
      → (y ≡ x) ⊎ Holds x ys
      → Holds x (insert_sorted before y ys)
  Holds-insert_sorted before x y [] h = h
  Holds-insert_sorted before x y (z ∷ ys) h = elim (Bool-cases (before y z)) [
    | inl t ↦ rw t h
    | inr t ↦
        rw t (Holds-past x y z ys (insert_sorted before y ys) (Holds-insert_sorted before x y ys) h)
  ]

  Holds-sort : (before : A → A → Bool) (x : A) (xs : List A) → Holds x xs → Holds x (sort before xs)
  Holds-sort before x [] h = h
  Holds-sort before x (y ∷ ys) (inl p) = Holds-insert_sorted before x y (sort before ys) (inl p)
  Holds-sort before x (y ∷ ys) (inr h) =
      Holds-insert_sorted before x y (sort before ys) (inr (Holds-sort before x ys h))

Holds-find : (k : SpanKey) (r : SpanRow) (rows : List SpanRow) → find k rows ≡ some r → Holds r rows
Holds-find k r [] e = absurd (cc)
Holds-find k r (row ∷ rows) e = elim (SpanKey-discrete k (span_key row)) [
  | yes p ↦ inl (ground (arith, p, e))
  | no n ↦ inr (Holds-find k r rows (ground (arith, n, e)))
]

same_refl : (a : Str) → same a a ≡ true
same_refl a = ground arith

All-select :
    (P : SpanRow → Type 0) (p : SpanRow → Bool) (rows : List SpanRow)
    → All P rows
    → All P (select p rows)
All-select P p [] h = tt
All-select P p (row ∷ rows) h = elim (Bool-cases (p row)) [
  | inl t ↦ rw t (h.0, All-select P p rows h.1)
  | inr t ↦ rw t (All-select P p rows h.1)
]

module _ (codec : Codec TracesData) where
  -- What the stream shows of a row.
  abbrev item : SpanRow → Reply TracesData
  item row = map_err internal (codec.decode row.payload)

  -- Rows whose payloads decode stream as messages, without an error.
  messages_of :
      (rows : List SpanRow)
      → All (Readable codec) rows
      → (messages : List TracesData) × (map item rows ≡ map reply messages)
        × ((row : SpanRow) (m : TracesData)
            → Holds row rows
            → codec.decode row.payload ≡ ok m
            → Holds m messages)
  messages_of [] h = ([], refl, λ row m q e. q)
  messages_of (row ∷ rows) h =
      let (m, decodes) = h.0 in
      let (messages, streams, later) = messages_of rows h.1 in
      (
        m ∷ messages,
        rw decodes (ap (◌∷◌ (reply m)) streams),
        λ r n q e. elim q [
          | inl same ↦
              inl
                (ok-injective (sym decodes ∙ ap (λ (r : SpanRow). codec.decode r.payload) same ∙ e))
          | inr there ↦ inr (later r n there e)
        ],
      )

  map-row_to_span :
      (rows : List SpanRow)
      → map (λ (s : StoredSpan). map_err internal (codec.decode s.payload)) (map row_to_span rows)
        ≡ map item rows
  unfolding row_to_span
  map-row_to_span [] = refl
  map-row_to_span (row ∷ rows) = ap (◌∷◌ (item row)) (map-row_to_span rows)

-- Where no request fails, the rows in the database decode, and the message of each well-sized span of an export survives its encoding: if the loops over the export end without an error, it is answered, and from the database that it leaves
-- `get_traces`, asked for the trace of any span that is the last well-sized one of the export under its ids, streams messages without an error, among them the one that holds
-- this span alone under its scope and its resource.
pub export-get_traces :
    (codec : Codec TracesData) (iteration : Iteration ℕ) (describe : Rejection → Str)
    (traces : TracesData) (db : Database) (b : Batch) (x : Sent)
    → All (Readable codec) db.spans
    → All (λ y. Survives codec (alone y)) (select well_sized (sent_spans traces))
    → gather codec traces ≡ ok b
    → last_under sent_key (sent_key x) (select well_sized (sent_spans traces)) ≡ some x
    → (answer : Option PartialSuccess) × (written : Database) × (messages : List TracesData)
      × (export_traces codec iteration describe traces (calm db) ≡ (reply answer, calm written))
      × (get_traces codec (x.span.trace_id ∷ []) (calm written)
          ≡ (reply (map reply messages), calm written))
      × Holds (alone x) messages
unfolding export_traces get_traces stream_ids validate_trace_ids spans_for_ids request
export-get_traces codec iteration describe traces db b x readable survive gathers last =
    let good = select well_sized (sent_spans traces) in
    let sized : well_sized x ≡ true =
      All-last_under (λ y. well_sized y ≡ true) sent_key (sent_key x) good x
        (select_passes well_sized (sent_spans traces)) last in
    let mine : Survives codec (alone x) =
      All-last_under (λ y. Survives codec (alone y)) sent_key (sent_key x) good x survive last in
    let g = gather-Gathered codec traces b gathers in
    let (row, latest, same) = row_of_last codec (sent_spans traces) b x g last in
    let table : List SpanRow = upsert_all (last_rows b.rows) db.spans in
    let id = x.span.trace_id in
    let found : List SpanRow = sort by_trace_and_start (select (listed (id ∷ [])) table) in
    let stored : find (sent_key x) table ≡ some row =
      find-upsert_last (sent_key x) b.rows db.spans
      ∙ find-upsert_all (sent_key x) b.rows db.spans
      ∙ rw latest refl in
    let whole : All (Readable codec) table =
      All-upsert_all (Readable codec) (last_rows b.rows) db.spans
        (All-last_rows (Readable codec) b.rows
          (All-Readable codec b.rows (select well_sized (sent_spans traces)) g.stored survive))
        readable in
    let (messages, streams, later) = messages_of codec found (
      All-sort (Readable codec) by_trace_and_start _
        (All-select (Readable codec) (listed (id ∷ [])) table whole)) in
    let of_trace : row.trace_id ≡ id = ap (λ (i : SpanKey × Bytes). i.0.0) same in
    let kept : Holds row found =
      Holds-sort by_trace_and_start row (select (listed (id ∷ [])) table) (
        Holds-select (listed (id ∷ [])) row table (ground (arith, of_trace, same_refl id))
          (Holds-find (sent_key x) row table stored)) in
    let long : (length id == 16) ≡ true = ground (arith, sized) in
    (
      if ltb 0 b.rejected
          then some
              (record { rejected_spans = b.rejected; error_message = join (map describe b.errors) })
          else none,
      record db { spans = table },
      messages,
      rw (write-calm codec iteration traces db b gathers) refl,
      rw long (
          ap (λ items. (reply items, calm (record db { spans = table })))
            (map-row_to_span codec found ∙ streams)),
      later row (alone x) kept (ap (λ (i : SpanKey × Bytes). codec.decode i.1) same ∙ mine),
    )
