-- ===== src/Spans/Counts.antt =====
-- What the loops of `Store::write` gather: which spans are rejected, which of these are described, and which rows go on.
use otelview_postgres.Common.{
  ◌≡◌, refl, sym, ap, ◌∙◌, Bool, true, not, text, ◌&&◌, ◌==◌, List, [], ◌∷◌, ◌++◌, Str, Bytes, map,
  ok, >>=-eq-ok, ok-injective, subst, try_fold_collects, flat_map, arith, length, length-append,
  All, All-append, Bool-cases, inl, inr, select, select-append, map-append, take, take-append_one,
  append-nil, if◌then◌else◌,
}
use otelview_postgres.Codec.{Codec}
use otelview_postgres.Json.{
  Json, attributes_to_json, resource_attributes, scope_attributes, service_name,
}
use otelview_postgres.Otlp.{Span, ScopeSpans, ResourceSpans, TracesData}
use otelview_postgres.Schema.{SpanRow, SpanKey, span_key, check_ids}
use otelview_postgres.Time.{u64_to_i64}
use otelview_postgres.Spans.{
  Rejection, Batch, empty_batch, bad_ids, reject, span_row, singleton_payload, write_span,
  write_scope, write_resource, gather,
}

abbrev pub HasIds : SpanRow → Type 0
HasIds row = check_ids row ≡ true

-- A span of an export, with the scope and the resource that it comes under.
pub record Sent : Type 0 where
  pub resource : ResourceSpans
  pub scope : ScopeSpans
  pub span : Span

abbrev pub of_scope : ResourceSpans → ScopeSpans → List Sent
of_scope r s = map (λ span. record { resource = r; scope = s; span = span }) s.spans

abbrev pub of_resource : ResourceSpans → List Sent
of_resource r = flat_map (of_scope r) r.scope_spans

-- The spans of an export, in order.
abbrev pub sent_spans : TracesData → List Sent
sent_spans traces = flat_map of_resource traces.resource_spans

abbrev pub well_sized : Sent → Bool
well_sized x = (length x.span.trace_id == 16) && (length x.span.span_id == 8)

abbrev pub ill_sized : Sent → Bool
ill_sized x = not (well_sized x)

-- What is said of a rejected span.
abbrev pub described : Sent → Rejection
described x = record {
  name = x.span.name;
  trace_id_length = length x.span.trace_id;
  span_id_length = length x.span.span_id;
}

-- The message that holds the one span, under its scope and its resource.
abbrev pub alone : Sent → TracesData
alone x = record {
  resource_spans =
      record {
        resource = x.resource.resource;
        scope_spans =
            record { scope = x.scope.scope; spans = x.span ∷ []; schema_url = x.scope.schema_url }
            ∷ [];
        schema_url = x.resource.schema_url;
      }
      ∷ [];
}

abbrev pub sent_key : Sent → SpanKey
sent_key x = (x.span.trace_id, x.span.span_id)

-- The key and the payload of a row.
abbrev pub stored_item : SpanRow → SpanKey × Bytes
stored_item row = (span_key row, row.payload)

abbrev pub sent_item : Codec TracesData → Sent → SpanKey × Bytes
sent_item codec x = (sent_key x, codec.encode (alone x))

-- What a batch has gathered from spans: it counts those of ill-sized ids and describes the first five of them, and has a row for each of the
-- others, in order, with its key and, as the payload, the encoding of the message that holds it alone.
pub record Gathered (codec : Codec TracesData) (seen : List Sent) (b : Batch) : Type 0 where
  pub counted : b.rejected ≡ length (select ill_sized seen)
  pub first_described : b.errors ≡ take 5 (map described (select ill_sized seen))
  pub stored : map stored_item b.rows ≡ map (sent_item codec) (select well_sized seen)
  pub valid : All HasIds b.rows

bad-ill : (x : Sent) → bad_ids x.span ≡ ill_sized x
unfolding bad_ids
bad-ill x = ground arith

select_last :
    (p : Sent → Bool) (seen : List Sent) (x : Sent)
    → select p (seen ++ x ∷ []) ≡ select p seen ++ (if p x then x ∷ [] else [])
select_last p seen x = select-append p seen (x ∷ [])

module _ (codec : Codec TracesData) where
  reject-Gathered :
      (seen : List Sent) (b : Batch) (x : Sent)
      → ill_sized x ≡ true
      → Gathered codec seen b
      → Gathered codec (seen ++ x ∷ []) (reject b x.span)
  unfolding reject
  reject-Gathered seen b x h g =
      let bad : select ill_sized (seen ++ x ∷ []) ≡ select ill_sized seen ++ x ∷ [] =
        select_last ill_sized seen x ∙ rw h refl in
      let good : select well_sized (seen ++ x ∷ []) ≡ select well_sized seen =
        select_last well_sized seen x ∙ ground (arith, h, append-nil (select well_sized seen)) in
      record {
        counted =
            rw (bad, length-append (select ill_sized seen) (x ∷ [])) (omega (arith, g.counted));
        first_described =
            rw
              (
                bad,
                map-append described (select ill_sized seen) (x ∷ []),
                take-append_one 5 (map described (select ill_sized seen)) (described x),
                sym g.first_described,
              )
              refl;
        stored = rw good g.stored;
        valid = g.valid;
      }

  push-Gathered :
      (seen : List Sent) (b : Batch) (x : Sent) (row : SpanRow)
      → well_sized x ≡ true
      → stored_item row ≡ sent_item codec x
      → HasIds row
      → Gathered codec seen b
      → Gathered codec (seen ++ x ∷ []) (record b { rows = b.rows ++ row ∷ [] })
  push-Gathered seen b x row fine same h g =
      let bad : select ill_sized (seen ++ x ∷ []) ≡ select ill_sized seen =
        select_last ill_sized seen x ∙ ground (arith, fine, append-nil (select ill_sized seen)) in
      let good : select well_sized (seen ++ x ∷ []) ≡ select well_sized seen ++ x ∷ [] =
        select_last well_sized seen x ∙ rw fine refl in
      record {
        counted = rw bad g.counted;
        first_described = rw bad g.first_described;
        stored =
            rw
              (
                good,
                map-append stored_item b.rows (row ∷ []),
                map-append (sent_item codec) (select well_sized seen) (x ∷ []),
                g.stored,
                same,
              )
              refl;
        valid = All-append HasIds b.rows (row ∷ []) g.valid (h, tt);
      }

  -- The ids and the payload of a row are those of its span.
  span_row_lem :
      (r : ResourceSpans) (s : ScopeSpans) (span : Span) (service : Str) (ra sa : Json)
      (row : SpanRow)
      → span_row codec r s span service ra sa ≡ ok row
      → stored_item row ≡ sent_item codec (record { resource = r; scope = s; span = span })
  unfolding span_row singleton_payload
  span_row_lem r s span service ra sa row e =
      let (start, a, rest) =
        >>=-eq-ok (u64_to_i64 span.start_time_unix_nano (text "start timestamp")) _ e in
      let (end, b, last) =
        >>=-eq-ok (u64_to_i64 span.end_time_unix_nano (text "end timestamp")) _ rest in
      ap stored_item (sym (ok-injective last))

  write_span-Gathered :
      (r : ResourceSpans) (s : ScopeSpans) (service : Str) (ra sa : Json) (seen : List Sent)
      (b b' : Batch) (span : Span)
      → write_span codec r s service ra sa b span ≡ ok b'
      → Gathered codec seen b
      → Gathered codec (seen ++ record { resource = r; scope = s; span = span } ∷ []) b'
  unfolding write_span
  write_span-Gathered r s service ra sa seen b b' span e g =
      let x : Sent = record { resource = r; scope = s; span = span } in
      elim (Bool-cases (bad_ids span)) [
        | inl bad ↦
            subst (Gathered codec (seen ++ x ∷ [])) (ok-injective (rw bad at e))
              (reject-Gathered seen b x (sym (bad-ill x) ∙ bad) g)
        | inr fine ↦
            let (row, made, rest) =
              >>=-eq-ok (span_row codec r s span service ra sa)
                (λ row. ok (record b { rows = b.rows ++ row ∷ [] })) (rw fine at e) in
            let good : well_sized x ≡ true = ground (arith, bad-ill x, fine) in
            let same = span_row_lem r s span service ra sa row made in
            subst (Gathered codec (seen ++ x ∷ [])) (ok-injective rest)
              (push-Gathered seen b x row good same (ids_of row x same good) g)
      ]
    where
      ids_of :
          (row : SpanRow) (x : Sent)
          → stored_item row ≡ sent_item codec x
          → well_sized x ≡ true
          → HasIds row
      ids_of row x same good =
          ap (λ (i : SpanKey × Bytes). (length i.0.0 == 16) && (length i.0.1 == 8)) same ∙ good

  spans_alone :
      (r : ResourceSpans) (s : ScopeSpans) (spans : List Span)
      → flat_map {B = Sent} (λ span. record { resource = r; scope = s; span = span } ∷ []) spans
        ≡ map {B = Sent} (λ span. record { resource = r; scope = s; span = span }) spans
  spans_alone r s [] = refl
  spans_alone r s (span ∷ spans) =
      ap (λ (l : List Sent). record { resource = r; scope = s; span = span } ∷ l)
        (spans_alone r s spans)

  write_scope-Gathered :
      (r : ResourceSpans) (service : Str) (ra : Json) (seen : List Sent) (b b' : Batch)
      (s : ScopeSpans)
      → write_scope codec r service ra b s ≡ ok b'
      → Gathered codec seen b
      → Gathered codec (seen ++ of_scope r s) b'
  unfolding write_scope
  write_scope-Gathered r service ra seen b b' s e g =
      let attrs = attributes_to_json (scope_attributes s.scope) in
      subst (λ l. Gathered codec (seen ++ l) b') (spans_alone r s s.spans)
        (try_fold_collects (Gathered codec) (write_span codec r s service ra attrs)
          (λ span. record { resource = r; scope = s; span = span } ∷ [])
          (write_span-Gathered r s service ra attrs) seen b b' s.spans e g)

  write_resource-Gathered :
      (seen : List Sent) (b b' : Batch) (r : ResourceSpans)
      → write_resource codec b r ≡ ok b'
      → Gathered codec seen b
      → Gathered codec (seen ++ of_resource r) b'
  unfolding write_resource
  write_resource-Gathered seen b b' r e g =
      let attrs = attributes_to_json (resource_attributes r.resource) in
      try_fold_collects (Gathered codec) (write_scope codec r (service_name attrs) attrs)
        (of_scope r) (write_scope-Gathered r (service_name attrs) attrs) seen b b' r.scope_spans e g

  -- If the loops end without an error, they count the spans of the export whose ids have other lengths than 16 and 8, describe the first five of these by name
  -- and lengths, and make of each other span, in order, a row with its ids, whose payload encodes the message that holds this span alone under its scope and resource.
  pub gather-Gathered :
      (traces : TracesData) (b : Batch)
      → gather codec traces ≡ ok b
      → Gathered codec (sent_spans traces) b
  unfolding gather
  gather-Gathered traces b e =
      try_fold_collects (Gathered codec) (write_resource codec) of_resource write_resource-Gathered
        [] empty_batch b traces.resource_spans e
        (record { counted = refl; first_described = refl; stored = refl; valid = tt })
