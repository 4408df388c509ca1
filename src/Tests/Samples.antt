-- ===== src/Tests/Samples.antt =====
-- Exports, tables and arguments that the tests share.
use mathlib.Core.List.Perm
use otelview_postgres.Common.{
  ◌≡◌, refl, arith, true, Bool, false, ℕ, zero, suc, none, some, List, [], ◌∷◌, Bytes, Str, text,
  Error, anyhow, ok,
}
use otelview_postgres.Common.Int.{pos}
use otelview_postgres.Json.{object, no_fields, null}
use otelview_postgres.Json.{Json, str_lt}
use otelview_postgres.Listing.{Collation}
use otelview_postgres.Json.Queries.{no_pairs}
use otelview_postgres.Search.{TraceQuery}
use otelview_postgres.Codec.{Codec}
use otelview_postgres.HashMap.{Iteration}
use otelview_postgres.Otlp.{Span, ScopeSpans, ResourceSpans, TracesData, end, pair, string_value}
use otelview_postgres.Schema.{SpanRow, LogRow, MetricRow, Database}
use otelview_postgres.Database.{Connection}

abbrev pub in_order : Iteration ℕ
in_order = record { order = λ xs. xs; rearranges = λ xs. Perm.refl xs }

abbrev pub repeated : ℕ → ℕ → Bytes
repeated zero b = []
repeated (suc n) b = b ∷ repeated n b

-- A span with ids of the right lengths, filled with a byte each.
abbrev pub span : ℕ → ℕ → Str → ℕ → Span
span trace id name start = record {
  trace_id = repeated 16 trace;
  span_id = repeated 8 id;
  parent_span_id = [];
  name = name;
  kind = pos 2;
  start_time_unix_nano = start;
  end_time_unix_nano = start;
  attributes = end;
  status = none;
  rest = [];
}

abbrev pub scope_with : List Span → ScopeSpans
scope_with spans = record { scope = none; spans = spans; schema_url = [] }

abbrev pub resource_with : List Span → ResourceSpans
resource_with spans = record {
  resource = some (record {
    attributes = pair (text "service.name") (string_value (text "api")) end;
    rest = [];
  });
  scope_spans = scope_with spans ∷ [];
  schema_url = [];
}

abbrev pub traces : List Span → TracesData
traces spans = record { resource_spans = resource_with spans ∷ [] }

abbrev pub short_id : Span
short_id = record (span 9 9 (text "bad") 1) { span_id = 1 ∷ [] }

-- Two versions of one span, a span of another trace between them, and a span that is refused.
abbrev pub uploaded : List Span
uploaded =
    span 1 1 (text "first") 10
    ∷ span 2 2 (text "other") 11
    ∷ span 1 1 (text "second") 12
    ∷ short_id
    ∷ []

abbrev pub upload : TracesData
upload = traces uploaded

-- A start that does not fit in a BIGINT.
abbrev pub late_upload : TracesData
late_upload = traces (span 1 1 (text "late") 9223372036854775808 ∷ [])

abbrev pub blank_codec : Codec TracesData
blank_codec = record { encode = λ _. []; decode = λ _. ok (traces []) }

abbrev pub empty_database : Database
empty_database = record { spans = []; logs = []; metric_points = [] }

abbrev pub refused : Error
refused = anyhow (text "connection reset")

-- The third request fails.
abbrev pub shaky : Connection
shaky = record { database = empty_database; faults = none ∷ none ∷ some refused ∷ [] }

-- A span row of the service `api`.
abbrev pub row_at : ℕ → SpanRow
row_at start = record {
  trace_id = [];
  span_id = [];
  parent_span_id = [];
  service = text "api";
  operation = text "GET";
  kind = text "server";
  start = pos start;
  end = pos start;
  duration = pos 0;
  status = pos 0;
  span_attributes = object no_fields;
  resource_attributes = object no_fields;
  scope_attributes = object no_fields;
  payload = [];
}

abbrev pub of_api : TraceQuery
of_api = record {
  service_name = text "api";
  operation_name = [];
  attributes = no_pairs;
  start_time_min = none;
  start_time_max = none;
  duration_min = none;
  duration_max = none;
  search_depth = pos 5;
}

-- No query here asks for attributes.
abbrev pub never : Json → Json → Bool
never a b = false

-- The order of bytes.
pub str_lt_irreflexive : (a : Str) → str_lt a a ≡ false
unfolding str_lt
str_lt_irreflexive [] = refl
str_lt_irreflexive (c ∷ a) = ground (arith, str_lt_irreflexive a)

pub str_lt_transitive : (a b c : Str) → str_lt a b ≡ true → str_lt b c ≡ true → str_lt a c ≡ true
unfolding str_lt
str_lt_transitive a b [] h k = absurd cc
str_lt_transitive a [] (z ∷ c) h k = absurd cc
str_lt_transitive [] (y ∷ b) (z ∷ c) h k = refl
str_lt_transitive (x ∷ a) (y ∷ b) (z ∷ c) h k = ground (arith, str_lt_transitive a b c)

pub str_lt_total : (a b : Str) → str_lt a b ≡ false → str_lt b a ≡ false → a ≡ b
unfolding str_lt
str_lt_total [] [] h k = refl
str_lt_total [] (y ∷ b) h k = absurd cc
str_lt_total (x ∷ a) [] h k = absurd cc
str_lt_total (x ∷ a) (y ∷ b) h k = ground (arith, str_lt_total a b)

unfoldable pub by_bytes : Collation
by_bytes = record {
  lt = str_lt;
  irreflexive = str_lt_irreflexive;
  transitive = str_lt_transitive;
  total = str_lt_total;
}

-- A log record of a trace that has an identifier of two bytes.
abbrev pub log_at : ℕ → LogRow
log_at time = record {
  time = pos time;
  observed = pos time;
  severity_number = pos 9;
  severity_text = text "INFO";
  service = text "api";
  trace_id = 10 ∷ 11 ∷ [];
  span_id = [];
  body = text "up";
  attributes = null;
  resource_attributes = null;
  payload = time ∷ [];
}

abbrev pub as_it_comes : {A : Type 0} → Iteration A
as_it_comes = record { order = λ xs. xs; rearranges = λ xs. Perm.refl xs }

abbrev pub point_at : ℕ → MetricRow
point_at time = record {
  name = text "requests";
  description = [];
  unit = text "1";
  metric_type = text "sum";
  service = text "api";
  time = pos time;
  value = 0;
  count = pos 0;
  attributes = object no_fields;
  resource_attributes = object no_fields;
  payload = [];
}
