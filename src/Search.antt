-- ===== src/Search.antt =====
-- Trace search: `search_depth`, `apply_query`, `find_ids` and `spans_for_ids` of src/store.rs.
-- A statement stands for the rows that it selects; jsonb containment (`@>`) belongs to PostgreSQL and is an argument. Rows that
-- ORDER BY leaves tied come in the order of a scan.
pub mod Filters
pub mod Entries
pub mod Extents
pub mod Results
use otelview_postgres.Common.{
  ℕ, zero, suc, ◌+◌, min, max, Bool, true, false, not, ◌&&◌, ◌||◌, Option, none, some, ite, List,
  [], ◌∷◌, ◌++◌, map, leb, ltb, if◌then◌else◌, Bytes, Str, is_empty, select, any, take, Result, ok,
  err, Bytes-discrete, text,
}
use otelview_postgres.Common as Common
use otelview_postgres.Common.Int.{ℤ, pos, negsuc, leb_ℤ, ltb_ℤ, min_ℤ, max_ℤ}
use otelview_postgres.Common.Sorting.{sort}
use otelview_postgres.Json.{Json, null, object, no_fields, field, str_lt}
use otelview_postgres.Json.Queries.{
  QueryValue, QueryPairs, no_pairs, query_pair, query_bare, query_value_to_json,
}
use otelview_postgres.Time.{
  Timestamp, Duration, timestamp_to_nanos, duration_bound, nanos_to_timestamp,
}
use otelview_postgres.Schema.{SpanRow, Database}
use otelview_postgres.Database.{Db, ◌>>=◌, pure, lift, request}

-- `TraceQueryParameters`
pub record TraceQuery : Type 0 where
  pub service_name : Str
  pub operation_name : Str
  pub attributes : QueryPairs
  pub start_time_min : Option Timestamp
  pub start_time_max : Option Timestamp
  pub duration_min : Option Duration
  pub duration_max : Option Duration
  pub search_depth : ℤ

abbrev pub requested_depth : ℤ → ℕ
requested_depth (negsuc n) = 20
requested_depth (pos zero) = 20
requested_depth (pos (suc n)) = suc n

unfoldable pub search_depth : ℕ → ℤ → ℕ
search_depth max_search_depth requested = min (requested_depth requested) (max max_search_depth 1)

-- A conjunct of the WHERE clause, with its bound value.
pub data Condition : Type 0 where
  service_is operation_is : Str → Condition
  start_from start_before duration_from duration_to : ℤ → Condition
  has_attribute : Json → Condition

abbrev pub when : Bool → Condition → List Condition
when true c = c ∷ []
when false c = []

unfoldable pub time_condition : (ℤ → Condition) → Option Timestamp → Result (List Condition)
time_condition c none = ok []
time_condition c (some ts) = Common.◌>>=◌ (timestamp_to_nanos ts) λ nanos. ok (c nanos ∷ [])

abbrev pub bound_condition : (ℤ → Condition) → Option ℤ → List Condition
bound_condition c none = []
bound_condition c (some nanos) = c nanos ∷ []

unfoldable pub attribute_conditions : QueryPairs → List Condition
attribute_conditions no_pairs = []
attribute_conditions (query_pair k v rest) =
    has_attribute (object (field k (query_value_to_json v) no_fields)) ∷ attribute_conditions rest
attribute_conditions (query_bare k rest) =
    has_attribute (object (field k null no_fields)) ∷ attribute_conditions rest

unfoldable pub apply_query : TraceQuery → Result (List Condition)
apply_query query = Common.◌>>=◌ (time_condition start_from query.start_time_min) λ from.
    Common.◌>>=◌ (time_condition start_before query.start_time_max) λ before.
      Common.◌>>=◌ (duration_bound query.duration_min) λ shortest.
        Common.◌>>=◌ (duration_bound query.duration_max) λ longest. ok (
          when (not (is_empty query.service_name)) (service_is query.service_name)
          ++ (when (not (is_empty query.operation_name)) (operation_is query.operation_name)
              ++ (from
                  ++ (before
                      ++ (bound_condition duration_from shortest
                          ++ (bound_condition duration_to longest
                              ++ attribute_conditions query.attributes))))))

abbrev pub same : Bytes → Bytes → Bool
same a b = ite (Bytes-discrete a b) true false

module _ (contains : Json → Json → Bool) where
  unfoldable pub holds : Condition → SpanRow → Bool
  holds (service_is s) row = same row.service s
  holds (operation_is s) row = same row.operation s
  holds (start_from n) row = leb_ℤ n row.start
  holds (start_before n) row = ltb_ℤ row.start n
  holds (duration_from n) row = leb_ℤ n row.duration
  holds (duration_to n) row = leb_ℤ row.duration n
  holds (has_attribute needle) row =
      contains row.span_attributes needle
      || (contains row.resource_attributes needle || contains row.scope_attributes needle)

  unfoldable pub matches : List Condition → SpanRow → Bool
  matches [] row = true
  matches (c ∷ cs) row = holds c row && matches cs row

-- A row of `SELECT trace_id, MIN(start), MAX(end) … GROUP BY trace_id`, with the MAX(start) that
-- orders it.
pub record Group : Type 0 where
  pub trace_id : Bytes
  pub start : ℤ
  pub end : ℤ
  pub latest : ℤ

abbrev pub single : SpanRow → Group
single row = record {
  trace_id = row.trace_id;
  start = row.start;
  end = row.end;
  latest = row.start;
}

abbrev pub widen : SpanRow → Group → Group
widen row g = record g {
  start = min_ℤ row.start g.start;
  end = max_ℤ row.end g.end;
  latest = max_ℤ row.start g.latest;
}

unfoldable pub add_to_groups : SpanRow → List Group → List Group
add_to_groups row [] = single row ∷ []
add_to_groups row (g ∷ gs) =
    ite (Bytes-discrete row.trace_id g.trace_id) (widen row g ∷ gs) (g ∷ add_to_groups row gs)

unfoldable pub group_by_trace : List SpanRow → List Group
group_by_trace [] = []
group_by_trace (row ∷ rows) = add_to_groups row (group_by_trace rows)

pub record FoundTraceId : Type 0 where
  pub trace_id : Bytes
  pub start : Timestamp
  pub end : Timestamp

unfoldable pub found_trace : Group → FoundTraceId
found_trace g = record {
  trace_id = g.trace_id;
  start = nanos_to_timestamp g.start;
  end = nanos_to_timestamp g.end;
}

abbrev pub newest_first : Group → Group → Bool
newest_first a b = leb_ℤ b.latest a.latest

unfoldable pub find_ids : (Json → Json → Bool) → ℕ → TraceQuery → Db (List FoundTraceId)
find_ids contains max_search_depth query = do
  conditions ← lift (apply_query query)
  groups ← request λ db. ok (
      take (search_depth max_search_depth query.search_depth)
        (sort newest_first (group_by_trace (select (matches contains conditions) db.spans))))
  pure (map found_trace groups)

pub record StoredSpan : Type 0 where
  pub trace_id : Bytes
  pub span_id : Bytes
  pub parent_span_id : Bytes
  pub service_name : Str
  pub operation_name : Str
  pub start : ℤ
  pub end : ℤ
  pub status_code : ℤ
  pub payload : Bytes

unfoldable pub row_to_span : SpanRow → StoredSpan
row_to_span row = record {
  trace_id = row.trace_id;
  span_id = row.span_id;
  parent_span_id = row.parent_span_id;
  service_name = row.service;
  operation_name = row.operation;
  start = row.start;
  end = row.end;
  status_code = row.status;
  payload = row.payload;
}

-- ORDER BY trace_id, start_time_unix_nano
abbrev pub by_trace_and_start : SpanRow → SpanRow → Bool
by_trace_and_start a b =
    str_lt a.trace_id b.trace_id || (same a.trace_id b.trace_id && leb_ℤ a.start b.start)

abbrev pub listed : List Bytes → SpanRow → Bool
listed ids row = any (same row.trace_id) ids

unfoldable pub spans_for_ids : List Bytes → Db (List StoredSpan)
unfolding row_to_span
spans_for_ids [] = pure []
spans_for_ids (id ∷ ids) =
    request
      λ db. ok (map row_to_span (sort by_trace_and_start (select (listed (id ∷ ids)) db.spans)))
