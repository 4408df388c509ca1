-- ===== src/Search/Filters.antt =====
-- The WHERE clause that `apply_query` builds selects what the query asks for.
use mathlib.Core.Bool.{◌&&◌}
use otelview_postgres.Common.{
  ℕ, zero, suc, ◌≤◌, max, ◌≡◌, refl, sym, ap, ◌∙◌, Bool, true, false, not, ◌||◌, Option, none, some,
  List, [], ◌∷◌, ◌++◌, Str, is_empty, ok, err, >>=-eq-ok, ok-injective, arith,
}
use otelview_postgres.Common.Int.{ℤ, pos, negsuc, leb_ℤ, ltb_ℤ}
use otelview_postgres.Json.{Json, null, object, no_fields, field}
use otelview_postgres.Json.Queries.{
  QueryPairs, no_pairs, query_pair, query_bare, query_value_to_json,
}
use otelview_postgres.Time.{
  Timestamp, Duration, timestamp_to_nanos, duration_to_nanos, duration_bound,
}
use otelview_postgres.Schema.{SpanRow}
use otelview_postgres.Search.{
  TraceQuery, Condition, service_is, operation_is, start_from, start_before, duration_from,
  duration_to, when, time_condition, bound_condition, attribute_conditions, apply_query, same,
  holds, matches, search_depth, requested_depth,
}

-- The number of traces asked for is positive, at most 20 or what was requested, and within the server's limit.
pub search_depth_bounds :
    (limit : ℕ) (requested : ℤ)
    → (1 ≤ search_depth limit requested)
      × (search_depth limit requested ≤ max limit 1)
      × (search_depth limit requested ≤ requested_depth requested)
unfolding search_depth
search_depth_bounds limit (negsuc n) = omega arith
search_depth_bounds limit (pos zero) = omega arith
search_depth_bounds limit (pos (suc n)) = omega arith

-- A duration of no length is as good as none.
duration_bound_zero :
    (d : Duration)
    → duration_to_nanos d ≡ ok (pos 0)
    → duration_bound (some d) ≡ duration_bound none
unfolding duration_bound
duration_bound_zero d h = rw h

-- A query whose two duration bounds are present and zero selects by the same conditions as one without bounds.
pub zero_durations_do_not_filter :
    (query : TraceQuery) (shortest longest : Duration)
    → duration_to_nanos shortest ≡ ok (pos 0)
    → duration_to_nanos longest ≡ ok (pos 0)
    → apply_query (record query { duration_min = some shortest; duration_max = some longest })
      ≡ apply_query (record query { duration_min = none; duration_max = none })
unfolding apply_query
zero_durations_do_not_filter query shortest longest p q =
    rw (duration_bound_zero shortest p, duration_bound_zero longest q)

-- What a query asks of a row, part by part: an empty text and an absent bound ask nothing.
abbrev pub text_wanted : Str → Str → Bool
text_wanted [] s = true
text_wanted (c ∷ wanted) s = same s (c ∷ wanted)

abbrev pub time_wanted : (ℤ → Bool) → Option Timestamp → Bool
time_wanted test none = true
time_wanted test (some ts) = elim (timestamp_to_nanos ts) [ ok n ↦ test n | err e ↦ false ]

pub and_true : (b : Bool) → (b && true) ≡ b
and_true true = refl
and_true false = refl

abbrev duration_wanted : (ℤ → Bool) → Option Duration → Bool
duration_wanted test d = elim (duration_bound d) [
  | ok (some n) ↦ test n
  | ok none ↦ true
  | err e ↦ false
]

module _ (contains : Json → Json → Bool) where
  abbrev attribute_wanted : Json → SpanRow → Bool
  attribute_wanted needle row =
      contains row.span_attributes needle
      || (contains row.resource_attributes needle || contains row.scope_attributes needle)

  attributes_wanted : QueryPairs → SpanRow → Bool
  attributes_wanted no_pairs row = true
  attributes_wanted (query_pair k v rest) row =
      attribute_wanted (object (field k (query_value_to_json v) no_fields)) row
      && attributes_wanted rest row
  attributes_wanted (query_bare k rest) row =
      attribute_wanted (object (field k null no_fields)) row && attributes_wanted rest row

  unfoldable pub wanted : TraceQuery → SpanRow → Bool
  unfolding attributes_wanted
  wanted query row =
      text_wanted query.service_name row.service
      && (text_wanted query.operation_name row.operation
          && (time_wanted (λ n. leb_ℤ n row.start) query.start_time_min
              && (time_wanted (λ n. ltb_ℤ row.start n) query.start_time_max
                  && (duration_wanted (λ n. leb_ℤ n row.duration) query.duration_min
                      && (duration_wanted (λ n. leb_ℤ row.duration n) query.duration_max
                          && attributes_wanted query.attributes row)))))

  module _ (row : SpanRow) where
    matches-append :
        (xs ys : List Condition)
        → matches contains (xs ++ ys) row ≡ (matches contains xs row && matches contains ys row)
    unfolding matches
    matches-append [] ys = refl
    matches-append (x ∷ xs) ys = ground (arith, matches-append xs ys)

    matches-service :
        (s : Str)
        → matches contains (when (not (is_empty s)) (service_is s)) row ≡ text_wanted s row.service
    unfolding matches holds
    matches-service [] = refl
    matches-service (c ∷ s) = and_true _

    matches-operation :
        (s : Str)
        → matches contains (when (not (is_empty s)) (operation_is s)) row
          ≡ text_wanted s row.operation
    unfolding matches holds
    matches-operation [] = refl
    matches-operation (c ∷ s) = and_true _

    matches-time :
        (c : ℤ → Condition) (ts : Option Timestamp) (cs : List Condition)
        → time_condition c ts ≡ ok cs
        → matches contains cs row ≡ time_wanted (λ n. holds contains (c n) row) ts
    unfolding time_condition matches
    matches-time c none cs h = ground arith
    matches-time c (some ts) cs h = ground arith

    matches-duration :
        (c : ℤ → Condition) (d : Option Duration) (bound : Option ℤ)
        → duration_bound d ≡ ok bound
        → matches contains (bound_condition c bound) row
          ≡ duration_wanted (λ n. holds contains (c n) row) d
    unfolding matches
    matches-duration c d none h = rw (h, duration_wanted)
    matches-duration c d (some n) h = rw (h, duration_wanted) (and_true _)

    matches-attributes :
        (kvs : QueryPairs)
        → matches contains (attribute_conditions kvs) row ≡ attributes_wanted kvs row
    unfolding matches holds attribute_conditions attributes_wanted
    matches-attributes no_pairs = refl
    matches-attributes (query_pair k v kvs) = rw (matches-attributes kvs)
    matches-attributes (query_bare k kvs) = rw (matches-attributes kvs)

    conditions-wanted :
        (query : TraceQuery) (from before : List Condition) (shortest longest : Option ℤ)
        → time_condition start_from query.start_time_min ≡ ok from
        → time_condition start_before query.start_time_max ≡ ok before
        → duration_bound query.duration_min ≡ ok shortest
        → duration_bound query.duration_max ≡ ok longest
        → matches contains
            (when (not (is_empty query.service_name)) (service_is query.service_name)
              ++ (when (not (is_empty query.operation_name)) (operation_is query.operation_name)
                  ++ (from
                      ++ (before
                          ++ (bound_condition duration_from shortest
                              ++ (bound_condition duration_to longest
                                  ++ attribute_conditions query.attributes))))))
            row
          ≡ wanted query row
    unfolding wanted holds
    conditions-wanted query from before shortest longest a b c d = simp matches-append (
        rw (
          matches-service query.service_name,
          matches-operation query.operation_name,
          matches-time start_from query.start_time_min from a,
          matches-time start_before query.start_time_max before b,
          matches-duration duration_from query.duration_min shortest c,
          matches-duration duration_to query.duration_max longest d,
          matches-attributes query.attributes,
        ))

  -- If the query's bounds convert, the conditions that `apply_query` builds pass exactly the rows that the query wants.
  pub apply_query-wanted :
      (query : TraceQuery) (conditions : List Condition) (row : SpanRow)
      → apply_query query ≡ ok conditions
      → matches contains conditions row ≡ wanted query row
  unfolding apply_query
  apply_query-wanted query conditions row h =
      let (from, a, h1) = >>=-eq-ok (time_condition start_from query.start_time_min) _ h in
      let (before, b, h2) = >>=-eq-ok (time_condition start_before query.start_time_max) _ h1 in
      let (shortest, c, h3) = >>=-eq-ok (duration_bound query.duration_min) _ h2 in
      let (longest, d, h4) = >>=-eq-ok (duration_bound query.duration_max) _ h3 in
      ap (λ cs. matches contains cs row) (sym (ok-injective h4))
      ∙ conditions-wanted row query from before shortest longest a b c d
