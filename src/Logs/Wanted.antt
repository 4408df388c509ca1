-- ===== src/Logs/Wanted.antt =====
-- The WHERE clause that `find_logs` of src/logs.rs builds selects what the query asks for.

use otelview_postgres.Common.{
  zero, suc, ◌≡◌, refl, sym, ap, ◌∙◌, Bool, true, false, not, ◌&&◌, ◌||◌, Option, none, some, ite,
  List, [], ◌∷◌, ◌++◌, Bytes, Str, is_empty, length, ◌==◌, Bytes-discrete, Result, ok, err,
  >>=-eq-ok, ok-injective, arith, text, anyhow,
}
use otelview_postgres.Common.Int.{ℤ, pos, negsuc, leb_ℤ, ltb_ℤ}
use otelview_postgres.Json.{Json}
use otelview_postgres.Time.{Timestamp}
use otelview_postgres.Hex.{Outcome, returned, panicked, hex_decode}
use otelview_postgres.Schema.{LogRow}
use otelview_postgres.Search.Filters.{text_wanted, time_wanted, and_true}
use otelview_postgres.Logs.{
  LogQuery, LogCondition, service_is, severity_from, time_from, time_before, trace_is, like_any,
  when, is_positive, search_pattern, trace_condition, time_condition, other_conditions,
  log_conditions, holds, matches,
}

-- What a query asks of a record, part by part: an empty text, an absent bound and a severity that is not positive ask nothing.
abbrev severity_wanted : ℤ → ℤ → Bool
severity_wanted (negsuc n) s = true
severity_wanted (pos zero) s = true
severity_wanted (pos (suc n)) s = leb_ℤ (pos (suc n)) s

-- The record's trace is the one that the text names, and has an identifier of 16 bytes.
abbrev pub is_trace : Outcome (Option Bytes) → Bytes → Bool
is_trace panicked id = false
is_trace (returned none) id = false
is_trace (returned (some asked)) id = ite (Bytes-discrete id asked) true false && (length id == 16)

abbrev pub trace_wanted : Str → Bytes → Bool
trace_wanted [] id = true
trace_wanted (c ∷ wanted) id = is_trace (hex_decode (c ∷ wanted)) id

module _ (ilike : Str → Str → Bool) (json_text : Json → Str) where
  -- The text stands in the body, in the severity or in the attributes, as ILIKE sees it.
  abbrev search_wanted : Str → LogRow → Bool
  search_wanted [] row = true
  search_wanted (c ∷ s) row =
      let pattern = search_pattern (c ∷ s) in
      ilike row.body pattern
      || (ilike row.severity_text pattern || ilike (json_text row.attributes) pattern)

  unfoldable pub wanted : LogQuery → LogRow → Bool
  wanted query row =
      text_wanted query.service_name row.service
      && (severity_wanted query.min_severity row.severity_number
          && (trace_wanted query.trace_id row.trace_id
              && (time_wanted (λ n. leb_ℤ n row.time) query.time_min
                  && (time_wanted (λ n. ltb_ℤ row.time n) query.time_max
                      && search_wanted query.search row))))

  module _ (row : LogRow) where
    matches-append :
        (xs ys : List LogCondition)
        → matches ilike json_text (xs ++ ys) row
          ≡ (matches ilike json_text xs row && matches ilike json_text ys row)
    unfolding matches
    matches-append [] ys = refl
    matches-append (x ∷ xs) ys = ground (arith, matches-append xs ys)

    matches-service :
        (s : Str)
        → matches ilike json_text (when (not (is_empty s)) (service_is s)) row
          ≡ text_wanted s row.service
    unfolding matches holds
    matches-service [] = refl
    matches-service (c ∷ s) = and_true _

    matches-severity :
        (n : ℤ)
        → matches ilike json_text (when (is_positive n) (severity_from n)) row
          ≡ severity_wanted n row.severity_number
    unfolding matches holds
    matches-severity (negsuc n) = ground arith
    matches-severity (pos zero) = refl
    matches-severity (pos (suc n)) = ground arith

    -- What the decoded identifier makes of the condition.
    matches-decoded :
        (o : Outcome (Option Bytes)) (cs : List LogCondition)
        → elim o as (λ x. Outcome (Result (List LogCondition))) [
          | panicked ↦ panicked
          | returned none ↦ returned (err (anyhow (text "trace_id must be a hex string")))
          | returned (some id) ↦ returned (ok (trace_is id ∷ []))
        ]
          ≡ returned (ok cs)
        → matches ilike json_text cs row ≡ is_trace o row.trace_id
    unfolding matches holds
    matches-decoded panicked cs h = absurd (cc)
    matches-decoded (returned none) cs h = absurd (cc)
    matches-decoded (returned (some id)) cs h = ground arith

    matches-trace :
        (s : Str) (cs : List LogCondition)
        → trace_condition s ≡ returned (ok cs)
        → matches ilike json_text cs row ≡ trace_wanted s row.trace_id
    unfolding matches holds trace_condition
    matches-trace [] cs h = ground arith
    matches-trace (c ∷ s) cs h = matches-decoded (hex_decode (c ∷ s)) cs h

    matches-time :
        (c : ℤ → LogCondition) (ts : Option Timestamp) (cs : List LogCondition)
        → time_condition c ts ≡ ok cs
        → matches ilike json_text cs row ≡ time_wanted (λ n. holds ilike json_text (c n) row) ts
    unfolding time_condition matches
    matches-time c none cs h = ground arith
    matches-time c (some ts) cs h = ground arith

    matches-text :
        (s : Str)
        → matches ilike json_text (when (not (is_empty s)) (like_any (search_pattern s))) row
          ≡ search_wanted s row
    unfolding matches holds
    matches-text [] = refl
    matches-text (c ∷ s) = and_true _

    conditions-wanted :
        (query : LogQuery) (trace from before : List LogCondition)
        → trace_condition query.trace_id ≡ returned (ok trace)
        → time_condition time_from query.time_min ≡ ok from
        → time_condition time_before query.time_max ≡ ok before
        → matches ilike json_text
            (when (not (is_empty query.service_name)) (service_is query.service_name)
              ++ (when (is_positive query.min_severity) (severity_from query.min_severity)
                  ++ (trace
                      ++ (from
                          ++ (before
                              ++ when
                                  (not (is_empty query.search))
                                  (like_any (search_pattern query.search)))))))
            row
          ≡ wanted query row
    unfolding wanted holds
    conditions-wanted query trace from before a b c = simp matches-append (
        rw (
          matches-service query.service_name,
          matches-severity query.min_severity,
          matches-trace query.trace_id trace a,
          matches-time time_from query.time_min from b,
          matches-time time_before query.time_max before c,
          matches-text query.search,
        ))

    other_conditions-wanted :
        (query : LogQuery) (trace cs : List LogCondition)
        → trace_condition query.trace_id ≡ returned (ok trace)
        → other_conditions query trace ≡ ok cs
        → matches ilike json_text cs row ≡ wanted query row
    other_conditions-wanted query trace cs a h =
        let (from, b, h1) = >>=-eq-ok (time_condition time_from query.time_min) _ h in
        let (before, c, h2) = >>=-eq-ok (time_condition time_before query.time_max) _ h1 in
        ap (λ cs. matches ilike json_text cs row) (sym (ok-injective h2))
        ∙ conditions-wanted query trace from before a b c

    built-wanted :
        (query : LogQuery) (o : Outcome (Result (List LogCondition))) (cs : List LogCondition)
        → trace_condition query.trace_id ≡ o
        → elim o as (λ x. Outcome (Result (List LogCondition))) [
          | panicked ↦ panicked
          | returned (err e) ↦ returned (err e)
          | returned (ok trace) ↦ returned (other_conditions query trace)
        ]
          ≡ returned (ok cs)
        → matches ilike json_text cs row ≡ wanted query row
    built-wanted query panicked cs a h = absurd (cc)
    built-wanted query (returned (err e)) cs a h = absurd (cc)
    built-wanted query (returned (ok trace)) cs a h =
        other_conditions-wanted query trace cs a (ground (arith, h))

    -- The conditions that `find_logs` builds pass exactly the records that the query wants.
    pub log_conditions-wanted :
        (query : LogQuery) (cs : List LogCondition)
        → log_conditions query ≡ returned (ok cs)
        → matches ilike json_text cs row ≡ wanted query row
    unfolding log_conditions
    log_conditions-wanted query cs h = built-wanted query (trace_condition query.trace_id) cs refl h
