-- ===== src/Metrics/Query/Wanted.antt =====
-- The WHERE clause that `find_metrics` of src/metrics.rs builds selects what the query asks for.

use otelview_postgres.Common.{
  ◌≡◌, refl, sym, ap, ◌∙◌, inl, inr, Bool, not, ◌&&◌, Option, none, some, List, [], ◌∷◌, ◌++◌,
  arith, Bool-cases, ok, Str, is_empty, >>=-eq-ok, ok-injective,
}
use otelview_postgres.Common.Int.{ℤ, leb_ℤ, ltb_ℤ}
use otelview_postgres.Time.{Timestamp}
use otelview_postgres.Schema.{MetricRow}
use otelview_postgres.Search.{same}
use otelview_postgres.Search.Filters.{text_wanted, time_wanted, and_true}
use otelview_postgres.Metrics.Query.{
  MetricQuery, MetricCondition, name_is, service_is, time_from, time_before, when, time_condition,
  metric_conditions, holds, matches,
}

-- What a query asks of a data point: its name, and what else it gives.
unfoldable pub wanted : MetricQuery → MetricRow → Bool
wanted query row =
    same row.name query.metric_name
    && (text_wanted query.service_name row.service
        && (time_wanted (λ n. leb_ℤ n row.time) query.time_min
            && time_wanted (λ n. ltb_ℤ row.time n) query.time_max))

module _ (row : MetricRow) where
  matches-append :
      (xs ys : List MetricCondition) → matches (xs ++ ys) row ≡ (matches xs row && matches ys row)
  unfolding matches
  matches-append [] ys = refl
  matches-append (x ∷ xs) ys = ground (arith, matches-append xs ys)

  matches-first :
      (c : MetricCondition) (cs : List MetricCondition)
      → matches (c ∷ cs) row ≡ (holds c row && matches cs row)
  unfolding matches
  matches-first c cs = refl

  matches-service :
      (s : Str) → matches (when (not (is_empty s)) (service_is s)) row ≡ text_wanted s row.service
  unfolding matches holds
  matches-service [] = refl
  matches-service (c ∷ s) = and_true _

  matches-time :
      (c : ℤ → MetricCondition) (ts : Option Timestamp) (cs : List MetricCondition)
      → time_condition c ts ≡ ok cs
      → matches cs row ≡ time_wanted (λ n. holds (c n) row) ts
  unfolding time_condition matches
  matches-time c none cs h = ground arith
  matches-time c (some ts) cs h = ground arith

  conditions-wanted :
      (query : MetricQuery) (from before : List MetricCondition)
      → time_condition time_from query.time_min ≡ ok from
      → time_condition time_before query.time_max ≡ ok before
      → matches
          (name_is query.metric_name
            ∷ (when (not (is_empty query.service_name)) (service_is query.service_name)
                ++ (from ++ before)))
          row
        ≡ wanted query row
  unfolding wanted holds
  conditions-wanted query from before a b =
      rw
        (
          matches-first (name_is query.metric_name) (
              when (not (is_empty query.service_name)) (service_is query.service_name)
              ++ (from ++ before)),
          matches-append (when (not (is_empty query.service_name)) (service_is query.service_name))
              (from ++ before),
          matches-append from before,
          matches-service query.service_name,
          matches-time time_from query.time_min from a,
          matches-time time_before query.time_max before b,
        )
        refl

  -- The conditions pass exactly the points that the query wants.
  pub metric_conditions-wanted :
      (query : MetricQuery) (cs : List MetricCondition)
      → metric_conditions query ≡ ok cs
      → matches cs row ≡ wanted query row
  unfolding metric_conditions
  metric_conditions-wanted query cs h = elim (Bool-cases (is_empty query.metric_name)) [
    | inl t ↦ absurd (ground (arith, rw t at h))
    | inr t ↦
        let (from, a, h1) = >>=-eq-ok (time_condition time_from query.time_min) _ (rw t at h) in
        let (before, b, h2) = >>=-eq-ok (time_condition time_before query.time_max) _ h1 in
        ap (λ cs. matches cs row) (sym (ok-injective h2)) ∙ conditions-wanted query from before a b
  ]
