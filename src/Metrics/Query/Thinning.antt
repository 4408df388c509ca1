-- ===== src/Metrics/Query/Thinning.antt =====
-- How much of a series the query leaves to be sampled.
use native.Mathlib.Nat.{add-div_left, div-eq_of_lt}
use otelview_postgres.Common.{
  ℕ, zero, suc, ◌+◌, ◌/◌, ◌%◌, ◌≤◌, ◌<◌, min, ◌≡◌, refl, ap, ◌∙◌, Bool, true, ◌||◌, List, [], ◌∷◌,
  length, select, All, ◌==◌, if◌then◌else◌, Str, arith,
}
use otelview_postgres.Json.{Json}
use otelview_postgres.Schema.{MetricRow}
use otelview_postgres.Search.{same}
use otelview_postgres.Metrics.Query.{one_series, survives, thin}

-- The survivors among `rows` more rows of a series, when `before` have been counted.
surviving : ℕ → ℕ → ℕ → ℕ → ℕ
surviving budget cnt before zero = 0
surviving budget cnt before (suc rows) =
    let rest = surviving budget cnt (before + 1) rows in
    if survives budget (before + 1) cnt then rest + 1 else rest

one_more : (budget : ℕ) → 2 ≤ budget → (budget + 1) / budget ≡ 1
one_more budget h =
    add-div_left 1 {k = budget} (omega arith)
    ∙ omega (arith, div-eq_of_lt {n = 1} {m = budget} (omega arith))

survives_second :
    (budget rn : ℕ)
    → 2 ≤ budget
    → survives budget rn (budget + 1) ≡ ((rn % 2 == 1) || (rn == budget + 1))
unfolding survives
survives_second budget rn h = rw (one_more budget h) (ground arith)

-- With one point too many, every second row survives, and the last.
surviving_half :
    (budget before rows : ℕ)
    → 2 ≤ budget
    → before + rows ≡ budget + 1
    → surviving budget (budget + 1) before rows + (before + 1) / 2 ≤ (budget + 2) / 2 + min rows 1
unfolding surviving
surviving_half budget before zero p h = omega arith
surviving_half budget before (suc rows) p h = ground (
  arith,
  survives_second budget (before + 1) p,
  surviving_half budget (before + 1) rows p (omega arith),
)

same_refl : (a : Str) → same a a ≡ true
same_refl a = ground arith

module _ (jsonb_eq : Json → Json → Bool) (service : Str) (attributes : Json) where
  abbrev pub InSeries : MetricRow → Type 0
  InSeries r = (r.service ≡ service) × (r.attributes ≡ attributes)

  one_series-InSeries :
      (a b : MetricRow)
      → jsonb_eq attributes attributes ≡ true
      → InSeries a
      → InSeries b
      → one_series jsonb_eq a b ≡ true
  one_series-InSeries a b eq h k = rw (h.0, h.1, k.0, k.1, same_refl service, eq)

  select-InSeries :
      (r : MetricRow) (rows : List MetricRow)
      → jsonb_eq attributes attributes ≡ true
      → InSeries r
      → All InSeries rows
      → length (select (one_series jsonb_eq r) rows) ≡ length rows
  select-InSeries r [] eq h k = refl
  select-InSeries r (x ∷ rows) eq h k =
      rw (one_series-InSeries r x eq h k.0) (ap suc (select-InSeries r rows eq h k.1))

  thin-surviving :
      (budget : ℕ) (all earlier rows : List MetricRow)
      → jsonb_eq attributes attributes ≡ true
      → All InSeries all
      → All InSeries earlier
      → All InSeries rows
      → length (thin jsonb_eq budget all earlier rows)
        ≡ surviving budget (length all) (length earlier) (length rows)
  unfolding thin surviving
  thin-surviving budget all earlier [] eq h k l = refl
  thin-surviving budget all earlier (r ∷ rows) eq h k l =
      rw (select-InSeries r earlier eq l.0 k, select-InSeries r all eq l.0 h)
        (ground (arith, thin-surviving budget all (r ∷ earlier) rows eq h (l.0, k) l.1))

  -- Of a series with one point more than a budget of at least five, the query leaves fewer points than the budget: at most half of it and two.
  pub thin_below_budget :
      (budget : ℕ) (rows : List MetricRow)
      → jsonb_eq attributes attributes ≡ true
      → 5 ≤ budget
      → length rows ≡ budget + 1
      → All InSeries rows
      → (length (thin jsonb_eq budget rows [] rows) < budget)
        × (length (thin jsonb_eq budget rows [] rows) ≤ budget / 2 + 2)
  thin_below_budget budget rows eq five long h =
      let counted = thin-surviving budget rows [] rows eq h tt h in
      let bound = surviving_half budget 0 (budget + 1) (omega arith) (omega arith) in
      let same_count : length (thin jsonb_eq budget rows [] rows)
          ≡ surviving budget (budget + 1) 0 (budget + 1) =
        counted ∙ ap (λ n. surviving budget n 0 n) long in
      (omega (arith, bound, same_count), omega (arith, bound, same_count))
