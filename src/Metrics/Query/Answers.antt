-- ===== src/Metrics/Query/Answers.antt =====
-- What `find_metrics` of src/metrics.rs returns.
use mathlib.Core.List.{Perm, Sublist}
use mathlib.Core.List.Sublist
use otelview_postgres.Common.{
  ℕ, zero, suc, ◌+◌, ◌≤◌, ◌<◌, ◌≡◌, refl, sym, ap, subst, ◌∙◌, ◌⊎◌, inl, inr, Bool, true, some,
  List, [], ◌∷◌, map, length, length-map, select, take, min, get_elem?, arith, Bool-cases, ok, Str,
  leb,
}
use otelview_postgres.Common.Int.{ℤ, pos, negsuc}
use otelview_postgres.Common.Sorting.{sort}
use otelview_postgres.Common.Sorted.{IsSorted, sort-Perm, sort-IsSorted}
use otelview_postgres.HashMap.{Iteration}
use otelview_postgres.Json.{Json}
use otelview_postgres.Schema.{MetricRow, Database}
use otelview_postgres.Database.{◌>>=◌, pure, lift, request, with_context, calm}
use otelview_postgres.Metrics.Query.{
  MetricQuery, MetricCondition, max_metric_rows, requested_points, metric_conditions, matches,
  oldest_first, thin, sampled_rows, SeriesKey, kept, series_key, find_metrics,
}
use otelview_postgres.Metrics.Query.Wanted.{wanted, metric_conditions-wanted}
use otelview_postgres.Metrics.Query.Parts.{
  take_whole, take_part, kept_part, kept_whole, kept-map, thin_part, thin_whole, length-positions,
  mem-positions, sample_whole,
}
use otelview_postgres.Metrics.Query.Places.{positions}
use otelview_postgres.Metrics.Query.Marks.{mem}
use otelview_postgres.Metrics.Query.Samples.{sample}
use otelview_postgres.Metrics.Query.Series.{keep_flags_lem}

requested_points_positive : (n : ℤ) → 1 ≤ requested_points n
unfolding requested_points
requested_points_positive (negsuc n) = omega arith
requested_points_positive (pos zero) = omega arith
requested_points_positive (pos (suc n)) = omega arith

get_elem?-map :
    {A B : Type 0} (f : A → B) (xs : List A) (i : ℕ) (x : A)
    → get_elem? xs i ≡ some x
    → get_elem? (map f xs) i ≡ some (f x)
get_elem?-map f [] i x e = absurd (cc)
get_elem?-map f (y ∷ xs) zero x e = ground (arith, e)
get_elem?-map f (y ∷ xs) (suc i) x e = get_elem?-map f xs i x e

within_or_more : (n m : ℕ) → (n ≤ m) ⊎ (m < n)
within_or_more n m = elim (Bool-cases (leb n m)) [
  | inl t ↦ inl (ground (arith, t))
  | inr t ↦ inr (ground (arith, t))
]

module _ (jsonb_eq : Json → Json → Bool) (json_text : Json → Str)
    (iteration : Iteration (List ℕ)) where
  -- If no series has more points than the budget, each is marked.
  marks_all :
      (budget : ℕ) (rows : List MetricRow) (flags : List Bool)
      → length rows ≤ budget
      → length flags ≡ length (map (series_key jsonb_eq json_text) rows)
      → ((i : ℕ) (k : SeriesKey)
          → get_elem? (map (series_key jsonb_eq json_text) rows) i ≡ some k
          → get_elem? flags i
            ≡ some
                (mem i (sample budget (positions k 0 (map (series_key jsonb_eq json_text) rows)))))
      → kept rows flags ≡ rows
  marks_all budget rows flags h long at =
      let key = series_key jsonb_eq json_text in
      kept_whole rows flags (long ∙ length-map key rows) λ i r e.
        let found = get_elem?-map key rows i r e in
        at i (key r) found
        ∙ ap some (
            ap (mem i) (
              sample_whole budget (positions (key r) 0 (map key rows))
                (omega (arith, length-positions (key r) 0 (map key rows), length-map key rows, h)))
            ∙ subst (λ n. mem n (positions (key r) 0 (map key rows)) ≡ true) {x = 0 + i} {y = i}
                (omega arith) (mem-positions (key r) 0 i (map key rows) found))

  select-matches :
      (query : MetricQuery) (cs : List MetricCondition) (points : List MetricRow)
      → metric_conditions query ≡ ok cs
      → select (matches cs) points ≡ select (wanted query) points
  select-matches query cs [] h = refl
  select-matches query cs (row ∷ points) h =
      rw (metric_conditions-wanted row query cs h, select-matches query cs points h) refl

  -- If a query names a metric, its bounds convert and the database answers, `find_metrics` changes nothing and, in whatever order the series are visited, returns payloads of points that the query wants, oldest
  -- first, leaving some out only where there are more than the budget or than 100000: a part of a list that holds exactly the wanted points, each as often as the table, ordered by time.
  pub find_metrics_returns :
      (query : MetricQuery) (cs : List MetricCondition) (db : Database)
      → metric_conditions query ≡ ok cs
      → (rows : List MetricRow) × (hits : List MetricRow) × (find_metrics jsonb_eq json_text
            iteration query
            (calm db)
          ≡ (ok (map (λ (r : MetricRow). r.payload) rows), calm db))
        × Perm hits (select (wanted query) db.metric_points)
        × IsSorted oldest_first hits
        × Sublist rows hits
        × ((rows ≡ hits) ⊎ (min (requested_points query.max_points) max_metric_rows < length hits))
  unfolding find_metrics ◌>>=◌ pure lift request with_context sampled_rows
  find_metrics_returns query cs db h =
      let budget = requested_points query.max_points in
      let found = select (matches cs) db.metric_points in
      let hits : List MetricRow = sort oldest_first found in
      let thinned : List MetricRow = thin jsonb_eq budget hits [] hits in
      let rows : List MetricRow = take max_metric_rows thinned in
      let key = series_key jsonb_eq json_text in
      let (flags, made, long, at) =
        keep_flags_lem iteration budget (map key rows)
          (requested_points_positive query.max_points) in
      let row_part : Sublist rows hits =
        Sublist.trans (take_part max_metric_rows thinned)
          (thin_part jsonb_eq budget hits [] hits) in
      (
        kept rows flags,
        hits,
        rw (h, made, kept-map (λ (r : MetricRow). r.payload) rows flags) refl,
        rw (sym (select-matches query cs db.metric_points h)) (sort-Perm oldest_first found),
        sort-IsSorted oldest_first (λ x y h. ground arith) (λ x y z h k. ground arith) found,
        Sublist.trans (kept_part rows flags) row_part,
        elim (within_or_more (length hits) (min budget max_metric_rows)) [
          | inr more ↦ inr more
          | inl few ↦
              let thin_all : thinned ≡ hits =
                thin_whole jsonb_eq budget hits [] hits (omega (arith, few)) in
              let all_rows : rows ≡ hits =
                ap (take max_metric_rows) thin_all
                ∙ take_whole max_metric_rows hits (omega (arith, few)) in
              inl (
                marks_all budget rows flags (omega (arith, ap length all_rows, few)) long at
                ∙ all_rows)
        ],
      )
