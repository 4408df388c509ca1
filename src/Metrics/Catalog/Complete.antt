-- ===== src/Metrics/Catalog/Complete.antt =====
-- While the database answers, the catalog has an entry for every metric.
use otelview_postgres.Common.{
  ℕ, suc, ◌≡◌, inl, inr, refl, sym, ap, ◌∙◌, true, List, [], ◌∷◌, map, any, All, Str, Bool-cases,
  Result, ok, err, Error, arith,
}
use otelview_postgres.Common.Sorting.{sort, insert_sorted}
use otelview_postgres.Schema.{MetricRow, Database}
use otelview_postgres.Database.{calm, ◌>>=◌, pure, request, with_context}
use otelview_postgres.Search.{same}
use otelview_postgres.Listing.{Collation, distinct_values, distinct_indexed}
use otelview_postgres.Listing.Distinct.{distinct_values_lem}
use otelview_postgres.Metrics.Catalog.{
  MetricInfo, described, of_metric, newest_point, metric_info, spawned, collect_infos, list_metrics,
}
use otelview_postgres.Metrics.Catalog.Order.{
  numbered, FailsWith, Collected, collect_infos-Collected,
}

abbrev metric_name : MetricRow → Str
metric_name r = r.name

abbrev pub metric_names : Database → List Str
metric_names db = map (λ (r : MetricRow). r.name) db.metric_points

abbrev pub info_name : MetricInfo → Str
info_name i = i.name

-- A name of the column is that of a row, so its look-up finds one.
insert_sorted-cons :
    (r : MetricRow) (rows : List MetricRow)
    → (first : MetricRow) × (rest : List MetricRow) × (insert_sorted newest_point r rows
        ≡ first ∷ rest)
insert_sorted-cons r [] = (r, [], refl)
insert_sorted-cons r (x ∷ rows) = elim (Bool-cases (newest_point r x)) [
  | inl e ↦ (r, x ∷ rows, rw e)
  | inr e ↦ (x, insert_sorted newest_point r rows, rw e)
]

found_row :
    (name : Str) (rows : List MetricRow)
    → any (same name) (map metric_name rows) ≡ true
    → (first : MetricRow) × (rest : List MetricRow) × (sort newest_point (of_metric name rows)
        ≡ first ∷ rest)
found_row name [] h = absurd cc
found_row name (x ∷ rows) h = elim (Bool-cases (same x.name name)) [
  | inl e ↦ rw e (insert_sorted-cons x (sort newest_point (of_metric name rows)))
  | inr e ↦ rw e (found_row name rows (rw (sym h) (ground arith)))
]

metric_info_found :
    (collation : Collation) (name : Str) (db : Database)
    → any (same name) (metric_names db) ≡ true
    → (info : MetricInfo) × ((metric_info collation name (calm db)).0 ≡ ok info)
      × (info.name ≡ name)
unfolding metric_info ◌>>=◌ pure request with_context
metric_info_found collation name db h =
    let (first, rest, e) = found_row name db.metric_points h in
    (
      described first name (
          distinct_values collation
            (map (λ (r : MetricRow). r.service) (of_metric name db.metric_points))),
      rw e,
      refl,
    )

look_ups : Collation → Database → List Str → List (Result MetricInfo)
look_ups collation db = map (λ name. (metric_info collation name (calm db)).0)

look_ups_found :
    (collation : Collation) (db : Database) (names : List Str)
    → All (λ s. any (same s) (metric_names db) ≡ true) names
    → (infos : List MetricInfo) × (look_ups collation db names ≡ map ok infos)
      × (map info_name infos ≡ names)
unfolding look_ups
look_ups_found collation db [] h = ([], refl, refl)
look_ups_found collation db (name ∷ names) h =
    let (info, found, named) = metric_info_found collation name db h.0 in
    let (infos, all_found, all_named) = look_ups_found collation db names h.1 in
    (info ∷ infos, rw (found, all_found), rw (named, all_named))

spawned-look_ups :
    (collation : Collation) (db : Database) (i : ℕ) (names : List Str)
    → spawned (metric_info collation) (λ _. []) db i names
      ≡ numbered i (look_ups collation db names)
unfolding look_ups
spawned-look_ups collation db i [] = refl
spawned-look_ups collation db i (name ∷ names) =
    ap (◌∷◌ (record { index = i; info = (metric_info collation name (calm db)).0 }))
      (spawned-look_ups collation db (suc i) names)

not_failed : (e : Error) (infos : List MetricInfo) → FailsWith e (map ok infos) → ⊥
not_failed e [] h = elim h [ ]
not_failed e (i ∷ infos) (inl p) = cc
not_failed e (i ∷ infos) (inr p) = not_failed e infos p

map_ok_injective : (xs ys : List MetricInfo) → map ok xs ≡ map ok ys → xs ≡ ys
map_ok_injective [] [] h = refl
map_ok_injective [] (y ∷ ys) h = absurd cc
map_ok_injective (x ∷ xs) [] h = absurd cc
map_ok_injective (x ∷ xs) (y ∷ ys) h = cc (map_ok_injective xs ys (cc))

infos-Collected :
    (infos : List MetricInfo) (r : Result (List MetricInfo))
    → Collected (map ok infos) r
    → r ≡ ok infos
infos-Collected infos (err e) h = absurd (not_failed e infos h)
infos-Collected infos (ok others) h = ap ok (sym (map_ok_injective infos others h))

listed_own :
    (L M : List Str)
    → ((s : Str) → any (same s) L ≡ true → any (same s) M ≡ true)
    → All (λ s. any (same s) M ≡ true) L
listed_own [] M h = tt
listed_own (x ∷ L) M h = (h x (ground arith), listed_own L M (λ s p. h s (ground (arith, p))))

-- If the database answers, `list_metrics` changes nothing and returns, in whatever order the look-ups end, one entry for each distinct name
-- of a metric, in the order of the names.
pub list_metrics_complete :
    (collation : Collation) (choices : ℕ → ℕ) (db : Database)
    → (infos : List MetricInfo) × (list_metrics collation (λ _. []) choices (calm db)
        ≡ (ok infos, calm db))
      × (map info_name infos ≡ distinct_values collation (metric_names db))
unfolding list_metrics distinct_indexed ◌>>=◌ request with_context
list_metrics_complete collation choices db =
    let names = distinct_values collation (metric_names db) in
    let (infos, found, named) = look_ups_found collation db names (
      listed_own names (metric_names db)
        (λ s h. sym (distinct_values_lem collation (metric_names db) s).1 ∙ h)) in
    (
      infos,
      rw (spawned-look_ups collation db 0 names, found)
          (ap (λ r. (r, calm db))
            (infos-Collected infos (collect_infos choices (numbered 0 (map ok infos)))
              (collect_infos-Collected choices (map ok infos)))),
      named,
    )
