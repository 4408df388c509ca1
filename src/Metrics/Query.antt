-- ===== src/Metrics/Query.antt =====
-- `find_metrics` of src/metrics.rs. Equality of two jsonb values and the text of one belong to PostgreSQL and are arguments, and so is the order in which the map of
-- series is iterated. A panic is `none`, and an error of `find_metrics`, as which the client sees it.
pub mod Samples
pub mod Marks
pub mod Places
pub mod Series
pub mod Wanted
pub mod Parts
pub mod Answers
pub mod Thinning
use otelview_postgres.Common.{
  ℕ, zero, suc, ◌+◌, ◌/◌, ◌%◌, Bool, true, false, not, ◌&&◌, ◌||◌, Option, none, some, ite, List,
  [], ◌∷◌, ◌++◌, map, length, select, take, leb, ◌==◌, if◌then◌else◌, Bytes, Str, text, is_empty,
  Result, ok, err, Error, anyhow, ok_or, Bytes-discrete,
}
use otelview_postgres.Common as Common
use otelview_postgres.Common.Int.{ℤ, pos, negsuc, leb_ℤ, ltb_ℤ}
use otelview_postgres.Common.Sorting.{sort}
use otelview_postgres.HashMap.{Iteration, insert, get, into_values}
use otelview_postgres.Json.{Json}
use otelview_postgres.Time.{Timestamp, timestamp_to_nanos}
use otelview_postgres.Schema.{MetricRow, Database}
use otelview_postgres.Database.{Db, ◌>>=◌, pure, lift, request, with_context}
use otelview_postgres.Search.{same}
use otelview_postgres.Metrics.Sampling.{downsample}

-- `MetricQueryParameters`
pub record MetricQuery : Type 0 where
  pub metric_name : Str
  pub service_name : Str
  pub time_min : Option Timestamp
  pub time_max : Option Timestamp
  pub max_points : ℤ

abbrev pub max_metric_rows : ℕ
max_metric_rows = 100000

unfoldable pub requested_points : ℤ → ℕ
requested_points (negsuc n) = 500
requested_points (pos zero) = 500
requested_points (pos (suc n)) = suc n

-- A conjunct of the WHERE clause, with its bound value.
pub data MetricCondition : Type 0 where
  name_is service_is : Str → MetricCondition
  time_from time_before : ℤ → MetricCondition

abbrev pub when : Bool → MetricCondition → List MetricCondition
when true c = c ∷ []
when false c = []

unfoldable pub time_condition :
    (ℤ → MetricCondition) → Option Timestamp → Result (List MetricCondition)
time_condition c none = ok []
time_condition c (some ts) = Common.◌>>=◌ (timestamp_to_nanos ts) λ nanos. ok (c nanos ∷ [])

unfoldable pub metric_conditions : MetricQuery → Result (List MetricCondition)
unfolding time_condition
metric_conditions query =
    if is_empty query.metric_name
    then err (anyhow (text "metric_name is required"))
    else Common.◌>>=◌ (time_condition time_from query.time_min) λ from.
      Common.◌>>=◌ (time_condition time_before query.time_max) λ before. ok (
        name_is query.metric_name
        ∷ (when (not (is_empty query.service_name)) (service_is query.service_name)
            ++ (from ++ before)))

unfoldable pub holds : MetricCondition → MetricRow → Bool
holds (name_is s) row = same row.name s
holds (service_is s) row = same row.service s
holds (time_from n) row = leb_ℤ n row.time
holds (time_before n) row = ltb_ℤ row.time n

unfoldable pub matches : List MetricCondition → MetricRow → Bool
unfolding holds
matches [] row = true
matches (c ∷ cs) row = holds c row && matches cs row

-- ORDER BY time_unix_nano ASC
abbrev pub oldest_first : MetricRow → MetricRow → Bool
oldest_first a b = leb_ℤ a.time b.time

-- `WHERE cnt <= $p OR rn % (cnt / $p + 1) = 1 OR rn = cnt`
unfoldable pub survives : ℕ → ℕ → ℕ → Bool
survives budget rn cnt = leb cnt budget || ((rn % (cnt / budget + 1) == 1) || (rn == cnt))

module _ (jsonb_eq : Json → Json → Bool) where
  -- `PARTITION BY service_name, attributes`
  abbrev pub one_series : MetricRow → MetricRow → Bool
  one_series a b = same a.service b.service && jsonb_eq a.attributes b.attributes

  -- The rows that survive, of rows in the order of time: those before are in `earlier`.
  unfoldable pub thin : ℕ → List MetricRow → List MetricRow → List MetricRow → List MetricRow
  unfolding survives
  thin budget all earlier [] = []
  thin budget all earlier (r ∷ rows) =
      let rn = length (select (one_series r) earlier) + 1 in
      let cnt = length (select (one_series r) all) in
      let rest = thin budget all (r ∷ earlier) rows in
      if survives budget rn cnt then r ∷ rest else rest

  unfoldable pub sampled_rows : ℕ → List MetricCondition → List MetricRow → List MetricRow
  unfolding matches thin
  sampled_rows budget conditions points =
      let rows = sort oldest_first (select (matches conditions) points) in
      take max_metric_rows (thin budget rows [] rows)

-- The key of a series in the program: its service and the text of its attributes.
abbrev pub SeriesKey : Type 0
SeriesKey = Str × Str

unfoldable pub SeriesKey-discrete : Discrete SeriesKey
unfolding Bytes-discrete
SeriesKey-discrete = hlevel Bytes-discrete

abbrev pub indices_or_none : Option (List ℕ) → List ℕ
indices_or_none none = []
indices_or_none (some is) = is

-- `series.entry(key).or_default().push(index)` for each row, from an index on
unfoldable pub group_indices :
    ℕ → List SeriesKey → List (SeriesKey × List ℕ) → List (SeriesKey × List ℕ)
group_indices i [] series = series
group_indices i (k ∷ keys) series = group_indices (suc i) keys (
    insert SeriesKey-discrete k (indices_or_none (get SeriesKey-discrete k series) ++ i ∷ [])
      series)

-- `keep[index] = true`
abbrev pub mark : ℕ → List Bool → Option (List Bool)
mark i [] = none
mark zero (b ∷ keep) = some (true ∷ keep)
mark (suc i) (b ∷ keep) = elim (mark i keep) [ none ↦ none | some rest ↦ some (b ∷ rest) ]

unfoldable pub mark_all : List ℕ → List Bool → Option (List Bool)
mark_all [] keep = some keep
mark_all (i ∷ is) keep = elim (mark i keep) [ none ↦ none | some keep' ↦ mark_all is keep' ]

unfoldable pub mark_series : ℕ → List (List ℕ) → List Bool → Option (List Bool)
mark_series budget [] keep = some keep
mark_series budget (indices ∷ series) keep = elim (downsample indices budget) [
  | none ↦ none
  | some sample ↦ elim (mark_all sample keep) [
    | none ↦ none
    | some keep' ↦ mark_series budget series keep'
  ]
]

abbrev pub unmarked : {A : Type 0} → List A → List Bool
unmarked [] = []
unmarked (x ∷ xs) = false ∷ unmarked xs

-- Which rows to return, by the keys of their series.
unfoldable pub keep_flags : Iteration (List ℕ) → ℕ → List SeriesKey → Option (List Bool)
unfolding group_indices mark_series mark_all
keep_flags iteration budget keys =
    mark_series budget (iteration.order (into_values (group_indices 0 keys []))) (unmarked keys)

-- `zip(keep).filter_map(…)`
abbrev pub kept : {A : Type 0} → List A → List Bool → List A
kept [] keep = []
kept (x ∷ xs) [] = []
kept (x ∷ xs) (b ∷ keep) = let rest = kept xs keep in if b then x ∷ rest else rest

module _ (jsonb_eq : Json → Json → Bool) (json_text : Json → Str) where
  abbrev pub series_key : MetricRow → SeriesKey
  series_key r = (r.service, json_text r.attributes)

  unfoldable pub find_metrics : Iteration (List ℕ) → MetricQuery → Db (List Bytes)
  unfolding metric_conditions sampled_rows keep_flags requested_points
  find_metrics iteration query = do
    conditions ← lift (metric_conditions query)
    rows ← with_context (text "query metric points") (
        request λ db.
          ok
            (sampled_rows jsonb_eq (requested_points query.max_points) conditions db.metric_points))
    keep ← lift (
        ok_or (keep_flags iteration (requested_points query.max_points) (map series_key rows))
          (anyhow (text "index out of bounds")))
    pure (kept (map (λ (r : MetricRow). r.payload) rows) keep)
