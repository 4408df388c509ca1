-- ===== src/Metrics/Catalog.antt =====
-- `list_metrics` and `metric_info` of src/metrics.rs: one descriptor for each metric name, looked up by tasks that run at the same time.
pub mod Order
pub mod Complete
use otelview_postgres.Common.{
  ℕ, zero, suc, Bool, Option, none, some, List, [], ◌∷◌, map, length, select, Str, text, Result, ok,
  err, Error, anyhow, ◌==◌, if◌then◌else◌,
}
use otelview_postgres.Common as Common
use otelview_postgres.Common.Int.{leb_ℤ}
use otelview_postgres.Common.Sorting.{sort}
use otelview_postgres.Schema.{MetricRow, Database}
use otelview_postgres.Database.{Connection, Db, ◌>>=◌, pure, lift, request, with_context}
use otelview_postgres.Search.{same}
use otelview_postgres.Listing.{Collation, distinct_values, distinct_indexed}

pub record MetricInfo : Type 0 where
  pub name : Str
  pub description : Str
  pub unit : Str
  pub metric_type : Str
  pub services : List Str

abbrev pub of_metric : Str → List MetricRow → List MetricRow
of_metric name = select (λ (r : MetricRow). same r.name name)

-- ORDER BY time_unix_nano DESC
abbrev pub newest_point : MetricRow → MetricRow → Bool
newest_point a b = leb_ℤ b.time a.time

-- `LIMIT 1` with `fetch_one`: no row is an error.
abbrev first_row : List MetricRow → Result MetricRow
first_row [] =
    err (anyhow (text "no rows returned by a query that expected to return at least one row"))
first_row (r ∷ rows) = ok r

abbrev pub described : MetricRow → Str → List Str → MetricInfo
described row name services = record {
  name = name;
  description = row.description;
  unit = row.unit;
  metric_type = row.metric_type;
  services = services;
}

module _ (collation : Collation) where
  unfoldable pub metric_info : Str → Db MetricInfo
  metric_info name = do
    row ←
        with_context (text "fetch metric descriptor")
          (request λ db. first_row (sort newest_point (of_metric name db.metric_points)))
    services ← with_context (text "list metric services") (
        request λ db. ok (
          distinct_values collation
            (map (λ (r : MetricRow). r.service) (of_metric name db.metric_points))))
    pure (described row name services)

-- A task that is done: its place, and what its look-up found.
pub record Joined : Type 0 where
  pub index : ℕ
  pub info : Result MetricInfo

abbrev pub set_slot : ℕ → MetricInfo → List (Option MetricInfo) → List (Option MetricInfo)
set_slot i v [] = []
set_slot zero v (s ∷ slots) = some v ∷ slots
set_slot (suc i) v (s ∷ slots) = s ∷ set_slot i v slots

-- The task that `join_next` returns: any of those that run, the first if the choice names none.
abbrev pub pick : ℕ → Joined → List Joined → Joined × List Joined
pick i t [] = (t, [])
pick zero t (u ∷ rest) = (t, u ∷ rest)
pick (suc i) t (u ∷ rest) = let (chosen, left) = pick i u rest in (chosen, t ∷ left)

-- The loop over `join_next`, with a round for each task. `choices` says for each round which of the running tasks ends next.
unfoldable pub join_all :
    ℕ → (ℕ → ℕ) → List Joined → List (Option MetricInfo) → Result (List (Option MetricInfo))
join_all zero choices tasks slots = ok slots
join_all (suc rounds) choices [] slots = ok slots
join_all (suc rounds) choices (t ∷ tasks) slots =
    let (done, left) = pick (choices rounds) t tasks in
    Common.◌>>=◌ done.info λ info. join_all rounds choices left (set_slot done.index info slots)

abbrev pub flatten : List (Option MetricInfo) → List MetricInfo
flatten [] = []
flatten (none ∷ slots) = flatten slots
flatten (some v ∷ slots) = v ∷ flatten slots

abbrev pub empty_slots : {A : Type 0} → List A → List (Option MetricInfo)
empty_slots [] = []
empty_slots (x ∷ xs) = none ∷ empty_slots xs

-- Each task has a connection of its own from the pool: the same database, and its own answers.
abbrev pub spawned :
    (Str → Db MetricInfo) → (ℕ → List (Option Error)) → Database → ℕ → List Str → List Joined
spawned look_up faults db i [] = []
spawned look_up faults db i (name ∷ names) =
    record { index = i; info = (look_up name (record { database = db; faults = faults i })).0 }
    ∷ spawned look_up faults db (suc i) names

abbrev pub collect_infos : (ℕ → ℕ) → List Joined → Result (List MetricInfo)
collect_infos choices tasks =
    Common.◌>>=◌ (join_all (length tasks) choices tasks (empty_slots tasks))
      λ slots. ok (flatten slots)

unfoldable pub list_metrics : Collation → (ℕ → List (Option Error)) → (ℕ → ℕ) → Db (List MetricInfo)
list_metrics collation faults choices = do
  names ←
      with_context (text "list metric names")
        (distinct_indexed collation λ db. map (λ (r : MetricRow). r.name) db.metric_points)
  λ c. (collect_infos choices (spawned (metric_info collation) faults c.database 0 names), c)
