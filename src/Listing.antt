-- ===== src/Listing.antt =====
-- The loose index scan of `Store::distinct_indexed` in src/store.rs, and the listings of services made by it. The order of texts is the database's collation, an argument.
pub mod Least
pub mod Distinct
pub mod Operations
use otelview_postgres.Common.{
  ℕ, zero, suc, ◌≡◌, Bool, true, false, not, ◌||◌, Option, none, some, ite, List, [], ◌∷◌, map,
  if◌then◌else◌, Str, length, select, Bytes-discrete, Result, ok, ◌≢◌,
}
use otelview_postgres.Common.Sorting.{sort}
use otelview_postgres.Schema.{SpanRow, LogRow, MetricRow, Database}
use otelview_postgres.Database.{Db, request}

-- A strict linear order of texts.
pub record Collation : Type 0 where
  pub lt : Str → Str → Bool
  pub irreflexive : (a : Str) → lt a a ≡ false
  pub transitive : (a b c : Str) → lt a b ≡ true → lt b c ≡ true → lt a c ≡ true
  pub total : (a b : Str) → lt a b ≡ false → lt b a ≡ false → a ≡ b

module _ (collation : Collation) where
  -- `… ORDER BY c LIMIT 1`
  unfoldable pub least : List Str → Option Str
  least [] = none
  least (x ∷ xs) = elim (least xs) [
    | none ↦ some x
    | some y ↦ some (if collation.lt y x then y else x)
  ]

  abbrev pub above : Str → List Str → List Str
  above v = select (collation.lt v)

  -- The recursive query: the value that was found, then the least above it, until there is none.
  unfoldable pub walk : ℕ → List Str → Option Str → List Str
  unfolding least
  walk zero column v = []
  walk (suc rounds) column none = []
  walk (suc rounds) column (some v) = v ∷ walk rounds column (least (above v column))

  -- Of a column, with a round for each row and one more.
  unfoldable pub distinct_values : List Str → List Str
  unfolding least walk
  distinct_values column = sort collation.lt (walk (suc (length column)) column (least column))

  unfoldable pub distinct_indexed : (Database → List Str) → Db (List Str)
  unfolding distinct_values
  distinct_indexed column = request λ db. ok (distinct_values (column db))

  unfoldable pub services : Db (List Str)
  unfolding distinct_indexed
  services = distinct_indexed λ db. map (λ (r : SpanRow). r.service) db.spans

  unfoldable pub log_services : Db (List Str)
  unfolding distinct_indexed
  log_services = distinct_indexed λ db. map (λ (r : LogRow). r.service) db.logs

  unfoldable pub metric_services : Db (List Str)
  unfolding distinct_indexed
  metric_services = distinct_indexed λ db. map (λ (r : MetricRow). r.service) db.metric_points
