-- ===== src/Diagnostics.antt =====
-- Storage counters: `Store::stats` of src/diagnostics.rs. The planner's estimates of the number of rows belong to PostgreSQL and are an argument.
pub mod Services
use otelview_postgres.Common.{
  ℕ, Bool, true, List, [], ◌∷◌, Str, text, length, any, ok, if◌then◌else◌,
}
use otelview_postgres.Common.Int.{ℤ, pos_part}
use otelview_postgres.Database.{Db, ◌>>=◌, pure, request, with_context}
use otelview_postgres.Search.{same}
use otelview_postgres.Listing.{Collation, services, log_services, metric_services}

pub record Stats : Type 0 where
  pub spans : ℕ
  pub logs : ℕ
  pub metric_points : ℕ
  pub services : ℕ

-- `COALESCE(n_live_tup, 0)` of each table.
pub record Estimates : Type 0 where
  pub spans : ℤ
  pub logs : ℤ
  pub metric_points : ℤ

-- `BTreeSet::extend`. Only the size of the set is read, so its order is left out.
unfoldable pub extend : List Str → List Str → List Str
extend set [] = set
extend set (s ∷ ss) = extend (if any (same s) set then set else s ∷ set) ss

unfoldable pub stats : Collation → Estimates → Db Stats
unfolding extend
stats collation estimates = do
  row ← with_context (text "query storage stats") (request λ _. ok estimates)
  of_spans ← services collation
  of_logs ← log_services collation
  of_metrics ← metric_services collation
  pure (record {
    spans = pos_part row.spans;
    logs = pos_part row.logs;
    metric_points = pos_part row.metric_points;
    services = length (extend (extend (extend [] of_spans) of_logs) of_metrics);
  })
