-- ===== src/Retention.antt =====
-- Time-based retention: `sweep_expired` and `run_retention` of src/retention.rs. The clock is an argument. Each
-- DELETE commits by itself. The rows that a LIMIT without an order picks are the first that a scan
-- of the table meets; tables list their rows in any such order. Log lines are left out.
pub mod Parse
pub mod Units
pub mod Layout
pub mod Sweep
pub mod Passes
pub mod Safety
pub mod Retries
pub mod Remaining
use otelview_postgres.Common.{
  ℕ, zero, suc, ◌+◌, ◌-◌, min, Bool, true, false, Option, none, some, List, [], ◌∷◌, ltb,
  if◌then◌else◌, Result, ok, err, Error, text,
}
use otelview_postgres.Common.Int.{ℤ, pos, ltb_ℤ}
use otelview_postgres.Schema.{Database, SpanRow, LogRow, MetricRow}
use otelview_postgres.Database.{Connection, Db, ◌>>=◌, pure, autocommit, with_context}

abbrev pub batch_rows : ℕ
batch_rows = 10000

-- In nanoseconds: the subtraction saturates at 0, and the result is cut to the range of `i64`.
unfoldable pub cutoff_at : ℕ → ℕ → ℤ
cutoff_at now_nanos retention_nanos = pos (min (now_nanos - retention_nanos) 9223372036854775807)

pub data Table : Type 0 where
  spans logs metric_points : Table

module _ {R : Type 0} (expired : R → Bool) where
  -- `DELETE … WHERE ctid IN (SELECT ctid … WHERE column < $1 LIMIT n)`: how many rows went, and what is left.
  unfoldable pub delete_up_to : ℕ → List R → ℕ × List R
  delete_up_to limit [] = (0, [])
  delete_up_to zero (row ∷ rows) = (0, row ∷ rows)
  delete_up_to (suc limit) (row ∷ rows) =
      let gone = delete_up_to limit rows in
      let kept = delete_up_to (suc limit) rows in
      if expired row then (suc gone.0, gone.1) else (kept.0, row ∷ kept.1)

abbrev pub span_expired : ℤ → SpanRow → Bool
span_expired cutoff row = ltb_ℤ row.start cutoff

abbrev pub log_expired : ℤ → LogRow → Bool
log_expired cutoff row = ltb_ℤ row.time cutoff

abbrev pub point_expired : ℤ → MetricRow → Bool
point_expired cutoff row = ltb_ℤ row.time cutoff

unfoldable pub delete_statement : Table → ℤ → Database → Result (ℕ × Database)
delete_statement spans cutoff db =
    let (n, rows) = delete_up_to (span_expired cutoff) batch_rows db.spans in
    ok (n, record db { spans = rows })
delete_statement logs cutoff db =
    let (n, rows) = delete_up_to (log_expired cutoff) batch_rows db.logs in
    ok (n, record db { logs = rows })
delete_statement metric_points cutoff db =
    let (n, rows) = delete_up_to (point_expired cutoff) batch_rows db.metric_points in
    ok (n, record db { metric_points = rows })

-- The `loop` over one table, with rounds to bound it: `none` if they run out. A round that deletes
-- less than a batch is the last.
unfoldable pub sweep_table : ℕ → Table → ℤ → ℕ → Db (Option ℕ)
sweep_table zero table cutoff out = pure none
sweep_table (suc rounds) table cutoff out = do
  deleted ← with_context (text "sweep expired rows") (autocommit (delete_statement table cutoff))
  let rest = sweep_table rounds table cutoff (out + deleted)
  if ltb deleted batch_rows then pure (some (out + deleted)) else rest

-- The rows deleted from each table.
pub record Swept : Type 0 where
  pub from_spans : Option ℕ
  pub from_logs : Option ℕ
  pub from_metric_points : Option ℕ

unfoldable pub sweep_expired : ℕ → ℕ → ℕ → Db Swept
sweep_expired rounds now_nanos retention_nanos = do
  let cutoff = cutoff_at now_nanos retention_nanos
  a ← sweep_table rounds spans cutoff 0
  b ← sweep_table rounds logs cutoff 0
  c ← sweep_table rounds metric_points cutoff 0
  pure (record { from_spans = a; from_logs = b; from_metric_points = c })

-- `run_retention`, over the times of its ticks: a sweep that fails is left for the next tick.
unfoldable pub run_retention : ℕ → ℕ → List ℕ → Connection → Connection
run_retention rounds retention_nanos [] c = c
run_retention rounds retention_nanos (now ∷ ticks) c =
    run_retention rounds retention_nanos ticks (sweep_expired rounds now retention_nanos c).1
