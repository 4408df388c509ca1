-- ===== src/Retention/Safety.antt =====
-- Whatever requests fail, a sweep deletes no row that has not expired.
use otelview_postgres.Common.{
  ℕ, ◌≡◌, refl, ◌∙◌, Option, none, some, List, [], ◌∷◌, Result, ok, err, Error,
}
use otelview_postgres.Common.Int.{ℤ}
use otelview_postgres.Schema.{Database}
use otelview_postgres.Database.{Connection, autocommit, apply_statement}
use otelview_postgres.Retention.{
  Table, spans, logs, metric_points, batch_rows, cutoff_at, span_expired, log_expired,
  point_expired, delete_statement, sweep_expired,
}
use otelview_postgres.Retention.Sweep.{after_sweep, delete_up_to_lem}
use otelview_postgres.Retention.Passes.{Moves, sweep_expired-Moves}

-- A DELETE runs or fails, and then leaves the database as it was.
pub applied_statement {ℓ} :
    {A : Type ℓ} (P : Database → Type 0) (fs : List (Option Error)) (r : Result (A × Database))
    (db : Database)
    → P db
    → ((a : A) (db' : Database) → r ≡ ok (a, db') → P db')
    → P (apply_statement fs r db).1.database
applied_statement P [] (ok (a, db')) db h k = k a db' refl
applied_statement P [] (err e) db h k = h
applied_statement P (none ∷ fs) (ok (a, db')) db h k = k a db' refl
applied_statement P (none ∷ fs) (err e) db h k = h
applied_statement P (some e ∷ fs) r db h k = h

-- The rows that have not expired are as they were.
abbrev pub KeepsFresh : ℤ → Connection → Connection → Type 0
KeepsFresh cutoff c d = after_sweep cutoff d.database ≡ after_sweep cutoff c.database

module _ (cutoff : ℤ) where
  delete_keeps :
      (table : Table) (db : Database) (n : ℕ) (db' : Database)
      → delete_statement table cutoff db ≡ ok (n, db')
      → after_sweep cutoff db' ≡ after_sweep cutoff db
  unfolding delete_statement
  delete_keeps spans db n db' e =
      cc ((delete_up_to_lem (span_expired cutoff) batch_rows db.spans).0)
  delete_keeps logs db n db' e = cc ((delete_up_to_lem (log_expired cutoff) batch_rows db.logs).0)
  delete_keeps metric_points db n db' e =
      cc ((delete_up_to_lem (point_expired cutoff) batch_rows db.metric_points).0)

  pub Moves-delete_fresh :
      (table : Table) → Moves (KeepsFresh cutoff) (autocommit (delete_statement table cutoff))
  unfolding autocommit
  Moves-delete_fresh table = record {
    at = λ c.
        applied_statement (λ db. after_sweep cutoff db ≡ after_sweep cutoff c.database) c.faults
          (delete_statement table cutoff c.database) c.database refl
          (delete_keeps table c.database);
  }

-- A sweep on any connection, whichever of its requests fail and however many rounds it makes, loses no row
-- of any table that is not older than the cutoff, and keeps the order of those rows.
pub sweep_keeps_fresh :
    (rounds now retention : ℕ) (c : Connection)
    → after_sweep (cutoff_at now retention) (sweep_expired rounds now retention c).1.database
      ≡ after_sweep (cutoff_at now retention) c.database
sweep_keeps_fresh rounds now retention c =
    let cutoff = cutoff_at now retention in
    (sweep_expired-Moves (KeepsFresh cutoff) (λ c. refl) (λ a b c h k. k ∙ h) now retention
        (Moves-delete_fresh cutoff) rounds).at
      c
