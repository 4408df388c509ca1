-- ===== src/Retention/Retries.antt =====
-- A sweep that fails is made up for: once the requests have stopped failing, the next tick leaves nothing that has expired.
use otelview_postgres.Common.{
  ℕ, zero, suc, ◌-◌, ◌*◌, ◌≤◌, ◌<◌, ◌≡◌, refl, sym, ap, ◌∙◌, Bool, true, Option, none, some, List,
  [], ◌∷◌, ◌++◌, length, length-select-le, All, Result, ok, err, Error, arith,
}
use otelview_postgres.Common.Int.{ℤ, ltb_ℤ}
use otelview_postgres.Schema.{Database, SpanRow, LogRow, MetricRow}
use otelview_postgres.Database.{Connection, calm, autocommit, apply_statement}
use otelview_postgres.Retention.{
  Table, spans, logs, metric_points, batch_rows, cutoff_at, delete_up_to, span_expired, log_expired,
  point_expired, delete_statement, sweep_expired, run_retention,
}
use otelview_postgres.Retention.Sweep.{survivors, after_sweep, sweep_expired_complete}
use otelview_postgres.Retention.Safety.{sweep_keeps_fresh, applied_statement}
use otelview_postgres.Retention.Passes.{Moves, sweep_expired-Moves, sweep_expired_first}

-- No table grows, and no new failure comes up.
record Shrinks (c d : Connection) : Type 0 where
  faults : length d.faults ≤ length c.faults
  spans : length d.database.spans ≤ length c.database.spans
  logs : length d.database.logs ≤ length c.database.logs
  points : length d.database.metric_points ≤ length c.database.metric_points

-- An answer has come, if any answer was still open.
abbrev Answered : Connection → Connection → Type 0
Answered c d = length d.faults ≤ length c.faults - 1

length-delete_up_to :
    {R : Type 0} (expired : R → Bool) (n : ℕ) (rows : List R)
    → length (delete_up_to expired n rows).1 ≤ length rows
unfolding delete_up_to
length-delete_up_to expired n [] = omega arith
length-delete_up_to expired zero (row ∷ rows) = omega arith
length-delete_up_to expired (suc n) (row ∷ rows) =
    ground (arith, length-delete_up_to expired n rows, length-delete_up_to expired (suc n) rows)

answered_statement {ℓ} :
    {A : Type ℓ} (fs : List (Option Error)) (r : Result (A × Database)) (db : Database)
    → length (apply_statement fs r db).1.faults ≤ length fs - 1
answered_statement [] (ok (a, db')) db = omega arith
answered_statement [] (err e) db = omega arith
answered_statement (none ∷ fs) (ok (a, db')) db = omega arith
answered_statement (none ∷ fs) (err e) db = omega arith
answered_statement (some e ∷ fs) r db = omega arith

Sizes : Database → Database → Type 0
Sizes old new =
    (length new.spans ≤ length old.spans)
    × (length new.logs ≤ length old.logs)
    × (length new.metric_points ≤ length old.metric_points)

module _ (cutoff : ℤ) where
  delete_shrinks :
      (table : Table) (db : Database) (n : ℕ) (db' : Database)
      → delete_statement table cutoff db ≡ ok (n, db')
      → Sizes db db'
  unfolding delete_statement Sizes
  delete_shrinks spans db n db' e =
      ground (arith, length-delete_up_to (span_expired cutoff) batch_rows db.spans)
  delete_shrinks logs db n db' e =
      ground (arith, length-delete_up_to (log_expired cutoff) batch_rows db.logs)
  delete_shrinks metric_points db n db' e =
      ground (arith, length-delete_up_to (point_expired cutoff) batch_rows db.metric_points)

  Moves-delete-Answered :
      (table : Table) → Moves Answered (autocommit (delete_statement table cutoff))
  unfolding autocommit
  Moves-delete-Answered table = record {
    at = λ c. answered_statement c.faults (delete_statement table cutoff c.database) c.database;
  }

  delete-Sizes :
      (table : Table) (c : Connection)
      → Sizes c.database (autocommit (delete_statement table cutoff) c).1.database
  unfolding autocommit Sizes
  delete-Sizes table c =
      applied_statement (Sizes c.database) c.faults (delete_statement table cutoff c.database)
        c.database (omega arith) (delete_shrinks table c.database)

  Moves-delete-Shrinks :
      (table : Table) → Moves Shrinks (autocommit (delete_statement table cutoff))
  unfolding Sizes
  Moves-delete-Shrinks table = record {
    at = λ c.
        let (fewer_spans, fewer_logs, fewer_points) = delete-Sizes table c in
        record {
          faults = omega (arith, (Moves-delete-Answered table).at c);
          spans = fewer_spans;
          logs = fewer_logs;
          points = fewer_points;
        };
  }

Shrinks-self : (c : Connection) → Shrinks c c
Shrinks-self c = omega arith

Shrinks-after : (a b c : Connection) → Shrinks a b → Shrinks b c → Shrinks a c
Shrinks-after a b c h k = omega arith

sweep-Shrinks :
    (rounds now retention : ℕ) (c : Connection) → Shrinks c (sweep_expired rounds now retention c).1
sweep-Shrinks rounds now retention c =
    (sweep_expired-Moves Shrinks Shrinks-self Shrinks-after now retention
        (Moves-delete-Shrinks (cutoff_at now retention)) rounds).at
      c

sweep-Answered :
    (rounds now retention : ℕ) (c : Connection)
    → Answered c (sweep_expired (suc rounds) now retention c).1
sweep-Answered rounds now retention c =
    (sweep_expired_first Shrinks Shrinks-self Shrinks-after now retention
        (Moves-delete-Shrinks (cutoff_at now retention)) Answered (λ a b c h k. omega arith)
        (Moves-delete-Answered (cutoff_at now retention)) rounds).at
      c

-- A later cutoff expires what an earlier one does.
cutoff_at_mono :
    (now later retention : ℕ) (n : ℤ)
    → now ≤ later
    → ltb_ℤ n (cutoff_at now retention) ≡ true
    → ltb_ℤ n (cutoff_at later retention) ≡ true
unfolding cutoff_at
cutoff_at_mono now later retention n h k = ground arith

survivors-survivors :
    {R : Type 0} (p q : R → Bool) (rows : List R)
    → ((r : R) → p r ≡ true → q r ≡ true)
    → survivors q (survivors p rows) ≡ survivors q rows
survivors-survivors p q [] h = refl
survivors-survivors p q (r ∷ rows) h = ground (arith, h r, survivors-survivors p q rows h)

after_sweep_later :
    (now later retention : ℕ) (db : Database)
    → now ≤ later
    → after_sweep (cutoff_at later retention) (after_sweep (cutoff_at now retention) db)
      ≡ after_sweep (cutoff_at later retention) db
after_sweep_later now later retention db h =
    let early = cutoff_at now retention in
    let late = cutoff_at later retention in
    let grows = λ (n : ℤ). cutoff_at_mono now later retention n h in
    λ i. record {
      spans =
          survivors-survivors (span_expired early) (span_expired late) db.spans
            (λ (r : SpanRow). grows r.start) i;
      logs =
          survivors-survivors (log_expired early) (log_expired late) db.logs
            (λ (r : LogRow). grows r.time) i;
      metric_points =
          survivors-survivors (point_expired early) (point_expired late) db.metric_points
            (λ (r : MetricRow). grows r.time) i;
    }

-- A tick keeps what the last tick is to keep.
tick_keeps :
    (rounds now later retention : ℕ) (c : Connection)
    → now ≤ later
    → after_sweep (cutoff_at later retention) (sweep_expired rounds now retention c).1.database
      ≡ after_sweep (cutoff_at later retention) c.database
tick_keeps rounds now later retention c h =
    sym (after_sweep_later now later retention (sweep_expired rounds now retention c).1.database h)
    ∙ ap (after_sweep (cutoff_at later retention)) (sweep_keeps_fresh rounds now retention c)
    ∙ after_sweep_later now later retention c.database h

last_tick :
    (rounds now retention : ℕ) (db : Database) (faults : List (Option Error))
    → length faults ≤ 0
    → length db.spans < rounds * batch_rows
    → length db.logs < rounds * batch_rows
    → length db.metric_points < rounds * batch_rows
    → (sweep_expired rounds now retention (record { database = db; faults = faults })).1
      ≡ calm (after_sweep (cutoff_at now retention) db)
last_tick rounds now retention db (f ∷ faults) h p q r = absurd (omega arith)
last_tick rounds now retention db [] h p q r =
    let cutoff = cutoff_at now retention in
    ap (λ x. x.1)
      (sweep_expired_complete rounds now retention db
        (omega (arith, length-select-le (span_expired cutoff) db.spans))
        (omega (arith, length-select-le (log_expired cutoff) db.logs))
        (omega (arith, length-select-le (point_expired cutoff) db.metric_points)))

-- Ticks of which none is later than the last, at least as many before the last as there are answers that may be failures, and rounds enough for
-- the size of each table: whichever requests fail, the retention loop ends with exactly the rows that are not older than the last
-- cutoff.
pub run_retention_catches_up :
    (rounds retention last : ℕ) (ticks : List ℕ) (c : Connection)
    → All (λ t. t ≤ last) ticks
    → length c.faults ≤ length ticks
    → length c.database.spans < rounds * batch_rows
    → length c.database.logs < rounds * batch_rows
    → length c.database.metric_points < rounds * batch_rows
    → run_retention rounds retention (ticks ++ last ∷ []) c
      ≡ calm (after_sweep (cutoff_at last retention) c.database)
unfolding run_retention
run_retention_catches_up rounds retention last [] c early few p q r =
    last_tick rounds last retention c.database c.faults few p q r
run_retention_catches_up zero retention last (t ∷ ticks) c early few p q r = absurd (omega arith)
run_retention_catches_up (suc rounds) retention last (t ∷ ticks) c early few p q r =
    let c' = (sweep_expired (suc rounds) t retention c).1 in
    let smaller = sweep-Shrinks (suc rounds) t retention c in
    let answered = sweep-Answered rounds t retention c in
    run_retention_catches_up (suc rounds) retention last ticks c' early.1 (omega arith)
      (omega arith) (omega arith) (omega arith)
    ∙ ap calm (tick_keeps (suc rounds) t last retention c early.0)
