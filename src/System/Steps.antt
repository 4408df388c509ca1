-- ===== src/System/Steps.antt =====
-- The states of the service: requests in any order, each on its own connection, and the DELETEs of retention between them.
use otelview_postgres.Common.{ℕ, ◌≡◌, true, Option, List, ok, Error, subst, sym}
use otelview_postgres.Common.Int.{ℤ, leb_ℤ}
use otelview_postgres.Schema.{Database, SpanRow, LogRow, MetricRow}
use otelview_postgres.Database.{Connection, autocommit}
use otelview_postgres.Retention.{Table, cutoff_at, delete_statement, sweep_expired}
use otelview_postgres.Retention.Passes.{Moves, sweep_expired-Moves}
use otelview_postgres.Retention.Safety.{applied_statement}
use otelview_postgres.System.{Environment, Request, answer}
use otelview_postgres.System.Exports.{InsertsKeep, answer_at}

-- One step of the service. A request is answered on a connection on which any of its requests to the database may fail. A DELETE of
-- retention is a step of its own, since each commits by itself; `bound` is the latest of the cutoffs so far.
pub data Step (bound : ℤ) (db db' : Database) : Type 0 where
  serves :
      (env : Environment) (request : Request) (faults : List (Option Error))
      → db' ≡ (answer env request (record { database = db; faults = faults })).1.database
      → Step bound db db'
  deletes :
      (table : Table) (cutoff : ℤ) (n : ℕ)
      → leb_ℤ cutoff bound ≡ true
      → delete_statement table cutoff db ≡ ok (n, db')
      → Step bound db db'

-- Any number of steps.
pub data Reach (bound : ℤ) (db : Database) : Database → Type 0 where
  here : Reach bound db db
  next : {mid db' : Database} → Reach bound db mid → Step bound mid db' → Reach bound db db'

pub Reach-then :
    (bound : ℤ) (a : Database) {b c : Database}
    → Reach bound a b
    → Reach bound b c
    → Reach bound a c
Reach-then bound a r here = r
Reach-then bound a r (next s step) = next (Reach-then bound a r s) step

Reaches : ℤ → Connection → Connection → Type 0
Reaches bound c d = Reach bound c.database d.database

module _ (bound : ℤ) (now retention : ℕ)
    (below : leb_ℤ (cutoff_at now retention) bound ≡ true) where
  Moves-delete_step :
      (table : Table)
      → Moves (Reaches bound) (autocommit (delete_statement table (cutoff_at now retention)))
  unfolding autocommit Reaches
  Moves-delete_step table = record {
    at = λ c.
        applied_statement (Reach bound c.database) c.faults
          (delete_statement table (cutoff_at now retention) c.database) c.database here
          (λ n db' e. next here (deletes table (cutoff_at now retention) n below e));
  }

-- A sweep of retention whose cutoff is at most the bound, whichever of its requests fail, is a sequence of such steps.
pub sweep-Reach :
    (bound : ℤ) (rounds now retention : ℕ) (c : Connection)
    → leb_ℤ (cutoff_at now retention) bound ≡ true
    → Reach bound c.database (sweep_expired rounds now retention c).1.database
unfolding Reaches
sweep-Reach bound rounds now retention c below =
    (sweep_expired-Moves (Reaches bound) (λ c. here) (λ a b c h k. Reach-then bound a.database h k)
        now retention (Moves-delete_step bound now retention below) rounds).at
      c

module _ (P : Database → Type 0) (S : SpanRow → Type 0) (L : LogRow → Type 0)
    (M : MetricRow → Type 0) (keeps : InsertsKeep P S L M) (bound : ℤ)
    (deleted : (table : Table) (cutoff : ℤ) (n : ℕ) (db db' : Database)
      → leb_ℤ cutoff bound ≡ true
      → delete_statement table cutoff db ≡ ok (n, db')
      → P db
      → P db') where
  Step-keeps : (db db' : Database) → Step bound db db' → P db → P db'
  Step-keeps db db' (serves env request faults e) p =
      subst P (sym e)
        (answer_at P S L M keeps env request (record { database = db; faults = faults }) p)
  Step-keeps db db' (deletes table cutoff n b e) p = deleted table cutoff n db db' b e p

  -- What every INSERT and DELETE keeps holds in every state.
  pub Reach-keeps : (db : Database) {db' : Database} → Reach bound db db' → P db → P db'
  Reach-keeps db here p = p
  Reach-keeps db (next {mid} {db'} r step) p = Step-keeps mid db' step (Reach-keeps db r p)
