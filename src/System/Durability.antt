-- ===== src/System/Durability.antt =====
-- What the service never loses.
use otelview_postgres.Common.{
  ℕ, select-append, ◌≡◌, refl, sym, ◌∙◌, ap, subst, true, false, not, List, [], ◌++◌, append-nil,
  append_assoc, select, ok, arith, ok-injective, >>=-eq-ok,
}
use otelview_postgres.Common.Int.{ℤ, leb_ℤ, ltb_ℤ}
use otelview_postgres.Schema.{LogRow, MetricRow, Database}
use otelview_postgres.Spans as Spans
use otelview_postgres.Logs as Logs
use otelview_postgres.Metrics as Metrics
use otelview_postgres.Retention.{
  Table, spans, logs, metric_points, batch_rows, log_expired, point_expired, delete_statement,
}
use otelview_postgres.Retention.Remaining.{select-delete_up_to}
use otelview_postgres.System.Exports.{InsertsKeep}
use otelview_postgres.System.Steps.{Reach, Reach-keeps}

-- The records and the data points that are not older than a bound.
abbrev pub fresh_logs : ℤ → Database → List LogRow
fresh_logs bound db = select (λ row. not (log_expired bound row)) db.logs

abbrev pub fresh_points : ℤ → Database → List MetricRow
fresh_points bound db = select (λ row. not (point_expired bound row)) db.metric_points

-- Fresh rows have only been added, at the end.
pub record Grows (bound : ℤ) (before after : Database) : Type 0 where
  pub logs_added : List LogRow
  pub points_added : List MetricRow
  pub logs_grow : fresh_logs bound after ≡ fresh_logs bound before ++ logs_added
  pub points_grow : fresh_points bound after ≡ fresh_points bound before ++ points_added

-- What is older than a cutoff is older than any later bound.
ltb_ℤ-leb_ℤ : (a b c : ℤ) → ltb_ℤ a b ≡ true → leb_ℤ b c ≡ true → not (ltb_ℤ a c) ≡ false
ltb_ℤ-leb_ℤ a b c h k = ground (arith, h, k)

module _ (bound : ℤ) (start : Database) where
  Grows-logs :
      (db db' : Database) (more : List LogRow)
      → fresh_logs bound db' ≡ fresh_logs bound db ++ more
      → fresh_points bound db' ≡ fresh_points bound db
      → Grows bound start db
      → Grows bound start db'
  Grows-logs db db' more e same g = record {
    logs_added = g.logs_added ++ more;
    points_added = g.points_added;
    logs_grow = e ∙ ap (λ l. l ++ more) g.logs_grow ∙ append_assoc _ g.logs_added more;
    points_grow = same ∙ g.points_grow;
  }

  Grows-points :
      (db db' : Database) (more : List MetricRow)
      → fresh_points bound db' ≡ fresh_points bound db ++ more
      → fresh_logs bound db' ≡ fresh_logs bound db
      → Grows bound start db
      → Grows bound start db'
  Grows-points db db' more e same g = record {
    logs_added = g.logs_added;
    points_added = g.points_added ++ more;
    logs_grow = same ∙ g.logs_grow;
    points_grow = e ∙ ap (λ l. l ++ more) g.points_grow ∙ append_assoc _ g.points_added more;
  }

  -- A change that no fresh row shows.
  Grows-same :
      (db db' : Database)
      → fresh_logs bound db' ≡ fresh_logs bound db
      → fresh_points bound db' ≡ fresh_points bound db
      → Grows bound start db
      → Grows bound start db'
  Grows-same db db' e same g = record {
    logs_added = g.logs_added;
    points_added = g.points_added;
    logs_grow = e ∙ g.logs_grow;
    points_grow = same ∙ g.points_grow;
  }

  Grows-inserts : InsertsKeep (Grows bound start) (λ _. Unit {0}) (λ _. Unit {0}) (λ _. Unit {0})
  unfolding Spans.insert_statement Logs.insert_statement Metrics.insert_statement
  Grows-inserts = record {
    span_made = λ codec r s span service ra sa row e. tt;
    log_made = λ codec json_text r s log service ra row e. tt;
    point_made = λ codec to_double r s point service ra row e. tt;
    spans_inserted = λ rows db db' h e g.
        let (table, inserted, rest) = >>=-eq-ok (Spans.insert_rows [] rows db.spans) _ e in
        subst (Grows bound start) (ok-injective rest) (Grows-same db _ refl refl g);
    logs_inserted = λ rows db db' h e g.
        subst (Grows bound start) (ok-injective e)
          (Grows-logs db _ _ (select-append _ db.logs rows) refl g);
    points_inserted = λ rows db db' h e g.
        subst (Grows bound start) (ok-injective e)
          (Grows-points db _ _ (select-append _ db.metric_points rows) refl g);
  }

  Grows-delete_statement :
      (table : Table) (cutoff : ℤ) (n : ℕ) (db db' : Database)
      → leb_ℤ cutoff bound ≡ true
      → delete_statement table cutoff db ≡ ok (n, db')
      → Grows bound start db
      → Grows bound start db'
  unfolding delete_statement
  Grows-delete_statement spans cutoff n db db' b e g =
      subst (Grows bound start) (ap (λ r. r.1) (ok-injective e)) (Grows-same db _ refl refl g)
  Grows-delete_statement logs cutoff n db db' b e g =
      subst (Grows bound start) (ap (λ r. r.1) (ok-injective e)) (
        Grows-same db _
          (select-delete_up_to (log_expired cutoff) _
            (λ row h. ltb_ℤ-leb_ℤ row.time cutoff bound h b) batch_rows db.logs)
          refl g)
  Grows-delete_statement metric_points cutoff n db db' b e g =
      subst (Grows bound start) (ap (λ r. r.1) (ok-injective e)) (
        Grows-same db _ refl
          (select-delete_up_to (point_expired cutoff) _
            (λ row h. ltb_ℤ-leb_ℤ row.time cutoff bound h b) batch_rows db.metric_points)
          g)

-- In every state that the service reaches while no cutoff of retention passes a bound, the log records and the data points that are not older than the bound are those of the first state, in
-- their order, and then others: none is lost or moved, whatever requests are answered and whichever of their requests to the database fail.
pub Reach-Grows : (bound : ℤ) (db db' : Database) → Reach bound db db' → Grows bound db db'
Reach-Grows bound db db' r =
    Reach-keeps (Grows bound db) (λ _. Unit {0}) (λ _. Unit {0}) (λ _. Unit {0})
      (Grows-inserts bound db) bound (Grows-delete_statement bound db) db r
      (record {
        logs_added = [];
        points_added = [];
        logs_grow = sym (append-nil (fresh_logs bound db));
        points_grow = sym (append-nil (fresh_points bound db));
      })
