-- ===== src/Retention/Sweep.antt =====
-- The sweep deletes what has expired, all of it and nothing else.
use otelview_postgres.Common.{
  ℕ, zero, suc, ◌+◌, ◌*◌, ◌<◌, ◌≡◌, refl, ap, ◌∙◌, Bool, not, Option, some, List, [], ◌∷◌, length,
  select, ltb, if◌then◌else◌, Result, ok, arith, Bool-cases, inl, inr, min, ltb→lt,
}
use otelview_postgres.Common.Int.{ℤ}
use otelview_postgres.Schema.{Database, SpanRow, LogRow, MetricRow}
use otelview_postgres.Database.{Connection, calm, ◌>>=◌, pure, autocommit, with_context}
use otelview_postgres.Retention.{
  Table, spans, logs, metric_points, batch_rows, cutoff_at, delete_up_to, span_expired, log_expired,
  point_expired, delete_statement, sweep_table, sweep_expired,
}

module _ {R : Type 0} (expired : R → Bool) where
  -- The rows that a sweep is to keep, and the number of the others.
  abbrev pub survivors : List R → List R
  survivors = select (λ r. not (expired r))

  abbrev pub overdue : List R → ℕ
  overdue rows = length (select expired rows)

  -- One statement keeps every row that has not expired, and takes a full batch of the others, or all of them.
  pub delete_up_to_lem :
      (n : ℕ) (rows : List R)
      → (survivors (delete_up_to expired n rows).1 ≡ survivors rows)
        × ((delete_up_to expired n rows).0 ≡ min n (overdue rows))
        × ((delete_up_to expired n rows).0 + overdue (delete_up_to expired n rows).1 ≡ overdue rows)
  unfolding delete_up_to
  delete_up_to_lem n [] = (refl, omega arith, omega arith)
  delete_up_to_lem zero (row ∷ rows) = (refl, omega arith, omega arith)
  delete_up_to_lem (suc n) (row ∷ rows) =
      ground (arith, delete_up_to_lem n rows, delete_up_to_lem (suc n) rows)

  nothing_overdue : (rows : List R) → overdue rows ≡ 0 → rows ≡ survivors rows
  nothing_overdue [] h = refl
  nothing_overdue (row ∷ rows) h = ground (arith, nothing_overdue rows)

-- One of the three tables: what a sweep of it sees and changes.
record Target (R : Type 0) (table : Table) (cutoff : ℤ) (expired : R → Bool) : Type 0 where
  view : Database → List R
  put : Database → List R → Database
  runs :
      (db : Database)
      → delete_statement table cutoff db
        ≡ ok (
          (delete_up_to expired batch_rows (view db)).0,
          put db (delete_up_to expired batch_rows (view db)).1,
        )
  view-put : (db : Database) (rows : List R) → view (put db rows) ≡ rows
  put-put : (db : Database) (a b : List R) → put (put db a) b ≡ put db b

module _ {R : Type 0} (table : Table) (cutoff : ℤ) (expired : R → Bool)
    (t : Target R table cutoff expired) where
  sweep_round :
      (rounds out : ℕ) (db : Database)
      → sweep_table (suc rounds) table cutoff out (calm db) ≡ (
          let n = (delete_up_to expired batch_rows (t.view db)).0 in
          let db' = t.put db (delete_up_to expired batch_rows (t.view db)).1 in
          if ltb n batch_rows
          then (ok (some (out + n)), calm db')
          else sweep_table rounds table cutoff (out + n) (calm db'))
  unfolding sweep_table ◌>>=◌ with_context autocommit pure
  sweep_round rounds out db =
      rw (t.runs db)
        (elim (Bool-cases (ltb (delete_up_to expired batch_rows (t.view db)).0 batch_rows)) [
          | inl e ↦ rw e
          | inr e ↦ rw e
        ])

  last_round :
      (out n : ℕ) (db : Database) (left rows : List R)
      → n ≡ overdue expired rows
      → left ≡ survivors expired rows
      → ◌≡◌ {A = Result (Option ℕ) × Connection}
          (ok (some (out + n)), calm (t.put db left))
          (ok (some (out + overdue expired rows)), calm (t.put db (survivors expired rows)))
  last_round out n db left rows p q = cc

  later_round :
      (out n : ℕ) (db : Database) (left rows : List R)
      → n + overdue expired left ≡ overdue expired rows
      → survivors expired left ≡ survivors expired rows
      → ◌≡◌ {A = Result (Option ℕ) × Connection}
          (
            ok (some (out + n + overdue expired (t.view (t.put db left)))),
            calm (t.put (t.put db left) (survivors expired (t.view (t.put db left)))),
          )
          (ok (some (out + overdue expired rows)), calm (t.put db (survivors expired rows)))
  later_round out n db left rows p q =
      rw (t.view-put db left, q, t.put-put db left (survivors expired rows))
        (ap (λ k. (ok (some k), calm (t.put db (survivors expired rows)))) (omega (arith, p)))

  -- With a round for each full batch and one more, a sweep deletes all that is overdue.
  sweep_table-calm :
      (rounds out : ℕ) (db : Database)
      → overdue expired (t.view db) < rounds * batch_rows
      → sweep_table rounds table cutoff out (calm db) ≡ (
        ok (some (out + overdue expired (t.view db))),
        calm (t.put db (survivors expired (t.view db))),
      )
  sweep_table-calm zero out db h = absurd (omega arith)
  sweep_table-calm (suc rounds) out db h =
      let rows = t.view db in
      let left = (delete_up_to expired batch_rows rows).1 in
      let n = (delete_up_to expired batch_rows rows).0 in
      let (keeps, takes, adds) = delete_up_to_lem expired batch_rows rows in
      sweep_round rounds out db ∙ elim (Bool-cases (ltb n batch_rows)) [
        | inl last ↦ rw last (
            last_round out n db left rows (omega (arith, ltb→lt n batch_rows last, takes)) (
              nothing_overdue expired left (omega (arith, ltb→lt n batch_rows last, takes, adds))
              ∙ keeps))
        | inr more ↦ rw more (
            sweep_table-calm rounds (out + n) (t.put db left)
              (rw (t.view-put db left) (ground (arith, takes, adds)))
            ∙ later_round out n db left rows adds keeps)
      ]

span_target : (cutoff : ℤ) → Target SpanRow spans cutoff (span_expired cutoff)
unfolding delete_statement
span_target cutoff = record {
  view = λ db. db.spans;
  put = λ db rows. record db { spans = rows };
  runs = λ db. refl;
  view-put = λ db rows. refl;
  put-put = λ db a b. refl;
}

log_target : (cutoff : ℤ) → Target LogRow logs cutoff (log_expired cutoff)
unfolding delete_statement
log_target cutoff = record {
  view = λ db. db.logs;
  put = λ db rows. record db { logs = rows };
  runs = λ db. refl;
  view-put = λ db rows. refl;
  put-put = λ db a b. refl;
}

point_target : (cutoff : ℤ) → Target MetricRow metric_points cutoff (point_expired cutoff)
unfolding delete_statement
point_target cutoff = record {
  view = λ db. db.metric_points;
  put = λ db rows. record db { metric_points = rows };
  runs = λ db. refl;
  view-put = λ db rows. refl;
  put-put = λ db a b. refl;
}

zero_plus : (n : ℕ) → 0 + n ≡ n
zero_plus n = omega arith

-- The database with the rows of each table that have not expired.
abbrev pub after_sweep : ℤ → Database → Database
after_sweep cutoff db = record {
  spans = survivors (span_expired cutoff) db.spans;
  logs = survivors (log_expired cutoff) db.logs;
  metric_points = survivors (point_expired cutoff) db.metric_points;
}

-- With a round for each full batch of a table and one more, and no failing request, a sweep ends, deletes exactly the rows
-- older than the cutoff from all three tables, and reports how many these were.
pub sweep_expired_complete :
    (rounds now retention : ℕ) (db : Database)
    → overdue (span_expired (cutoff_at now retention)) db.spans < rounds * batch_rows
    → overdue (log_expired (cutoff_at now retention)) db.logs < rounds * batch_rows
    → overdue (point_expired (cutoff_at now retention)) db.metric_points < rounds * batch_rows
    → sweep_expired rounds now retention (calm db) ≡ (
      ok (record {
        from_spans = some (overdue (span_expired (cutoff_at now retention)) db.spans);
        from_logs = some (overdue (log_expired (cutoff_at now retention)) db.logs);
        from_metric_points =
            some (overdue (point_expired (cutoff_at now retention)) db.metric_points);
      }),
      calm (after_sweep (cutoff_at now retention) db),
    )
unfolding sweep_expired ◌>>=◌ pure span_target log_target point_target
sweep_expired_complete rounds now retention db p q r =
    let cutoff = cutoff_at now retention in
    let db1 : Database = record db { spans = survivors (span_expired cutoff) db.spans } in
    let db2 : Database = record db1 { logs = survivors (log_expired cutoff) db.logs } in
    rw (sweep_table-calm spans cutoff (span_expired cutoff) (span_target cutoff) rounds 0 db p) (
      rw (sweep_table-calm logs cutoff (log_expired cutoff) (log_target cutoff) rounds 0 db1 q) (
        rw
          (sweep_table-calm metric_points cutoff (point_expired cutoff) (point_target cutoff) rounds
            0 db2 r)
          (simp zero_plus)))
