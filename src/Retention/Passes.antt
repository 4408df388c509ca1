-- ===== src/Retention/Passes.antt =====
-- What a sweep does to the connection, step by step: a relation that every DELETE respects is respected by a sweep.
use otelview_postgres.Common.{
  ℕ, zero, suc, ◌+◌, Bool, true, false, none, ltb, if◌then◌else◌, Result, ok, err, Str,
}
use otelview_postgres.Common.Int.{ℤ}
use otelview_postgres.Database.{
  Connection, Db, ◌>>=◌, pure, autocommit, with_context, continue, relabel,
}
use otelview_postgres.Retention.{
  Table, spans, logs, metric_points, batch_rows, cutoff_at, delete_statement, sweep_table,
  sweep_expired,
}

-- `m` takes a connection to one that `R` relates it to.
pub record Moves {ℓ} {A : Type ℓ} (R : Connection → Connection → Type 0) (m : Db A) : Type ℓ where
  pub at : (c : Connection) → R c (m c).1

module _ (R S : Connection → Connection → Type 0)
    (after : (a b c : Connection) → S a b → R b c → S a c) where
  continue_moves {ℓ κ} :
      {A : Type ℓ} {B : Type κ} (f : A → Db B) (x : Result A × Connection) (c : Connection)
      → S c x.1
      → ((a : A) → Moves R (f a))
      → S c (continue x f).1
  continue_moves f (ok a, d) c h k = after c d (f a d).1 h ((k a).at d)
  continue_moves f (err e, d) c h k = h

  -- What the first step achieves, and the others keep.
  pub Moves-bind {ℓ κ} :
      {A : Type ℓ} {B : Type κ} (m : Db A) (f : A → Db B)
      → Moves S m
      → ((a : A) → Moves R (f a))
      → Moves S (m >>= f)
  unfolding ◌>>=◌
  Moves-bind m f h k = record { at = λ c. continue_moves f (m c) c (h.at c) k }

module _ (R : Connection → Connection → Type 0) where
  relabel_moves {ℓ} :
      {A : Type ℓ} (message : Str) (x : Result A × Connection) (c : Connection)
      → R c x.1
      → R c (relabel message x).1
  relabel_moves message (ok a, d) c h = h
  relabel_moves message (err e, d) c h = h

  Moves-with_context {ℓ} :
      {A : Type ℓ} (message : Str) (m : Db A) → Moves R m → Moves R (with_context message m)
  unfolding with_context
  Moves-with_context message m h = record { at = λ c. relabel_moves message (m c) c (h.at c) }

  Moves-if {ℓ} :
      {A : Type ℓ} (b : Bool) (m n : Db A) → Moves R m → Moves R n → Moves R (if b then m else n)
  Moves-if true m n h k = h
  Moves-if false m n h k = k

module _ (R : Connection → Connection → Type 0) (same : (c : Connection) → R c c)
    (after : (a b c : Connection) → R a b → R b c → R a c) (cutoff : ℤ)
    (deletes : (table : Table) → Moves R (autocommit (delete_statement table cutoff))) where
  Moves-pure {ℓ} : {A : Type ℓ} (a : A) → Moves R (pure a)
  unfolding pure
  Moves-pure a = record { at = same }

  pub sweep_table-Moves :
      (rounds : ℕ) (table : Table) (out : ℕ) → Moves R (sweep_table rounds table cutoff out)
  unfolding sweep_table
  sweep_table-Moves zero table out = Moves-pure none
  sweep_table-Moves (suc rounds) table out =
      Moves-bind R R after _ _ (Moves-with_context R _ _ (deletes table)) λ deleted.
        Moves-if R (ltb deleted batch_rows) _ _ (Moves-pure _)
          (sweep_table-Moves rounds table (out + deleted))

  -- The first DELETE may do more than the others.
  module _ (S : Connection → Connection → Type 0)
      (then_after : (a b c : Connection) → S a b → R b c → S a c)
      (first : (table : Table) → Moves S (autocommit (delete_statement table cutoff))) where
    pub sweep_table_first :
        (rounds : ℕ) (table : Table) (out : ℕ) → Moves S (sweep_table (suc rounds) table cutoff out)
    unfolding sweep_table
    sweep_table_first rounds table out =
        Moves-bind R S then_after _ _ (Moves-with_context S _ _ (first table)) λ deleted.
          Moves-if R (ltb deleted batch_rows) _ _ (Moves-pure _)
            (sweep_table-Moves rounds table (out + deleted))

module _ (R : Connection → Connection → Type 0) (same : (c : Connection) → R c c)
    (after : (a b c : Connection) → R a b → R b c → R a c) (now retention : ℕ)
    (deletes : (table : Table)
      → Moves R (autocommit (delete_statement table (cutoff_at now retention)))) where
  pub sweep_expired-Moves : (rounds : ℕ) → Moves R (sweep_expired rounds now retention)
  unfolding sweep_expired
  sweep_expired-Moves rounds =
      let cutoff = cutoff_at now retention in
      let sweeps = sweep_table-Moves R same after cutoff deletes rounds in
      Moves-bind R R after _ _ (sweeps spans 0) λ a. Moves-bind R R after _ _ (sweeps logs 0) λ b.
        Moves-bind R R after _ _ (sweeps metric_points 0)
          λ n. Moves-pure R same after cutoff deletes _

  module _ (S : Connection → Connection → Type 0)
      (then_after : (a b c : Connection) → S a b → R b c → S a c)
      (first : (table : Table)
        → Moves S (autocommit (delete_statement table (cutoff_at now retention)))) where
    pub sweep_expired_first : (rounds : ℕ) → Moves S (sweep_expired (suc rounds) now retention)
    unfolding sweep_expired
    sweep_expired_first rounds =
        let cutoff = cutoff_at now retention in
        let sweeps = sweep_table-Moves R same after cutoff deletes (suc rounds) in
        Moves-bind R S then_after _ _
          (sweep_table_first R same after cutoff deletes S then_after first rounds spans 0)
          λ a. Moves-bind R R after _ _ (sweeps logs 0) λ b.
            Moves-bind R R after _ _ (sweeps metric_points 0)
              λ n. Moves-pure R same after cutoff deletes _
