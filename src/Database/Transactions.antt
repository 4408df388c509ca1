-- ===== src/Database/Transactions.antt =====
-- Rules for actions on the database: which keep it as it was, and which do when they fail.
use otelview_postgres.Common.{
  ◌≡◌, refl, ◌∙◌, Option, none, some, List, [], ◌∷◌, Result, ok, err, Error, Str,
}
use otelview_postgres.Schema.{Database}
use otelview_postgres.Database.{
  Connection, Db, ◌>>=◌, pure, lift, continue, request, begin, execute, commit, with_context,
  relabel,
}

-- `m` leaves the database as it was, whatever its result.
pub record Reads {ℓ} {A : Type ℓ} (m : Db A) : Type ℓ where
  pub at : (c : Connection) → (m c).1.database ≡ c.database

-- `m` leaves the database as it was if it fails.
pub record IsAtomic {ℓ} {A : Type ℓ} (m : Db A) : Type ℓ where
  pub at : (c : Connection) (e : Error) → (m c).0 ≡ err e → (m c).1.database ≡ c.database

module _ {ℓ} {A : Type ℓ} where
  pub Reads-pure : (a : A) → Reads (pure a)
  unfolding pure
  Reads-pure a = record { at = λ c. refl }

  pub Reads-lift : (r : Result A) → Reads (lift r)
  unfolding lift
  Reads-lift r = record { at = λ c. refl }

  answer_keeps :
      (f : Database → Result A) (db : Database) (fs : List (Option Error))
      → (request f (record { database = db; faults = fs })).1.database ≡ db
  unfolding request
  answer_keeps f db [] = refl
  answer_keeps f db (none ∷ fs) = refl
  answer_keeps f db (some e ∷ fs) = refl

  pub Reads-request : (f : Database → Result A) → Reads (request f)
  Reads-request f = record { at = λ c. answer_keeps f c.database c.faults }

  pub Reads-IsAtomic : (m : Db A) → Reads m → IsAtomic m
  Reads-IsAtomic m h = record { at = λ c e p. h.at c }

pub Reads-begin : Reads begin
unfolding begin
Reads-begin = Reads-request (λ db. ok db)

pub Reads-execute : (tx : Database) (s : Database → Result Database) → Reads (execute tx s)
unfolding execute
Reads-execute tx s = Reads-request (λ _. s tx)

settle_fails :
    (tx db : Database) (fs : List (Option Error)) (e : Error)
    → (commit tx (record { database = db; faults = fs })).0 ≡ err e
    → (commit tx (record { database = db; faults = fs })).1.database ≡ db
unfolding commit
settle_fails tx db [] e h = absurd (cc)
settle_fails tx db (none ∷ fs) e h = absurd (cc)
settle_fails tx db (some f ∷ fs) e h = refl

pub IsAtomic-commit : (tx : Database) → IsAtomic (commit tx)
IsAtomic-commit tx = record { at = λ c e h. settle_fails tx c.database c.faults e h }

module _ {ℓ κ} {A : Type ℓ} {B : Type κ} where
  bind_keeps :
      (f : A → Db B) (x : Result A × Connection) (db : Database)
      → x.1.database ≡ db
      → ((a : A) → Reads (f a))
      → (continue x f).1.database ≡ db
  bind_keeps f (ok a, c) db h k = (k a).at c ∙ h
  bind_keeps f (err e, c) db h k = h

  pub Reads-bind : (m : Db A) (f : A → Db B) → Reads m → ((a : A) → Reads (f a)) → Reads (m >>= f)
  unfolding ◌>>=◌
  Reads-bind m f h k = record { at = λ c. bind_keeps f (m c) c.database (h.at c) k }

  bind_atomic :
      (f : A → Db B) (x : Result A × Connection) (db : Database) (e : Error)
      → x.1.database ≡ db
      → ((a : A) → IsAtomic (f a))
      → (continue x f).0 ≡ err e
      → (continue x f).1.database ≡ db
  bind_atomic f (ok a, c) db e h k p = (k a).at c e p ∙ h
  bind_atomic f (err e', c) db e h k p = h

  -- What only reads may go before.
  pub IsAtomic-bind :
      (m : Db A) (f : A → Db B) → Reads m → ((a : A) → IsAtomic (f a)) → IsAtomic (m >>= f)
  unfolding ◌>>=◌
  IsAtomic-bind m f h k = record { at = λ c e p. bind_atomic f (m c) c.database e (h.at c) k p }

  last_atomic :
      (g : A → B) (x : Result A × Connection) (db : Database) (e : Error)
      → ((e' : Error) → x.0 ≡ err e' → x.1.database ≡ db)
      → (continue x (λ a. pure (g a))).0 ≡ err e
      → (continue x (λ a. pure (g a))).1.database ≡ db
  unfolding pure
  last_atomic g (ok a, c) db e h p = absurd (cc)
  last_atomic g (err e', c) db e h p = h e' refl

  -- After an atomic action nothing may fail.
  pub IsAtomic-then_pure : (m : Db A) (g : A → B) → IsAtomic m → IsAtomic (m >>= λ a. pure (g a))
  unfolding ◌>>=◌
  IsAtomic-then_pure m g h = record { at = λ c e p. last_atomic g (m c) c.database e (h.at c) p }

module _ {ℓ} {A : Type ℓ} where
  relabel_keeps :
      (message : Str) (x : Result A × Connection) (db : Database)
      → x.1.database ≡ db
      → (relabel message x).1.database ≡ db
  relabel_keeps message (ok a, c) db h = h
  relabel_keeps message (err e, c) db h = h

  pub Reads-with_context : (message : Str) (m : Db A) → Reads m → Reads (with_context message m)
  unfolding with_context
  Reads-with_context message m h = record {
    at = λ c. relabel_keeps message (m c) c.database (h.at c);
  }

pub ruleset reading_rules = (
  Reads-pure, Reads-lift, Reads-begin, Reads-execute, Reads-request, Reads-bind, Reads-with_context,
)

pub ruleset atomic_rules = (
  Reads-pure, Reads-lift, Reads-begin, Reads-execute, Reads-request, Reads-bind, Reads-IsAtomic,
  IsAtomic-commit, IsAtomic-bind, IsAtomic-then_pure,
)
