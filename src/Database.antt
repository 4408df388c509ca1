-- ===== src/Database.antt =====
-- A connection to PostgreSQL as the program uses it through sqlx: statements and transactions that
-- each either do their work or are answered by an error. The answers are an argument of the model: `faults`
-- says of each coming request whether it fails, and after its end none does. A transaction works on
-- a copy that `commit` makes the database; one that is dropped has changed nothing. Other clients are not
-- modelled: between two requests of one operation nobody else writes.
pub mod Transactions
pub mod Keeps
use otelview_postgres.Common.{
  ◌≡◌, refl, Option, none, some, List, [], ◌∷◌, Result, ok, err, Error, anyhow, Str,
}
use otelview_postgres.Schema.{Database}

pub record Connection : Type 0 where
  pub database : Database
  pub faults : List (Option Error)

-- A connection on which no request fails.
abbrev pub calm : Database → Connection
calm db = record { database = db; faults = [] }

-- An operation ends in a result, and leaves the connection behind also when it fails.
abbrev pub Db {ℓ} : Type ℓ → Type ℓ
Db A = Connection → Result A × Connection

module _ {ℓ κ} {A : Type ℓ} {B : Type κ} where
  abbrev pub continue : Result A × Connection → (A → Db B) → Result B × Connection
  continue (ok a, c) f = f a c
  continue (err e, c) f = (err e, c)

  infixl 5 ◌>>=◌
  unfoldable pub ◌>>=◌ : Db A → (A → Db B) → Db B
  ◌>>=◌ m f c = continue (m c) f

module _ {ℓ} {A : Type ℓ} where
  unfoldable pub pure : A → Db A
  pure a c = (ok a, c)

  unfoldable pub lift : Result A → Db A
  lift r c = (r, c)

  abbrev answer : List (Option Error) → Result A → Database → Result A × Connection
  answer [] r db = (r, record { database = db; faults = [] })
  answer (none ∷ fs) r db = (r, record { database = db; faults = fs })
  answer (some e ∷ fs) r db = (err e, record { database = db; faults = fs })

  -- A request that reads, and what it finds.
  unfoldable pub request : (Database → Result A) → Db A
  request f c = answer c.faults (f c.database) c.database

  -- `.context(message)`: the message hides that of the cause.
  abbrev pub relabel : Str → Result A × Connection → Result A × Connection
  relabel message (ok a, c) = (ok a, c)
  relabel message (err e, c) = (err (anyhow message), c)

  unfoldable pub with_context : Str → Db A → Db A
  with_context message m c = relabel message (m c)

-- `pool.begin()`
unfoldable pub begin : Db Database
unfolding request
begin = request (λ db. ok db)

-- A statement of an open transaction, which works on the copy that it is given.
unfoldable pub execute : Database → (Database → Result Database) → Db Database
unfolding request
execute tx statement = request (λ _. statement tx)

abbrev settle : List (Option Error) → Database → Database → Result (Unit {0}) × Connection
settle [] old tx = (ok tt, record { database = tx; faults = [] })
settle (none ∷ fs) old tx = (ok tt, record { database = tx; faults = fs })
settle (some e ∷ fs) old tx = (err e, record { database = old; faults = fs })

-- `tx.commit()`
unfoldable pub commit : Database → Db (Unit {0})
commit tx c = settle c.faults c.database tx

abbrev pub apply_statement {ℓ} :
    {A : Type ℓ} → List (Option Error) → Result (A × Database) → Database → Result A × Connection
apply_statement [] (ok (a, db')) db = (ok a, record { database = db'; faults = [] })
apply_statement [] (err e) db = (err e, record { database = db; faults = [] })
apply_statement (none ∷ fs) (ok (a, db')) db = (ok a, record { database = db'; faults = fs })
apply_statement (none ∷ fs) (err e) db = (err e, record { database = db; faults = fs })
apply_statement (some e ∷ fs) r db = (err e, record { database = db; faults = fs })

-- A statement on the pool itself, which is a transaction of its own.
unfoldable pub autocommit {ℓ} : {A : Type ℓ} → (Database → Result (A × Database)) → Db A
autocommit statement c = apply_statement c.faults (statement c.database) c.database
