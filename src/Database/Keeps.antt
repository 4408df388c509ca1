-- ===== src/Database/Keeps.antt =====
-- What a sequence of requests keeps, whichever of them fail, and what its result satisfies: rules to follow the code step by step.
use otelview_postgres.Common.{
  ◌≡◌, refl, sym, subst, Option, none, some, List, [], ◌∷◌, Result, ok, err, Error, ok-injective,
}
use otelview_postgres.Schema.{Database}
use otelview_postgres.Database.{
  Connection, Db, ◌>>=◌, pure, lift, continue, request, begin, execute, commit,
}
use otelview_postgres.Database.Transactions.{Reads}

abbrev pub Anything : {A : Type 0} → A → Type 0
Anything a = Unit

module _ (P : Database → Type 0) where
  -- From a database with `P` the action leaves one with `P`, and a result that it gives has `Q`.
  pub record Keeps {A : Type 0} (Q : A → Type 0) (m : Db A) : Type 0 where
    pub at : (c : Connection) → P c.database → P (m c).1.database
    pub gives : (c : Connection) (a : A) → P c.database → (m c).0 ≡ ok a → Q a

  module _ {A : Type 0} (Q : A → Type 0) where
    pub Keeps-pure : (a : A) → Q a → Keeps Q (pure a)
    unfolding pure
    Keeps-pure a q = record { at = λ c h. h; gives = λ c b h e. subst Q (ok-injective e) q }

    pub Keeps-lift : (r : Result A) → ((a : A) → r ≡ ok a → Q a) → Keeps Q (lift r)
    unfolding lift
    Keeps-lift r k = record { at = λ c h. h; gives = λ c a h e. k a e }

    answer_at :
        (f : Database → Result A) (db : Database) (fs : List (Option Error))
        → P db
        → P (request f (record { database = db; faults = fs })).1.database
    unfolding request
    answer_at f db [] h = h
    answer_at f db (none ∷ fs) h = h
    answer_at f db (some e ∷ fs) h = h

    answer_gives :
        (f : Database → Result A) (db : Database) (fs : List (Option Error)) (a : A)
        → (request f (record { database = db; faults = fs })).0 ≡ ok a
        → f db ≡ ok a
    unfolding request
    answer_gives f db [] a e = e
    answer_gives f db (none ∷ fs) a e = e
    answer_gives f db (some x ∷ fs) a e = absurd (cc)

    pub Keeps-request :
        (f : Database → Result A)
        → ((db : Database) (a : A) → P db → f db ≡ ok a → Q a)
        → Keeps Q (request f)
    Keeps-request f k = record {
      at = λ c h. answer_at f c.database c.faults h;
      gives = λ c a h e. k c.database a h (answer_gives f c.database c.faults a e);
    }

  pub Keeps-begin : Keeps P begin
  unfolding begin
  Keeps-begin = Keeps-request P (λ db. ok db) (λ db a h e. subst P (ok-injective e) h)

  pub Keeps-execute :
      (tx : Database) (statement : Database → Result Database)
      → ((tx' : Database) → statement tx ≡ ok tx' → P tx')
      → Keeps P (execute tx statement)
  unfolding execute
  Keeps-execute tx statement k = Keeps-request P (λ _. statement tx) (λ db a h e. k a e)

  settle_at :
      (tx db : Database) (fs : List (Option Error))
      → P tx
      → P db
      → P (commit tx (record { database = db; faults = fs })).1.database
  unfolding commit
  settle_at tx db [] t h = t
  settle_at tx db (none ∷ fs) t h = t
  settle_at tx db (some e ∷ fs) t h = h

  pub Keeps-commit : (tx : Database) → P tx → Keeps Anything (commit tx)
  Keeps-commit tx t = record {
    at = λ c h. settle_at tx c.database c.faults t h;
    gives = λ c a h e. tt;
  }

  -- An action that only reads keeps everything.
  pub Keeps-Reads : {A : Type 0} (m : Db A) → Reads m → Keeps Anything m
  Keeps-Reads m r = record { at = λ c h. subst P (sym (r.at c)) h; gives = λ c a h e. tt }

  module _ {A B : Type 0} (Q : A → Type 0) (S : B → Type 0) where
    continue_at :
        (f : A → Db B) (x : Result A × Connection)
        → P x.1.database
        → ((a : A) → x.0 ≡ ok a → Q a)
        → ((a : A) → Q a → Keeps S (f a))
        → P (continue x f).1.database
    continue_at f (ok a, c) h q k = (k a (q a refl)).at c h
    continue_at f (err e, c) h q k = h

    continue_gives :
        (f : A → Db B) (x : Result A × Connection) (b : B)
        → P x.1.database
        → ((a : A) → x.0 ≡ ok a → Q a)
        → ((a : A) → Q a → Keeps S (f a))
        → (continue x f).0 ≡ ok b
        → S b
    continue_gives f (ok a, c) b h q k e = (k a (q a refl)).gives c b h e
    continue_gives f (err x, c) b h q k e = absurd (cc)

    pub Keeps-bind :
        (m : Db A) (f : A → Db B) → Keeps Q m → ((a : A) → Q a → Keeps S (f a)) → Keeps S (m >>= f)
    unfolding ◌>>=◌
    Keeps-bind m f h k = record {
      at = λ c p. continue_at f (m c) (h.at c p) (λ a e. h.gives c a p e) k;
      gives = λ c b p e. continue_gives f (m c) b (h.at c p) (λ a e'. h.gives c a p e') k e;
    }
