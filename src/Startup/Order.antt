-- ===== src/Startup/Order.antt =====
-- In which order the program starts.
use otelview_postgres.Common.{
  ℕ, ◌⊎◌, inl, inr, ◌≡◌, refl, sym, ap, Bool, true, false, ◌||◌, Option, none, some, List, [], ◌∷◌,
  ◌++◌, map, any, Str, is_empty, subst, ok-injective, anyhow, Result, ok, err, Error, arith, text,
}
use otelview_postgres.Retention.Parse.{Parsed, seconds, refused, parse_retention}
use otelview_postgres.Startup.{
  Config, PoolOptions, Store, new, migrations, Event, connected, migrated, sweeping, serving,
  SocketAddr, World, unless, is_blank, Run, then_run, attempt, migrate, primary_pool, reader_pool,
  open_reader, start_retention, start,
}

abbrev pub is_serving : Event → Bool
is_serving (connected _) = false
is_serving (migrated _ _) = false
is_serving (sweeping _ _ _) = false
is_serving (serving _ _) = true

-- The pool of the queries, by the URL that is given for it, and the events of opening it.
abbrev pub OpensReader : Config → Option Str → Option PoolOptions → List Event → Type 0
OpensReader config url none es = (url ≡ none) × (es ≡ [])
OpensReader config url (some pool) es =
    (url ≡ some pool.url) × (pool ≡ reader_pool config pool.url) × (es ≡ connected pool ∷ [])

-- Without a retention nothing is swept; a retention is swept as it and the interval read.
abbrev pub Sweeps : (Str → Str) → Config → PoolOptions → Option Str → List Event → Type 0
Sweeps to_lowercase config pool none es = es ≡ []
Sweeps to_lowercase config pool (some raw) es =
    (retention : ℕ) × (every : ℕ) × (parse_retention to_lowercase raw ≡ seconds retention)
    × (parse_retention to_lowercase config.retention_sweep_interval ≡ seconds every)
    × (es ≡ sweeping pool retention every ∷ [])

-- Everything was made ready, in this order, and then the services were served with this outcome.
abbrev pub Prepared : World → Config → List Event → Result (Unit {0}) → Type 0
Prepared world config events outcome =
    (address : SocketAddr) × (reader : Option PoolOptions) × (opened : List Event) × (swept : List
      Event)
    × (world.parse_address config.listen_addr ≡ ok address)
    × OpensReader config (unless is_empty config.database_read_url) reader opened
    × Sweeps world.to_lowercase config (primary_pool config) (unless is_blank config.retention)
        swept
    × (events
        ≡ connected (primary_pool config)
          ∷ (opened
              ++ (map (migrated (primary_pool config)) migrations
                  ++ (swept
                      ++ serving address (new (primary_pool config) reader config.max_search_depth)
                        ∷ []))))
    × (outcome ≡ world.serve address)

abbrev pub Failed : {A : Type 0} → Run A → Type 0
Failed r = (e : Error) × (r.1 ≡ err e) × (any is_serving r.0 ≡ false)

-- A run that went well, with what it says, or one that did not; none served.
abbrev Went : {A : Type 0} → Run A → (A → List Event → Type 0) → Type 0
Went {A} r P = ((a : A) × (r.1 ≡ ok a) × (any is_serving r.0 ≡ false) × P a r.0) ⊎ Failed r

any-append : (p : Event → Bool) (es fs : List Event) → any p (es ++ fs) ≡ (any p es || any p fs)
any-append p [] fs = refl
any-append p (e ∷ es) fs = ground (arith, any-append p es fs)

err-injective : {A : Type 0} (a b : Error) → ◌≡◌ {A = Result A} (err a) (err b) → a ≡ b
err-injective a b h = cc

module _ {A B : Type 0} (Good : List Event → Result B → Type 0) (P : A → List Event → Type 0) where
  go_on :
      (r : Run A) (next : A → Run B)
      → Went r P
      → ((a : A) (es : List Event) → P a es → Good (es ++ (next a).0) (next a).1 ⊎ Failed (next a))
      → Good (then_run r next).0 (then_run r next).1 ⊎ Failed (then_run r next)
  go_on (es, err x) next (inl (a, q, n, p)) k = absurd (cc)
  go_on (es, err x) next (inr (e, q, n)) k = inr (e, ap (λ y. err y) (err-injective x e q), n)
  go_on (es, ok a) next (inr (e, q, n)) k = absurd (cc)
  go_on (es, ok a) next (inl (b, q, n, p)) k =
      elim (k a es (subst (λ x. P x es) (sym (ok-injective q)) p)) [
        | inl g ↦ inl g
        | inr (e, w, m) ↦ inr (e, w, ground (arith, any-append is_serving es (next a).0, n, m))
      ]

attempt_lem :
    {A : Type 0} (message : Str) (es : List Event) (r : Result A)
    → any is_serving es ≡ false
    → Went (attempt message es r) (λ a fs. (r ≡ ok a) × (fs ≡ es))
attempt_lem message es (ok a) h = inl (a, refl, h, (refl, refl))
attempt_lem message es (err e) h = inr (_, refl, refl)

module _ (world : World) where
  migrate_lem :
      (pool : PoolOptions) (names : List Str)
      → Went (migrate world pool names) (λ _ es. es ≡ map (migrated pool) names)
  unfolding migrate
  migrate_lem pool [] = inl (tt, refl, refl, refl)
  migrate_lem pool (name ∷ names) =
      by_run (world.run_sql pool name) (migrate world pool names) (migrate_lem pool names)
    where
      by_run :
          (r : Result (Unit {0})) (more : Run (Unit {0}))
          → Went more (λ _ es. es ≡ map (migrated pool) names)
          → Went
              (then_run
                (attempt (text "run database migration " ++ name) (migrated pool name ∷ []) r)
                (λ _. more))
              (λ _ es. es ≡ migrated pool name ∷ map (migrated pool) names)
      by_run (err e) more h = inr (_, refl, refl)
      by_run (ok a) more (inl (b, q, n, es)) = inl (b, q, n, ap (λ l. migrated pool name ∷ l) es)
      by_run (ok a) more (inr (e, q, n)) = inr (e, q, n)

  open_reader_lem :
      (config : Config) (url : Option Str)
      → Went (open_reader world config url) (OpensReader config url)
  unfolding open_reader
  open_reader_lem config none = inl (none, refl, refl, (refl, refl))
  open_reader_lem config (some url) =
      by_results (world.parse_url url) (world.connect (reader_pool config url))
    where
      by_results :
          (r s : Result (Unit {0}))
          → Went
              (then_run (attempt (text "parse DATABASE_READ_URL") [] r) λ _.
                then_run
                  (attempt
                    (text "connect to PostgreSQL from DATABASE_READ_URL")
                    (connected (reader_pool config url) ∷ [])
                    s)
                  λ _. ([], ok (some (reader_pool config url))))
              (OpensReader config (some url))
      by_results (err e) s = inr (_, refl, refl)
      by_results (ok _) (err e) = inr (_, refl, refl)
      by_results (ok _) (ok _) = inl (some (reader_pool config url), refl, refl, (refl, refl, refl))

  start_retention_lem :
      (config : Config) (store : Store) (raw : Option Str)
      → Went
          (start_retention world config store raw)
          (λ _ es. Sweeps world.to_lowercase config store.primary raw es)
  unfolding start_retention
  start_retention_lem config store none = inl (tt, refl, refl, refl)
  start_retention_lem config store (some raw) =
      by_parsed (parse_retention world.to_lowercase raw) refl
        (parse_retention world.to_lowercase config.retention_sweep_interval) refl
    where
      by_parsed :
          (p : Parsed)
          → parse_retention world.to_lowercase raw ≡ p
          → (q : Parsed) → parse_retention world.to_lowercase config.retention_sweep_interval ≡ q
          → Went
              (start_retention world config store (some raw))
              (λ _ es. Sweeps world.to_lowercase config store.primary (some raw) es)
      by_parsed (refused x) e q e' = inr (anyhow (text "parse RETENTION"), rw e refl, rw e refl)
      by_parsed (seconds n) e (refused x) e' =
          inr (anyhow (text "parse RETENTION_SWEEP_INTERVAL"), rw (e, e') refl, rw (e, e') refl)
      by_parsed (seconds n) e (seconds m) e' =
          inl (tt, rw (e, e') refl, rw (e, e') refl, (n, m, e, e', rw (e, e') refl))

  -- Nothing is served until the address was read, the writing pool and, where a URL is given for it, a read-only pool for the queries were opened, the four migrations ran in order on the
  -- writing pool, and, where a retention is given, it and the interval were read and the sweeper started on the writing pool: either all of this happened in this order and then the services were served over the
  -- store of those pools, or the program ended in an error and served nothing.
  pub start_lem :
      (config : Config)
      → Prepared world config (start world config).0 (start world config).1
        ⊎ Failed (start world config)
  unfolding start
  start_lem config =
      let pool : PoolOptions = primary_pool config in
      let Good : List Event → Result (Unit {0}) → Type 0 = Prepared world config in
      go_on Good
        (λ (address : SocketAddr) (es : List Event).
          (world.parse_address config.listen_addr ≡ ok address) × (es ≡ []))
        (attempt (text "parse LISTEN_ADDR") [] (world.parse_address config.listen_addr)) _
        (attempt_lem (text "parse LISTEN_ADDR") [] (world.parse_address config.listen_addr) refl)
        λ address es1 (p1, e1).
          go_on (λ more o. Good (es1 ++ more) o)
            (λ (_ : Unit {0}) (es : List Event).
              (world.connect pool ≡ ok tt) × (es ≡ connected pool ∷ []))
            (attempt (text "connect to PostgreSQL from DATABASE_URL") (connected pool ∷ [])
              (world.connect pool))
            _
            (attempt_lem (text "connect to PostgreSQL from DATABASE_URL") (connected pool ∷ [])
              (world.connect pool) refl)
            λ _ es2 (p2, e2).
              go_on (λ more o. Good (es1 ++ (es2 ++ more)) o)
                (OpensReader config (unless is_empty config.database_read_url))
                (open_reader world config (unless is_empty config.database_read_url)) _
                (open_reader_lem config (unless is_empty config.database_read_url))
                λ reader es3 p3.
                  let store : Store = new pool reader config.max_search_depth in
                  go_on (λ more o. Good (es1 ++ (es2 ++ (es3 ++ more))) o)
                    (λ (_ : Unit {0}) (es : List Event). es ≡ map (migrated pool) migrations)
                    (migrate world pool migrations) _ (migrate_lem pool migrations)
                    λ _ es4 e4.
                      go_on (λ more o. Good (es1 ++ (es2 ++ (es3 ++ (es4 ++ more)))) o)
                        (λ (_ : Unit {0}) (es : List Event).
                          Sweeps world.to_lowercase config pool (unless is_blank config.retention)
                            es)
                        (start_retention world config store (unless is_blank config.retention)) _
                        (start_retention_lem config store (unless is_blank config.retention))
                        λ _ es5 p5.
                          inl (address, reader, es3, es5, p1, p3, p5, rw (e1, e2, e4) refl, refl)
