-- ===== src/Startup.antt =====
-- How the program starts: `main` of src/main.rs, `Config` of src/config.rs, `Store::new` and `Store::migrate` of src/store.rs. Parsing an address, reaching PostgreSQL, running the SQL of a
-- migration and serving are arguments. What happened is a list of events. Logging and printing, the time limits of the pools and the signals that end the server are left out.
pub mod Order
pub mod Migrations
pub mod Banner
use otelview_postgres.Common.{
  ℕ, Bool, true, false, not, Option, none, some, List, [], ◌∷◌, ◌++◌, Str, text, is_empty,
  if◌then◌else◌, Result, ok, err, Error, anyhow,
}
use otelview_postgres.Retention.Parse.{Parsed, seconds, refused, trim, parse_retention}

-- `Config`, with the defaults that the command line fills in.
pub record Config : Type 0 where
  pub database_url : Str
  pub database_read_url : Option Str
  pub listen_addr : Str
  pub database_max_connections : ℕ
  pub max_search_depth : ℕ
  pub retention : Option Str
  pub retention_sweep_interval : Str

-- What a connection pool is opened with.
pub record PoolOptions : Type 0 where
  pub url : Str
  pub max_connections : ℕ
  pub read_only : Bool

-- `Store`, its pools known by their options.
pub record Store : Type 0 where
  pub primary : PoolOptions
  pub reader : PoolOptions
  pub max_search_depth : ℕ

abbrev unwrap_or : {A : Type 0} → A → Option A → A
unwrap_or a none = a
unwrap_or a (some b) = b

-- `Store::new`
unfoldable pub new : PoolOptions → Option PoolOptions → ℕ → Store
new primary reader max_search_depth = record {
  primary = primary;
  reader = unwrap_or primary reader;
  max_search_depth = max_search_depth;
}

-- The names of the files, in the order in which `migrate` runs them.
abbrev pub migrations : List Str
migrations =
    text "0001_create_spans"
    ∷ text "0002_create_logs"
    ∷ text "0003_create_metric_points"
    ∷ text "0004_start_index"
    ∷ []

-- `SocketAddr`: the host and the port.
abbrev pub SocketAddr : Type 0
SocketAddr = Str × ℕ

pub data Event : Type 0 where
  connected : PoolOptions → Event
  migrated : PoolOptions → Str → Event
  sweeping : PoolOptions → ℕ → ℕ → Event
  serving : SocketAddr → Store → Event

-- What is not the program's own.
pub record World : Type 0 where
  pub parse_address : Str → Result SocketAddr
  pub parse_url : Str → Result (Unit {0})
  pub connect : PoolOptions → Result (Unit {0})
  pub run_sql : PoolOptions → Str → Result (Unit {0})
  pub serve : SocketAddr → Result (Unit {0})
  pub to_lowercase : Str → Str

-- `.filter(|u| !u.is_empty())` and `.filter(|r| !r.trim().is_empty())`
abbrev pub unless : (Str → Bool) → Option Str → Option Str
unless blank none = none
unless blank (some s) = if blank s then none else some s

abbrev pub is_blank : Str → Bool
is_blank s = is_empty (trim s)

-- The events so far, and how it went.
abbrev pub Run : Type 0 → Type 0
Run A = List Event × Result A

abbrev pub then_run : {A B : Type 0} → Run A → (A → Run B) → Run B
then_run (events, ok a) next = let more = next a in (events ++ more.0, more.1)
then_run (events, err e) next = (events, err e)

-- `result.context(message)?`, and an event where it goes well.
abbrev pub attempt : {A : Type 0} → Str → List Event → Result A → Run A
attempt message events (ok a) = (events, ok a)
attempt message events (err e) = ([], err (anyhow message))

abbrev pub primary_pool : Config → PoolOptions
primary_pool config = record {
  url = config.database_url;
  max_connections = config.database_max_connections;
  read_only = false;
}

abbrev pub reader_pool : Config → Str → PoolOptions
reader_pool config url = record {
  url = url;
  max_connections = config.database_max_connections;
  read_only = true;
}

module _ (world : World) where
  -- `Store::migrate`
  unfoldable pub migrate : PoolOptions → List Str → Run (Unit {0})
  migrate primary [] = ([], ok tt)
  migrate primary (name ∷ names) =
      then_run
        (attempt (text "run database migration " ++ name) (migrated primary name ∷ [])
          (world.run_sql primary name))
        λ _. migrate primary names

  abbrev parsed : Str → Parsed → Run ℕ
  parsed message (seconds n) = ([], ok n)
  parsed message (refused reason) = ([], err (anyhow message))

  -- The pool for queries, where a URL is given for it.
  unfoldable pub open_reader : Config → Option Str → Run (Option PoolOptions)
  open_reader config none = ([], ok none)
  open_reader config (some url) =
      then_run (attempt (text "parse DATABASE_READ_URL") [] (world.parse_url url)) λ _.
        then_run
          (attempt (text "connect to PostgreSQL from DATABASE_READ_URL")
            (connected (reader_pool config url) ∷ []) (world.connect (reader_pool config url)))
          λ _. ([], ok (some (reader_pool config url)))

  -- The sweeper, where a retention is given.
  unfoldable pub start_retention : Config → Store → Option Str → Run (Unit {0})
  unfolding parse_retention
  start_retention config store none = ([], ok tt)
  start_retention config store (some raw) =
      then_run (parsed (text "parse RETENTION") (parse_retention world.to_lowercase raw))
        λ retention.
          then_run
            (parsed (text "parse RETENTION_SWEEP_INTERVAL")
              (parse_retention world.to_lowercase config.retention_sweep_interval))
            λ every. (sweeping store.primary retention every ∷ [], ok tt)

  -- `main`
  unfoldable pub start : Config → Run (Unit {0})
  unfolding new migrate open_reader start_retention
  start config =
      then_run (attempt (text "parse LISTEN_ADDR") [] (world.parse_address config.listen_addr))
        λ address.
          then_run
            (attempt (text "connect to PostgreSQL from DATABASE_URL")
              (connected (primary_pool config) ∷ []) (world.connect (primary_pool config)))
            λ _. then_run (open_reader config (unless is_empty config.database_read_url)) λ reader.
              let store = new (primary_pool config) reader config.max_search_depth in
              then_run (migrate store.primary migrations) λ _.
                then_run (start_retention config store (unless is_blank config.retention))
                  λ _. (serving address store ∷ [], world.serve address)
