-- ===== src/Tests/Startup.antt =====
-- A start with a retention and a replica.
use otelview_postgres.Startup.Migrations.{
  Catalog, table, unavailable, run_statement, run_file, run_migrations, migration_files,
}
use otelview_postgres.Common.{
  false, Bytes-discrete, ◌≡◌, refl, ◌⊎◌, some, text, ok, [], ◌∷◌, err, anyhow,
}
use otelview_postgres.Retention.Parse.{
  parse_retention, normalize, trim, trim_start, is_whitespace, unit_hours, trim_end_s, parse_digits,
}
use otelview_postgres.Startup.{Config, World, start}
use otelview_postgres.Startup.Order.{Prepared, Failed, start_lem}

abbrev all_well : World
all_well = record {
  parse_address = λ s. ok (s, 17271);
  parse_url = λ _. ok tt;
  connect = λ _. ok tt;
  run_sql = λ _ _. ok tt;
  serve = λ _. ok tt;
  to_lowercase = λ s. s;
}

abbrev with_replica : Config
with_replica = record {
  database_url = text "postgres://primary";
  database_read_url = some (text "postgres://replica");
  listen_addr = text "0.0.0.0";
  database_max_connections = 20;
  max_search_depth = 1000;
  retention = some (text "7d");
  retention_sweep_interval = text "1h";
}

start_lem_example :
    Prepared all_well with_replica (start all_well with_replica).0 (start all_well with_replica).1
    ⊎ Failed (start all_well with_replica)
start_lem_example = start_lem all_well with_replica

runs : (start all_well with_replica).1 ≡ ok tt
unfolding start parse_retention normalize trim trim_start is_whitespace unit_hours trim_end_s
    parse_digits Bytes-discrete
runs = refl

-- A database with a table of somebody else's.
abbrev taken : Catalog
taken = record { relations = (text "spans_backup", table []) ∷ []; trigram = false }

-- A new database.
abbrev fresh : Catalog
fresh = record { relations = []; trigram = false }

-- A server without the files of pg_trgm stops the program at the second file.
stops_without_trigrams :
    (run_migrations unavailable migration_files taken).0
    ≡ err (anyhow (text "run database migration 0002_create_logs"))
unfolding run_migrations run_file run_statement Bytes-discrete
stops_without_trigrams = refl
