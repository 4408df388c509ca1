-- ===== src/Startup/Migrations.antt =====
-- The SQL of the migrations (migrations/), run by `Store::migrate` of src/store.rs: which tables and indexes a database has. Of an index its table and
-- columns are kept, not its method, order or predicate. A file is one request, and so runs as a whole or not at all. What
-- CREATE EXTENSION would answer for pg_trgm is an argument.
pub mod Statements
pub mod Contents
pub mod Restart
use otelview_postgres.Common.{
  Bool, true, false, Option, none, some, ite, List, [], ◌∷◌, ◌++◌, any, Str, text, Result, ok, err,
  Error, anyhow, ◌&&◌, Bytes-discrete, if◌then◌else◌,
}
use otelview_postgres.Common as Common
use otelview_postgres.Search.{same}

-- A table with its columns, each with its type and constraints, or an index on columns of a table.
pub data Relation : Type 0 where
  table : List (Str × Str) → Relation
  index : Str → List Str → Relation

pub record Catalog : Type 0 where
  pub relations : List (Str × Relation)
  pub trigram : Bool

-- How CREATE EXTENSION ends where pg_trgm is not installed: it is not available at all, the role may not, or it is created.
pub data Support : Type 0 where
  unavailable forbidden allowed : Support

-- The statements are all IF NOT EXISTS. The last is the DO block on `body_text`.
pub data Statement : Type 0 where
  create_table : Str → List (Str × Str) → Statement
  create_index : Str → Str → List Str → Statement
  trigram_index : Statement

abbrev pub relation_named : Str → List (Str × Relation) → Option Relation
relation_named name [] = none
relation_named name ((n, r) ∷ rs) =
    let rest = relation_named name rs in ite (Bytes-discrete name n) (some r) rest

abbrev pub put : Str → Relation → Catalog → Catalog
put name r c = record c { relations = (name, r) ∷ c.relations }

-- A relation of the name, of any kind, makes the statement pass without effect.
abbrev pub unless_present : Option Relation → Str → Relation → Catalog → Catalog
unless_present (some old) name r c = c
unless_present none name r c = put name r c

abbrev pub has_columns : List (Str × Str) → List Str → Bool
has_columns columns [] = true
has_columns columns (name ∷ names) =
    any (λ (column : Str × Str). same column.0 name) columns && has_columns columns names

-- The table and its columns are looked up before the name of the index.
abbrev pub index_on : Option Relation → Str → Str → List Str → Catalog → Result Catalog
index_on none name on columns c = err (anyhow (text "relation does not exist"))
index_on (some (index _ _)) name on columns c = err (anyhow (text "is not a table"))
index_on (some (table given)) name on columns c =
    if has_columns given columns
    then ok (unless_present (relation_named name c.relations) name (index on columns) c)
    else err (anyhow (text "column does not exist"))

abbrev pub add_index : Str → Str → List Str → Catalog → Result Catalog
add_index name on columns c = index_on (relation_named on c.relations) name on columns c

-- CREATE EXTENSION with the handler for insufficient_privilege around it
abbrev pub create_extension : Support → Catalog → Result Catalog
create_extension unavailable c =
    if c.trigram then ok c else err (anyhow (text "extension \"pg_trgm\" is not available"))
create_extension forbidden c = ok c
create_extension allowed c = ok (record c { trigram = true })

abbrev pub index_if_trigram : Catalog → Result Catalog
index_if_trigram c =
    if c.trigram
    then add_index (text "logs_body_trgm_idx") (text "logs") (text "body_text" ∷ []) c
    else ok c

unfoldable pub run_statement : Support → Statement → Catalog → Result Catalog
run_statement support (create_table name columns) c =
    ok (unless_present (relation_named name c.relations) name (table columns) c)
run_statement support (create_index name on columns) c = add_index name on columns c
run_statement support trigram_index c = Common.◌>>=◌ (create_extension support c) index_if_trigram

unfoldable pub run_file : Support → List Statement → Catalog → Result Catalog
unfolding run_statement
run_file support [] c = ok c
run_file support (s ∷ ss) c = Common.◌>>=◌ (run_statement support s c) (run_file support ss)

abbrev pub settle : Str → Catalog → Result Catalog → Result (Unit {0}) × Catalog
settle name c (ok c') = (ok tt, c')
settle name c (err e) = (err (anyhow (text "run database migration " ++ name)), c)

abbrev pub and_then :
    Result (Unit {0}) × Catalog
    → (Catalog → Result (Unit {0}) × Catalog)
    → Result (Unit {0}) × Catalog
and_then (ok _, c) next = next c
and_then (err e, c) next = (err e, c)

-- The loop of `Store::migrate`: a file that fails ends it, and has changed nothing.
unfoldable pub run_migrations :
    Support → List (Str × List Statement) → Catalog → Result (Unit {0}) × Catalog
unfolding run_file
run_migrations support [] c = (ok tt, c)
run_migrations support ((name, statements) ∷ files) c =
    and_then (settle name c (run_file support statements c)) (run_migrations support files)

-- migrations/0001_create_spans.sql
abbrev pub create_spans_file : List Statement
create_spans_file =
    create_table (text "spans") (
      (text "trace_id", text "BYTEA NOT NULL CHECK (octet_length(trace_id) = 16)")
      ∷ (text "span_id", text "BYTEA NOT NULL CHECK (octet_length(span_id) = 8)")
      ∷ (text "parent_span_id", text "BYTEA NOT NULL")
      ∷ (text "service_name", text "TEXT NOT NULL")
      ∷ (text "operation_name", text "TEXT NOT NULL")
      ∷ (text "span_kind", text "TEXT NOT NULL")
      ∷ (text "start_time_unix_nano", text "BIGINT NOT NULL")
      ∷ (text "end_time_unix_nano", text "BIGINT NOT NULL")
      ∷ (text "duration_nano", text "BIGINT NOT NULL")
      ∷ (text "status_code", text "SMALLINT NOT NULL")
      ∷ (text "span_attributes", text "JSONB NOT NULL DEFAULT '{}'")
      ∷ (text "resource_attributes", text "JSONB NOT NULL DEFAULT '{}'")
      ∷ (text "scope_attributes", text "JSONB NOT NULL DEFAULT '{}'")
      ∷ (text "payload", text "BYTEA NOT NULL")
      ∷ (text "inserted_at", text "TIMESTAMPTZ NOT NULL DEFAULT now()")
      ∷ [])
    ∷ create_index (text "spans_trace_start_idx") (text "spans")
        (text "trace_id" ∷ text "start_time_unix_nano" ∷ [])
    ∷ create_index (text "spans_service_start_idx") (text "spans")
        (text "service_name" ∷ text "start_time_unix_nano" ∷ [])
    ∷ create_index (text "spans_service_operation_start_idx") (text "spans")
        (text "service_name" ∷ text "operation_name" ∷ text "start_time_unix_nano" ∷ [])
    ∷ create_index (text "spans_parent_idx") (text "spans")
        (text "trace_id" ∷ text "parent_span_id" ∷ [])
    ∷ create_index (text "spans_span_attributes_gin") (text "spans") (text "span_attributes" ∷ [])
    ∷ create_index (text "spans_resource_attributes_gin") (text "spans")
        (text "resource_attributes" ∷ [])
    ∷ create_index (text "spans_scope_attributes_gin") (text "spans") (text "scope_attributes" ∷ [])
    ∷ []

-- migrations/0002_create_logs.sql
abbrev pub create_logs_file : List Statement
create_logs_file =
    create_table (text "logs") (
      (text "id", text "BIGINT GENERATED ALWAYS AS IDENTITY PRIMARY KEY")
      ∷ (text "time_unix_nano", text "BIGINT NOT NULL")
      ∷ (text "observed_time_unix_nano", text "BIGINT NOT NULL")
      ∷ (text "severity_number", text "INTEGER NOT NULL")
      ∷ (text "severity_text", text "TEXT NOT NULL")
      ∷ (text "service_name", text "TEXT NOT NULL")
      ∷ (text "trace_id", text "BYTEA NOT NULL")
      ∷ (text "span_id", text "BYTEA NOT NULL")
      ∷ (text "body_text", text "TEXT NOT NULL")
      ∷ (text "attributes", text "JSONB NOT NULL DEFAULT '{}'")
      ∷ (text "resource_attributes", text "JSONB NOT NULL DEFAULT '{}'")
      ∷ (text "payload", text "BYTEA NOT NULL")
      ∷ (text "inserted_at", text "TIMESTAMPTZ NOT NULL DEFAULT now()")
      ∷ [])
    ∷ create_index (text "logs_time_idx") (text "logs") (text "time_unix_nano" ∷ [])
    ∷ create_index (text "logs_service_time_idx") (text "logs")
        (text "service_name" ∷ text "time_unix_nano" ∷ [])
    ∷ create_index (text "logs_severity_time_idx") (text "logs")
        (text "severity_number" ∷ text "time_unix_nano" ∷ [])
    ∷ create_index (text "logs_trace_idx") (text "logs")
        (text "trace_id" ∷ text "time_unix_nano" ∷ [])
    ∷ create_index (text "logs_attributes_gin") (text "logs") (text "attributes" ∷ [])
    ∷ create_index (text "logs_resource_attributes_gin") (text "logs")
        (text "resource_attributes" ∷ [])
    ∷ trigram_index
    ∷ []

-- migrations/0003_create_metric_points.sql
abbrev pub create_metric_points_file : List Statement
create_metric_points_file =
    create_table (text "metric_points") (
      (text "id", text "BIGINT GENERATED ALWAYS AS IDENTITY PRIMARY KEY")
      ∷ (text "metric_name", text "TEXT NOT NULL")
      ∷ (text "description", text "TEXT NOT NULL")
      ∷ (text "unit", text "TEXT NOT NULL")
      ∷ (text "metric_type", text "TEXT NOT NULL")
      ∷ (text "service_name", text "TEXT NOT NULL")
      ∷ (text "time_unix_nano", text "BIGINT NOT NULL")
      ∷ (text "value", text "DOUBLE PRECISION NOT NULL")
      ∷ (text "count", text "BIGINT NOT NULL DEFAULT 0")
      ∷ (text "attributes", text "JSONB NOT NULL DEFAULT '{}'")
      ∷ (text "resource_attributes", text "JSONB NOT NULL DEFAULT '{}'")
      ∷ (text "payload", text "BYTEA NOT NULL")
      ∷ (text "inserted_at", text "TIMESTAMPTZ NOT NULL DEFAULT now()")
      ∷ [])
    ∷ create_index (text "metric_points_name_time_idx") (text "metric_points")
        (text "metric_name" ∷ text "time_unix_nano" ∷ [])
    ∷ create_index (text "metric_points_name_service_time_idx") (text "metric_points")
        (text "metric_name" ∷ text "service_name" ∷ text "time_unix_nano" ∷ [])
    ∷ create_index (text "metric_points_service_idx") (text "metric_points")
        (text "service_name" ∷ [])
    ∷ []

-- migrations/0004_start_index.sql
abbrev pub start_index_file : List Statement
start_index_file =
    create_index (text "spans_start_idx") (text "spans") (text "start_time_unix_nano" ∷ []) ∷ []

abbrev pub migration_files : List (Str × List Statement)
migration_files =
    (text "0001_create_spans", create_spans_file)
    ∷ (text "0002_create_logs", create_logs_file)
    ∷ (text "0003_create_metric_points", create_metric_points_file)
    ∷ (text "0004_start_index", start_index_file)
    ∷ []
