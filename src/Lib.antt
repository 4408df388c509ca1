-- ===== src/Lib.antt =====
-- otelview-postgres: PostgreSQL storage for OpenTelemetry traces, logs and metrics, read by Jaeger and otelview
-- over gRPC.
--
-- The program. On start (src/main.rs) it opens its pools, migrates, starts the retention loop and serves. The
-- handlers (src/server.rs) turn OTLP exports into rows and queries into streams of stored payloads. The store
-- (src/store.rs) keeps spans, src/logs.rs log records and src/metrics.rs metric points, each row with a payload
-- that holds the one item under its own resource and scope. A background loop (src/retention.rs) deletes what is
-- too old.
--
-- The files, and the code that each models:
--   Time, Time/RoundTrip: timestamp_to_nanos, duration_to_nanos, duration_bound, nanos_to_timestamp, u64_to_i64 (src/store.rs).
--   Hex, Hex/RoundTrip: hex (src/store.rs) and hex_decode (src/logs.rs).
--   Json, Json/Lookup, Json/Queries: otel_value_to_json, attributes_to_json, query_value_to_json (src/store.rs).
--   Otlp, Otlp/Metrics, Codec: the OpenTelemetry messages that the program reads, and their encoding.
--   Schema: the tables (migrations/) and their rows. Database, Database/Transactions, Database/Keeps: requests and
--     transactions, what an operation that fails leaves behind, and what a sequence of requests keeps.
--   HashMap, HashMap/LastIndex, HashMap/Rearranged: Rust's hash map, iterated in any order.
--   Spans, Spans/Dedupe, Spans/Counts, Spans/Upsert, Spans/Latest, Spans/Rows, Spans/Integrity: Store::write, span_row, dedupe_spans (src/store.rs).
--   Search, Search/Filters, Search/Entries, Search/Extents, Search/Results: search_depth, apply_query, find_ids, spans_for_ids (src/store.rs).
--   Summary, Summary/Tally, Summary/Extent: summaries and summarize (src/store.rs).
--   Logs, Logs/Writes, Logs/Rows, Logs/Like, Logs/Wanted, Logs/Queries: write_logs, find_logs, escape_like (src/logs.rs).
--   Metrics, Metrics/Flatten, Metrics/Writes, Metrics/Rows: write_metrics, flatten_metric (src/metrics.rs); Metrics/Sampling,
--     Metrics/Sampling/Ends: downsample (src/metrics.rs).
--   Metrics/Catalog, Metrics/Catalog/Order, Metrics/Catalog/Complete: list_metrics and metric_info (src/metrics.rs).
--   Metrics/Query, Metrics/Query/Thinning, Metrics/Query/Samples, Metrics/Query/Marks, Metrics/Query/Places,
--     Metrics/Query/Series, Metrics/Query/Wanted, Metrics/Query/Parts, Metrics/Query/Answers: find_metrics (src/metrics.rs).
--   Retention, Retention/Parse, Retention/Units, Retention/Layout, Retention/Sweep, Retention/Passes, Retention/Safety,
--     Retention/Retries, Retention/Remaining: parse_retention, sweep_expired, run_retention (src/retention.rs).
--   Listing, Listing/Least, Listing/Distinct: distinct_indexed and services (src/store.rs), log_services (src/logs.rs),
--     metric_services (src/metrics.rs). Listing/Operations, Listing/Operations/Kinds: operations (src/store.rs).
--   Dependencies, Dependencies/Counts: dependencies (src/store.rs).
--   Diagnostics, Diagnostics/Services: stats (src/diagnostics.rs).
--   Startup, Startup/Order: main (src/main.rs), Config (src/config.rs), Store::new and Store::migrate (src/store.rs).
--     Startup/Migrations, Startup/Migrations/Statements, Startup/Migrations/Contents,
--     Startup/Migrations/Restart: the SQL of migrations/ on a catalogue.
--     Startup/Banner: startup_banner (src/banner.rs).
--   Server, Server/Readers, Server/Metrics: the handlers (src/server.rs); Server/Merging, Server/Streams, Server/Errors,
--     Server/ReadBack, Server/Readers/Bounds: what they answer.
--   System: the requests that main (src/main.rs) makes the server answer, as one type, with the handler of each.
--     System/Reads, System/Failures, System/Exports: what an answer changes. System/Steps: the states of the service, as
--     requests and single DELETEs of retention in any order. System/Validity, System/Durability: what holds of them.
--   Common: lists, text, results, integers, chunks and sorting. Tests: runs and concrete instances.
--
-- State and failure. The state is the database: three lists of rows, each in the order of a scan. An operation
-- takes a connection, that is the database and an answer for each coming request, success or an error, and
-- returns its result with the connection that it leaves. A transaction works on a copy that its commit makes the
-- database; an error that answers a COMMIT means that nothing was committed, so a reply lost after the commit
-- is left out. A stream is the list of what its handler puts into the channel as long as it is read; a client's
-- call ends at the first error in the list. No other client writes between two requests of one operation. Between operations, and between the
-- DELETEs of a sweep, any other request may come.
--
-- Numbers. Integers of the source are ℕ or ℤ; where an operation wraps, saturates, checks or converts, the
-- definition says so. Products and sums that the source leaves unchecked wrap, as in a release build. A double
-- is its 64 bits.
--
-- Arguments of the model, for code that is not in the repository: the encoding of messages (prost), lowercasing
-- beyond ASCII and the formatting of a message (Rust's standard library), the text of a JSON value (serde_json),
-- jsonb containment and equality, ILIKE, the planner's estimates and the text of a jsonb column and the
-- collation of texts (PostgreSQL), the order in which a hash map is iterated, the conversion of an integer to a
-- double, the order in which concurrent look-ups end, what CREATE EXTENSION answers (PostgreSQL), parsing, reading
-- out and reaching addresses (Rust's standard library,
-- sqlx and tonic), and the clock.
--
-- Bounds. The loop over one table in a sweep runs on a number of rounds: one for each full batch of expired rows
-- and one more is enough. The walk of a listing runs on a round for each row and one more. Every other loop is
-- structural recursion. Cutting into chunks takes as many rounds as there are elements.
--
-- Not modelled: SQL text and the use of indexes (a statement is what it selects or changes), and of an index in
-- the migrations its method, order and predicate; logging, printing, time limits, signals and generated code.
pub mod Codec
pub mod Common
pub mod Database
pub mod Dependencies
pub mod Diagnostics
pub mod HashMap
pub mod Hex
pub mod Json
pub mod Listing
pub mod Logs
pub mod Metrics
pub mod Otlp
pub mod Retention
pub mod Schema
pub mod Search
pub mod Server
pub mod Spans
pub mod Startup
pub mod Summary
pub mod System
pub mod Tests
pub mod Time
