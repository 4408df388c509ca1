-- ===== src/Schema.antt =====
-- The three tables (migrations/*.sql) and their rows as the program writes them: `SpanRow` of
-- src/store.rs, `LogRow` of src/logs.rs and `MetricRow` of src/metrics.rs. Columns that the database fills
-- in by itself (`id`, `inserted_at`) are not modelled. A double is its 64 bits.
use otelview_postgres.Common.{ℕ, List, Bool, ◌&&◌, ◌==◌, Bytes, Str, length, Bytes-discrete}
use otelview_postgres.Common.Int.{ℤ}
use otelview_postgres.Json.{Json}

pub record SpanRow : Type 0 where
  pub trace_id : Bytes
  pub span_id : Bytes
  pub parent_span_id : Bytes
  pub service : Str
  pub operation : Str
  pub kind : Str
  pub start : ℤ
  pub end : ℤ
  pub duration : ℤ
  pub status : ℤ
  pub span_attributes : Json
  pub resource_attributes : Json
  pub scope_attributes : Json
  pub payload : Bytes

pub record LogRow : Type 0 where
  pub time : ℤ
  pub observed : ℤ
  pub severity_number : ℤ
  pub severity_text : Str
  pub service : Str
  pub trace_id : Bytes
  pub span_id : Bytes
  pub body : Str
  pub attributes : Json
  pub resource_attributes : Json
  pub payload : Bytes

pub record MetricRow : Type 0 where
  pub name : Str
  pub description : Str
  pub unit : Str
  pub metric_type : Str
  pub service : Str
  pub time : ℤ
  pub value : ℕ
  pub count : ℤ
  pub attributes : Json
  pub resource_attributes : Json
  pub payload : Bytes

-- The tables, each a list of its rows in the order in which a scan meets them.
pub record Database : Type 0 where
  pub spans : List SpanRow
  pub logs : List LogRow
  pub metric_points : List MetricRow

-- PRIMARY KEY (trace_id, span_id)
abbrev pub SpanKey : Type 0
SpanKey = Bytes × Bytes

unfoldable pub SpanKey-discrete : Discrete SpanKey
unfolding Bytes-discrete
SpanKey-discrete = hlevel Bytes-discrete

abbrev pub span_key : SpanRow → SpanKey
span_key r = (r.trace_id, r.span_id)

-- CHECK (octet_length(trace_id) = 16) and CHECK (octet_length(span_id) = 8)
abbrev pub check_ids : SpanRow → Bool
check_ids r = (length r.trace_id == 16) && (length r.span_id == 8)
