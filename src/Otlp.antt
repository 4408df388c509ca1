-- ===== src/Otlp.antt =====
-- The OpenTelemetry messages that the program reads, as opentelemetry-proto generates them. A
-- field that the program only copies, unread, stands in `rest`. A double is its 64 bits.
pub mod Metrics
use otelview_postgres.Common.{ℕ, Bool, Option, List, Bytes, Str}
use otelview_postgres.Common.Int.{ℤ}

-- `AnyValue`, whose oneof may be unset. A `KeyValue` may lack its value: `bare`.
mutual
  pub data AnyValue : Type 0 where
    unset : AnyValue
    string_value : Str → AnyValue
    string_value_strindex : ℤ → AnyValue
    bool_value : Bool → AnyValue
    int_value : ℤ → AnyValue
    double_value : ℕ → AnyValue
    bytes_value : Bytes → AnyValue
    array_value : AnyValues → AnyValue
    kvlist_value : KeyValues → AnyValue

  pub data AnyValues : Type 0 where
    nil : AnyValues
    cons : AnyValue → AnyValues → AnyValues

  pub data KeyValues : Type 0 where
    end : KeyValues
    pair : Str → AnyValue → KeyValues → KeyValues
    bare : Str → KeyValues → KeyValues

pub record Resource : Type 0 where
  pub attributes : KeyValues
  pub rest : Bytes

-- `InstrumentationScope`
pub record Scope : Type 0 where
  pub attributes : KeyValues
  pub rest : Bytes

pub record Status : Type 0 where
  pub code : ℤ
  pub rest : Bytes

pub record Span : Type 0 where
  pub trace_id : Bytes
  pub span_id : Bytes
  pub parent_span_id : Bytes
  pub name : Str
  pub kind : ℤ
  pub start_time_unix_nano : ℕ
  pub end_time_unix_nano : ℕ
  pub attributes : KeyValues
  pub status : Option Status
  pub rest : Bytes

pub record ScopeSpans : Type 0 where
  pub scope : Option Scope
  pub spans : List Span
  pub schema_url : Str

pub record ResourceSpans : Type 0 where
  pub resource : Option Resource
  pub scope_spans : List ScopeSpans
  pub schema_url : Str

pub record TracesData : Type 0 where
  pub resource_spans : List ResourceSpans

pub record LogRecord : Type 0 where
  pub time_unix_nano : ℕ
  pub observed_time_unix_nano : ℕ
  pub severity_number : ℤ
  pub severity_text : Str
  pub body : Option AnyValue
  pub attributes : KeyValues
  pub trace_id : Bytes
  pub span_id : Bytes
  pub rest : Bytes

pub record ScopeLogs : Type 0 where
  pub scope : Option Scope
  pub log_records : List LogRecord
  pub schema_url : Str

pub record ResourceLogs : Type 0 where
  pub resource : Option Resource
  pub scope_logs : List ScopeLogs
  pub schema_url : Str

pub record LogsData : Type 0 where
  pub resource_logs : List ResourceLogs
