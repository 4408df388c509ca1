-- ===== src/Tests/Logs.antt =====
-- Log writes and searches at concrete inputs.
use otelview_postgres.Common.{
  ℕ, ◌≡◌, refl, none, some, List, [], ◌∷◌, ◌++◌, Str, text, total, contains, Result, ok, err,
}
use otelview_postgres.Common.Int.{pos}
use otelview_postgres.Codec.{Codec}
use otelview_postgres.Database.{calm}
use otelview_postgres.Json.{Json}
use otelview_postgres.Otlp.{LogRecord, LogsData, end, string_value}
use otelview_postgres.Schema.{LogRow}
use otelview_postgres.Logs.{
  gather, gather_resource, gather_scope, gather_record, log_row, search_pattern, escape_like,
  escape_char, write_logs,
}
use otelview_postgres.Logs.Like.{like, search_pattern-matches}
use otelview_postgres.Logs.Writes.{records_of, write_logs-appends}
use otelview_postgres.Tests.Samples.{empty_database}

search_pattern-matches_example :
    like (search_pattern (text "50%_\\")) (text "at 50%_\\ now")
    ≡ contains (text "at 50%_\\ now") (text "50%_\\")
search_pattern-matches_example = search_pattern-matches (text "50%_\\") (text "at 50%_\\ now")

-- The source's own example.
escaped : escape_like (text "100%_done\\") ≡ text "100\\%\\_done\\\\"
unfolding escape_like escape_char
escaped = refl

-- A record without a time of its own.
abbrev record_at : ℕ → Str → LogRecord
record_at time message = record {
  time_unix_nano = 0;
  observed_time_unix_nano = time;
  severity_number = pos 9;
  severity_text = text "INFO";
  body = some (string_value message);
  attributes = end;
  trace_id = [];
  span_id = [];
  rest = [];
}

abbrev lines : LogsData
lines = record {
  resource_logs =
      record {
        resource = none;
        scope_logs =
            record {
              scope = none;
              log_records = record_at 5 (text "up") ∷ record_at 6 (text "down") ∷ [];
              schema_url = [];
            }
            ∷ [];
        schema_url = [];
      }
      ∷ [];
}

abbrev log_codec : Codec LogsData
log_codec = record { encode = λ _. []; decode = λ _. ok (record { resource_logs = [] }) }

-- No body here is structured.
abbrev no_text : Json → Str
no_text _ = []

abbrev rows_or_none : Result (List LogRow) → List LogRow
rows_or_none (ok rows) = rows
rows_or_none (err e) = []

gathered : List LogRow
gathered = rows_or_none (gather log_codec no_text lines)

gathered_runs : gather log_codec no_text lines ≡ ok gathered
unfolding gathered gather gather_resource gather_scope gather_record log_row
gathered_runs = refl

write_logs-appends_example : write_logs log_codec no_text lines (calm empty_database) ≡ (
  ok (total records_of lines.resource_logs),
  calm (record empty_database { logs = [] ++ gathered }),
)
write_logs-appends_example =
    write_logs-appends log_codec no_text lines empty_database gathered gathered_runs
