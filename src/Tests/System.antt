-- ===== src/Tests/System.antt =====
-- The service at concrete requests.

use otelview_postgres.Common.{◌≡◌, inr, refl, false, [], ◌∷◌, ok}
use otelview_postgres.Common.Chunks.{chunks}
use otelview_postgres.Common.Int.{pos}
use otelview_postgres.HashMap.{insert, remove}
use otelview_postgres.HashMap.LastIndex.{record_indices, index_all}
use otelview_postgres.Schema.{SpanKey-discrete}
use otelview_postgres.Database.{
  Connection, calm, ◌>>=◌, pure, lift, request, begin, execute, commit,
}
use otelview_postgres.Spans.{
  gather, write_resource, write_scope, write_span, span_row, bad_ids, reject, dedupe_spans,
  insert_rows, insert_statement, insert_chunks, write_rows, write,
}
use otelview_postgres.Retention.{cutoff_at, sweep_expired}
use otelview_postgres.Server.{export_traces}
use otelview_postgres.System.{Environment, trace_export, answered, answer}
use otelview_postgres.System.Failures.{unchanged_unless_exported}
use otelview_postgres.System.Steps.{serves, here, next, sweep-Reach}
use otelview_postgres.System.Validity.{IsValid, Reach-IsValid}
use otelview_postgres.System.Durability.{Grows, Reach-Grows}
use otelview_postgres.Tests.Samples.{
  in_order, upload, blank_codec, empty_database, shaky, log_at, never, by_bytes, as_it_comes,
}

abbrev plain : Environment
plain = record {
  trace_codec = blank_codec;
  log_codec = record { encode = λ _. []; decode = λ _. ok (record { resource_logs = [] }) };
  metric_codec = record { encode = λ _. []; decode = λ _. ok (record { resource_metrics = [] }) };
  describe = λ _. [];
  json_text = λ _. [];
  to_double = λ _. 0;
  jsonb_contains = never;
  jsonb_eq = never;
  ilike = λ a b. false;
  collation = by_bytes;
  estimates = record { spans = pos 0; logs = pos 0; metric_points = pos 0 };
  max_search_depth = 100;
  keys = in_order;
  traces = as_it_comes;
  services = as_it_comes;
  series = as_it_comes;
  task_faults = λ _. [];
  choices = λ _. 1;
}

-- The commit is answered by an error.
export_meets_error : ¬ ((answer plain (trace_export upload) shaky).0 ≡ answered)
unfolding answer export_traces write gather write_resource write_scope write_span bad_ids reject
    span_row dedupe_spans record_indices index_all insert remove SpanKey-discrete write_rows
    insert_chunks insert_statement insert_rows ◌>>=◌ lift pure begin execute request commit chunks
export_meets_error h = absurd (cc)

unchanged_unless_exported_example :
    (answer plain (trace_export upload) shaky).1.database ≡ empty_database
unchanged_unless_exported_example =
    unchanged_unless_exported plain (trace_export upload) shaky (inr export_meets_error)

Reach-IsValid_example :
    IsValid (answer plain (trace_export upload) (calm empty_database)).1.database
Reach-IsValid_example =
    Reach-IsValid (pos 0) empty_database
      (answer plain (trace_export upload) (calm empty_database)).1.database
      (next here (serves plain (trace_export upload) [] refl))
      (record { ids = tt; distinct = tt; span_times = tt; log_times = tt; point_times = tt })

-- A record that has expired at 60 with a retention of 50, and one that has not.
abbrev logged : Connection
logged = calm (record empty_database { logs = log_at 3 ∷ log_at 20 ∷ [] })

Reach-Grows_example :
    Grows
      (pos 10)
      logged.database
      (answer plain
        (trace_export upload)
        (calm (sweep_expired 1 60 50 logged).1.database)).1.database
unfolding cutoff_at
Reach-Grows_example =
    Reach-Grows (pos 10) logged.database
      (answer plain (trace_export upload)
        (calm (sweep_expired 1 60 50 logged).1.database)).1.database
      (next (sweep-Reach (pos 10) 1 60 50 logged refl) (serves plain (trace_export upload) [] refl))
