-- ===== src/Search/Results.antt =====
-- What `find_ids` returns.
use otelview_postgres.Common.{◌≡◌, true, List}
use otelview_postgres.Json.{Json}
use otelview_postgres.Schema.{SpanRow, Database}
use otelview_postgres.Search.Entries.{has_span}
use otelview_postgres.Search.{Group}

-- Each group has a row.
abbrev pub Present : List SpanRow → Group → Type 0
Present rows g = has_span rows g.trace_id ≡ true
