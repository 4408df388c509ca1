-- ===== src/Logs/Queries.antt =====
-- What `find_logs` of src/logs.rs returns.
use mathlib.Core.List.{Perm}
use otelview_postgres.Common.{
  take_nil, ℕ, ◌≢◌, ◌≡◌, refl, sym, Bool, false, some, List, [], ◌∷◌, ◌++◌, map, Bytes, Str,
  is_empty, length, select, take, drop, min, length-take, take-append-drop, Bytes-discrete, ok,
  arith,
}
use otelview_postgres.Common.Sorting.{sort}
use otelview_postgres.Common.Sorted.{IsSorted, sort-Perm, sort-IsSorted}
use otelview_postgres.Json.{Json}
use otelview_postgres.Hex.{returned, hex_decode}
use otelview_postgres.Schema.{LogRow, Database}
use otelview_postgres.Database.{Db, ◌>>=◌, lift, request, with_context, calm}
use otelview_postgres.Search.{search_depth}
use otelview_postgres.Logs.Wanted.{is_trace, trace_wanted, wanted, log_conditions-wanted}
use otelview_postgres.Logs.{
  LogQuery, LogCondition, log_conditions, matches, newest_first, run_query, find_logs,
}

module _ (ilike : Str → Str → Bool) (json_text : Json → Str) where
  select-matches :
      (query : LogQuery) (cs : List LogCondition) (rows : List LogRow)
      → log_conditions query ≡ returned (ok cs)
      → select (matches ilike json_text cs) rows ≡ select (wanted ilike json_text query) rows
  select-matches query cs [] h = refl
  select-matches query cs (row ∷ rows) h =
      rw (log_conditions-wanted ilike json_text row query cs h, select-matches query cs rows h) refl

  -- If the trace id and the bounds of a query convert and the database answers, `find_logs` changes nothing and returns the payloads of a list cut to the search depth: the whole list
  -- holds exactly the records that the query wants, each as often as the table, and is ordered newest first.
  pub find_logs_returns :
      (limit : ℕ) (query : LogQuery) (cs : List LogCondition) (db : Database)
      → log_conditions query ≡ returned (ok cs)
      → (rows : List LogRow) × (left_out : List LogRow) × (found : Db (List Bytes)) × (find_logs
            ilike json_text limit query
          ≡ returned found)
        × (found (calm db) ≡ (ok (map (λ (r : LogRow). r.payload) rows), calm db))
        × (length rows ≡ min (search_depth limit query.search_depth) (length (rows ++ left_out)))
        × IsSorted newest_first (rows ++ left_out)
        × Perm (rows ++ left_out) (select (wanted ilike json_text query) db.logs)
  unfolding find_logs ◌>>=◌ lift request with_context
  find_logs_returns limit query cs db h =
      let depth = search_depth limit query.search_depth in
      let hits = select (matches ilike json_text cs) db.logs in
      let sorted : List LogRow = sort newest_first hits in
      let whole : take depth sorted ++ drop depth sorted ≡ sorted = take-append-drop depth sorted in
      (
        take depth sorted,
        drop depth sorted,
        run_query ilike json_text limit query (ok cs),
        rw (h, find_logs) refl,
        refl,
        rw whole (length-take depth sorted),
        rw whole
            (sort-IsSorted newest_first (λ x y h. ground arith) (λ x y z h k. ground arith) hits),
        rw (whole, sym (select-matches query cs db.logs h)) (sort-Perm newest_first hits),
      )

  is_trace-length :
      (id trace : Bytes) → length id ≢ 16 → is_trace (returned (some id)) trace ≡ false
  is_trace-length id trace n = elim (Bytes-discrete trace id) [
    | yes p ↦ ground (arith, p, n)
    | no p ↦ ground (arith, p)
  ]

  unlisted_trace :
      (asked : Str) (id trace : Bytes)
      → is_empty asked ≡ false
      → hex_decode asked ≡ returned (some id)
      → length id ≢ 16
      → trace_wanted asked trace ≡ false
  unlisted_trace [] id trace a h n = absurd (cc)
  unlisted_trace (c ∷ asked) id trace a h n = rw h (is_trace-length id trace n)

  select-unlisted :
      (query : LogQuery) (id : Bytes) (rows : List LogRow)
      → is_empty query.trace_id ≡ false
      → hex_decode query.trace_id ≡ returned (some id)
      → length id ≢ 16
      → select (wanted ilike json_text query) rows ≡ []
  unfolding wanted
  select-unlisted query id [] a h n = refl
  select-unlisted query id (row ∷ rows) a h n = ground (
    arith,
    unlisted_trace query.trace_id id row.trace_id a h n,
    select-unlisted query id rows a h n,
  )

  -- If a query names a trace by a text that decodes to other than 16 bytes, and its bounds convert, `find_logs` answers with no record, also where the table holds
  -- records of that very trace.
  pub other_length_finds_nothing :
      (limit : ℕ) (query : LogQuery) (cs : List LogCondition) (id : Bytes) (db : Database)
      → log_conditions query ≡ returned (ok cs)
      → is_empty query.trace_id ≡ false
      → hex_decode query.trace_id ≡ returned (some id)
      → length id ≢ 16
      → (found : Db (List Bytes)) × (find_logs ilike json_text limit query ≡ returned found)
        × (found (calm db) ≡ (ok [], calm db))
  unfolding find_logs ◌>>=◌ lift request with_context
  other_length_finds_nothing limit query cs id db h a k n = (
    run_query ilike json_text limit query (ok cs),
    rw (h, find_logs) refl,
    rw (select-matches query cs db.logs h, select-unlisted query id db.logs a k n)
        (rw (take_nil (search_depth limit query.search_depth)) refl),
  )
