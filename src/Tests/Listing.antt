-- ===== src/Tests/Listing.antt =====
-- Listings of a concrete column, in the order of bytes.
use otelview_postgres.Common.{◌≡◌, refl, true, List, [], ◌∷◌, Str, text, any}
use otelview_postgres.Json.{str_lt}
use otelview_postgres.Common.{All, map, ◌&&◌}
use otelview_postgres.Schema.{SpanRow}
use otelview_postgres.Common.{select}
use otelview_postgres.Tests.Samples.{by_bytes, row_at}
use otelview_postgres.Listing.Operations.{asked, operations_of, name_of}
use otelview_postgres.Listing.Operations.Kinds.{offers, operations_of_lem}
use otelview_postgres.Listing.{distinct_values, walk, least}
use otelview_postgres.Listing.Least.{same, Ascending}
use otelview_postgres.Listing.Distinct.{distinct_values_lem}

abbrev column : List Str
column = text "web" ∷ text "api" ∷ text "web" ∷ text "db" ∷ []

distinct_values_lem_example :
    Ascending by_bytes (distinct_values by_bytes column)
    × (any (same (text "db")) (distinct_values by_bytes column) ≡ any (same (text "db")) column)
distinct_values_lem_example = distinct_values_lem by_bytes column (text "db")

listed : distinct_values by_bytes column ≡ text "api" ∷ text "db" ∷ text "web" ∷ []
unfolding distinct_values walk least by_bytes str_lt
listed = refl

abbrev two_rows : List SpanRow
two_rows = row_at 3 ∷ record (row_at 4) { operation = text "PUT" } ∷ []

operations_of_lem_example :
    Ascending by_bytes
      (map name_of (operations_of by_bytes (select (asked (text "api") []) two_rows)))
    × (any
          (same (text "PUT"))
          (map name_of (operations_of by_bytes (select (asked (text "api") []) two_rows)))
        ≡ any (λ (r : SpanRow). asked (text "api") [] r && same (text "PUT") r.operation) two_rows)
    × All
        (λ o. any (offers (text "api") [] o) two_rows ≡ true)
        (operations_of by_bytes (select (asked (text "api") []) two_rows))
operations_of_lem_example = operations_of_lem (text "api") [] by_bytes two_rows (text "PUT")
