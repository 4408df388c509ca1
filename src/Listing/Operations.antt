-- ===== src/Listing/Operations.antt =====
-- `Store::operations` of src/store.rs: the walk over the operation names of a service, with a kind for each.
pub mod Kinds
use otelview_postgres.Common.{
  ℕ, zero, suc, ◌≡◌, refl, sym, ap, ◌∙◌, Bool, true, false, ◌&&◌, ◌||◌, Option, none, some, List,
  [], ◌∷◌, map, if◌then◌else◌, Str, is_empty, length, length-map, select, any, All, ok, arith,
  Bool-cases, inl, inr,
}
use otelview_postgres.Common.Sorting.{sort, insert_sorted}
use otelview_postgres.Schema.{SpanRow, Database}
use otelview_postgres.Database.{Db, request}
use otelview_postgres.Search.{same}
use otelview_postgres.Listing.{Collation, least, above, walk, distinct_values}

pub record Operation : Type 0 where
  pub name : Str
  pub span_kind : Str

-- `WHERE service_name = $1 AND span_kind = $2`; an empty kind asks for nothing.
abbrev pub asked : Str → Str → SpanRow → Bool
asked service kind row = same row.service service && (is_empty kind || same row.kind kind)

module _ (collation : Collation) where
  -- `… ORDER BY operation_name LIMIT 1`
  unfoldable pub least_row : List SpanRow → Option SpanRow
  least_row [] = none
  least_row (x ∷ xs) = elim (least_row xs) [
    | none ↦ some x
    | some y ↦ some (if collation.lt y.operation x.operation then y else x)
  ]

  abbrev pub rows_above : SpanRow → List SpanRow → List SpanRow
  rows_above v = select (λ (r : SpanRow). collation.lt v.operation r.operation)

  unfoldable pub walk_rows : ℕ → List SpanRow → Option SpanRow → List SpanRow
  unfolding least_row
  walk_rows zero rows v = []
  walk_rows (suc rounds) rows none = []
  walk_rows (suc rounds) rows (some v) = v ∷ walk_rows rounds rows (least_row (rows_above v rows))

  abbrev pub by_operation : SpanRow → SpanRow → Bool
  by_operation a b = collation.lt a.operation b.operation

  unfoldable pub operations_of : List SpanRow → List Operation
  unfolding least_row walk_rows
  operations_of rows =
      map (λ (r : SpanRow). record { name = r.operation; span_kind = r.kind })
        (sort by_operation (walk_rows (suc (length rows)) rows (least_row rows)))

  unfoldable pub operations : Str → Str → Db (List Operation)
  unfolding operations_of
  operations service kind = request λ db. ok (operations_of (select (asked service kind) db.spans))

abbrev pub operation_of : SpanRow → Str
operation_of r = r.operation

abbrev pub name_of : Operation → Str
name_of o = o.name

abbrev map_found : Option SpanRow → Option Str
map_found none = none
map_found (some r) = some r.operation

-- The rows of the walk show the walk over their operation names.
module _ (collation : Collation) where
  least-map :
      (rows : List SpanRow)
      → least collation (map operation_of rows) ≡ map_found (least_row collation rows)
  unfolding least least_row
  least-map [] = refl
  least-map (x ∷ rows) = ground (arith, least-map rows)

  above-map :
      (v : SpanRow) (rows : List SpanRow)
      → above collation v.operation (map operation_of rows)
        ≡ map operation_of (rows_above collation v rows)
  above-map v [] = refl
  above-map v (x ∷ rows) = ground (arith, above-map v rows)

  walk-map :
      (rounds : ℕ) (rows : List SpanRow) (v : Option SpanRow)
      → walk collation rounds (map operation_of rows) (map_found v)
        ≡ map operation_of (walk_rows collation rounds rows v)
  unfolding walk walk_rows
  walk-map zero rows v = refl
  walk-map (suc rounds) rows none = refl
  walk-map (suc rounds) rows (some v) =
      rw (above-map v rows, least-map (rows_above collation v rows))
        (ap (◌∷◌ v.operation)
          (walk-map rounds rows (least_row collation (rows_above collation v rows))))

  insert_sorted-map :
      (x : SpanRow) (rows : List SpanRow)
      → insert_sorted collation.lt x.operation (map operation_of rows)
        ≡ map operation_of (insert_sorted (by_operation collation) x rows)
  insert_sorted-map x [] = refl
  insert_sorted-map x (y ∷ rows) = ground (arith, insert_sorted-map x rows)

  sort-map :
      (rows : List SpanRow)
      → sort collation.lt (map operation_of rows)
        ≡ map operation_of (sort (by_operation collation) rows)
  sort-map [] = refl
  sort-map (x ∷ rows) =
      rw (sort-map rows) (insert_sorted-map x (sort (by_operation collation) rows))

  names-map :
      (rows : List SpanRow)
      → map name_of (map (λ (r : SpanRow). record { name = r.operation; span_kind = r.kind }) rows)
        ≡ map operation_of rows
  names-map [] = refl
  names-map (x ∷ rows) = ap (◌∷◌ x.operation) (names-map rows)

  -- The names of the listing are the distinct operation names of the rows.
  pub operations_of-names :
      (rows : List SpanRow)
      → map name_of (operations_of collation rows)
        ≡ distinct_values collation (map operation_of rows)
  unfolding operations_of distinct_values
  operations_of-names rows =
      let found = walk_rows collation (suc (length rows)) rows (least_row collation rows) in
      names-map (sort (by_operation collation) found)
      ∙ sym (sort-map found)
      ∙ ap (sort collation.lt) (sym (walk-map (suc (length rows)) rows (least_row collation rows)))
      ∙ rw (length-map operation_of rows, least-map rows)
