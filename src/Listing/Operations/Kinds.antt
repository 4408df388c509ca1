-- ===== src/Listing/Operations/Kinds.antt =====
-- What the listing of operations holds.
use otelview_postgres.Common.{
  ℕ, zero, suc, ◌≡◌, refl, ◌∙◌, Bool, true, false, ◌&&◌, Option, none, some, List, [], ◌∷◌, map,
  if◌then◌else◌, Str, length, select, any, All, arith, Bool-cases, inl, inr,
}
use otelview_postgres.Common.Sorting.{sort}
use otelview_postgres.Schema.{SpanRow}
use otelview_postgres.Search.{same}
use otelview_postgres.Common.Sorted.{All-sort}
use otelview_postgres.Listing.{Collation}
use otelview_postgres.Listing.Least.{Ascending}
use otelview_postgres.Listing.Distinct.{distinct_values_lem}
use otelview_postgres.Listing.Operations.{
  Operation, asked, least_row, rows_above, walk_rows, by_operation, operations_of, operation_of,
  name_of, operations_of-names,
}

module _ (P : SpanRow → Type 0) where
  All-select : (p : SpanRow → Bool) (rows : List SpanRow) → All P rows → All P (select p rows)
  All-select p [] h = tt
  All-select p (x ∷ rows) h = elim (Bool-cases (p x)) [
    | inl e ↦ rw e (h.0, All-select p rows h.1)
    | inr e ↦ rw e (All-select p rows h.1)
  ]

  Held : Option SpanRow → Type 0
  Held none = Unit
  Held (some r) = P r

  module _ (collation : Collation) where
    Held-choice : (b : Bool) (x y : SpanRow) → P x → P y → Held (some (if b then y else x))
    unfolding Held
    Held-choice true x y h k = k
    Held-choice false x y h k = h

    Held-lesser :
        (x : SpanRow) (found : Option SpanRow)
        → P x
        → Held found
        → Held (elim found [
          | none ↦ some x
          | some y ↦ some (if collation.lt y.operation x.operation then y else x)
        ])
    unfolding Held
    Held-lesser x none h k = h
    Held-lesser x (some y) h k = Held-choice (collation.lt y.operation x.operation) x y h k

    least_row-Held : (rows : List SpanRow) → All P rows → Held (least_row collation rows)
    unfolding least_row Held
    least_row-Held [] h = tt
    least_row-Held (x ∷ rows) h =
        Held-lesser x (least_row collation rows) h.0 (least_row-Held rows h.1)

    walk_rows-All :
        (rounds : ℕ) (rows : List SpanRow) (v : Option SpanRow)
        → All P rows
        → Held v
        → All P (walk_rows collation rounds rows v)
    unfolding walk_rows Held
    walk_rows-All zero rows v h k = tt
    walk_rows-All (suc rounds) rows none h k = tt
    walk_rows-All (suc rounds) rows (some v) h k = (
      k,
      walk_rows-All rounds rows (least_row collation (rows_above collation v rows)) h (
          least_row-Held (rows_above collation v rows)
            (All-select (λ (r : SpanRow). collation.lt v.operation r.operation) rows h)),
    )

-- A span that was asked for has this name and kind.
abbrev pub offers : Str → Str → Operation → SpanRow → Bool
offers service kind o r =
    asked service kind r && (same o.name r.operation && same o.span_kind r.kind)

same_refl : (a : Str) → same a a ≡ true
same_refl a = ground arith

module _ (service kind : Str) where
  abbrev shown : SpanRow → Operation
  shown r = record { name = r.operation; span_kind = r.kind }

  Offered : List SpanRow → SpanRow → Type 0
  Offered spans r = any (offers service kind (shown r)) spans ≡ true

  Offered-cons :
      (x : SpanRow) (spans rows : List SpanRow)
      → All (Offered spans) rows
      → All (Offered (x ∷ spans)) rows
  unfolding Offered
  Offered-cons x spans [] h = tt
  Offered-cons x spans (r ∷ rows) h = (ground (arith, h.0), Offered-cons x spans rows h.1)

  select-Offered : (spans : List SpanRow) → All (Offered spans) (select (asked service kind) spans)
  unfolding Offered
  select-Offered [] = tt
  select-Offered (x ∷ spans) = elim (Bool-cases (asked service kind x)) [
    | inl e ↦ rw e (
      ground (arith, e, same_refl x.operation, same_refl x.kind),
      Offered-cons x spans (select (asked service kind) spans) (select-Offered spans),
    )
    | inr e ↦ rw e (Offered-cons x spans (select (asked service kind) spans) (select-Offered spans))
  ]

  any-names :
      (name : Str) (spans : List SpanRow)
      → any (same name) (map operation_of (select (asked service kind) spans))
        ≡ any (λ (r : SpanRow). asked service kind r && same name r.operation) spans
  any-names name [] = refl
  any-names name (x ∷ spans) = ground (arith, any-names name spans)

  All-shown :
      (spans rows : List SpanRow)
      → All (Offered spans) rows
      → All (λ o. any (offers service kind o) spans ≡ true) (map shown rows)
  unfolding Offered
  All-shown spans [] h = tt
  All-shown spans (r ∷ rows) h = (h.0, All-shown spans rows h.1)

  -- The listing of a service's operations is in order of their names without repetition, holds a name exactly if a span of the service,
  -- of the kind if one is asked for, has it, and gives each name a kind that a span of that name has.
  pub operations_of_lem :
      (collation : Collation) (spans : List SpanRow) (name : Str)
      → Ascending collation
          (map name_of (operations_of collation (select (asked service kind) spans)))
        × (any
              (same name)
              (map name_of (operations_of collation (select (asked service kind) spans)))
            ≡ any (λ (r : SpanRow). asked service kind r && same name r.operation) spans)
        × All
            (λ o. any (offers service kind o) spans ≡ true)
            (operations_of collation (select (asked service kind) spans))
  unfolding operations_of
  operations_of_lem collation spans name =
      let rows = select (asked service kind) spans in
      let found = walk_rows collation (suc (length rows)) rows (least_row collation rows) in
      let (ascending, listed) = distinct_values_lem collation (map operation_of rows) name in
      (
        rw (operations_of-names collation rows) ascending,
        rw (operations_of-names collation rows) (listed ∙ any-names name spans),
        All-shown spans (sort (by_operation collation) found) (
            All-sort (Offered spans) (by_operation collation) found (
              walk_rows-All (Offered spans) collation (suc (length rows)) rows
                (least_row collation rows) (select-Offered spans)
                (least_row-Held (Offered spans) collation rows (select-Offered spans)))),
      )
