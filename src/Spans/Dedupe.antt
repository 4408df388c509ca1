-- ===== src/Spans/Dedupe.antt =====
-- `dedupe_spans` of src/store.rs keeps the last row of each key, whatever the order of the map.
use mathlib.Core.List.{Sublist, nil-sublist}
use mathlib.Core.List.Sublist
use otelview_postgres.Common.{
  ℕ, ◌≡◌, refl, Bool, true, false, Option, none, some, ite, List, [], ◌∷◌, arith, All, Bool-cases,
  Option-cases, inl, inr,
}
use otelview_postgres.HashMap.{Iteration}
use otelview_postgres.HashMap.LastIndex.{occurs, keep_last, index_all-sort-values}
use otelview_postgres.Schema.{SpanRow, SpanKey, SpanKey-discrete, span_key}
use otelview_postgres.Spans.{dedupe_spans}

abbrev pub last_rows : List SpanRow → List SpanRow
last_rows = keep_last SpanKey-discrete span_key

abbrev pub has_key : SpanKey → List SpanRow → Bool
has_key = occurs SpanKey-discrete span_key

-- No two rows have one key.
abbrev pub Distinct : List SpanRow → Type 0
Distinct [] = Unit
Distinct (row ∷ rows) = (has_key (span_key row) rows ≡ false) × Distinct rows

-- The first and the last row with a key.
abbrev pub find : SpanKey → List SpanRow → Option SpanRow
find k [] = none
find k (row ∷ rows) =
    let rest = find k rows in ite (SpanKey-discrete k (span_key row)) (some row) rest

abbrev pub or_else : Option SpanRow → Option SpanRow → Option SpanRow
or_else (some a) b = some a
or_else none b = b

abbrev pub find_last : SpanKey → List SpanRow → Option SpanRow
find_last k [] = none
find_last k (row ∷ rows) =
    let rest = find_last k rows in
    or_else rest (ite (SpanKey-discrete k (span_key row)) (some row) none)

has_key-last_rows :
    (k : SpanKey) (rows : List SpanRow) → has_key k (last_rows rows) ≡ has_key k rows
has_key-last_rows k [] = refl
has_key-last_rows k (row ∷ rows) = ground (arith, has_key-last_rows k rows)

pub last_rows-Distinct : (rows : List SpanRow) → Distinct (last_rows rows)
last_rows-Distinct [] = tt
last_rows-Distinct (row ∷ rows) = elim (Bool-cases (has_key (span_key row) rows)) [
  | inl e ↦ rw e (last_rows-Distinct rows)
  | inr e ↦ rw e (ground (arith, has_key-last_rows (span_key row) rows), last_rows-Distinct rows)
]

find_last-none :
    (k : SpanKey) (rows : List SpanRow) → has_key k rows ≡ false → find_last k rows ≡ none
find_last-none k [] h = refl
find_last-none k (row ∷ rows) h = ground (arith, find_last-none k rows)

find_last-some :
    (k : SpanKey) (rows : List SpanRow)
    → has_key k rows ≡ true
    → (r : SpanRow) × (find_last k rows ≡ some r)
find_last-some k [] h = absurd (cc)
find_last-some k (row ∷ rows) h = elim (Option-cases (find_last k rows)) [
  | inr (r, e) ↦ (r, rw e)
  | inl e ↦ elim (SpanKey-discrete k (span_key row)) [
    | yes p ↦ (row, ground arith)
    | no p ↦ let (r, found) = find_last-some k rows (ground arith) in absurd (cc)
  ]
]

pub find_last-last_rows :
    (k : SpanKey) (rows : List SpanRow) → find_last k (last_rows rows) ≡ find_last k rows
find_last-last_rows k [] = refl
find_last-last_rows k (row ∷ rows) =
    ground
      (arith, find_last-last_rows k rows, find_last-some k rows, find_last-some (span_key row) rows)

find-last_rows : (k : SpanKey) (rows : List SpanRow) → find k (last_rows rows) ≡ find_last k rows
find-last_rows k [] = refl
find-last_rows k (row ∷ rows) = ground (
  arith,
  find-last_rows k rows,
  find_last-none k rows,
  find_last-none (span_key row) rows,
  find_last-some k rows,
  find_last-some (span_key row) rows,
)

pub last_rows-sublist : (rows : List SpanRow) → Sublist (last_rows rows) rows
last_rows-sublist [] = nil-sublist []
last_rows-sublist (row ∷ rows) = elim (Bool-cases (has_key (span_key row) rows)) [
  | inl e ↦ rw e (Sublist.cons row (last_rows-sublist rows))
  | inr e ↦ rw e (Sublist.cons-cons row (last_rows-sublist rows))
]

pub All-last_rows {ℓ} :
    (P : SpanRow → Type ℓ) (rows : List SpanRow) → All P rows → All P (last_rows rows)
All-last_rows P [] h = tt
All-last_rows P (row ∷ rows) h = elim (Bool-cases (has_key (span_key row) rows)) [
  | inl e ↦ rw e (All-last_rows P rows h.1)
  | inr e ↦ rw e (h.0, All-last_rows P rows h.1)
]

-- What `dedupe_spans` returns, and never a panic: for any order of the map, a part of the rows in
-- their order of arrival, in which each key stands once, with the last of its rows.
pub dedupe_spans_keeps_last :
    (iteration : Iteration ℕ) (rows : List SpanRow)
    → (kept : List SpanRow) × (dedupe_spans iteration rows ≡ some kept)
      × Sublist kept rows
      × Distinct kept
      × ((k : SpanKey) → find k kept ≡ find_last k rows)
unfolding dedupe_spans
dedupe_spans_keeps_last iteration rows = (
  last_rows rows,
  index_all-sort-values SpanKey-discrete span_key iteration rows,
  last_rows-sublist rows,
  last_rows-Distinct rows,
  λ k. find-last_rows k rows,
)
