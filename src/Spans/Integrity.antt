-- ===== src/Spans/Integrity.antt =====
-- What the upserts of src/store.rs keep of the table of spans.
use otelview_postgres.Common.{
  ◌≡◌, refl, sym, ◌∙◌, ap, subst, false, ite, List, [], ◌∷◌, All, Bool-cases, inl, inr, ok, arith,
  ok-injective,
}
use otelview_postgres.Schema.{SpanRow, SpanKey, SpanKey-discrete, span_key, check_ids}
use otelview_postgres.Spans.{upsert, insert_rows}
use otelview_postgres.Spans.Counts.{HasIds}
use otelview_postgres.Spans.Dedupe.{has_key, Distinct}

module _ (P : SpanRow → Type 0) where
  pub All-upsert :
      (row : SpanRow) (table : List SpanRow) → P row → All P table → All P (upsert row table)
  unfolding upsert
  All-upsert row [] p h = (p, tt)
  All-upsert row (old ∷ table) p h =
      elim (SpanKey-discrete (span_key row) (span_key old))
        as (λ d. All P (ite d (row ∷ table) (old ∷ upsert row table))) [
          | yes e ↦ (p, h.1)
          | no n ↦ (h.0, All-upsert row table p h.1)
        ]

has_key-upsert :
    (k : SpanKey) (row : SpanRow) (table : List SpanRow)
    → ¬ (k ≡ span_key row)
    → has_key k table ≡ false
    → has_key k (upsert row table) ≡ false
unfolding upsert
has_key-upsert k row [] n h = ground (arith, n)
has_key-upsert k row (old ∷ table) n h = ground (arith, has_key-upsert k row table, n, h)

Distinct-upsert :
    (row : SpanRow) (table : List SpanRow) → Distinct table → Distinct (upsert row table)
unfolding upsert
Distinct-upsert row [] d = (refl, tt)
Distinct-upsert row (old ∷ table) d =
    elim (SpanKey-discrete (span_key row) (span_key old))
      as (λ o. Distinct (ite o (row ∷ table) (old ∷ upsert row table))) [
        | yes e ↦ (ap (λ k. has_key k table) e ∙ d.0, d.1)
        | no n ↦ (
          has_key-upsert (span_key old) row table (λ e. n (sym e)) d.0,
          Distinct-upsert row table d.1,
        )
      ]

-- What the statement checks, and what its rows satisfy, holds of the table after it.
pub insert_rows-valid :
    (P : SpanRow → Type 0) (written rows table table' : List SpanRow)
    → insert_rows written rows table ≡ ok table'
    → All P rows
    → All HasIds table × Distinct table × All P table
    → All HasIds table' × Distinct table' × All P table'
unfolding insert_rows
insert_rows-valid P written [] table table' e h v =
    subst (λ t. All HasIds t × Distinct t × All P t) (ok-injective e) v
insert_rows-valid P written (row ∷ rows) table table' e h v = elim (Bool-cases (check_ids row)) [
  | inr t ↦ absurd (ground (arith, t, e))
  | inl t ↦ elim (Bool-cases (has_key (span_key row) written)) [
    | inl o ↦ absurd (ground (arith, t, o, e))
    | inr o ↦
        insert_rows-valid P (row ∷ written) rows (upsert row table) table' (rw (t, o) at e) h.1 (
          All-upsert HasIds row table t v.0,
          Distinct-upsert row table v.1,
          All-upsert P row table h.0 v.2,
        )
  ]
]
