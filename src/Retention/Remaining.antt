-- ===== src/Retention/Remaining.antt =====
-- What a DELETE of retention leaves of what held of a table.
use otelview_postgres.Common.{
  ℕ, zero, suc, ◌≡◌, refl, Bool, true, false, List, [], ◌∷◌, All, Bool-cases, inl, inr, arith,
  select,
}
use otelview_postgres.Schema.{SpanRow, SpanKey, span_key}
use otelview_postgres.Spans.Dedupe.{has_key, Distinct}
use otelview_postgres.Retention.{delete_up_to}

module _ {R : Type 0} (expired : R → Bool) where
  pub All-delete_up_to :
      (P : R → Type 0) (n : ℕ) (rows : List R) → All P rows → All P (delete_up_to expired n rows).1
  unfolding delete_up_to
  All-delete_up_to P n [] h = tt
  All-delete_up_to P zero (row ∷ rows) h = h
  All-delete_up_to P (suc n) (row ∷ rows) h = elim (Bool-cases (expired row)) [
    | inl t ↦ rw t (All-delete_up_to P n rows h.1)
    | inr t ↦ rw t (h.0, All-delete_up_to P (suc n) rows h.1)
  ]

module _ (expired : SpanRow → Bool) where
  has_key-delete_up_to :
      (k : SpanKey) (n : ℕ) (rows : List SpanRow)
      → has_key k rows ≡ false
      → has_key k (delete_up_to expired n rows).1 ≡ false
  unfolding delete_up_to
  has_key-delete_up_to k n [] h = refl
  has_key-delete_up_to k zero (row ∷ rows) h = h
  has_key-delete_up_to k (suc n) (row ∷ rows) h =
      ground (arith, h, has_key-delete_up_to k n rows, has_key-delete_up_to k (suc n) rows)

  pub Distinct-delete_up_to :
      (n : ℕ) (rows : List SpanRow) → Distinct rows → Distinct (delete_up_to expired n rows).1
  unfolding delete_up_to
  Distinct-delete_up_to n [] d = tt
  Distinct-delete_up_to zero (row ∷ rows) d = d
  Distinct-delete_up_to (suc n) (row ∷ rows) d = elim (Bool-cases (expired row)) [
    | inl t ↦ rw t (Distinct-delete_up_to n rows d.1)
    | inr t ↦ rw t (
      has_key-delete_up_to (span_key row) (suc n) rows d.0,
      Distinct-delete_up_to (suc n) rows d.1,
    )
  ]

module _ {R : Type 0} (expired chosen : R → Bool)
    (spared : (row : R) → expired row ≡ true → chosen row ≡ false) where
  -- Rows that are not expired stay, in order.
  pub select-delete_up_to :
      (n : ℕ) (rows : List R) → select chosen (delete_up_to expired n rows).1 ≡ select chosen rows
  unfolding delete_up_to
  select-delete_up_to n [] = refl
  select-delete_up_to zero (row ∷ rows) = refl
  select-delete_up_to (suc n) (row ∷ rows) = elim (Bool-cases (expired row)) [
    | inl t ↦ rw (t, spared row t) (select-delete_up_to n rows)
    | inr t ↦ rw (t, select-delete_up_to (suc n) rows) refl
  ]
