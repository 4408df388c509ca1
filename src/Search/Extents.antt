-- ===== src/Search/Extents.antt =====
-- The columns that `find_ids` of src/store.rs computes of each trace.
use mathlib.Core.Logic.{if_pos, if_neg}
use otelview_postgres.Common.{
  leb, subst, ◌≡◌, ◌≢◌, refl, sym, ap, ◌∙◌, Bool, true, false, ◌||◌, List, [], ◌∷◌, Bytes, select,
  any, All, arith, Bytes-discrete, Bool-cases, inl, inr,
}
use otelview_postgres.Common.Int.{ℤ, leb_ℤ, min_ℤ, max_ℤ}
use otelview_postgres.Schema.{SpanRow}
use otelview_postgres.Search.Entries.{has_span, entries, entries-group_by_trace}
use otelview_postgres.Search.{same, Group, single, widen, add_to_groups, group_by_trace}

-- The rows of a trace.
abbrev pub of_trace : Bytes → List SpanRow → List SpanRow
of_trace id = select (λ r. same r.trace_id id)

-- A value that no row's is below, or above, and that one row has.
abbrev pub IsLeast : (SpanRow → ℤ) → ℤ → List SpanRow → Type 0
IsLeast f n rows = All (λ r. leb_ℤ n (f r) ≡ true) rows × (any (λ r. leb_ℤ (f r) n) rows ≡ true)

abbrev pub IsGreatest : (SpanRow → ℤ) → ℤ → List SpanRow → Type 0
IsGreatest f n rows = All (λ r. leb_ℤ (f r) n ≡ true) rows × (any (λ r. leb_ℤ n (f r)) rows ≡ true)

-- The earliest start, the latest end and the latest start of the trace's rows.
pub record Spanned (rows : List SpanRow) (g : Group) : Type 0 where
  pub earliest : IsLeast (λ r. r.start) g.start (of_trace g.trace_id rows)
  pub last_end : IsGreatest (λ r. r.end) g.end (of_trace g.trace_id rows)
  pub last_start : IsGreatest (λ r. r.start) g.latest (of_trace g.trace_id rows)

or_true : (a : Bool) {b : Bool} → b ≡ true → a || b ≡ true
or_true true h = refl
or_true false h = h

module _ (f : SpanRow → ℤ) where
  All-lower :
      (m n : ℤ) (rows : List SpanRow)
      → leb_ℤ m n ≡ true
      → All (λ r. leb_ℤ n (f r) ≡ true) rows
      → All (λ r. leb_ℤ m (f r) ≡ true) rows
  All-lower m n [] h k = tt
  All-lower m n (r ∷ rows) h k = (ground (arith, h, k.0), All-lower m n rows h k.1)

  All-higher :
      (m n : ℤ) (rows : List SpanRow)
      → leb_ℤ n m ≡ true
      → All (λ r. leb_ℤ (f r) n ≡ true) rows
      → All (λ r. leb_ℤ (f r) m ≡ true) rows
  All-higher m n [] h k = tt
  All-higher m n (r ∷ rows) h k = (ground (arith, h, k.0), All-higher m n rows h k.1)

  IsLeast-min :
      (row : SpanRow) (n : ℤ) (rows : List SpanRow)
      → IsLeast f n rows
      → IsLeast f (min_ℤ (f row) n) (row ∷ rows)
  IsLeast-min row n rows h = elim (Bool-cases (leb_ℤ (f row) n)) [
    | inl t ↦
        let e : min_ℤ (f row) n ≡ f row = rw t refl in
        let own : leb_ℤ (f row) (f row) ≡ true = ground arith in
        subst (λ m. IsLeast f m (row ∷ rows)) (sym e)
          ((own, All-lower (f row) n rows t h.0), rw own refl)
    | inr t ↦
        let e : min_ℤ (f row) n ≡ n = rw t refl in
        subst (λ m. IsLeast f m (row ∷ rows)) (sym e) ((ground (arith, t), h.0), rw t h.1)
  ]

  IsGreatest-max :
      (row : SpanRow) (n : ℤ) (rows : List SpanRow)
      → IsGreatest f n rows
      → IsGreatest f (max_ℤ (f row) n) (row ∷ rows)
  IsGreatest-max row n rows h = elim (Bool-cases (leb_ℤ (f row) n)) [
    | inl t ↦
        let e : max_ℤ (f row) n ≡ n = ground (arith, t) in
        subst (λ m. IsGreatest f m (row ∷ rows)) (sym e) ((t, h.0), or_true (leb_ℤ n (f row)) h.1)
    | inr t ↦
        let e : max_ℤ (f row) n ≡ f row = ground (arith, t) in
        let own : leb_ℤ (f row) (f row) ≡ true = ground arith in
        let over : leb_ℤ n (f row) ≡ true = ground (arith, t) in
        subst (λ m. IsGreatest f m (row ∷ rows)) (sym e)
          ((own, All-higher (f row) n rows over h.0), rw own refl)
  ]

of_trace_other :
    (id : Bytes) (row : SpanRow) (rows : List SpanRow)
    → row.trace_id ≢ id
    → of_trace id (row ∷ rows) ≡ of_trace id rows
of_trace_other id row rows n = ground (arith, n)

of_trace_own :
    (row : SpanRow) (rows : List SpanRow) (id : Bytes)
    → row.trace_id ≡ id
    → of_trace id (row ∷ rows) ≡ row ∷ of_trace id rows
of_trace_own row rows id p = ground (arith, p)

Spanned-widen :
    (row : SpanRow) (rows : List SpanRow) (g : Group)
    → row.trace_id ≡ g.trace_id
    → Spanned rows g
    → Spanned (row ∷ rows) (widen row g)
Spanned-widen row rows g p s =
    let own = of_trace_own row rows g.trace_id p in
    record {
      earliest =
          rw own (IsLeast-min (λ r. r.start) row g.start (of_trace g.trace_id rows) s.earliest);
      last_end =
          rw own (IsGreatest-max (λ r. r.end) row g.end (of_trace g.trace_id rows) s.last_end);
      last_start =
          rw own
            (IsGreatest-max (λ r. r.start) row g.latest (of_trace g.trace_id rows) s.last_start);
    }

Spanned-other :
    (row : SpanRow) (rows : List SpanRow) (g : Group)
    → row.trace_id ≢ g.trace_id
    → Spanned rows g
    → Spanned (row ∷ rows) g
Spanned-other row rows g n s =
    let other = of_trace_other g.trace_id row rows n in
    record {
      earliest = rw other s.earliest;
      last_end = rw other s.last_end;
      last_start = rw other s.last_start;
    }

Spanned-single :
    (row : SpanRow) (rows : List SpanRow)
    → of_trace row.trace_id rows ≡ []
    → Spanned (row ∷ rows) (single row)
Spanned-single row rows e =
    let own = of_trace_own row rows row.trace_id refl ∙ ap (λ l. row ∷ l) e in
    record {
      earliest = rw own ((ground arith, tt), ground arith);
      last_end = rw own ((ground arith, tt), ground arith);
      last_start = rw own ((ground arith, tt), ground arith);
    }

Spanned-others :
    (row : SpanRow) (rows : List SpanRow) (gs : List Group)
    → entries row.trace_id gs ≡ 0
    → All (Spanned rows) gs
    → All (Spanned (row ∷ rows)) gs
Spanned-others row rows [] e h = tt
Spanned-others row rows (g ∷ gs) e h = elim (Bytes-discrete g.trace_id row.trace_id) [
  | yes p ↦ absurd (ground (arith, e, p))
  | no n ↦ (
    Spanned-other row rows g (λ q. n (sym q)) h.0,
    Spanned-others row rows gs (ground (arith, e, n)) h.1,
  )
]

-- A trace with one entry at most, which has none only if it has no row.
record Single (id : Bytes) (rows : List SpanRow) (gs : List Group) : Type 0 where
  at_most : leb (entries id gs) 1 ≡ true
  without : entries id gs ≡ 0 → of_trace id rows ≡ []

lone :
    (row : SpanRow) (g : Group) (gs : List Group)
    → row.trace_id ≡ g.trace_id
    → leb (entries row.trace_id (g ∷ gs)) 1 ≡ true
    → entries row.trace_id gs ≡ 0
lone row g gs p h = elim (Bytes-discrete g.trace_id row.trace_id) [
  | yes q ↦ ground (arith, h, q)
  | no n ↦ absurd (n (sym p))
]

add_to_groups-Spanned :
    (row : SpanRow) (rows : List SpanRow) (gs : List Group)
    → Single row.trace_id rows gs
    → All (Spanned rows) gs
    → All (Spanned (row ∷ rows)) (add_to_groups row gs)
unfolding add_to_groups
add_to_groups-Spanned row rows [] s h = (Spanned-single row rows (s.without refl), tt)
add_to_groups-Spanned row rows (g ∷ gs) s h = elim (Bytes-discrete row.trace_id g.trace_id) [
  | yes p ↦
      let none_left : entries row.trace_id gs ≡ 0 = lone row g gs p s.at_most in
      rw (if_pos _ p) (Spanned-widen row rows g p h.0, Spanned-others row rows gs none_left h.1)
  | no n ↦
      let skips : entries row.trace_id (g ∷ gs) ≡ entries row.trace_id gs = ground (arith, n) in
      rw (if_neg _ n) (
        Spanned-other row rows g n h.0,
        add_to_groups-Spanned row rows gs
            (record {
              at_most = subst (λ k. leb k 1 ≡ true) skips s.at_most;
              without = λ e. s.without (skips ∙ e);
            })
            h.1,
      )
]

none_of_trace :
    (id : Bytes) (rows : List SpanRow) → has_span rows id ≡ false → of_trace id rows ≡ []
none_of_trace id [] e = refl
none_of_trace id (row ∷ rows) e = elim (Bytes-discrete row.trace_id id) [
  | yes p ↦ absurd (ground (arith, e, p))
  | no n ↦ of_trace_other id row rows n ∙ none_of_trace id rows (ground (arith, e, n))
]

group_by_trace-Single : (id : Bytes) (rows : List SpanRow) → Single id rows (group_by_trace rows)
group_by_trace-Single id rows =
    let counted = entries-group_by_trace id rows in
    elim (Bool-cases (has_span rows id)) [
      | inl t ↦ record {
        at_most = ground (arith, counted, t);
        without = λ e. absurd (ground (arith, counted, t, e));
      }
      | inr f ↦ record {
        at_most = ground (arith, counted, f);
        without = λ e. none_of_trace id rows f;
      }
    ]

-- Each group has the extent of its trace.
pub group_by_trace-Spanned : (rows : List SpanRow) → All (Spanned rows) (group_by_trace rows)
unfolding group_by_trace
group_by_trace-Spanned [] = tt
group_by_trace-Spanned (row ∷ rows) =
    add_to_groups-Spanned row rows (group_by_trace rows) (group_by_trace-Single row.trace_id rows)
      (group_by_trace-Spanned rows)
