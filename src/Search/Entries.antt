-- ===== src/Search/Entries.antt =====
-- How often each trace stands in the groups of `find_ids` of src/store.rs.
use mathlib.Core.Logic.{if_pos, if_neg}
use otelview_postgres.Common.{
  ℕ, zero, suc, ◌≡◌, Bool, true, false, List, [], ◌∷◌, Bytes, any, arith, ◌+◌, refl, sym, ◌∙◌, ◌≢◌,
  if◌then◌else◌, Bytes-discrete,
}
use otelview_postgres.Common.Sorting.{sort, insert_sorted}
use otelview_postgres.Schema.{SpanRow}
use otelview_postgres.Search.{same, Group, add_to_groups, group_by_trace, newest_first}

-- Some of the rows belongs to the trace.
abbrev pub has_span : List SpanRow → Bytes → Bool
has_span rows id = any (λ r. same r.trace_id id) rows

-- How many entries a trace has.
abbrev pub entries : Bytes → List Group → ℕ
entries id [] = 0
entries id (g ∷ gs) = (if same g.trace_id id then 1 else 0) + entries id gs

or_one : ℕ → ℕ
or_one zero = 1
or_one (suc n) = suc n

joins_one :
    (b : Bool) (n : ℕ)
    → (if b then 1 else 0) + n
      ≡ (if b then or_one ((if b then 1 else 0) + n) else (if b then 1 else 0) + n)
unfolding or_one
joins_one true n = ground arith
joins_one false n = refl

passes_by :
    (id : Bytes) (row : SpanRow) (g : Group) (gs : List Group)
    → row.trace_id ≢ g.trace_id
    → entries id (add_to_groups row gs)
      ≡ (if same row.trace_id id then or_one (entries id gs) else entries id gs)
    → (if same g.trace_id id then 1 else 0) + entries id (add_to_groups row gs) ≡ (
        if same row.trace_id id
        then or_one ((if same g.trace_id id then 1 else 0) + entries id gs)
        else (if same g.trace_id id then 1 else 0) + entries id gs)
unfolding or_one
passes_by id row g gs p ih = elim (Bytes-discrete g.trace_id id) [
  | yes q ↦ let apart : row.trace_id ≢ id = λ r. p (r ∙ sym q) in ground (arith, ih, apart)
  | no q ↦ ground (arith, ih)
]

entries-add_to_groups :
    (id : Bytes) (row : SpanRow) (gs : List Group)
    → entries id (add_to_groups row gs)
      ≡ (if same row.trace_id id then or_one (entries id gs) else entries id gs)
unfolding add_to_groups or_one
entries-add_to_groups id row [] = ground arith
entries-add_to_groups id row (g ∷ gs) = elim (Bytes-discrete row.trace_id g.trace_id) [
  | yes p ↦ rw (if_pos _ p, p) (joins_one (same g.trace_id id) (entries id gs))
  | no p ↦ rw (if_neg _ p) (passes_by id row g gs p (entries-add_to_groups id row gs))
]

pub entries-group_by_trace :
    (id : Bytes) (rows : List SpanRow)
    → entries id (group_by_trace rows) ≡ (if has_span rows id then 1 else 0)
unfolding group_by_trace or_one
entries-group_by_trace id [] = refl
entries-group_by_trace id (row ∷ rows) =
    entries-add_to_groups id row (group_by_trace rows)
    ∙ ground (arith, entries-group_by_trace id rows)

entries-insert_sorted :
    (id : Bytes) (g : Group) (gs : List Group)
    → entries id (insert_sorted newest_first g gs) ≡ entries id (g ∷ gs)
entries-insert_sorted id g [] = refl
entries-insert_sorted id g (h ∷ gs) = ground (arith, entries-insert_sorted id g gs)

pub entries-sort :
    (id : Bytes) (gs : List Group) → entries id (sort newest_first gs) ≡ entries id gs
entries-sort id [] = refl
entries-sort id (g ∷ gs) =
    entries-insert_sorted id g (sort newest_first gs) ∙ omega (arith, entries-sort id gs)
