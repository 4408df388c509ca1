-- ===== src/Dependencies.antt =====
-- Service dependencies: `Store::dependencies` of src/store.rs, the join of spans with their parents, counted for each pair of services.
pub mod Counts
use otelview_postgres.Common.{
  ℕ, zero, suc, ◌+◌, Bool, true, false, not, ◌&&◌, List, [], ◌∷◌, ◌++◌, map, leb, if◌then◌else◌,
  Str, select, ok, ite,
}
use otelview_postgres.Common.Chunks.{concat}
use otelview_postgres.Common.Int.{ℤ, leb_ℤ, ltb_ℤ}
use otelview_postgres.Common.Sorting.{sort}
use otelview_postgres.Schema.{SpanRow, Database}
use otelview_postgres.Database.{Db, request}
use otelview_postgres.Search.{same}

-- A row of the answer.
pub record Calls : Type 0 where
  pub parent : Str
  pub child : Str
  pub calls : ℕ

-- `p.trace_id = c.trace_id AND p.span_id = c.parent_span_id`, and the services differ.
abbrev pub calls_into : SpanRow → SpanRow → Bool
calls_into c p =
    same p.trace_id c.trace_id
    && (same p.span_id c.parent_span_id && not (same p.service c.service))

abbrev pub started_within : ℤ → ℤ → SpanRow → Bool
started_within start end c = leb_ℤ start c.start && ltb_ℤ c.start end

-- The joined rows, each as its pair of services.
unfoldable pub joined : ℤ → ℤ → List SpanRow → List (Str × Str)
joined start end spans = concat (
    map
      (λ (c : SpanRow). map (λ (p : SpanRow). (p.service, c.service)) (select (calls_into c) spans))
      (select (started_within start end) spans))

abbrev pub of_pair : Str × Str → Calls → Bool
of_pair k g = same k.0 g.parent && same k.1 g.child

-- `GROUP BY p.service_name, c.service_name` with `COUNT(*)`
unfoldable pub add_call : Str × Str → List Calls → List Calls
add_call k [] = record { parent = k.0; child = k.1; calls = 1 } ∷ []
add_call k (g ∷ gs) =
    let rest = add_call k gs in
    if of_pair k g then record g { calls = g.calls + 1 } ∷ gs else g ∷ rest

unfoldable pub count_calls : List (Str × Str) → List Calls
unfolding add_call
count_calls [] = []
count_calls (k ∷ ks) = add_call k (count_calls ks)

-- ORDER BY calls DESC
abbrev pub busiest_first : Calls → Calls → Bool
busiest_first a b = leb b.calls a.calls

unfoldable pub dependencies : ℤ → ℤ → Db (List Calls)
unfolding joined count_calls
dependencies start end =
    request λ db. ok (sort busiest_first (count_calls (joined start end db.spans)))
