-- ===== src/Summary.antt =====
-- Trace summaries: `summaries` and `summarize` of src/store.rs. Counters are 32-bit and wrap in a release build, so a count is
-- taken as a number and cut to `i32` where it is stored.
pub mod Tally
pub mod Extent
use otelview_postgres.Common.{
  ℕ, zero, suc, ◌+◌, ◌-◌, ◌%◌, ◌^◌, min, max, Bool, true, false, not, ◌&&◌, Option, none, some, ite,
  List, [], ◌∷◌, ◌++◌, map, leb, ltb, ◌==◌, if◌then◌else◌, Bytes, Str, is_empty, length, select,
  any, Bytes-discrete,
}
use otelview_postgres.Common.Int.{ℤ, pos, negsuc, pos_part, leb_ℤ, ℤ-discrete}
use otelview_postgres.Common.Sorting.{sort}
use otelview_postgres.HashMap.{Iteration, insert, get, into_values}
use otelview_postgres.Search.{StoredSpan}

unfoldable pub as_i32 : ℕ → ℤ
as_i32 n =
    let bits = n % 2 ^ 32 in if ltb bits 2147483648 then pos bits else negsuc (4294967295 - bits)

pub record ServiceSummary : Type 0 where
  pub name : Str
  pub span_count : ℤ
  pub error_span_count : ℤ

pub record TraceSummary : Type 0 where
  pub trace_id : Bytes
  pub root_service_name : Str
  pub root_operation_name : Str
  pub min_start_time_unix_nano : ℕ
  pub max_end_time_unix_nano : ℕ
  pub span_count : ℤ
  pub error_span_count : ℤ
  pub orphan_span_count : ℤ
  pub services : List ServiceSummary

abbrev pub by_start : StoredSpan → StoredSpan → Bool
by_start a b = leb_ℤ a.start b.start

abbrev pub is_error : StoredSpan → Bool
is_error s = ite (ℤ-discrete s.status_code (pos 2)) true false

abbrev pub is_root : StoredSpan → Bool
is_root s = is_empty s.parent_span_id

abbrev pub is_orphan : List StoredSpan → StoredSpan → Bool
is_orphan spans s =
    not (is_root s)
    && not
        (any (λ (t : StoredSpan). ite (Bytes-discrete s.parent_span_id t.span_id) true false) spans)

abbrev pub find_root : List StoredSpan → Option StoredSpan
find_root [] = none
find_root (s ∷ spans) = let rest = find_root spans in if is_root s then some s else rest

abbrev or_zero : Option (ℕ × ℕ) → ℕ × ℕ
or_zero none = (0, 0)
or_zero (some c) = c

abbrev pub count_of : Str → List (Str × (ℕ × ℕ)) → ℕ × ℕ
count_of name services = or_zero (get Bytes-discrete name services)

-- The loop over `services.entry(name).or_default()`: spans and errors of each service.
unfoldable pub count_services : List StoredSpan → List (Str × (ℕ × ℕ)) → List (Str × (ℕ × ℕ))
count_services [] services = services
count_services (s ∷ spans) services =
    let entry = count_of s.service_name services in
    count_services spans (
      insert Bytes-discrete s.service_name
        (entry.0 + 1, if is_error s then entry.1 + 1 else entry.1) services)

abbrev pub min_or_zero : List ℕ → ℕ
min_or_zero [] = 0
min_or_zero (n ∷ []) = n
min_or_zero (n ∷ m ∷ ns) = min n (min_or_zero (m ∷ ns))

abbrev pub max_or_zero : List ℕ → ℕ
max_or_zero [] = 0
max_or_zero (n ∷ ns) = max n (max_or_zero ns)

abbrev name_of : Option StoredSpan → (StoredSpan → Str) → Str
name_of none f = []
name_of (some s) f = f s

abbrev first_id : List StoredSpan → Bytes
first_id [] = []
first_id (s ∷ spans) = s.trace_id

unfoldable pub summarize : Iteration (Str × (ℕ × ℕ)) → List StoredSpan → TraceSummary
unfolding count_services as_i32
summarize iteration unsorted =
    let spans = sort by_start unsorted in
    let root = find_root spans in
    record {
      trace_id = first_id spans;
      root_service_name = name_of root (λ s. s.service_name);
      root_operation_name = name_of root (λ s. s.operation_name);
      min_start_time_unix_nano = min_or_zero (map (λ (s : StoredSpan). pos_part s.start) spans);
      max_end_time_unix_nano = max_or_zero (map (λ (s : StoredSpan). pos_part s.end) spans);
      span_count = as_i32 (length spans);
      error_span_count = as_i32 (length (select is_error spans));
      orphan_span_count = as_i32 (length (select (is_orphan spans) spans));
      services =
          map
            (λ (e : Str × (ℕ × ℕ)). record {
              name = e.0;
              span_count = as_i32 e.1.0;
              error_span_count = as_i32 e.1.1;
            })
            (iteration.order (count_services spans []));
    }

abbrev spans_or_none : Option (List StoredSpan) → List StoredSpan
spans_or_none none = []
spans_or_none (some spans) = spans

-- The loop over `traces.entry(trace_id).or_default().push(span)`
unfoldable pub by_trace :
    List StoredSpan → List (Bytes × List StoredSpan) → List (Bytes × List StoredSpan)
by_trace [] traces = traces
by_trace (s ∷ spans) traces = by_trace spans (
    insert Bytes-discrete s.trace_id
      (spans_or_none (get Bytes-discrete s.trace_id traces) ++ s ∷ []) traces)

unfoldable pub summaries :
    Iteration (List StoredSpan) → Iteration (Str × (ℕ × ℕ)) → List StoredSpan → List TraceSummary
unfolding by_trace summarize
summaries traces services spans =
    map (summarize services) (traces.order (into_values (by_trace spans [])))
