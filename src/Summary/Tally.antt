-- ===== src/Summary/Tally.antt =====
-- The counts of a trace summary.
use otelview_postgres.Common.{
  ℕ, suc, ◌+◌, ◌≤◌, ◌<◌, ◌≡◌, refl, ap, ◌∙◌, Bool, true, false, ite, List, [], ◌∷◌, if◌then◌else◌,
  Str, length, select, arith, Bytes-discrete,
}
use otelview_postgres.Common.Int.{pos}
use otelview_postgres.Common.Sorting.{sort, insert_sorted}
use otelview_postgres.HashMap.{Iteration, insert, get, get-insert}
use otelview_postgres.Search.{StoredSpan}
use otelview_postgres.Summary.{as_i32, by_start, is_error, count_of, count_services, summarize}

abbrev pub of_service : Str → StoredSpan → Bool
of_service name s = ite (Bytes-discrete name s.service_name) true false

-- How many of the spans belong to a service, and how many of these are errors.
abbrev pub spans_of : Str → List StoredSpan → ℕ
spans_of name spans = length (select (of_service name) spans)

abbrev pub errors_of : Str → List StoredSpan → ℕ
errors_of name spans = length (select is_error (select (of_service name) spans))

-- The loop adds to each service's entry its spans and errors.
count_of-count_services :
    (name : Str) (spans : List StoredSpan) (services : List (Str × (ℕ × ℕ)))
    → ((count_of name (count_services spans services)).0
        ≡ (count_of name services).0 + spans_of name spans)
      × ((count_of name (count_services spans services)).1
          ≡ (count_of name services).1 + errors_of name spans)
unfolding count_services
count_of-count_services name [] services = (omega arith, omega arith)
count_of-count_services name (s ∷ spans) services =
    let entry = count_of s.service_name services in
    let value : ℕ × ℕ = (entry.0 + 1, if is_error s then entry.1 + 1 else entry.1) in
    ground (
      arith,
      count_of-count_services name spans (insert Bytes-discrete s.service_name value services),
      get-insert Bytes-discrete s.service_name name value services,
    )

pub length-select-sort :
    (p : StoredSpan → Bool) (spans : List StoredSpan)
    → length (select p (sort by_start spans)) ≡ length (select p spans)
length-select-sort p [] = refl
length-select-sort p (s ∷ spans) =
    length-select-insert s (sort by_start spans) ∙ ground (arith, length-select-sort p spans)
  where
    length-select-insert :
        (x : StoredSpan) (xs : List StoredSpan)
        → length (select p (insert_sorted by_start x xs)) ≡ length (select p (x ∷ xs))
    length-select-insert x [] = refl
    length-select-insert x (y ∷ ys) = ground (arith, length-select-insert x ys)

select-select :
    (p q : StoredSpan → Bool) (spans : List StoredSpan)
    → select p (select q spans) ≡ select (λ s. if q s then p s else false) spans
select-select p q [] = refl
select-select p q (s ∷ spans) = ground (arith, select-select p q spans)

-- The service map of a trace counts, under every name, the spans and the failed spans of that service.
pub services_counted :
    (name : Str) (spans : List StoredSpan)
    → ((count_of name (count_services (sort by_start spans) [])).0 ≡ spans_of name spans)
      × ((count_of name (count_services (sort by_start spans) [])).1 ≡ errors_of name spans)
unfolding get
services_counted name spans =
    let (counted, failed) = count_of-count_services name (sort by_start spans) [] in
    (
      omega (arith, counted, length-select-sort (of_service name) spans),
      omega (
        arith,
        failed,
        ap length (select-select is_error (of_service name) (sort by_start spans)),
        ap length (select-select is_error (of_service name) spans),
        length-select-sort (λ s. if of_service name s then is_error s else false) spans,
      ),
    )

pub length-sort : (spans : List StoredSpan) → length (sort by_start spans) ≡ length spans
length-sort [] = refl
length-sort (s ∷ spans) = ground (arith, length-insert s (sort by_start spans), length-sort spans)
  where
    length-insert :
        (x : StoredSpan) (xs : List StoredSpan)
        → length (insert_sorted by_start x xs) ≡ suc (length xs)
    length-insert x [] = refl
    length-insert x (y ∷ ys) = ground (arith, length-insert x ys)

pub as_i32_small : (n : ℕ) → n < 2147483648 → as_i32 n ≡ pos n
unfolding as_i32
as_i32_small n h = ground arith

pub length-select-le :
    (p : StoredSpan → Bool) (spans : List StoredSpan) → length (select p spans) ≤ length spans
length-select-le p [] = omega arith
length-select-le p (s ∷ spans) = ground (arith, length-select-le p spans)

-- A summary of fewer than 2^31 spans counts all of them and the failed ones, without wrapping.
pub summarize_counts :
    (iteration : Iteration (Str × (ℕ × ℕ))) (spans : List StoredSpan)
    → length spans < 2147483648
    → ((summarize iteration spans).span_count ≡ pos (length spans))
      × ((summarize iteration spans).error_span_count ≡ pos (length (select is_error spans)))
unfolding summarize
summarize_counts iteration spans h = (
  rw (length-sort spans) (as_i32_small (length spans) h),
  rw (length-select-sort is_error spans)
      (as_i32_small _ (omega (arith, length-select-le is_error spans))),
)
