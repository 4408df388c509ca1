-- ===== src/Summary/Extent.antt =====
-- The time that a trace spans, and its orphans.
use otelview_postgres.Common.{
  ℕ, ◌≤◌, ◌<◌, ◌≡◌, refl, ap, ◌∙◌, Bool, true, false, ◌||◌, List, [], ◌∷◌, map, if◌then◌else◌, Str,
  ◌==◌, length, select, any, All, arith, Bytes-discrete, ite, sym,
}
use otelview_postgres.Common.Int.{pos, pos_part}
use otelview_postgres.Common.Sorting.{sort, insert_sorted}
use otelview_postgres.HashMap.{Iteration}
use otelview_postgres.Search.{StoredSpan}
use otelview_postgres.Summary.{by_start, is_orphan, min_or_zero, max_or_zero, summarize}
use otelview_postgres.Summary.Tally.{
  length-select-sort, as_i32_small, length-select-le, length-sort,
}

-- Sorting keeps what holds of every span, in both directions, and what holds of some.
module _ (P : StoredSpan → Type 0) where
  All-insert_sorted_back :
      (x : StoredSpan) (xs : List StoredSpan) → All P (insert_sorted by_start x xs) → P x × All P xs
  All-insert_sorted_back x [] h = h
  All-insert_sorted_back x (y ∷ ys) h =
      by_test (by_start x y) (insert_sorted by_start x ys) h (All-insert_sorted_back x ys)
    where
      by_test :
          (b : Bool) (rest : List StoredSpan)
          → All P (if b then x ∷ y ∷ ys else y ∷ rest)
          → (All P rest → P x × All P ys)
          → P x × (P y × All P ys)
      by_test true rest h k = h
      by_test false rest h k = let (here, others) = k h.1 in (here, (h.0, others))

  All-sort_back : (xs : List StoredSpan) → All P (sort by_start xs) → All P xs
  All-sort_back [] h = tt
  All-sort_back (x ∷ xs) h =
      let (here, rest) = All-insert_sorted_back x (sort by_start xs) h in
      (here, All-sort_back xs rest)

any-insert_sorted :
    (p : StoredSpan → Bool) (x : StoredSpan) (xs : List StoredSpan)
    → any p (insert_sorted by_start x xs) ≡ (p x || any p xs)
any-insert_sorted p x [] = refl
any-insert_sorted p x (y ∷ ys) = ground (arith, any-insert_sorted p x ys)

any-sort : (p : StoredSpan → Bool) (xs : List StoredSpan) → any p (sort by_start xs) ≡ any p xs
any-sort p [] = refl
any-sort p (x ∷ xs) = any-insert_sorted p x (sort by_start xs) ∙ ap (λ b. p x || b) (any-sort p xs)

module _ (f : StoredSpan → ℕ) where
  min_or_zero-lower :
      (xs : List StoredSpan) (low : ℕ) → low ≤ min_or_zero (map f xs) → All (λ s. low ≤ f s) xs
  min_or_zero-lower [] low h = tt
  min_or_zero-lower (x ∷ []) low h = (h, tt)
  min_or_zero-lower (x ∷ y ∷ xs) low h = (omega arith, min_or_zero-lower (y ∷ xs) low (omega arith))

  min_or_zero-reached :
      (x : StoredSpan) (xs : List StoredSpan)
      → any (λ s. min_or_zero (map f (x ∷ xs)) == f s) (x ∷ xs) ≡ true
  min_or_zero-reached x [] = ground arith
  min_or_zero-reached x (y ∷ xs) = ground (arith, min_or_zero-reached y xs)

  min_of_some :
      (xs : List StoredSpan) → 0 < length xs → any (λ s. min_or_zero (map f xs) == f s) xs ≡ true
  min_of_some [] h = absurd (omega arith)
  min_of_some (x ∷ xs) h = min_or_zero-reached x xs

  max_or_zero-upper :
      (xs : List StoredSpan) (high : ℕ) → max_or_zero (map f xs) ≤ high → All (λ s. f s ≤ high) xs
  max_or_zero-upper [] high h = tt
  max_or_zero-upper (x ∷ xs) high h = (omega arith, max_or_zero-upper xs high (omega arith))

  max_or_zero-reached :
      (x : StoredSpan) (xs : List StoredSpan)
      → any (λ s. max_or_zero (map f (x ∷ xs)) == f s) (x ∷ xs) ≡ true
  max_or_zero-reached x [] = ground arith
  max_or_zero-reached x (y ∷ xs) = ground (arith, max_or_zero-reached y xs)

  max_of_some :
      (xs : List StoredSpan) → 0 < length xs → any (λ s. max_or_zero (map f xs) == f s) xs ≡ true
  max_of_some [] h = absurd (omega arith)
  max_of_some (x ∷ xs) h = max_or_zero-reached x xs

-- An orphan of the sorted spans is one of the spans.
is_orphan-sort :
    (spans : List StoredSpan) (xs : List StoredSpan)
    → select (is_orphan (sort by_start spans)) xs ≡ select (is_orphan spans) xs
is_orphan-sort spans [] = refl
is_orphan-sort spans (x ∷ xs) = rw (
  any-sort (λ (t : StoredSpan). ite (Bytes-discrete x.parent_span_id t.span_id) true false) spans,
  is_orphan-sort spans xs,
)

-- A summary of at least one and fewer than 2^31 spans starts with the earliest start of a span and ends with the latest end, times before 1970 taken for
-- zero, and counts the spans whose parent is named but is not among the spans.
pub summarize_extent :
    (iteration : Iteration (Str × (ℕ × ℕ))) (spans : List StoredSpan)
    → 0 < length spans
    → length spans < 2147483648
    → All
        (λ (s : StoredSpan).
          (summarize iteration spans).min_start_time_unix_nano ≤ pos_part s.start)
        spans
      × (any
            (λ (s : StoredSpan).
              (summarize iteration spans).min_start_time_unix_nano == pos_part s.start)
            spans
          ≡ true)
      × All
          (λ (s : StoredSpan). pos_part s.end ≤ (summarize iteration spans).max_end_time_unix_nano)
          spans
      × (any
            (λ (s : StoredSpan).
              (summarize iteration spans).max_end_time_unix_nano == pos_part s.end)
            spans
          ≡ true)
      × ((summarize iteration spans).orphan_span_count
          ≡ pos (length (select (is_orphan spans) spans)))
unfolding summarize
summarize_extent iteration spans some_spans few =
    let sorted = sort by_start spans in
    let start = λ (s : StoredSpan). pos_part s.start in
    let end = λ (s : StoredSpan). pos_part s.end in
    let long : 0 < length sorted = omega (arith, length-sort spans) in
    (
      All-sort_back (λ s. min_or_zero (map start sorted) ≤ start s) spans
          (min_or_zero-lower start sorted (min_or_zero (map start sorted)) (omega arith)),
      sym (any-sort (λ s. min_or_zero (map start sorted) == start s) spans)
          ∙ min_of_some start sorted long,
      All-sort_back (λ s. end s ≤ max_or_zero (map end sorted)) spans
          (max_or_zero-upper end sorted (max_or_zero (map end sorted)) (omega arith)),
      sym (any-sort (λ s. max_or_zero (map end sorted) == end s) spans)
          ∙ max_of_some end sorted long,
      rw (is_orphan-sort spans sorted, length-select-sort (is_orphan spans) spans)
          (as_i32_small _ (omega (arith, length-select-le (is_orphan spans) spans))),
    )
