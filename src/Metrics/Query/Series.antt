-- ===== src/Metrics/Query/Series.antt =====
-- The rows that a query of src/metrics.rs returns of its series.
use otelview_postgres.Common.{
  ℕ, zero, suc, ◌≤◌, ◌<◌, ◌≡◌, ◌≢◌, refl, sym, ap, subst, ◌∙◌, Bool, true, false, Option, none,
  some, List, [], ◌∷◌, length, any, All, get_elem?, arith, Bool-cases, inl, inr,
}
use otelview_postgres.HashMap.{Iteration, get, into_values}
use native.Mathlib.Bridge.{le_prop}
use otelview_postgres.HashMap.Rearranged.{any-perm, All-perm, All-prop}
use otelview_postgres.Metrics.Query.Samples.{sample, All-sample, sample-nil}
use otelview_postgres.Metrics.Query.Marks.{mem, mark_series_lem}
use otelview_postgres.Metrics.Query.{
  SeriesKey, SeriesKey-discrete, indices_or_none, group_indices, unmarked, keep_flags,
}
use otelview_postgres.Metrics.Query.Places.{
  positions, Series, indices_of, ite_yes, ite_no, indices_of-group_indices, All-mono,
  Found-group_indices, get_each, positions-At,
}

-- What some value of a map satisfies.
any_found :
    (f : List ℕ → Bool) (k : SeriesKey) (v : List ℕ) (m : Series)
    → get SeriesKey-discrete k m ≡ some v
    → f v ≡ true
    → any f (into_values m) ≡ true
unfolding get
any_found f k v [] e h = absurd (cc)
any_found f k v ((j, w) ∷ m) e h = elim (SeriesKey-discrete k j) [
  | yes p ↦
      let same : w ≡ v =
        ground (arith, sym (ite_yes k j (some w) (get SeriesKey-discrete k m) p) ∙ e) in
      ground (arith, ap f same, h)
  | no n ↦
      let ih : any f (into_values m) ≡ true =
        any_found f k v m (sym (ite_no k j (some w) (get SeriesKey-discrete k m) n) ∙ e) h in
      ground (arith, ih)
]

any_none :
    (f : List ℕ → Bool) (m : Series) → All (λ e. f e.1 ≡ false) m → any f (into_values m) ≡ false
any_none f [] h = refl
any_none f (e ∷ m) h = rw (h.0) (any_none f m h.1)

mem_none : (i : ℕ) (is : List ℕ) → All (λ j. j ≢ i) is → mem i is ≡ false
mem_none i [] h = refl
mem_none i (j ∷ is) h = ground (arith, h.0, mem_none i is h.1)

-- Only the sample of its own series can hold a row.
not_in_others :
    (budget : ℕ) (keys : List SeriesKey) (i : ℕ) (k j : SeriesKey)
    → 1 ≤ budget
    → get_elem? keys i ≡ some k
    → k ≢ j
    → mem i (sample budget (positions j 0 keys)) ≡ false
not_in_others budget keys i k j p e n = mem_none i _ (
    All-sample (λ l. l ≢ i) budget (positions j 0 keys) p
      (positions-At (λ l. l ≢ i) j 0 keys
        (λ l h q. n (
          ground (
            arith,
            e,
            subst (λ t. get_elem? keys t ≡ some j) {x = l} {y = i} (omega (arith, q)) h,
          )))))

All-values : (P : List ℕ → Type 0) (m : Series) → All (λ e. P e.1) m → All P (into_values m)
All-values P [] h = tt
All-values P (e ∷ m) h = (h.0, All-values P m h.1)

elem-within :
    (keys : List SeriesKey) (j : ℕ) (k : SeriesKey) → get_elem? keys j ≡ some k → j < length keys
elem-within [] j k e = absurd (cc)
elem-within (x ∷ keys) zero k e = omega arith
elem-within (x ∷ keys) (suc j) k e = omega (arith, elem-within keys j k e)

module _ (budget : ℕ) (keys : List SeriesKey) where
  all_series : Series
  all_series = group_indices 0 keys []

  indices_of-all_series : (k : SeriesKey) → indices_of k all_series ≡ positions k 0 keys
  unfolding all_series get
  indices_of-all_series k = indices_of-group_indices k 0 keys []

  -- The series are the places of their keys.
  each_series : All (λ e. e.1 ≡ positions e.0 0 keys) all_series
  unfolding all_series
  each_series =
      All-mono (λ e. indices_of e.0 all_series ≡ e.1) (λ e. e.1 ≡ positions e.0 0 keys) all_series
        (λ e h. sym h ∙ indices_of-all_series e.0)
        (get_each all_series all_series (Found-group_indices 0 keys [] tt))

  in_sample :
      (i : ℕ) (k : SeriesKey)
      → 1 ≤ budget
      → get_elem? keys i ≡ some k
      → any (λ v. mem i (sample budget v)) (into_values all_series)
        ≡ mem i (sample budget (positions k 0 keys))
  in_sample i k p e = elim (Bool-cases (mem i (sample budget (positions k 0 keys)))) [
    | inl t ↦ any_of (get SeriesKey-discrete k all_series) refl t ∙ sym t
    | inr t ↦
        any_none (λ v. mem i (sample budget v)) all_series
          (All-mono (λ e. e.1 ≡ positions e.0 0 keys) (λ e. mem i (sample budget e.1) ≡ false)
            all_series (λ e q. rw q (of_entry e.0 t)) each_series)
        ∙ sym t
  ]
    where
      f : List ℕ → Bool
      f v = mem i (sample budget v)

      any_of :
          (o : Option (List ℕ))
          → get SeriesKey-discrete k all_series ≡ o
          → f (positions k 0 keys) ≡ true
          → any f (into_values all_series) ≡ true
      any_of none q t =
          let gone : positions k 0 keys ≡ [] =
            sym (indices_of-all_series k) ∙ ap indices_or_none q in
          absurd (ground (arith, t, ap f gone, sample-nil budget))
      any_of (some v) q t =
          let same : v ≡ positions k 0 keys =
            ap indices_or_none (sym q) ∙ indices_of-all_series k in
          any_found f k v all_series q (ap f same ∙ t)

      of_entry : (j : SeriesKey) → f (positions k 0 keys) ≡ false → f (positions j 0 keys) ≡ false
      of_entry j t = elim (SeriesKey-discrete k j) [
        | yes q ↦ subst (λ l. f (positions l 0 keys) ≡ false) q t
        | no n ↦ not_in_others budget keys i k j p e n
      ]

  -- Every place of the series is that of a row.
  places_in_range : All (λ v. All (λ i. i < length keys) v) (into_values all_series)
  places_in_range = All-values (All (λ i. i < length keys)) all_series (
      All-mono (λ e. e.1 ≡ positions e.0 0 keys) (λ e. All (λ i. i < length keys) e.1) all_series
        (λ e q. subst (All (λ i. i < length keys)) (sym q) (
          positions-At (λ i. i < length keys) e.0 0 keys
            (λ j h. omega (arith, elem-within keys j e.0 h))))
        each_series)

unmarked_lem : (keys : List SeriesKey) → length (unmarked keys) ≡ length keys
unmarked_lem [] = refl
unmarked_lem (k ∷ keys) = ap suc (unmarked_lem keys)

unmarked_at :
    (keys : List SeriesKey) (i : ℕ) (k : SeriesKey)
    → get_elem? keys i ≡ some k
    → get_elem? (unmarked keys) i ≡ some false
unmarked_at [] i k e = absurd (cc)
unmarked_at (j ∷ keys) zero k e = refl
unmarked_at (j ∷ keys) (suc i) k e = unmarked_at keys i k e

-- The flags, for every row.
pub keep_flags_lem :
    (iteration : Iteration (List ℕ)) (budget : ℕ) (keys : List SeriesKey)
    → 1 ≤ budget
    → (flags : List Bool) × (keep_flags iteration budget keys ≡ some flags)
      × (length flags ≡ length keys)
      × ((i : ℕ) (k : SeriesKey)
          → get_elem? keys i ≡ some k
          → get_elem? flags i ≡ some (mem i (sample budget (positions k 0 keys))))
unfolding keep_flags all_series
keep_flags_lem iteration budget keys p =
    let series : List (List ℕ) = into_values (group_indices 0 keys []) in
    let (flags, made, long, at) =
      mark_series_lem budget (iteration.order series) (unmarked keys) p (
        subst (λ n. All (λ v. All (λ j. j < n) v) (iteration.order series))
          (sym (unmarked_lem keys))
          (All-perm (All (λ i. i < length keys))
            (All-prop (λ i. i < length keys) (λ i p q. le_prop p q)) (iteration.rearranges series)
            (places_in_range budget keys))) in
    (
      flags,
      made,
      long ∙ unmarked_lem keys,
      λ i k e.
          let f : List ℕ → Bool = λ v. mem i (sample budget v) in
          at i false (unmarked_at keys i k e)
          ∙ ap some (
              ground
                (arith, any-perm f (iteration.rearranges series), in_sample budget keys i k p e)),
    )

-- With a budget of one point or more, whatever the order in which the series are visited, `find_metrics` does not go out of range, there is a flag for each row, and a
-- row is kept exactly when the sample that `downsample` takes of the places of the rows with the same key holds its place.
pub series_sampled :
    (iteration : Iteration (List ℕ)) (budget : ℕ) (keys : List SeriesKey) (i : ℕ) (k : SeriesKey)
    → 1 ≤ budget
    → get_elem? keys i ≡ some k
    → (flags : List Bool) × (keep_flags iteration budget keys ≡ some flags)
      × (length flags ≡ length keys)
      × (get_elem? flags i ≡ some (mem i (sample budget (positions k 0 keys))))
series_sampled iteration budget keys i k p e =
    let (flags, made, long, at) = keep_flags_lem iteration budget keys p in
    (flags, made, long, at i k e)
