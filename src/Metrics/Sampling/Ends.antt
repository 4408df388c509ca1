-- ===== src/Metrics/Sampling/Ends.antt =====
-- A sample begins and ends as its series does.
use native.Mathlib.Nat.{div-eq_of_lt}
use mathlib.Core.List.{Sublist, nil-sublist}
use mathlib.Core.List.Sublist
use otelview_postgres.Common.{
  ℕ, zero, suc, ◌+◌, ◌-◌, ◌≤◌, ◌<◌, min, ◌≡◌, refl, sym, ap, ◌∙◌, true, false, Option, none, some,
  List, [], ◌∷◌, map, leb, length, length-map, get_elem?, drop, arith, Bool-cases, inl, inr,
}
use otelview_postgres.HashMap.LastIndex.{index_all}
use otelview_postgres.Metrics.Sampling.{
  range_from, sample_index, downsample, sample_index-less, sample_index-last, sample_index-within,
}

-- Indices that increase from `k` on and stay below a length.
abbrev Increasing : ℕ → ℕ → List ℕ → Type 0
Increasing k len [] = Unit
Increasing k len (i ∷ is) = (k ≤ i) × (i < len) × Increasing (suc i) len is

module _ {A : Type 0} where
  drop-cons :
      (i : ℕ) (xs : List A)
      → i < length xs
      → (x : A) × (get_elem? xs i ≡ some x) × (drop i xs ≡ x ∷ drop (suc i) xs)
  drop-cons i [] h = absurd (omega arith)
  drop-cons zero (x ∷ xs) h = (x, refl, refl)
  drop-cons (suc i) (x ∷ xs) h = drop-cons i xs (omega arith)

  sublist_of_drop :
      (k i : ℕ) (ys xs : List A) → k ≤ i → Sublist ys (drop i xs) → Sublist ys (drop k xs)
  sublist_of_drop zero zero ys xs h s = s
  sublist_of_drop zero (suc i) ys [] h s = s
  sublist_of_drop zero (suc i) ys (x ∷ xs) h s =
      Sublist.cons x (sublist_of_drop zero i ys xs (omega arith) s)
  sublist_of_drop (suc k) zero ys xs h s = absurd (omega arith)
  sublist_of_drop (suc k) (suc i) ys [] h s = s
  sublist_of_drop (suc k) (suc i) ys (x ∷ xs) h s = sublist_of_drop k i ys xs (omega arith) s

  abbrev element_at : List A → Option ℕ → Option A
  element_at xs none = none
  element_at xs (some i) = get_elem? xs i

  element_at-cons :
      (i : ℕ) (is : List ℕ) (xs out : List A) (x : A)
      → get_elem? xs i ≡ some x
      → ((j : ℕ) → get_elem? out j ≡ element_at xs (get_elem? is j))
      → (j : ℕ) → get_elem? (x ∷ out) j ≡ element_at xs (get_elem? (i ∷ is) j)
  element_at-cons i is xs out x h later zero = sym h
  element_at-cons i is xs out x h later (suc j) = later j

  -- What increasing indices pick is a part of the list.
  index_all-Increasing :
      (k : ℕ) (is : List ℕ) (xs : List A)
      → Increasing k (length xs) is
      → (out : List A) × (index_all xs is ≡ some out)
        × (length out ≡ length is)
        × Sublist out (drop k xs)
        × ((j : ℕ) → get_elem? out j ≡ element_at xs (get_elem? is j))
  unfolding index_all
  index_all-Increasing k [] xs h = ([], refl, refl, nil-sublist _, λ j. refl)
  index_all-Increasing k (i ∷ is) xs (low, high, later) =
      let (x, found, split) = drop-cons i xs high in
      let (out, made, long, part, at) = index_all-Increasing (suc i) is xs later in
      (
        x ∷ out,
        rw (found, made),
        ap suc long,
        sublist_of_drop k i (x ∷ out) xs low (rw split (Sublist.cons-cons x part)),
        element_at-cons i is xs out x found at,
      )

-- The indices of the samples from the `i`-th on.
Increasing-samples :
    (len max_points k i n : ℕ)
    → 2 ≤ max_points
    → max_points ≤ len
    → i + n ≡ max_points
    → k ≤ sample_index len max_points i
    → Increasing k len (map (sample_index len max_points) (range_from i n))
Increasing-samples len m k i zero h le e low = tt
Increasing-samples len m k i (suc n) h le e low = (
  low,
  sample_index-within len m i h le (omega arith),
  Increasing-samples len m (suc (sample_index len m i)) (suc i) n h le (omega arith)
      (sample_index-less len m i h le),
)

length-range_from : (i n : ℕ) → length (range_from i n) ≡ n
length-range_from i zero = refl
length-range_from i (suc n) = ap suc (length-range_from (suc i) n)

get_elem?-samples :
    (f : ℕ → ℕ) (i n j : ℕ) → j < n → get_elem? (map f (range_from i n)) j ≡ some (f (i + j))
get_elem?-samples f i zero j h = absurd (omega arith)
get_elem?-samples f i (suc n) zero h = ap (λ k. some (f k)) (omega arith)
get_elem?-samples f i (suc n) (suc j) h =
    get_elem?-samples f (suc i) n j (omega arith) ∙ ap (λ k. some (f k)) (omega arith)

module _ {A : Type 0} where
  pub downsample_short :
      (xs : List A) (m : ℕ) → leb (length xs) m ≡ true → downsample xs m ≡ some xs
  unfolding downsample
  downsample_short xs m e = rw e

  downsample_long :
      (xs : List A) (m : ℕ)
      → leb (length xs) m ≡ false
      → 2 ≤ m
      → downsample xs m ≡ index_all xs (map (sample_index (length xs) m) (range_from 0 m))
  unfolding downsample
  downsample_long xs m e h = ground arith

  sampled :
      (xs : List A) (m : ℕ)
      → 2 ≤ m
      → m ≤ length xs
      → (out : List A) × (index_all xs (map (sample_index (length xs) m) (range_from 0 m))
          ≡ some out)
        × (length out ≡ m)
        × Sublist out xs
        × ((j : ℕ) → j < m → get_elem? out j ≡ get_elem? xs (sample_index (length xs) m j))
  sampled xs m h le =
      let f : ℕ → ℕ = sample_index (length xs) m in
      let (out, made, long, part, at) =
        index_all-Increasing 0 (map f (range_from 0 m)) xs
          (Increasing-samples (length xs) m 0 0 m h le (omega arith) (omega arith)) in
      (
        out,
        made,
        long ∙ length-map f (range_from 0 m) ∙ length-range_from 0 m,
        part,
        λ j lt.
            at j
            ∙ ap (element_at xs)
                (get_elem?-samples f 0 m j lt ∙ ap (λ k. some (f k)) (omega arith)),
      )

  -- With a budget of two points or more `downsample` does not panic, and returns a part of the series, in order, of the length of the series or of the
  -- budget, whichever is less, that begins and ends as the series does.
  pub downsample_keeps_ends :
      (indices : List A) (max_points : ℕ)
      → 2 ≤ max_points
      → (out : List A) × (downsample indices max_points ≡ some out)
        × (length out ≡ min max_points (length indices))
        × Sublist out indices
        × (get_elem? out 0 ≡ get_elem? indices 0)
        × (get_elem? out (length out - 1) ≡ get_elem? indices (length indices - 1))
  downsample_keeps_ends xs m h = elim (Bool-cases (leb (length xs) m)) [
    | inl e ↦ (xs, downsample_short xs m e, ground arith, Sublist.refl xs, refl, refl)
    | inr e ↦
        let (out, made, long, part, at) = sampled xs m h (ground arith) in
        (
          out,
          downsample_long xs m e h ∙ made,
          ground (arith, long),
          part,
          at 0 (omega arith)
              ∙ ap (get_elem? xs) (omega (arith, div-eq_of_lt {n = 0} {m = m - 1} (omega arith))),
          ap (get_elem? out) (ap (λ k. k - 1) long)
              ∙ at (m - 1) (omega arith)
              ∙ ap (get_elem? xs) (sample_index-last (length xs) m h),
        )
  ]
