-- ===== src/Metrics/Query/Parts.antt =====
-- What each stage of `find_metrics` of src/metrics.rs leaves out, and when nothing.
use mathlib.Core.List.{Sublist, nil-sublist}
use mathlib.Core.List.Sublist
use otelview_postgres.Common.{
  ℕ, zero, suc, ◌+◌, ◌≤◌, ◌≡◌, refl, ap, subst, inl, inr, Bool, true, false, some, List, [], ◌∷◌,
  map, length, length-select-le, select, take, get_elem?, arith, Bool-cases,
}
use otelview_postgres.Json.{Json}
use otelview_postgres.Schema.{MetricRow}
use otelview_postgres.Metrics.Sampling.Ends.{downsample_short}
use otelview_postgres.Metrics.Query.{survives, one_series, thin, SeriesKey, kept}
use otelview_postgres.Metrics.Query.Places.{positions}
use otelview_postgres.Metrics.Query.Marks.{mem}
use otelview_postgres.Metrics.Query.Samples.{or_none, sample}

module _ {A : Type 0} where
  pub take_whole : (n : ℕ) (xs : List A) → length xs ≤ n → take n xs ≡ xs
  take_whole zero [] h = refl
  take_whole (suc n) [] h = refl
  take_whole zero (x ∷ xs) h = absurd (omega arith)
  take_whole (suc n) (x ∷ xs) h = ap (◌∷◌ x) (take_whole n xs (omega arith))

  pub take_part : (n : ℕ) (xs : List A) → Sublist (take n xs) xs
  take_part zero xs = nil-sublist xs
  take_part (suc n) [] = nil-sublist []
  take_part (suc n) (x ∷ xs) = Sublist.cons-cons x (take_part n xs)

  pub kept_part : (xs : List A) (keep : List Bool) → Sublist (kept xs keep) xs
  kept_part [] keep = nil-sublist []
  kept_part (x ∷ xs) [] = nil-sublist (x ∷ xs)
  kept_part (x ∷ xs) (true ∷ keep) = Sublist.cons-cons x (kept_part xs keep)
  kept_part (x ∷ xs) (false ∷ keep) = Sublist.cons x (kept_part xs keep)

  pub kept_whole :
      (xs : List A) (keep : List Bool)
      → length keep ≡ length xs
      → ((i : ℕ) (x : A) → get_elem? xs i ≡ some x → get_elem? keep i ≡ some true)
      → kept xs keep ≡ xs
  kept_whole [] keep h k = refl
  kept_whole (x ∷ xs) [] h k = absurd (omega arith)
  kept_whole (x ∷ xs) (b ∷ keep) h k =
      ground (arith, k 0 x refl, kept_whole xs keep (omega arith) (λ i y e. k (suc i) y e))

pub kept-map :
    {A B : Type 0} (f : A → B) (xs : List A) (keep : List Bool)
    → kept (map f xs) keep ≡ map f (kept xs keep)
kept-map f [] keep = refl
kept-map f (x ∷ xs) [] = refl
kept-map f (x ∷ xs) (true ∷ keep) = ap (◌∷◌ (f x)) (kept-map f xs keep)
kept-map f (x ∷ xs) (false ∷ keep) = kept-map f xs keep

module _ (jsonb_eq : Json → Json → Bool) where
  pub thin_part :
      (budget : ℕ) (all earlier rows : List MetricRow)
      → Sublist (thin jsonb_eq budget all earlier rows) rows
  unfolding thin
  thin_part budget all earlier [] = nil-sublist []
  thin_part budget all earlier (r ∷ rows) =
      elim (Bool-cases (
        survives budget (length (select (one_series jsonb_eq r) earlier) + 1)
          (length (select (one_series jsonb_eq r) all)))) [
            | inl e ↦ rw e (Sublist.cons-cons r (thin_part budget all (r ∷ earlier) rows))
            | inr e ↦ rw e (Sublist.cons r (thin_part budget all (r ∷ earlier) rows))
          ]

  pub thin_whole :
      (budget : ℕ) (all earlier rows : List MetricRow)
      → length all ≤ budget
      → thin jsonb_eq budget all earlier rows ≡ rows
  unfolding thin survives
  thin_whole budget all earlier [] h = refl
  thin_whole budget all earlier (r ∷ rows) h = ground (
    arith,
    thin_whole budget all (r ∷ earlier) rows h,
    length-select-le (one_series jsonb_eq r) all,
  )

pub length-positions :
    (k : SeriesKey) (i : ℕ) (keys : List SeriesKey) → length (positions k i keys) ≤ length keys
length-positions k i [] = omega arith
length-positions k i (j ∷ keys) = ground (arith, length-positions k (suc i) keys)

pub mem-positions :
    (k : SeriesKey) (from i : ℕ) (keys : List SeriesKey)
    → get_elem? keys i ≡ some k
    → mem (from + i) (positions k from keys) ≡ true
mem-positions k from i [] e = absurd (cc)
mem-positions k from zero (j ∷ keys) e = ground (arith, e)
mem-positions k from (suc i) (j ∷ keys) e =
    let ih : mem (from + suc i) (positions k (suc from) keys) ≡ true =
      subst (λ n. mem n (positions k (suc from) keys) ≡ true) {x = suc from + i} {y = from + suc i}
        (omega arith) (mem-positions k (suc from) i keys e) in
    ground (arith, ih)

-- A series within the budget is its own sample.
pub sample_whole : (budget : ℕ) (v : List ℕ) → length v ≤ budget → sample budget v ≡ v
unfolding sample or_none
sample_whole budget v h = rw (downsample_short v budget (ground (arith, h)))
