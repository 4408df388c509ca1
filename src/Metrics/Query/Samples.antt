-- ===== src/Metrics/Query/Samples.antt =====
-- What `downsample` of src/metrics.rs takes of a series.
use otelview_postgres.Common.{
  ℕ, zero, suc, ◌+◌, ◌-◌, ◌≤◌, ◌<◌, ◌⊎◌, ◌≡◌, refl, sym, ◌∙◌, ◌||◌, Option, none, some, List, [],
  ◌∷◌, map, length, All, leb, ◌==◌, get_elem?, arith, Bool-cases, inl, inr, subst,
}
use otelview_postgres.HashMap.LastIndex.{push, index_all}
use otelview_postgres.Metrics.Sampling.{downsample, sample_index, range_from}
use otelview_postgres.Metrics.Sampling.Ends.{downsample_keeps_ends}

unfoldable pub or_none : Option (List ℕ) → List ℕ
or_none none = []
or_none (some is) = is

-- The sample of one series.
unfoldable pub sample : ℕ → List ℕ → List ℕ
unfolding or_none
sample budget indices = or_none (downsample indices budget)

module _ (P : ℕ → Type 0) where
  All-get_elem? : (xs : List ℕ) (i x : ℕ) → All P xs → get_elem? xs i ≡ some x → P x
  All-get_elem? [] i x h e = absurd (cc)
  All-get_elem? (y ∷ ys) zero x h e = subst P (cc) h.0
  All-get_elem? (y ∷ ys) (suc i) x h e = All-get_elem? ys i x h.1 e

  All-push :
      (x : Option ℕ) (rest : Option (List ℕ)) (out : List ℕ)
      → ((y : ℕ) → x ≡ some y → P y)
      → ((ys : List ℕ) → rest ≡ some ys → All P ys)
      → push x rest ≡ some out
      → All P out
  All-push (some x) (some xs) [] here later e = tt
  All-push (some x) (some xs) (y ∷ ys) here later e =
      (subst P (cc) (here x refl), subst (All P) (cc) (later xs refl))
  All-push (some x) none out here later e = absurd (cc)
  All-push none rest out here later e = absurd (cc)

  All-index_all : (xs is out : List ℕ) → All P xs → index_all xs is ≡ some out → All P out
  unfolding index_all
  All-index_all xs [] [] h e = tt
  All-index_all xs [] (y ∷ ys) h e = absurd (cc)
  All-index_all xs (i ∷ is) out h e =
      All-push (get_elem? xs i) (index_all xs is) out (λ y. All-get_elem? xs i y h)
        (λ ys. All-index_all xs is ys h) e

downsample-cases :
    (indices : List ℕ) (budget : ℕ)
    → (downsample indices budget ≡ some indices)
      ⊎ ((is : List ℕ) × (downsample indices budget ≡ index_all indices is))
unfolding downsample
downsample-cases indices budget = elim (Bool-cases (leb (length indices) budget || (budget == 0))) [
  | inl e ↦ inl (rw e)
  | inr e ↦ elim (Bool-cases (budget == 1)) [
    | inl q ↦ inr ((length indices - 1) ∷ [], rw (e, q))
    | inr q ↦ inr (map (sample_index (length indices) budget) (range_from 0 budget), rw (e, q))
  ]
]

-- All of a sample is of the series.
pub All-downsample :
    (P : ℕ → Type 0) (indices out : List ℕ) (budget : ℕ)
    → All P indices
    → downsample indices budget ≡ some out
    → All P out
unfolding or_none
All-downsample P indices out budget h e = elim (downsample-cases indices budget) [
  | inl q ↦ subst {A = Option (List ℕ)} (λ o. All P (or_none o)) (sym q ∙ e) h
  | inr (is, q) ↦ All-index_all P indices is out h (sym q ∙ e)
]

elem_at : (xs : List ℕ) (i : ℕ) → i < length xs → (x : ℕ) × (get_elem? xs i ≡ some x)
elem_at [] i h = absurd (omega arith)
elem_at (x ∷ xs) zero h = (x, refl)
elem_at (x ∷ xs) (suc i) h = elem_at xs i (omega arith)

downsample_one : (indices : List ℕ) → (out : List ℕ) × (downsample indices 1 ≡ some out)
unfolding downsample index_all
downsample_one [] = ([], refl)
downsample_one (x ∷ []) = (x ∷ [], refl)
downsample_one (x ∷ y ∷ xs) =
    let (z, found) = elem_at (x ∷ y ∷ xs) (length xs + 1) (omega arith) in
    (z ∷ [], ground (arith, found))

pub downsample-total :
    (indices : List ℕ) (budget : ℕ)
    → 1 ≤ budget
    → (out : List ℕ) × (downsample indices budget ≡ some out)
downsample-total indices zero h = absurd (omega arith)
downsample-total indices (suc zero) h = downsample_one indices
downsample-total indices (suc (suc n)) h =
    let (out, made, rest, part, first, last) =
      downsample_keeps_ends indices (suc (suc n)) (omega arith) in
    (out, made)

pub All-sample :
    (P : ℕ → Type 0) (budget : ℕ) (indices : List ℕ)
    → 1 ≤ budget
    → All P indices
    → All P (sample budget indices)
unfolding sample or_none
All-sample P budget indices h all =
    let (out, made) = downsample-total indices budget h in
    rw made (All-downsample P indices out budget all made)

pub sample-nil : (budget : ℕ) → sample budget [] ≡ []
unfolding sample or_none downsample
sample-nil budget = ground arith
