-- ===== src/Metrics/Query/Marks.antt =====
-- The flags that a query sets: those of the samples of its series.
use otelview_postgres.Common.{
  ℕ, zero, suc, ◌≤◌, ◌<◌, ◌≡◌, refl, sym, ap, ◌∙◌, Bool, true, ◌||◌, Option, none, some, List, [],
  ◌∷◌, length, any, All, ◌==◌, get_elem?, arith, subst,
}
use otelview_postgres.Metrics.Sampling.{downsample}
use otelview_postgres.Metrics.Query.{mark, mark_all, mark_series}
use otelview_postgres.Metrics.Query.Samples.{or_none, sample, All-downsample, downsample-total}

abbrev pub mem : ℕ → List ℕ → Bool
mem i = any (λ j. i == j)

mark_lem :
    (i : ℕ) (keep : List Bool)
    → i < length keep
    → (out : List Bool) × (mark i keep ≡ some out)
      × (length out ≡ length keep)
      × ((j : ℕ) (b : Bool) → get_elem? keep j ≡ some b → get_elem? out j ≡ some ((j == i) || b))
mark_lem i [] h = absurd (omega arith)
mark_lem zero (b ∷ keep) h = (true ∷ keep, refl, refl, at)
  where
    at :
        (j : ℕ) (c : Bool)
        → get_elem? (b ∷ keep) j ≡ some c
        → get_elem? (true ∷ keep) j ≡ some ((j == 0) || c)
    at zero c e = refl
    at (suc j) c e = ground (arith, e)
mark_lem (suc i) (b ∷ keep) h =
    let (out, made, long, later) = mark_lem i keep (omega arith) in
    (b ∷ out, rw made, ap suc long, at out later)
  where
    at :
        (out : List Bool)
        → ((j : ℕ) (c : Bool) → get_elem? keep j ≡ some c → get_elem? out j ≡ some ((j == i) || c))
        → (j : ℕ) (c : Bool) → get_elem? (b ∷ keep) j ≡ some c
        → get_elem? (b ∷ out) j ≡ some ((j == suc i) || c)
    at out later zero c e = ground (arith, e)
    at out later (suc j) c e = ground (arith, later j c e)

-- Flags of the same length, where those of some indices are set and the others are as they were.
abbrev pub Sets : (ℕ → Bool) → List Bool → Option (List Bool) → Type 0
Sets set keep out =
    (flags : List Bool) × (out ≡ some flags)
    × (length flags ≡ length keep)
    × ((j : ℕ) (b : Bool) → get_elem? keep j ≡ some b → get_elem? flags j ≡ some (set j || b))

or_swap : (a b c : Bool) → (b || (a || c)) ≡ ((a || b) || c)
or_swap a b c = ground arith

mark_all_step :
    (i : ℕ) (is : List ℕ) (keep out : List Bool)
    → mark i keep ≡ some out
    → mark_all (i ∷ is) keep ≡ mark_all is out
unfolding mark_all
mark_all_step i is keep out e =
    ap
      (λ (o : Option (List Bool)). elim o as (λ o. Option (List Bool)) [
        | none ↦ none
        | some keep' ↦ mark_all is keep'
      ])
      e

mark_series_step :
    (budget : ℕ) (v taken : List ℕ) (series : List (List ℕ)) (keep out : List Bool)
    → downsample v budget ≡ some taken
    → mark_all taken keep ≡ some out
    → mark_series budget (v ∷ series) keep ≡ mark_series budget series out
unfolding mark_series
mark_series_step budget v taken series keep out d e =
    ap
      (λ (o : Option (List ℕ)). elim o as (λ o. Option (List Bool)) [
        | none ↦ none
        | some taken ↦ elim (mark_all taken keep) as (λ o. Option (List Bool)) [
          | none ↦ none
          | some keep' ↦ mark_series budget series keep'
        ]
      ])
      d
    ∙ ap
        (λ (o : Option (List Bool)). elim o as (λ o. Option (List Bool)) [
          | none ↦ none
          | some keep' ↦ mark_series budget series keep'
        ])
        e

mark_all_lem :
    (is : List ℕ) (keep : List Bool)
    → All (λ i. i < length keep) is
    → Sets (λ j. mem j is) keep (mark_all is keep)
unfolding mark_all
mark_all_lem [] keep h = (keep, refl, refl, λ j b e. e)
mark_all_lem (i ∷ is) keep h =
    let (out, made, long, at) = mark_lem i keep h.0 in
    let (flags, rest, same, later) =
      mark_all_lem is out (subst (λ n. All (λ k. k < n) is) (sym long) h.1) in
    (
      flags,
      mark_all_step i is keep out made ∙ rest,
      same ∙ long,
      λ j b e. later j ((j == i) || b) (at j b e) ∙ ap some (or_swap (j == i) (mem j is) b),
    )

or_assoc_swap : (a b c : Bool) → (a || (b || c)) ≡ ((b || a) || c)
or_assoc_swap a b c = ground arith

-- The samples of all the series are marked, and no index is out of range.
pub mark_series_lem :
    (budget : ℕ) (series : List (List ℕ)) (keep : List Bool)
    → 1 ≤ budget
    → All (λ v. All (λ i. i < length keep) v) series
    → Sets (λ j. any (λ v. mem j (sample budget v)) series) keep (mark_series budget series keep)
unfolding mark_series sample or_none
mark_series_lem budget [] keep p h = (keep, refl, refl, λ j b e. e)
mark_series_lem budget (v ∷ series) keep p h =
    let (taken, made) = downsample-total v budget p in
    let (out, marked, long, at) =
      mark_all_lem taken keep (All-downsample (λ i. i < length keep) v taken budget h.0 made) in
    let (flags, rest, same, later) =
      mark_series_lem budget series out p
        (subst (λ n. All (λ v. All (λ k. k < n) v) series) (sym long) h.1) in
    (
      flags,
      mark_series_step budget v taken series keep out made marked ∙ rest,
      same ∙ long,
      λ j b e.
          later j (mem j taken || b) (at j b e)
          ∙ ap some
              (or_assoc_swap (any (λ v. mem j (sample budget v)) series) (mem j taken) b ∙ rw made),
    )
