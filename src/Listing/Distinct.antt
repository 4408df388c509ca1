-- ===== src/Listing/Distinct.antt =====
-- The scan lists every value of the column once, in order.
use otelview_postgres.Common.{
  ℕ, zero, suc, ◌<◌, ◌≡◌, refl, sym, ap, Bool, true, false, ◌||◌, Option, none, some, List, [], ◌∷◌,
  Str, length, length-select-le, any, All, arith, Bool-cases, inl, inr,
}
use otelview_postgres.Listing.{Collation, least, above, walk, distinct_values}
use otelview_postgres.Listing.Least.{
  same, Ascending, Least, Next, All-any, or_true, next_or_above, start_or_above, nothing_least,
  least_lem, next_lem, sort-Ascending,
}

module _ (collation : Collation) where
  walk-none : (rounds : ℕ) (column : List Str) → walk collation rounds column none ≡ []
  unfolding walk
  walk-none zero column = refl
  walk-none (suc rounds) column = refl

  module _ (column : List Str) where
    InColumn : Str → Type 0
    InColumn s = any (same s) column ≡ true

    after_next :
        (rounds : ℕ) (v : Str)
        → InColumn v
        → (next : Option Str) → least collation (above collation v column) ≡ next
        → ((w : Str)
            → InColumn w
            → Ascending collation (walk collation rounds column (some w))
              × ((low : Str)
                  → collation.lt low w ≡ true
                  → All (λ s. collation.lt low s ≡ true) (walk collation rounds column (some w)))
              × All InColumn (walk collation rounds column (some w)))
        → Ascending collation (v ∷ walk collation rounds column next)
          × ((low : Str)
              → collation.lt low v ≡ true
              → All (λ s. collation.lt low s ≡ true) (v ∷ walk collation rounds column next))
          × All InColumn (v ∷ walk collation rounds column next)
    unfolding InColumn Next
    after_next rounds v h none e ih =
        rw (walk-none rounds column) ((tt, tt), λ low l. (l, tt), (h, tt))
    after_next rounds v h (some w) e ih =
        let (low_w, there, _) = next_lem collation v w column e in
        let (ascending, above_all, within) = ih w there in
        (
          (above_all v low_w, ascending),
          λ low l. (l, above_all low (collation.transitive low v w l low_w)),
          (h, within),
        )

    -- The walk from `v` or from nothing: its values lie above `low`, in order, and belong to the column.
    walk_ascends :
        (rounds : ℕ) (v : Str)
        → InColumn v
        → Ascending collation (walk collation rounds column (some v))
          × ((low : Str)
              → collation.lt low v ≡ true
              → All (λ s. collation.lt low s ≡ true) (walk collation rounds column (some v)))
          × All InColumn (walk collation rounds column (some v))
    unfolding walk
    walk_ascends zero v h = (tt, λ low l. tt, tt)
    walk_ascends (suc rounds) v h =
        after_next rounds v h (least collation (above collation v column)) refl
          (walk_ascends rounds)

    covers_next :
        (rounds : ℕ) (v s : Str)
        → length (above collation v column) < suc rounds
        → (same s v || any (same s) (above collation v column)) ≡ true
        → (next : Option Str) → least collation (above collation v column) ≡ next
        → ((w : Str)
            → length (above collation w column) < rounds
            → (same s w || any (same s) (above collation w column)) ≡ true
            → any (same s) (walk collation rounds column (some w)) ≡ true)
        → (same s v || any (same s) (walk collation rounds column next)) ≡ true
    unfolding Next Least
    covers_next rounds v s h k none e ih =
        let nothing : any (same s) (above collation v column) ≡ false =
          ap (any (same s)) (nothing_least collation (above collation v column) e) in
        ground (arith, nothing, k)
    covers_next rounds v s h k (some w) e ih =
        let (low, there, fewer) = next_lem collation v w column e in
        elim (Bool-cases (any (same s) (above collation v column))) [
          | inl a ↦ or_true collation (same s v) _ (
              ih w (omega (arith, fewer)) (
                next_or_above collation s v w column
                  (least_lem collation (above collation v column) w e).1 a))
          | inr a ↦ ground (arith, a, k)
        ]

    walk_covers :
        (rounds : ℕ) (v s : Str)
        → length (above collation v column) < rounds
        → (same s v || any (same s) (above collation v column)) ≡ true
        → any (same s) (walk collation rounds column (some v)) ≡ true
    unfolding walk
    walk_covers zero v s h k = absurd (omega arith)
    walk_covers (suc rounds) v s h k =
        covers_next rounds v s h k (least collation (above collation v column)) refl
          (λ w. walk_covers rounds w s)

  same_truth : (a b : Bool) → (a ≡ true → b ≡ true) → (b ≡ true → a ≡ true) → a ≡ b
  same_truth true b f g = sym (f refl)
  same_truth false true f g = g refl
  same_truth false false f g = refl

  -- A walk of the whole column.
  walk_whole :
      (column : List Str) (s : Str) (first : Option Str)
      → least collation column ≡ first
      → Ascending collation (walk collation (suc (length column)) column first)
        × (any (same s) (walk collation (suc (length column)) column first) ≡ any (same s) column)
  unfolding Least InColumn
  walk_whole column s none e =
      rw (nothing_least collation column e) (rw (walk-none 1 []) (tt, refl))
  walk_whole column s (some w) e =
      let rounds : ℕ = suc (length column) in
      let (there, low) = least_lem collation column w e in
      let (ascending, _, within) = walk_ascends column rounds w there in
      (
        ascending,
        same_truth _ _
            (All-any collation (InColumn column) s (walk collation rounds column (some w)) within)
            (λ h.
              walk_covers column rounds w s
                (omega (arith, length-select-le (collation.lt w) column))
                (start_or_above collation s w column low h)),
      )

  -- The listing of a column is in order without repetition, and holds a text exactly if the column does.
  pub distinct_values_lem :
      (column : List Str) (s : Str)
      → Ascending collation (distinct_values collation column)
        × (any (same s) (distinct_values collation column) ≡ any (same s) column)
  unfolding distinct_values
  distinct_values_lem column s =
      let (ascending, holds) = walk_whole column s (least collation column) refl in
      rw
        (sort-Ascending collation
          (walk collation (suc (length column)) column (least collation column)) ascending)
        (ascending, holds)
