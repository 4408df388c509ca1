-- ===== src/Common/Sorted.antt =====
-- Sorting leaves a list in order, and loses nothing.
use otelview_postgres.Common.{
  ℕ, zero, suc, ◌≡◌, Bool, true, false, List, [], ◌∷◌, All, take, Bool-cases, inl, inr,
}
use otelview_postgres.Common.Sorting.{insert_sorted, sort}
use mathlib.Core.List.{Perm}
use mathlib.Core.List.Perm

module _ {A : Type 0} (P : A → Type 0) where
  pub All-insert_sorted :
      (before : A → A → Bool) (x : A) (xs : List A)
      → P x
      → All P xs
      → All P (insert_sorted before x xs)
  All-insert_sorted before x [] h k = (h, tt)
  All-insert_sorted before x (y ∷ ys) h k = elim (Bool-cases (before x y)) [
    | inl e ↦ rw e (h, k)
    | inr e ↦ rw e (k.0, All-insert_sorted before x ys h k.1)
  ]

  pub All-sort : (before : A → A → Bool) (xs : List A) → All P xs → All P (sort before xs)
  All-sort before [] h = tt
  All-sort before (x ∷ xs) h =
      All-insert_sorted before x (sort before xs) h.0 (All-sort before xs h.1)

  pub All-take : (n : ℕ) (xs : List A) → All P xs → All P (take n xs)
  All-take zero xs h = tt
  All-take (suc n) [] h = tt
  All-take (suc n) (x ∷ xs) h = (h.0, All-take n xs h.1)

module _ {A : Type 0} (before : A → A → Bool) where
  -- No element comes after one that should follow it.
  abbrev pub IsSorted : List A → Type 0
  IsSorted [] = Unit
  IsSorted (x ∷ xs) = All (λ y. before x y ≡ true) xs × IsSorted xs

  insert_sorted-Perm : (x : A) (xs : List A) → Perm (insert_sorted before x xs) (x ∷ xs)
  insert_sorted-Perm x [] = Perm.refl _
  insert_sorted-Perm x (y ∷ ys) = elim (Bool-cases (before x y)) [
    | inl e ↦ rw e (Perm.refl _)
    | inr e ↦ rw e (Perm.trans (Perm.cons y (insert_sorted-Perm x ys)) (Perm.swap x y ys))
  ]

  pub sort-Perm : (xs : List A) → Perm (sort before xs) xs
  sort-Perm [] = Perm.refl _
  sort-Perm (x ∷ xs) =
      Perm.trans (insert_sorted-Perm x (sort before xs)) (Perm.cons x (sort-Perm xs))

  module _ (total_order : (x y : A) → before x y ≡ false → before y x ≡ true)
      (after : (x y z : A) → before x y ≡ true → before y z ≡ true → before x z ≡ true) where
    All-after :
        (x y : A) (zs : List A)
        → before x y ≡ true
        → All (λ z. before y z ≡ true) zs
        → All (λ z. before x z ≡ true) zs
    All-after x y [] h k = tt
    All-after x y (z ∷ zs) h k = (after x y z h k.0, All-after x y zs h k.1)

    insert_sorted-IsSorted :
        (x : A) (xs : List A) → IsSorted xs → IsSorted (insert_sorted before x xs)
    insert_sorted-IsSorted x [] h = (tt, tt)
    insert_sorted-IsSorted x (y ∷ ys) h = elim (Bool-cases (before x y)) [
      | inl e ↦ rw e ((e, All-after x y ys e h.0), h)
      | inr e ↦ rw e (
        All-insert_sorted (λ z. before y z ≡ true) before x ys (total_order x y e) h.0,
        insert_sorted-IsSorted x ys h.1,
      )
    ]

    -- A total order sorts.
    pub sort-IsSorted : (xs : List A) → IsSorted (sort before xs)
    sort-IsSorted [] = tt
    sort-IsSorted (x ∷ xs) = insert_sorted-IsSorted x (sort before xs) (sort-IsSorted xs)
