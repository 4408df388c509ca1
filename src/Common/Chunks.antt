-- ===== src/Common/Chunks.antt =====
-- `slice::chunks`: pieces of `n` elements, the last one shorter if need be. A piece takes at least
-- one element, so as many rounds as there are elements are enough.
use otelview_postgres.Common.Lists.{
  length, take, drop, All, take-append-drop, length-take, length-drop, length-map,
}
use Prim.Native.Nat.{ℕ, zero, suc, ◌≤◌, ◌<◌}
use mathlib.Core.Path.{◌≡◌, refl, sym, subst, ap, ◌∙◌}
use mathlib.Core.List.{List, [], ◌∷◌, ◌++◌, map}
use native.Mathlib.Omega.{arith}

module _ {ℓ} {A : Type ℓ} where
  abbrev pub concat : List (List A) → List A
  concat [] = []
  concat (xs ∷ xss) = xs ++ concat xss

  chunks_within : ℕ → ℕ → List A → List (List A)
  chunks_within zero n xs = []
  chunks_within (suc rounds) n [] = []
  chunks_within (suc rounds) n (x ∷ xs) = take n (x ∷ xs) ∷ chunks_within rounds n (drop n (x ∷ xs))

  unfoldable pub chunks : ℕ → List A → List (List A)
  unfolding chunks_within
  chunks n xs = chunks_within (length xs) n xs

  concat-chunks_within :
      (rounds n : ℕ) (xs : List A)
      → 0 < n
      → length xs ≤ rounds
      → concat (chunks_within rounds n xs) ≡ xs
  unfolding chunks_within
  concat-chunks_within zero n [] h k = refl
  concat-chunks_within zero n (x ∷ xs) h k = absurd (omega arith)
  concat-chunks_within (suc rounds) n [] h k = refl
  concat-chunks_within (suc rounds) n (x ∷ xs) h k =
      rw (concat-chunks_within rounds n (drop n (x ∷ xs)) h (omega (arith, length-drop n (x ∷ xs))))
        (take-append-drop n (x ∷ xs))

  -- The pieces hold every element once, in order.
  pub concat-chunks : (n : ℕ) (xs : List A) → 0 < n → concat (chunks n xs) ≡ xs
  unfolding chunks
  concat-chunks n xs h = concat-chunks_within (length xs) n xs h (omega arith)

  abbrev pub SizedUpTo : ℕ → List A → Type 0
  SizedUpTo n xs = (0 < length xs) × (length xs ≤ n)

  chunks_within-sized :
      (rounds n : ℕ) (xs : List A) → 0 < n → All (SizedUpTo n) (chunks_within rounds n xs)
  unfolding chunks_within
  chunks_within-sized zero n xs h = tt
  chunks_within-sized (suc rounds) n [] h = tt
  chunks_within-sized (suc rounds) n (x ∷ xs) h = (
    (omega (arith, length-take n (x ∷ xs)), omega (arith, length-take n (x ∷ xs))),
    chunks_within-sized rounds n (drop n (x ∷ xs)) h,
  )

  -- No piece is empty, and none has more than `n` elements.
  pub chunks-sized : (n : ℕ) (xs : List A) → 0 < n → All (SizedUpTo n) (chunks n xs)
  unfolding chunks
  chunks-sized n xs h = chunks_within-sized (length xs) n xs h

module _ {ℓ κ} {A : Type ℓ} {B : Type κ} (f : A → B) where
  take-map : (n : ℕ) (xs : List A) → take n (map f xs) ≡ map f (take n xs)
  take-map zero xs = refl
  take-map (suc n) [] = refl
  take-map (suc n) (x ∷ xs) = ap (◌∷◌ (f x)) (take-map n xs)

  drop-map : (n : ℕ) (xs : List A) → drop n (map f xs) ≡ map f (drop n xs)
  drop-map zero xs = refl
  drop-map (suc n) [] = refl
  drop-map (suc n) (x ∷ xs) = drop-map n xs

  chunks_within-map :
      (rounds n : ℕ) (xs : List A)
      → chunks_within rounds n (map f xs) ≡ map (map f) (chunks_within rounds n xs)
  unfolding chunks_within
  chunks_within-map zero n xs = refl
  chunks_within-map (suc rounds) n [] = refl
  chunks_within-map (suc rounds) n (x ∷ xs) =
      rw (take-map n (x ∷ xs), drop-map n (x ∷ xs), chunks_within-map rounds n (drop n (x ∷ xs)))

  -- Cutting commutes with a change of every element.
  pub chunks-map : (n : ℕ) (xs : List A) → chunks n (map f xs) ≡ map (map f) (chunks n xs)
  unfolding chunks
  chunks-map n xs =
      ap (λ k. chunks_within k n (map f xs)) (length-map f xs) ∙ chunks_within-map (length xs) n xs

-- What holds of all elements holds of all elements of each piece.
module _ {A : Type 0} (P : A → Type 0) where
  All-front : (xs ys : List A) → All P (xs ++ ys) → All P xs × All P ys
  All-front [] ys h = (tt, h)
  All-front (x ∷ xs) ys h = let (front, back) = All-front xs ys h.1 in ((h.0, front), back)

  All-pieces : (pieces : List (List A)) → All P (concat pieces) → All (All P) pieces
  All-pieces [] h = tt
  All-pieces (piece ∷ pieces) h =
      let (front, back) = All-front piece (concat pieces) h in (front, All-pieces pieces back)

  pub All-chunks : (n : ℕ) (xs : List A) → 0 < n → All P xs → All (All P) (chunks n xs)
  All-chunks n xs lt h = All-pieces (chunks n xs) (subst (All P) (sym (concat-chunks n xs lt)) h)
