-- ===== src/Common/Sorting.antt =====
-- `slice::sort` as a stable insertion sort, and why the order of its input does not matter for
-- numbers.
use otelview_postgres.Common.Tests.{leb, if◌then◌else◌}
use Prim.Native.Nat.{ℕ, suc, ◌≤◌, ◌<◌}
use mathlib.Core.Path.{◌≡◌, refl, ◌∙◌}
use mathlib.Core.Bool.{Bool}
use mathlib.Core.List.{List, [], ◌∷◌, Perm, Permᴰ}
use mathlib.Core.Logic.{∥∥₁_elim}
use native.Mathlib.Decide.{ℕ_discrete}
use native.Mathlib.Omega.{arith}

module _ {ℓ} {A : Type ℓ} (before : A → A → Bool) where
  -- Equal elements keep their order.
  abbrev pub insert_sorted : A → List A → List A
  insert_sorted x [] = x ∷ []
  insert_sorted x (y ∷ ys) =
      let rest = insert_sorted x ys in if before x y then x ∷ y ∷ ys else y ∷ rest

  abbrev pub sort : List A → List A
  sort [] = []
  sort (x ∷ xs) = insert_sorted x (sort xs)

insert_sorted_comm :
    (a b : ℕ) (xs : List ℕ)
    → insert_sorted leb a (insert_sorted leb b xs) ≡ insert_sorted leb b (insert_sorted leb a xs)
insert_sorted_comm a b [] = ground arith
insert_sorted_comm a b (x ∷ xs) = ground (arith, insert_sorted_comm a b xs)

list_set : IsSet (List ℕ)
list_set = hlevel ℕ_discrete

sort_permᴰ : {xs ys : List ℕ} → Permᴰ xs ys → sort leb xs ≡ sort leb ys
sort_permᴰ Permᴰ.nil = refl
sort_permᴰ (Permᴰ.cons {a = a} {b = b} p h) = cc (sort_permᴰ h)
sort_permᴰ (Permᴰ.swap {a = a} {b = b} {l = l} p q) =
    rw (p, q) (insert_sorted_comm _ _ (sort leb l))
sort_permᴰ (Permᴰ.trans h k) = sort_permᴰ h ∙ sort_permᴰ k

-- Lists of numbers that hold the same elements sort to the same list.
pub sort-perm : {xs ys : List ℕ} → Perm xs ys → sort leb xs ≡ sort leb ys
sort-perm {xs} {ys} h = ∥∥₁_elim h (list_set (sort leb xs) (sort leb ys)) sort_permᴰ

-- Each element is below the next.
abbrev pub Above : ℕ → List ℕ → Type 0
Above n [] = Unit
Above n (x ∷ xs) = (n ≤ x) × Above (suc x) xs

insert_sorted-Above : (n x : ℕ) (xs : List ℕ) → Above n xs → x < n → insert_sorted leb x xs ≡ x ∷ xs
insert_sorted-Above n x [] h lt = refl
insert_sorted-Above n x (y ∷ ys) h lt = ground arith

-- An ascending list is sorted already.
pub sort-Above : (n : ℕ) (xs : List ℕ) → Above n xs → sort leb xs ≡ xs
sort-Above n [] h = refl
sort-Above n (x ∷ xs) h =
    rw (sort-Above (suc x) xs h.1) (insert_sorted-Above (suc x) x xs h.1 (omega arith))
