-- ===== src/HashMap.antt =====
-- `std::collections::HashMap`: an association list with one entry for each key. The order of
-- iteration is not specified: a program that iterates takes it as an argument, any rearrangement.
pub mod LastIndex
pub mod Rearranged
use mathlib.Core.List.{Perm}
use otelview_postgres.Common.{◌≡◌, refl, Option, none, some, ite, List, [], ◌∷◌, map, arith}

-- The order in which the entries come out.
pub record Iteration {ℓ} (A : Type ℓ) : Type ℓ where
  pub order : List A → List A
  pub rearranges : (xs : List A) → Perm (order xs) xs

module _ {K V : Type 0} (dec : Discrete K) where
  unfoldable pub remove : K → List (K × V) → List (K × V)
  remove k [] = []
  remove k ((j, v) ∷ m) = let rest = remove k m in ite (dec k j) rest ((j, v) ∷ rest)

  unfoldable pub insert : K → V → List (K × V) → List (K × V)
  insert k v m = (k, v) ∷ remove k m

  unfoldable pub get : K → List (K × V) → Option V
  get k [] = none
  get k ((j, v) ∷ m) = ite (dec k j) (some v) (get k m)

  pub get-remove : (k j : K) (m : List (K × V)) → get j (remove k m) ≡ ite (dec k j) none (get j m)
  unfolding get remove
  get-remove k j [] = ground arith
  get-remove k j ((i, v) ∷ m) = ground (arith, get-remove k j m)

  pub get-insert :
      (k j : K) (v : V) (m : List (K × V)) → get j (insert k v m) ≡ ite (dec k j) (some v) (get j m)
  unfolding get insert
  get-insert k j v m = ground (arith, get-remove k j m)

abbrev pub into_values : {K V : Type 0} → List (K × V) → List V
into_values = map (λ e. e.1)
