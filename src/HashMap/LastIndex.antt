-- ===== src/HashMap/LastIndex.antt =====
-- A map from keys to the last index at which each stands in a list. Read off in order, it names
-- the last occurrence of each key.
use mathlib.Core.List.{Perm, perm_middle}
use mathlib.Core.List.Perm
use otelview_postgres.Common.{
  ℕ, zero, suc, ◌≤◌, ◌≡◌, refl, ap, ◌∙◌, Bool, true, false, Option, none, some, ite, List, [], ◌∷◌,
  ◌++◌, arith, leb, if◌then◌else◌, get_elem?, length, append_assoc, append-nil, Bool-cases, inl,
  inr, subst,
}
use otelview_postgres.Common.Sorting.{sort, sort-perm, Above, sort-Above}
use otelview_postgres.HashMap.{remove, insert, into_values, Iteration}

module _ {A K : Type 0} (dec : Discrete K) (key : A → K) where
  abbrev pub occurs : K → List A → Bool
  occurs k [] = false
  occurs k (x ∷ xs) = ite (dec k (key x)) true (occurs k xs)

  -- The elements with no later element of the same key, in order.
  abbrev pub keep_last : List A → List A
  keep_last [] = []
  keep_last (x ∷ xs) = let rest = keep_last xs in if occurs (key x) xs then rest else x ∷ rest

  -- Their indices, the first element standing at `i`.
  abbrev pub last_indices : ℕ → List A → List ℕ
  last_indices i [] = []
  last_indices i (x ∷ xs) =
      let rest = last_indices (suc i) xs in if occurs (key x) xs then rest else i ∷ rest

last_indices-Above :
    {A K : Type 0} (dec : Discrete K) (key : A → K) (i n : ℕ) (xs : List A)
    → n ≤ i
    → Above n (last_indices dec key i xs)
last_indices-Above dec key i n [] h = tt
last_indices-Above dec key i n (x ∷ xs) h = elim (Bool-cases (occurs dec key (key x) xs)) [
  | inl e ↦ rw e (last_indices-Above dec key (suc i) n xs (omega arith))
  | inr e ↦ rw e (h, last_indices-Above dec key (suc i) (suc i) xs (omega arith))
]

module _ {A K : Type 0} (dec : Discrete K) (key : A → K) where
  -- `for (index, x) in xs.iter().enumerate() { map.insert(key(x), index); }`, from index `i` on
  unfoldable pub record_indices : ℕ → List A → List (K × ℕ) → List (K × ℕ)
  record_indices i [] m = m
  record_indices i (x ∷ xs) m = record_indices (suc i) xs (insert dec (key x) i m)

  -- The entries whose keys do not stand in `xs`.
  fresh : List A → List (K × ℕ) → List (K × ℕ)
  fresh xs [] = []
  fresh xs ((k, i) ∷ m) =
      let rest = fresh xs m in if occurs dec key k xs then rest else (k, i) ∷ rest

  fresh-nil : (m : List (K × ℕ)) → fresh [] m ≡ m
  unfolding fresh
  fresh-nil [] = refl
  fresh-nil ((k, i) ∷ m) = rw (fresh-nil m)

  fresh-remove :
      (x : A) (xs : List A) (m : List (K × ℕ)) → fresh xs (remove dec (key x) m) ≡ fresh (x ∷ xs) m
  unfolding fresh remove
  fresh-remove x xs [] = refl
  fresh-remove x xs ((k, i) ∷ m) = ground (arith, fresh-remove x xs m)

  values-record_indices :
      (i : ℕ) (xs : List A) (m : List (K × ℕ))
      → Perm
          (into_values (record_indices i xs m))
          (into_values (fresh xs m) ++ last_indices dec key i xs)
  unfolding record_indices
  values-record_indices i [] m = rw (fresh-nil m, append-nil) (Perm.refl _)
  values-record_indices i (x ∷ xs) m = elim (Bool-cases (occurs dec key (key x) xs)) [
    | inl e ↦
        Perm.trans (values-record_indices (suc i) xs (insert dec (key x) i m))
          (rw e (unfold fresh insert in rw (e, fresh-remove x xs m) (Perm.refl _)))
    | inr e ↦
        Perm.trans (values-record_indices (suc i) xs (insert dec (key x) i m))
          (rw e (unfold fresh insert in rw (e, fresh-remove x xs m) (Perm.symm (perm_middle _ _))))
  ]

  values-record_indices_nil :
      (xs : List A) → Perm (into_values (record_indices zero xs [])) (last_indices dec key zero xs)
  unfolding fresh
  values-record_indices_nil xs = values-record_indices zero xs []

  -- However the map is iterated, its values sort to the indices of the last occurrences.
  pub sort-values :
      (iteration : Iteration ℕ) (xs : List A)
      → sort leb (iteration.order (into_values (record_indices zero xs [])))
        ≡ last_indices dec key zero xs
  sort-values iteration xs =
      sort-perm (Perm.trans (iteration.rearranges _) (values-record_indices_nil xs))
      ∙ sort-Above zero _ (last_indices-Above dec key zero zero xs (omega arith))

abbrev pub push {ℓ} : {A : Type ℓ} → Option A → Option (List A) → Option (List A)
push (some x) (some xs) = some (x ∷ xs)
push _ _ = none

-- `keep.into_iter().map(|i| &rows[i])`; `none` is the panic of an index out of range.
unfoldable pub index_all {ℓ} : {A : Type ℓ} → List A → List ℕ → Option (List A)
index_all xs [] = some []
index_all xs (i ∷ is) = let rest = index_all xs is in push (get_elem? xs i) rest

get_elem?-middle {ℓ} :
    {A : Type ℓ} (xs : List A) (x : A) (ys : List A) → get_elem? (xs ++ x ∷ ys) (length xs) ≡ some x
get_elem?-middle [] x ys = refl
get_elem?-middle (y ∷ xs) x ys = get_elem?-middle xs x ys

snoc_length {ℓ} : {A : Type ℓ} (xs : List A) (x : A) → length (xs ++ x ∷ []) ≡ suc (length xs)
snoc_length [] x = refl
snoc_length (y ∷ xs) x = ap suc (snoc_length xs x)

module _ {A K : Type 0} (dec : Discrete K) (key : A → K) where
  index_all-last_indices :
      (before xs : List A)
      → index_all (before ++ xs) (last_indices dec key (length before) xs)
        ≡ some (keep_last dec key xs)
  unfolding index_all
  index_all-last_indices before [] = refl
  index_all-last_indices before (x ∷ xs) =
      let ih : index_all (before ++ x ∷ xs) (last_indices dec key (suc (length before)) xs)
          ≡ some (keep_last dec key xs) =
        subst {A = List A × ℕ}
          (λ l. index_all l.0 (last_indices dec key l.1 xs) ≡ some (keep_last dec key xs))
          (λ i. (append_assoc before (x ∷ []) xs i, snoc_length before x i))
          (index_all-last_indices (before ++ x ∷ []) xs) in
      ground (arith, ih, get_elem?-middle before x xs)

  -- No index is out of range, and what stands at the sorted indices is the list of the last
  -- occurrences, in order.
  pub index_all-sort-values :
      (iteration : Iteration ℕ) (xs : List A)
      → index_all xs (sort leb (iteration.order (into_values (record_indices dec key zero xs []))))
        ≡ some (keep_last dec key xs)
  index_all-sort-values iteration xs =
      rw (sort-values dec key iteration xs) (index_all-last_indices [] xs)
