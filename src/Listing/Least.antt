-- ===== src/Listing/Least.antt =====
-- The least value of a column, and what lies above a value.
use otelview_postgres.Common.{
  ◌≤◌, ◌<◌, ◌≡◌, refl, sym, ap, ◌∙◌, subst, Bool, true, false, ◌||◌, Option, none, some, ite, List,
  [], ◌∷◌, if◌then◌else◌, Str, length, any, All, arith, Bytes-discrete, Bool-cases, inl, inr,
}
use otelview_postgres.Common.Sorting.{sort}
use otelview_postgres.Listing.{Collation, least, above}

abbrev pub same : Str → Str → Bool
same a b = ite (Bytes-discrete a b) true false

module _ (collation : Collation) where
  -- Each value stands before all that follow it.
  abbrev pub Ascending : List Str → Type 0
  Ascending [] = Unit
  Ascending (x ∷ xs) = All (λ y. collation.lt x y ≡ true) xs × Ascending xs

  pub nothing_least : (xs : List Str) → least collation xs ≡ none → xs ≡ []
  unfolding least
  nothing_least [] h = refl
  nothing_least (x ∷ xs) h = ground arith

  same_refl : (a : Str) → same a a ≡ true
  same_refl a = ground arith

  same-path : (a b : Str) → same a b ≡ true → a ≡ b
  same-path a b h = ground arith

  asymmetric : (a b : Str) → collation.lt a b ≡ true → collation.lt b a ≡ false
  asymmetric a b h = elim (Bool-cases (collation.lt b a)) [
    | inl e ↦ absurd (cc (collation.irreflexive a, collation.transitive a b a h e))
    | inr e ↦ e
  ]

  not_below :
      (w y x : Str) → collation.lt y x ≡ false → collation.lt w y ≡ false → collation.lt w x ≡ false
  not_below w y x h k = elim (Bool-cases (collation.lt w x)) [
    | inr e ↦ e
    | inl e ↦ elim (Bool-cases (collation.lt x y)) [
      | inl f ↦ absurd (cc (collation.transitive w x y e f))
      | inr f ↦ absurd (cc (collation.total x y f h))
    ]
  ]

  All-not_below :
      (y x : Str) (xs : List Str)
      → collation.lt y x ≡ false
      → All (λ w. collation.lt w y ≡ false) xs
      → All (λ w. collation.lt w x ≡ false) xs
  All-not_below y x [] h k = tt
  All-not_below y x (w ∷ xs) h k = (not_below w y x h k.0, All-not_below y x xs h k.1)

  unfoldable pub Least : Str → List Str → Type 0
  Least m xs = (any (same m) xs ≡ true) × All (λ w. collation.lt w m ≡ false) xs

  Least-cons :
      (x y : Str) (xs : List Str) (b : Bool)
      → collation.lt y x ≡ b
      → Least y xs
      → Least (if b then y else x) (x ∷ xs)
  unfolding Least
  Least-cons x y xs true e (there, lower) = (ground (arith, there), (asymmetric y x e, lower))
  Least-cons x y xs false e (there, lower) =
      (ground (arith, same_refl x), (collation.irreflexive x, All-not_below y x xs e lower))

  Least-single : (x : Str) → Least x (x ∷ [])
  unfolding Least
  Least-single x = (ground (arith, same_refl x), (collation.irreflexive x, tt))

  least_of_rest :
      (x m : Str) (xs : List Str) (rest : Option Str)
      → least collation xs ≡ rest
      → ((y : Str) → least collation xs ≡ some y → Least y xs)
      → (elim rest [ none ↦ some x | some y ↦ some (if collation.lt y x then y else x) ]) ≡ some m
      → Least m (x ∷ xs)
  least_of_rest x m xs none e ih k =
      subst (λ ys. Least m (x ∷ ys)) (sym (nothing_least xs e))
        (subst (λ z. Least z (x ∷ [])) (cc) (Least-single x))
  least_of_rest x m xs (some y) e ih k =
      subst (λ z. Least z (x ∷ xs)) (cc) (Least-cons x y xs (collation.lt y x) refl (ih y e))

  pub least_lem : (xs : List Str) (m : Str) → least collation xs ≡ some m → Least m xs
  unfolding least
  least_lem [] m h = absurd cc
  least_lem (x ∷ xs) m h = least_of_rest x m xs (least collation xs) refl (least_lem xs) h

  pub sort-Ascending : (xs : List Str) → Ascending xs → sort collation.lt xs ≡ xs
  sort-Ascending [] h = refl
  sort-Ascending (x ∷ []) h = refl
  sort-Ascending (x ∷ y ∷ xs) h = rw (sort-Ascending (y ∷ xs) h.1, h.0.0)

  length-above-le :
      (v w : Str) (xs : List Str)
      → collation.lt v w ≡ true
      → length (above collation w xs) ≤ length (above collation v xs)
  length-above-le v w [] h = omega arith
  length-above-le v w (x ∷ xs) h =
      ground (arith, length-above-le v w xs h, collation.transitive v w x h)

  -- Fewer values lie above a value that lies above.
  length-above-less :
      (v w : Str) (xs : List Str)
      → collation.lt v w ≡ true
      → any (same w) xs ≡ true
      → length (above collation w xs) < length (above collation v xs)
  length-above-less v w [] h k = absurd cc
  length-above-less v w (x ∷ xs) h k = elim (Bytes-discrete w x) [
    | yes p ↦
        rw (ap (collation.lt w) (sym p) ∙ collation.irreflexive w, ap (collation.lt v) (sym p) ∙ h)
          (omega (arith, length-above-le v w xs h))
    | no n ↦
        let rest : any (same w) xs ≡ true = rw (sym k) (ground arith) in
        ground (arith, length-above-less v w xs h rest, collation.transitive v w x h)
  ]

  -- What lies above is a value of the list.
  above_lem :
      (v w : Str) (xs : List Str)
      → any (same w) (above collation v xs) ≡ true
      → (collation.lt v w ≡ true) × (any (same w) xs ≡ true)
  above_lem v w [] h = absurd cc
  above_lem v w (x ∷ xs) h = elim (Bool-cases (collation.lt v x)) [
    | inl e ↦ elim (Bytes-discrete w x) [
      | yes p ↦ (ap (collation.lt v) p ∙ e, ground arith)
      | no n ↦
          let (low, there) = above_lem v w xs (rw (sym h) (ground arith)) in
          (low, ground (arith, there))
    ]
    | inr e ↦
        let (low, there) = above_lem v w xs (rw (sym h) (ground arith)) in
        (low, ground (arith, there))
  ]

  unfoldable pub Next : Str → Str → List Str → Type 0
  Next v w xs =
      (collation.lt v w ≡ true)
      × (any (same w) xs ≡ true)
      × (length (above collation w xs) < length (above collation v xs))

  pub next_lem :
      (v w : Str) (xs : List Str) → least collation (above collation v xs) ≡ some w → Next v w xs
  unfolding Next Least
  next_lem v w xs h =
      let (found, _) = least_lem (above collation v xs) w h in
      let (low, there) = above_lem v w xs found in (low, there, length-above-less v w xs low there)

  in_above :
      (w s : Str) (xs : List Str)
      → collation.lt w s ≡ true
      → any (same s) xs ≡ true
      → any (same s) (above collation w xs) ≡ true
  in_above w s [] h k = absurd cc
  in_above w s (x ∷ xs) h k = elim (Bytes-discrete s x) [
    | yes p ↦ rw (ap (collation.lt w) (sym p) ∙ h) (ground arith)
    | no n ↦
        let rest : any (same s) xs ≡ true = rw (sym k) (ground arith) in
        ground (arith, in_above w s xs h rest)
  ]

  pub All-any :
      (P : Str → Type 0) (s : Str) (xs : List Str) → All P xs → any (same s) xs ≡ true → P s
  All-any P s [] h k = absurd cc
  All-any P s (x ∷ xs) h k = elim (Bytes-discrete s x) [
    | yes p ↦ subst P (sym p) h.0
    | no n ↦ All-any P s xs h.1 (rw (sym k) (ground arith))
  ]

  pub or_true : (a b : Bool) → b ≡ true → (a || b) ≡ true
  or_true a b h = ground arith

  or_same : (a b : Str) (c : Bool) → a ≡ b → (same a b || c) ≡ true
  or_same a b c h = ground arith

  -- A value above `v` is the next one or lies above it.
  pub next_or_above :
      (s v w : Str) (xs : List Str)
      → All (λ y. collation.lt y w ≡ false) (above collation v xs)
      → any (same s) (above collation v xs) ≡ true
      → (same s w || any (same s) (above collation w xs)) ≡ true
  next_or_above s v w xs low h =
      let (_, there) = above_lem v s xs h in
      let floor = All-any (λ y. collation.lt y w ≡ false) s (above collation v xs) low h in
      elim (Bool-cases (collation.lt w s)) [
        | inl e ↦ or_true (same s w) _ (in_above w s xs e there)
        | inr e ↦ or_same s w _ (collation.total s w floor e)
      ]

  pub start_or_above :
      (s w : Str) (xs : List Str)
      → All (λ y. collation.lt y w ≡ false) xs
      → any (same s) xs ≡ true
      → (same s w || any (same s) (above collation w xs)) ≡ true
  start_or_above s w xs low h =
      let floor = All-any (λ y. collation.lt y w ≡ false) s xs low h in
      elim (Bool-cases (collation.lt w s)) [
        | inl e ↦ or_true (same s w) _ (in_above w s xs e h)
        | inr e ↦ or_same s w _ (collation.total s w floor e)
      ]
