-- ===== src/HashMap/Rearranged.antt =====
-- What does not depend on the order in which a hash map is iterated.
use mathlib.Core.List.{Perm, Permᴰ}
use mathlib.Core.Logic.{∥∥₁_elim}
use otelview_postgres.Common.{◌≡◌, refl, sym, ◌∙◌, Bool, List, [], ◌∷◌, any, All, arith, subst}

bool_set : IsSet Bool
bool_set = hlevel

module _ {A : Type 0} where
  any-permᴰ : (p : A → Bool) {xs ys : List A} → Permᴰ xs ys → any p xs ≡ any p ys
  any-permᴰ p Permᴰ.nil = refl
  any-permᴰ p (Permᴰ.cons {a = a} {b = b} q h) = cc (any-permᴰ p h)
  any-permᴰ p (Permᴰ.swap {a = a} {b = b} {l = l} q r) = rw (q, r) (ground arith)
  any-permᴰ p (Permᴰ.trans h k) = any-permᴰ p h ∙ any-permᴰ p k

  pub any-perm : (p : A → Bool) {xs ys : List A} → Perm xs ys → any p xs ≡ any p ys
  any-perm p {xs} {ys} h = ∥∥₁_elim h (bool_set (any p xs) (any p ys)) (any-permᴰ p)

  module _ (P : A → Type 0) where
    All-permᴰ : {xs ys : List A} → Permᴰ xs ys → All P ys → All P xs
    All-permᴰ Permᴰ.nil h = tt
    All-permᴰ (Permᴰ.cons {a = a} {b = b} q d) h = (subst P (sym q) h.0, All-permᴰ d h.1)
    All-permᴰ (Permᴰ.swap {a = a} {b = b} {l = l} q r) h =
        (subst P (sym q) h.1.0, (subst P (sym r) h.0, h.1.1))
    All-permᴰ (Permᴰ.trans d e) h = All-permᴰ d (All-permᴰ e h)

    pub All-prop : ((x : A) → IsProp (P x)) → (xs : List A) → IsProp (All P xs)
    All-prop h [] p q = refl
    All-prop h (x ∷ xs) p q = λ i. (h x p.0 q.0 i, All-prop h xs p.1 q.1 i)

    pub All-perm : ((x : A) → IsProp (P x)) → {xs ys : List A} → Perm xs ys → All P ys → All P xs
    All-perm prop {xs} p h = ∥∥₁_elim p (All-prop prop xs) (λ d. All-permᴰ d h)
