-- ===== src/Common/Outcome.antt =====
-- `anyhow::Result`: an error is known by the message that its `to_string` shows.
use mathlib.Core.List.{List, [], ◌∷◌, ◌++◌, append-nil, append_assoc}
use mathlib.Core.Path.{◌≡◌, refl, sym, subst}
use mathlib.Core.Option.{Option, none, some}
use otelview_postgres.Common.Text.{Str}
use Prim.Native.Nat.{ℕ, ◌+◌}
use native.Mathlib.Omega.{arith}

pub record Error : Type 0 where
  pub message : Str

pub data Result {ℓ} (T : Type ℓ) : Type ℓ where
  err : Error → Result T
  ok : T → Result T

abbrev pub anyhow : Str → Error
anyhow m = record { message = m }

-- `result?` and what follows it.
infixl 6 ◌>>=◌
abbrev pub ◌>>=◌ {κ ℓ} : {T : Type κ} {U : Type ℓ} → Result T → (T → Result U) → Result U
◌>>=◌ (err problem) next = err problem
◌>>=◌ (ok value) next = next value

-- `option.ok_or_else(|| error)`
abbrev pub ok_or {ℓ} : {A : Type ℓ} → Option A → Error → Result A
ok_or (some a) e = ok a
ok_or none e = err e

-- `iter.map(f).collect::<Result<Vec<_>>>()`: the first error ends it.
abbrev pub collect {ℓ κ} : {A : Type ℓ} {B : Type κ} → (A → Result B) → List A → Result (List B)
collect f [] = ok []
collect f (x ∷ xs) = let rest = collect f xs in f x >>= λ y. rest >>= λ ys. ok (y ∷ ys)

-- What `?` let through.
pub >>=-eq-ok {κ ℓ} :
    {T : Type κ} {U : Type ℓ} (r : Result T) (next : T → Result U) {u : U}
    → (r >>= next) ≡ ok u
    → (t : T) × (r ≡ ok t) × (next t ≡ ok u)
>>=-eq-ok (err problem) next p = absurd (cc)
>>=-eq-ok (ok value) next p = (value, refl, p)

pub ok-injective {ℓ} : {A : Type ℓ} {a b : A} → ok a ≡ ok b → a ≡ b
ok-injective h = cc

-- `for x in xs { state = step(state, x)?; }`
abbrev pub try_fold {ℓ κ} : {S : Type ℓ} {A : Type κ} → (S → A → Result S) → S → List A → Result S
try_fold step s [] = ok s
try_fold step s (x ∷ xs) = step s x >>= λ s'. try_fold step s' xs

abbrev pub total {ℓ} : {A : Type ℓ} → (A → ℕ) → List A → ℕ
total weight [] = 0
total weight (x ∷ xs) = weight x + total weight xs

-- A loop that ends well keeps what each round keeps, and adds up what the rounds add.
pub try_fold_counts {ℓ κ} :
    {S : Type ℓ} {A : Type κ} (P : ℕ → S → Type 0) (step : S → A → Result S) (weight : A → ℕ)
    → ((n : ℕ) (s s' : S) (x : A) → step s x ≡ ok s' → P n s → P (n + weight x) s')
    → (n : ℕ) (s s' : S) (xs : List A) → try_fold step s xs ≡ ok s'
    → P n s
    → P (n + total weight xs) s'
try_fold_counts P step weight round n s s' [] e h =
    subst (λ k. P k s') (omega arith) (subst (P n) (ok-injective e) h)
try_fold_counts P step weight round n s s' (x ∷ xs) e h =
    let (t, first, rest) = >>=-eq-ok (step s x) (λ t. try_fold step t xs) e in
    subst (λ k. P k s') (omega arith)
      (try_fold_counts P step weight round (n + weight x) t s' xs rest (round n s t x first h))

-- The same without the counting.
pub try_fold_keeps {ℓ κ} :
    {S : Type ℓ} {A : Type κ} (P : S → Type 0) (step : S → A → Result S)
    → ((s s' : S) (x : A) → step s x ≡ ok s' → P s → P s')
    → (s s' : S) (xs : List A) → try_fold step s xs ≡ ok s'
    → P s
    → P s'
try_fold_keeps P step round s s' [] e h = subst P (ok-injective e) h
try_fold_keeps P step round s s' (x ∷ xs) e h =
    let (t, first, rest) = >>=-eq-ok (step s x) (λ t. try_fold step t xs) e in
    try_fold_keeps P step round t s' xs rest (round s t x first h)

abbrev pub flat_map {ℓ κ} : {A : Type ℓ} {B : Type κ} → (A → List B) → List A → List B
flat_map items [] = []
flat_map items (x ∷ xs) = items x ++ flat_map items xs

-- The same with what the rounds have met, in order.
pub try_fold_collects {ℓ κ ι} :
    {S : Type ℓ} {A : Type κ} {B : Type ι} (P : List B → S → Type 0) (step : S → A → Result S)
    (items : A → List B)
    → ((seen : List B) (s s' : S) (x : A) → step s x ≡ ok s' → P seen s → P (seen ++ items x) s')
    → (seen : List B) (s s' : S) (xs : List A) → try_fold step s xs ≡ ok s'
    → P seen s
    → P (seen ++ flat_map items xs) s'
try_fold_collects P step items round seen s s' [] e h =
    subst (λ l. P l s') (sym (append-nil seen)) (subst (P seen) (ok-injective e) h)
try_fold_collects P step items round seen s s' (x ∷ xs) e h =
    let (t, first, rest) = >>=-eq-ok (step s x) (λ t. try_fold step t xs) e in
    subst (λ l. P l s') (append_assoc seen (items x) (flat_map items xs))
      (try_fold_collects P step items round (seen ++ items x) t s' xs rest
        (round seen s t x first h))
