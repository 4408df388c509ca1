-- ===== src/Logs/Like.antt =====
-- Escaping makes a LIKE pattern literal.
use otelview_postgres.Common.{
  ℕ, ◌≡◌, refl, ◌∙◌, Bool, true, false, ◌&&◌, ◌||◌, [], ◌∷◌, ◌++◌, ◌==◌, if◌then◌else◌, Str,
  is_empty, starts_with, contains, arith, Bool-cases, inl, inr,
}
use otelview_postgres.Logs.{escape_like, search_pattern}

-- LIKE as PostgreSQL documents it: `%` stands for any text, `_` for one character, a backslash takes what follows it literally.
abbrev any_suffix : (Str → Bool) → Str → Bool
any_suffix k [] = k []
any_suffix k (c ∷ s) = k (c ∷ s) || any_suffix k s

abbrev literal : ℕ → (Str → Bool) → Str → Bool
literal x k [] = false
literal x k (c ∷ s) = (x == c) && k s

abbrev any_one : (Str → Bool) → Str → Bool
any_one k [] = false
any_one k (c ∷ s) = k s

abbrev wild : ℕ → (Str → Bool) → Str → Bool
wild x k s = if x == b'%' then any_suffix k s else if x == b'_' then any_one k s else literal x k s

unfoldable pub like : Str → Str → Bool
like [] s = is_empty s
like (x ∷ []) s = wild x is_empty s
like (x ∷ y ∷ p) s =
    let next = like (y ∷ p) in
    let after = like p in if x == b'\\' then literal y after s else wild x next s

special : ℕ → Bool
special c = (c == b'\\') || ((c == b'%') || (c == b'_'))

-- Escaping in one pass.
escape : Str → Str
escape [] = []
escape (c ∷ s) = let rest = escape s in if special c then b'\\' ∷ c ∷ rest else c ∷ rest

escape_like-escape : (s : Str) → escape_like s ≡ escape s
unfolding escape_like escape special
escape_like-escape [] = refl
escape_like-escape (c ∷ s) = ground (arith, escape_like-escape s)

like-cons : (x : ℕ) (p s : Str) → (x == b'\\') ≡ false → like (x ∷ p) s ≡ wild x (like p) s
unfolding like
like-cons x [] s h = refl
like-cons x (y ∷ p) s h = rw h

like-escaped : (x : ℕ) (p s : Str) → like (b'\\' ∷ x ∷ p) s ≡ literal x (like p) s
unfolding like
like-escaped x p s = refl

like_rest : (s : Str) → like (b'%' ∷ []) s ≡ true
unfolding like
like_rest s = all_suffixes s
  where
    all_suffixes : (s : Str) → any_suffix is_empty s ≡ true
    all_suffixes [] = refl
    all_suffixes (c ∷ s) = all_suffixes s

next_literal :
    (c : ℕ) (needle s : Str) (k : Str → Bool)
    → ((t : Str) → k t ≡ starts_with needle t)
    → literal c k s ≡ starts_with (c ∷ needle) s
next_literal c needle [] k h = refl
next_literal c needle (d ∷ s) k h = rw (h s)

plain :
    (c : ℕ)
    → special c ≡ false
    → ((c == b'\\') ≡ false) × ((k : Str → Bool) (s : Str) → wild c k s ≡ literal c k s)
unfolding special
plain c h = (ground arith, λ k s. ground arith)

like-escape : (needle s : Str) → like (escape needle ++ b'%' ∷ []) s ≡ starts_with needle s
unfolding escape
like-escape [] s = like_rest s
like-escape (c ∷ needle) s = elim (Bool-cases (special c)) [
  | inl e ↦ rw e (
      like-escaped c (escape needle ++ b'%' ∷ []) s
      ∙ next_literal c needle s _ (like-escape needle))
  | inr e ↦ rw e (
      like-cons c (escape needle ++ b'%' ∷ []) s (plain c e).0
      ∙ (plain c e).1 (like (escape needle ++ b'%' ∷ [])) s
      ∙ next_literal c needle s _ (like-escape needle))
]

any_suffix-contains :
    (needle s : Str) (k : Str → Bool)
    → ((t : Str) → k t ≡ starts_with needle t)
    → any_suffix k s ≡ contains s needle
any_suffix-contains needle [] k h = h []
any_suffix-contains needle (c ∷ s) k h = rw (h (c ∷ s), any_suffix-contains needle s k h)

-- Under LIKE, the pattern that `find_logs` makes of a search text matches exactly the texts that contain it, whatever wildcards and
-- backslashes it holds.
pub search_pattern-matches : (search s : Str) → like (search_pattern search) s ≡ contains s search
unfolding search_pattern
search_pattern-matches search s = rw (escape_like-escape search) (
    like-cons b'%' (escape search ++ b'%' ∷ []) s refl
    ∙ any_suffix-contains search s (like (escape search ++ b'%' ∷ [])) (like-escape search))
