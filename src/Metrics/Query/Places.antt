-- ===== src/Metrics/Query/Places.antt =====
-- The map of series that a query builds, for `find_metrics` of src/metrics.rs.
use mathlib.Core.Logic.{if_pos, if_neg}
use otelview_postgres.Common.{
  ℕ, suc, ◌+◌, ◌≡◌, ◌≢◌, refl, sym, ap, subst, ◌∙◌, some, ite, List, [], ◌∷◌, ◌++◌, All, get_elem?,
  arith, append_assoc, append-nil,
}
use otelview_postgres.HashMap.{insert, remove, get, get-insert}
use otelview_postgres.Metrics.Query.{SeriesKey, SeriesKey-discrete, indices_or_none, group_indices}

-- Where a key stands, the first place being `i`.
abbrev pub positions : SeriesKey → ℕ → List SeriesKey → List ℕ
positions k i [] = []
positions k i (j ∷ keys) =
    let rest = positions k (suc i) keys in ite (SeriesKey-discrete k j) (i ∷ rest) rest

abbrev pub Series : Type 0
Series = List (SeriesKey × List ℕ)

abbrev pub indices_of : SeriesKey → Series → List ℕ
indices_of k m = indices_or_none (get SeriesKey-discrete k m)

-- The map lists under each key where it stands.
indices_of-insert :
    (k j : SeriesKey) (v : List ℕ) (m : Series)
    → indices_of k (insert SeriesKey-discrete j v m)
      ≡ ite (SeriesKey-discrete k j) v (indices_of k m)
indices_of-insert k j v m = elim (SeriesKey-discrete k j) [
  | yes p ↦
      rw
        (get-insert SeriesKey-discrete j k v m, if_pos (SeriesKey-discrete j k) (sym p), if_pos _ p)
  | no n ↦ rw (
    get-insert SeriesKey-discrete j k v m,
    if_neg (SeriesKey-discrete j k) (λ p. n (sym p)),
    if_neg _ n,
  )
]

pub ite_yes :
    {A : Type 0} (k j : SeriesKey) (a b : A) → k ≡ j → ite (SeriesKey-discrete k j) a b ≡ a
ite_yes k j a b p = if_pos (SeriesKey-discrete k j) p a b

pub ite_no : {A : Type 0} (k j : SeriesKey) (a b : A) → k ≢ j → ite (SeriesKey-discrete k j) a b ≡ b
ite_no k j a b n = if_neg (SeriesKey-discrete k j) n a b

pub indices_of-group_indices :
    (k : SeriesKey) (i : ℕ) (keys : List SeriesKey) (m : Series)
    → indices_of k (group_indices i keys m) ≡ indices_of k m ++ positions k i keys
unfolding group_indices
indices_of-group_indices k i [] m = sym (append-nil _)
indices_of-group_indices k i (j ∷ keys) m =
    let more : List ℕ = indices_of j m ++ i ∷ [] in
    indices_of-group_indices k (suc i) keys (insert SeriesKey-discrete j more m)
    ∙ ap (λ is. is ++ positions k (suc i) keys) (indices_of-insert k j more m)
    ∙ elim (SeriesKey-discrete k j) [
      | yes p ↦
          let rest : List ℕ = positions k (suc i) keys in
          ap (λ is. is ++ rest)
            (ite_yes k j more (indices_of k m) p ∙ ap (λ l. indices_of l m ++ i ∷ []) (sym p))
          ∙ append_assoc (indices_of k m) (i ∷ []) rest
          ∙ ap (λ is. indices_of k m ++ is) (sym (ite_yes k j (i ∷ rest) rest p))
      | no n ↦
          let rest : List ℕ = positions k (suc i) keys in
          ap (λ is. is ++ rest) (ite_no k j more (indices_of k m) n)
          ∙ ap (λ is. indices_of k m ++ is) (sym (ite_no k j (i ∷ rest) rest n))
    ]

-- Each entry is the one that its key finds.
abbrev pub Found : Series → SeriesKey × List ℕ → Type 0
Found m e = get SeriesKey-discrete e.0 m ≡ some e.1

All-remove :
    (P : SeriesKey × List ℕ → Type 0) (k : SeriesKey) (m : Series)
    → All P m
    → All (λ e. (k ≢ e.0) × P e) (remove SeriesKey-discrete k m)
unfolding remove
All-remove P k [] h = tt
All-remove P k ((j, v) ∷ m) h = elim (SeriesKey-discrete k j) [
  | yes p ↦ rw (if_pos _ p) (All-remove P k m h.1)
  | no n ↦ rw (if_neg _ n) ((n, h.0), All-remove P k m h.1)
]

pub All-mono :
    (P Q : SeriesKey × List ℕ → Type 0) (m : Series)
    → ((e : SeriesKey × List ℕ) → P e → Q e)
    → All P m
    → All Q m
All-mono P Q [] f h = tt
All-mono P Q (e ∷ m) f h = (f e h.0, All-mono P Q m f h.1)

Found-insert :
    (k : SeriesKey) (v : List ℕ) (m : Series)
    → All (Found m) m
    → All (Found (insert SeriesKey-discrete k v m)) (insert SeriesKey-discrete k v m)
Found-insert k v m h =
    unfold insert in
    (
      get-insert SeriesKey-discrete k k v m
          ∙ ite_yes k k (some v) (get SeriesKey-discrete k m) refl,
      All-mono (λ e. (k ≢ e.0) × Found m e) (Found (insert SeriesKey-discrete k v m))
          (remove SeriesKey-discrete k m)
          (λ e p.
            get-insert SeriesKey-discrete k e.0 v m
            ∙ ite_no k e.0 (some v) (get SeriesKey-discrete e.0 m) p.0
            ∙ p.1)
          (All-remove (Found m) k m h),
    )

pub Found-group_indices :
    (i : ℕ) (keys : List SeriesKey) (m : Series)
    → All (Found m) m
    → All (Found (group_indices i keys m)) (group_indices i keys m)
unfolding group_indices
Found-group_indices i [] m h = h
Found-group_indices i (k ∷ keys) m h =
    Found-group_indices (suc i) keys _ (Found-insert k (indices_of k m ++ i ∷ []) m h)

pub get_each : (m n : Series) → All (Found n) m → All (λ e. indices_of e.0 n ≡ e.1) m
get_each [] n h = tt
get_each (e ∷ m) n h = (rw h.0 refl, get_each m n h.1)

-- All the places of a key are within the list, and at each stands the key.
pub positions-At :
    (P : ℕ → Type 0) (k : SeriesKey) (i : ℕ) (keys : List SeriesKey)
    → ((j : ℕ) → get_elem? keys j ≡ some k → P (i + j))
    → All P (positions k i keys)
positions-At P k i [] h = tt
positions-At P k i (j ∷ keys) h =
    let rest : All P (positions k (suc i) keys) =
      positions-At P k (suc i) keys (λ n e. subst P (omega arith) (h (suc n) e)) in
    elim (SeriesKey-discrete k j) [
      | yes p ↦
          subst (All P)
            (sym (ite_yes k j (i ∷ positions k (suc i) keys) (positions k (suc i) keys) p))
            (subst P (omega arith) (h 0 (ap some (sym p))), rest)
      | no n ↦
          subst (All P)
            (sym (ite_no k j (i ∷ positions k (suc i) keys) (positions k (suc i) keys) n)) rest
    ]
