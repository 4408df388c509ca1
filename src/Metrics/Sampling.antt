-- ===== src/Metrics/Sampling.antt =====
-- `downsample` of src/metrics.rs: an even sample of a series.
pub mod Ends
use native.Mathlib.Nat.{mod-lt, mul-div_right, div-le_of_le-mul, div-eq_of_lt}
use native.Mathlib.Omega.{div_any}
use mathlib.Core.List.{Sublist, nil-sublist}
use mathlib.Core.List.Sublist
use otelview_postgres.Common.{
  ℕ, zero, suc, ◌+◌, ◌-◌, ◌*◌, ◌/◌, ◌%◌, ◌≤◌, ◌<◌, min, ◌≡◌, refl, sym, ap, subst, ◌∙◌, Bool, true,
  false, ◌||◌, Option, none, some, List, [], ◌∷◌, map, leb, ◌==◌, if◌then◌else◌, length, length-map,
  get_elem?, drop, arith, Bool-cases, inl, inr, ltb, ltb→lt,
}
use otelview_postgres.HashMap.LastIndex.{index_all}

-- `(from..from + n)`
abbrev pub range_from : ℕ → ℕ → List ℕ
range_from from zero = []
range_from from (suc n) = from ∷ range_from (suc from) n

-- Where the `i`-th of `max_points` samples stands in a series of a length.
abbrev pub sample_index : ℕ → ℕ → ℕ → ℕ
sample_index len max_points i = i * (len - 1) / (max_points - 1)

-- `none` is a panic. The product of an index and a length stays below 2^64, since a query reads at most 100000 rows.
unfoldable pub downsample : {A : Type 0} → List A → ℕ → Option (List A)
downsample indices max_points =
    if leb (length indices) max_points || (max_points == 0)
    then some indices
    else if max_points == 1
    then index_all indices ((length indices - 1) ∷ [])
    else index_all indices
        (map (sample_index (length indices) max_points) (range_from 0 max_points))

mul_up : (d a b : ℕ) → a ≤ b → d * a ≤ d * b
mul_up d a b h = grind arith

div_bounds : (a d : ℕ) → 0 < d → (d * (a / d) ≤ a) × (a < d * (a / d) + d)
div_bounds a d h = (omega (arith, div_any a d), omega (arith, div_any a d, mod-lt a h))

div_step : (a n d : ℕ) → 0 < d → d ≤ n → a / d < (a + n) / d
div_step a n d h k = elim (Bool-cases (ltb (a / d) ((a + n) / d))) [
  | inl e ↦ ltb→lt (a / d) ((a + n) / d) e
  | inr e ↦ absurd (
      omega (
        arith,
        div_bounds a d h,
        div_bounds (a + n) d h,
        mul_up d ((a + n) / d) (a / d) (ground arith),
      ))
]

suc_mul : (i n : ℕ) → suc i * n ≡ i * n + n
suc_mul i n = omega arith

-- With fewer samples than elements, each sample stands after the one before it.
pub sample_index-less :
    (len max_points i : ℕ)
    → 2 ≤ max_points
    → max_points ≤ len
    → sample_index len max_points i < sample_index len max_points (suc i)
sample_index-less len m i h k =
    rw (suc_mul i (len - 1))
      (div_step (i * (len - 1)) (len - 1) (m - 1) (omega arith) (omega arith))

pub sample_index-last :
    (len max_points : ℕ) → 2 ≤ max_points → sample_index len max_points (max_points - 1) ≡ len - 1
sample_index-last len m h = mul-div_right (len - 1) (omega arith)

mul_right_up : (a b n : ℕ) → a ≤ b → a * n ≤ b * n
mul_right_up a b n h = grind arith

pub sample_index-within :
    (len max_points i : ℕ)
    → 2 ≤ max_points
    → max_points ≤ len
    → i < max_points
    → sample_index len max_points i < len
sample_index-within len m i h le lt =
    omega (
      arith,
      div-le_of_le-mul (m - 1) {n = len - 1} (mul_right_up i (m - 1) (len - 1) (omega arith)),
    )
