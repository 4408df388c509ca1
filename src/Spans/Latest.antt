-- ===== src/Spans/Latest.antt =====
-- The row that stands for the last span of an export under a key, for `Store::write` of src/store.rs.
use otelview_postgres.Common.{
  ◌≡◌, refl, sym, ap, ◌∙◌, Option, none, some, ite, List, [], ◌∷◌, map, select, All, Bytes, ok,
  subst, arith, Option-cases, Bool, true, Bool-cases, inl, inr,
}
use otelview_postgres.Codec.{Codec, Survives}
use otelview_postgres.Otlp.{TracesData}
use otelview_postgres.Schema.{SpanRow, SpanKey, SpanKey-discrete, span_key}
use otelview_postgres.Spans.{Batch, upsert}
use otelview_postgres.Spans.Counts.{
  Sent, alone, sent_key, sent_item, stored_item, well_sized, Gathered,
}
use otelview_postgres.Spans.Dedupe.{or_else, find_last}
use otelview_postgres.Spans.Integrity.{All-upsert}
use otelview_postgres.Spans.Upsert.{upsert_all}

abbrev pub or_earlier {ℓ} : {A : Type ℓ} → Option A → Option A → Option A
or_earlier (some a) b = some a
or_earlier none b = b

-- The last element with a key.
abbrev pub last_under : {A : Type 0} → (A → SpanKey) → SpanKey → List A → Option A
last_under key k [] = none
last_under key k (x ∷ xs) =
    let rest = last_under key k xs in
    or_earlier rest (ite (SpanKey-discrete k (key x)) (some x) none)

abbrev mapped : {A B : Type 0} → (A → B) → Option A → Option B
mapped f none = none
mapped f (some a) = some (f a)

mapped-or_earlier :
    {A B : Type 0} (f : A → B) (a b : Option A)
    → mapped f (or_earlier a b) ≡ or_earlier (mapped f a) (mapped f b)
mapped-or_earlier f (some a) b = refl
mapped-or_earlier f none b = refl

mapped-ite :
    {A B : Type 0} (f : A → B) (k j : SpanKey) (x : A)
    → mapped f (ite (SpanKey-discrete k j) (some x) none)
      ≡ ite (SpanKey-discrete k j) (some (f x)) none
mapped-ite f k j x =
    elim (SpanKey-discrete k j) as (λ d. mapped f (ite d (some x) none) ≡ ite d (some (f x)) none) [
      | yes p ↦ refl
      | no n ↦ refl
    ]

last_under-map :
    {A B : Type 0} (f : A → B) (key : B → SpanKey) (k : SpanKey) (xs : List A)
    → last_under key k (map f xs) ≡ mapped f (last_under (λ x. key (f x)) k xs)
last_under-map f key k [] = refl
last_under-map f key k (x ∷ xs) =
    rw (last_under-map f key k xs, sym (mapped-ite f k (key (f x)) x))
      (sym (mapped-or_earlier f (last_under (λ x. key (f x)) k xs) _))

find_last-last_under :
    (k : SpanKey) (rows : List SpanRow) → find_last k rows ≡ last_under span_key k rows
find_last-last_under k [] = refl
find_last-last_under k (row ∷ rows) =
    rw (find_last-last_under k rows) (same_choice (last_under span_key k rows) _)
  where
    same_choice : (a b : Option SpanRow) → or_else a b ≡ or_earlier a b
    same_choice (some r) b = refl
    same_choice none b = refl

behind_map :
    {A B : Type 0} (f : A → B) (o : Option A) (b : B)
    → mapped f o ≡ some b
    → (a : A) × (o ≡ some a) × (f a ≡ b)
behind_map f none b e = absurd (cc)
behind_map f (some a) b e = (a, refl, cc e)

-- What holds of every element holds of the last under a key.
pub All-last_under :
    {A : Type 0} (P : A → Type 0) (key : A → SpanKey) (k : SpanKey) (xs : List A) (x : A)
    → All P xs
    → last_under key k xs ≡ some x
    → P x
All-last_under P key k [] x h e = absurd (cc)
All-last_under P key k (y ∷ xs) x h e = elim (Option-cases (last_under key k xs)) [
  | inr (z, q) ↦ All-last_under P key k xs x h.1 (ground (arith, q, e))
  | inl q ↦ elim (SpanKey-discrete k (key y)) [
    | yes p ↦ subst P {x = y} {y = x} (ground (arith, p, q, e)) h.0
    | no n ↦ absurd (ground (arith, n, q, e))
  ]
]

pub select_passes : {A : Type 0} (p : A → Bool) (xs : List A) → All (λ x. p x ≡ true) (select p xs)
select_passes p [] = tt
select_passes p (x ∷ xs) = elim (Bool-cases (p x)) [
  | inl t ↦ rw t (t, select_passes p xs)
  | inr t ↦ rw t (select_passes p xs)
]

-- A well-sized span that is the last under its key has its row, which is the last under its key too.
pub row_of_last :
    (codec : Codec TracesData) (seen : List Sent) (b : Batch) (x : Sent)
    → Gathered codec seen b
    → last_under sent_key (sent_key x) (select well_sized seen) ≡ some x
    → (row : SpanRow) × (find_last (sent_key x) b.rows ≡ some row)
      × (stored_item row ≡ sent_item codec x)
row_of_last codec seen b x g h =
    let k = sent_key x in
    let items = ap (last_under (λ (i : SpanKey × Bytes). i.0) k) g.stored in
    let (row, found, same) =
      behind_map stored_item (last_under span_key k b.rows) (sent_item codec x) (
        sym (last_under-map stored_item (λ (i : SpanKey × Bytes). i.0) k b.rows)
        ∙ items
        ∙ last_under-map (sent_item codec) (λ (i : SpanKey × Bytes). i.0) k (select well_sized seen)
        ∙ ap (mapped (sent_item codec)) h) in
    (row, find_last-last_under k b.rows ∙ found, same)

-- The payload of a row decodes.
abbrev pub Readable : Codec TracesData → SpanRow → Type 0
Readable codec row = (m : TracesData) × (codec.decode row.payload ≡ ok m)

pub All-Readable :
    (codec : Codec TracesData) (rows : List SpanRow) (xs : List Sent)
    → map stored_item rows ≡ map (sent_item codec) xs
    → All (λ x. Survives codec (alone x)) xs
    → All (Readable codec) rows
All-Readable codec [] xs e h = tt
All-Readable codec (row ∷ rows) [] e h = absurd (cc)
All-Readable codec (row ∷ rows) (x ∷ xs) e h =
    let (first, rest) = split_items e in
    (
      (alone x, ap (λ (i : SpanKey × Bytes). codec.decode i.1) first ∙ h.0),
      All-Readable codec rows xs rest h.1,
    )
  where
    split_items :
        stored_item row ∷ map stored_item rows ≡ sent_item codec x ∷ map (sent_item codec) xs
        → (stored_item row ≡ sent_item codec x) × (map stored_item rows ≡ map (sent_item codec) xs)
    split_items q = (cc q, cc q)

pub All-upsert_all :
    (P : SpanRow → Type 0) (rows table : List SpanRow)
    → All P rows
    → All P table
    → All P (upsert_all rows table)
unfolding upsert_all
All-upsert_all P [] table h k = k
All-upsert_all P (row ∷ rows) table h k =
    All-upsert_all P rows (upsert row table) h.1 (All-upsert P row table h.0 k)
