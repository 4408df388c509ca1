-- ===== src/Dependencies/Counts.antt =====
-- The counts of the dependency listing.
use otelview_postgres.Common.{
  ℕ, suc, ◌+◌, ◌≤◌, max, ◌≡◌, refl, sym, ◌∙◌, Bool, true, false, ◌&&◌, List, [], ◌∷◌, ◌++◌, map,
  if◌then◌else◌, Str, length, select, total, ok, arith, Bool-cases, inl, inr, ◌⊎◌,
}
use otelview_postgres.Common.Chunks.{concat}
use otelview_postgres.Common.Int.{ℤ}
use otelview_postgres.Common.Sorting.{sort, insert_sorted}
use otelview_postgres.Schema.{SpanRow, Database}
use otelview_postgres.Database.{calm, request}
use otelview_postgres.Search.{same}
use otelview_postgres.Common.Sorted.{IsSorted, sort-IsSorted}
use otelview_postgres.Dependencies.{
  Calls, calls_into, started_within, joined, of_pair, add_call, count_calls, busiest_first,
  dependencies,
}

-- What the listing says of a pair of services: its calls, and in how many rows.
abbrev pub listed_calls : Str × Str → List Calls → ℕ
listed_calls k = total (λ g. if of_pair k g then g.calls else 0)

abbrev pub entries : Str × Str → List Calls → ℕ
entries k gs = length (select (of_pair k) gs)

abbrev is_pair : Str × Str → Str × Str → Bool
is_pair k j = same k.0 j.0 && same k.1 j.1

abbrev occurrences : Str × Str → List (Str × Str) → ℕ
occurrences k ks = length (select (is_pair k) ks)

-- The spans of the parent service that a span calls into.
abbrev pub parents_in : List SpanRow → Str → SpanRow → ℕ
parents_in spans parent c =
    length (select (λ (p : SpanRow). calls_into c p && same p.service parent) spans)

-- The calls from one service into another: for each span of the child that starts within the time, its parents in the
-- parent service.
abbrev pub calls_between : ℤ → ℤ → List SpanRow → Str → Str → ℕ
calls_between start end spans parent child =
    total
      (λ (c : SpanRow).
        if started_within start end c && same c.service child then parents_in spans parent c else 0)
      spans

listed_calls-add_call :
    (k j : Str × Str) (gs : List Calls)
    → listed_calls k (add_call j gs) ≡ (if is_pair k j then 1 else 0) + listed_calls k gs
unfolding add_call
listed_calls-add_call k j [] = refl
listed_calls-add_call k j (g ∷ gs) = ground (arith, listed_calls-add_call k j gs)

pub same-path : (a b : Str) → same a b ≡ true → a ≡ b
same-path a b h = ground arith

-- A row of the pair `j` is one of the pair `k` if the pairs are the same.
of_pair-is_pair : (k j : Str × Str) (g : Calls) → of_pair j g ≡ true → of_pair k g ≡ is_pair k j
of_pair-is_pair k j g h =
    let both : (same j.0 g.parent ≡ true) × (same j.1 g.child ≡ true) = ground arith in
    rw (same-path j.0 g.parent both.0, same-path j.1 g.child both.1)

of_pair-exclusive :
    (k j : Str × Str) (g : Calls)
    → of_pair j g ≡ false
    → (is_pair k j ≡ false) ⊎ (of_pair k g ≡ false)
of_pair-exclusive k j g h = elim (Bool-cases (is_pair k j)) [
  | inr e ↦ inl e
  | inl e ↦
      let both : (same k.0 j.0 ≡ true) × (same k.1 j.1 ≡ true) = ground arith in
      inr (rw (same-path k.0 j.0 both.0, same-path k.1 j.1 both.1) h)
]

length-if :
    (b : Bool) (xs ys : List Calls)
    → length (if b then xs else ys) ≡ (if b then length xs else length ys)
length-if true xs ys = refl
length-if false xs ys = refl

at_most_one :
    (b : Bool) (n : ℕ)
    → (if b then suc n else n)
      ≡ (if b then max 1 (if b then suc n else n) else (if b then suc n else n))
at_most_one true n = omega arith
at_most_one false n = refl

carried :
    (a b : Bool) (n m : ℕ)
    → m ≡ (if b then max 1 n else n)
    → (b ≡ false) ⊎ (a ≡ false)
    → (if a then suc m else m)
      ≡ (if b then max 1 (if a then suc n else n) else (if a then suc n else n))
carried true b n m h k = ground arith
carried false b n m h k = ground arith

entries-add_call :
    (k j : Str × Str) (gs : List Calls)
    → entries k (add_call j gs) ≡ (if is_pair k j then max 1 (entries k gs) else entries k gs)
unfolding add_call
entries-add_call k j [] = length-if (is_pair k j) (_ ∷ []) []
entries-add_call k j (g ∷ gs) = elim (Bool-cases (of_pair j g)) [
  | inl e ↦
      rw
        (
          e,
          of_pair-is_pair k j g e,
          length-if (is_pair k j) (record g { calls = g.calls + 1 } ∷ select (of_pair k) gs)
              (select (of_pair k) gs),
          length-if (is_pair k j) (g ∷ select (of_pair k) gs) (select (of_pair k) gs),
        )
        (at_most_one (is_pair k j) (length (select (of_pair k) gs)))
  | inr e ↦
      rw
        (
          e,
          length-if (of_pair k g) (g ∷ select (of_pair k) (add_call j gs))
              (select (of_pair k) (add_call j gs)),
          length-if (of_pair k g) (g ∷ select (of_pair k) gs) (select (of_pair k) gs),
        )
        (carried (of_pair k g) (is_pair k j) (entries k gs) (entries k (add_call j gs))
          (entries-add_call k j gs) (of_pair-exclusive k j g e))
]

count_calls_lem :
    (k : Str × Str) (ks : List (Str × Str))
    → (listed_calls k (count_calls ks) ≡ occurrences k ks) × (entries k (count_calls ks) ≤ 1)
unfolding count_calls
count_calls_lem k [] = (refl, omega arith)
count_calls_lem k (j ∷ ks) = ground (
  arith,
  count_calls_lem k ks,
  listed_calls-add_call k j (count_calls ks),
  entries-add_call k j (count_calls ks),
)

-- Sorting changes no count.
total-insert_sorted :
    (f : Calls → ℕ) (g : Calls) (gs : List Calls)
    → total f (insert_sorted busiest_first g gs) ≡ f g + total f gs
total-insert_sorted f g [] = refl
total-insert_sorted f g (h ∷ gs) = ground (arith, total-insert_sorted f g gs)

total-sort : (f : Calls → ℕ) (gs : List Calls) → total f (sort busiest_first gs) ≡ total f gs
total-sort f [] = refl
total-sort f (g ∷ gs) =
    omega (arith, total-insert_sorted f g (sort busiest_first gs), total-sort f gs)

entries-total :
    (k : Str × Str) (gs : List Calls) → entries k gs ≡ total (λ g. if of_pair k g then 1 else 0) gs
entries-total k [] = refl
entries-total k (g ∷ gs) = ground (arith, entries-total k gs)

entries-sort : (k : Str × Str) (gs : List Calls) → entries k (sort busiest_first gs) ≡ entries k gs
entries-sort k gs =
    entries-total k (sort busiest_first gs)
    ∙ total-sort (λ g. if of_pair k g then 1 else 0) gs
    ∙ sym (entries-total k gs)

occurrences-append :
    (k : Str × Str) (xs ys : List (Str × Str))
    → occurrences k (xs ++ ys) ≡ occurrences k xs + occurrences k ys
occurrences-append k [] ys = omega arith
occurrences-append k (x ∷ xs) ys = ground (arith, occurrences-append k xs ys)

module _ (start end : ℤ) (spans : List SpanRow) (parent child : Str) where
  -- The joined rows of one child span.
  occurrences-parents :
      (c : SpanRow) (ps : List SpanRow)
      → occurrences
          (parent, child)
          (map (λ (p : SpanRow). (p.service, c.service)) (select (calls_into c) ps))
        ≡ (if same c.service child then parents_in ps parent c else 0)
  occurrences-parents c [] = ground arith
  occurrences-parents c (p ∷ ps) = ground (arith, occurrences-parents c ps)

  occurrences-joined :
      (cs : List SpanRow)
      → occurrences
          (parent, child)
          (concat (
            map
              (λ (c : SpanRow).
                map (λ (p : SpanRow). (p.service, c.service)) (select (calls_into c) spans))
              (select (started_within start end) cs)))
        ≡ total
            (λ (c : SpanRow).
              if started_within start end c && same c.service child
              then parents_in spans parent c
              else 0)
            cs
  occurrences-joined [] = refl
  occurrences-joined (c ∷ cs) = elim (Bool-cases (started_within start end c)) [
    | inl e ↦ rw e (
        occurrences-append (parent, child)
          (map (λ (p : SpanRow). (p.service, c.service)) (select (calls_into c) spans))
          (concat (
            map
              (λ (x : SpanRow).
                map (λ (p : SpanRow). (p.service, x.service)) (select (calls_into x) spans))
              (select (started_within start end) cs)))
        ∙ omega (arith, occurrences-parents c spans, occurrences-joined cs))
    | inr e ↦ rw e (omega (arith, occurrences-joined cs))
  ]

-- If the database answers, `dependencies` changes nothing and lists, busiest pair first, each pair of services in at most one row, with the
-- number of calls from the one into the other by spans that start within the time.
pub dependencies_lem :
    (start end : ℤ) (db : Database) (parent child : Str)
    → (gs : List Calls) × (dependencies start end (calm db) ≡ (ok gs, calm db))
      × IsSorted busiest_first gs
      × (entries (parent, child) gs ≤ 1)
      × (listed_calls (parent, child) gs ≡ calls_between start end db.spans parent child)
unfolding dependencies joined request
dependencies_lem start end db parent child =
    let k : Str × Str = (parent, child) in
    let gs = count_calls (joined start end db.spans) in
    let (counted, once) = count_calls_lem k (joined start end db.spans) in
    (
      sort busiest_first gs,
      refl,
      sort-IsSorted busiest_first (λ x y h. ground arith) (λ x y z h k. ground arith) gs,
      omega (arith, entries-sort k gs, once),
      total-sort (λ g. if of_pair k g then g.calls else 0) gs
          ∙ counted
          ∙ occurrences-joined start end db.spans parent child db.spans,
    )
