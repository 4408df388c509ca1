-- ===== src/Metrics/Catalog/Order.antt =====
-- The look-ups may end in any order.
use otelview_postgres.Common.{
  ℕ, zero, suc, ◌+◌, ◌≤◌, ◌<◌, ◌≡◌, ◌≢◌, ◌⊎◌, inl, inr, refl, sym, ap, subst, ◌∙◌, Option, none,
  some, List, [], ◌∷◌, ◌++◌, map, length, length-append, All, Result, ok, err, Error, ok-injective,
  arith, append_assoc,
}
use otelview_postgres.Common as Common
use otelview_postgres.Metrics.Catalog.{
  MetricInfo, Joined, set_slot, pick, join_all, flatten, empty_slots, collect_infos,
}

-- The tasks of look-ups whose results are given, the first at place `i`.
abbrev pub numbered : ℕ → List (Result MetricInfo) → List Joined
numbered i [] = []
numbered i (r ∷ found) = record { index = i; info = r } ∷ numbered (suc i) found

-- Some look-up ends in the error.
abbrev pub FailsWith : Error → List (Result MetricInfo) → Type 0
FailsWith e [] = ⊥
FailsWith e (r ∷ found) = (r ≡ err e) ⊎ FailsWith e found

-- What may come of look-ups: all their infos in order, or an error that one of them has.
abbrev pub Collected : List (Result MetricInfo) → Result (List MetricInfo) → Type 0
Collected found (ok infos) = found ≡ map ok infos
Collected found (err e) = FailsWith e found

-- The slots with the results that are still to come.
abbrev Slots : Type 0
Slots = List (Option (Result MetricInfo))

put : ℕ → Result MetricInfo → Slots → Slots
put i v [] = []
put zero v (s ∷ slots) = some v ∷ slots
put (suc i) v (s ∷ slots) = s ∷ put i v slots

fill : List Joined → Slots → Slots
fill [] slots = slots
fill (t ∷ tasks) slots = fill tasks (put t.index t.info slots)

embed : List (Option MetricInfo) → Slots
embed [] = []
embed (none ∷ slots) = none ∷ embed slots
embed (some v ∷ slots) = some (ok v) ∷ embed slots

embed-set_slot :
    (i : ℕ) (v : MetricInfo) (slots : List (Option MetricInfo))
    → embed (set_slot i v slots) ≡ put i (ok v) (embed slots)
unfolding embed put
embed-set_slot i v [] = refl
embed-set_slot zero v (none ∷ slots) = refl
embed-set_slot zero v (some w ∷ slots) = refl
embed-set_slot (suc i) v (none ∷ slots) = ap (◌∷◌ none) (embed-set_slot i v slots)
embed-set_slot (suc i) v (some w ∷ slots) = ap (◌∷◌ (some (ok w))) (embed-set_slot i v slots)

put_comm :
    (i j : ℕ) (v w : Result MetricInfo) (slots : Slots)
    → i ≢ j
    → put i v (put j w slots) ≡ put j w (put i v slots)
unfolding put
put_comm i j v w [] h = refl
put_comm zero zero v w (s ∷ slots) h = absurd (h refl)
put_comm zero (suc j) v w (s ∷ slots) h = refl
put_comm (suc i) zero v w (s ∷ slots) h = refl
put_comm (suc i) (suc j) v w (s ∷ slots) h = ap (◌∷◌ s) (put_comm i j v w slots (λ e. h (ap suc e)))

abbrev Apart : Joined → Joined → Type 0
Apart t u = t.index ≢ u.index

abbrev Distinct : List Joined → Type 0
Distinct [] = Unit
Distinct (t ∷ tasks) = All (Apart t) tasks × Distinct tasks

pick-All :
    (P : Joined → Type 0) (i : ℕ) (t : Joined) (tasks : List Joined)
    → P t
    → All P tasks
    → P (pick i t tasks).0 × All P (pick i t tasks).1
pick-All P i t [] h k = (h, tt)
pick-All P zero t (u ∷ rest) h k = (h, k)
pick-All P (suc i) t (u ∷ rest) h k =
    let (here, others) = pick-All P i u rest k.0 k.1 in (here, (h, others))

pick-Distinct :
    (i : ℕ) (t : Joined) (tasks : List Joined) → Distinct (t ∷ tasks) → Distinct (pick i t tasks).1
pick-Distinct i t [] h = tt
pick-Distinct zero t (u ∷ rest) h = h.1
pick-Distinct (suc i) t (u ∷ rest) h =
    ((pick-All (Apart t) i u rest h.0.0 h.0.1).1, pick-Distinct i u rest h.1)

length-pick : (i : ℕ) (t : Joined) (tasks : List Joined) → length (pick i t tasks).1 ≡ length tasks
length-pick i t [] = refl
length-pick zero t (u ∷ rest) = refl
length-pick (suc i) t (u ∷ rest) = ap suc (length-pick i u rest)

-- Taking one task first changes nothing.
fill-pick :
    (i : ℕ) (t : Joined) (tasks : List Joined) (slots : Slots)
    → Distinct (t ∷ tasks)
    → fill (pick i t tasks).1 (put (pick i t tasks).0.index (pick i t tasks).0.info slots)
      ≡ fill (t ∷ tasks) slots
unfolding fill
fill-pick i t [] slots h = refl
fill-pick zero t (u ∷ rest) slots h = refl
fill-pick (suc i) t (u ∷ rest) slots h =
    let chosen = (pick i u rest).0 in
    ap (fill (pick i u rest).1) (
      put_comm t.index chosen.index t.info chosen.info slots
        (pick-All (Apart t) i u rest h.0.0 h.0.1).0)
    ∙ fill-pick i u rest (put t.index t.info slots) h.1

Traced : List (Result MetricInfo) → Joined → Type 0
Traced found t = (e : Error) → t.info ≡ err e → FailsWith e found

-- The loop fills the slots, or ends in an error of a look-up.
Joins : List (Result MetricInfo) → Slots → Result (List (Option MetricInfo)) → Type 0
Joins found slots (ok filled) = embed filled ≡ slots
Joins found slots (err e) = FailsWith e found

-- The result of a look-up that ended goes to its slot, or ends the loop.
after_join :
    (found : List (Result MetricInfo))
    (rest : List (Option MetricInfo) → Result (List (Option MetricInfo))) (done : Joined)
    (filled : Slots → Slots) (slots : List (Option MetricInfo)) (goal : Slots)
    → Traced found done
    → filled (put done.index done.info (embed slots)) ≡ goal
    → ((slots' : List (Option MetricInfo)) → Joins found (filled (embed slots')) (rest slots'))
    → Joins found goal (Common.◌>>=◌ done.info λ info. rest (set_slot done.index info slots))
unfolding Joins Traced
after_join found rest done filled slots goal here same later = by_info done.info refl
  where
    by_info :
        (info : Result MetricInfo)
        → done.info ≡ info
        → Joins found goal (Common.◌>>=◌ info λ v. rest (set_slot done.index v slots))
    by_info (err e) h = here e h
    by_info (ok v) h =
        subst (λ s. Joins found s (rest (set_slot done.index v slots)))
          (ap filled
              (embed-set_slot done.index v slots ∙ ap (λ r. put done.index r (embed slots)) (sym h))
            ∙ same)
          (later (set_slot done.index v slots))

-- What has been joined, and what is still to come, make up the same slots in every order.
join_all_lem :
    (found : List (Result MetricInfo)) (rounds : ℕ) (choices : ℕ → ℕ) (tasks : List Joined)
    (slots : List (Option MetricInfo))
    → length tasks ≡ rounds
    → Distinct tasks
    → All (Traced found) tasks
    → Joins found (fill tasks (embed slots)) (join_all rounds choices tasks slots)
unfolding join_all Joins fill
join_all_lem found zero choices [] slots n d h = refl
join_all_lem found zero choices (t ∷ tasks) slots n d h = absurd (omega arith)
join_all_lem found (suc rounds) choices [] slots n d h = refl
join_all_lem found (suc rounds) choices (t ∷ tasks) slots n d h =
    let (done, left) = pick (choices rounds) t tasks in
    let (here, others) = pick-All (Traced found) (choices rounds) t tasks h.0 h.1 in
    after_join found (join_all rounds choices left) done (fill left) slots
      (fill (t ∷ tasks) (embed slots)) here (fill-pick (choices rounds) t tasks (embed slots) d)
      (λ slots'.
        join_all_lem found rounds choices left slots'
          (omega (arith, length-pick (choices rounds) t tasks))
          (pick-Distinct (choices rounds) t tasks d) others)

nothing_yet : ℕ → Slots
nothing_yet zero = []
nothing_yet (suc n) = none ∷ nothing_yet n

put-append :
    (before : Slots) (v : Result MetricInfo) (s : Option (Result MetricInfo)) (slots : Slots)
    → put (length before) v (before ++ s ∷ slots) ≡ before ++ some v ∷ slots
unfolding put
put-append [] v s slots = refl
put-append (x ∷ before) v s slots = ap (◌∷◌ x) (put-append before v s slots)

fill-numbered :
    (i : ℕ) (before : Slots) (found : List (Result MetricInfo))
    → length before ≡ i
    → fill (numbered i found) (before ++ nothing_yet (length found)) ≡ before ++ map some found
unfolding fill nothing_yet
fill-numbered i before [] h = refl
fill-numbered i before (r ∷ found) h =
    ap (λ k. fill (numbered (suc i) found) (put k r (before ++ none ∷ nothing_yet (length found))))
      (sym h)
    ∙ ap (fill (numbered (suc i) found)) (put-append before r none (nothing_yet (length found)))
    ∙ ap (fill (numbered (suc i) found))
        (sym (append_assoc before (some r ∷ []) (nothing_yet (length found))))
    ∙ fill-numbered (suc i) (before ++ some r ∷ []) found
        (omega (arith, length-append {0} before (some r ∷ []), h))
    ∙ append_assoc before (some r ∷ []) (map some found)

numbered-Distinct : (i : ℕ) (found : List (Result MetricInfo)) → Distinct (numbered i found)
numbered-Distinct i [] = tt
numbered-Distinct i (r ∷ found) =
    (later i (suc i) found (omega arith), numbered-Distinct (suc i) found)
  where
    later :
        (i j : ℕ) (found : List (Result MetricInfo))
        → i < j
        → All (λ (u : Joined). i ≢ u.index) (numbered j found)
    later i j [] h = tt
    later i j (r ∷ found) h = (λ e. omega arith, later i (suc j) found (omega arith))

embed-some :
    (filled : List (Option MetricInfo)) (found : List (Result MetricInfo))
    → embed filled ≡ map some found
    → found ≡ map ok (flatten filled)
unfolding embed
embed-some [] [] h = refl
embed-some [] (r ∷ found) h = absurd cc
embed-some (none ∷ filled) [] h = absurd cc
embed-some (some v ∷ filled) [] h = absurd cc
embed-some (none ∷ filled) (r ∷ found) h = absurd cc
embed-some (some v ∷ filled) (r ∷ found) h = cc (embed-some filled found (cc))

embed-empty_slots :
    (i : ℕ) (found : List (Result MetricInfo))
    → embed (empty_slots (numbered i found)) ≡ nothing_yet (length found)
unfolding embed nothing_yet
embed-empty_slots i [] = refl
embed-empty_slots i (r ∷ found) = ap (◌∷◌ none) (embed-empty_slots (suc i) found)

FailsWith-Traced :
    (i : ℕ) (part found : List (Result MetricInfo))
    → ((e : Error) → FailsWith e part → FailsWith e found)
    → All (Traced found) (numbered i part)
unfolding Traced
FailsWith-Traced i [] found h = tt
FailsWith-Traced i (r ∷ part) found h =
    (λ e p. h e (inl p), FailsWith-Traced (suc i) part found (λ e p. h e (inr p)))

-- In whatever order the look-ups end, the listing collects all their infos in the order of the names, or ends in an error that one of the look-ups has.
pub collect_infos-Collected :
    (choices : ℕ → ℕ) (found : List (Result MetricInfo))
    → Collected found (collect_infos choices (numbered 0 found))
unfolding Joins
collect_infos-Collected choices found =
    let tasks = numbered 0 found in
    finished (join_all (length tasks) choices tasks (empty_slots tasks))
      (join_all_lem found (length tasks) choices tasks (empty_slots tasks) refl
        (numbered-Distinct 0 found) (FailsWith-Traced 0 found found (λ e p. p)))
      (ap (fill tasks) (embed-empty_slots 0 found) ∙ fill-numbered 0 [] found refl)
  where
    finished :
        (r : Result (List (Option MetricInfo)))
        → Joins found (fill (numbered 0 found) (embed (empty_slots (numbered 0 found)))) r
        → fill (numbered 0 found) (embed (empty_slots (numbered 0 found))) ≡ map some found
        → Collected found (Common.◌>>=◌ r λ slots. ok (flatten slots))
    finished (err e) h k = h
    finished (ok filled) h k = embed-some filled found (h ∙ k)
