-- ===== src/Diagnostics/Services.antt =====
-- How many services there are.
use otelview_postgres.Common.{
  ◌≡◌, refl, sym, ap, ◌∙◌, subst, Bool, true, false, ◌||◌, List, [], ◌∷◌, map, Str, length, any, ok,
  arith, Bool-cases, inl, inr,
}
use otelview_postgres.Common.Int.{pos_part}
use otelview_postgres.Schema.{SpanRow, LogRow, MetricRow, Database}
use otelview_postgres.Database.{calm, ◌>>=◌, pure, request, with_context}
use otelview_postgres.Search.{same}
use otelview_postgres.Listing.{
  Collation, distinct_values, distinct_indexed, services, log_services, metric_services,
}
use otelview_postgres.Listing.Distinct.{distinct_values_lem}
use otelview_postgres.Dependencies.Counts.{same-path}
use otelview_postgres.Diagnostics.{Estimates, extend, stats}

-- No text stands twice.
abbrev pub NoRepeats : List Str → Type 0
NoRepeats [] = Unit
NoRepeats (s ∷ ss) = (any (same s) ss ≡ false) × NoRepeats ss

-- A row of one of the tables has this service.
abbrev pub reports : Str → Database → Bool
reports s db =
    any (λ (r : SpanRow). same s r.service) db.spans
    || (any (λ (r : LogRow). same s r.service) db.logs
        || any (λ (r : MetricRow). same s r.service) db.metric_points)

extend-NoRepeats : (set ss : List Str) → NoRepeats set → NoRepeats (extend set ss)
unfolding extend
extend-NoRepeats set [] h = h
extend-NoRepeats set (s ∷ ss) h = elim (Bool-cases (any (same s) set)) [
  | inl e ↦ rw e (extend-NoRepeats set ss h)
  | inr e ↦ rw e (extend-NoRepeats (s ∷ set) ss (e, h))
]

or_known : (a b c : Bool) → (b ≡ true → a ≡ true) → (a || c) ≡ (a || (b || c))
or_known true b c h = refl
or_known false true c h = absurd (cc (h refl))
or_known false false c h = refl

or_front : (a b c : Bool) → ((b || a) || c) ≡ (a || (b || c))
or_front a b c = ground arith

any-same :
    (set : List Str) (s x : Str)
    → same s x ≡ true
    → any (same x) set ≡ true
    → any (same s) set ≡ true
any-same set s x e h = subst (λ y. any (same y) set ≡ true) (sym (same-path s x e)) h

any-extend :
    (s : Str) (set ss : List Str)
    → any (same s) (extend set ss) ≡ (any (same s) set || any (same s) ss)
unfolding extend
any-extend s set [] = ground arith
any-extend s set (x ∷ ss) = elim (Bool-cases (any (same x) set)) [
  | inl e ↦ rw e (
      any-extend s set ss
      ∙ or_known (any (same s) set) (same s x) (any (same s) ss) (λ q. any-same set s x q e))
  | inr e ↦
      rw e (any-extend s (x ∷ set) ss ∙ or_front (any (same s) set) (same s x) (any (same s) ss))
]

any-map :
    {R : Type 0} (p : Str → Bool) (f : R → Str) (rows : List R)
    → any p (map f rows) ≡ any (λ r. p (f r)) rows
any-map p f [] = refl
any-map p f (r ∷ rows) = ap (λ b. p (f r) || b) (any-map p f rows)

module _ (collation : Collation) where
  listed :
      {R : Type 0} (s : Str) (f : R → Str) (rows : List R)
      → any (same s) (distinct_values collation (map f rows)) ≡ any (λ r. same s (f r)) rows
  listed s f rows = (distinct_values_lem collation (map f rows) s).1 ∙ any-map (same s) f rows

  -- Where no request fails, the answer has the planner's estimates, those below 0 as 0, and as its number of services the length of a list without
  -- repetitions that holds exactly the services of the rows of the three tables. The database is as before.
  pub stats_lem :
      (estimates : Estimates) (db : Database)
      → (names : List Str) × NoRepeats names
        × ((s : Str) → any (same s) names ≡ reports s db)
        × (stats collation estimates (calm db) ≡ (
          ok (record {
            spans = pos_part estimates.spans;
            logs = pos_part estimates.logs;
            metric_points = pos_part estimates.metric_points;
            services = length names;
          }),
          calm db,
        ))
  unfolding stats ◌>>=◌ pure request with_context services log_services metric_services
      distinct_indexed
  stats_lem estimates db =
      let a : List Str = distinct_values collation (map (λ (r : SpanRow). r.service) db.spans) in
      let b : List Str = distinct_values collation (map (λ (r : LogRow). r.service) db.logs) in
      let c : List Str =
        distinct_values collation (map (λ (r : MetricRow). r.service) db.metric_points) in
      let ab : List Str = extend (extend [] a) b in
      (
        extend ab c,
        extend-NoRepeats ab c (extend-NoRepeats (extend [] a) b (extend-NoRepeats [] a tt)),
        λ s. ground (
          arith,
          any-extend s ab c,
          any-extend s (extend [] a) b,
          any-extend s [] a,
          listed s (λ (r : SpanRow). r.service) db.spans,
          listed s (λ (r : LogRow). r.service) db.logs,
          listed s (λ (r : MetricRow). r.service) db.metric_points,
        ),
        refl,
      )
