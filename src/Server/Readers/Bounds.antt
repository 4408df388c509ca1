-- ===== src/Server/Readers/Bounds.antt =====
-- Which requests for dependencies are refused.
use otelview_postgres.Common.{
  ◌⊎◌, inl, inr, ◌≡◌, refl, ap, true, List, [], ◌∷◌, Option, none, some, map, Str, text, Result, ok,
  err, Error, arith, Bool-cases,
}
use otelview_postgres.Common.Int.{ℤ, ltb_ℤ}
use otelview_postgres.Time.{Timestamp, timestamp_to_nanos}
use otelview_postgres.Database.{Connection}
use otelview_postgres.Dependencies.{Calls, dependencies}
use otelview_postgres.Server.{
  Reply, status, reply, and_then, internal, invalid, internal_error, invalid_argument,
}
use otelview_postgres.Server.Readers.{
  DependenciesRequest, bound, Dependency, dependency, get_dependencies,
}

-- Both bounds are given, convert to nanoseconds, and the first is before the second.
pub record Window (request : DependenciesRequest) (start end : ℤ) : Type 0 where
  pub first : Timestamp
  pub last : Timestamp
  pub from_given : request.start_time ≡ some first
  pub to_given : request.end_time ≡ some last
  pub from_converts : timestamp_to_nanos first ≡ ok start
  pub to_converts : timestamp_to_nanos last ≡ ok end
  pub in_order : ltb_ℤ start end ≡ true

bound_ok :
    (missing : Str) (ts : Timestamp) (nanos : ℤ)
    → timestamp_to_nanos ts ≡ ok nanos
    → bound missing (some ts) ≡ reply nanos
bound_ok missing ts nanos e =
    ap
      (λ (r : Result ℤ). elim r as (λ r. Reply ℤ) [
        | err e ↦ status (invalid e.message)
        | ok nanos ↦ reply nanos
      ])
      e

bound_err :
    (missing : Str) (ts : Timestamp) (x : Error)
    → timestamp_to_nanos ts ≡ err x
    → bound missing (some ts) ≡ status (invalid x.message)
bound_err missing ts x e =
    ap
      (λ (r : Result ℤ). elim r as (λ r. Reply ℤ) [
        | err e ↦ status (invalid e.message)
        | ok nanos ↦ reply nanos
      ])
      e

-- How one bound turns out.
bound-cases :
    (missing : Str) (o : Option Timestamp)
    → ((ts : Timestamp) × (nanos : ℤ) × (o ≡ some ts)
        × (timestamp_to_nanos ts ≡ ok nanos)
        × (bound missing o ≡ reply nanos))
      ⊎ (((ts : Timestamp) (nanos : ℤ) → o ≡ some ts → timestamp_to_nanos ts ≡ ok nanos → ⊥)
          × ((message : Str) × (bound missing o ≡ status (invalid message))))
bound-cases missing none = inr (λ ts nanos e _. absurd (cc), (missing, refl))
bound-cases missing (some ts) = by_result (timestamp_to_nanos ts) refl
  where
    by_result :
        (r : Result ℤ)
        → timestamp_to_nanos ts ≡ r
        → ((ts' : Timestamp) × (nanos : ℤ) × (some ts ≡ some ts')
            × (timestamp_to_nanos ts' ≡ ok nanos)
            × (bound missing (some ts) ≡ reply nanos))
          ⊎ (((ts' : Timestamp) (nanos : ℤ)
                → some ts ≡ some ts'
                → timestamp_to_nanos ts' ≡ ok nanos
                → ⊥)
              × ((message : Str) × (bound missing (some ts) ≡ status (invalid message))))
    by_result (ok nanos) e = inl (ts, nanos, refl, e, bound_ok missing ts nanos e)
    by_result (err x) e =
        inr (λ ts' nanos same q. absurd (cc), (x.message, bound_err missing ts x e))

step :
    {request : DependenciesRequest} {first last : Timestamp} (start end start' end' : ℤ)
    → Window request start' end'
    → request.start_time ≡ some first
    → timestamp_to_nanos first ≡ ok start
    → request.end_time ≡ some last
    → timestamp_to_nanos last ≡ ok end
    → ltb_ℤ start end ≡ true
step {request} {first} {last} start end start' end' w a b c d =
    let same_first : w.first ≡ first = ground (arith, w.from_given, a) in
    let same_last : w.last ≡ last = ground (arith, w.to_given, c) in
    let same_start : start ≡ start' =
      ground (arith, ap timestamp_to_nanos same_first, w.from_converts, b) in
    let same_end : end ≡ end' = ground (arith, ap timestamp_to_nanos same_last, w.to_converts, d) in
    rw (same_start, same_end) w.in_order

-- The answer to a request whose window holds these calls: the services of each pair, how often the one calls the other, and where
-- that is known from.
abbrev pub answer : List Calls → List Dependency
answer [] = []
answer (g ∷ gs) =
    record { parent = g.parent; child = g.child; call_count = g.calls; source = text "postgres" }
    ∷ answer gs

answer-map : (gs : List Calls) → map dependency gs ≡ answer gs
answer-map [] = refl
answer-map (g ∷ gs) = ap (λ l. dependency g ∷ l) (answer-map gs)

-- What becomes of the calls of a window, or of an error in their place.
abbrev pub Answered : Result (List Calls) → Reply (List Dependency) → Type 0
Answered (ok gs) r = r ≡ reply (answer gs)
Answered (err x) r =
    r ≡ status (record { code = internal_error; message = text "storage request failed" })

-- What the handler makes of the result of `dependencies`.
answered :
    (o : Result (List Calls) × Connection)
    → Answered o.0 (and_then internal o (λ calls c'. (reply (map dependency calls), c'))).0
      × ((and_then internal o (λ calls c'. (reply (map dependency calls), c'))).1 ≡ o.1)
unfolding internal
answered (ok gs, c) = (ap reply (answer-map gs), refl)
answered (err x, c) = (refl, refl)

-- A request for dependencies either names a window, and is answered by the calls between services that `dependencies` finds in it, each with its
-- caller as the parent, its callee as the child and "postgres" as the source, or, whatever error the database has, by Internal
-- with "storage request failed"; or it names none, and is answered by InvalidArgument with no request to the database.
pub get_dependencies_lem :
    (request : DependenciesRequest) (c : Connection)
    → ((start : ℤ) × (end : ℤ) × Window request start end
        × Answered (dependencies start end c).0 (get_dependencies request c).0
        × ((get_dependencies request c).1 ≡ (dependencies start end c).1))
      ⊎ (((start end : ℤ) → Window request start end → ⊥)
          × ((message : Str) × (get_dependencies request c
                ≡ (status (record { code = invalid_argument; message = message }), c))))
unfolding get_dependencies
get_dependencies_lem request c =
    elim (bound-cases (text "start_time is required") request.start_time) [
      | inr (never, (message, e)) ↦
          inr
            (λ start end w. never w.first start w.from_given w.from_converts, (message, rw e refl))
      | inl (first, start, given, converts, e) ↦
          elim (bound-cases (text "end_time is required") request.end_time) [
            | inr (never, (message, e')) ↦ inr (
              λ start' end w. never w.last end w.to_given w.to_converts,
              (message, rw (e, e') refl),
            )
            | inl (last, end, given', converts', e') ↦ elim (Bool-cases (ltb_ℤ start end)) [
              | inl t ↦ inl (
                start,
                end,
                record {
                  first = first;
                  last = last;
                  from_given = given;
                  to_given = given';
                  from_converts = converts;
                  to_converts = converts';
                  in_order = t;
                },
                rw (e, e', t) (answered (dependencies start end c)).0,
                rw (e, e', t) (answered (dependencies start end c)).1,
              )
              | inr t ↦ inr (
                λ start' end' w.
                    let here : ltb_ℤ start end ≡ true =
                      step start end start' end' w given converts given' converts' in
                    absurd (cc),
                (text "start_time must be before end_time", rw (e, e', t) refl),
              )
            ]
          ]
    ]
