-- ===== src/Server/Errors.antt =====
-- Queries that cannot be understood are the client's fault.
use otelview_postgres.Common.{
  ℕ, Bool, ◌≡◌, refl, subst, sym, ap, ◌∙◌, true, false, Option, none, some, List, [], ◌∷◌, Str,
  text, Result, ok, err, Error, anyhow, arith, ok_or, ite,
}
use otelview_postgres.Common as Common
use otelview_postgres.Common.Int.{ℤ, pos, ℤ-discrete}
use otelview_postgres.Time.{
  Timestamp, Duration, timestamp_to_nanos, duration_to_nanos, duration_bound,
}
use otelview_postgres.Search.{
  TraceQuery, Condition, start_from, start_before, time_condition, apply_query, find_ids,
}
use otelview_postgres.Json.{Json}
use otelview_postgres.Database.{Connection, ◌>>=◌, lift}
use otelview_postgres.Server.{status, invalid, invalid_or_internal, find_trace_i_ds}

-- The messages of the errors in a query.
abbrev IsQueryError : Error → Type 0
IsQueryError e = invalid_or_internal e ≡ invalid e.message

bad_timestamp : IsQueryError (anyhow (text "timestamp is outside nanosecond range"))
unfolding invalid_or_internal
bad_timestamp = refl

bad_duration : IsQueryError (anyhow (text "duration is outside nanosecond range"))
unfolding invalid_or_internal
bad_duration = refl

ok_or_error {ℓ} : {A : Type ℓ} (o : Option A) (e e' : Error) → ok_or o e ≡ err e' → e ≡ e'
ok_or_error none e e' h = cc
ok_or_error (some a) e e' h = absurd cc

timestamp_error : (ts : Timestamp) (e : Error) → timestamp_to_nanos ts ≡ err e → IsQueryError e
unfolding timestamp_to_nanos
timestamp_error ts e h = subst IsQueryError (ok_or_error _ _ e h) bad_timestamp

duration_error : (d : Duration) (e : Error) → duration_to_nanos d ≡ err e → IsQueryError e
unfolding duration_to_nanos
duration_error d e h = subst IsQueryError (ok_or_error _ _ e h) bad_duration

-- An error comes from the first step or from what follows it.
bind_error {κ ℓ} :
    {T : Type κ} {U : Type ℓ} (r : Result T) (next : T → Result U) (e : Error)
    → ((e' : Error) → r ≡ err e' → IsQueryError e')
    → ((t : T) → r ≡ ok t → next t ≡ err e → IsQueryError e)
    → Common.◌>>=◌ r next ≡ err e
    → IsQueryError e
bind_error (err e') next e first later h = first e (cc)
bind_error (ok t) next e first later h = later t refl h

no_error {ℓ} : {A : Type ℓ} {a : A} {e : Error} → ok a ≡ err e → IsQueryError e
no_error h = absurd cc

ite_no_error {ℓ κ} :
    {P : Type ℓ} {A : Type κ} {e : Error} (d : Dec P) (a b : A)
    → ite d (ok a) (ok b) ≡ err e
    → IsQueryError e
ite_no_error (yes p) a b h = no_error h
ite_no_error (no p) a b h = no_error h

time_condition_error :
    (c : ℤ → Condition) (ts : Option Timestamp) (e : Error)
    → time_condition c ts ≡ err e
    → IsQueryError e
unfolding time_condition
time_condition_error c none e h = no_error h
time_condition_error c (some ts) e h =
    bind_error (timestamp_to_nanos ts) _ e (timestamp_error ts) (λ t _ k. no_error k) h

duration_bound_error : (d : Option Duration) (e : Error) → duration_bound d ≡ err e → IsQueryError e
unfolding duration_bound
duration_bound_error none e h = no_error h
duration_bound_error (some d) e h =
    bind_error (duration_to_nanos d) _ e (duration_error d)
      (λ t _ k. ite_no_error (ℤ-discrete t (pos 0)) _ _ k) h

apply_query_error : (query : TraceQuery) (e : Error) → apply_query query ≡ err e → IsQueryError e
unfolding apply_query
apply_query_error query e h =
    bind_error (time_condition start_from query.start_time_min) _ e
      (time_condition_error start_from query.start_time_min)
      (λ from _ h1.
        bind_error (time_condition start_before query.start_time_max) _ e
          (time_condition_error start_before query.start_time_max)
          (λ before _ h2.
            bind_error (duration_bound query.duration_min) _ e
              (duration_bound_error query.duration_min)
              (λ shortest _ h3.
                bind_error (duration_bound query.duration_max) _ e
                  (duration_bound_error query.duration_max) (λ longest _ h4. no_error h4) h3)
              h2)
          h1)
      h

-- A search whose bounds do not convert is answered with InvalidArgument and the message of the error, and sends nothing to the database.
pub find_trace_i_ds_refuses :
    (jsonb_contains : Json → Json → Bool) (limit : ℕ) (query : TraceQuery) (c : Connection)
    (e : Error)
    → apply_query query ≡ err e
    → find_trace_i_ds jsonb_contains limit (some query) c ≡ (status (invalid e.message), c)
unfolding find_trace_i_ds find_ids ◌>>=◌ lift
find_trace_i_ds_refuses jsonb_contains limit query c e h = rw (h, apply_query_error query e h)
