-- ===== src/Rollout/Route/Consistency.antt =====
-- Which policies the route lets through.
use egogero.Common.{ℕ, ◌≡◌, refl, ◌⊎◌, inl, inr, Option, none, some, arith, Bool-cases, any}
use egogero.Auth.{AuthenticatedIdentity, oidc_session, development, device, provider, tenant}
use egogero.Rollout.{disabled, internal_provider, pilot, enabled}
use egogero.Rollout.Route.{
  HumanAuthRolloutState, disabled_state, internal_provider_state, pilot_state, enabled_state, Body,
  PolicyInput, PolicyResult, Reply, put_rollout, read_input, checked_input, call_service,
  is_unknown, read_condominio, read_state, read_percentage, field, condominio_field, state_field,
  percentage_field, reply_of,
}

-- What verifyGlobalPolicy asks of a row's state and share: a pilot has one of the three shares and
-- any other state has none; and only the global policy is internal.
pub data IsConsistent (input : PolicyInput) : Type 0 where
  piloted :
      (share : ℕ)
      → input.state ≡ pilot
      → input.cohort_percentage ≡ some share
      → (share ≡ 10) ⊎ ((share ≡ 50) ⊎ (share ≡ 100))
      → IsConsistent input
  plain :
      (input.state ≡ disabled) ⊎ (input.state ≡ enabled)
      → input.cohort_percentage ≡ none
      → IsConsistent input
  internal :
      input.state ≡ internal_provider
      → input.condominio_id ≡ none
      → input.cohort_percentage ≡ none
      → IsConsistent input

fits-IsConsistent :
    (account session : ℕ) (condominio : Option ℕ) (state : HumanAuthRolloutState)
    (percentage : Option ℕ) (input : PolicyInput)
    → checked_input account session (some condominio) (some state) (some percentage) ≡ some input
    → IsConsistent input × (input.actor_account_id ≡ account) × (input.session_id ≡ session)
fits-IsConsistent account session condominio disabled_state none input h =
    (IsConsistent.plain (inl (ground arith)) (ground arith), (ground arith), (ground arith))
fits-IsConsistent account session condominio disabled_state (some n) input h = absurd (cc)
fits-IsConsistent account session condominio enabled_state none input h =
    (IsConsistent.plain (inr (ground arith)) (ground arith), (ground arith), (ground arith))
fits-IsConsistent account session condominio enabled_state (some n) input h = absurd (cc)
fits-IsConsistent account session none internal_provider_state none input h = (
  IsConsistent.internal (ground arith) (ground arith) (ground arith),
  (ground arith),
  (ground arith),
)
fits-IsConsistent account session none internal_provider_state (some n) input h = absurd (cc)
fits-IsConsistent account session (some c) internal_provider_state percentage input h = absurd (cc)
fits-IsConsistent account session condominio pilot_state none input h = absurd (cc)
fits-IsConsistent account session condominio pilot_state (some n) input h = (
  IsConsistent.piloted n (ground arith) (ground arith) (ground arith),
  (ground arith),
  (ground arith),
)

checked-IsConsistent :
    (account session : ℕ) (c : Option (Option ℕ)) (s : Option HumanAuthRolloutState)
    (p : Option (Option ℕ)) (input : PolicyInput)
    → checked_input account session c s p ≡ some input
    → IsConsistent input × (input.actor_account_id ≡ account) × (input.session_id ≡ session)
checked-IsConsistent account session none s p input h = absurd (cc)
checked-IsConsistent account session (some c) none p input h = absurd (cc)
checked-IsConsistent account session (some c) (some s) none input h = absurd (cc)
checked-IsConsistent account session (some c) (some s) (some p) input h =
    fits-IsConsistent account session c s p input h

read-IsConsistent :
    (account session : ℕ) (body : Option Body) (input : PolicyInput)
    → read_input account session body ≡ some input
    → IsConsistent input × (input.actor_account_id ≡ account) × (input.session_id ≡ session)
unfolding read_input
read-IsConsistent account session none input h = absurd (cc)
read-IsConsistent account session (some body) input h =
    elim (Bool-cases (any (λ entry. is_unknown entry.0) body)) [
      | inl unknown ↦ absurd (cc (rw unknown at h))
      | inr known ↦
          checked-IsConsistent account session (read_condominio (field condominio_field body))
            (read_state (field state_field body)) (read_percentage (field percentage_field body))
            input (rw known at h)
    ]

called :
    (set_policy : PolicyInput → Option PolicyResult) (read : Option PolicyInput)
    (input : PolicyInput) (reply : Reply)
    → call_service set_policy read ≡ (some input, reply)
    → (read ≡ some input) × (reply ≡ reply_of (set_policy input))
called set_policy none input reply h = absurd (cc)
called set_policy (some read) input reply h = (ground arith, ground arith)

-- The service is called for a provider's OIDC session only, under its own account and session,
-- with a policy that is consistent; the reply is what the service answers.
pub put_rollout-IsConsistent :
    (set_policy : PolicyInput → Option PolicyResult) (identity : Option AuthenticatedIdentity)
    (body : Option Body) (input : PolicyInput) (reply : Reply)
    → put_rollout set_policy identity body ≡ (some input, reply)
    → ((id : ℕ) × (identity
          ≡ some (oidc_session (provider id) input.actor_account_id input.session_id)))
      × IsConsistent input
      × (reply ≡ reply_of (set_policy input))
unfolding put_rollout
put_rollout-IsConsistent set_policy none body input reply h = absurd (cc)
put_rollout-IsConsistent set_policy (some (oidc_session (provider id) account session)) body input
      reply h =
    let (read, answered) = called set_policy (read_input account session body) input reply h in
    let (good, own_account, own_session) = read-IsConsistent account session body input read in
    ((id, rw (own_account, own_session) refl), good, answered)
put_rollout-IsConsistent set_policy (some (oidc_session (tenant id role cs) account session)) body
      input reply h =
    absurd (cc)
put_rollout-IsConsistent set_policy (some (development s)) body input reply h = absurd (cc)
put_rollout-IsConsistent set_policy (some (device id cs)) body input reply h = absurd (cc)
