-- ===== src/Rollout/Route.antt =====
-- The route that changes a policy (src/human-auth-rollout.ts: PUT /admin/human-auth/rollout).
pub mod Consistency
mod Examples
use egogero.Common.{
  ℕ, zero, suc, ◌+◌, ◌-◌, ◌*◌, ◌/◌, ◌%◌, ◌^◌, ◌≤◌, ◌<◌, min, max, ◌≡◌, refl, sym, ap, subst, ◌∙◌,
  ◌≢◌, ◌↔◌, ◌⊎◌, inl, inr, Bool, true, false, not, ◌&&◌, ◌||◌, Option, none, some, List, [], ◌∷◌,
  ◌++◌, map, arith, ltb, leb, ◌==◌, if◌then◌else◌, ==_iff, ==_refl, ==_sym, Bool-cases,
  Option-cases, is, is_none, after, length, length-append, select, first, update, count, any, all,
  head?, count-append, count-le-length, contains, All, Memᴰ, first-mem, first_of-count, any-first,
  count-any, count-mem,
}
use egogero.Auth.{AuthenticatedIdentity, oidc_session, development, device, provider, tenant}
use egogero.Rollout.{StoredState, disabled, internal_provider, pilot, enabled, is_percentage}

pub data HumanAuthRolloutState : Type 0 where
  disabled_state internal_provider_state pilot_state enabled_state : HumanAuthRolloutState

-- A text as the route tells it apart: by isUuid, or as one of the states.
pub data Text : Type 0 where
  uuid : ℕ → Text
  state_name : HumanAuthRolloutState → Text
  other_text : Text

-- The value of a field of the body; `undefined` for one that is not there.
pub data Value : Type 0 where
  undefined null other_value : Value
  text : Text → Value
  integer : ℕ → Value

pub data Field : Type 0 where
  condominio_field state_field percentage_field unknown_field : Field

abbrev pub is_unknown : Field → Bool
is_unknown unknown_field = true
is_unknown _ = false

abbrev pub is_field : Field → Field → Bool
is_field condominio_field condominio_field = true
is_field state_field state_field = true
is_field percentage_field percentage_field = true
is_field _ _ = false

-- An object as its entries.
abbrev pub Body : Type 0
Body = List (Field × Value)

abbrev pub field : Field → Body → Value
field name [] = undefined
field name ((key, value) ∷ rest) = if is_field name key then value else field name rest

pub record PolicyInput : Type 0 where
  pub condominio_id : Option ℕ
  pub state : StoredState
  pub cohort_percentage : Option ℕ
  pub actor_account_id : ℕ
  pub session_id : ℕ

pub record PolicyResult : Type 0 where
  pub version : ℕ
  pub revoked_sessions : ℕ

pub data Reply : Type 0 where
  authentication_required forbidden invalid_request reauthentication_required : Reply
  sent : PolicyResult → Reply

abbrev pub stored_state : HumanAuthRolloutState → StoredState
stored_state disabled_state = disabled
stored_state internal_provider_state = internal_provider
stored_state pilot_state = pilot
stored_state enabled_state = enabled

-- `condominioId`: null or a UUID.
abbrev pub read_condominio : Value → Option (Option ℕ)
read_condominio null = some none
read_condominio (text (uuid id)) = some (some id)
read_condominio _ = none

abbrev pub read_state : Value → Option HumanAuthRolloutState
read_state (text (state_name s)) = some s
read_state _ = none

-- `cohortPercentage`: a value that is neither null nor a number fits no state.
abbrev pub read_percentage : Value → Option (Option ℕ)
read_percentage undefined = some none
read_percentage null = some none
read_percentage (integer n) = some (some n)
read_percentage _ = none

abbrev pub state_fits : Option ℕ → HumanAuthRolloutState → Option ℕ → Bool
state_fits condominio pilot_state percentage = is_percentage percentage
state_fits condominio internal_provider_state percentage = is_none condominio && is_none percentage
state_fits condominio _ percentage = is_none percentage

abbrev pub checked_input :
    ℕ
    → ℕ
    → Option (Option ℕ)
    → Option HumanAuthRolloutState
    → Option (Option ℕ)
    → Option PolicyInput
checked_input account session (some condominio) (some state) (some percentage) =
    if state_fits condominio state percentage
    then some (record {
      condominio_id = condominio;
      state = stored_state state;
      cohort_percentage = percentage;
      actor_account_id = account;
      session_id = session;
    })
    else none
checked_input account session _ _ _ = none

-- The body, or none for one that is answered by invalid_request.
pub read_input : ℕ → ℕ → Option Body → Option PolicyInput
read_input account session none = none
read_input account session (some body) =
    if any (λ entry. is_unknown entry.0) body
    then none
    else checked_input account session (read_condominio (field condominio_field body))
        (read_state (field state_field body)) (read_percentage (field percentage_field body))

-- `providerActor`: an OIDC session of a provider, with its account and session.
abbrev pub provider_actor : AuthenticatedIdentity → Option (ℕ × ℕ)
provider_actor (oidc_session (provider id) account session) = some (account, session)
provider_actor (oidc_session (tenant id role condominiums) account session) = none
provider_actor (development s) = none
provider_actor (device id condominiums) = none

abbrev pub reply_of : Option PolicyResult → Reply
reply_of none = reauthentication_required
reply_of (some result) = sent result

-- `setPolicy` calls a function of the database, which is a parameter; the call made comes first.
abbrev pub call_service :
    (PolicyInput → Option PolicyResult) → Option PolicyInput → Option PolicyInput × Reply
call_service set_policy none = (none, invalid_request)
call_service set_policy (some input) = (some input, reply_of (set_policy input))

abbrev pub as_actor :
    (PolicyInput → Option PolicyResult) → Option (ℕ × ℕ) → Option Body → Option PolicyInput × Reply
as_actor set_policy none body = (none, forbidden)
as_actor set_policy (some (account, session)) body =
    call_service set_policy (read_input account session body)

pub put_rollout :
    (PolicyInput → Option PolicyResult)
    → Option AuthenticatedIdentity
    → Option Body
    → Option PolicyInput × Reply
put_rollout set_policy none body = (none, authentication_required)
put_rollout set_policy (some identity) body = as_actor set_policy (provider_actor identity) body
