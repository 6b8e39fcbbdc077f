-- ===== src/Rollout/Route/Examples.antt =====
-- A provider puts one condominium into a pilot.
use egogero.Common.{ℕ, ◌≡◌, refl, Option, none, some, [], ◌∷◌, ◌==◌, if◌then◌else◌}
use egogero.Auth.{AuthenticatedIdentity, oidc_session, provider}
use egogero.Rollout.{pilot}
use egogero.Rollout.Route.{
  PolicyInput, PolicyResult, Body, put_rollout, read_input, condominio_field, state_field,
  percentage_field, text, uuid, state_name, pilot_state, integer, reply_of, unknown_field, null,
  invalid_request,
}
use egogero.Rollout.Route.Consistency.{IsConsistent, put_rollout-IsConsistent}

abbrev body : Body
body =
    (condominio_field, text (uuid 20))
    ∷ (state_field, text (state_name pilot_state))
    ∷ (percentage_field, integer 10)
    ∷ []

abbrev asked : PolicyInput
asked = record {
  condominio_id = some 20;
  state = pilot;
  cohort_percentage = some 10;
  actor_account_id = 91;
  session_id = 92;
}

abbrev set_policy : PolicyInput → Option PolicyResult
set_policy input =
    if input.session_id == 92 then some (record { version = 1; revoked_sessions = 0 }) else none

abbrev actor : AuthenticatedIdentity
actor = oidc_session (provider 90) 91 92

accepted :
    put_rollout set_policy (some actor) (some body) ≡ (some asked, reply_of (set_policy asked))
unfolding put_rollout read_input
accepted = refl

stray_field :
    put_rollout set_policy (some actor) (some ((unknown_field, null) ∷ body))
    ≡ (none, invalid_request)
unfolding put_rollout read_input
stray_field = refl

put_rollout-IsConsistent_example :
    ((id : ℕ) × (some actor ≡ some (oidc_session (provider id) 91 92)))
    × IsConsistent asked
    × (reply_of (set_policy asked) ≡ reply_of (set_policy asked))
put_rollout-IsConsistent_example =
    put_rollout-IsConsistent set_policy (some actor) (some body) asked (reply_of (set_policy asked))
      accepted
