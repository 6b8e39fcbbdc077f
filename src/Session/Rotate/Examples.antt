-- ===== src/Session/Rotate/Examples.antt =====
-- A rotation on concrete tables.
use egogero.Common.{refl, [], ◌∷◌}
use egogero.Auth.{oidc_session, tenant, sindico_role}
use egogero.AuthLimits.{auth_rate_limit_policies, check_consume, upsert}
use egogero.Session.Schema.{SessionTables, Ran, crashed, done, valid_session_token}
use egogero.Session.Load.{load_session, session_denial_reason, identity_for}
use egogero.Session.Membership.{load_target_membership, lock_live_membership_scope}
use egogero.Session.Insert.{insert_session}
use egogero.Session.Rotate.{
  rotate, membership_target, check_creation, replace_session, IssuedBrowserSession,
  SessionRotationResult,
}
use egogero.Session.Rotate.Successor.{IsRotation, rotate-IsRotation}
use egogero.Session.Samples.{
  sample_config, tables_with, first_token, second_token, draws_of, nobody, write_clock_at,
  live_session,
}

abbrev one_session : SessionTables
one_session = tables_with (live_session ∷ [])

abbrev rotation : Ran SessionRotationResult
rotation =
    rotate sample_config (write_clock_at 2000) nobody (draws_of 2 12 second_token) first_token
      (membership_target 30) one_session

abbrev tables_after : Ran SessionRotationResult → SessionTables
tables_after crashed = one_session
tables_after (done answer db) = db

abbrev new_session : IssuedBrowserSession
new_session = record {
  session_token = second_token;
  csrf_token = 5;
  identity = oidc_session (tenant 7 sindico_role (4 ∷ [])) 7 2;
  absolute_expires_at = 43_201_000;
}

rotate-IsRotation_example :
    IsRotation sample_config 2000
      (draws_of 2 12 second_token)
      first_token
      (membership_target 30)
      one_session
      new_session
      (tables_after rotation)
unfolding rotate load_session session_denial_reason load_target_membership replace_session
    valid_session_token lock_live_membership_scope check_creation check_consume upsert
    auth_rate_limit_policies insert_session identity_for
rotate-IsRotation_example =
    rotate-IsRotation sample_config (write_clock_at 2000) nobody (draws_of 2 12 second_token)
      first_token (membership_target 30) one_session (tables_after rotation) new_session refl refl
