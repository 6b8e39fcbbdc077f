-- ===== src/Session/Family/Examples.antt =====
-- A login and a rotation on concrete tables.
use egogero.Common.{◌≡◌, refl, Option, none, [], length, count}
use egogero.AuthLimits.{auth_rate_limit_policies, check_consume, upsert}
use egogero.Session.Schema.{SessionTables, Ran, crashed, done, valid_session_token}
use egogero.Session.Load.{load_session, session_denial_reason, identity_for}
use egogero.Session.Membership.{
  choose_membership, load_target_membership, lock_live_membership_scope,
}
use egogero.Session.Insert.{insert_session}
use egogero.Session.Rotate.{
  rotate, same_membership, check_creation, replace_session, IssuedBrowserSession,
  SessionRotationResult, stale,
}
use egogero.Session.Issue.{issue_from_handoff}
use egogero.Session.Family.{IsSound, live_in}
use egogero.Session.Family.History.{Step, Reached, Reached-IsSound}
use egogero.Session.Samples.{
  sample_config, tables_with, handoff_token, first_token, second_token, draws_of, nobody,
  write_clock_at,
}

abbrev tables_after : {A : Type 0} → Ran A → SessionTables
tables_after crashed = tables_with []
tables_after (done answer db) = db

abbrev answer_after : {A : Type 0} → A → Ran A → A
answer_after a crashed = a
answer_after a (done answer db) = answer

abbrev logged_in : Ran (Option IssuedBrowserSession)
logged_in =
    issue_from_handoff sample_config (write_clock_at 1000) 1000 nobody (draws_of 1 11 first_token)
      handoff_token none (tables_with [])

abbrev rotated_session : Ran SessionRotationResult
rotated_session =
    rotate sample_config (write_clock_at 2000) nobody (draws_of 2 12 second_token) first_token
      same_membership (tables_after logged_in)

login_committed : Step sample_config (tables_with []) (tables_after logged_in)
unfolding issue_from_handoff valid_session_token choose_membership lock_live_membership_scope
    check_creation check_consume upsert auth_rate_limit_policies insert_session identity_for
login_committed =
    Step.issues (write_clock_at 1000) 1000 nobody (draws_of 1 11 first_token) handoff_token none
      (answer_after none logged_in) refl refl refl

-- The login leaves one live session, and the rotation after it two rows of which one is live.
login_sessions : count (live_in 11) (tables_after logged_in).sessions ≡ 1
unfolding issue_from_handoff valid_session_token choose_membership lock_live_membership_scope
    check_creation check_consume upsert auth_rate_limit_policies insert_session identity_for
login_sessions = refl

rotation_sessions : length (tables_after rotated_session).sessions ≡ 2
unfolding rotate load_session session_denial_reason load_target_membership replace_session
    issue_from_handoff valid_session_token choose_membership lock_live_membership_scope
    check_creation check_consume upsert auth_rate_limit_policies insert_session identity_for
rotation_sessions = refl

rotation_committed : Step sample_config (tables_after logged_in) (tables_after rotated_session)
unfolding rotate load_session session_denial_reason load_target_membership replace_session
    issue_from_handoff valid_session_token choose_membership lock_live_membership_scope
    check_creation check_consume upsert auth_rate_limit_policies insert_session identity_for
rotation_committed =
    Step.rotates (write_clock_at 2000) nobody (draws_of 2 12 second_token) first_token
      same_membership (answer_after stale rotated_session) refl refl

Reached-IsSound_example : IsSound (tables_after rotated_session).sessions
Reached-IsSound_example = Reached-IsSound (
    Reached.step (Reached.step (Reached.start {db = tables_with []} refl) login_committed)
      rotation_committed)
