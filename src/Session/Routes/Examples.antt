-- ===== src/Session/Routes/Examples.antt =====
-- A change of the tenant on concrete requests.
use egogero.Common.{◌≡◌, refl, true, none, some, [], ◌∷◌, ◌++◌, ◌==◌, count}
use egogero.Common.Text.{text}
use egogero.AuthLimits.{auth_rate_limit_policies, check_consume, upsert}
use egogero.Session.Schema.{SessionTables, valid_session_token}
use egogero.Session.Load.{load_session, session_denial_reason, identity_for, touch_session}
use egogero.Session.Membership.{load_target_membership, lock_live_membership_scope}
use egogero.Session.Lookup.{authenticate, inspect}
use egogero.Session.Insert.{insert_session}
use egogero.Session.Rotate.{rotate, check_creation, replace_session}
use egogero.Session.Cookie.{has_browser_session_cookie, parse_browser_session_cookie}
use egogero.Session.Browser.{BrowserRequest, reserved, unlimited, authenticate_browser}
use egogero.Session.Routes.Ending.{post_logout-ends}
use egogero.Session.Routes.{signs_out, empty, post_tenant, session_cookie}
use egogero.Session.Routes.Logout.{post_logout}
use egogero.Session.Routes.Tenant.{IsGuardedRotation, post_tenant-IsGuardedRotation}
use egogero.Session.Samples.{
  sample_config, tables_with, first_token, second_token, draws_of, nobody, write_clock_at,
  live_session, clock_at, browser_config, change, clocks,
}

abbrev one_session : SessionTables
one_session = tables_with (live_session ∷ [])

new_cookie :
    (post_tenant browser_config clocks
      (write_clock_at 3000)
      reserved
      nobody
      (draws_of 2 12 second_token)
      change
      (some 30)
      one_session).0.set_cookie
    ≡ some (session_cookie second_token)
unfolding post_tenant authenticate_browser has_browser_session_cookie parse_browser_session_cookie
    authenticate inspect load_session valid_session_token session_denial_reason identity_for
    touch_session rotate load_target_membership replace_session lock_live_membership_scope
    check_creation check_consume upsert auth_rate_limit_policies insert_session
new_cookie = refl

-- A name that a space follows is no cookie for the authenticator, and one for the rotation.
abbrev spaced : BrowserRequest
spaced = record change {
  cookie = (text "__Host-eg_session =" ++ first_token) ∷ [];
  origin = none;
  csrf_header = none;
}

spaced_cookie :
    (post_tenant browser_config clocks
      (write_clock_at 3000)
      reserved
      nobody
      (draws_of 2 12 second_token)
      spaced
      (some 30)
      one_session).0.set_cookie
    ≡ some (session_cookie second_token)
unfolding post_tenant authenticate_browser has_browser_session_cookie parse_browser_session_cookie
    authenticate inspect load_session valid_session_token session_denial_reason identity_for
    touch_session rotate load_target_membership replace_session lock_live_membership_scope
    check_creation check_consume upsert auth_rate_limit_policies insert_session
spaced_cookie = refl

fresh_id :
    count
      (λ s. s.id == 2)
      (authenticate_browser browser_config clocks reserved change one_session).visit.db.sessions
    ≡ 0
unfolding authenticate_browser has_browser_session_cookie parse_browser_session_cookie authenticate
    inspect load_session valid_session_token session_denial_reason identity_for touch_session
fresh_id = refl

cookie_there : has_browser_session_cookie change.cookie ≡ true
unfolding has_browser_session_cookie
cookie_there = refl

post_tenant-IsGuardedRotation_example :
    IsGuardedRotation browser_config clocks
      (write_clock_at 3000)
      (draws_of 2 12 second_token)
      change
      (some 30)
      one_session
      (authenticate_browser browser_config clocks reserved change one_session).visit.db
      second_token
      (post_tenant browser_config clocks
        (write_clock_at 3000)
        reserved
        nobody
        (draws_of 2 12 second_token)
        change
        (some 30)
        one_session).1.db
post_tenant-IsGuardedRotation_example =
    post_tenant-IsGuardedRotation browser_config clocks (write_clock_at 3000) reserved nobody
      (draws_of 2 12 second_token) change (some 30) one_session second_token refl cookie_there
      fresh_id new_cookie

logout_answer :
    (post_logout browser_config clocks 3000 unlimited change one_session).0 ≡ signs_out 204 empty
unfolding post_logout authenticate_browser has_browser_session_cookie parse_browser_session_cookie
    authenticate inspect load_session valid_session_token session_denial_reason identity_for
    touch_session
logout_answer = refl

parsed_token : parse_browser_session_cookie change.cookie ≡ some first_token
unfolding parse_browser_session_cookie valid_session_token
parsed_token = refl

post_logout-ends_example :
    (authenticate sample_config
      (clock_at 4000)
      first_token
      true
      (post_logout browser_config clocks 3000 unlimited change one_session).1.db).0
    ≡ none
post_logout-ends_example =
    post_logout-ends browser_config clocks 3000 unlimited change one_session first_token
      (clock_at 4000) true cookie_there parsed_token logout_answer
