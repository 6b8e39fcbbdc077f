-- ===== src/Session/Routes.antt =====
-- The routes of a browser session (src/browser-auth.ts: registerBrowserAuthRoutes), on the request,
-- the answer of its reservation and the tables.
pub mod Logout
pub mod Tenant
pub mod Ending
mod Examples
use egogero.Common.{
  ℕ, zero, suc, ◌+◌, ◌-◌, ◌*◌, ◌/◌, ◌%◌, ◌^◌, ◌≤◌, ◌<◌, min, max, ◌≡◌, refl, sym, ap, subst, ◌∙◌,
  ◌≢◌, ◌↔◌, ◌⊎◌, inl, inr, Bool, true, false, not, ◌&&◌, ◌||◌, Option, none, some, List, [], ◌∷◌,
  ◌++◌, map, arith, ltb, leb, ◌==◌, if◌then◌else◌, ==_iff, ==_refl, ==_sym, Bool-cases,
  Option-cases, is, is_none, after, length, length-append, select, first, update, count, any, all,
  head?, count-append, count-le-length, contains, All, Memᴰ, first-mem, first_of-count, any-first,
  count-any, count-mem,
}
use egogero.Common.Text.{Text}
use egogero.Auth.{
  AuthenticatedIdentity, oidc_session, AuthenticationCode, ambiguous_credentials,
  authentication_required, authentication_temporarily_unavailable, csrf_required, Authentication,
  identified, unidentified, rejected, crashed,
}
use egogero.AuthLimits.{
  Bucket, AuthRateLimitDecision, auth_rate_limit_policies, reauthentication_account, check_consume,
}
use egogero.Session.Schema.{
  RevokeReason, ReturnTo, app, logout_all_continue, SessionTables, Token, StoreConfig, Ran, done,
  ambiguous_credentials_used,
}
use egogero.Session.Schema as Schema
use egogero.Session.Load.{insert_audit, anonymous_event}
use egogero.Session.Lookup.{Clock, Snapshot, inspect, is_revoked}
use egogero.Session.Insert.{WriteClock, Draws, Requester}
use egogero.Session.Rotate.{
  SessionRotationResult, rotated_to, stale, denied, reauthentication_required, IssuedBrowserSession,
  Target, membership_target, rotate,
}
use egogero.Session.Intents.{
  create_reauthentication_start_intent, consume_reauthentication_start_intent, ConsumedIntent,
}
use egogero.Session.Revoke.{
  revoke, revoke_all, RevokeAllResult, all_revoked, needs_reauthentication, not_available,
}
use egogero.Session.Cookie.{has_browser_session_cookie, parse_browser_session_cookie}
use egogero.Session.Browser.{
  BrowserRequest, BrowserConfig, Reservation, unlimited, refused, reserved, Settlement, consumed,
  released, Visit, Answer, Clocks, visit_of, with_db, origin_allowed, is_json, has_device_bearer,
  authenticate_browser,
}

pub data RouteError : Type 0 where
  authentication_error : AuthenticationCode → RouteError
  invalid_request stale_session reauthentication_needed forbidden_error : RouteError
  authentication_unavailable : RouteError

pub data SetCookie : Type 0 where
  cleared_cookie : SetCookie
  session_cookie : Token → SetCookie

pub data Body : Type 0 where
  empty redirected redirected_to_failure internal_error : Body
  error_body : RouteError → Body
  snapshot_body : Snapshot → Body
  navigate_to : Token → Body

pub record Reply : Type 0 where
  pub status : ℕ
  pub set_cookie : Option SetCookie
  pub body : Body

abbrev pub fails : ℕ → RouteError → Reply
fails status why = record { status = status; set_cookie = none; body = error_body why }

abbrev pub signs_out : ℕ → Body → Reply
signs_out status body = record { status = status; set_cookie = some cleared_cookie; body = body }

abbrev pub crashes : Reply
crashes = record { status = 500; set_cookie = none; body = internal_error }

abbrev cookie_for : AuthenticationCode → Option SetCookie
cookie_for authentication_required = some cleared_cookie
cookie_for _ = none

-- An AuthenticationError as a reply, with its headers.
abbrev pub error_reply : ℕ → AuthenticationCode → Reply
error_reply status code = record {
  status = status;
  set_cookie = cookie_for code;
  body = error_body (authentication_error code);
}

-- `rejectAmbiguousCredentials`, before each handler.
abbrev pub unambiguous :
    BrowserRequest → (SessionTables → Reply × Visit) → SessionTables → Reply × Visit
unambiguous request handler db =
    if has_browser_session_cookie request.cookie && has_device_bearer request.authorization
    then (
      fails 400 (authentication_error ambiguous_credentials),
      visit_of (
          insert_audit (anonymous_event Schema.ambiguous_credentials ambiguous_credentials_used)
            db),
    )
    else handler db

-- What follows an authentication that throws nothing.
abbrev pub after_authentication :
    Authentication → Visit → (Option AuthenticatedIdentity → Visit → Reply × Visit) → Reply × Visit
after_authentication (identified identity) v next = next (some identity) v
after_authentication unidentified v next = next none v
after_authentication (rejected status code) v next = (error_reply status code, v)
after_authentication crashed v next = (crashes, v)

-- GET /auth/session; of the snapshot, the reply leaves out the identity, the family, the digest and
-- the evidence.
abbrev settle_lookup : Reservation → Settlement → Visit → Visit
settle_lookup reserved how v = record v { settlements = how ∷ v.settlements }
settle_lookup _ how v = v

abbrev reject_lookup : Reservation → Visit → Reply × Visit
reject_lookup r v = (
  signs_out 401 (error_body (authentication_error authentication_required)),
  settle_lookup r consumed v,
)

abbrev pub show_snapshot : Reservation → Visit → Ran (Option Snapshot) → Reply × Visit
show_snapshot r v Ran.crashed = (crashes, settle_lookup r released v)
show_snapshot r v (done none db) = reject_lookup r (with_db db v)
show_snapshot r v (done (some snapshot) db) = (
  record { status = 200; set_cookie = none; body = snapshot_body snapshot },
  settle_lookup r released (with_db db v),
)

abbrev lookup_token :
    BrowserConfig → Clock → Reservation → Option Token → SessionTables → Reply × Visit
lookup_token config at r none db = reject_lookup r (visit_of db)
lookup_token config at r (some token) db =
    show_snapshot r (visit_of db) (inspect config.store at token true db)

abbrev lookup_session :
    BrowserConfig → Clock → Reservation → BrowserRequest → SessionTables → Reply × Visit
lookup_session config at refused request db =
    (fails 429 (authentication_error authentication_temporarily_unavailable), visit_of db)
lookup_session config at r request db =
    lookup_token config at r (parse_browser_session_cookie request.cookie) db

unfoldable pub get_session :
    BrowserConfig → Clock → Reservation → BrowserRequest → SessionTables → Reply × Visit
get_session config at r request db = unambiguous request (lookup_session config at r request) db

-- POST /auth/tenant; a body of another form is none, and a missing token is no token's form.
abbrev pub rotation_reply : Visit → Ran SessionRotationResult → Reply × Visit
rotation_reply v Ran.crashed = (crashes, v)
rotation_reply v (done stale db) = (fails 409 stale_session, with_db db v)
rotation_reply v (done reauthentication_required db) =
    (fails 403 reauthentication_needed, with_db db v)
rotation_reply v (done denied db) = (fails 403 forbidden_error, with_db db v)
rotation_reply v (done (rotated_to issued) db) = (
  record { status = 204; set_cookie = some (session_cookie issued.session_token); body = empty },
  with_db db v,
)

abbrev pub rotate_token :
    BrowserConfig
    → WriteClock
    → Requester
    → Draws
    → Option Token
    → ℕ
    → SessionTables
    → Ran SessionRotationResult
rotate_token config at who draws none target db = done denied db
rotate_token config at who draws (some token) target db =
    rotate config.store at who draws token (membership_target target) db

abbrev pub change_tenant :
    BrowserConfig
    → WriteClock
    → Requester
    → Draws
    → BrowserRequest
    → Option ℕ
    → Option AuthenticatedIdentity
    → Visit
    → Reply × Visit
change_tenant config at who draws request none identity v = (fails 400 invalid_request, v)
change_tenant config at who draws request (some target) identity v =
    rotation_reply v
      (rotate_token config at who draws (parse_browser_session_cookie request.cookie) target v.db)

abbrev pub mutate_with :
    BrowserConfig
    → Clocks
    → Reservation
    → BrowserRequest
    → (Option AuthenticatedIdentity → Visit → Reply × Visit)
    → SessionTables
    → Reply × Visit
mutate_with config at r request next db =
    let answer = authenticate_browser config at r request db in
    after_authentication answer.result answer.visit next

unfoldable pub post_tenant :
    BrowserConfig
    → Clocks
    → WriteClock
    → Reservation
    → Requester
    → Draws
    → BrowserRequest
    → (body : Option ℕ) → SessionTables
    → Reply × Visit
post_tenant config at written r who draws request body db =
    unambiguous request
      (mutate_with config at r request (change_tenant config written who draws request body)) db
