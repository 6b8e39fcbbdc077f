-- ===== src/Session/Routes/Logout.antt =====
-- Leaving a session, and starting a reauthentication (src/browser-auth.ts: /auth/logout,
-- /auth/logout-all, /auth/reauthenticate and /auth/reauthenticate/start).
use egogero.Common.{ℕ, Bool, true, false, not, ◌&&◌, Option, none, some, ◌==◌, if◌then◌else◌}
use egogero.Auth.{
  AuthenticatedIdentity, oidc_session, authentication_required,
  authentication_temporarily_unavailable, csrf_required, Authentication, rejected, crashed,
}
use egogero.AuthLimits.{auth_rate_limit_policies, reauthentication_account, check_consume}
use egogero.Session.Schema.{ReturnTo, SessionTables, Token}
use egogero.Session.Lookup.{is_revoked}
use egogero.Session.Intents.{
  create_reauthentication_start_intent, consume_reauthentication_start_intent, ConsumedIntent,
}
use egogero.Session.Revoke.{
  revoke, revoke_all, RevokeAllResult, all_revoked, needs_reauthentication, not_available,
}
use egogero.Session.Cookie.{has_browser_session_cookie, parse_browser_session_cookie}
use egogero.Session.Browser.{
  BrowserRequest, BrowserConfig, Reservation, Visit, Clocks, visit_of, with_db, origin_allowed,
  is_json, authenticate_browser,
}
use egogero.Session.Routes.{
  Reply, empty, redirected, redirected_to_failure, error_body, navigate_to, authentication_error,
  invalid_request, reauthentication_needed, authentication_unavailable, fails, signs_out, crashes,
  error_reply, unambiguous, mutate_with,
}

-- `validRequestContext`.
abbrev pub valid_request_context : BrowserConfig → BrowserRequest → Bool
valid_request_context config request =
    origin_allowed config request.origin request.referer && is_json request.content_type

-- POST /auth/logout. A missing token has no token's form.
abbrev revoke_token : BrowserConfig → ℕ → Option Token → SessionTables → SessionTables
revoke_token config now none db = db
revoke_token config now (some token) db = (revoke config.store now none token db).1

abbrev pub was_revoked : BrowserConfig → Option Token → SessionTables → Bool
was_revoked config none db = false
was_revoked config (some token) db = is_revoked config.store token db

abbrev pub forgiven : BrowserConfig → BrowserRequest → ℕ → SessionTables → Bool
forgiven config request status db =
    status == 401
    && valid_request_context config request
    && was_revoked config (parse_browser_session_cookie request.cookie) db

abbrev pub logged_out : BrowserConfig → ℕ → BrowserRequest → Authentication → Visit → Reply × Visit
logged_out config now request crashed v = (crashes, v)
logged_out config now request (rejected status code) v =
    if forgiven config request status v.db
    then (signs_out 204 empty, v)
    else (error_reply status code, v)
logged_out config now request _ v = (
  signs_out 204 empty,
  with_db (revoke_token config now (parse_browser_session_cookie request.cookie) v.db) v,
)

abbrev pub logout_without_cookie : BrowserConfig → BrowserRequest → SessionTables → Reply × Visit
logout_without_cookie config request db =
    if not (valid_request_context config request)
    then (fails 403 (authentication_error csrf_required), visit_of db)
    else (signs_out 204 empty, visit_of db)

abbrev pub log_out :
    BrowserConfig → Clocks → ℕ → Reservation → BrowserRequest → SessionTables → Reply × Visit
log_out config at now r request db =
    let answer = authenticate_browser config at r request db in
    if not (has_browser_session_cookie request.cookie)
    then logout_without_cookie config request db
    else logged_out config now request answer.result answer.visit

unfoldable pub post_logout :
    BrowserConfig → Clocks → ℕ → Reservation → BrowserRequest → SessionTables → Reply × Visit
post_logout config at now r request db = unambiguous request (log_out config at now r request) db

-- POST /auth/logout-all.
abbrev pub revoke_all_token :
    BrowserConfig → ℕ → ℕ → Option Token → SessionTables → RevokeAllResult × SessionTables
revoke_all_token config read_at now none db = (not_available, db)
revoke_all_token config read_at now (some token) db = revoke_all config.store read_at now token db

abbrev pub revoke_all_reply : Visit → RevokeAllResult × SessionTables → Reply × Visit
revoke_all_reply v (needs_reauthentication, db) = (fails 403 reauthentication_needed, with_db db v)
revoke_all_reply v (not_available, db) =
    (signs_out 401 (error_body (authentication_error authentication_required)), with_db db v)
revoke_all_reply v (all_revoked, db) = (signs_out 204 empty, with_db db v)

unfoldable pub post_logout_all :
    BrowserConfig
    → Clocks
    → (read_at now : ℕ) → Reservation
    → BrowserRequest
    → SessionTables
    → Reply × Visit
post_logout_all config at read_at now r request db =
    unambiguous request
      (mutate_with config at r request (λ identity v.
        revoke_all_reply v
          (revoke_all_token config read_at now (parse_browser_session_cookie request.cookie) v.db)))
      db

-- POST /auth/reauthenticate: whether there is an identity provider, the times, and what is drawn.
pub record IntentContext : Type 0 where
  pub oidc_service : Bool
  pub limited_at : ℕ
  pub read_at : ℕ
  pub now : ℕ
  pub id : ℕ
  pub drawn : Token

abbrev create_for_token :
    BrowserConfig
    → IntentContext
    → Option Token
    → ReturnTo
    → SessionTables
    → Option Token × SessionTables
create_for_token config context none return_to db = (none, db)
create_for_token config context (some token) return_to db =
    create_reauthentication_start_intent config.store context.read_at context.now context.id
      context.drawn token return_to db

abbrev intent_reply : Visit → Option Token × SessionTables → Reply × Visit
intent_reply v (none, db) = (fails 401 (authentication_error authentication_required), with_db db v)
intent_reply v (some intent, db) =
    (record { status = 200; set_cookie = none; body = navigate_to intent }, with_db db v)

abbrev pub account_of : Option AuthenticatedIdentity → Option ℕ
account_of (some (oidc_session scope account session)) = some account
account_of _ = none

-- `rateLimiter.check('reauthentication_account', account)`.
unfoldable pub check_reauthentication : ℕ → ℕ → SessionTables → Bool × SessionTables
check_reauthentication now account db =
    let answer =
      check_consume (auth_rate_limit_policies reauthentication_account) now
        (db.reauthentication_limits account) in
    (
      answer.0.allowed,
      record db {
        reauthentication_limits =
            λ other. if other == account then some answer.1 else db.reauthentication_limits other;
      },
    )

abbrev pub start_limited :
    BrowserConfig
    → IntentContext
    → BrowserRequest
    → ReturnTo
    → Visit
    → Bool × SessionTables
    → Reply × Visit
start_limited config context request return_to v (false, db) =
    (fails 429 (authentication_error authentication_temporarily_unavailable), with_db db v)
start_limited config context request return_to v (true, db) =
    intent_reply v
      (create_for_token config context (parse_browser_session_cookie request.cookie) return_to db)

abbrev pub start_for :
    BrowserConfig → IntentContext → BrowserRequest → ReturnTo → Option ℕ → Visit → Reply × Visit
start_for config context request return_to none v =
    (fails 401 (authentication_error authentication_required), v)
start_for config context request return_to (some account) v =
    start_limited config context request return_to v
      (check_reauthentication context.limited_at account v.db)

-- `body` is the place to return to, /app by default, and none where it is not one of the two.
abbrev pub reauthenticate_with :
    BrowserConfig
    → IntentContext
    → BrowserRequest
    → Option ReturnTo
    → Option AuthenticatedIdentity
    → Visit
    → Reply × Visit
reauthenticate_with config context request none identity v = (fails 400 invalid_request, v)
reauthenticate_with config context request (some return_to) identity v =
    start_for config context request return_to (account_of identity) v

abbrev pub reauthenticate_request :
    BrowserConfig
    → Clocks
    → Reservation
    → IntentContext
    → BrowserRequest
    → Option ReturnTo
    → SessionTables
    → Reply × Visit
reauthenticate_request config at r context request body db =
    if not context.oidc_service
    then (fails 503 authentication_unavailable, visit_of db)
    else mutate_with config at r request (reauthenticate_with config context request body) db

unfoldable pub post_reauthenticate :
    BrowserConfig
    → Clocks
    → Reservation
    → IntentContext
    → BrowserRequest
    → Option ReturnTo
    → SessionTables
    → Reply × Visit
post_reauthenticate config at r context request body db =
    unambiguous request (reauthenticate_request config at r context request body) db

-- GET /auth/reauthenticate/start/:intent; `starts` is whether the identity provider's login starts.
abbrev consume_token :
    BrowserConfig
    → (read_at now : ℕ) → Option Token
    → Token
    → SessionTables
    → Option ConsumedIntent × SessionTables
consume_token config read_at now none intent db = (none, db)
consume_token config read_at now (some token) intent db =
    consume_reauthentication_start_intent config.store read_at now token intent db

abbrev pub start_reply :
    (ConsumedIntent → Bool) → Option ConsumedIntent × SessionTables → Reply × Visit
start_reply starts (none, db) =
    (fails 401 (authentication_error authentication_required), visit_of db)
start_reply starts (some intent, db) = (
  record {
    status = 303;
    set_cookie = none;
    body = if starts intent then redirected else redirected_to_failure;
  },
  visit_of db,
)

abbrev start_request :
    BrowserConfig
    → (oidc_service : Bool) → (ConsumedIntent → Bool)
    → (read_at now : ℕ) → BrowserRequest
    → Token
    → SessionTables
    → Reply × Visit
start_request config oidc_service starts read_at now request intent db =
    if not oidc_service
    then (fails 503 authentication_unavailable, visit_of db)
    else start_reply starts
        (consume_token config read_at now (parse_browser_session_cookie request.cookie) intent db)

unfoldable pub get_reauthenticate_start :
    BrowserConfig
    → (oidc_service : Bool) → (ConsumedIntent → Bool)
    → (read_at now : ℕ) → BrowserRequest
    → Token
    → SessionTables
    → Reply × Visit
get_reauthenticate_start config oidc_service starts read_at now request intent db =
    unambiguous request (start_request config oidc_service starts read_at now request intent) db
