-- ===== src/Session/Browser/Examples.antt =====
-- A request that changes something, with its evidence and without.
use egogero.Common.{◌≡◌, refl, some, [], ◌∷◌}
use egogero.Common.Text.{text}
use egogero.Auth.{
  AuthenticatedIdentity, oidc_session, tenant, sindico_role, identified, rejected, csrf_required,
  ambiguous_credentials, unidentified,
}
use egogero.Session.Schema.{SessionTables, valid_session_token}
use egogero.Session.Load.{load_session, session_denial_reason, identity_for, touch_session}
use egogero.Session.Lookup.{authenticate, inspect}
use egogero.Session.Cookie.{has_browser_session_cookie, parse_browser_session_cookie}
use egogero.Session.Browser.{reserved, authenticate_browser, route_credentials}
use egogero.Session.Browser.Mutation.{IsGuarded, authenticate_browser-IsGuarded}
use egogero.Session.Browser.Settled.{authenticate_browser-settles, settlement_for}
use egogero.Session.Samples.{tables_with, live_session, browser_config, change, clocks}

abbrev one_session : SessionTables
one_session = tables_with (live_session ∷ [])

abbrev who : AuthenticatedIdentity
who = oidc_session (tenant 7 sindico_role (4 ∷ [])) 7 1

accepted_change :
    (authenticate_browser browser_config clocks reserved change one_session).result ≡ identified who
unfolding authenticate_browser has_browser_session_cookie parse_browser_session_cookie authenticate
    inspect load_session valid_session_token session_denial_reason identity_for touch_session
accepted_change = refl

foreign_change :
    (authenticate_browser browser_config clocks reserved
      (record change { origin = some (text "https://other") })
      one_session).result
    ≡ rejected 403 csrf_required
unfolding authenticate_browser has_browser_session_cookie parse_browser_session_cookie authenticate
    inspect load_session valid_session_token session_denial_reason identity_for touch_session
foreign_change = refl

ambiguous_request :
    (route_credentials browser_config clocks reserved
      (record change { authorization = some (text "Bearer egdev_x") })
      unidentified
      unidentified
      one_session).result
    ≡ rejected 400 ambiguous_credentials
unfolding route_credentials has_browser_session_cookie
ambiguous_request = refl

authenticate_browser-IsGuarded_example :
    IsGuarded browser_config clocks change one_session who
      (authenticate_browser browser_config clocks reserved change one_session).visit.db
authenticate_browser-IsGuarded_example =
    authenticate_browser-IsGuarded browser_config clocks reserved change one_session who refl
      accepted_change

authenticate_browser-settles_example :
    (authenticate_browser browser_config clocks reserved change one_session).visit.settlements
    ≡ settlement_for (authenticate_browser browser_config clocks reserved change one_session).result
      ∷ []
unfolding has_browser_session_cookie
authenticate_browser-settles_example =
    authenticate_browser-settles browser_config clocks change one_session refl
