-- ===== src/Session/Browser.antt =====
-- The authenticator of browser requests and the choice of the authenticator (src/sessions.ts:
-- createBrowserSessionAuthenticator, createCredentialRouter).
pub mod Mutation
pub mod Settled
pub mod Answered
mod Examples
use egogero.Common.{
  ℕ, zero, suc, ◌+◌, ◌-◌, ◌*◌, ◌/◌, ◌%◌, ◌^◌, ◌≤◌, ◌<◌, min, max, ◌≡◌, refl, sym, ap, subst, ◌∙◌,
  ◌≢◌, ◌↔◌, ◌⊎◌, inl, inr, Bool, true, false, not, ◌&&◌, ◌||◌, Option, none, some, List, [], ◌∷◌,
  ◌++◌, map, arith, ltb, leb, ◌==◌, if◌then◌else◌, ==_iff, ==_refl, ==_sym, Bool-cases,
  Option-cases, is, is_none, after, length, length-append, select, first, update, count, any, all,
  head?, count-append, count-le-length, contains, All, Memᴰ, first-mem, first_of-count, any-first,
  count-any, count-mem,
}
use egogero.Common.Text.{Text, text, same_text, strip_prefix, is_space, trim_start}
use egogero.Auth.{
  AuthenticatedIdentity, AuthenticationCode, ambiguous_credentials, authentication_required,
  authentication_temporarily_unavailable, csrf_required, Authentication, identified, unidentified,
  rejected, crashed,
}
use egogero.Session.Schema.{
  AuditReason, ambiguous_credentials_used, invalid_request_evidence, csrf_validation_failed,
  EventType, SessionTables, Token, StoreConfig, Ran, valid_session_token,
}
use egogero.Session.Schema as Schema
use egogero.Session.Load.{insert_audit, anonymous_event}
use egogero.Session.Lookup.{Clock, Snapshot, authenticate, inspect}
use egogero.Session.Cookie.{has_browser_session_cookie, parse_browser_session_cookie}

pub data Method : Type 0 where
  get head options other_method : Method

-- The headers that the authenticator reads; one that is repeated or missing is none.
pub record BrowserRequest : Type 0 where
  pub method : Method
  pub cookie : List Text
  pub origin : Option Text
  pub referer : Option Text
  pub content_type : Option Text
  pub csrf_header : Option Text
  pub authorization : Option Text

-- A parsed URL: whether it has a user name or a password, and its origin.
pub record ParsedUrl : Type 0 where
  pub has_credentials : Bool
  pub origin : Text

-- The store's configuration with the platform's URL parser and base64url codec.
pub record BrowserConfig : Type 0 where
  pub store : StoreConfig
  pub public_application_origin : Text
  pub parse_url : Text → Option ParsedUrl
  pub decode_base64url : Text → List ℕ
  pub encode_base64url : List ℕ → Text
  pub bytes_digest : List ℕ → ℕ

-- What the limit of failed authentications answers before the request is looked at: no limiter, a
-- refusal, or a reservation.
pub data Reservation : Type 0 where
  unlimited refused reserved : Reservation

pub data Settlement : Type 0 where
  consumed released : Settlement

-- The tables and the calls of `finalize` that reach the limiter.
pub record Visit : Type 0 where
  pub db : SessionTables
  pub reservation_finalized : Bool
  pub settlements : List Settlement

abbrev pub settled : Settlement → Visit → Visit
settled how v = record v { reservation_finalized = true; settlements = how ∷ v.settlements }

abbrev pub finalize_when : Bool → Settlement → Visit → Visit
finalize_when true how v = settled how v
finalize_when false how v = v

abbrev pub is_reserved : Reservation → Bool
is_reserved reserved = true
is_reserved _ = false

abbrev pub finalize : Reservation → Settlement → Visit → Visit
finalize r how v = finalize_when (is_reserved r && not v.reservation_finalized) how v

-- What the request ends with: the answer, the snapshot put on the request, and the visit.
pub record Answer : Type 0 where
  pub result : Authentication
  pub snapshot : Option Snapshot
  pub visit : Visit

-- `rejectAuthenticationFailure`; its promise is not awaited, so that the handler of errors does not
-- see it.
abbrev pub reject : Reservation → ℕ → AuthenticationCode → Visit → Answer
reject r status code v = record {
  result = rejected status code;
  snapshot = none;
  visit = finalize r consumed v;
}

abbrev pub accept : Reservation → AuthenticatedIdentity → Option Snapshot → Visit → Answer
accept r identity snapshot v = record {
  result = identified identity;
  snapshot = snapshot;
  visit = finalize r released v;
}

abbrev pub fail : Reservation → Visit → Answer
fail r v = record { result = crashed; snapshot = none; visit = finalize r released v }

abbrev pub with_db : SessionTables → Visit → Visit
with_db db v = record v { db = db }

abbrev pub trusted_referer : BrowserConfig → Option ParsedUrl → Bool
trusted_referer config none = false
trusted_referer config (some url) =
    not url.has_credentials && same_text url.origin config.public_application_origin

-- An empty referer is not parsed.
abbrev referer_allowed : BrowserConfig → Option Text → Bool
referer_allowed config none = false
referer_allowed config (some []) = false
referer_allowed config (some (c ∷ s)) = trusted_referer config (config.parse_url (c ∷ s))

abbrev pub origin_allowed : BrowserConfig → Option Text → Option Text → Bool
origin_allowed config (some origin) referer = same_text origin config.public_application_origin
origin_allowed config none referer = referer_allowed config referer

abbrev lower : ℕ → ℕ
lower c = if leb b'A' c && leb c b'Z' then c + 32 else c

abbrev is_charset_char : ℕ → Bool
is_charset_char c =
    (leb b'A' c && leb c b'Z')
    || (leb b'a' c && leb c b'z')
    || (leb b'0' c && leb c b'9')
    || c == b'.'
    || c == b'_'
    || c == b'-'

abbrev charset : Option Text → Bool
charset none = false
charset (some value) = not (length value == 0) && all is_charset_char value

abbrev parameters : Text → Bool
parameters [] = false
parameters (c ∷ s) = c == b';' && charset (strip_prefix (text "charset=") (trim_start s))

abbrev after_type : Option Text → Bool
after_type none = false
after_type (some []) = true
after_type (some (c ∷ s)) = parameters (trim_start (c ∷ s))

-- /^application\/json(?:\s*;\s*charset=[A-Za-z0-9._-]+)?$/i
abbrev pub is_json : Option Text → Bool
is_json none = false
is_json (some value) = after_type (strip_prefix (text "application/json") (map lower value))

abbrev canonical : BrowserConfig → Text → List ℕ → Option (List ℕ)
canonical config header bytes =
    if length bytes == 32 && same_text (config.encode_base64url bytes) header
    then some bytes
    else none

-- Thirty-two bytes in their canonical spelling.
abbrev pub supplied_csrf : BrowserConfig → Option Text → Option (List ℕ)
supplied_csrf config none = none
supplied_csrf config (some header) =
    if valid_session_token header
    then canonical config header (config.decode_base64url header)
    else none

abbrev csrf_event : SessionTables → SessionTables
csrf_event db = insert_audit (anonymous_event csrf_validation_failed invalid_request_evidence) db

abbrev pub no_csrf : Reservation → Visit → Answer
no_csrf r v = reject r 403 csrf_required (with_db (csrf_event v.db) v)

abbrev pub unauthenticated : Reservation → Visit → Answer
unauthenticated r v = reject r 401 authentication_required v

-- The three transactions of a request that changes something have times of their own.
pub record Clocks : Type 0 where
  pub first : Clock
  pub second : Clock
  pub last : Clock

abbrev pub final_answer :
    Reservation → Option Snapshot → Visit → Option AuthenticatedIdentity × SessionTables → Answer
final_answer r snapshot v (none, db) = unauthenticated r (with_db db v)
final_answer r snapshot v (some identity, db) = accept r identity snapshot (with_db db v)

abbrev pub digest_matches : BrowserConfig → List ℕ → Snapshot → Bool
digest_matches config bytes snapshot = config.bytes_digest bytes == snapshot.csrf_digest

abbrev pub with_snapshot :
    BrowserConfig → Clock → Reservation → Token → List ℕ → Visit → Ran (Option Snapshot) → Answer
with_snapshot config at r token bytes v Ran.crashed = fail r v
with_snapshot config at r token bytes v (Ran.done none db) = unauthenticated r (with_db db v)
with_snapshot config at r token bytes v (Ran.done (some snapshot) db) =
    if not (digest_matches config bytes snapshot)
    then no_csrf r (with_db db v)
    else final_answer r (some snapshot) (with_db db v) (authenticate config.store at token true db)

-- `sound` is the evidence of the origin and the content type.
abbrev pub with_evidence :
    BrowserConfig → Clocks → Reservation → Token → (sound : Bool) → Option (List ℕ) → Visit → Answer
with_evidence config at r token true (some bytes) v =
    with_snapshot config at.last r token bytes v (inspect config.store at.second token false v.db)
with_evidence config at r token _ _ v = no_csrf r v

abbrev pub mutate :
    BrowserConfig
    → Clocks
    → Reservation
    → BrowserRequest
    → Token
    → Visit
    → Option AuthenticatedIdentity × SessionTables
    → Answer
mutate config at r request token v (none, db) = unauthenticated r (with_db db v)
mutate config at r request token v (some identity, db) =
    with_evidence config at r token
      (origin_allowed config request.origin request.referer && is_json request.content_type)
      (supplied_csrf config request.csrf_header) (with_db db v)

abbrev pub is_safe : Method → Bool
is_safe other_method = false
is_safe _ = true

abbrev pub by_method :
    BrowserConfig → Clocks → Reservation → (safe : Bool) → BrowserRequest → Token → Visit → Answer
by_method config at r true request token v =
    final_answer r none v (authenticate config.store at.first token true v.db)
by_method config at r false request token v =
    mutate config at r request token v (authenticate config.store at.first token false v.db)

abbrev pub with_token :
    BrowserConfig → Clocks → Reservation → BrowserRequest → Option Token → Visit → Answer
with_token config at r request none v = unauthenticated r v
with_token config at r request (some token) v =
    by_method config at r (is_safe request.method) request token v

abbrev pub visit_of : SessionTables → Visit
visit_of db = record { db = db; reservation_finalized = false; settlements = [] }

abbrev pub limited : BrowserConfig → Clocks → Reservation → BrowserRequest → SessionTables → Answer
limited config at refused request db = record {
  result = rejected 429 authentication_temporarily_unavailable;
  snapshot = none;
  visit = visit_of db;
}
limited config at r request db =
    with_token config at r request (parse_browser_session_cookie request.cookie) (visit_of db)

-- `createBrowserSessionAuthenticator`, on what the limiter answered.
unfoldable pub authenticate_browser :
    BrowserConfig → Clocks → Reservation → BrowserRequest → SessionTables → Answer
authenticate_browser config at r request db =
    if not (has_browser_session_cookie request.cookie)
    then record { result = unidentified; snapshot = none; visit = visit_of db }
    else limited config at r request db

abbrev pub has_device_bearer : Option Text → Bool
has_device_bearer none = false
has_device_bearer (some header) = not (is_none (strip_prefix (text "Bearer egdev_") header))

abbrev or_else : Authentication → Authentication → Authentication
or_else unidentified second = second
or_else first second = first

abbrev device_answer : Authentication → SessionTables → Answer
device_answer a db = record { result = a; snapshot = none; visit = visit_of db }

-- `createCredentialRouter`; the two other authenticators are given by their answers.
abbrev pub route_for :
    BrowserConfig
    → Clocks
    → Reservation
    → (session bearer : Bool) → BrowserRequest
    → (device development : Authentication) → SessionTables
    → Answer
route_for config at r true true request device development db =
    device_answer (rejected 400 ambiguous_credentials)
      (insert_audit (anonymous_event Schema.ambiguous_credentials ambiguous_credentials_used) db)
route_for config at r true false request device development db =
    authenticate_browser config at r request db
route_for config at r false true request device development db = device_answer device db
route_for config at r false false request device development db =
    device_answer (or_else device development) db

unfoldable pub route_credentials :
    BrowserConfig
    → Clocks
    → Reservation
    → BrowserRequest
    → (device development : Authentication) → SessionTables
    → Answer
route_credentials config at r request device development db =
    route_for config at r (has_browser_session_cookie request.cookie)
      (has_device_bearer request.authorization) request device development db
