-- ===== src/Session/Routes/Ending.antt =====
-- A logout ends the session of the cookie.
use egogero.Common.{
  ℕ, ◌≡◌, refl, sym, ap, subst, ◌∙◌, inl, inr, Bool, true, ◌&&◌, Option, none, some, List, [], ◌∷◌,
  arith, ◌==◌, Bool-cases, Option-cases, first, update, any,
}
use mathlib.Core.Option.{some-injective}
use egogero.Auth.{
  AuthenticatedIdentity, Authentication, identified, unidentified, rejected, crashed,
}
use egogero.Session.Schema.{
  AuditEvent, invalid_session, session_revocation_denied, BrowserSession, RevokeReason,
  SessionTables, Token, StoreConfig, valid_session_token,
}
use egogero.Session.Load.{SessionRow, load_session, insert_audit, anonymous_event}
use egogero.Session.Lookup.{Clock, authenticate, is_revoked}
use egogero.Session.Lookup.Live.{Admits, authenticate_iff}
use egogero.Session.Rotate.{revoked_as}
use egogero.Session.Revoke.{in_family, revoke, revoke_row, reason_or}
use egogero.Session.Revoke.Ending.{revoke-ends}
use egogero.Session.Family.Rotation.{load_session-first}
use egogero.Session.Cookie.{has_browser_session_cookie, parse_browser_session_cookie}
use egogero.Session.Browser.{
  BrowserRequest, BrowserConfig, Reservation, Visit, Clocks, has_device_bearer,
  authenticate_browser,
}
use egogero.Session.Routes.{Reply, signs_out, empty}
use egogero.Session.Routes.Logout.{
  was_revoked, forgiven, logged_out, post_logout, valid_request_context,
}

-- The first row with a token is of the same family after a revocation.
abbrev family_of : Option BrowserSession → Option ℕ
family_of none = none
family_of (some s) = some s.family_id

first-revoked :
    (digest now : ℕ) (why : RevokeReason) (p : BrowserSession → Bool) (rows : List BrowserSession)
    → family_of (first (λ s. s.token_digest == digest) (update p (revoked_as now why) rows))
      ≡ family_of (first (λ s. s.token_digest == digest) rows)
first-revoked digest now why p [] = refl
first-revoked digest now why p (s ∷ rows) = ground (arith, first-revoked digest now why p rows)

first-family :
    (digest now : ℕ) (why : RevokeReason) (db : SessionTables) (found : Option SessionRow)
    → family_of (first (λ s. s.token_digest == digest) (revoke_row now why found db).1.sessions)
      ≡ family_of (first (λ s. s.token_digest == digest) db.sessions)
first-family digest now why db none = refl
first-family digest now why db (some row) =
    let kept = first-revoked digest now why (in_family row.session.family_id) db.sessions in
    elim (Bool-cases (any (in_family row.session.family_id) db.sessions)) [
      | inl some_live ↦ rw some_live kept
      | inr none_there ↦ rw none_there kept
    ]

family-revoke :
    (config : StoreConfig) (now digest : ℕ) (reason : Option RevokeReason) (token : Token)
    (db : SessionTables)
    → family_of
        (first (λ s. s.token_digest == digest) (revoke config now reason token db).1.sessions)
      ≡ family_of (first (λ s. s.token_digest == digest) db.sessions)
unfolding revoke
family-revoke config now digest reason token db = elim (Bool-cases (valid_session_token token)) [
  | inr bad ↦ rw bad refl
  | inl ok ↦
      rw ok (first-family digest now (reason_or reason) db (load_session (config.digest token) db))
]

-- The first session of the token before a revocation, where one is admitted after it.
module _ (config : StoreConfig) (now : ℕ) (reason : Option RevokeReason) (token : Token)
    (db : SessionTables) (later : ℕ) (identity : AuthenticatedIdentity) where
  abbrev after_revoke : SessionTables
  after_revoke = (revoke config now reason token db).1

  same_family :
      (admitted : Admits config later token after_revoke identity) (row : SessionRow)
      → load_session (config.digest token) db ≡ some row
      → admitted.row.session.family_id ≡ row.session.family_id
  same_family admitted row loaded =
      let before = load_session-first (config.digest token) db row loaded in
      let after =
        load_session-first (config.digest token) after_revoke admitted.row admitted.loaded in
      some-injective _ _ (
        ap family_of (sym after)
        ∙ family-revoke config now (config.digest token) reason token db
        ∙ ap family_of before)

  refused-after :
      (found : Option SessionRow)
      → load_session (config.digest token) db ≡ found
      → Admits config later token after_revoke identity
      → found ≡ none
  refused-after none loaded admitted = refl
  refused-after (some row) loaded admitted = absurd (
      revoke-ends config now reason token db row later token identity admitted.well_formed loaded
        admitted (same_family admitted row loaded))

load-audit :
    (digest : ℕ) (event : AuditEvent) (db : SessionTables)
    → load_session digest (insert_audit event db) ≡ load_session digest db
unfolding load_session
load-audit digest event db = refl

-- A token that no session has ends nothing, and is no session's after it.
load-revoke-none :
    (config : StoreConfig) (now : ℕ) (reason : Option RevokeReason) (token : Token)
    (db : SessionTables)
    → valid_session_token token ≡ true
    → load_session (config.digest token) db ≡ none
    → load_session (config.digest token) (revoke config now reason token db).1 ≡ none
unfolding revoke
load-revoke-none config now reason token db ok loaded =
    rw (ok, loaded)
      (load-audit (config.digest token) (anonymous_event session_revocation_denied invalid_session)
          db
        ∙ loaded)

revoke-refuses :
    (config : StoreConfig) (now : ℕ) (reason : Option RevokeReason) (token : Token)
    (db : SessionTables) (at : Clock) (extend : Bool)
    → (authenticate config at token extend (revoke config now reason token db).1).0 ≡ none
revoke-refuses config now reason token db at extend =
    elim (Option-cases
      (authenticate config at token extend (revoke config now reason token db).1).0) [
        | inl refused ↦ refused
        | inr (identity, e) ↦
            let admitted =
              (authenticate_iff config at token extend (revoke config now reason token db).1
                  identity).0
                e in
            let gone =
              refused-after config now reason token db at.read_at identity
                (load_session (config.digest token) db) refl admitted in
            absurd (
              cc (
                load-revoke-none config now reason token db admitted.well_formed gone,
                admitted.loaded,
              ))
      ]

is_revoked-refuses :
    (config : StoreConfig) (token : Token) (db : SessionTables) (at : Clock) (extend : Bool)
    → is_revoked config token db ≡ true
    → (authenticate config at token extend db).0 ≡ none
unfolding is_revoked
is_revoked-refuses config token db at extend over =
    elim (Option-cases (authenticate config at token extend db).0) [
      | inl refused ↦ refused
      | inr (identity, e) ↦
          let admitted = (authenticate_iff config at token extend db identity).0 e in
          let found = load_session-first (config.digest token) db admitted.row admitted.loaded in
          absurd (cc (rw (admitted.well_formed, found, admitted.live.unrevoked) at over))
    ]

module _ (config : BrowserConfig) (at : Clocks) (now : ℕ) (request : BrowserRequest) (token : Token)
    (parsed : parse_browser_session_cookie request.cookie ≡ some token) (later : Clock)
    (extend : Bool) where
  abbrev Ends : Reply × Visit → Type 0
  Ends answer = (authenticate config.store later token extend answer.1.db).0 ≡ none

  forgiven-revoked :
      (status : ℕ) (db : SessionTables)
      → forgiven config request status db ≡ true
      → is_revoked config.store token db ≡ true
  forgiven-revoked status db over =
      let whole : status == 401
            && valid_request_context config request
            && is_revoked config.store token db
          ≡ true =
        subst
          (λ found.
            status == 401 && valid_request_context config request && was_revoked config found db
            ≡ true)
          parsed over in
      ground (arith, whole)

  logged_out-Ends :
      (result : Authentication) (v : Visit)
      → (logged_out config now request result v).0 ≡ signs_out 204 empty
      → Ends (logged_out config now request result v)
  logged_out-Ends crashed v h = absurd (cc)
  logged_out-Ends unidentified v h =
      rw parsed (revoke-refuses config.store now none token v.db later extend)
  logged_out-Ends (identified identity) v h =
      rw parsed (revoke-refuses config.store now none token v.db later extend)
  logged_out-Ends (rejected status code) v h =
      elim (Bool-cases (forgiven config request status v.db)) [
        | inl over ↦ rw over (
            is_revoked-refuses config.store token v.db later extend
              (forgiven-revoked status v.db over))
        | inr other ↦ absurd (cc (ap (λ (x : Reply). x.body) (rw other at h)))
      ]

-- A logout that answers 204 and clears the cookie, on a request whose cookie has one session token,
-- leaves tables in which that token is answered with no identity, at any time.
pub post_logout-ends :
    (config : BrowserConfig) (at : Clocks) (now : ℕ) (r : Reservation) (request : BrowserRequest)
    (db : SessionTables) (token : Token) (later : Clock) (extend : Bool)
    → has_browser_session_cookie request.cookie ≡ true
    → parse_browser_session_cookie request.cookie ≡ some token
    → (post_logout config at now r request db).0 ≡ signs_out 204 empty
    → (authenticate config.store later token extend (post_logout config at now r request db).1.db).0
      ≡ none
unfolding post_logout
post_logout-ends config at now r request db token later extend there parsed h =
    elim (Bool-cases (has_device_bearer request.authorization)) [
      | inl bearer ↦ absurd (cc (ap (λ (x : Reply). x.body) (rw (there, bearer) at h)))
      | inr no_bearer ↦
          rw (there, no_bearer)
            (let a = authenticate_browser config at r request db in
              logged_out-Ends config at now request token parsed later extend a.result a.visit
                (rw (there, no_bearer) at h))
    ]
