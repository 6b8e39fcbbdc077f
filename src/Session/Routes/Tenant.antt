-- ===== src/Session/Routes/Tenant.antt =====
-- Changing the tenant: the page's evidence and a rotation of the session.
use egogero.Common.{
  ℕ, ◌≡◌, refl, sym, ap, subst, ◌∙◌, ◌⊎◌, inl, inr, true, Option, none, some, [], Bool-cases, after,
  count,
}
use mathlib.Core.Option.{some-injective}
use egogero.Auth.{
  AuthenticatedIdentity, authentication_required, ambiguous_credentials,
  authentication_temporarily_unavailable, csrf_required, Authentication, identified, unidentified,
  rejected, crashed,
}
use egogero.Session.Schema.{SessionTables, Token, Ran, done}
use egogero.Session.Insert.{WriteClock, Draws, Requester}
use egogero.Session.Rotate.{
  SessionRotationResult, rotated_to, stale, denied, reauthentication_required, IssuedBrowserSession,
  membership_target, rotate,
}
use egogero.Session.Rotate.Successor.{IsRotation, rotate-IsRotation}
use egogero.Session.Family.{has_id}
use egogero.Session.Cookie.{has_browser_session_cookie, parse_browser_session_cookie}
use egogero.Session.Browser.{
  BrowserRequest, other_method, BrowserConfig, Reservation, Visit, Clocks, has_device_bearer,
  authenticate_browser,
}
use egogero.Session.Browser.Answered.{authenticate_browser-answers}
use egogero.Session.Browser.Mutation.{IsGuarded, authenticate_browser-IsGuarded}
use egogero.Session.Routes.{
  Reply, SetCookie, session_cookie, cleared_cookie, after_authentication, rotation_reply,
  rotate_token, change_tenant, post_tenant,
}

abbrev token_of : SetCookie → Token
token_of cleared_cookie = []
token_of (session_cookie token) = token

-- A reply with a session cookie comes from a rotation of the request's token.
record IsTenantChange (config : BrowserConfig) (written : WriteClock) (who : Requester)
    (draws : Draws) (request : BrowserRequest) (body : Option ℕ) (db : SessionTables)
    (cookie : Token) (after : SessionTables) : Type 0 where
  target : ℕ
  chosen : body ≡ some target
  token : Token
  parsed : parse_browser_session_cookie request.cookie ≡ some token
  issued : IssuedBrowserSession
  sent : issued.session_token ≡ cookie
  rotation :
      rotate config.store written who draws token (membership_target target) db
      ≡ done (rotated_to issued) after

module _ (config : BrowserConfig) (written : WriteClock) (who : Requester) (draws : Draws)
    (request : BrowserRequest) (cookie : Token) where
  abbrev Changes : Option ℕ → SessionTables → SessionTables → Type 0
  Changes body db after = IsTenantChange config written who draws request body db cookie after

  abbrev Sends : Reply × Visit → Type 0
  Sends reply = reply.0.set_cookie ≡ some (session_cookie cookie)

  rotation_reply-Changes :
      (target : ℕ) (token : Token) (v : Visit) (found : Ran SessionRotationResult)
      → parse_browser_session_cookie request.cookie ≡ some token
      → rotate config.store written who draws token (membership_target target) v.db ≡ found
      → Sends (rotation_reply v found)
      → Changes (some target) v.db (rotation_reply v found).1.db
  rotation_reply-Changes target token v Ran.crashed parsed e h = absurd (cc)
  rotation_reply-Changes target token v (done stale db) parsed e h = absurd (cc)
  rotation_reply-Changes target token v (done denied db) parsed e h = absurd (cc)
  rotation_reply-Changes target token v (done reauthentication_required db) parsed e h = absurd (cc)
  rotation_reply-Changes target token v (done (rotated_to issued) db) parsed e h = record {
    target = target;
    chosen = refl;
    token = token;
    parsed = parsed;
    issued = issued;
    sent = ap token_of (some-injective _ _ h);
    rotation = e;
  }

  rotate_token-Changes :
      (target : ℕ) (token : Option Token) (v : Visit)
      → parse_browser_session_cookie request.cookie ≡ token
      → Sends (rotation_reply v (rotate_token config written who draws token target v.db))
      → Changes
          (some target)
          v.db
          (rotation_reply v (rotate_token config written who draws token target v.db)).1.db
  rotate_token-Changes target none v parsed h = absurd (cc)
  rotate_token-Changes target (some token) v parsed h =
      rotation_reply-Changes target token v
        (rotate config.store written who draws token (membership_target target) v.db) parsed refl h

  change_tenant-Changes :
      (body : Option ℕ) (identity : Option AuthenticatedIdentity) (v : Visit)
      → Sends (change_tenant config written who draws request body identity v)
      → Changes body v.db (change_tenant config written who draws request body identity v).1.db
  change_tenant-Changes none identity v h = absurd (cc)
  change_tenant-Changes (some target) identity v h =
      rotate_token-Changes target (parse_browser_session_cookie request.cookie) v refl h

  -- What goes on after the authentication, and with whom.
  record IsContinued (result : Authentication) (body : Option ℕ) (v : Visit) (after : SessionTables)
      : Type 0 where
    not_rejected :
        (result ≡ unidentified)
        ⊎ ((identity : AuthenticatedIdentity) × (result ≡ identified identity))
    change : Changes body v.db after

  after-IsContinued :
      (result : Authentication) (body : Option ℕ) (v : Visit)
      → Sends (after_authentication result v (change_tenant config written who draws request body))
      → IsContinued result body v
          (after_authentication result v (change_tenant config written who draws request body)).1.db
  after-IsContinued (identified identity) body v h = record {
    not_rejected = inr (identity, refl);
    change = change_tenant-Changes body (some identity) v h;
  }
  after-IsContinued unidentified body v h = record {
    not_rejected = inl refl;
    change = change_tenant-Changes body none v h;
  }
  after-IsContinued (rejected status authentication_required) body v h = absurd (cc)
  after-IsContinued (rejected status ambiguous_credentials) body v h = absurd (cc)
  after-IsContinued (rejected status authentication_temporarily_unavailable) body v h = absurd (cc)
  after-IsContinued (rejected status csrf_required) body v h = absurd (cc)
  after-IsContinued crashed body v h = absurd (cc)

-- The evidence of the page, and the rotation that follows it in the tables that the authentication
-- leaves.
pub record IsGuardedRotation (config : BrowserConfig) (at : Clocks) (written : WriteClock)
    (draws : Draws) (request : BrowserRequest) (body : Option ℕ) (db before : SessionTables)
    (cookie : Token) (after : SessionTables) : Type 0 where
  pub identity : AuthenticatedIdentity
  pub guarded : IsGuarded config at request db identity before
  pub target : ℕ
  pub chosen : body ≡ some target
  pub issued : IssuedBrowserSession
  pub sent : issued.session_token ≡ cookie
  pub rotation :
      IsRotation config.store written.read_at draws guarded.token
        (membership_target target)
        before
        issued
        after

guarded_rotation :
    (config : BrowserConfig) (at : Clocks) (written : WriteClock) (who : Requester) (draws : Draws)
    (request : BrowserRequest) (body : Option ℕ) (db before after : SessionTables) (cookie : Token)
    (identity : AuthenticatedIdentity)
    → count (has_id draws.session_id) before.sessions ≡ 0
    → IsGuarded config at request db identity before
    → IsTenantChange config written who draws request body before cookie after
    → IsGuardedRotation config at written draws request body db before cookie after
guarded_rotation config at written who draws request body db before after cookie identity fresh_id
      guarded change =
    let same = some-injective _ _ (sym change.parsed ∙ guarded.parsed) in
    record {
      identity = identity;
      guarded = guarded;
      target = change.target;
      chosen = change.chosen;
      issued = change.issued;
      sent = change.sent;
      rotation =
          subst
            (λ token.
              IsRotation config.store written.read_at draws token (membership_target change.target)
                before change.issued after)
            same
            (rotate-IsRotation config.store written who draws change.token
              (membership_target change.target) before after change.issued fresh_id
              change.rotation);
    }

-- A reply that sets a new session cookie on a request of another method than GET, HEAD and OPTIONS
-- with a session cookie comes after the whole evidence of the page, and from a rotation of that same
-- session, in the tables that the last of the three authentications has left, to the membership
-- that the body names. The new identifier is not in the table before.
pub post_tenant-IsGuardedRotation :
    (config : BrowserConfig) (at : Clocks) (written : WriteClock) (r : Reservation)
    (who : Requester) (draws : Draws) (request : BrowserRequest) (body : Option ℕ)
    (db : SessionTables) (cookie : Token)
    → request.method ≡ other_method
    → has_browser_session_cookie request.cookie ≡ true
    → count
        (has_id draws.session_id)
        (authenticate_browser config at r request db).visit.db.sessions
      ≡ 0
    → (post_tenant config at written r who draws request body db).0.set_cookie
      ≡ some (session_cookie cookie)
    → IsGuardedRotation config at written draws request body db
        (authenticate_browser config at r request db).visit.db
        cookie
        (post_tenant config at written r who draws request body db).1.db
unfolding post_tenant
post_tenant-IsGuardedRotation config at written r who draws request body db cookie unsafe there
      fresh_id h =
    elim (Bool-cases (has_device_bearer request.authorization)) [
      | inl bearer ↦ absurd (cc (rw (there, bearer) at h))
      | inr no_bearer ↦
          let a = authenticate_browser config at r request db in
          let going =
            after-IsContinued config written who draws request cookie a.result body a.visit
              (rw (there, no_bearer) at h) in
          rw (there, no_bearer)
            (elim going.not_rejected [
              | inl passed ↦
                  absurd (authenticate_browser-answers config at r request db there passed)
              | inr (identity, e) ↦
                  guarded_rotation config at written who draws request body db a.visit.db _ cookie
                    identity fresh_id
                    (authenticate_browser-IsGuarded config at r request db identity unsafe e)
                    going.change
            ])
    ]
