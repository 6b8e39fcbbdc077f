-- ===== src/Session/Rotate.antt =====
-- Replacing a session by a new one of its family (src/sessions.ts: insertSession, rotate).
pub mod Successor
mod Examples
use egogero.Common.{
  ℕ, zero, suc, ◌+◌, ◌-◌, ◌*◌, ◌/◌, ◌%◌, ◌^◌, ◌≤◌, ◌<◌, min, max, ◌≡◌, refl, sym, ap, subst, ◌∙◌,
  ◌≢◌, ◌↔◌, ◌⊎◌, inl, inr, Bool, true, false, not, ◌&&◌, ◌||◌, Option, none, some, List, [], ◌∷◌,
  ◌++◌, map, arith, ltb, leb, ◌==◌, if◌then◌else◌, ==_iff, ==_refl, ==_sym, Bool-cases,
  Option-cases, is, is_none, after, length, length-append, select, first, update, count, any, all,
  head?, count-append, count-le-length, contains, All, Memᴰ, first-mem, first_of-count, any-first,
  count-any, count-mem,
}
use egogero.Auth.{ScopedIdentity, AuthenticatedIdentity, oidc_session}
use egogero.AuthLimits.{
  Bucket, check_consume, auth_rate_limit_policies, session_creation_account, AuthRateLimitDecision,
}
use egogero.Rollout.{HumanAuthGateDecision}
use egogero.Session.Schema.{
  Evidence, MembershipRow, RevokeReason, rotated, BrowserSession, Denial, AuditReason, denied_for,
  invalid_session, rollout_disabled, stale_session, target_membership_invalid,
  target_membership_inactive, membership_scope_inactive, session_creation_rate_limited,
  insufficient_authentication_assurance, csrf_integrity_failed, EventType, session_rotation_denied,
  session_rotated, mfa_policy_denied, AuditEvent, SessionTables, Token, StoreConfig, accepts, Ran,
  crashed, done, valid_session_token, session_idle_ttl_ms, session_absolute_ttl_ms,
}
use egogero.Session.Load.{
  SessionRow, load_session, session_denial_reason, insert_audit, denied_event, anonymous_event,
  identity_for,
}
use egogero.Session.Membership.{load_target_membership, lock_live_membership_scope}
use egogero.Session.Insert.{
  WriteClock, Draws, Requester, NewSession, absolute_or, session_from, insert_encrypted,
  insert_session,
}

pub record IssuedBrowserSession : Type 0 where
  pub session_token : Token
  pub csrf_token : ℕ
  pub identity : AuthenticatedIdentity
  pub absolute_expires_at : ℕ

pub data SessionRotationResult : Type 0 where
  rotated_to : IssuedBrowserSession → SessionRotationResult
  stale denied reauthentication_required : SessionRotationResult

-- A conditional UPDATE of one session that sets its revocation.
abbrev pub unrevoked : ℕ → BrowserSession → Bool
unrevoked id s = s.id == id && is_none s.revoked_at

abbrev pub revoked_as : ℕ → RevokeReason → BrowserSession → BrowserSession
revoked_as now why s = record s { revoked_at = some now; revoke_reason = some why }

-- `rateLimiter.check('session_creation_account', account, true, transaction)`.
unfoldable pub check_creation : ℕ → ℕ → SessionTables → Bool × SessionTables
check_creation now account db =
    let answer =
      check_consume (auth_rate_limit_policies session_creation_account) now
        (db.creation_limits account) in
    (
      answer.0.allowed,
      record db {
        creation_limits =
            λ other. if other == account then some answer.1 else db.creation_limits other;
      },
    )

abbrev pub deny_rotation :
    SessionRotationResult
    → EventType
    → AuditReason
    → SessionRow
    → SessionTables
    → Ran SessionRotationResult
deny_rotation answer event why row db = done answer (insert_audit (denied_event event why row) db)

abbrev pub or_older : Option ℕ → Option ℕ → Option ℕ
or_older none old = old
or_older (some new) old = some new

abbrev pub agent_or : Option (Option ℕ) → Option ℕ → Option ℕ
agent_or none old = old
agent_or (some agent) old = agent

abbrev pub successor : StoreConfig → Requester → Draws → SessionRow → MembershipRow → ℕ → NewSession
successor config who draws row m csrf = record {
  id = draws.session_id;
  family_id = row.session.family_id;
  account_id = row.session.account_id;
  account_session_version = row.session.account_session_version;
  membership_id = m.id;
  authenticated_at = row.session.authenticated_at;
  evidence = row.session.evidence;
  absolute_expires_at = some row.session.absolute_expires_at;
  token_digest = config.digest draws.token;
  csrf = csrf;
  csrf_key_version = max config.current_csrf_key_version row.session.csrf_key_version;
  ip_prefix = or_older who.ip_prefix row.session.ip_prefix;
  user_agent_hash = agent_or who.user_agent_hash row.session.user_agent_hash;
}

abbrev pub issued : Token → ℕ → MembershipRow → ℕ → ℕ → IssuedBrowserSession
issued token csrf m session absolute = record {
  session_token = token;
  csrf_token = csrf;
  identity = oidc_session (identity_for m) m.account_id session;
  absolute_expires_at = absolute;
}

abbrev pub session_event : EventType → ℕ → ℕ → MembershipRow → AuditEvent
session_event event account session m = record {
  event_type = event;
  success = true;
  reason_code = none;
  account_id = some account;
  external_identity_id = none;
  session_id = some session;
  membership_id = some m.id;
  condominio_id = m.condominio_id;
}

abbrev pub rotation_of : Draws → SessionRow → MembershipRow → ℕ → Ran ℕ → Ran SessionRotationResult
rotation_of draws row m csrf crashed = crashed
rotation_of draws row m csrf (done absolute db) =
    done (rotated_to (issued draws.token csrf m draws.session_id absolute))
      (insert_audit (session_event session_rotated row.session.account_id draws.session_id m) db)

-- From the revocation of the old session on.
unfoldable pub replace_session :
    StoreConfig
    → WriteClock
    → Requester
    → Draws
    → SessionRow
    → MembershipRow
    → ℕ
    → SessionTables
    → Ran SessionRotationResult
replace_session config at who draws row m csrf db =
    if not (count (unrevoked row.session.id) db.sessions == 1)
    then deny_rotation stale session_rotation_denied stale_session row db
    else rotation_of draws row m csrf (
        insert_session config at.created_at (successor config who draws row m csrf) (record db {
          sessions =
              update (unrevoked row.session.id) (revoked_as at.revoked_at rotated) db.sessions;
        }))

abbrev pub with_csrf :
    StoreConfig
    → WriteClock
    → Requester
    → Draws
    → SessionRow
    → MembershipRow
    → Option ℕ
    → SessionTables
    → Ran SessionRotationResult
with_csrf config at who draws row m none db =
    deny_rotation denied session_rotation_denied csrf_integrity_failed row db
with_csrf config at who draws row m (some csrf) db =
    replace_session config at who draws row m csrf db

abbrev pub with_limit :
    StoreConfig
    → WriteClock
    → Requester
    → Draws
    → SessionRow
    → MembershipRow
    → Bool × SessionTables
    → Ran SessionRotationResult
with_limit config at who draws row m (false, db) =
    deny_rotation denied session_rotation_denied session_creation_rate_limited row db
with_limit config at who draws row m (true, db) =
    with_csrf config at who draws row m (config.decrypt_csrf row.session) db

-- The conditions on the target membership.
abbrev pub to_membership :
    StoreConfig
    → WriteClock
    → Requester
    → Draws
    → SessionRow
    → Option MembershipRow
    → SessionTables
    → Ran SessionRotationResult
to_membership config at who draws row none db =
    deny_rotation denied session_rotation_denied target_membership_inactive row db
to_membership config at who draws row (some m) db =
    if not (config.gate_membership m.id row.session.account_id).allowed
    then deny_rotation denied session_rotation_denied rollout_disabled row db
    else if not (lock_live_membership_scope db m)
    then deny_rotation denied session_rotation_denied membership_scope_inactive row db
    else if not (accepts config.mfa_policy m.role row.session.evidence)
    then deny_rotation reauthentication_required mfa_policy_denied
        insufficient_authentication_assurance row db
    else with_limit config at who draws row m
        (check_creation at.limited_at row.session.account_id db)

-- `targetMembershipId`: not given, no UUID, or a membership.
pub data Target : Type 0 where
  same_membership invalid_target : Target
  membership_target : ℕ → Target

abbrev pub target_id : SessionRow → Target → Option ℕ
target_id row same_membership = some row.membership.id
target_id row invalid_target = none
target_id row (membership_target id) = some id

abbrev pub target_membership : SessionRow → Option ℕ → SessionTables → Option MembershipRow
target_membership row none db = none
target_membership row (some id) db = load_target_membership row.session.account_id id db

abbrev pub unless_denied :
    StoreConfig
    → WriteClock
    → Requester
    → Draws
    → SessionRow
    → Option ℕ
    → Option Denial
    → SessionTables
    → Ran SessionRotationResult
unless_denied config at who draws row id (some why) db =
    deny_rotation denied session_rotation_denied (denied_for why) row db
unless_denied config at who draws row id none db =
    to_membership config at who draws row (target_membership row id db) db

abbrev pub rotate_to :
    StoreConfig
    → WriteClock
    → Requester
    → Draws
    → SessionRow
    → Option ℕ
    → SessionTables
    → Ran SessionRotationResult
rotate_to config at who draws row none db =
    deny_rotation denied session_rotation_denied target_membership_invalid row db
rotate_to config at who draws row (some id) db =
    if not (is_none row.session.revoked_at)
    then deny_rotation stale session_rotation_denied stale_session row db
    else unless_denied config at who draws row (some id) (session_denial_reason at.read_at row) db

abbrev pub rotate_row :
    StoreConfig
    → WriteClock
    → Requester
    → Draws
    → Option SessionRow
    → Target
    → SessionTables
    → Ran SessionRotationResult
rotate_row config at who draws none target db =
    done denied (insert_audit (anonymous_event session_rotation_denied invalid_session) db)
rotate_row config at who draws (some row) target db =
    rotate_to config at who draws row (target_id row target) db

-- The two reads of the row are of one transaction.
unfoldable pub rotate :
    StoreConfig
    → WriteClock
    → Requester
    → Draws
    → Token
    → Target
    → SessionTables
    → Ran SessionRotationResult
rotate config at who draws token target db =
    if not (valid_session_token token)
    then done denied db
    else rotate_row config at who draws (load_session (config.digest token) db) target db
