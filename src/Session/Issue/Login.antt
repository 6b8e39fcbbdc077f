-- ===== src/Session/Issue/Login.antt =====
-- A session of a new family for a login or a recovery (src/sessions.ts: issueFromHandoff).
use egogero.Common.{
  ℕ, ◌+◌, Bool, true, false, not, ◌&&◌, Option, none, some, ◌==◌, if◌then◌else◌, is_none, update,
  any,
}
use egogero.Session.Schema.{
  HumanAccountRow, MembershipRow, credential_recovery, login_replaced, BrowserSession, Handoff,
  AuditReason, revoked_for, insufficient_authentication_assurance, session_creation_rate_limited,
  EventType, session_issue_denied, session_issued, mfa_policy_denied, session_family_replaced,
  credential_recovery_observed, AuditEvent, SessionTables, StoreConfig, accepts, Ran, crashed, done,
}
use egogero.Session.Load.{SessionRow, insert_audit}
use egogero.Session.Insert.{WriteClock, Draws, Requester, NewSession, insert_session}
use egogero.Session.Rotate.{IssuedBrowserSession, revoked_as, check_creation, issued}

abbrev pub Issued : Type 0
Issued = Ran (Option IssuedBrowserSession)

abbrev pub handoff_event :
    EventType → Option AuditReason → Handoff → Option MembershipRow → AuditEvent
handoff_event event why h none = record {
  event_type = event;
  success = is_none why;
  reason_code = why;
  account_id = some h.account_id;
  external_identity_id = some h.external_identity_id;
  session_id = none;
  membership_id = none;
  condominio_id = none;
}
handoff_event event why h (some m) = record {
  event_type = event;
  success = is_none why;
  reason_code = why;
  account_id = some h.account_id;
  external_identity_id = some h.external_identity_id;
  session_id = none;
  membership_id = some m.id;
  condominio_id = m.condominio_id;
}

abbrev pub refuse :
    EventType → AuditReason → Handoff → Option MembershipRow → SessionTables → Issued
refuse event why h m db = done none (insert_audit (handoff_event event (some why) h m) db)

abbrev issued_event : EventType → Handoff → MembershipRow → ℕ → AuditEvent
issued_event event h m session = record (handoff_event event none h (some m)) {
  session_id = some session;
}

abbrev pub agent_of : Option (Option ℕ) → Option ℕ
agent_of none = none
agent_of (some agent) = agent

-- The session of a login: a family of its own and twelve hours.
abbrev pub login_session :
    StoreConfig → Requester → Draws → Handoff → ℕ → MembershipRow → NewSession
login_session config who draws h version m = record {
  id = draws.session_id;
  family_id = draws.family_id;
  account_id = h.account_id;
  account_session_version = version;
  membership_id = m.id;
  authenticated_at = h.authenticated_at;
  evidence = h.evidence;
  absolute_expires_at = none;
  token_digest = config.digest draws.token;
  csrf = draws.csrf;
  csrf_key_version = config.current_csrf_key_version;
  ip_prefix = who.ip_prefix;
  user_agent_hash = agent_of who.user_agent_hash;
}

abbrev pub delivered : EventType → Draws → Handoff → MembershipRow → ℕ → Ran ℕ → Issued
delivered event draws h m csrf crashed = crashed
delivered event draws h m csrf (done absolute db) =
    done (some (issued draws.token csrf m draws.session_id absolute))
      (insert_audit (issued_event event h m draws.session_id) db)

abbrev pub of_family : SessionRow → BrowserSession → Bool
of_family row s =
    s.family_id == row.session.family_id
    && s.account_id == row.session.account_id
    && is_none s.revoked_at

abbrev family_event : SessionRow → AuditEvent
family_event row = record {
  event_type = session_family_replaced;
  success = true;
  reason_code = some (revoked_for login_replaced);
  account_id = some row.session.account_id;
  external_identity_id = none;
  session_id = some row.session.id;
  membership_id = some row.membership.id;
  condominio_id = row.membership.condominio_id;
}

abbrev revoked_family : ℕ → SessionRow → SessionTables → SessionTables
revoked_family now row db = record db {
  sessions = update (of_family row) (revoked_as now login_replaced) db.sessions;
}

-- The old family ends when somebody logs in over it, and nothing else does it after a recovery.
abbrev pub replace_old : ℕ → Bool → Option SessionRow → SessionTables → SessionTables
replace_old now true old db = db
replace_old now false none db = db
replace_old now false (some row) db =
    if any (of_family row) db.sessions
    then insert_audit (family_event row) (revoked_family now row db)
    else revoked_family now row db

abbrev pub after_limit :
    StoreConfig
    → WriteClock
    → Requester
    → Draws
    → Handoff
    → ℕ
    → MembershipRow
    → Option SessionRow
    → Bool × SessionTables
    → Issued
after_limit config at who draws h version m old (false, db) =
    refuse session_issue_denied session_creation_rate_limited h (some m) db
after_limit config at who draws h version m old (true, db) =
    delivered session_issued draws h m draws.csrf (
      insert_session config at.created_at (login_session config who draws h version m)
        (replace_old at.revoked_at h.recovery_intent old db))

abbrev pub bumped : ℕ → HumanAccountRow → HumanAccountRow
bumped now a = record a { session_version = a.session_version + 1; updated_at = now }

abbrev pub live_of_account : ℕ → BrowserSession → Bool
live_of_account account s = s.account_id == account && is_none s.revoked_at

-- A recovery raises the account's version and ends every session of the account.
abbrev pub recover : ℕ → Bool → Handoff → SessionTables → SessionTables
recover now false h db = db
recover now true h db =
    insert_audit (handoff_event credential_recovery_observed none h none) (record db {
      accounts = update (λ a. a.id == h.account_id) (bumped now) db.accounts;
      sessions =
          update (live_of_account h.account_id) (revoked_as now credential_recovery) db.sessions;
    })

abbrev pub version_after : Bool → HumanAccountRow → ℕ
version_after recovery a = if recovery then a.session_version + 1 else a.session_version

abbrev pub log_in :
    StoreConfig
    → WriteClock
    → Requester
    → Draws
    → Handoff
    → HumanAccountRow
    → MembershipRow
    → Option SessionRow
    → SessionTables
    → Issued
log_in config at who draws h account m old db =
    if not (accepts config.mfa_policy m.role h.evidence)
    then refuse mfa_policy_denied insufficient_authentication_assurance h (some m) db
    else after_limit config at who draws h (version_after h.recovery_intent account) m old
        (check_creation at.limited_at account.id (recover at.revoked_at h.recovery_intent h db))
