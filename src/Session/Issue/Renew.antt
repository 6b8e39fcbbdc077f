-- ===== src/Session/Issue/Renew.antt =====
-- A reauthentication: a new session in the family of the old one (src/sessions.ts:
-- issueFromHandoff).
use egogero.Common.{
  ℕ, max, Bool, true, false, not, ◌&&◌, Option, none, some, ◌==◌, if◌then◌else◌, is, is_none,
  update, count,
}
use egogero.Session.Schema.{
  MembershipRow, reauthenticated, Handoff, invalid_session, insufficient_authentication_assurance,
  session_creation_rate_limited, session_integrity_failed, mfa_policy_denied,
  session_reauthentication_denied, session_reauthenticated, SessionTables, StoreConfig, accepts,
  done,
}
use egogero.Session.Load.{SessionRow, session_denial_reason, insert_audit, denied_event}
use egogero.Session.Membership.{lock_live_membership_scope}
use egogero.Session.Insert.{WriteClock, Draws, Requester, NewSession, insert_session}
use egogero.Session.Rotate.{unrevoked, revoked_as, check_creation, or_older, agent_or}
use egogero.Session.Issue.Login.{Issued, refuse, delivered}

abbrev pub reauthenticated_session :
    StoreConfig → Requester → Draws → Handoff → SessionRow → MembershipRow → ℕ → NewSession
reauthenticated_session config who draws h row m csrf = record {
  id = draws.session_id;
  family_id = row.session.family_id;
  account_id = h.account_id;
  account_session_version = row.session.account_session_version;
  membership_id = m.id;
  authenticated_at = h.authenticated_at;
  evidence = h.evidence;
  absolute_expires_at = some row.session.absolute_expires_at;
  token_digest = config.digest draws.token;
  csrf = csrf;
  csrf_key_version = max config.current_csrf_key_version row.session.csrf_key_version;
  ip_prefix = or_older who.ip_prefix row.session.ip_prefix;
  user_agent_hash = agent_or who.user_agent_hash row.session.user_agent_hash;
}

-- From the revocation of the old session on; nothing is audited where another request came first.
unfoldable pub renew_session :
    StoreConfig
    → WriteClock
    → Requester
    → Draws
    → Handoff
    → SessionRow
    → MembershipRow
    → ℕ
    → SessionTables
    → Issued
renew_session config at who draws h row m csrf db =
    if not (count (unrevoked row.session.id) db.sessions == 1)
    then done none db
    else delivered session_reauthenticated draws h m csrf (
        insert_session config at.created_at (reauthenticated_session config who draws h row m csrf)
          (record db {
            sessions =
                update (unrevoked row.session.id) (revoked_as at.revoked_at reauthenticated)
                  db.sessions;
          }))

abbrev pub renew_limited :
    StoreConfig
    → WriteClock
    → Requester
    → Draws
    → Handoff
    → SessionRow
    → MembershipRow
    → ℕ
    → Bool × SessionTables
    → Issued
renew_limited config at who draws h row m csrf (false, db) = done none (
    insert_audit (denied_event session_reauthentication_denied session_creation_rate_limited row)
      db)
renew_limited config at who draws h row m csrf (true, db) =
    renew_session config at who draws h row m csrf db

abbrev pub renew_with :
    StoreConfig
    → WriteClock
    → Requester
    → Draws
    → Handoff
    → SessionRow
    → Option MembershipRow
    → Option ℕ
    → SessionTables
    → Issued
renew_with config at who draws h row (some m) (some csrf) db =
    if not (lock_live_membership_scope db m)
    then done none (
        insert_audit (denied_event session_reauthentication_denied session_integrity_failed row) db)
    else if not (accepts config.mfa_policy m.role h.evidence)
    then done none
        (insert_audit (denied_event mfa_policy_denied insufficient_authentication_assurance row) db)
    else renew_limited config at who draws h row m csrf
        (check_creation at.limited_at h.account_id db)
renew_with config at who draws h row _ _ db =
    done none
      (insert_audit (denied_event session_reauthentication_denied session_integrity_failed row) db)

abbrev pub same_session : Handoff → ℕ → SessionRow → Bool
same_session h now row =
    row.session.account_id == h.account_id
    && is h.reauthentication_family_id row.session.family_id
    && is_none (session_denial_reason now row)

abbrev pub reauthenticate :
    StoreConfig
    → WriteClock
    → Requester
    → Draws
    → Handoff
    → Option MembershipRow
    → Option SessionRow
    → SessionTables
    → Issued
reauthenticate config at who draws h m none db =
    refuse session_reauthentication_denied invalid_session h none db
reauthenticate config at who draws h m (some row) db =
    if not (same_session h at.read_at row)
    then refuse session_reauthentication_denied invalid_session h none db
    else renew_with config at who draws h row m (config.decrypt_csrf row.session) db
