-- ===== src/Session/Lookup.antt =====
-- Looking a session up by its token (src/sessions.ts: authenticate, isRevoked, inspect).
pub mod Live
pub mod Shown
mod Examples
use egogero.Common.{
  ℕ, zero, suc, ◌+◌, ◌-◌, ◌*◌, ◌/◌, ◌%◌, ◌^◌, ◌≤◌, ◌<◌, min, max, ◌≡◌, refl, sym, ap, subst, ◌∙◌,
  ◌≢◌, ◌↔◌, ◌⊎◌, inl, inr, Bool, true, false, not, ◌&&◌, ◌||◌, Option, none, some, List, [], ◌∷◌,
  ◌++◌, map, arith, ltb, leb, ◌==◌, if◌then◌else◌, ==_iff, ==_refl, ==_sym, Bool-cases,
  Option-cases, is, is_none, after, length, length-append, select, first, update, count, any, all,
  head?, count-append, count-le-length, contains, All, Memᴰ, first-mem, first_of-count, any-first,
  count-any, count-mem,
}
use egogero.Auth.{ScopedIdentity, AuthenticatedIdentity, oidc_session}
use egogero.Rollout.{HumanAuthGateDecision}
use egogero.Session.Schema.{
  Evidence, MembershipRow, BrowserSession, Denial, AuditReason, denied_for, invalid_session,
  rollout_disabled, insufficient_authentication_assurance, csrf_integrity_failed, EventType,
  session_authentication_denied, mfa_policy_denied, AuditEvent, SessionTables, Token, StoreConfig,
  accepts, Ran, crashed, done, valid_session_token,
}
use egogero.Session.Load.{
  SessionRow, load_session, session_denial_reason, touch_session, insert_audit, denied_event,
  anonymous_event, identity_for,
}
use egogero.Session.Membership.{live_memberships}

-- The clock: when a row is read, and when it is written.
pub record Clock : Type 0 where
  pub read_at : ℕ
  pub written_at : ℕ

abbrev pub allowed_by : StoreConfig → SessionRow → Bool
allowed_by config row = (config.gate_membership row.membership.id row.session.account_id).allowed

abbrev pub assured : StoreConfig → SessionRow → Bool
assured config row = accepts config.mfa_policy row.membership.role row.session.evidence

-- What a lookup is refused for, after the session's own conditions.
abbrev pub refusal : StoreConfig → SessionRow → Option Denial → Option (EventType × AuditReason)
refusal config row (some why) = some (session_authentication_denied, denied_for why)
refusal config row none =
    if not (allowed_by config row)
    then some (session_authentication_denied, rollout_disabled)
    else if not (assured config row)
    then some (mfa_policy_denied, insufficient_authentication_assurance)
    else none

abbrev pub identity_of : SessionRow → AuthenticatedIdentity
identity_of row =
    oidc_session (identity_for row.membership) row.membership.account_id row.session.id

abbrev pub extended : Bool → Clock → SessionRow → SessionTables → SessionTables
extended false at row db = db
extended true at row db = record db {
  sessions = (touch_session at.read_at at.written_at row db.sessions).1;
}

abbrev pub admit :
    Clock
    → Bool
    → SessionRow
    → Option (EventType × AuditReason)
    → SessionTables
    → Option AuthenticatedIdentity × SessionTables
admit at extend row (some (event, why)) db = (none, insert_audit (denied_event event why row) db)
admit at extend row none db = (some (identity_of row), extended extend at row db)

abbrev pub authenticate_row :
    StoreConfig
    → Clock
    → Bool
    → Option SessionRow
    → SessionTables
    → Option AuthenticatedIdentity × SessionTables
authenticate_row config at extend none db =
    (none, insert_audit (anonymous_event session_authentication_denied invalid_session) db)
authenticate_row config at extend (some row) db =
    admit at extend row (refusal config row (session_denial_reason at.read_at row)) db

unfoldable pub authenticate :
    StoreConfig
    → Clock
    → Token
    → Bool
    → SessionTables
    → Option AuthenticatedIdentity × SessionTables
authenticate config at token extend db =
    if not (valid_session_token token)
    then (none, db)
    else authenticate_row config at extend (load_session (config.digest token) db) db

abbrev pub revoked_row : Option BrowserSession → Bool
revoked_row none = false
revoked_row (some s) = not (is_none s.revoked_at)

unfoldable pub is_revoked : StoreConfig → Token → SessionTables → Bool
is_revoked config token db =
    valid_session_token token
    && revoked_row (first (λ s. s.token_digest == config.digest token) db.sessions)

-- `BrowserSessionSnapshot`, without display names and labels.
pub record Snapshot : Type 0 where
  pub identity : AuthenticatedIdentity
  pub family_id : ℕ
  pub memberships : List MembershipRow
  pub active_membership_id : ℕ
  pub active_tenant_id : Option ℕ
  pub csrf_token : ℕ
  pub csrf_digest : ℕ
  pub expires_at : ℕ
  pub idle_expires_at : ℕ
  pub authenticated_at : ℕ
  pub evidence : Evidence

abbrev insert_by_age : MembershipRow → List MembershipRow → List MembershipRow
insert_by_age m [] = m ∷ []
insert_by_age m (n ∷ ms) =
    let later = n ∷ insert_by_age m ms in
    if ltb m.created_at n.created_at || (m.created_at == n.created_at && leb m.id n.id)
    then m ∷ n ∷ ms
    else later

abbrev by_age : List MembershipRow → List MembershipRow
by_age [] = []
by_age (m ∷ ms) = insert_by_age m (by_age ms)

abbrev pub snapshot_of : SessionRow → ℕ → ℕ → SessionTables → Snapshot
snapshot_of row csrf idle db = record {
  identity = identity_of row;
  family_id = row.session.family_id;
  memberships = by_age (live_memberships db row.session.account_id);
  active_membership_id = row.membership.id;
  active_tenant_id = row.membership.condominio_id;
  csrf_token = csrf;
  csrf_digest = row.session.csrf_digest;
  expires_at = row.session.absolute_expires_at;
  idle_expires_at = idle;
  authenticated_at = row.session.authenticated_at;
  evidence = row.session.evidence;
}

abbrev pub reencrypted : ℕ → ℕ → BrowserSession → BrowserSession
reencrypted version ciphertext s = record s {
  csrf_ciphertext = ciphertext;
  csrf_key_version = version;
}

abbrev pub with_ciphertext : StoreConfig → SessionRow → Option ℕ → SessionTables → Ran Unit
with_ciphertext config row none db = crashed
with_ciphertext config row (some ciphertext) db = done tt (record db {
  sessions =
      update (λ s. s.id == row.session.id && s.csrf_key_version == row.session.csrf_key_version)
        (reencrypted config.current_csrf_key_version ciphertext) db.sessions;
})

-- A CSRF token under an older key is stored again under the current one.
abbrev pub upgrade : StoreConfig → SessionRow → ℕ → SessionTables → Ran Unit
upgrade config row csrf db =
    if ltb row.session.csrf_key_version config.current_csrf_key_version
    then with_ciphertext config row
        (config.encrypt_csrf row.session.id row.session.account_id csrf
          config.current_csrf_key_version)
        db
    else done tt db

abbrev pub idle_of : Bool → Clock → SessionRow → SessionTables → ℕ
idle_of false at row db = row.session.idle_expires_at
idle_of true at row db = (touch_session at.read_at at.written_at row db.sessions).0

abbrev pub show : Clock → Bool → SessionRow → ℕ → Ran Unit → Ran (Option Snapshot)
show at extend row csrf crashed = crashed
show at extend row csrf (done nothing db) =
    done (some (snapshot_of row csrf (idle_of extend at row db) db)) (extended extend at row db)

abbrev pub with_csrf :
    StoreConfig → Clock → Bool → SessionRow → Option ℕ → SessionTables → Ran (Option Snapshot)
with_csrf config at extend row none db =
    done none
      (insert_audit (denied_event session_authentication_denied csrf_integrity_failed row) db)
with_csrf config at extend row (some csrf) db = show at extend row csrf (upgrade config row csrf db)

abbrev pub inspect_refused :
    StoreConfig
    → Clock
    → Bool
    → SessionRow
    → Option (EventType × AuditReason)
    → SessionTables
    → Ran (Option Snapshot)
inspect_refused config at extend row (some (event, why)) db =
    done none (insert_audit (denied_event event why row) db)
inspect_refused config at extend row none db =
    with_csrf config at extend row (config.decrypt_csrf row.session) db

-- The gate is asked first, before the session's own conditions.
abbrev pub inspect_refusal :
    StoreConfig → SessionRow → Option Denial → Option (EventType × AuditReason)
inspect_refusal config row denial =
    if not (allowed_by config row)
    then some (session_authentication_denied, rollout_disabled)
    else refusal config row denial

abbrev pub inspect_row :
    StoreConfig → Clock → Bool → Option SessionRow → SessionTables → Ran (Option Snapshot)
inspect_row config at extend none db =
    done none (insert_audit (anonymous_event session_authentication_denied invalid_session) db)
inspect_row config at extend (some row) db =
    inspect_refused config at extend row
      (inspect_refusal config row (session_denial_reason at.read_at row)) db

-- The two reads of the row are of one transaction.
unfoldable pub inspect : StoreConfig → Clock → Token → Bool → SessionTables → Ran (Option Snapshot)
inspect config at token extend db =
    if not (valid_session_token token)
    then done none db
    else inspect_row config at extend (load_session (config.digest token) db) db
