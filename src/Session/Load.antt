-- ===== src/Session/Load.antt =====
-- Reading a session by its token, why it is denied, and the touch that extends it (src/sessions.ts:
-- loadSession, sessionDenialReason, touchSession, insertAudit, identityFor).
use egogero.Common.{
  ℕ, ◌+◌, min, Bool, true, false, not, ◌&&◌, ◌||◌, Option, none, some, List, [], ◌∷◌, ltb, leb,
  ◌==◌, if◌then◌else◌, is, is_none, first, update,
}
use egogero.Auth.{provedor, sindico, morador, portaria, is_provedor, is_morador}
use egogero.Auth.{ScopedIdentity, provider, tenant, sindico_role, morador_role, portaria_role}
use egogero.Invitation.Schema.{
  AccountStatus, active_account, MembershipStatus, active, Condominio, Morador,
}
use egogero.Session.Schema.{
  HumanAccountRow, MembershipRow, BrowserSession, Denial, session_revoked, session_absolute_expired,
  session_idle_expired, account_inactive, session_version_mismatch, membership_inactive,
  condominium_inactive, resident_inactive, AuditReason, EventType, AuditEvent, SessionTables,
  session_idle_ttl_ms, session_touch_interval_ms,
}

-- The row of loadSession: the session joined with its account and its active membership, and, where
-- they are there, the condominium and the resident of the membership.
pub record SessionRow : Type 0 where
  pub session : BrowserSession
  pub account : HumanAccountRow
  pub membership : MembershipRow
  pub condominium : Option Condominio
  pub resident : Option Morador

abbrev pub condominium_of : List Condominio → MembershipRow → Option Condominio
condominium_of condominios m = first (λ k. is m.condominio_id k.id) condominios

abbrev pub resident_of : List Morador → MembershipRow → Option Morador
resident_of moradores m =
    first (λ r. is m.resident_id r.id && is m.condominio_id r.condominio_id) moradores

abbrev pub joined :
    SessionTables
    → BrowserSession
    → Option HumanAccountRow
    → Option MembershipRow
    → Option SessionRow
joined db s (some a) (some m) = some (record {
  session = s;
  account = a;
  membership = m;
  condominium = condominium_of db.condominios m;
  resident = resident_of db.moradores m;
})
joined db s _ _ = none

abbrev pub row_of : SessionTables → Option BrowserSession → Option SessionRow
row_of db none = none
row_of db (some s) =
    joined db s (first (λ a. a.id == s.account_id) db.accounts)
      (first (λ m. m.id == s.active_membership_id && m.account_id == s.account_id) db.memberships)

-- The digest of the token is a unique column, and identifiers are keys.
unfoldable pub load_session : ℕ → SessionTables → Option SessionRow
load_session digest db = row_of db (first (λ s. s.token_digest == digest) db.sessions)

abbrev pub is_active_account : AccountStatus → Bool
is_active_account active_account = true
is_active_account _ = false

abbrev pub is_active_membership : MembershipStatus → Bool
is_active_membership active = true
is_active_membership _ = false

abbrev pub condominium_deleted : Option Condominio → Bool
condominium_deleted none = false
condominium_deleted (some k) = not (is_none k.deleted_at)

-- `residentDeletedAt !== null || residentCondominiumId !== condominioId`, with a resident that is
-- not there as nulls.
abbrev pub resident_lost : Option ℕ → Option Morador → Bool
resident_lost none none = false
resident_lost (some condominio) none = true
resident_lost condominio (some r) =
    not (is_none r.deleted_at) || not (is condominio r.condominio_id)

unfoldable pub session_denial_reason : ℕ → SessionRow → Option Denial
session_denial_reason now row =
    if not (is_none row.session.revoked_at)
    then some session_revoked
    else if leb row.session.absolute_expires_at now
    then some session_absolute_expired
    else if leb row.session.idle_expires_at now
    then some session_idle_expired
    else if not (is_active_account row.account.status)
    then some account_inactive
    else if not (row.session.account_session_version == row.account.session_version)
    then some session_version_mismatch
    else if not (is_active_membership row.membership.status)
    then some membership_inactive
    else if not (is_provedor row.membership.role) && condominium_deleted row.condominium
    then some condominium_inactive
    else if is_morador row.membership.role
        && resident_lost row.membership.condominio_id row.resident
    then some resident_inactive
    else none

abbrev pub touchable : ℕ → ℕ → BrowserSession → Bool
touchable id now s =
    s.id == id
    && is_none s.revoked_at
    && leb (s.last_seen_at + session_touch_interval_ms) now
    && ltb now s.idle_expires_at
    && ltb now s.absolute_expires_at

abbrev pub touched : ℕ → BrowserSession → BrowserSession
touched now s = record s {
  last_seen_at = now;
  idle_expires_at = min (now + session_idle_ttl_ms) s.absolute_expires_at;
}

abbrev pub idle_after : ℕ → Option BrowserSession → BrowserSession → ℕ
idle_after now none read = read.idle_expires_at
idle_after now (some s) read = (touched now s).idle_expires_at

-- The idle expiration that is reported, and the table; `now` is when the row was read and `later`
-- the time of the UPDATE.
unfoldable pub touch_session : ℕ → ℕ → SessionRow → List BrowserSession → ℕ × List BrowserSession
touch_session now later row rows =
    if ltb now (row.session.last_seen_at + session_touch_interval_ms)
    then (row.session.idle_expires_at, rows)
    else (
      idle_after later (first (touchable row.session.id later) rows) row.session,
      update (touchable row.session.id later) (touched later) rows,
    )

abbrev pub insert_audit : AuditEvent → SessionTables → SessionTables
insert_audit event db = record db { audits = event ∷ db.audits }

-- `auditDenied` with a session, and without one.
abbrev pub denied_event : EventType → AuditReason → SessionRow → AuditEvent
denied_event event why row = record {
  event_type = event;
  success = false;
  reason_code = some why;
  account_id = some row.session.account_id;
  external_identity_id = none;
  session_id = some row.session.id;
  membership_id = some row.membership.id;
  condominio_id = row.membership.condominio_id;
}

abbrev pub anonymous_event : EventType → AuditReason → AuditEvent
anonymous_event event why = record {
  event_type = event;
  success = false;
  reason_code = some why;
  account_id = none;
  external_identity_id = none;
  session_id = none;
  membership_id = none;
  condominio_id = none;
}

-- The assertion `!` that a nullable identifier is there; a null goes on as 0, which no row has.
abbrev pub or_zero : Option ℕ → ℕ
or_zero none = 0
or_zero (some n) = n

-- `identityFor`: the scope of a human session's identity; a tenant's membership has a condominium,
-- and a resident's has a resident.
unfoldable pub identity_for : MembershipRow → ScopedIdentity
identity_for m = elim m.role [
  | provedor ↦ provider m.account_id
  | sindico ↦ tenant m.account_id sindico_role (or_zero m.condominio_id ∷ [])
  | morador ↦ tenant (or_zero m.resident_id) morador_role (or_zero m.condominio_id ∷ [])
  | portaria ↦ tenant m.account_id portaria_role (or_zero m.condominio_id ∷ [])
]
