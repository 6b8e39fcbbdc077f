-- ===== src/Session/Revoke.antt =====
-- Ending sessions (src/sessions.ts: revoke, revokeAll).
pub mod Ending
mod Examples
use egogero.Common.{
  ℕ, zero, suc, ◌+◌, ◌-◌, ◌*◌, ◌/◌, ◌%◌, ◌^◌, ◌≤◌, ◌<◌, min, max, ◌≡◌, refl, sym, ap, subst, ◌∙◌,
  ◌≢◌, ◌↔◌, ◌⊎◌, inl, inr, Bool, true, false, not, ◌&&◌, ◌||◌, Option, none, some, List, [], ◌∷◌,
  ◌++◌, map, arith, ltb, leb, ◌==◌, if◌then◌else◌, ==_iff, ==_refl, ==_sym, Bool-cases,
  Option-cases, is, is_none, after, length, length-append, select, first, update, count, any, all,
  head?, count-append, count-le-length, contains, All, Memᴰ, first-mem, first_of-count, any-first,
  count-any, count-mem,
}
use egogero.Session.Schema.{
  HumanAccountRow, RevokeReason, all_sessions_revoked, user_logout, BrowserSession, ReturnTo,
  StartIntent, Denial, session_revoked, AuditReason, revoked_for, invalid_session,
  reauthentication_required, account_not_found, EventType, session_revocation_denied,
  session_revoked_event, session_revoke_all_denied, session_revoke_all, AuditEvent, SessionTables,
  Token, StoreConfig, valid_session_token, reauthentication_start_ttl_ms,
}
use egogero.Session.Load.{
  SessionRow, load_session, session_denial_reason, insert_audit, denied_event, anonymous_event,
}
use egogero.Session.Rotate.{revoked_as}
use egogero.Session.Issue.Login.{bumped, live_of_account}

pub data SessionRevocationResult : Type 0 where
  revoked already_revoked unavailable : SessionRevocationResult

abbrev pub in_family : ℕ → BrowserSession → Bool
in_family family s = s.family_id == family && is_none s.revoked_at

abbrev pub reason_or : Option RevokeReason → RevokeReason
reason_or none = user_logout
reason_or (some why) = why

abbrev revoked_event : RevokeReason → SessionRow → AuditEvent
revoked_event why row = record {
  event_type = session_revoked_event;
  success = true;
  reason_code = some (revoked_for why);
  account_id = some row.session.account_id;
  external_identity_id = none;
  session_id = some row.session.id;
  membership_id = some row.membership.id;
  condominio_id = row.membership.condominio_id;
}

abbrev pub ended_family : ℕ → RevokeReason → SessionRow → SessionTables → SessionTables
ended_family now why row db = record db {
  sessions = update (in_family row.session.family_id) (revoked_as now why) db.sessions;
}

abbrev pub revoke_row :
    ℕ → RevokeReason → Option SessionRow → SessionTables → SessionRevocationResult × SessionTables
revoke_row now why none db =
    (unavailable, insert_audit (anonymous_event session_revocation_denied invalid_session) db)
revoke_row now why (some row) db =
    if not (any (in_family row.session.family_id) db.sessions)
    then (already_revoked, ended_family now why row db)
    else (revoked, insert_audit (revoked_event why row) (ended_family now why row db))

-- A reason that does not match its pattern is none.
unfoldable pub revoke :
    StoreConfig
    → ℕ
    → Option RevokeReason
    → Token
    → SessionTables
    → SessionRevocationResult × SessionTables
revoke config now reason token db =
    if not (valid_session_token token)
    then (unavailable, db)
    else revoke_row now (reason_or reason) (load_session (config.digest token) db) db

pub data RevokeAllResult : Type 0 where
  all_revoked needs_reauthentication not_available : RevokeAllResult

abbrev ten_minutes_ms : ℕ
ten_minutes_ms = 600_000

-- A session that was revoked may still end the others.
abbrev pub may_revoke_all : Option Denial → Bool
may_revoke_all none = true
may_revoke_all (some session_revoked) = true
may_revoke_all (some _) = false

abbrev all_event : SessionRow → AuditEvent
all_event row = record {
  event_type = session_revoke_all;
  success = true;
  reason_code = some (revoked_for all_sessions_revoked);
  account_id = some row.session.account_id;
  external_identity_id = none;
  session_id = none;
  membership_id = none;
  condominio_id = none;
}

abbrev pub ended_account : ℕ → ℕ → SessionTables → SessionTables
ended_account now account db = record db {
  accounts = update (λ a. a.id == account) (bumped now) db.accounts;
  sessions = update (live_of_account account) (revoked_as now all_sessions_revoked) db.sessions;
}

abbrev pub revoke_all_of : ℕ → SessionRow → SessionTables → RevokeAllResult × SessionTables
revoke_all_of now row db =
    if not (any (λ a. a.id == row.session.account_id) db.accounts)
    then (
      not_available,
      insert_audit (anonymous_event session_revoke_all_denied account_not_found) db,
    )
    else (all_revoked, insert_audit (all_event row) (ended_account now row.session.account_id db))

abbrev pub revoke_all_row :
    ℕ → ℕ → Option SessionRow → SessionTables → RevokeAllResult × SessionTables
revoke_all_row read_at now none db =
    (not_available, insert_audit (anonymous_event session_revoke_all_denied invalid_session) db)
revoke_all_row read_at now (some row) db =
    if not (may_revoke_all (session_denial_reason read_at row))
    then (
      not_available,
      insert_audit (denied_event session_revoke_all_denied invalid_session row) db,
    )
    else if ltb (row.session.authenticated_at + ten_minutes_ms) read_at
    then (
      needs_reauthentication,
      insert_audit (denied_event session_revoke_all_denied reauthentication_required row) db,
    )
    else revoke_all_of now row db

unfoldable pub revoke_all :
    StoreConfig → ℕ → ℕ → Token → SessionTables → RevokeAllResult × SessionTables
revoke_all config read_at now token db =
    if not (valid_session_token token)
    then (not_available, db)
    else revoke_all_row read_at now (load_session (config.digest token) db) db
