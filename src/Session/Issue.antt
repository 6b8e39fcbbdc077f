-- ===== src/Session/Issue.antt =====
-- A session for a validated login, a reauthentication or a recovery (src/sessions.ts:
-- issueFromHandoff).
pub mod Login
pub mod Renew
use egogero.Common.{
  ℕ, zero, suc, ◌+◌, ◌-◌, ◌*◌, ◌/◌, ◌%◌, ◌^◌, ◌≤◌, ◌<◌, min, max, ◌≡◌, refl, sym, ap, subst, ◌∙◌,
  ◌≢◌, ◌↔◌, ◌⊎◌, inl, inr, Bool, true, false, not, ◌&&◌, ◌||◌, Option, none, some, List, [], ◌∷◌,
  ◌++◌, map, arith, ltb, leb, ◌==◌, if◌then◌else◌, ==_iff, ==_refl, ==_sym, Bool-cases,
  Option-cases, is, is_none, after, length, length-append, select, first, update, count, any, all,
  head?, count-append, count-le-length, contains, All, Memᴰ, first-mem, first_of-count, any-first,
  count-any, count-mem,
}
use egogero.Invitation.Schema.{active_account}
use egogero.Rollout.{HumanAuthGateDecision}
use egogero.Session.Schema.{
  Evidence, HumanAccountRow, MembershipRow, RevokeReason, reauthenticated, credential_recovery,
  login_replaced, BrowserSession, Handoff, Denial, AuditReason, denied_for, revoked_for,
  invalid_session, invalid_handoff, stale_handoff, rollout_disabled, account_inactive,
  insufficient_authentication_assurance, no_active_membership, membership_scope_inactive,
  session_creation_rate_limited, session_integrity_failed, EventType, session_issue_denied,
  session_issued, mfa_policy_denied, session_reauthentication_denied, session_reauthenticated,
  session_family_replaced, credential_recovery_observed, AuditEvent, SessionTables, Token,
  StoreConfig, accepts, Ran, crashed, done, valid_session_token,
}
use egogero.Session.Load.{
  SessionRow, load_session, session_denial_reason, insert_audit, denied_event, anonymous_event,
  is_active_account,
}
use egogero.Session.Membership.{
  choose_membership, any_live_membership, load_target_membership, lock_live_membership_scope,
}
use egogero.Session.Insert.{WriteClock, Draws, Requester, NewSession, insert_session}
use egogero.Session.Rotate.{
  IssuedBrowserSession, unrevoked, revoked_as, check_creation, or_older, agent_or, issued,
}
use egogero.Session.Issue.Login.{Issued, refuse, log_in}
use egogero.Session.Issue.Renew.{reauthenticate}

-- With a membership that the rollout lets in, or none for a reauthentication.
abbrev pub proceed :
    StoreConfig
    → WriteClock
    → Requester
    → Draws
    → Handoff
    → HumanAccountRow
    → (again : Bool) → Option MembershipRow
    → Option SessionRow
    → SessionTables
    → Issued
proceed config at who draws h account true m old db = reauthenticate config at who draws h m old db
proceed config at who draws h account false none old db = done none db
proceed config at who draws h account false (some m) old db =
    log_in config at who draws h account m old db

abbrev pub no_membership : StoreConfig → Handoff → Option MembershipRow → SessionTables → Issued
no_membership config h none db = refuse session_issue_denied no_active_membership h none db
no_membership config h (some m) db =
    refuse mfa_policy_denied insufficient_authentication_assurance h (some m) db

-- The live membership is looked for only where there is a policy.
abbrev pub why_none : StoreConfig → Handoff → SessionTables → Issued
why_none config h db =
    no_membership config h
      (if is_none config.mfa_policy then none else any_live_membership h.account_id db) db

-- `again` is the handoff's mark of a reauthentication.
abbrev pub with_membership :
    StoreConfig
    → WriteClock
    → Requester
    → Draws
    → Handoff
    → HumanAccountRow
    → (again : Bool) → Option MembershipRow
    → Option SessionRow
    → SessionTables
    → Issued
with_membership config at who draws h account false none old db = why_none config h db
with_membership config at who draws h account true none old db =
    proceed config at who draws h account true none old db
with_membership config at who draws h account again (some m) old db =
    if not (lock_live_membership_scope db m) && not again
    then refuse session_issue_denied membership_scope_inactive h (some m) db
    else if not (config.gate_membership m.id account.id).allowed
    then refuse session_issue_denied rollout_disabled h (some m) db
    else proceed config at who draws h account again (some m) old db

abbrev reauthentication_membership :
    HumanAccountRow → Option SessionRow → SessionTables → Option MembershipRow
reauthentication_membership account none db = none
reauthentication_membership account (some old) db =
    if old.session.account_id == account.id
    then load_target_membership account.id old.membership.id db
    else none

abbrev pub membership_for :
    StoreConfig
    → Handoff
    → HumanAccountRow
    → Option SessionRow
    → SessionTables
    → Option MembershipRow
membership_for config h account old db =
    if h.reauthentication_intent
    then reauthentication_membership account old db
    else choose_membership config account.id h.evidence db

abbrev pub stale : HumanAccountRow → Handoff → Bool
stale account h =
    ltb 0 account.session_version
    && (leb h.created_at account.updated_at || leb h.authenticated_at account.updated_at)

abbrev pub with_account :
    StoreConfig
    → WriteClock
    → Requester
    → Draws
    → Handoff
    → Option HumanAccountRow
    → Option SessionRow
    → SessionTables
    → Issued
with_account config at who draws h none old db =
    refuse session_issue_denied (denied_for account_inactive) h none db
with_account config at who draws h (some account) old db =
    if not (is_active_account account.status)
    then refuse session_issue_denied (denied_for account_inactive) h none db
    else if stale account h
    then refuse session_issue_denied stale_handoff h none db
    else with_membership config at who draws h account h.reauthentication_intent
        (membership_for config h account old db) old db

abbrev pub usable_handoff : ℕ → ℕ → Handoff → Bool
usable_handoff digest now h =
    h.handle_digest == digest && is_none h.consumed_at && ltb now h.expires_at

abbrev pub consumed_handoff : ℕ → Handoff → Handoff
consumed_handoff now h = record h { consumed_at = some now }

abbrev pub old_row : StoreConfig → Option Token → SessionTables → Option SessionRow
old_row config none db = none
old_row config (some token) db = load_session (config.digest token) db

-- `consumed_at` is the time of the UPDATE that takes the handoff; its handle is unique.
abbrev pub with_handoff :
    StoreConfig
    → WriteClock
    → Requester
    → Draws
    → Option Handoff
    → Option Token
    → SessionTables
    → Issued
with_handoff config at who draws none old db =
    done none (insert_audit (anonymous_event session_issue_denied invalid_handoff) db)
with_handoff config at who draws (some h) old db =
    with_account config at who draws h (first (λ a. a.id == h.account_id) db.accounts)
      (old_row config old db) db

abbrev pub valid_old : Option Token → Bool
valid_old none = true
valid_old (some token) = valid_session_token token

unfoldable pub issue_from_handoff :
    StoreConfig → WriteClock → ℕ → Requester → Draws → Token → Option Token → SessionTables → Issued
issue_from_handoff config at consumed_at who draws handoff old db =
    let digest = config.digest handoff in
    if not (valid_session_token handoff && valid_old old)
    then done none (insert_audit (anonymous_event session_issue_denied invalid_handoff) db)
    else with_handoff config at who draws (first (usable_handoff digest consumed_at) db.handoffs)
        old
        (record db {
          handoffs =
              update (usable_handoff digest consumed_at) (consumed_handoff consumed_at) db.handoffs;
        })
