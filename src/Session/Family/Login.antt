-- ===== src/Session/Family/Login.antt =====
-- A login, a reauthentication and a recovery keep one live session in each family.
use egogero.Common.{
  ℕ, ◌≡◌, refl, ◌∙◌, inl, inr, Bool, true, false, not, ◌&&◌, Option, none, some, List, ◌∷◌, ◌==◌,
  if◌then◌else◌, ==_iff, Bool-cases, is_none, first, update, count, any, Memᴰ,
}
use egogero.Session.Schema.{
  HumanAccountRow, MembershipRow, BrowserSession, RevokeReason, reauthenticated,
  credential_recovery, login_replaced, Handoff, SessionTables, Token, StoreConfig, accepts,
  EventType, valid_session_token,
}
use egogero.Session.Load.{SessionRow, load_session, is_active_account}
use egogero.Session.Membership.{any_live_membership, lock_live_membership_scope}
use egogero.Session.Insert.{
  WriteClock, Draws, Requester, NewSession, session_from, insert_encrypted, insert_session,
}
use egogero.Session.Rotate.{unrevoked, revoked_as, check_creation}
use egogero.Session.Issue.Login.{
  delivered, of_family, replace_old, login_session, after_limit, live_of_account, recover,
  version_after, log_in,
}
use egogero.Session.Issue.Renew.{
  reauthenticated_session, renew_session, renew_limited, renew_with, same_session, reauthenticate,
}
use egogero.Session.Issue.{
  proceed, no_membership, with_membership, membership_for, with_account, usable_handoff,
  consumed_handoff, with_handoff, issue_from_handoff, old_row, valid_old, stale,
}
use egogero.Session.Family.{
  IsSound, has_id, of_line, update-IsSound, ids-update, families-update, revoked_as-IsTame,
  login-IsSound, replace-IsSound,
}
use egogero.Session.Family.Rotation.{Leaves, SoundTables, load_session-mem, check_creation-sessions}

-- A sound table that has neither the identifier nor the family that was drawn.
pub record Ready (draws : Draws) (rows : List BrowserSession) : Type 0 where
  pub good : IsSound rows
  pub fresh_id : count (has_id draws.session_id) rows ≡ 0
  pub fresh_family : count (of_line draws.family_id) rows ≡ 0

revoked-Ready :
    (draws : Draws) (p : BrowserSession → Bool) (now : ℕ) (why : RevokeReason)
    (rows : List BrowserSession)
    → Ready draws rows
    → Ready draws (update p (revoked_as now why) rows)
revoked-Ready draws p now why rows r =
    let tame = revoked_as-IsTame now why in
    record {
      good = update-IsSound p (revoked_as now why) tame rows r.good;
      fresh_id = ids-update p (revoked_as now why) tame draws.session_id rows ∙ r.fresh_id;
      fresh_family =
          families-update p (revoked_as now why) tame draws.family_id rows ∙ r.fresh_family;
    }

replace_old-Ready :
    (draws : Draws) (now : ℕ) (recovery : Bool) (old : Option SessionRow) (db : SessionTables)
    → Ready draws db.sessions
    → Ready draws (replace_old now recovery old db).sessions
replace_old-Ready draws now true old db r = r
replace_old-Ready draws now false none db r = r
replace_old-Ready draws now false (some row) db r =
    elim (Bool-cases (any (of_family row) db.sessions)) [
      | inl some_live ↦
          rw some_live (revoked-Ready draws (of_family row) now login_replaced db.sessions r)
      | inr none_live ↦
          rw none_live (revoked-Ready draws (of_family row) now login_replaced db.sessions r)
    ]

recover-Ready :
    (draws : Draws) (now : ℕ) (recovery : Bool) (h : Handoff) (db : SessionTables)
    → Ready draws db.sessions
    → Ready draws (recover now recovery h db).sessions
recover-Ready draws now false h db r = r
recover-Ready draws now true h db r =
    revoked-Ready draws (live_of_account h.account_id) now credential_recovery db.sessions r

module _ (config : StoreConfig) (at : WriteClock) (who : Requester) (draws : Draws)
    (h : Handoff) where
  inserted :
      (event : EventType) (m : MembershipRow) (csrf : ℕ) (ciphertext : Option ℕ) (new : NewSession)
      (db : SessionTables)
      → ((c : ℕ) → IsSound (session_from config at.created_at new c ∷ db.sessions))
      → Leaves SoundTables
          (delivered event draws h m csrf (insert_encrypted config at.created_at new ciphertext db))
  inserted event m csrf none new db s = tt
  inserted event m csrf (some c) new db s = s c

  after_limit-Ready :
      (version : ℕ) (m : MembershipRow) (old : Option SessionRow) (allowed : Bool)
      (db : SessionTables)
      → Ready draws db.sessions
      → Leaves SoundTables (after_limit config at who draws h version m old (allowed, db))
  unfolding insert_session
  after_limit-Ready version m old false db r = r.good
  after_limit-Ready version m old true db r =
      let db' = replace_old at.revoked_at h.recovery_intent old db in
      let r' = replace_old-Ready draws at.revoked_at h.recovery_intent old db r in
      inserted _ m draws.csrf _ (login_session config who draws h version m) db' (λ c.
        login-IsSound
          (session_from config at.created_at (login_session config who draws h version m) c)
          db'.sessions r'.fresh_id r'.fresh_family r'.good)

  log_in-Ready :
      (account : HumanAccountRow) (m : MembershipRow) (old : Option SessionRow) (db : SessionTables)
      → Ready draws db.sessions
      → Leaves SoundTables (log_in config at who draws h account m old db)
  log_in-Ready account m old db r =
      elim (Bool-cases (accepts config.mfa_policy m.role h.evidence)) [
        | inr out ↦ rw out r.good
        | inl sure ↦ rw sure (
            after_limit-Ready (version_after h.recovery_intent account) m old
              (check_creation at.limited_at account.id
                (recover at.revoked_at h.recovery_intent h db)).0
              (check_creation at.limited_at account.id
                (recover at.revoked_at h.recovery_intent h db)).1
              (rw
                (check_creation-sessions at.limited_at account.id
                  (recover at.revoked_at h.recovery_intent h db))
                (recover-Ready draws at.revoked_at h.recovery_intent h db r)))
      ]

  module _ (row : SessionRow) where
    renewed :
        (m : MembershipRow) (csrf : ℕ) (db : SessionTables)
        → Memᴰ row.session db.sessions
        → Ready draws db.sessions
        → Leaves SoundTables (renew_session config at who draws h row m csrf db)
    unfolding renew_session insert_session
    renewed m csrf db there r =
        elim (Bool-cases (count (unrevoked row.session.id) db.sessions == 1)) [
          | inr other ↦ rw other r.good
          | inl one ↦ rw one (
              inserted _ m csrf _ (reauthenticated_session config who draws h row m csrf)
                (record db {
                  sessions =
                      update (unrevoked row.session.id) (revoked_as at.revoked_at reauthenticated)
                        db.sessions;
                })
                (λ c.
                  replace-IsSound row.session.id row.session.family_id at.revoked_at reauthenticated
                    (session_from config at.created_at
                      (reauthenticated_session config who draws h row m csrf) c)
                    db.sessions there refl refl refl ((==_iff _ 1).0 one) r.fresh_id r.good))
        ]

    renew_limited-Ready :
        (m : MembershipRow) (csrf : ℕ) (allowed : Bool) (db : SessionTables)
        → Memᴰ row.session db.sessions
        → Ready draws db.sessions
        → Leaves SoundTables (renew_limited config at who draws h row m csrf (allowed, db))
    renew_limited-Ready m csrf false db there r = r.good
    renew_limited-Ready m csrf true db there r = renewed m csrf db there r

    renew_with-Ready :
        (m : Option MembershipRow) (csrf : Option ℕ) (db : SessionTables)
        → Memᴰ row.session db.sessions
        → Ready draws db.sessions
        → Leaves SoundTables (renew_with config at who draws h row m csrf db)
    renew_with-Ready none csrf db there r = r.good
    renew_with-Ready (some m) none db there r = r.good
    renew_with-Ready (some m) (some csrf) db there r =
        elim (Bool-cases (lock_live_membership_scope db m)) [
          | inr out ↦ rw out r.good
          | inl live ↦ elim (Bool-cases (accepts config.mfa_policy m.role h.evidence)) [
            | inr out ↦ rw (live, out) r.good
            | inl sure ↦
                rw (live, sure)
                  (let sessions = check_creation-sessions at.limited_at h.account_id db in
                    renew_limited-Ready m csrf (check_creation at.limited_at h.account_id db).0
                      (check_creation at.limited_at h.account_id db).1 (rw sessions there)
                      (rw sessions r))
          ]
        ]

  -- An old row that was loaded stands in the table.
  abbrev Loaded : Option SessionRow → List BrowserSession → Type 0
  Loaded none rows = Unit
  Loaded (some row) rows = Memᴰ row.session rows

  reauthenticate-Ready :
      (m : Option MembershipRow) (old : Option SessionRow) (db : SessionTables)
      → Loaded old db.sessions
      → Ready draws db.sessions
      → Leaves SoundTables (reauthenticate config at who draws h m old db)
  reauthenticate-Ready m none db there r = r.good
  reauthenticate-Ready m (some row) db there r = elim (Bool-cases (same_session h at.read_at row)) [
    | inr out ↦ rw out r.good
    | inl same ↦ rw same (renew_with-Ready row m (config.decrypt_csrf row.session) db there r)
  ]

  proceed-Ready :
      (account : HumanAccountRow) (again : Bool) (m : Option MembershipRow)
      (old : Option SessionRow) (db : SessionTables)
      → Loaded old db.sessions
      → Ready draws db.sessions
      → Leaves SoundTables (proceed config at who draws h account again m old db)
  proceed-Ready account true m old db there r = reauthenticate-Ready m old db there r
  proceed-Ready account false none old db there r = r.good
  proceed-Ready account false (some m) old db there r = log_in-Ready account m old db r

  why_none-Ready :
      (m : Option MembershipRow) (db : SessionTables)
      → IsSound db.sessions
      → Leaves SoundTables (no_membership config h m db)
  why_none-Ready none db good = good
  why_none-Ready (some m) db good = good

  with_membership-Ready :
      (account : HumanAccountRow) (again : Bool) (m : Option MembershipRow)
      (old : Option SessionRow) (db : SessionTables)
      → Loaded old db.sessions
      → Ready draws db.sessions
      → Leaves SoundTables (with_membership config at who draws h account again m old db)
  with_membership-Ready account false none old db there r =
      why_none-Ready
        (if is_none config.mfa_policy then none else any_live_membership h.account_id db) db r.good
  with_membership-Ready account true none old db there r =
      proceed-Ready account true none old db there r
  with_membership-Ready account again (some m) old db there r =
      elim (Bool-cases (not (lock_live_membership_scope db m) && not again)) [
        | inl out ↦ rw out r.good
        | inr live ↦ elim (Bool-cases (config.gate_membership m.id account.id).allowed) [
          | inr out ↦ rw (live, out) r.good
          | inl allowed ↦ rw (live, allowed) (proceed-Ready account again (some m) old db there r)
        ]
      ]

  with_account-Ready :
      (account : Option HumanAccountRow) (old : Option SessionRow) (db : SessionTables)
      → Loaded old db.sessions
      → Ready draws db.sessions
      → Leaves SoundTables (with_account config at who draws h account old db)
  with_account-Ready none old db there r = r.good
  with_account-Ready (some account) old db there r =
      elim (Bool-cases (is_active_account account.status)) [
        | inr out ↦ rw out r.good
        | inl ok ↦ elim (Bool-cases (stale account h)) [
          | inl out ↦ rw (ok, out) r.good
          | inr ok' ↦
              rw (ok, ok')
                (with_membership-Ready account h.reauthentication_intent
                  (membership_for config h account old db) old db there r)
        ]
      ]

  old_row-there :
      (row : Option SessionRow) (digest : ℕ) (db : SessionTables)
      → load_session digest db ≡ row
      → Loaded row db.sessions
  old_row-there none digest db e = tt
  old_row-there (some row) digest db e = (load_session-mem digest db row e).0

  old_row-mem :
      (old : Option Token) (db : SessionTables) → Loaded (old_row config old db) db.sessions
  old_row-mem none db = tt
  old_row-mem (some token) db =
      old_row-there (load_session (config.digest token) db) (config.digest token) db refl

with_handoff-Ready :
    (config : StoreConfig) (at : WriteClock) (who : Requester) (draws : Draws) (h : Option Handoff)
    (old : Option Token) (db : SessionTables)
    → Ready draws db.sessions
    → Leaves SoundTables (with_handoff config at who draws h old db)
with_handoff-Ready config at who draws none old db r = r.good
with_handoff-Ready config at who draws (some h) old db r =
    with_account-Ready config at who draws h (first (λ a. a.id == h.account_id) db.accounts)
      (old_row config old db) db (old_row-mem config at who draws h old db) r

-- A login, a reauthentication or a recovery under a new identifier and family leaves a sound table
-- sound, on each of its branches.
pub issue_from_handoff-Sound :
    (config : StoreConfig) (at : WriteClock) (consumed_at : ℕ) (who : Requester) (draws : Draws)
    (handoff : Token) (old : Option Token) (db : SessionTables)
    → Ready draws db.sessions
    → Leaves SoundTables (issue_from_handoff config at consumed_at who draws handoff old db)
unfolding issue_from_handoff
issue_from_handoff-Sound config at consumed_at who draws handoff old db r =
    elim (Bool-cases (valid_session_token handoff && valid_old old)) [
      | inr bad ↦ rw bad r.good
      | inl ok ↦ rw ok (
          with_handoff-Ready config at who draws
            (first (usable_handoff (config.digest handoff) consumed_at) db.handoffs) old
            (record db {
              handoffs =
                  update (usable_handoff (config.digest handoff) consumed_at)
                    (consumed_handoff consumed_at) db.handoffs;
            })
            (record { good = r.good; fresh_id = r.fresh_id; fresh_family = r.fresh_family }))
    ]
