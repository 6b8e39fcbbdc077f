-- ===== src/Session/Rotate/Successor.antt =====
-- What a rotation needs, and what it leaves.
use egogero.Common.{
  ℕ, ◌≤◌, ◌≡◌, refl, ◌≢◌, inl, inr, Bool, true, false, Option, none, some, List, arith, ◌==◌,
  ==_iff, Bool-cases, is_none, update, count, Memᴰ, count-mem,
}
use egogero.Auth.{oidc_session}
use egogero.Session.Schema.{
  MembershipRow, BrowserSession, rotated, Denial, SessionTables, Token, StoreConfig, accepts, Ran,
  crashed, done, valid_session_token,
}
use egogero.Session.Load.{SessionRow, load_session, session_denial_reason, identity_for}
use egogero.Session.Membership.{load_target_membership, lock_live_membership_scope}
use egogero.Session.Lookup.Live.{IsLive, session_denial_reason_iff}
use egogero.Session.Insert.{
  WriteClock, Draws, Requester, session_from, insert_encrypted, insert_session,
}
use egogero.Session.Rotate.{
  IssuedBrowserSession, SessionRotationResult, rotated_to, stale, denied, reauthentication_required,
  unrevoked, revoked_as, check_creation, rotation_of, successor, replace_session, with_limit,
  to_membership, Target, target_id, target_membership, unless_denied, rotate_to, rotate_row, rotate,
}
use egogero.Session.Family.{has_id}
use egogero.Session.Family.Rotation.{load_session-mem}
use egogero.Session.Revoke.Ending.{none_live}

-- A statement on the new session that a rotation answers with, where it answers with one.
abbrev pub OnRotated :
    (IssuedBrowserSession → SessionTables → Type 0) → Ran SessionRotationResult → Type 0
OnRotated P (done (rotated_to issued) db) = P issued db
OnRotated P _ = Unit

-- The new session keeps the family, the absolute expiry, the time of the login and the account's
-- version; the old one is revoked.
pub record IsSuccessor (draws : Draws) (row : SessionRow) (m : MembershipRow)
    (issued : IssuedBrowserSession) (db : SessionTables) : Type 0 where
  pub new : BrowserSession
  pub there : Memᴰ new db.sessions
  pub id : new.id ≡ draws.session_id
  pub family : new.family_id ≡ row.session.family_id
  pub version : new.account_session_version ≡ row.session.account_session_version
  pub membership : new.active_membership_id ≡ m.id
  pub expiry : new.absolute_expires_at ≡ row.session.absolute_expires_at
  pub idle : new.idle_expires_at ≤ row.session.absolute_expires_at
  pub logged_in : new.authenticated_at ≤ row.session.authenticated_at
  pub answered : issued.absolute_expires_at ≡ row.session.absolute_expires_at
  pub identity : issued.identity ≡ oidc_session (identity_for m) m.account_id draws.session_id
  pub ended : count (unrevoked row.session.id) db.sessions ≡ 0

other_id :
    (id : ℕ) (rows : List BrowserSession) {s : BrowserSession}
    → Memᴰ s rows
    → count (has_id id) rows ≡ 0
    → s.id ≢ id
other_id id rows {s} m fresh_id same =
    let there = count-mem (has_id id) m ((==_iff s.id id).1 same) in omega arith

module _ (config : StoreConfig) (at : WriteClock) (who : Requester) (draws : Draws)
    (row : SessionRow) where
  abbrev Succeeds : MembershipRow → Ran SessionRotationResult → Type 0
  Succeeds m = OnRotated (IsSuccessor draws row m)

  inserted :
      (m : MembershipRow) (csrf : ℕ) (ciphertext : Option ℕ) (db : SessionTables)
      → count (unrevoked row.session.id) db.sessions ≡ 0
      → row.session.id ≢ draws.session_id
      → Succeeds m (
          rotation_of draws row m csrf (
            insert_encrypted config at.created_at
              (successor config who draws row m csrf)
              ciphertext
              db))
  inserted m csrf none db over other = tt
  inserted m csrf (some c) db over other = record {
    new = session_from config at.created_at (successor config who draws row m csrf) c;
    there = Memᴰ.head refl;
    id = refl;
    family = refl;
    version = refl;
    membership = refl;
    expiry = refl;
    idle = omega arith;
    logged_in = omega arith;
    answered = refl;
    identity = refl;
    ended = ground (arith, over, other);
  }

  replaced :
      (m : MembershipRow) (csrf : ℕ) (db : SessionTables)
      → row.session.id ≢ draws.session_id
      → Succeeds m (replace_session config at who draws row m csrf db)
  unfolding replace_session insert_session
  replaced m csrf db other = elim (Bool-cases (count (unrevoked row.session.id) db.sessions == 1)) [
    | inr not_one ↦ rw not_one tt
    | inl one ↦ rw one (
        inserted m csrf _
          (record db {
            sessions =
                update (unrevoked row.session.id) (revoked_as at.revoked_at rotated) db.sessions;
          })
          (none_live (unrevoked row.session.id) at.revoked_at rotated db.sessions
            (λ s. ground arith))
          other)
  ]

  with_limit-Succeeds :
      (m : MembershipRow) (csrf : Option ℕ) (allowed : Bool) (db : SessionTables)
      → row.session.id ≢ draws.session_id
      → config.decrypt_csrf row.session ≡ csrf
      → Succeeds m (with_limit config at who draws row m (allowed, db))
  with_limit-Succeeds m csrf false db other e = tt
  with_limit-Succeeds m none true db other e = rw e tt
  with_limit-Succeeds m (some csrf) true db other e = rw e (replaced m csrf db other)

-- A session in force, a membership of its account that is live, that the rollout lets in and whose
-- role accepts the session's evidence, and the session that takes the place of the old one.
pub record IsRotation (config : StoreConfig) (now : ℕ) (draws : Draws) (token : Token)
    (target : Target) (db : SessionTables) (issued : IssuedBrowserSession) (db' : SessionTables)
    : Type 0 where
  pub row : SessionRow
  pub well_formed : valid_session_token token ≡ true
  pub loaded : load_session (config.digest token) db ≡ some row
  pub live : IsLive now row
  pub target_membership_id : ℕ
  pub wanted : target_id row target ≡ some target_membership_id
  pub m : MembershipRow
  pub found : load_target_membership row.session.account_id target_membership_id db ≡ some m
  pub let_in : (config.gate_membership m.id row.session.account_id).allowed ≡ true
  pub scope : lock_live_membership_scope db m ≡ true
  pub sure : accepts config.mfa_policy m.role row.session.evidence ≡ true
  pub succeeded : IsSuccessor draws row m issued db'

OnRotated-map :
    (P Q : IssuedBrowserSession → SessionTables → Type 0) (ran : Ran SessionRotationResult)
    → ((issued : IssuedBrowserSession) (db : SessionTables) → P issued db → Q issued db)
    → OnRotated P ran
    → OnRotated Q ran
OnRotated-map P Q crashed f h = tt
OnRotated-map P Q (done (rotated_to issued) db) f h = f issued db h
OnRotated-map P Q (done stale db) f h = tt
OnRotated-map P Q (done denied db) f h = tt
OnRotated-map P Q (done reauthentication_required db) f h = tt

module _ (config : StoreConfig) (at : WriteClock) (who : Requester) (draws : Draws) (token : Token)
    (target : Target) (db : SessionTables) (well_formed : valid_session_token token ≡ true) where
  abbrev Rotates : Ran SessionRotationResult → Type 0
  Rotates = OnRotated (IsRotation config at.read_at draws token target db)

  module _ (row : SessionRow) (loaded : load_session (config.digest token) db ≡ some row)
      (other : row.session.id ≢ draws.session_id) where
    to_membership-Rotates :
        (id : ℕ) (m : Option MembershipRow)
        → target_id row target ≡ some id
        → target_membership row (some id) db ≡ m
        → IsLive at.read_at row
        → Rotates (to_membership config at who draws row m db)
    to_membership-Rotates id none wanted found live = tt
    to_membership-Rotates id (some m) wanted found live =
        elim (Bool-cases (config.gate_membership m.id row.session.account_id).allowed) [
          | inr out ↦ rw out tt
          | inl let_in ↦ elim (Bool-cases (lock_live_membership_scope db m)) [
            | inr out ↦ rw (let_in, out) tt
            | inl scope ↦
                elim (Bool-cases (accepts config.mfa_policy m.role row.session.evidence)) [
                  | inr out ↦ rw (let_in, scope, out) tt
                  | inl sure ↦
                      rw (let_in, scope, sure)
                        (OnRotated-map (IsSuccessor draws row m)
                          (IsRotation config at.read_at draws token target db)
                          (with_limit config at who draws row m
                            (check_creation at.limited_at row.session.account_id db))
                          (λ issued db' s. record {
                            row = row;
                            well_formed = well_formed;
                            loaded = loaded;
                            live = live;
                            target_membership_id = id;
                            wanted = wanted;
                            m = m;
                            found = found;
                            let_in = let_in;
                            scope = scope;
                            sure = sure;
                            succeeded = s;
                          })
                          (with_limit-Succeeds config at who draws row m
                            (config.decrypt_csrf row.session)
                            (check_creation at.limited_at row.session.account_id db).0
                            (check_creation at.limited_at row.session.account_id db).1 other refl))
                ]
          ]
        ]

    unless_denied-Rotates :
        (id : ℕ) (why : Option Denial)
        → target_id row target ≡ some id
        → session_denial_reason at.read_at row ≡ why
        → Rotates (unless_denied config at who draws row (some id) why db)
    unless_denied-Rotates id (some why) wanted e = tt
    unless_denied-Rotates id none wanted e =
        to_membership-Rotates id (target_membership row (some id) db) wanted refl
          ((session_denial_reason_iff at.read_at row).0 e)

    rotate_to-Rotates :
        (id : Option ℕ)
        → target_id row target ≡ id
        → Rotates (rotate_to config at who draws row id db)
    rotate_to-Rotates none wanted = tt
    rotate_to-Rotates (some id) wanted = elim (Bool-cases (is_none row.session.revoked_at)) [
      | inr out ↦ rw out tt
      | inl live ↦
          rw live (unless_denied-Rotates id (session_denial_reason at.read_at row) wanted refl)
    ]

  rotate_row-Rotates :
      (row : Option SessionRow)
      → load_session (config.digest token) db ≡ row
      → count (has_id draws.session_id) db.sessions ≡ 0
      → Rotates (rotate_row config at who draws row target db)
  rotate_row-Rotates none loaded fresh_id = tt
  rotate_row-Rotates (some row) loaded fresh_id =
      rotate_to-Rotates row loaded
        (other_id draws.session_id db.sessions
          (load_session-mem (config.digest token) db row loaded).0 fresh_id)
        (target_id row target) refl

on_rotated :
    (P : IssuedBrowserSession → SessionTables → Type 0) (ran : Ran SessionRotationResult)
    (issued : IssuedBrowserSession) (db : SessionTables)
    → ran ≡ done (rotated_to issued) db
    → OnRotated P ran
    → P issued db
on_rotated P ran issued db e h = rw e at h

-- A rotation that answers with a new session had a live one, a live membership of its account that
-- the rollout lets in and whose role accepts the evidence; the new session is in the table, in the
-- same family, with the same account version and the same absolute expiry, never idle beyond it, and
-- the old one is revoked. The new identifier is not in the table before.
pub rotate-IsRotation :
    (config : StoreConfig) (at : WriteClock) (who : Requester) (draws : Draws) (token : Token)
    (target : Target) (db db' : SessionTables) (issued : IssuedBrowserSession)
    → count (has_id draws.session_id) db.sessions ≡ 0
    → rotate config at who draws token target db ≡ done (rotated_to issued) db'
    → IsRotation config at.read_at draws token target db issued db'
unfolding rotate
rotate-IsRotation config at who draws token target db db' issued fresh_id e =
    elim (Bool-cases (valid_session_token token)) [
      | inr bad ↦ absurd (cc (rw bad at e))
      | inl ok ↦
          on_rotated (IsRotation config at.read_at draws token target db)
            (rotate_row config at who draws (load_session (config.digest token) db) target db)
            issued db' (rw ok at e)
            (rotate_row-Rotates config at who draws token target db ok
              (load_session (config.digest token) db) refl fresh_id)
    ]
