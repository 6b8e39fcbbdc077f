-- ===== src/Session/Family/Rotation.antt =====
-- A rotation keeps one live session in the family.
use egogero.Common.{
  ℕ, ◌≡◌, refl, ap, inl, inr, Bool, true, false, ◌&&◌, Option, none, some, List, ◌∷◌, ◌==◌, ==_iff,
  Bool-cases, Option-cases, is_none, first, update, count, Memᴰ, first-mem,
}
use egogero.Session.Schema.{
  MembershipRow, BrowserSession, rotated, SessionTables, Token, StoreConfig, accepts, Ran, crashed,
  done, Denial, valid_session_token,
}
use egogero.Session.Load.{SessionRow, load_session, row_of, session_denial_reason}
use egogero.Session.Membership.{lock_live_membership_scope}
use egogero.Session.Insert.{
  WriteClock, Draws, Requester, NewSession, session_from, insert_encrypted, insert_session,
}
use egogero.Session.Rotate.{
  unrevoked, revoked_as, check_creation, rotation_of, successor, replace_session, with_csrf,
  with_limit, to_membership, Target, target_id, target_membership, unless_denied, rotate_to,
  rotate_row, rotate,
}
use egogero.Session.Family.{IsSound, has_id, replace-IsSound}

-- The tables that a transaction leaves are sound; a crash leaves the old ones.
abbrev pub Leaves {ℓ} : {A : Type 0} → (SessionTables → Type ℓ) → Ran A → Type ℓ
Leaves P crashed = Unit
Leaves P (done answer db) = P db

abbrev pub SoundTables : SessionTables → Type 0
SoundTables db = IsSound db.sessions

row_of-mem :
    (db : SessionTables) (s : Option BrowserSession) (row : SessionRow)
    → row_of db s ≡ some row
    → s ≡ some row.session
row_of-mem db none row h = absurd (cc)
row_of-mem db (some s) row h = elim (Option-cases (first (λ a. a.id == s.account_id) db.accounts)) [
  | inl none_there ↦ absurd (cc (rw none_there at h))
  | inr (a, ea) ↦
      elim (Option-cases (
        first (λ m. m.id == s.active_membership_id && m.account_id == s.account_id)
          db.memberships)) [
            | inl none_there ↦ absurd (cc (rw (ea, none_there) at h))
            | inr (m, em) ↦ ap some (
                ap (λ (o : Option SessionRow). elim o [ none ↦ s | some r ↦ r.session ])
                  (rw (ea, em) at h))
          ]
]

-- The session of a row that is loaded is the first with the token.
pub load_session-first :
    (digest : ℕ) (db : SessionTables) (row : SessionRow)
    → load_session digest db ≡ some row
    → first (λ s. s.token_digest == digest) db.sessions ≡ some row.session
unfolding load_session
load_session-first digest db row h = row_of-mem db _ row h

-- The session of a row that is loaded stands in the table.
pub load_session-mem :
    (digest : ℕ) (db : SessionTables) (row : SessionRow)
    → load_session digest db ≡ some row
    → Memᴰ row.session db.sessions × (row.session.token_digest ≡ digest)
unfolding load_session
load_session-mem digest db row h =
    let (m, e) = first-mem (λ s. s.token_digest == digest) db.sessions (row_of-mem db _ row h) in
    (m, (==_iff _ _).0 e)

pub check_creation-sessions :
    (now account : ℕ) (db : SessionTables)
    → (check_creation now account db).1.sessions ≡ db.sessions
unfolding check_creation
check_creation-sessions now account db = refl

module _ (config : StoreConfig) (at : WriteClock) (who : Requester) (draws : Draws)
    (row : SessionRow) where
  inserted :
      (m : MembershipRow) (csrf : ℕ) (ciphertext : Option ℕ) (new : NewSession) (db : SessionTables)
      → ((c : ℕ) → IsSound (session_from config at.created_at new c ∷ db.sessions))
      → Leaves SoundTables
          (rotation_of draws row m csrf (insert_encrypted config at.created_at new ciphertext db))
  inserted m csrf none new db h = tt
  inserted m csrf (some c) new db h = h c

  -- What a rotation finds: the session in a sound table, and a new identifier.
  record Ready (rows : List BrowserSession) : Type 0 where
    there : Memᴰ row.session rows
    good : IsSound rows
    fresh_id : count (has_id draws.session_id) rows ≡ 0

  replaced :
      (m : MembershipRow) (csrf : ℕ) (db : SessionTables)
      → Ready db.sessions
      → Leaves SoundTables (replace_session config at who draws row m csrf db)
  unfolding replace_session insert_session
  replaced m csrf db r = elim (Bool-cases (count (unrevoked row.session.id) db.sessions == 1)) [
    | inr other ↦ rw other r.good
    | inl one ↦ rw one (
        inserted m csrf _ (successor config who draws row m csrf)
          (record db {
            sessions =
                update (unrevoked row.session.id) (revoked_as at.revoked_at rotated) db.sessions;
          })
          (λ c.
            replace-IsSound row.session.id row.session.family_id at.revoked_at rotated
              (session_from config at.created_at (successor config who draws row m csrf) c)
              db.sessions r.there refl refl refl ((==_iff _ 1).0 one) r.fresh_id r.good))
  ]

  with_csrf-Ready :
      (m : MembershipRow) (csrf : Option ℕ) (db : SessionTables)
      → Ready db.sessions
      → Leaves SoundTables (with_csrf config at who draws row m csrf db)
  with_csrf-Ready m none db r = r.good
  with_csrf-Ready m (some csrf) db r = replaced m csrf db r

  with_limit-Ready :
      (m : MembershipRow) (allowed : Bool) (db : SessionTables)
      → Ready db.sessions
      → Leaves SoundTables (with_limit config at who draws row m (allowed, db))
  with_limit-Ready m false db r = r.good
  with_limit-Ready m true db r = with_csrf-Ready m (config.decrypt_csrf row.session) db r

  to_membership-Ready :
      (m : Option MembershipRow) (db : SessionTables)
      → Ready db.sessions
      → Leaves SoundTables (to_membership config at who draws row m db)
  to_membership-Ready none db r = r.good
  to_membership-Ready (some m) db r =
      elim (Bool-cases (config.gate_membership m.id row.session.account_id).allowed) [
        | inr out ↦ rw out r.good
        | inl allowed ↦ elim (Bool-cases (lock_live_membership_scope db m)) [
          | inr out ↦ rw (allowed, out) r.good
          | inl live ↦ elim (Bool-cases (accepts config.mfa_policy m.role row.session.evidence)) [
            | inr out ↦ rw (allowed, live, out) r.good
            | inl sure ↦
                rw (allowed, live, sure)
                  (with_limit-Ready m (check_creation at.limited_at row.session.account_id db).0
                    (check_creation at.limited_at row.session.account_id db).1
                    (rw (check_creation-sessions at.limited_at row.session.account_id db) r))
          ]
        ]
      ]

  unless_denied-Ready :
      (id : Option ℕ) (why : Option Denial) (db : SessionTables)
      → Ready db.sessions
      → Leaves SoundTables (unless_denied config at who draws row id why db)
  unless_denied-Ready id (some why) db r = r.good
  unless_denied-Ready id none db r = to_membership-Ready (target_membership row id db) db r

  rotate_to-Ready :
      (id : Option ℕ) (db : SessionTables)
      → Ready db.sessions
      → Leaves SoundTables (rotate_to config at who draws row id db)
  rotate_to-Ready none db r = r.good
  rotate_to-Ready (some id) db r = elim (Bool-cases (is_none row.session.revoked_at)) [
    | inr out ↦ rw out r.good
    | inl live ↦ rw live (unless_denied-Ready (some id) (session_denial_reason at.read_at row) db r)
  ]

rotate_row-Sound :
    (config : StoreConfig) (at : WriteClock) (who : Requester) (draws : Draws) (digest : ℕ)
    (row : Option SessionRow) (target : Target) (db : SessionTables)
    → load_session digest db ≡ row
    → IsSound db.sessions
    → count (has_id draws.session_id) db.sessions ≡ 0
    → Leaves SoundTables (rotate_row config at who draws row target db)
rotate_row-Sound config at who draws digest none target db loaded good fresh_id = good
rotate_row-Sound config at who draws digest (some row) target db loaded good fresh_id =
    rotate_to-Ready config at who draws row (target_id row target) db (record {
      there = (load_session-mem digest db row loaded).0;
      good = good;
      fresh_id = fresh_id;
    })

-- A rotation under a new identifier leaves a sound table sound, on each of its branches.
pub rotate-Sound :
    (config : StoreConfig) (at : WriteClock) (who : Requester) (draws : Draws) (token : Token)
    (target : Target) (db : SessionTables)
    → IsSound db.sessions
    → count (has_id draws.session_id) db.sessions ≡ 0
    → Leaves SoundTables (rotate config at who draws token target db)
unfolding rotate
rotate-Sound config at who draws token target db good fresh_id =
    elim (Bool-cases (valid_session_token token)) [
      | inr bad ↦ rw bad good
      | inl ok ↦ rw ok (
          rotate_row-Sound config at who draws (config.digest token)
            (load_session (config.digest token) db) target db refl good fresh_id)
    ]
