-- ===== src/Session/Revoke/Ending.antt =====
-- What a logout and a logout everywhere leave: nothing of the family, or of the account, that
-- authenticates.
use egogero.Common.{
  ℕ, ◌+◌, ◌≡◌, refl, ap, ◌∙◌, ◌≢◌, inl, inr, Bool, true, false, ◌&&◌, Option, none, some, List, [],
  ◌∷◌, arith, ltb, ◌==◌, ==_iff, Bool-cases, first, update, count, any, Memᴰ, first-mem, count-mem,
}
use egogero.Auth.{ScopedIdentity, AuthenticatedIdentity, oidc_session, development, device}
use egogero.Session.Schema.{
  MembershipRow, HumanAccountRow, BrowserSession, RevokeReason, all_sessions_revoked, SessionTables,
  Token, StoreConfig, valid_session_token,
}
use egogero.Session.Load.{SessionRow, load_session, row_of, joined, session_denial_reason}
use egogero.Session.Lookup.{Clock, authenticate}
use egogero.Session.Lookup.Live.{Admits, authenticate_iff}
use egogero.Session.Rotate.{revoked_as}
use egogero.Session.Issue.Login.{live_of_account}
use egogero.Session.Revoke.{
  in_family, revoke_row, revoke, revoke_all_of, revoke_all_row, revoke_all, all_revoked,
  may_revoke_all, reason_or,
}
use egogero.Session.Family.Rotation.{load_session-mem}

abbrev account_of : AuthenticatedIdentity → ℕ
account_of (oidc_session scope account session) = account
account_of (development scope) = 0
account_of (device id condominiums) = 0

-- What a revocation leaves of the rows that it takes.
pub none_live :
    (p : BrowserSession → Bool) (now : ℕ) (why : RevokeReason) (rows : List BrowserSession)
    → ((s : BrowserSession) → p (revoked_as now why s) ≡ false)
    → count p (update p (revoked_as now why) rows) ≡ 0
none_live p now why [] over = refl
none_live p now why (s ∷ rows) over = ground (arith, none_live p now why rows over, over s)

member-not :
    (p : BrowserSession → Bool) (rows : List BrowserSession) {s : BrowserSession}
    → Memᴰ s rows
    → count p rows ≡ 0
    → p s ≡ false
member-not p rows {s} m zero_left = ground (arith, count-mem p m)

account_of_joined :
    (db : SessionTables) (s : BrowserSession) (a : Option HumanAccountRow)
    (m : Option MembershipRow) (row : SessionRow)
    → joined db s a m ≡ some row
    → m ≡ some row.membership
account_of_joined db s none m row e = absurd (cc)
account_of_joined db s (some a) none row e = absurd (cc)
account_of_joined db s (some a) (some m) row e =
    ap {B = Option MembershipRow} (λ o. elim o [ none ↦ some m | some r ↦ some r.membership ]) e

session_of_joined :
    (db : SessionTables) (s : BrowserSession) (a : Option HumanAccountRow)
    (m : Option MembershipRow) (row : SessionRow)
    → joined db s a m ≡ some row
    → s ≡ row.session
session_of_joined db s none m row e = absurd (cc)
session_of_joined db s (some a) none row e = absurd (cc)
session_of_joined db s (some a) (some m) row e =
    ap {B = BrowserSession} (λ o. elim o [ none ↦ s | some r ↦ r.session ]) e

account_of_row :
    (db : SessionTables) (s : Option BrowserSession) (row : SessionRow)
    → row_of db s ≡ some row
    → row.membership.account_id ≡ row.session.account_id
account_of_row db none row e = absurd (cc)
account_of_row db (some s) row e =
    let found = account_of_joined db s _ _ row e in
    let (_, chosen) =
      first-mem (λ m. m.id == s.active_membership_id && m.account_id == s.account_id) db.memberships
        found in
    let own = (==_iff row.membership.account_id s.account_id).0 (ground (arith, chosen)) in
    own ∙ ap (λ (x : BrowserSession). x.account_id) (session_of_joined db s _ _ row e)

-- The membership under which a session acts is of the session's account.
pub load_session-account :
    (digest : ℕ) (db : SessionTables) (row : SessionRow)
    → load_session digest db ≡ some row
    → row.membership.account_id ≡ row.session.account_id
unfolding load_session
load_session-account digest db row e =
    account_of_row db (first (λ s. s.token_digest == digest) db.sessions) row e

-- No live session stands among those of which none is left.
module _ (p : BrowserSession → Bool) (config : StoreConfig) (now : ℕ) (token : Token)
    (db : SessionTables) (identity : AuthenticatedIdentity) where
  admitted-not :
      count p db.sessions ≡ 0
      → (admitted : Admits config now token db identity) → p admitted.row.session ≡ false
  admitted-not over admitted =
      member-not p db.sessions
        (load_session-mem (config.digest token) db admitted.row admitted.loaded).0 over

-- The answer of a logout with a session that is found leaves its family without a live session.
ended_family-none :
    (now : ℕ) (why : RevokeReason) (row : SessionRow) (db : SessionTables)
    → count (in_family row.session.family_id) (revoke_row now why (some row) db).1.sessions ≡ 0
ended_family-none now why row db =
    let over =
      none_live (in_family row.session.family_id) now why db.sessions (λ s. ground arith) in
    elim (Bool-cases (any (in_family row.session.family_id) db.sessions)) [
      | inl some_live ↦ rw some_live over
      | inr none_there ↦ rw none_there over
    ]

-- After a logout with the token of a session, nothing that is answered with an identity, by any
-- token and at any time, is of that session's family.
pub revoke-ends :
    (config : StoreConfig) (now : ℕ) (reason : Option RevokeReason) (token : Token)
    (db : SessionTables) (row : SessionRow) (later : ℕ) (other : Token)
    (identity : AuthenticatedIdentity)
    → valid_session_token token ≡ true
    → load_session (config.digest token) db ≡ some row
    → (admitted : Admits config later other (revoke config now reason token db).1 identity)
    → admitted.row.session.family_id ≢ row.session.family_id
unfolding revoke
revoke-ends config now reason token db row later other identity well_formed loaded admitted same =
    let gone =
      admitted-not (in_family row.session.family_id) config later other
        (revoke config now reason token db).1 identity
        (rw (well_formed, loaded) (ended_family-none now (reason_or reason) row db)) admitted in
    ground (
      arith,
      gone,
      same,
      admitted.live.unrevoked,
      ==_iff admitted.row.session.family_id row.session.family_id,
    )

revoke_all_of-none :
    (now : ℕ) (row : SessionRow) (db : SessionTables)
    → (revoke_all_of now row db).0 ≡ all_revoked
    → count (live_of_account row.session.account_id) (revoke_all_of now row db).1.sessions ≡ 0
revoke_all_of-none now row db h =
    elim (Bool-cases (any (λ a. a.id == row.session.account_id) db.accounts)) [
      | inr gone ↦ absurd (cc (rw gone at h))
      | inl there ↦ rw there (
          none_live (live_of_account row.session.account_id) now all_sessions_revoked db.sessions
            (λ s. ground arith))
    ]

revoke_all_row-none :
    (read_at now : ℕ) (row : SessionRow) (db : SessionTables)
    → (revoke_all_row read_at now (some row) db).0 ≡ all_revoked
    → count
        (live_of_account row.session.account_id)
        (revoke_all_row read_at now (some row) db).1.sessions
      ≡ 0
revoke_all_row-none read_at now row db h =
    elim (Bool-cases (may_revoke_all (session_denial_reason read_at row))) [
      | inr out ↦ absurd (cc (rw out at h))
      | inl ok ↦ elim (Bool-cases (ltb (row.session.authenticated_at + 600_000) read_at)) [
        | inl old ↦ absurd (cc (rw (ok, old) at h))
        | inr recent ↦ rw (ok, recent) (revoke_all_of-none now row db (rw (ok, recent) at h))
      ]
    ]

-- Where an account has no session that is not revoked, no token is answered with its identity.
pub none_live-refuses :
    (config : StoreConfig) (db : SessionTables) (account : ℕ) (at : Clock) (other : Token)
    (extend : Bool) (scope : ScopedIdentity) (session : ℕ)
    → count (live_of_account account) db.sessions ≡ 0
    → (authenticate config at other extend db).0 ≢ some (oidc_session scope account session)
none_live-refuses config db account at other extend scope session over h =
    let admitted =
      (authenticate_iff config at other extend db (oidc_session scope account session)).0 h in
    let gone =
      admitted-not (live_of_account account) config at.read_at other db
        (oidc_session scope account session) over admitted in
    let own = load_session-account (config.digest other) db admitted.row admitted.loaded in
    let who : admitted.row.membership.account_id ≡ account = ap account_of admitted.same in
    ground (
      arith,
      gone,
      own,
      who,
      admitted.live.unrevoked,
      ==_iff admitted.row.session.account_id account,
    )

-- After a logout everywhere, no token is answered with an identity of the account at any time.
pub revoke_all-ends :
    (config : StoreConfig) (read_at now : ℕ) (token : Token) (db : SessionTables) (row : SessionRow)
    (at : Clock) (other : Token) (extend : Bool) (scope : ScopedIdentity) (session : ℕ)
    → valid_session_token token ≡ true
    → load_session (config.digest token) db ≡ some row
    → (revoke_all config read_at now token db).0 ≡ all_revoked
    → (authenticate config at other extend (revoke_all config read_at now token db).1).0
      ≢ some (oidc_session scope row.session.account_id session)
unfolding revoke_all
revoke_all-ends config read_at now token db row at other extend scope session well_formed loaded
      done_all =
    none_live-refuses config (revoke_all config read_at now token db).1 row.session.account_id at
      other extend scope session
      (rw (well_formed, loaded)
        (revoke_all_row-none read_at now row db (rw (well_formed, loaded) at done_all)))
