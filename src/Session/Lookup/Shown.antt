-- ===== src/Session/Lookup/Shown.antt =====
-- What a snapshot shows: the values of a live session's row.
use egogero.Common.{ℕ, ◌≡◌, refl, inl, inr, Bool, true, Option, none, some, arith, Bool-cases}
use egogero.Session.Schema.{
  Denial, EventType, AuditReason, SessionTables, Token, StoreConfig, Ran, crashed, done,
  valid_session_token,
}
use egogero.Session.Load.{SessionRow, load_session, session_denial_reason}
use egogero.Session.Lookup.{
  Clock, Snapshot, allowed_by, assured, identity_of, inspect_refusal, inspect_refused, inspect_row,
  inspect, with_csrf, upgrade, show,
}
use egogero.Session.Lookup.Live.{IsLive, session_denial_reason_iff, refusal_iff}

-- A live session that is let in with accepted evidence, and the values that are shown of it.
pub record IsShown (config : StoreConfig) (now : ℕ) (token : Token) (db : SessionTables)
    (shown : Snapshot) : Type 0 where
  pub row : SessionRow
  pub well_formed : valid_session_token token ≡ true
  pub loaded : load_session (config.digest token) db ≡ some row
  pub live : IsLive now row
  pub let_in : allowed_by config row ≡ true
  pub sure : assured config row ≡ true
  pub csrf : config.decrypt_csrf row.session ≡ some shown.csrf_token
  pub csrf_digest : shown.csrf_digest ≡ row.session.csrf_digest
  pub identity : shown.identity ≡ identity_of row
  pub expiry : shown.expires_at ≡ row.session.absolute_expires_at

abbrev OnShown : (Snapshot → Type 0) → Ran (Option Snapshot) → Type 0
OnShown P (done (some shown) db) = P shown
OnShown P _ = Unit

on_shown :
    (P : Snapshot → Type 0) (ran : Ran (Option Snapshot)) (shown : Snapshot) (db : SessionTables)
    → ran ≡ done (some shown) db
    → OnShown P ran
    → P shown
on_shown P ran shown db e h = rw e at h

inspect_refusal-none :
    (config : StoreConfig) (row : SessionRow) (why : Option Denial)
    → inspect_refusal config row why ≡ none
    → (why ≡ none) × (allowed_by config row ≡ true) × (assured config row ≡ true)
inspect_refusal-none config row why h = ground (arith, h, (refusal_iff config row why).0)

module _ (config : StoreConfig) (at : Clock) (token : Token) (extend : Bool) (db : SessionTables)
    (well_formed : valid_session_token token ≡ true) (row : SessionRow)
    (loaded : load_session (config.digest token) db ≡ some row) where
  abbrev Shows : Ran (Option Snapshot) → Type 0
  Shows = OnShown (IsShown config at.read_at token db)

  module _ (live : IsLive at.read_at row) (let_in : allowed_by config row ≡ true)
      (sure : assured config row ≡ true) where
    show-Shows :
        (csrf : ℕ) (ran : Ran Unit)
        → config.decrypt_csrf row.session ≡ some csrf
        → Shows (show at extend row csrf ran)
    show-Shows csrf crashed e = tt
    show-Shows csrf (done nothing db') e = record {
      row = row;
      well_formed = well_formed;
      loaded = loaded;
      live = live;
      let_in = let_in;
      sure = sure;
      csrf = e;
      csrf_digest = refl;
      identity = refl;
      expiry = refl;
    }

    with_csrf-Shows :
        (csrf : Option ℕ)
        → config.decrypt_csrf row.session ≡ csrf
        → Shows (with_csrf config at extend row csrf db)
    with_csrf-Shows none e = tt
    with_csrf-Shows (some csrf) e = show-Shows csrf (upgrade config row csrf db) e

  inspect_refused-Shows :
      (why : Option (EventType × AuditReason))
      → inspect_refusal config row (session_denial_reason at.read_at row) ≡ why
      → Shows (inspect_refused config at extend row why db)
  inspect_refused-Shows (some (event, why)) e = tt
  inspect_refused-Shows none e =
      let (no_denial, let_in, sure) =
        inspect_refusal-none config row (session_denial_reason at.read_at row) e in
      with_csrf-Shows ((session_denial_reason_iff at.read_at row).0 no_denial) let_in sure
        (config.decrypt_csrf row.session) refl

inspect_row-Shows :
    (config : StoreConfig) (at : Clock) (token : Token) (extend : Bool) (db : SessionTables)
    → valid_session_token token ≡ true
    → (row : Option SessionRow) → load_session (config.digest token) db ≡ row
    → OnShown (IsShown config at.read_at token db) (inspect_row config at extend row db)
inspect_row-Shows config at token extend db well_formed none loaded = tt
inspect_row-Shows config at token extend db well_formed (some row) loaded =
    inspect_refused-Shows config at token extend db well_formed row loaded
      (inspect_refusal config row (session_denial_reason at.read_at row)) refl

-- A snapshot is shown only of a session that is live, with the CSRF token that its row holds
-- encrypted and that digest, identity and expiry.
pub inspect-IsShown :
    (config : StoreConfig) (at : Clock) (token : Token) (extend : Bool) (db db' : SessionTables)
    (shown : Snapshot)
    → inspect config at token extend db ≡ done (some shown) db'
    → IsShown config at.read_at token db shown
unfolding inspect
inspect-IsShown config at token extend db db' shown e =
    elim (Bool-cases (valid_session_token token)) [
      | inr bad ↦ absurd (cc (rw bad at e))
      | inl ok ↦
          on_shown (IsShown config at.read_at token db)
            (inspect_row config at extend (load_session (config.digest token) db) db) shown db'
            (rw ok at e)
            (inspect_row-Shows config at token extend db ok (load_session (config.digest token) db)
              refl)
    ]
