-- ===== src/Session/Family/Reading.antt =====
-- Authentication and inspection keep one live session in each family.
use egogero.Common.{
  ℕ, ◌+◌, refl, inl, inr, Bool, true, false, ◌&&◌, Option, none, some, List, ltb, ◌==◌, Bool-cases,
}
use egogero.Session.Schema.{
  BrowserSession, EventType, AuditReason, SessionTables, Token, StoreConfig, Ran, crashed, done,
  valid_session_token,
}
use egogero.Session.Load.{
  SessionRow, load_session, touch_session, touchable, touched, session_denial_reason,
}
use egogero.Session.Lookup.{
  Clock, refusal, extended, admit, authenticate_row, authenticate, reencrypted, with_ciphertext,
  upgrade, show, with_csrf, inspect_refused, inspect_refusal, inspect_row, inspect,
}
use egogero.Session.Family.{IsSound, IsTame, update-IsSound}
use egogero.Session.Family.Rotation.{Leaves, SoundTables}

touched-IsTame : (now : ℕ) → IsTame (touched now)
touched-IsTame now = record { same_id = λ s. refl; same_family = λ s. refl; not_revived = λ s h. h }

reencrypted-IsTame : (version ciphertext : ℕ) → IsTame (reencrypted version ciphertext)
reencrypted-IsTame version ciphertext = record {
  same_id = λ s. refl;
  same_family = λ s. refl;
  not_revived = λ s h. h;
}

touch-IsSound :
    (now later : ℕ) (row : SessionRow) (rows : List BrowserSession)
    → IsSound rows
    → IsSound (touch_session now later row rows).1
unfolding touch_session
touch-IsSound now later row rows good =
    elim (Bool-cases (ltb now (row.session.last_seen_at + 300_000))) [
      | inl soon ↦ rw soon good
      | inr due ↦ rw due (
          update-IsSound (touchable row.session.id later) (touched later) (touched-IsTame later)
            rows good)
    ]

extended-IsSound :
    (extend : Bool) (at : Clock) (row : SessionRow) (db : SessionTables)
    → IsSound db.sessions
    → IsSound (extended extend at row db).sessions
extended-IsSound false at row db good = good
extended-IsSound true at row db good = touch-IsSound at.read_at at.written_at row db.sessions good

admit-IsSound :
    (at : Clock) (extend : Bool) (row : SessionRow) (why : Option (EventType × AuditReason))
    (db : SessionTables)
    → IsSound db.sessions
    → IsSound (admit at extend row why db).1.sessions
admit-IsSound at extend row (some (event, why)) db good = good
admit-IsSound at extend row none db good = extended-IsSound extend at row db good

authenticate_row-IsSound :
    (config : StoreConfig) (at : Clock) (extend : Bool) (row : Option SessionRow)
    (db : SessionTables)
    → IsSound db.sessions
    → IsSound (authenticate_row config at extend row db).1.sessions
authenticate_row-IsSound config at extend none db good = good
authenticate_row-IsSound config at extend (some row) db good =
    admit-IsSound at extend row (refusal config row (session_denial_reason at.read_at row)) db good

pub authenticate-IsSound :
    (config : StoreConfig) (at : Clock) (token : Token) (extend : Bool) (db : SessionTables)
    → IsSound db.sessions
    → IsSound (authenticate config at token extend db).1.sessions
unfolding authenticate
authenticate-IsSound config at token extend db good =
    elim (Bool-cases (valid_session_token token)) [
      | inr bad ↦ rw bad good
      | inl ok ↦ rw ok (
          authenticate_row-IsSound config at extend (load_session (config.digest token) db) db good)
    ]

module _ (config : StoreConfig) (at : Clock) (extend : Bool) (row : SessionRow) where
  show-Sound :
      (csrf : ℕ) (ran : Ran Unit)
      → Leaves SoundTables ran
      → Leaves SoundTables (show at extend row csrf ran)
  show-Sound csrf crashed good = tt
  show-Sound csrf (done nothing db) good = extended-IsSound extend at row db good

  with_ciphertext-Sound :
      (ciphertext : Option ℕ) (db : SessionTables)
      → IsSound db.sessions
      → Leaves SoundTables (with_ciphertext config row ciphertext db)
  with_ciphertext-Sound none db good = tt
  with_ciphertext-Sound (some c) db good =
      update-IsSound
        (λ s. s.id == row.session.id && s.csrf_key_version == row.session.csrf_key_version)
        (reencrypted config.current_csrf_key_version c)
        (reencrypted-IsTame config.current_csrf_key_version c) db.sessions good

  upgrade-Sound :
      (csrf : ℕ) (db : SessionTables)
      → IsSound db.sessions
      → Leaves SoundTables (upgrade config row csrf db)
  upgrade-Sound csrf db good =
      elim (Bool-cases (ltb row.session.csrf_key_version config.current_csrf_key_version)) [
        | inr current ↦ rw current good
        | inl older ↦ rw older (
            with_ciphertext-Sound
              (config.encrypt_csrf row.session.id row.session.account_id csrf
                config.current_csrf_key_version)
              db good)
      ]

  with_csrf-Sound :
      (csrf : Option ℕ) (db : SessionTables)
      → IsSound db.sessions
      → Leaves SoundTables (with_csrf config at extend row csrf db)
  with_csrf-Sound none db good = good
  with_csrf-Sound (some csrf) db good =
      show-Sound csrf (upgrade config row csrf db) (upgrade-Sound csrf db good)

  inspect_refused-Sound :
      (why : Option (EventType × AuditReason)) (db : SessionTables)
      → IsSound db.sessions
      → Leaves SoundTables (inspect_refused config at extend row why db)
  inspect_refused-Sound (some (event, why)) db good = good
  inspect_refused-Sound none db good = with_csrf-Sound (config.decrypt_csrf row.session) db good

inspect_row-Sound :
    (config : StoreConfig) (at : Clock) (extend : Bool) (row : Option SessionRow)
    (db : SessionTables)
    → IsSound db.sessions
    → Leaves SoundTables (inspect_row config at extend row db)
inspect_row-Sound config at extend none db good = good
inspect_row-Sound config at extend (some row) db good =
    inspect_refused-Sound config at extend row
      (inspect_refusal config row (session_denial_reason at.read_at row)) db good

pub inspect-Sound :
    (config : StoreConfig) (at : Clock) (token : Token) (extend : Bool) (db : SessionTables)
    → IsSound db.sessions
    → Leaves SoundTables (inspect config at token extend db)
unfolding inspect
inspect-Sound config at token extend db good = elim (Bool-cases (valid_session_token token)) [
  | inr bad ↦ rw bad good
  | inl ok ↦
      rw ok (inspect_row-Sound config at extend (load_session (config.digest token) db) db good)
]
