-- ===== src/Session/Family/History.antt =====
-- Every history of sessions: the transactions of the store in any order, with changes of the other
-- tables between them.
use egogero.Common.{
  ℕ, ◌+◌, ◌≡◌, refl, inl, inr, Bool, ◌&&◌, Option, none, some, [], arith, ltb, ◌==◌, Bool-cases,
  Option-cases, count, any,
}
use egogero.Session.Schema.{
  RevokeReason, all_sessions_revoked, ReturnTo, SessionTables, Token, StoreConfig, Ran, done,
  valid_session_token,
}
use egogero.Session.Load.{SessionRow, load_session, session_denial_reason}
use egogero.Session.Lookup.{Clock, authenticate, inspect, Snapshot}
use egogero.Session.Insert.{WriteClock, Draws, Requester}
use egogero.Session.Rotate.{SessionRotationResult, Target, rotate, IssuedBrowserSession, revoked_as}
use egogero.Session.Issue.{issue_from_handoff}
use egogero.Session.Issue.Login.{live_of_account}
use egogero.Session.Intents.{
  create_reauthentication_start_intent, consume_reauthentication_start_intent, create_row,
  consume_row,
}
use egogero.Session.Revoke.{
  in_family, revoke_row, revoke, revoke_all_of, revoke_all_row, revoke_all, may_revoke_all,
  reason_or,
}
use egogero.Session.Family.{IsSound, has_id, of_line, update-IsSound, revoked_as-IsTame}
use egogero.Session.Family.Rotation.{Leaves, SoundTables, rotate-Sound}
use egogero.Session.Family.Login.{issue_from_handoff-Sound}
use egogero.Session.Family.Reading.{authenticate-IsSound, inspect-Sound}

revoke_row-IsSound :
    (now : ℕ) (why : RevokeReason) (row : Option SessionRow) (db : SessionTables)
    → IsSound db.sessions
    → IsSound (revoke_row now why row db).1.sessions
revoke_row-IsSound now why none db good = good
revoke_row-IsSound now why (some row) db good =
    let ended =
      update-IsSound (in_family row.session.family_id) (revoked_as now why)
        (revoked_as-IsTame now why) db.sessions good in
    elim (Bool-cases (any (in_family row.session.family_id) db.sessions)) [
      | inl some_live ↦ rw some_live ended
      | inr none_live ↦ rw none_live ended
    ]

revoke-IsSound :
    (config : StoreConfig) (now : ℕ) (reason : Option RevokeReason) (token : Token)
    (db : SessionTables)
    → IsSound db.sessions
    → IsSound (revoke config now reason token db).1.sessions
unfolding revoke
revoke-IsSound config now reason token db good = elim (Bool-cases (valid_session_token token)) [
  | inr bad ↦ rw bad good
  | inl ok ↦
      rw ok
        (revoke_row-IsSound now (reason_or reason) (load_session (config.digest token) db) db good)
]

revoke_all_of-IsSound :
    (now : ℕ) (row : SessionRow) (db : SessionTables)
    → IsSound db.sessions
    → IsSound (revoke_all_of now row db).1.sessions
revoke_all_of-IsSound now row db good =
    elim (Bool-cases (any (λ a. a.id == row.session.account_id) db.accounts)) [
      | inr gone ↦ rw gone good
      | inl there ↦ rw there (
          update-IsSound (live_of_account row.session.account_id)
            (revoked_as now all_sessions_revoked) (revoked_as-IsTame now all_sessions_revoked)
            db.sessions good)
    ]

revoke_all_row-IsSound :
    (read_at now : ℕ) (row : Option SessionRow) (db : SessionTables)
    → IsSound db.sessions
    → IsSound (revoke_all_row read_at now row db).1.sessions
revoke_all_row-IsSound read_at now none db good = good
revoke_all_row-IsSound read_at now (some row) db good =
    elim (Bool-cases (may_revoke_all (session_denial_reason read_at row))) [
      | inr out ↦ rw out good
      | inl ok ↦ elim (Bool-cases (ltb (row.session.authenticated_at + 600_000) read_at)) [
        | inl old ↦ rw (ok, old) good
        | inr recent ↦ rw (ok, recent) (revoke_all_of-IsSound now row db good)
      ]
    ]

revoke_all-IsSound :
    (config : StoreConfig) (read_at now : ℕ) (token : Token) (db : SessionTables)
    → IsSound db.sessions
    → IsSound (revoke_all config read_at now token db).1.sessions
unfolding revoke_all
revoke_all-IsSound config read_at now token db good =
    elim (Bool-cases (valid_session_token token)) [
      | inr bad ↦ rw bad good
      | inl ok ↦
          rw ok (revoke_all_row-IsSound read_at now (load_session (config.digest token) db) db good)
    ]

create_row-sessions :
    (config : StoreConfig) (read_at now id : ℕ) (drawn : Token) (return_to : ReturnTo)
    (row : Option SessionRow) (db : SessionTables)
    → (create_row config read_at now id drawn return_to row db).1.sessions ≡ db.sessions
create_row-sessions config read_at now id drawn return_to none db = refl
create_row-sessions config read_at now id drawn return_to (some row) db =
    elim (Option-cases (session_denial_reason read_at row)) [
      | inl live ↦ rw live refl
      | inr (why, e) ↦ rw e refl
    ]

create-sessions :
    (config : StoreConfig) (read_at now id : ℕ) (drawn token : Token) (return_to : ReturnTo)
    (db : SessionTables)
    → (create_reauthentication_start_intent config read_at now id drawn token return_to
        db).1.sessions
      ≡ db.sessions
unfolding create_reauthentication_start_intent
create-sessions config read_at now id drawn token return_to db =
    elim (Bool-cases (valid_session_token token)) [
      | inr bad ↦ rw bad refl
      | inl ok ↦ rw ok (
          create_row-sessions config read_at now id drawn return_to
            (load_session (config.digest token) db) db)
    ]

consume_row-sessions :
    (read_at now digest : ℕ) (row : Option SessionRow) (db : SessionTables)
    → (consume_row read_at now digest row db).1.sessions ≡ db.sessions
consume_row-sessions read_at now digest none db = refl
consume_row-sessions read_at now digest (some row) db =
    elim (Option-cases (session_denial_reason read_at row)) [
      | inl live ↦ rw live refl
      | inr (why, e) ↦ rw e refl
    ]

consume-sessions :
    (config : StoreConfig) (read_at now : ℕ) (token intent : Token) (db : SessionTables)
    → (consume_reauthentication_start_intent config read_at now token intent db).1.sessions
      ≡ db.sessions
unfolding consume_reauthentication_start_intent
consume-sessions config read_at now token intent db =
    elim (Bool-cases (valid_session_token token && valid_session_token intent)) [
      | inr bad ↦ rw bad refl
      | inl ok ↦ rw ok (
          consume_row-sessions read_at now (config.digest intent)
            (load_session (config.digest token) db) db)
    ]

-- One committed transaction; a crash leaves the tables. Identifiers and families are drawn anew.
pub data Step (config : StoreConfig) : SessionTables → SessionTables → Type 0 where
  authenticates :
      (at : Clock) (token : Token) (extend : Bool) {db : SessionTables}
      → Step config db (authenticate config at token extend db).1
  inspects :
      (at : Clock) (token : Token) (extend : Bool) (answer : Option Snapshot)
      {db db' : SessionTables}
      → inspect config at token extend db ≡ done answer db'
      → Step config db db'
  rotates :
      (at : WriteClock) (who : Requester) (draws : Draws) (token : Token) (target : Target)
      (answer : SessionRotationResult) {db db' : SessionTables}
      → count (has_id draws.session_id) db.sessions ≡ 0
      → rotate config at who draws token target db ≡ done answer db'
      → Step config db db'
  issues :
      (at : WriteClock) (consumed_at : ℕ) (who : Requester) (draws : Draws) (handoff : Token)
      (old : Option Token) (answer : Option IssuedBrowserSession) {db db' : SessionTables}
      → count (has_id draws.session_id) db.sessions ≡ 0
      → count (of_line draws.family_id) db.sessions ≡ 0
      → issue_from_handoff config at consumed_at who draws handoff old db ≡ done answer db'
      → Step config db db'
  revokes :
      (now : ℕ) (reason : Option RevokeReason) (token : Token) {db : SessionTables}
      → Step config db (revoke config now reason token db).1
  revokes_all :
      (read_at now : ℕ) (token : Token) {db : SessionTables}
      → Step config db (revoke_all config read_at now token db).1
  creates_intent :
      (read_at now id : ℕ) (drawn token : Token) (return_to : ReturnTo) {db : SessionTables}
      → Step config db
          (create_reauthentication_start_intent config read_at now id drawn token return_to db).1
  consumes_intent :
      (read_at now : ℕ) (token intent : Token) {db : SessionTables}
      → Step config db (consume_reauthentication_start_intent config read_at now token intent db).1
  administers : {db db' : SessionTables} → db'.sessions ≡ db.sessions → Step config db db'

-- The tables that a history reaches from an empty table of sessions.
pub data Reached (config : StoreConfig) : SessionTables → Type 0 where
  start : {db : SessionTables} → db.sessions ≡ [] → Reached config db
  step : {db db' : SessionTables} → Reached config db → Step config db db' → Reached config db'

left :
    {A : Type 0} (ran : Ran A) {answer : A} {db : SessionTables}
    → ran ≡ done answer db
    → Leaves SoundTables ran
    → IsSound db.sessions
left ran e good = rw e at good

Step-IsSound :
    {config : StoreConfig} {db db' : SessionTables}
    → Step config db db'
    → IsSound db.sessions
    → IsSound db'.sessions
Step-IsSound {config} {db} (Step.authenticates at token extend) good =
    authenticate-IsSound config at token extend db good
Step-IsSound {config} {db} (Step.inspects at token extend answer e) good =
    left (inspect config at token extend db) e (inspect-Sound config at token extend db good)
Step-IsSound {config} {db} (Step.rotates at who draws token target answer fresh_id e) good =
    left (rotate config at who draws token target db) e
      (rotate-Sound config at who draws token target db good fresh_id)
Step-IsSound {config} {db}
      (Step.issues at consumed_at who draws handoff old answer fresh_id fresh_family e) good =
    left (issue_from_handoff config at consumed_at who draws handoff old db) e (
      issue_from_handoff-Sound config at consumed_at who draws handoff old db
        (record { good = good; fresh_id = fresh_id; fresh_family = fresh_family }))
Step-IsSound {config} {db} (Step.revokes now reason token) good =
    revoke-IsSound config now reason token db good
Step-IsSound {config} {db} (Step.revokes_all read_at now token) good =
    revoke_all-IsSound config read_at now token db good
Step-IsSound {config} {db} (Step.creates_intent read_at now id drawn token return_to) good =
    rw (create-sessions config read_at now id drawn token return_to db) good
Step-IsSound {config} {db} (Step.consumes_intent read_at now token intent) good =
    rw (consume-sessions config read_at now token intent db) good
Step-IsSound (Step.administers e) good = rw e good

-- In every table that a history of logins, reauthentications, recoveries, rotations, lookups,
-- revocations and changes of the other tables reaches, identifiers are unique and no family has two
-- sessions that are not revoked, where each new session's identifier and each new family are not in
-- the table yet.
pub Reached-IsSound :
    {config : StoreConfig} {db : SessionTables} → Reached config db → IsSound db.sessions
Reached-IsSound (Reached.start e) =
    rw e (record { unique = λ id. omega arith; single = λ family. omega arith })
Reached-IsSound (Reached.step before s) = Step-IsSound s (Reached-IsSound before)
