-- ===== src/Recovery.antt =====
-- The worker that ends the sessions of accounts whose credentials were recovered
-- (src/jobs/process-recovery-revocations.ts), on its events and the tables of the session store.
pub mod Effect
pub mod Alerts
mod Examples
use egogero.Common.{
  ℕ, zero, suc, ◌+◌, ◌-◌, ◌*◌, ◌/◌, ◌%◌, ◌^◌, ◌≤◌, ◌<◌, min, max, ◌≡◌, refl, sym, ap, subst, ◌∙◌,
  ◌≢◌, ◌↔◌, ◌⊎◌, inl, inr, Bool, true, false, not, ◌&&◌, ◌||◌, Option, none, some, List, [], ◌∷◌,
  ◌++◌, map, arith, ltb, leb, ◌==◌, if◌then◌else◌, ==_iff, ==_refl, ==_sym, Bool-cases,
  Option-cases, is, is_none, after, length, length-append, select, first, update, count, any, all,
  head?, count-append, count-le-length, contains, All, Memᴰ, first-mem, first_of-count, any-first,
  count-any, count-mem,
}
use egogero.Session.Schema.{
  HumanAccountRow, BrowserSession, RevokeReason, provider_recovery_event, SessionTables,
}
use egogero.Session.Rotate.{revoked_as}
use egogero.Session.Issue.Login.{bumped, live_of_account}

pub data RecoveryStatus : Type 0 where
  pending retry processing acknowledged failed expired : RecoveryStatus

pub data RecoveryError : Type 0 where
  event_expired attempts_exhausted adapter_timeout adapter_nack adapter_failure : RecoveryError

pub record RecoveryEvent : Type 0 where
  pub id : ℕ
  pub account_id : Option ℕ
  pub status : RecoveryStatus
  pub attempts : ℕ
  pub created_at : ℕ
  pub expires_at : ℕ
  pub next_attempt_at : ℕ
  pub lease_owner : Option ℕ
  pub lease_token : Option ℕ
  pub lease_expires_at : Option ℕ
  pub acknowledged_at : Option ℕ
  pub failed_at : Option ℕ
  pub last_error : Option RecoveryError
  pub slo_alerted_at : Option ℕ

pub record RecoveryTables : Type 0 where
  pub store : SessionTables
  pub events : List RecoveryEvent

pub record RecoveryWorkerConfig : Type 0 where
  pub batch_size : ℕ
  pub lease_ms : ℕ
  pub max_attempts : ℕ
  pub base_backoff_ms : ℕ
  pub max_backoff_ms : ℕ
  pub jitter : ℕ → ℕ  -- Math.round of the product with a factor between 0.8 and 1.2

abbrev pub recovery_retry_delay_ms : RecoveryWorkerConfig → ℕ → ℕ
recovery_retry_delay_ms config attempt =
    min config.max_backoff_ms (config.jitter (config.base_backoff_ms * 2 ^ (attempt - 1)))

-- The statements of a claim: the rows they lock, the first of an order up to a number.
abbrev pub earlier : (RecoveryEvent → ℕ) → RecoveryEvent → RecoveryEvent → Bool
earlier at e f = ltb (at e) (at f) || (at e == at f && leb e.id f.id)

abbrev pub insert_event :
    (RecoveryEvent → RecoveryEvent → Bool) → RecoveryEvent → List RecoveryEvent → List RecoveryEvent
insert_event before e [] = e ∷ []
insert_event before e (f ∷ rows) =
    let later = f ∷ insert_event before e rows in if before e f then e ∷ f ∷ rows else later

abbrev pub sorted : (RecoveryEvent → RecoveryEvent → Bool) → List RecoveryEvent → List RecoveryEvent
sorted before [] = []
sorted before (e ∷ rows) = insert_event before e (sorted before rows)

abbrev pub up_to : ℕ → List RecoveryEvent → List RecoveryEvent
up_to zero rows = []
up_to (suc n) [] = []
up_to (suc n) (e ∷ rows) = e ∷ up_to n rows

abbrev pub among : List RecoveryEvent → RecoveryEvent → Bool
among rows e = any (λ f. f.id == e.id) rows

abbrev is_unsettled : RecoveryStatus → Bool
is_unsettled pending = true
is_unsettled retry = true
is_unsettled processing = true
is_unsettled _ = false

abbrev is_waiting : RecoveryStatus → Bool
is_waiting pending = true
is_waiting retry = true
is_waiting _ = false

abbrev pub is_processing : RecoveryStatus → Bool
is_processing processing = true
is_processing _ = false

abbrev lease_over : Option ℕ → ℕ → Bool
lease_over none now = false
lease_over (some t) now = leb t now

abbrev pub overdue : ℕ → RecoveryEvent → Bool
overdue now e = is_unsettled e.status && leb e.expires_at now

abbrev pub spent_attempts : ℕ → ℕ → RecoveryEvent → Bool
spent_attempts max now e =
    is_processing e.status
    && lease_over e.lease_expires_at now
    && leb max e.attempts
    && ltb now e.expires_at

abbrev pub claimable_event : ℕ → ℕ → RecoveryEvent → Bool
claimable_event max now e =
    ltb e.attempts max
    && ltb now e.expires_at
    && ((is_waiting e.status && leb e.next_attempt_at now)
        || (is_processing e.status && lease_over e.lease_expires_at now))

abbrev or_zero : Option ℕ → ℕ
or_zero none = 0
or_zero (some t) = t

abbrev pub by_attempt : RecoveryEvent → RecoveryEvent → Bool
by_attempt e f =
    ltb e.next_attempt_at f.next_attempt_at
    || (e.next_attempt_at == f.next_attempt_at && earlier (λ r. r.created_at) e f)

abbrev pub ended_as : RecoveryStatus → RecoveryError → ℕ → RecoveryEvent → RecoveryEvent
ended_as status why now e = record e {
  status = status;
  failed_at = some now;
  last_error = some why;
  lease_owner = none;
  lease_token = none;
  lease_expires_at = none;
}

abbrev pub leased : ℕ → ℕ → (ℕ → ℕ) → ℕ → RecoveryEvent → RecoveryEvent
leased worker lease draw now e = record e {
  status = processing;
  attempts = e.attempts + 1;
  lease_owner = some worker;
  lease_token = some (draw e.id);
  lease_expires_at = some (now + lease);
  last_error = none;
}

-- The clock of each statement, and the rows that other transactions hold when it runs, which SKIP
-- LOCKED leaves out.
pub record ClaimClock : Type 0 where
  pub expired_at : ℕ
  pub expired_locked : ℕ → Bool
  pub exhausted_at : ℕ
  pub exhausted_locked : ℕ → Bool
  pub claimed_at : ℕ
  pub claimed_locked : ℕ → Bool

abbrev pub unlocked : (ℕ → Bool) → (RecoveryEvent → Bool) → RecoveryEvent → Bool
unlocked locked p e = p e && not (locked e.id)

abbrev pub expire_events : (ℕ → Bool) → ℕ → ℕ → List RecoveryEvent → List RecoveryEvent
expire_events locked batch now rows =
    update
      (among (
        up_to batch
          (sorted (earlier (λ e. e.expires_at)) (select (unlocked locked (overdue now)) rows))))
      (ended_as expired event_expired now) rows

abbrev pub fail_exhausted : (ℕ → Bool) → ℕ → ℕ → ℕ → List RecoveryEvent → List RecoveryEvent
fail_exhausted locked batch max now rows =
    update
      (among (
        up_to batch (
          sorted (earlier (λ e. or_zero e.lease_expires_at))
            (select (unlocked locked (spent_attempts max now)) rows))))
      (ended_as failed attempts_exhausted now) rows

abbrev pub event_candidates : (ℕ → Bool) → ℕ → ℕ → ℕ → List RecoveryEvent → List RecoveryEvent
event_candidates locked batch max now rows =
    up_to batch (sorted by_attempt (select (unlocked locked (claimable_event max now)) rows))

abbrev pub lease_events :
    (ℕ → Bool)
    → (worker batch lease max : ℕ) → (ℕ → ℕ)
    → ℕ
    → List RecoveryEvent
    → List RecoveryEvent × List RecoveryEvent
lease_events locked worker batch lease max draw now rows =
    let chosen = event_candidates locked batch max now rows in
    (
      map (leased worker lease draw now) chosen,
      update (among chosen) (leased worker lease draw now) rows,
    )

-- `draw` gives the lease token that is drawn for a row.
unfoldable pub claim_recovery_revocations :
    (worker batch lease max : ℕ)
    → (ℕ → ℕ)
    → ClaimClock
    → List RecoveryEvent
    → List RecoveryEvent × List RecoveryEvent
claim_recovery_revocations worker batch lease max draw at rows =
    lease_events at.claimed_locked worker batch lease max draw at.claimed_at (
      fail_exhausted at.exhausted_locked batch max at.exhausted_at
        (expire_events at.expired_locked batch at.expired_at rows))

-- The adapter on the same database: what it acknowledges, and the tables.
abbrev pub revoke_account : ℕ → ℕ → SessionTables → SessionTables
revoke_account now account db = record db {
  accounts = update (λ a. a.id == account) (bumped now) db.accounts;
  sessions = update (live_of_account account) (revoked_as now provider_recovery_event) db.sessions;
}

unfoldable pub adapter_revoke : ℕ → Option ℕ → SessionTables → Bool × SessionTables
adapter_revoke now none db = (true, db)
adapter_revoke now (some account) db =
    let after = revoke_account now account db in
    (count (live_of_account account) after.sessions == 0, after)

-- The rows of a claim's lease.
abbrev pub of_lease : RecoveryEvent → RecoveryEvent → Bool
of_lease claim e =
    e.id == claim.id
    && is_processing e.status
    && is e.lease_owner (or_zero claim.lease_owner)
    && is e.lease_token (or_zero claim.lease_token)

abbrev pub held : ℕ → RecoveryEvent → RecoveryEvent → Bool
held now claim e = of_lease claim e && after e.lease_expires_at now && ltb now e.expires_at

pub data Interruption : Type 0 where
  uninterrupted timed_out broken : Interruption

pub data RecoveryOutcome : Type 0 where
  acknowledged_outcome lost_lease : RecoveryOutcome
  failed_outcome retry_outcome : RecoveryError → RecoveryOutcome

abbrev failed_attempt : Bool → RecoveryError → ℕ → ℕ → RecoveryEvent → RecoveryEvent
failed_attempt true why delay now e = record (ended_as failed attempts_exhausted now e) {
  next_attempt_at = now + delay;
}
failed_attempt false why delay now e = record e {
  status = retry;
  failed_at = none;
  last_error = some why;
  next_attempt_at = now + delay;
  lease_owner = none;
  lease_token = none;
  lease_expires_at = none;
}

abbrev pub outcome_of : Bool → RecoveryError → RecoveryOutcome
outcome_of true why = failed_outcome why
outcome_of false why = retry_outcome why

-- `failClaim`, after the transaction was rolled back.
unfoldable pub fail_claim :
    RecoveryWorkerConfig
    → ℕ
    → RecoveryError
    → RecoveryEvent
    → RecoveryTables
    → RecoveryOutcome × RecoveryTables
fail_claim config now why claim db =
    let terminal = leb config.max_attempts claim.attempts in
    (
      outcome_of terminal why,
      record db {
        events =
            update (of_lease claim)
              (failed_attempt terminal why (recovery_retry_delay_ms config claim.attempts) now)
              db.events;
      },
    )

abbrev pub acknowledged_as : ℕ → RecoveryEvent → RecoveryEvent
acknowledged_as now e = record e {
  status = acknowledged;
  acknowledged_at = some now;
  last_error = none;
  lease_owner = none;
  lease_token = none;
  lease_expires_at = none;
}

abbrev pub acknowledge :
    RecoveryWorkerConfig
    → ℕ
    → RecoveryEvent
    → RecoveryTables
    → Bool × SessionTables
    → RecoveryOutcome × RecoveryTables
acknowledge config now claim db (false, store) = fail_claim config now adapter_nack claim db
acknowledge config now claim db (true, store) = (
  acknowledged_outcome,
  record { store = store; events = update (of_lease claim) (acknowledged_as now) db.events },
)

abbrev pub run_adapter :
    RecoveryWorkerConfig
    → ℕ
    → Interruption
    → RecoveryEvent
    → RecoveryTables
    → RecoveryOutcome × RecoveryTables
run_adapter config now uninterrupted claim db =
    acknowledge config now claim db (adapter_revoke now claim.account_id db.store)
run_adapter config now timed_out claim db = fail_claim config now adapter_timeout claim db
run_adapter config now broken claim db = fail_claim config now adapter_failure claim db

unfoldable pub process_recovery_claim :
    RecoveryWorkerConfig
    → (read_at now : ℕ) → Interruption
    → RecoveryEvent
    → RecoveryTables
    → RecoveryOutcome × RecoveryTables
process_recovery_claim config read_at now interruption claim db =
    if not (any (held read_at claim) db.events)
    then (lost_lease, db)
    else run_adapter config now interruption claim db
