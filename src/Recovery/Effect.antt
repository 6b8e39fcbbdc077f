-- ===== src/Recovery/Effect.antt =====
-- What the worker leaves of the sessions of an account, and which events it claims.
use egogero.Common.{
  ℕ, zero, suc, ◌+◌, ◌<◌, max, ◌≡◌, refl, sym, ap, subst, ◌≢◌, inl, inr, Bool, true, false, Option,
  none, some, List, [], ◌∷◌, arith, leb, ◌==◌, if◌then◌else◌, ==_refl, Bool-cases, update, count,
  any, Memᴰ,
}
use mathlib.Core.Option.{some-injective}
use egogero.Auth.{ScopedIdentity, oidc_session}
use egogero.Session.Schema.{provider_recovery_event, SessionTables, Token, StoreConfig}
use egogero.Session.Lookup.{Clock, authenticate}
use egogero.Session.Issue.Login.{live_of_account}
use egogero.Common.Members.{select-mem, map-mem, mem-any, update-there}
use egogero.Session.Revoke.Ending.{none_live, none_live-refuses}
use egogero.Recovery.{
  RecoveryEvent, RecoveryTables, RecoveryWorkerConfig, Interruption, uninterrupted, timed_out,
  broken, RecoveryOutcome, acknowledged_outcome, RecoveryError, revoke_account, adapter_revoke,
  held, fail_claim, acknowledge, run_adapter, process_recovery_claim, adapter_nack, adapter_timeout,
  adapter_failure, insert_event, sorted, by_attempt, up_to, among, claimable_event,
  event_candidates, unlocked, leased, lease_events, ClaimClock, claim_recovery_revocations,
}

-- The adapter leaves the account without a live session, so that it always acknowledges.
account-none :
    (now account : ℕ) (db : SessionTables)
    → count (live_of_account account) (revoke_account now account db).sessions ≡ 0
account-none now account db =
    none_live (live_of_account account) now provider_recovery_event db.sessions (λ s. ground arith)

adapter_revoke-acknowledged :
    (now : ℕ) (account : Option ℕ) (db : SessionTables) → (adapter_revoke now account db).0 ≡ true
unfolding adapter_revoke
adapter_revoke-acknowledged now none db = refl
adapter_revoke-acknowledged now (some account) db = rw (account-none now account db) refl

adapter_revoke-none :
    (now account : ℕ) (claimed : Option ℕ) (db : SessionTables)
    → claimed ≡ some account
    → count (live_of_account account) (adapter_revoke now claimed db).1.sessions ≡ 0
unfolding adapter_revoke
adapter_revoke-none now account none db e = absurd (cc)
adapter_revoke-none now account (some other) db e =
    subst (λ a. count (live_of_account a) (revoke_account now other db).sessions ≡ 0)
      (some-injective _ _ e) (account-none now other db)

abbrev is_acknowledged : RecoveryOutcome → Bool
is_acknowledged acknowledged_outcome = true
is_acknowledged _ = false

fail_claim-not :
    (config : RecoveryWorkerConfig) (now : ℕ) (why : RecoveryError) (claim : RecoveryEvent)
    (db : RecoveryTables)
    → is_acknowledged (fail_claim config now why claim db).0 ≡ false
unfolding fail_claim
fail_claim-not config now why claim db =
    elim (Bool-cases (leb config.max_attempts claim.attempts)) [
      | inl terminal ↦ rw terminal refl
      | inr again ↦ rw again refl
    ]

module _ (config : RecoveryWorkerConfig) (now account : ℕ) (claim : RecoveryEvent)
    (db : RecoveryTables) where
  not_failed :
      (why : RecoveryError) {A : Type 0}
      → (fail_claim config now why claim db).0 ≡ acknowledged_outcome
      → A
  not_failed why h = absurd (cc (fail_claim-not config now why claim db, ap is_acknowledged h))

  acknowledge-none :
      (answer : Bool) (store : SessionTables)
      → count (live_of_account account) store.sessions ≡ 0
      → (acknowledge config now claim db (answer, store)).0 ≡ acknowledged_outcome
      → count
          (live_of_account account)
          (acknowledge config now claim db (answer, store)).1.store.sessions
        ≡ 0
  acknowledge-none false store over h = not_failed adapter_nack h
  acknowledge-none true store over h = over

  run_adapter-none :
      (interruption : Interruption)
      → claim.account_id ≡ some account
      → (run_adapter config now interruption claim db).0 ≡ acknowledged_outcome
      → count
          (live_of_account account)
          (run_adapter config now interruption claim db).1.store.sessions
        ≡ 0
  run_adapter-none uninterrupted own h =
      acknowledge-none (adapter_revoke now claim.account_id db.store).0
        (adapter_revoke now claim.account_id db.store).1
        (adapter_revoke-none now account claim.account_id db.store own) h
  run_adapter-none timed_out own h = not_failed adapter_timeout h
  run_adapter-none broken own h = not_failed adapter_failure h

-- Where a claim for an account is acknowledged, no token is answered with an identity of that
-- account at any time.
pub process_recovery_claim-ends :
    (config : RecoveryWorkerConfig) (read_at now : ℕ) (interruption : Interruption)
    (claim : RecoveryEvent) (db : RecoveryTables) (account : ℕ) (store : StoreConfig) (at : Clock)
    (token : Token) (extend : Bool) (scope : ScopedIdentity) (session : ℕ)
    → claim.account_id ≡ some account
    → (process_recovery_claim config read_at now interruption claim db).0 ≡ acknowledged_outcome
    → (authenticate store at token extend
        (process_recovery_claim config read_at now interruption claim db).1.store).0
      ≢ some (oidc_session scope account session)
unfolding process_recovery_claim
process_recovery_claim-ends config read_at now interruption claim db account store at token extend
      scope session own h =
    elim (Bool-cases (any (held read_at claim) db.events)) [
      | inr lost ↦ absurd (cc (ap is_acknowledged (rw lost at h)))
      | inl there ↦
          none_live-refuses store
            (process_recovery_claim config read_at now interruption claim db).1.store account at
            token extend scope session
            (rw there
              (run_adapter-none config now account claim db interruption own (rw there at h)))
    ]

-- A claim whose lease still holds, run without interruption, is acknowledged.
pub process_recovery_claim-acknowledged :
    (config : RecoveryWorkerConfig) (read_at now : ℕ) (claim : RecoveryEvent) (db : RecoveryTables)
    → any (held read_at claim) db.events ≡ true
    → (process_recovery_claim config read_at now uninterrupted claim db).0 ≡ acknowledged_outcome
unfolding process_recovery_claim
process_recovery_claim-acknowledged config read_at now claim db there =
    rw (there, adapter_revoke-acknowledged now claim.account_id db.store) refl

-- The rows that a claim chooses are rows of the table.
insert_event-mem :
    (before : RecoveryEvent → RecoveryEvent → Bool) (e : RecoveryEvent) (rows : List RecoveryEvent)
    {r : RecoveryEvent}
    → Memᴰ r (insert_event before e rows)
    → Memᴰ r (e ∷ rows)
insert_event-mem before e [] h = h
insert_event-mem before e (f ∷ rows) {r} h = elim (Bool-cases (before e f)) [
  | inl hit ↦ rw hit at h
  | inr miss ↦
      elim (subst
        (λ (b : Bool). Memᴰ r (if b then e ∷ f ∷ rows else f ∷ insert_event before e rows)) miss
        h) [
          | Memᴰ.head same ↦ Memᴰ.tail (Memᴰ.head same)
          | Memᴰ.tail m ↦ elim (insert_event-mem before e rows m) [
            | Memᴰ.head same ↦ Memᴰ.head same
            | Memᴰ.tail n ↦ Memᴰ.tail (Memᴰ.tail n)
          ]
        ]
]

sorted-mem :
    (before : RecoveryEvent → RecoveryEvent → Bool) (rows : List RecoveryEvent) {r : RecoveryEvent}
    → Memᴰ r (sorted before rows)
    → Memᴰ r rows
sorted-mem before [] h = h
sorted-mem before (e ∷ rows) h = elim (insert_event-mem before e (sorted before rows) h) [
  | Memᴰ.head same ↦ Memᴰ.head same
  | Memᴰ.tail m ↦ Memᴰ.tail (sorted-mem before rows m)
]

up_to-mem :
    (n : ℕ) (rows : List RecoveryEvent) {r : RecoveryEvent} → Memᴰ r (up_to n rows) → Memᴰ r rows
up_to-mem zero rows h = elim h [ ]
up_to-mem (suc n) [] h = elim h [ ]
up_to-mem (suc n) (e ∷ rows) (Memᴰ.head same) = Memᴰ.head same
up_to-mem (suc n) (e ∷ rows) (Memᴰ.tail m) = Memᴰ.tail (up_to-mem n rows m)

candidate-mem :
    (locked : ℕ → Bool) (batch max now : ℕ) (rows : List RecoveryEvent) {r : RecoveryEvent}
    → Memᴰ r (event_candidates locked batch max now rows)
    → Memᴰ r rows
candidate-mem locked batch max now rows h =
    (select-mem (unlocked locked (claimable_event max now)) rows
      (sorted-mem by_attempt _ (up_to-mem batch _ h))).0

-- What is claimed holds its lease in the table until it runs out.
lease_events-held :
    (locked : ℕ → Bool) (worker batch lease max : ℕ) (draw : ℕ → ℕ) (now read_at : ℕ)
    (rows : List RecoveryEvent) {c : RecoveryEvent}
    → Memᴰ c (lease_events locked worker batch lease max draw now rows).0
    → read_at < now + lease
    → read_at < c.expires_at
    → any (held read_at c) (lease_events locked worker batch lease max draw now rows).1 ≡ true
lease_events-held locked worker batch lease max draw now read_at rows {c} m in_lease in_time =
    let chosen = event_candidates locked batch max now rows in
    let (e, n, same) = map-mem (leased worker lease draw now) chosen m in
    let row = candidate-mem locked batch max now rows n in
    let picked = mem-any (λ f. f.id == e.id) chosen n (==_refl e.id) in
    let there = update-there (among chosen) (leased worker lease draw now) rows row picked in
    let not_over : read_at < e.expires_at =
      subst (λ (x : RecoveryEvent). read_at < x.expires_at) same in_time in
    mem-any (held read_at c) (update (among chosen) (leased worker lease draw now) rows) there (
      subst (λ x. held read_at x (leased worker lease draw now e) ≡ true) (sym same)
        (ground (arith, not_over, in_lease, ==_refl e.id, ==_refl worker, ==_refl (draw e.id))))

-- Each event that a batch claims is acknowledged where it is run without interruption before its
-- lease and the event itself are over.
pub claimed-acknowledged :
    (config : RecoveryWorkerConfig) (worker batch lease : ℕ) (draw : ℕ → ℕ) (at : ClaimClock)
    (read_at now : ℕ) (db : RecoveryTables) (claim : RecoveryEvent)
    → Memᴰ claim
        (claim_recovery_revocations worker batch lease config.max_attempts draw at db.events).0
    → read_at < at.claimed_at + lease
    → read_at < claim.expires_at
    → (process_recovery_claim config read_at now uninterrupted claim (record db {
      events =
          (claim_recovery_revocations worker batch lease config.max_attempts draw at db.events).1;
    })).0
      ≡ acknowledged_outcome
unfolding claim_recovery_revocations
claimed-acknowledged config worker batch lease draw at read_at now db claim m in_lease in_time =
    process_recovery_claim-acknowledged config read_at now claim _ (
      lease_events-held at.claimed_locked worker batch lease config.max_attempts draw at.claimed_at
        read_at _ m in_lease in_time)
