-- ===== src/Recovery/Examples.antt =====
-- A recovery event that is claimed and run on concrete tables.
use egogero.Common.{◌≡◌, refl, ◌≢◌, true, false, none, some, [], ◌∷◌, arith, Memᴰ}
use egogero.Auth.{oidc_session, tenant, sindico_role}
use egogero.Session.Lookup.{authenticate}
use egogero.Session.Samples.{sample_config, tables_with, first_token, live_session, clock_at}
use egogero.Recovery.{
  RecoveryEvent, pending, RecoveryTables, RecoveryWorkerConfig, uninterrupted, timed_out,
  acknowledged_outcome, retry_outcome, adapter_timeout, ClaimClock, claim_recovery_revocations,
  process_recovery_claim, adapter_revoke, fail_claim, leased,
}
use egogero.Recovery.Effect.{process_recovery_claim-ends, claimed-acknowledged}

abbrev event : RecoveryEvent
event = record {
  id = 5;
  account_id = some 7;
  status = pending;
  attempts = 0;
  created_at = 1000;
  expires_at = 900_000;
  next_attempt_at = 1000;
  lease_owner = none;
  lease_token = none;
  lease_expires_at = none;
  acknowledged_at = none;
  failed_at = none;
  last_error = none;
  slo_alerted_at = none;
}

abbrev config : RecoveryWorkerConfig
config = record {
  batch_size = 20;
  lease_ms = 2_000;
  max_attempts = 5;
  base_backoff_ms = 100;
  max_backoff_ms = 1_000;
  jitter = λ delay. delay;
}

abbrev at : ClaimClock
at = record {
  expired_at = 2000;
  expired_locked = λ id. false;
  exhausted_at = 2000;
  exhausted_locked = λ id. false;
  claimed_at = 2000;
  claimed_locked = λ id. false;
}

abbrev db : RecoveryTables
db = record { store = tables_with (live_session ∷ []); events = event ∷ [] }

abbrev claim : RecoveryEvent
claim = leased 3 2000 (λ id. 99) 2000 event

abbrev claimed : RecoveryTables
claimed = record db { events = claim ∷ [] }

one_claim :
    claim_recovery_revocations 3 1 2000 5 (λ id. 99) at (event ∷ []) ≡ (claim ∷ [], claim ∷ [])
unfolding claim_recovery_revocations
one_claim = refl

timed_out_claim :
    (process_recovery_claim config 2500 2500 timed_out claim claimed).0
    ≡ retry_outcome adapter_timeout
unfolding process_recovery_claim fail_claim
timed_out_claim = refl

acknowledged_claim :
    (process_recovery_claim config 2500 2500 uninterrupted claim claimed).0 ≡ acknowledged_outcome
unfolding process_recovery_claim adapter_revoke
acknowledged_claim = refl

process_recovery_claim-ends_example :
    (authenticate sample_config
      (clock_at 3000)
      first_token
      true
      (process_recovery_claim config 2500 2500 uninterrupted claim claimed).1.store).0
    ≢ some (oidc_session (tenant 7 sindico_role (4 ∷ [])) 7 1)
process_recovery_claim-ends_example =
    process_recovery_claim-ends config 2500 2500 uninterrupted claim claimed 7 sample_config
      (clock_at 3000) first_token true (tenant 7 sindico_role (4 ∷ [])) 1 refl acknowledged_claim

claim_there : Memᴰ claim (claim_recovery_revocations 3 1 2000 5 (λ id. 99) at (event ∷ [])).0
unfolding claim_recovery_revocations
claim_there = Memᴰ.head refl

claimed-acknowledged_example :
    (process_recovery_claim config 2500 2500 uninterrupted claim (record db {
      events = (claim_recovery_revocations 3 1 2000 5 (λ id. 99) at (event ∷ [])).1;
    })).0
    ≡ acknowledged_outcome
claimed-acknowledged_example =
    claimed-acknowledged config 3 1 2000 (λ id. 99) at 2500 2500 db claim claim_there (omega arith)
      (omega arith)
