-- ===== src/Delivery/Batch/Examples.antt =====
-- Two workers that share their settings.
use egogero.Common.{ℕ, ◌+◌, ◌≡◌, refl, true, false, none, some, [], arith}
use egogero.Delivery.Worker.{DeliveryWorkerConfig}
use egogero.Delivery.{ClaimReadings, claim_deliveries, bury_exhausted, candidates}
use egogero.Delivery.Batch.{
  Outbox, Secret, WorkerId, claimed, start_batch, verify_delivery_secret, verify_delivery_policy,
  claimed-claimed,
}

abbrev outbox : Outbox
outbox = record { cache_secret_key = some 77; policy_key = none; rows = [] }

abbrev outbox_left : Outbox
outbox_left = record { cache_secret_key = some 77; policy_key = some 1_003; rows = [] }

abbrev secret : Secret
secret = record { byte_length = 40; fingerprint = 77 }

abbrev config : DeliveryWorkerConfig
config = record {
  batch_size = 50;
  concurrency = 5;
  lease_ms = 60_000;
  poll_ms = 1_000;
  max_attempts = 3;
  base_backoff_ms = 1_000;
  max_backoff_ms = 300_000;
  provider_timeout_ms = 30_000;
}

abbrev worker : WorkerId
worker = record { id = 1; length = 20; matches = true }

abbrev at : ClaimReadings
at = record { swept_at = 5; now = 5; locked = λ id. false; random_uuid = λ id. id }

abbrev fingerprint : ℕ → ℕ
fingerprint n = 1_000 + n

first_starts : start_batch fingerprint secret config worker at outbox ≡ claimed [] outbox_left
unfolding start_batch verify_delivery_secret verify_delivery_policy claim_deliveries bury_exhausted
    candidates
first_starts = refl

second_starts : start_batch fingerprint secret config worker at outbox_left ≡ claimed [] outbox_left
unfolding start_batch verify_delivery_secret verify_delivery_policy claim_deliveries bury_exhausted
    candidates
second_starts = refl

claimed-claimed_example :
    (config.max_attempts ≡ config.max_attempts) × (secret.fingerprint ≡ secret.fingerprint)
claimed-claimed_example =
    claimed-claimed fingerprint secret secret config config worker worker at at outbox outbox_left
      outbox_left [] [] (λ m n h. omega (arith, h)) first_starts second_starts
