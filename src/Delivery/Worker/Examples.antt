-- ===== src/Delivery/Worker/Examples.antt =====
-- A delivery that succeeds, and a configuration.
use egogero.Common.{◌≡◌, refl, true, false, none, some, [], ◌∷◌, arith}
use egogero.Delivery.{processing, DeliveryIntent, ClaimedDelivery, complete_delivery, fail_delivery}
use egogero.Delivery.{sms}
use egogero.Delivery.Worker.{
  Cipher, DeliveryWorkerConfig, Jitter, Run, answered, rejected, stale, classify_failure,
  retry_delay_ms, delivered_outcome, process_claim, decrypt_payload,
}
use egogero.Delivery.Worker.Config.{
  Environment, absent, safe_integer, integer_setting, delivery_worker_config, IsJitter, IsBounded,
  delivery_worker_config-IsBounded,
}
use egogero.Delivery.Worker.Met.{Settled}
use egogero.Delivery.Worker.Settled.{process_claim-Settled}

abbrev claimed_row : DeliveryIntent
claimed_row = record {
  id = 7;
  created_at = 10;
  delivered_at = none;
  status = processing;
  attempts = 0;
  lease_owner = some 1;
  lease_token = some 1_007;
  lease_expires_at = some 120;
  next_attempt_at = 10;
  last_error = none;
  convite_id = 500;
  channel = sms;
  payload = 1;
  key_version = 1;
}

abbrev claim : ClaimedDelivery
claim = record {
  id = 7;
  convite_id = 500;
  channel = sms;
  payload = 1;
  key_version = 1;
  attempts = 0;
  lease_owner = 1;
  lease_token = 1_007;
}

abbrev cipher : Cipher
cipher = record {
  decipher =
      λ c. some (record { intent_id = 7; invitation_id = 500; to = 9; subject = 0; body = 80 });
}

abbrev jitter : Jitter
jitter = record { rounded = λ x. x }

abbrev environment : Environment
environment = record {
  batch_size = absent;
  concurrency = safe_integer 50;
  lease_ms = absent;
  poll_ms = absent;
  max_attempts = safe_integer 3;
  base_backoff_ms = absent;
  max_backoff_ms = absent;
  provider_timeout_ms = absent;
}

abbrev config : DeliveryWorkerConfig
config = record {
  batch_size = 50;
  concurrency = 50;
  lease_ms = 60_000;
  poll_ms = 1_000;
  max_attempts = 3;
  base_backoff_ms = 1_000;
  max_backoff_ms = 300_000;
  provider_timeout_ms = 30_000;
}

configured : delivery_worker_config environment ≡ some config
unfolding delivery_worker_config integer_setting
configured = refl

too_many_workers :
    delivery_worker_config (record environment { concurrency = safe_integer 51 }) ≡ none
unfolding delivery_worker_config integer_setting
too_many_workers = refl

delivery_worker_config-IsBounded_example : IsBounded jitter 4 config
delivery_worker_config-IsBounded_example =
    delivery_worker_config-IsBounded environment config jitter 4 configured
      (IsJitter.jitters (λ x. (omega arith, omega arith)))

abbrev run : Run
run = record {
  lost = false;
  send = λ channel key payload. none;
  maintained = true;
  completion = answered;
  completed_at = 60;
  report = answered;
  reported_at = 61;
  jitter = jitter;
}

sent : (process_claim cipher config run claim (claimed_row ∷ [])).0 ≡ some delivered_outcome
unfolding process_claim decrypt_payload complete_delivery
sent = refl

-- The completion was committed and its answer was lost: the row is delivered and stale is counted.
lost_answer :
    process_claim cipher config (record run { completion = rejected true }) claim (claimed_row ∷ [])
    ≡ (some stale, (complete_delivery claim 60 (claimed_row ∷ [])).1)
unfolding process_claim decrypt_payload complete_delivery fail_delivery classify_failure
    retry_delay_ms
lost_answer = refl

process_claim-Settled_example :
    Settled cipher config run claim
      (claimed_row ∷ [])
      (process_claim cipher config run claim (claimed_row ∷ [])).0
      (process_claim cipher config run claim (claimed_row ∷ [])).1
process_claim-Settled_example =
    process_claim-Settled cipher config run claim (claimed_row ∷ []) (omega arith)
