-- ===== src/Delivery/Examples.antt =====
-- Two workers and one intent.
use egogero.Common.{ℕ, ◌+◌, ◌≡◌, refl, sym, subst, ◌∙◌, false, none, List, [], ◌∷◌, arith, Memᴰ}
use egogero.Delivery.{
  pending, DeliveryIntent, ClaimedDelivery, ClaimInput, ClaimReadings, ErrorCode, candidates, lease,
  to_claim, bury_exhausted, claim_deliveries, complete, renew_delivery_lease, complete_delivery,
  FailInput, is_terminal, fail_delivery,
}
use egogero.Delivery.Lifecycle.{State, IsFresh, fresh, after_claim, Step, Steps, RowSound, IsSound}
use egogero.Delivery.Lifecycle.Sound.{Steps-IsSound}
use egogero.Delivery.{email}
use egogero.Delivery.Lifecycle.Terminal.{final-kept}
use egogero.Delivery.Fencing.{old_claim-refused}

abbrev intent : DeliveryIntent
intent = record {
  id = 7;
  created_at = 10;
  delivered_at = none;
  status = pending;
  attempts = 0;
  lease_owner = none;
  lease_token = none;
  lease_expires_at = none;
  next_attempt_at = 10;
  last_error = none;
  convite_id = 500;
  channel = email;
  payload = 1;
  key_version = 1;
}

abbrev start : State
start = record { rows = intent ∷ []; issued = [] }

start-IsSound : IsSound 8 start
start-IsSound = record {
  sound = λ r m. elim m [
    | Memᴰ.head e ↦ subst (RowSound 8) (sym e) (RowSound.waits refl (omega arith) refl refl)
    | Memᴰ.tail n ↦ elim n [ ]
  ];
  keyed = λ q r mq mr e. elim mq [
    | Memᴰ.head f ↦ elim mr [ Memᴰ.head g ↦ f ∙ sym g | Memᴰ.tail n ↦ elim n [ ] ]
    | Memᴰ.tail n ↦ elim n [ ]
  ];
  counted = λ r c m none_issued id_eq token_eq. elim none_issued [ ];
}

abbrev input_of : ℕ → ClaimInput
input_of worker = record { worker_id = worker; batch_size = 5; lease_ms = 100; max_attempts = 8 }

abbrev at_time : ℕ → ℕ → ClaimReadings
at_time t uuid = record {
  swept_at = t;
  now = t;
  locked = λ id. false;
  random_uuid = λ id. uuid + id;
}

abbrev first_claim : ClaimedDelivery
first_claim = to_claim (input_of 1) (at_time 20 1_000) intent

abbrev second_claim : ClaimedDelivery
second_claim = to_claim (input_of 2) (at_time 300 2_000) intent

abbrev claimed_once : State
claimed_once = after_claim (input_of 1) (at_time 20 1_000) start

first_claim_returned : claimed_once.issued ≡ first_claim ∷ []
unfolding claim_deliveries bury_exhausted candidates
first_claim_returned = refl

-- The lease of 100 milliseconds from 20 is over at 300.
second_claim_returned :
    (claim_deliveries (input_of 2) (at_time 300 2_000) claimed_once.rows).0 ≡ second_claim ∷ []
unfolding claim_deliveries bury_exhausted candidates
second_claim_returned = refl

to_claimed : Steps 8 start claimed_once
to_claimed =
    Steps.then (Steps.stop start)
      (Step.claims (input_of 1) (at_time 20 1_000) refl (fresh (λ c m i. elim m [ ])))

first_given : Memᴰ first_claim claimed_once.issued
first_given = rw first_claim_returned (Memᴰ.head refl)

abbrev completed : State
completed = record claimed_once { rows = (complete_delivery first_claim 90 claimed_once.rows).1 }

to_completed : Steps 8 start completed
to_completed = Steps.then to_claimed (Step.completes first_claim first_given 90)

Steps-IsSound_example : IsSound 8 completed
Steps-IsSound_example = Steps-IsSound 8 start completed to_completed start-IsSound

abbrev delivered_row : DeliveryIntent
delivered_row = complete 90 (lease (input_of 1) (at_time 20 1_000) intent)

delivered_there : Memᴰ delivered_row completed.rows
unfolding complete_delivery claim_deliveries bury_exhausted candidates
delivered_there = Memᴰ.head refl

abbrev claimed_twice : State
claimed_twice = after_claim (input_of 2) (at_time 300 2_000) completed

uuid_fresh : IsFresh (at_time 300 2_000) claimed_once.issued
uuid_fresh =
    rw first_claim_returned
      (fresh (λ c m i. elim m [ Memᴰ.head e ↦ rw e (omega arith) | Memᴰ.tail n ↦ elim n [ ] ]))

final-kept_example : Memᴰ delivered_row claimed_twice.rows
final-kept_example =
    final-kept 8 completed claimed_twice
      (Steps.then (Steps.stop completed)
        (Step.claims (input_of 2) (at_time 300 2_000) refl uuid_fresh))
      Steps-IsSound_example delivered_row delivered_there refl

second_given :
    Memᴰ second_claim (claim_deliveries (input_of 2) (at_time 300 2_000) claimed_once.rows).0
second_given = rw second_claim_returned (Memᴰ.head refl)

abbrev retaken : List DeliveryIntent
retaken = (claim_deliveries (input_of 2) (at_time 300 2_000) claimed_once.rows).1

abbrev report : FailInput
report = record {
  code = ErrorCode.provider_timeout;
  permanent = false;
  max_attempts = 8;
  retry_delay_ms = 50;
}

old_claim-refused_example :
    (renew_delivery_lease first_claim 310 100 retaken ≡ (false, retaken))
    × (complete_delivery first_claim 310 retaken ≡ (false, retaken))
    × (fail_delivery first_claim report 310 retaken
        ≡ (false, is_terminal first_claim report, retaken))
old_claim-refused_example =
    old_claim-refused 8 claimed_once (Steps-IsSound 8 start claimed_once to_claimed start-IsSound)
      (input_of 2) (at_time 300 2_000) refl uuid_fresh first_claim first_given second_claim
      second_given refl 310 100 report
