-- ===== src/Delivery/Worker.antt =====
-- What the worker does with the claims of a batch (src/jobs/deliver-invitations.ts:
-- deliveryWorkerConfig, decryptPayload, classifyFailure, retryDelayMs, runDeliveryBatch).
pub mod Met
pub mod Settled
pub mod Totals
pub mod Config
mod Examples
use egogero.Common.{
  ℕ, zero, suc, ◌+◌, ◌-◌, ◌*◌, ◌/◌, ◌%◌, ◌^◌, ◌≤◌, ◌<◌, min, max, ◌≡◌, refl, sym, ap, subst, ◌∙◌,
  ◌≢◌, ◌↔◌, ◌⊎◌, inl, inr, Bool, true, false, not, ◌&&◌, ◌||◌, Option, none, some, List, [], ◌∷◌,
  ◌++◌, map, arith, ltb, leb, ◌==◌, if◌then◌else◌, ==_iff, ==_refl, ==_sym, Bool-cases,
  Option-cases, is, is_none, after, length, length-append, select, first, update, count, any, all,
  head?, count-append, count-le-length, contains, All, Memᴰ, first-mem, first_of-count, any-first,
  count-any, count-mem,
}
use egogero.Delivery.{
  DeliveryChannel, email, sms, DeliveryIntent, ClaimedDelivery, ErrorCode, provider_transient,
  provider_permanent, provider_unavailable, provider_timeout, payload_invalid,
  payload_decryption_failed, FailInput, complete_delivery, fail_delivery,
}

abbrev pub current_key_version : ℕ
current_key_version = 1

-- A decrypted payload: identifiers, and the lengths of its texts, 0 for one that is no text.
pub record Payload : Type 0 where
  pub intent_id : ℕ
  pub invitation_id : ℕ
  pub to : ℕ
  pub subject : ℕ
  pub body : ℕ

-- The AES-GCM cipher under the worker's secret, bound to the claim; none where the tag, the text
-- or its JSON is not right.
pub record Cipher : Type 0 where
  pub decipher : ClaimedDelivery → Option Payload

abbrev pub has_subject : DeliveryChannel → Payload → Bool
has_subject email payload = not (payload.subject == 0)
has_subject sms payload = true

abbrev pub fits_claim : ClaimedDelivery → Payload → Bool
fits_claim claim payload =
    payload.intent_id == claim.id
    && payload.invitation_id == claim.convite_id
    && not (payload.to == 0)
    && not (payload.body == 0)
    && has_subject claim.channel payload

pub data Failure : Type 0 where
  unavailable timed_out aborted unknown : Failure
  permanent : Option ErrorCode → Failure

-- What a part of the work gives, or why it throws.
pub data Attempt (A : Type 0) : Type 0 where
  threw : Failure → Attempt A
  gave : A → Attempt A

abbrev opened : ClaimedDelivery → Option Payload → Attempt Payload
opened claim none = threw (permanent (some payload_decryption_failed))
opened claim (some payload) =
    if fits_claim claim payload then gave payload else threw (permanent (some payload_invalid))

pub decrypt_payload : Cipher → ClaimedDelivery → Attempt Payload
decrypt_payload cipher claim =
    if not (claim.key_version == current_key_version)
    then threw (permanent (some payload_decryption_failed))
    else opened claim (cipher.decipher claim)

-- `{ code, permanent }`; a permanent error whose message is no code is provider_permanent.
unfoldable pub classify_failure : Failure → ErrorCode × Bool
classify_failure unavailable = (provider_unavailable, false)
classify_failure timed_out = (provider_timeout, false)
classify_failure (permanent (some code)) = (code, true)
classify_failure (permanent none) = (provider_permanent, true)
classify_failure aborted = (provider_transient, false)
classify_failure unknown = (provider_transient, false)

pub record DeliveryWorkerConfig : Type 0 where
  pub batch_size : ℕ
  pub concurrency : ℕ
  pub lease_ms : ℕ
  pub poll_ms : ℕ
  pub max_attempts : ℕ
  pub base_backoff_ms : ℕ
  pub max_backoff_ms : ℕ
  pub provider_timeout_ms : ℕ

-- `Math.round(exponential * (0.8 + random() * 0.4))`.
pub record Jitter : Type 0 where
  pub rounded : ℕ → ℕ

unfoldable pub retry_delay_ms : Jitter → ℕ → DeliveryWorkerConfig → ℕ
retry_delay_ms jitter attempt config =
    min config.max_backoff_ms (jitter.rounded (config.base_backoff_ms * 2 ^ (attempt - 1)))

pub data Outcome : Type 0 where
  delivered_outcome retry_outcome dead_letter_outcome deferred stale : Outcome

-- How a statement ends for the worker: with an answer, or with an error after which it may have been
-- committed all the same.
pub data Statement : Type 0 where
  answered : Statement
  rejected : (committed : Bool) → Statement

-- What the run of one claim meets: whether its lease was lost before it started, what the provider
-- does, whether the lease was maintained until then, how the statements of completeDelivery and
-- failDelivery end, with their clocks, and the jitter.
pub record Run : Type 0 where
  pub lost : Bool
  pub send : DeliveryChannel → ℕ → Payload → Option Failure
  pub maintained : Bool
  pub completion : Statement
  pub completed_at : ℕ
  pub report : Statement
  pub reported_at : ℕ
  pub jitter : Jitter

-- The outcome that is counted, or none where an error leaves the loop, and the table.
abbrev pub Turn : Type 0
Turn = Option Outcome × List DeliveryIntent

abbrev failure_outcome : (updated terminal : Bool) → Outcome
failure_outcome false terminal = stale
failure_outcome true terminal = if terminal then dead_letter_outcome else retry_outcome

-- An error of failDelivery is not caught.
abbrev pub after_failure :
    Statement → Bool × Bool × List DeliveryIntent → List DeliveryIntent → Turn
after_failure answered (updated, terminal, written) rows =
    (some (failure_outcome updated terminal), written)
after_failure (rejected true) (updated, terminal, written) rows = (none, written)
after_failure (rejected false) (updated, terminal, written) rows = (none, rows)

abbrev pub fail_input : DeliveryWorkerConfig → Run → ClaimedDelivery → Failure → FailInput
fail_input config run claim failure = record {
  code = (classify_failure failure).0;
  permanent = (classify_failure failure).1;
  max_attempts = config.max_attempts;
  retry_delay_ms = retry_delay_ms run.jitter (claim.attempts + 1) config;
}

-- The `catch` of the loop.
abbrev pub give_back :
    DeliveryWorkerConfig → Run → ClaimedDelivery → Failure → List DeliveryIntent → Turn
give_back config run claim aborted rows = (some deferred, rows)
give_back config run claim failure rows =
    if run.maintained
    then after_failure run.report
        (fail_delivery claim (fail_input config run claim failure) run.reported_at rows) rows
    else (some stale, rows)

abbrev pub settle : Bool × List DeliveryIntent → Turn
settle (true, rows) = (some delivered_outcome, rows)
settle (false, rows) = (some stale, rows)

-- completeDelivery stands in the `try`: its error goes to the `catch`, on the table that it left.
abbrev pub after_completion :
    DeliveryWorkerConfig → Run → ClaimedDelivery → Statement → List DeliveryIntent → Turn
after_completion config run claim answered rows =
    settle (complete_delivery claim run.completed_at rows)
after_completion config run claim (rejected true) rows =
    give_back config run claim unknown (complete_delivery claim run.completed_at rows).1
after_completion config run claim (rejected false) rows = give_back config run claim unknown rows

abbrev pub after_send :
    DeliveryWorkerConfig → Run → ClaimedDelivery → Option Failure → List DeliveryIntent → Turn
after_send config run claim (some failure) rows = give_back config run claim failure rows
after_send config run claim none rows =
    if run.maintained
    then after_completion config run claim run.completion rows
    else (some stale, rows)

abbrev pub with_payload :
    DeliveryWorkerConfig → Run → ClaimedDelivery → Attempt Payload → List DeliveryIntent → Turn
with_payload config run claim (threw failure) rows = give_back config run claim failure rows
with_payload config run claim (gave payload) rows =
    after_send config run claim (run.send claim.channel claim.id payload) rows

-- One turn of `processNext`.
pub process_claim :
    Cipher → DeliveryWorkerConfig → Run → ClaimedDelivery → List DeliveryIntent → Turn
process_claim cipher config run claim rows =
    if run.lost
    then (some stale, rows)
    else with_payload config run claim (decrypt_payload cipher claim) rows

pub record Outcomes : Type 0 where
  pub delivered : ℕ
  pub retry : ℕ
  pub dead_letter : ℕ
  pub deferred : ℕ
  pub stale : ℕ
  pub email : ℕ
  pub sms : ℕ

abbrev no_outcomes : Outcomes
no_outcomes = record {
  delivered = 0;
  retry = 0;
  dead_letter = 0;
  deferred = 0;
  stale = 0;
  email = 0;
  sms = 0;
}

abbrev pub tally : Outcome → Outcomes → Outcomes
tally delivered_outcome o = record o { delivered = o.delivered + 1 }
tally retry_outcome o = record o { retry = o.retry + 1 }
tally dead_letter_outcome o = record o { dead_letter = o.dead_letter + 1 }
tally deferred o = record o { deferred = o.deferred + 1 }
tally stale o = record o { stale = o.stale + 1 }

abbrev pub tally_channel : DeliveryChannel → Outcomes → Outcomes
tally_channel email o = record o { email = o.email + 1 }
tally_channel sms o = record o { sms = o.sms + 1 }

abbrev pub counted : DeliveryChannel → Option Outcome → Option Outcomes → Option Outcomes
counted channel (some what) (some o) = some (tally_channel channel (tally what o))
counted channel _ _ = none

-- The claims in the order in which their statements reach the table, with what each run meets and
-- the table that other workers have left when it does. An error that leaves the loop ends the batch
-- with no counts.
pub process_all :
    Cipher
    → DeliveryWorkerConfig
    → List (ClaimedDelivery × Run × List DeliveryIntent)
    → Option Outcomes
process_all cipher config [] = some no_outcomes
process_all cipher config ((claim, run, rows) ∷ rest) =
    counted claim.channel (process_claim cipher config run claim rows).0
      (process_all cipher config rest)
