-- ===== src/Delivery/Worker/Met.antt =====
-- What a turn of runDeliveryBatch can end with, by what its run met: the outcomes and the tables.
use egogero.Common.{
  ◌+◌, ◌≤◌, ◌<◌, ◌≡◌, ◌≢◌, ◌⊎◌, Bool, true, false, ◌||◌, leb, Option, none, some, List, update,
  count,
}
use egogero.Delivery.{
  DeliveryIntent, ClaimedDelivery, holds_lease, complete, fail, ErrorCode, provider_transient,
  provider_permanent, provider_unavailable, provider_timeout,
}
use egogero.Delivery.Worker.{
  Cipher, DeliveryWorkerConfig, Run, answered, rejected, Outcome, delivered_outcome, retry_outcome,
  dead_letter_outcome, deferred, stale, Payload, Failure, unavailable, timed_out, permanent,
  aborted, unknown, threw, gave, retry_delay_ms, decrypt_payload,
}

-- What is reported of an error: its code, and whether it is final. An abort is not reported.
pub data Reports : Failure → ErrorCode → Bool → Type 0 where
  no_provider : Reports unavailable provider_unavailable false
  deadline : Reports timed_out provider_timeout false
  coded : (code : ErrorCode) → Reports (permanent (some code)) code true
  uncoded : Reports (permanent none) provider_permanent true
  unrecognised : Reports unknown provider_transient false

module _ (cipher : Cipher) (config : DeliveryWorkerConfig) (run : Run)
    (claim : ClaimedDelivery) where
  -- How the work on the payload ends: it cannot be read, or the provider answers.
  pub data Sent : Option Failure → Type 0 where
    unreadable :
        (failure : Failure) → decrypt_payload cipher claim ≡ threw failure → Sent (some failure)
    provider :
        (payload : Payload) (answer : Option Failure)
        → decrypt_payload cipher claim ≡ gave payload
        → run.send claim.channel claim.id payload ≡ answer
        → Sent answer

  -- The error that is reported on the table as it was: one of the payload or the provider, or that
  -- of a completion that was not committed.
  pub data Caught : Failure → Type 0 where
    sending : (failure : Failure) → failure ≢ aborted → Sent (some failure) → Caught failure
    completing : Sent none → run.completion ≡ rejected false → Caught unknown

  abbrev failed : Bool → ErrorCode → DeliveryIntent → DeliveryIntent
  failed terminal code =
      fail terminal run.reported_at (retry_delay_ms run.jitter (claim.attempts + 1) config) code

  -- The end of a run that had its lease at the start: the outcome and the table, for the table
  -- before.
  pub data Worked (rows : List DeliveryIntent) : Option Outcome → List DeliveryIntent → Type 0 where
    success :
        Sent none
        → run.maintained ≡ true
        → run.completion ≡ answered
        → count (holds_lease claim) rows ≡ 1
        → Worked rows
            (some delivered_outcome)
            (update (holds_lease claim) (complete run.completed_at) rows)
    late :
        Sent none
        → run.maintained ≡ true
        → run.completion ≡ answered
        → count (holds_lease claim) rows ≡ 0
        → Worked rows (some stale) rows
    unmaintained : Sent none → run.maintained ≡ false → Worked rows (some stale) rows
    put_off : Sent (some aborted) → Worked rows (some deferred) rows
    dropped :
        (failure : Failure)
        → Caught failure
        → run.maintained ≡ false
        → Worked rows (some stale) rows
    again :
        (failure : Failure) (code : ErrorCode)
        → Caught failure
        → Reports failure code false
        → run.maintained ≡ true
        → run.report ≡ answered
        → count (holds_lease claim) rows ≡ 1
        → claim.attempts + 1 < config.max_attempts
        → retry_delay_ms run.jitter (claim.attempts + 1) config ≤ config.max_backoff_ms
        → Worked rows (some retry_outcome) (update (holds_lease claim) (failed false code) rows)
    dead_end :
        (failure : Failure) (code : ErrorCode) (final : Bool)
        → Caught failure
        → Reports failure code final
        → run.maintained ≡ true
        → run.report ≡ answered
        → count (holds_lease claim) rows ≡ 1
        → (final ≡ true) ⊎ (config.max_attempts ≤ claim.attempts + 1)
        → Worked rows
            (some dead_letter_outcome)
            (update (holds_lease claim) (failed true code) rows)
    not_ours :
        (failure : Failure)
        → Caught failure
        → run.maintained ≡ true
        → run.report ≡ answered
        → count (holds_lease claim) rows ≡ 0
        → Worked rows (some stale) rows
    unknown_commit :
        Sent none
        → run.maintained ≡ true
        → run.completion ≡ rejected true
        → run.report ≡ answered
        → Worked rows (some stale) (update (holds_lease claim) (complete run.completed_at) rows)
    broken_commit :
        (committed : Bool)
        → Sent none
        → run.maintained ≡ true
        → run.completion ≡ rejected true
        → run.report ≡ rejected committed
        → Worked rows none (update (holds_lease claim) (complete run.completed_at) rows)
    broken :
        (failure : Failure)
        → Caught failure
        → run.maintained ≡ true
        → run.report ≡ rejected false
        → Worked rows none rows
    broken_report :
        (failure : Failure) (code : ErrorCode) (final : Bool)
        → Caught failure
        → Reports failure code final
        → run.maintained ≡ true
        → run.report ≡ rejected true
        → Worked rows none (
            update
              (holds_lease claim)
              (failed (final || leb config.max_attempts (claim.attempts + 1)) code)
              rows)

  -- A claim whose lease is lost before its turn is passed over; the others are worked on.
  pub data Settled (rows : List DeliveryIntent)
      : Option Outcome → List DeliveryIntent → Type 0 where
    lost_before : run.lost ≡ true → Settled rows (some stale) rows
    worked :
        (outcome : Option Outcome) (left : List DeliveryIntent)
        → run.lost ≡ false
        → Worked rows outcome left
        → Settled rows outcome left
