-- ===== src/Delivery/Worker/Settled.antt =====
-- The outcome of a claim is what its statement did to the table.
use egogero.Common.{
  ℕ, ◌+◌, ◌≤◌, ◌≡◌, refl, ap, subst, inl, inr, Bool, true, false, Option, none, some, List, [], ◌∷◌,
  arith, ◌==◌, if◌then◌else◌, Bool-cases, update, count,
}
use egogero.Delivery.{
  DeliveryIntent, ClaimedDelivery, holds_lease, complete, fail, complete_delivery, is_terminal,
  fail_delivery,
}
use egogero.Delivery.Worker.{
  Cipher, DeliveryWorkerConfig, Run, Statement, answered, rejected, Turn, stale, Payload, Failure,
  unavailable, timed_out, aborted, unknown, permanent, Attempt, threw, gave, classify_failure,
  retry_delay_ms, fail_input, decrypt_payload, after_failure, give_back, settle, after_completion,
  after_send, with_payload, process_claim,
}
use egogero.Delivery.Worker.Met.{Reports, Sent, Caught, Worked, Settled}

update_of-count :
    (p : DeliveryIntent → Bool) (f : DeliveryIntent → DeliveryIntent) (rows : List DeliveryIntent)
    → count p rows ≡ 0
    → update p f rows ≡ rows
update_of-count p f [] h = refl
update_of-count p f (r ∷ rows) h = elim (Bool-cases (p r)) [
  | inl hit ↦ ground arith
  | inr miss ↦ rw miss (ap (λ rest. r ∷ rest) (update_of-count p f rows (ground arith)))
]

-- A completed row holds no lease.
completed-released :
    (claim : ClaimedDelivery) (now : ℕ) (rows : List DeliveryIntent)
    → count (holds_lease claim) (update (holds_lease claim) (complete now) rows) ≡ 0
completed-released claim now [] = refl
completed-released claim now (r ∷ rows) = elim (Bool-cases (holds_lease claim r)) [
  | inl hit ↦ rw hit (ground (arith, completed-released claim now rows))
  | inr miss ↦ rw (miss, miss) (omega (arith, completed-released claim now rows))
]

classify_failure-Reports :
    (cipher : Cipher) (config : DeliveryWorkerConfig) (run : Run) (claim : ClaimedDelivery)
    (failure : Failure)
    → Caught cipher config run claim failure
    → Reports failure (classify_failure failure).0 (classify_failure failure).1
unfolding classify_failure
classify_failure-Reports cipher config run claim unavailable caught = Reports.no_provider
classify_failure-Reports cipher config run claim timed_out caught = Reports.deadline
classify_failure-Reports cipher config run claim (permanent (some code)) caught = Reports.coded code
classify_failure-Reports cipher config run claim (permanent none) caught = Reports.uncoded
classify_failure-Reports cipher config run claim unknown caught = Reports.unrecognised
classify_failure-Reports cipher config run claim aborted (Caught.sending _ other sent) =
    absurd (other refl)

module _ (cipher : Cipher) (config : DeliveryWorkerConfig) (run : Run) (claim : ClaimedDelivery)
    (rows : List DeliveryIntent) (key : count (holds_lease claim) rows ≤ 1) where
  abbrev IsWorked : Turn → Type 0
  IsWorked turn = Worked cipher config run claim rows turn.0 turn.1

  -- No lease is held where the count is not one.
  unchanged :
      (f : DeliveryIntent → DeliveryIntent)
      → (count (holds_lease claim) rows == 1) ≡ false
      → update (holds_lease claim) f rows ≡ rows
  unchanged f other = update_of-count (holds_lease claim) f rows (ground (arith, key, other))

  settle-IsWorked :
      Sent cipher config run claim none
      → run.maintained ≡ true
      → run.completion ≡ answered
      → IsWorked (settle (complete_delivery claim run.completed_at rows))
  unfolding complete_delivery
  settle-IsWorked sent kept done = elim (Bool-cases (count (holds_lease claim) rows == 1)) [
    | inl one ↦ rw one (Worked.success sent kept done (ground (arith, one)))
    | inr other ↦
        rw (other, unchanged (complete run.completed_at) other)
          (Worked.late sent kept done (ground (arith, key, other)))
  ]

  report-IsWorked :
      (failure : Failure)
      → Caught cipher config run claim failure
      → run.maintained ≡ true
      → (how : Statement) → run.report ≡ how
      → IsWorked (
          after_failure how
            (fail_delivery claim (fail_input config run claim failure) run.reported_at rows)
            rows)
  unfolding fail_delivery retry_delay_ms
  report-IsWorked failure caught kept (rejected true) e =
      Worked.broken_report failure (classify_failure failure).0 (classify_failure failure).1 caught
        (classify_failure-Reports cipher config run claim failure caught) kept e
  report-IsWorked failure caught kept (rejected false) e = Worked.broken failure caught kept e
  report-IsWorked failure caught kept answered e =
      let reports = classify_failure-Reports cipher config run claim failure caught in
      elim (Bool-cases (count (holds_lease claim) rows == 1)) [
        | inr other ↦
            rw
              (
                other,
                unchanged
                    (fail (is_terminal claim (fail_input config run claim failure)) run.reported_at
                      (retry_delay_ms run.jitter (claim.attempts + 1) config)
                      (classify_failure failure).0)
                    other,
              )
              (Worked.not_ours failure caught kept e (ground (arith, key, other)))
        | inl one ↦ elim (Bool-cases (is_terminal claim (fail_input config run claim failure))) [
          | inl terminal ↦
              rw (one, terminal)
                (Worked.dead_end failure (classify_failure failure).0 (classify_failure failure).1
                  caught reports kept e (ground (arith, one))
                  (elim (Bool-cases (classify_failure failure).1) [
                    | inl final ↦ inl final
                    | inr passing ↦ inr (ground (arith, terminal, passing))
                  ]))
          | inr more ↦
              let passing : (classify_failure failure).1 ≡ false = ground (arith, more) in
              rw (one, more)
                (Worked.again failure (classify_failure failure).0 caught
                  (subst (λ final. Reports failure (classify_failure failure).0 final) passing
                    reports)
                  kept e (ground (arith, one)) (ground (arith, more)) (omega arith))
        ]
      ]

  -- Where the error is not that of an abort.
  reported-IsWorked :
      (failure : Failure)
      → Caught cipher config run claim failure
      → IsWorked (
          if run.maintained
          then after_failure run.report
              (fail_delivery claim (fail_input config run claim failure) run.reported_at rows)
              rows
          else (some stale, rows))
  reported-IsWorked failure caught = elim (Bool-cases run.maintained) [
    | inl kept ↦ simp kept (report-IsWorked failure caught kept run.report refl)
    | inr lost ↦ simp lost (Worked.dropped failure caught lost)
  ]

  give_back-IsWorked :
      (failure : Failure)
      → Sent cipher config run claim (some failure)
      → IsWorked (give_back config run claim failure rows)
  give_back-IsWorked aborted sent = Worked.put_off sent
  give_back-IsWorked unavailable sent =
      reported-IsWorked unavailable (Caught.sending unavailable (λ e. cc) sent)
  give_back-IsWorked timed_out sent =
      reported-IsWorked timed_out (Caught.sending timed_out (λ e. cc) sent)
  give_back-IsWorked unknown sent =
      reported-IsWorked unknown (Caught.sending unknown (λ e. cc) sent)
  give_back-IsWorked (permanent code) sent =
      reported-IsWorked (permanent code) (Caught.sending (permanent code) (λ e. cc) sent)

  committed-IsWorked :
      Sent cipher config run claim none
      → run.maintained ≡ true
      → run.completion ≡ rejected true
      → (how : Statement) → run.report ≡ how
      → IsWorked (
          after_failure how
            (fail_delivery claim
              (fail_input config run claim unknown)
              run.reported_at
              (complete_delivery claim run.completed_at rows).1)
            (complete_delivery claim run.completed_at rows).1)
  unfolding fail_delivery complete_delivery
  committed-IsWorked sent kept done how e =
      let written = update (holds_lease claim) (complete run.completed_at) rows in
      let free = completed-released claim run.completed_at rows in
      let same =
        update_of-count (holds_lease claim)
          (fail (is_terminal claim (fail_input config run claim unknown)) run.reported_at
            (retry_delay_ms run.jitter (claim.attempts + 1) config) (classify_failure unknown).0)
          written free in
      elim how
          as (λ how.
            run.report ≡ how
            → IsWorked (
                after_failure how
                  (fail_delivery claim (fail_input config run claim unknown) run.reported_at
                    written)
                  written)) [
                    | answered ↦ λ e. rw (free, same) (Worked.unknown_commit sent kept done e)
                    | rejected true ↦ λ e. rw same (Worked.broken_commit true sent kept done e)
                    | rejected false ↦ λ e. Worked.broken_commit false sent kept done e
                  ]
        e

  completion-IsWorked :
      Sent cipher config run claim none
      → run.maintained ≡ true
      → (how : Statement) → run.completion ≡ how
      → IsWorked (after_completion config run claim how rows)
  completion-IsWorked sent kept answered e = settle-IsWorked sent kept e
  completion-IsWorked sent kept (rejected true) e =
      simp kept (committed-IsWorked sent kept e run.report refl)
  completion-IsWorked sent kept (rejected false) e =
      reported-IsWorked unknown (Caught.completing sent e)

  after_send-IsWorked :
      (answer : Option Failure)
      → Sent cipher config run claim answer
      → IsWorked (after_send config run claim answer rows)
  after_send-IsWorked (some failure) sent = give_back-IsWorked failure sent
  after_send-IsWorked none sent = elim (Bool-cases run.maintained) [
    | inl kept ↦ simp kept (completion-IsWorked sent kept run.completion refl)
    | inr lost ↦ simp lost (Worked.unmaintained sent lost)
  ]

  with_payload-IsWorked :
      (payload : Attempt Payload)
      → decrypt_payload cipher claim ≡ payload
      → IsWorked (with_payload config run claim payload rows)
  with_payload-IsWorked (threw failure) e = give_back-IsWorked failure (Sent.unreadable failure e)
  with_payload-IsWorked (gave payload) e =
      after_send-IsWorked (run.send claim.channel claim.id payload)
        (Sent.provider payload (run.send claim.channel claim.id payload) e refl)

-- What is counted for a claim is what its run met and did to the table. Delivered: the payload was
-- read, sent and completed by an answered statement under a held lease. Retry and dead letter: the
-- row under the lease holds the code of the error that was met, the retry with a backoff within the
-- policy, an error that is not permanent and attempts left, the dead letter after a permanent error
-- or the last attempt. Deferred: the send was aborted, and nothing changed. Stale: the lease was
-- gone and nothing changed, or a completion failed that had been committed, and the row is
-- delivered. Nothing is counted where the report of the error fails. One row has the claim's lease
-- at most.
pub process_claim-Settled :
    (cipher : Cipher) (config : DeliveryWorkerConfig) (run : Run) (claim : ClaimedDelivery)
    (rows : List DeliveryIntent)
    → count (holds_lease claim) rows ≤ 1
    → Settled cipher config run claim rows
        (process_claim cipher config run claim rows).0
        (process_claim cipher config run claim rows).1
unfolding process_claim
process_claim-Settled cipher config run claim rows key = elim (Bool-cases run.lost) [
  | inl gone ↦ simp gone (Settled.lost_before gone)
  | inr ours ↦ simp ours (
      Settled.worked _ _ ours (
        with_payload-IsWorked cipher config run claim rows key (decrypt_payload cipher claim) refl))
]
