-- ===== src/Delivery/Worker/Totals.antt =====
-- The counts of a batch of runDeliveryBatch add up.
use egogero.Common.{ℕ, ◌+◌, ◌≡◌, refl, subst, Option, none, some, List, [], ◌∷◌, arith, length}
use mathlib.Core.Option.{some-injective}
use egogero.Delivery.{DeliveryIntent, ClaimedDelivery}
use egogero.Delivery.{DeliveryChannel, email, sms}
use egogero.Delivery.Worker.{
  Cipher, DeliveryWorkerConfig, Run, Outcome, delivered_outcome, retry_outcome, dead_letter_outcome,
  deferred, stale, Outcomes, process_claim, process_all, tally, tally_channel, counted,
}

abbrev total : Outcomes → ℕ
total o = o.delivered + o.retry + o.dead_letter + o.deferred + o.stale

total-tally : (what : Outcome) (o : Outcomes) → total (tally what o) ≡ total o + 1
total-tally delivered_outcome o = omega arith
total-tally retry_outcome o = omega arith
total-tally dead_letter_outcome o = omega arith
total-tally deferred o = omega arith
total-tally stale o = omega arith

tally-channels :
    (what : Outcome) (o : Outcomes) → (tally what o).email + (tally what o).sms ≡ o.email + o.sms
tally-channels delivered_outcome o = refl
tally-channels retry_outcome o = refl
tally-channels dead_letter_outcome o = refl
tally-channels deferred o = refl
tally-channels stale o = refl

channel-total :
    (channel : DeliveryChannel) (o : Outcomes)
    → (total (tally_channel channel o) ≡ total o)
      × ((tally_channel channel o).email + (tally_channel channel o).sms ≡ o.email + o.sms + 1)
channel-total email o = (refl, omega arith)
channel-total sms o = (refl, omega arith)

counted-total :
    (channel : DeliveryChannel) (what : Option Outcome) (rest : Option Outcomes) (n : ℕ)
    (o : Outcomes)
    → ((p : Outcomes) → rest ≡ some p → (total p ≡ n) × (p.email + p.sms ≡ n))
    → counted channel what rest ≡ some o
    → (total o ≡ n + 1) × (o.email + o.sms ≡ n + 1)
counted-total channel none rest n o h e = absurd (cc)
counted-total channel (some what) none n o h e = absurd (cc)
counted-total channel (some what) (some p) n o h e =
    let (all_counted, all_channels) = h p refl in
    let (same_total, same_channels) = channel-total channel (tally what p) in
    subst (λ o. (total o ≡ n + 1) × (o.email + o.sms ≡ n + 1)) (some-injective _ _ e)
      (
        omega (arith, same_total, total-tally what p, all_counted),
        omega (arith, same_channels, tally-channels what p, all_channels),
      )

-- Where no error leaves the loop, every claim of a batch is counted under one outcome and under one
-- channel.
pub process_all-total :
    (cipher : Cipher) (config : DeliveryWorkerConfig)
    (work : List (ClaimedDelivery × Run × List DeliveryIntent)) (o : Outcomes)
    → process_all cipher config work ≡ some o
    → (total o ≡ length work) × (o.email + o.sms ≡ length work)
unfolding process_all
process_all-total cipher config [] o e =
    subst (λ o. (total o ≡ 0) × (o.email + o.sms ≡ 0)) (some-injective _ _ e) (refl, refl)
process_all-total cipher config ((claim, run, rows) ∷ rest) o e =
    let (all_counted, all_channels) =
      counted-total claim.channel (process_claim cipher config run claim rows).0
        (process_all cipher config rest) (length rest) o (process_all-total cipher config rest) e in
    (omega (arith, all_counted), omega (arith, all_channels))
