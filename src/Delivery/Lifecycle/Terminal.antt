-- ===== src/Delivery/Lifecycle/Terminal.antt =====
-- What is delivered or given up stays so.
use egogero.Common.{
  ℕ, max, ◌≡◌, refl, inl, inr, Bool, true, false, arith, ◌==◌, ==_iff, Bool-cases, Memᴰ,
}
use egogero.Delivery.{
  DeliveryStatus, pending, processing, retry, delivered, dead_letter, DeliveryIntent,
  ClaimedDelivery, ClaimInput, ClaimReadings, is_processing, is_waiting, candidates, among, lease,
  bury_exhausted, claim_deliveries, holds_lease, extend_lease, complete, renew_delivery_lease,
  complete_delivery, fail_delivery,
}
use egogero.Common.Members.{any-mem}
use egogero.Delivery.Table.{candidates-mem, mem-update}
use egogero.Delivery.Lifecycle.{State, Step, Steps, IsSound}
use egogero.Delivery.Lifecycle.Sound.{bury_exhausted_none, Steps-IsSound}

-- The two statuses that no statement leaves.
abbrev pub is_final : DeliveryStatus → Bool
is_final delivered = true
is_final dead_letter = true
is_final _ = false

final_idle :
    (s : DeliveryStatus) → is_final s ≡ true → (is_processing s ≡ false) × (is_waiting s ≡ false)
final_idle pending h = absurd (cc)
final_idle processing h = absurd (cc)
final_idle retry h = absurd (cc)
final_idle delivered h = (refl, refl)
final_idle dead_letter h = (refl, refl)

not_held :
    (c : ClaimedDelivery) (r : DeliveryIntent) → is_final r.status ≡ true → holds_lease c r ≡ false
not_held c r h = rw (final_idle r.status h).0 (ground arith)

module _ (max : ℕ) (s : State) (good : IsSound max s) (r : DeliveryIntent) (there : Memᴰ r s.rows)
    (final : is_final r.status ≡ true) where
  not_chosen :
      (input : ClaimInput) (at : ClaimReadings) → among (candidates input at s.rows) r ≡ false
  not_chosen input at = elim (Bool-cases (among (candidates input at s.rows) r)) [
    | inl hit ↦
        (let (d, md, e) = any-mem (λ d. d.id == r.id) (candidates input at s.rows) hit in
          let (n, ready) = candidates-mem input at s.rows md in
          let same : d ≡ r = good.keyed d r n there ((==_iff d.id r.id).0 e) in
          let (idle, settled) = final_idle r.status final in
          ground (arith, idle, settled, rw same at ready))
    | inr miss ↦ miss
  ]

  step_kept : (t : State) → Step max s t → Memᴰ r t.rows
  unfolding claim_deliveries renew_delivery_lease complete_delivery fail_delivery
  step_kept t (Step.claims input at policy unused) =
      let swept : bury_exhausted input.max_attempts at.swept_at s.rows ≡ s.rows =
        rw policy (bury_exhausted_none max at.swept_at s good) in
      rw swept (
        mem-update (among (candidates input at s.rows)) (lease input at) s.rows there
          (not_chosen input at))
  step_kept t (Step.renews c given now lease_ms) =
      mem-update (holds_lease c) (extend_lease now lease_ms) s.rows there (not_held c r final)
  step_kept t (Step.completes c given now) =
      mem-update (holds_lease c) (complete now) s.rows there (not_held c r final)
  step_kept t (Step.fails c given input policy now) =
      mem-update (holds_lease c) _ s.rows there (not_held c r final)

-- From a sound state on, a row that is delivered or dead stands in every later state unchanged:
-- it is not claimed, completed or failed again by any worker.
pub final-kept :
    (max : ℕ) (s t : State)
    → Steps max s t
    → IsSound max s
    → (r : DeliveryIntent) → Memᴰ r s.rows
    → is_final r.status ≡ true
    → Memᴰ r t.rows
final-kept max s t (Steps.stop same) good r there final = there
final-kept max s t (Steps.then {t = u} before_it last) good r there final =
    step_kept max u (Steps-IsSound max s u before_it good) r
      (final-kept max s u before_it good r there final) final t last
