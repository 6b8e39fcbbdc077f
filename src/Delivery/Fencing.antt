-- ===== src/Delivery/Fencing.antt =====
-- A worker whose lease was taken over can no longer change the row.
use egogero.Common.{
  ℕ, ◌≡◌, refl, sym, ap, subst, ◌∙◌, inl, inr, Bool, true, false, List, map, arith, ◌==◌,
  Bool-cases, select, update, any, Memᴰ,
}
use egogero.Delivery.{
  DeliveryIntent, ClaimedDelivery, ClaimInput, ClaimReadings, candidates, among, lease, to_claim,
  bury_exhausted, claim_deliveries, holds_lease, extend_lease, complete, where_held,
  renew_delivery_lease, complete_delivery, FailInput, is_terminal, fail_delivery,
}
use egogero.Common.Members.{update-mem, select-mem, map-mem}
use egogero.Delivery.Table.{count-none, update-none}
use egogero.Delivery.Lifecycle.{State, IsFresh, fresh, IsSound}
use egogero.Delivery.Lifecycle.Sound.{holds_lease_inv, bury_exhausted_none}

where_held-refused :
    (c : ClaimedDelivery) (f : DeliveryIntent → DeliveryIntent) (rows : List DeliveryIntent)
    → ((r : DeliveryIntent) → Memᴰ r rows → holds_lease c r ≡ false)
    → where_held c f rows ≡ (false, rows)
where_held-refused c f rows h =
    rw (count-none (holds_lease c) rows h, update-none (holds_lease c) f rows h) refl

module _ (max : ℕ) (s : State) (good : IsSound max s) (input : ClaimInput) (at : ClaimReadings)
    (policy : input.max_attempts ≡ max) (unused : IsFresh at s.issued) (old : ClaimedDelivery)
    (given : Memᴰ old s.issued) (new : ClaimedDelivery)
    (taken_over : Memᴰ new (claim_deliveries input at s.rows).0) (same_row : new.id ≡ old.id) where
  claimed : claim_deliveries input at s.rows ≡ (
    map (to_claim input at) (select (among (candidates input at s.rows)) s.rows),
    update (among (candidates input at s.rows)) (lease input at) s.rows,
  )
  unfolding claim_deliveries
  claimed =
      let swept : bury_exhausted input.max_attempts at.swept_at s.rows ≡ s.rows =
        rw policy (bury_exhausted_none max at.swept_at s good) in
      rw swept refl

  -- The row of the old claim is among those that were chosen.
  chosen_again : (r : DeliveryIntent) → r.id ≡ old.id → among (candidates input at s.rows) r ≡ true
  chosen_again r e =
      let (q, mq, eq) =
        map-mem (to_claim input at) (select (among (candidates input at s.rows)) s.rows)
          (rw claimed at taken_over) in
      let (n, hit) = select-mem (among (candidates input at s.rows)) s.rows mq in
      let same_id : q.id ≡ r.id = sym (ap (λ (x : ClaimedDelivery). x.id) eq) ∙ same_row ∙ sym e in
      subst (λ i. any (λ c. c.id == i) (candidates input at s.rows) ≡ true) same_id hit

  lost :
      (r : DeliveryIntent) → Memᴰ r (claim_deliveries input at s.rows).1 → holds_lease old r ≡ false
  lost r m = elim (Bool-cases (holds_lease old r)) [
    | inr free ↦ free
    | inl held ↦
        (let (ids, busy, token) = holds_lease_inv old r held in
          let (q, n, how) =
            update-mem (among (candidates input at s.rows)) (lease input at) s.rows
              (rw claimed at m) in
          elim how [
            | inl (hit, e) ↦ elim unused [
              | fresh h ↦ absurd (
                  h old given q.id
                    (ground (arith, sym (ap (λ (x : DeliveryIntent). x.lease_token) e) ∙ token)))
            ]
            | inr (miss, e) ↦
                absurd (cc (miss, chosen_again q (sym (ap (λ (x : DeliveryIntent). x.id) e) ∙ ids)))
          ])
  ]

  -- After another claim has returned the same intent, the old claim renews, completes and fails
  -- nothing: each statement reports that no row changed and leaves the table as it is.
  pub old_claim-refused :
      (now lease_ms : ℕ) (report : FailInput)
      → (renew_delivery_lease old now lease_ms (claim_deliveries input at s.rows).1
          ≡ (false, (claim_deliveries input at s.rows).1))
        × (complete_delivery old now (claim_deliveries input at s.rows).1
            ≡ (false, (claim_deliveries input at s.rows).1))
        × (fail_delivery old report now (claim_deliveries input at s.rows).1
            ≡ (false, is_terminal old report, (claim_deliveries input at s.rows).1))
  unfolding renew_delivery_lease complete_delivery fail_delivery
  old_claim-refused now lease_ms report = (
    where_held-refused old (extend_lease now lease_ms) _ lost,
    where_held-refused old (complete now) _ lost,
    ap (λ (answer : Bool × List DeliveryIntent). (answer.0, is_terminal old report, answer.1))
        (where_held-refused old _ _ lost),
  )
