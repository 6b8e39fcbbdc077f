-- ===== src/Delivery/Lifecycle/Sound.antt =====
-- Every state that workers reach is sound.
use egogero.Common.{
  ℕ, ◌<◌, max, ◌≡◌, refl, sym, ap, subst, ◌∙◌, ◌≢◌, ◌⊎◌, inl, inr, Bool, true, false, Option, none,
  some, List, ◌++◌, map, arith, ◌==◌, if◌then◌else◌, ==_iff, Bool-cases, is, is_none, select,
  update, Memᴰ,
}
use egogero.Delivery.{
  DeliveryStatus, pending, processing, retry, delivered, dead_letter, DeliveryIntent,
  ClaimedDelivery, ClaimInput, ClaimReadings, is_processing, is_waiting, exhausted, dead,
  candidates, among, lease, to_claim, bury_exhausted, claim_deliveries, holds_lease, extend_lease,
  complete, fail, renew_delivery_lease, complete_delivery, FailInput, is_terminal, fail_delivery,
}
use egogero.Common.Members.{update-mem, update-source, select-mem, map-mem, any-mem}
use egogero.Delivery.Table.{candidates-mem, append-split, update-none}
use egogero.Delivery.Lifecycle.{State, IsFresh, fresh, after_claim, Step, Steps, RowSound, IsSound}

-- One UPDATE that keeps identifiers keeps a sound state sound, where the rows that it changes stay
-- sound and the claims still agree with the rows that hold their tokens.
module _ (max : ℕ) (p : DeliveryIntent → Bool) (f : DeliveryIntent → DeliveryIntent)
    (rows : List DeliveryIntent) (before_claims after_claims : List ClaimedDelivery)
    (good : IsSound max (record { rows = rows; issued = before_claims }))
    (same_id : (r : DeliveryIntent) → (f r).id ≡ r.id) where
  kept_id : (r : DeliveryIntent) → (if p r then f r else r).id ≡ r.id
  kept_id r = elim (Bool-cases (p r)) [ inl hit ↦ rw hit (same_id r) | inr miss ↦ rw miss refl ]

  updated-keyed :
      (q r : DeliveryIntent)
      → Memᴰ q (update p f rows)
      → Memᴰ r (update p f rows)
      → q.id ≡ r.id
      → q ≡ r
  updated-keyed q r mq mr e =
      let (s, ms, es) = update-source p f rows mq in
      let (t, mt, et) = update-source p f rows mr in
      let id_of : DeliveryIntent → ℕ = λ x. x.id in
      let same : s.id ≡ t.id = sym (kept_id s) ∙ sym (ap id_of es) ∙ e ∙ ap id_of et ∙ kept_id t in
      es ∙ ap (λ x. if p x then f x else x) (good.keyed s t ms mt same) ∙ sym et

  update-IsSound :
      ((r : DeliveryIntent) → Memᴰ r rows → p r ≡ true → RowSound max (f r))
      → ((r : DeliveryIntent) (c : ClaimedDelivery)
          → Memᴰ r rows
          → Memᴰ c after_claims
          → p r ≡ true
          → c.id ≡ (f r).id
          → (f r).lease_token ≡ some c.lease_token
          → (f r).attempts ≡ c.attempts)
      → ((r : DeliveryIntent) (c : ClaimedDelivery)
          → Memᴰ r rows
          → Memᴰ c after_claims
          → p r ≡ false
          → c.id ≡ r.id
          → r.lease_token ≡ some c.lease_token
          → r.attempts ≡ c.attempts)
      → IsSound max (record { rows = update p f rows; issued = after_claims })
  update-IsSound changed agreeing untouched = record {
    sound = λ r m.
        (let (s, n, how) = update-mem p f rows m in
          elim how [
            | inl (hit, e) ↦ subst (RowSound max) (sym e) (changed s n hit)
            | inr (miss, e) ↦ subst (RowSound max) (sym e) (good.sound s n)
          ]);
    keyed = updated-keyed;
    counted = λ r c m mc id_eq token_eq.
        (let (s, n, how) = update-mem p f rows m in
          elim how [
            | inl (hit, e) ↦
                ap (λ (x : DeliveryIntent). x.attempts) e
                ∙ agreeing s c n mc hit (rw e at id_eq) (rw e at token_eq)
            | inr (miss, e) ↦
                ap (λ (x : DeliveryIntent). x.attempts) e
                ∙ untouched s c n mc miss (rw e at id_eq) (rw e at token_eq)
          ]);
  }

is_inv : (o : Option ℕ) (a : ℕ) → is o a ≡ true → o ≡ some a
is_inv none a h = absurd (cc)
is_inv (some b) a h = ap some ((==_iff b a).0 h)

is_none_inv : (o : Option ℕ) → is_none o ≡ true → o ≡ none
is_none_inv none h = refl
is_none_inv (some a) h = absurd (cc)

processing_inv : (s : DeliveryStatus) → is_processing s ≡ true → s ≡ processing
processing_inv pending h = absurd (cc)
processing_inv processing h = refl
processing_inv retry h = absurd (cc)
processing_inv delivered h = absurd (cc)
processing_inv dead_letter h = absurd (cc)

waiting_idle : (s : DeliveryStatus) → is_waiting s ≡ true → is_processing s ≡ false
waiting_idle pending h = refl
waiting_idle processing h = absurd (cc)
waiting_idle retry h = refl
waiting_idle delivered h = absurd (cc)
waiting_idle dead_letter h = absurd (cc)

-- A sound row that is processed has an attempt left and is not delivered.
in_work :
    (max : ℕ) (r : DeliveryIntent)
    → RowSound max r
    → is_processing r.status ≡ true
    → (r.attempts < max) × (r.delivered_at ≡ none)
in_work max r (RowSound.waits w a d t) h = absurd (cc (waiting_idle r.status w, h))
in_work max r (RowSound.works token s a d t) h = (a, d)
in_work max r (RowSound.succeeded at s a d t) h = absurd (cc (rw s at h))
in_work max r (RowSound.gave_up s a d t) h = absurd (cc (rw s at h))

-- What the WHERE clause of a held lease says.
pub holds_lease_inv :
    (c : ClaimedDelivery) (r : DeliveryIntent)
    → holds_lease c r ≡ true
    → (r.id ≡ c.id) × (is_processing r.status ≡ true) × (r.lease_token ≡ some c.lease_token)
holds_lease_inv c r h =
    (ground arith, ground arith, is_inv r.lease_token c.lease_token (ground arith))

not_exhausted : (max now : ℕ) (r : DeliveryIntent) → RowSound max r → exhausted max now r ≡ false
not_exhausted max now r good = elim (Bool-cases (is_processing r.status)) [
  | inl busy ↦ let (few, open_row) = in_work max r good busy in ground (arith, few)
  | inr idle ↦ rw idle refl
]

-- No state that is sound has an exhausted lease: the sweep before a claim finds nothing.
pub bury_exhausted_none :
    (max now : ℕ) (s : State) → IsSound max s → bury_exhausted max now s.rows ≡ s.rows
unfolding bury_exhausted
bury_exhausted_none max now s good =
    update-none (exhausted max now) dead s.rows (λ r m. not_exhausted max now r (good.sound r m))

module _ (max : ℕ) (s : State) (good : IsSound max s) (c : ClaimedDelivery)
    (given : Memᴰ c s.issued) where
  -- One of the statements on a held lease, by what it makes of the row.
  held-IsSound :
      (f : DeliveryIntent → DeliveryIntent)
      → ((r : DeliveryIntent) → (f r).id ≡ r.id)
      → ((r : DeliveryIntent)
          → Memᴰ r s.rows
          → r.attempts < max
          → r.delivered_at ≡ none
          → r.attempts ≡ c.attempts
          → r.status ≡ processing
          → r.lease_token ≡ some c.lease_token
          → RowSound max (f r))
      → ((r : DeliveryIntent)
          → ((f r).lease_token ≡ none)
            ⊎ (((f r).lease_token ≡ r.lease_token) × ((f r).attempts ≡ r.attempts)))
      → IsSound max (record s { rows = update (holds_lease c) f s.rows })
  held-IsSound f same_id changed token_of =
      update-IsSound max (holds_lease c) f s.rows s.issued s.issued good same_id
        (λ r m hit.
          (let (ids, busy, token) = holds_lease_inv c r hit in
            let (few, undelivered) = in_work max r (good.sound r m) busy in
            changed r m few undelivered (good.counted r c m given (sym ids) token)
              (processing_inv r.status busy) token))
        (λ r d m md hit id_eq token_eq. elim (token_of r) [
          | inl gone ↦ absurd (cc (gone, token_eq))
          | inr (same, kept) ↦
              kept ∙ good.counted r d m md (id_eq ∙ same_id r) (sym same ∙ token_eq)
        ])
        (λ r d m md miss id_eq token_eq. good.counted r d m md id_eq token_eq)

  renews-IsSound :
      (now lease_ms : ℕ)
      → IsSound max (record s { rows = (renew_delivery_lease c now lease_ms s.rows).1 })
  unfolding renew_delivery_lease
  renews-IsSound now lease_ms =
      held-IsSound (extend_lease now lease_ms) (λ r. refl)
        (λ r m few undelivered same busy token.
          RowSound.works c.lease_token busy few undelivered token)
        (λ r. inr (refl, refl))

  completes-IsSound :
      (now : ℕ) → IsSound max (record s { rows = (complete_delivery c now s.rows).1 })
  unfolding complete_delivery
  completes-IsSound now =
      held-IsSound (complete now) (λ r. refl)
        (λ r m few undelivered same busy token.
          RowSound.succeeded now refl (omega (arith, few)) refl refl)
        (λ r. inl refl)

  fails-IsSound :
      (input : FailInput)
      → input.max_attempts ≡ max
      → (now : ℕ) → IsSound max (record s { rows = (fail_delivery c input now s.rows).2 })
  unfolding fail_delivery
  fails-IsSound input policy now =
      held-IsSound (fail (is_terminal c input) now input.retry_delay_ms input.code) (λ r. refl)
        (λ r m few undelivered same busy token. elim (Bool-cases (is_terminal c input)) [
          | inl terminal ↦ RowSound.gave_up (rw terminal refl) (omega (arith, few)) undelivered refl
          | inr again ↦
              RowSound.waits (rw again refl) (ground (arith, policy, same, again)) undelivered refl
        ])
        (λ r. inl refl)

-- The candidates by their identifiers are the candidates.
module _ (max : ℕ) (s : State) (good : IsSound max s) (input : ClaimInput) (at : ClaimReadings)
    (policy : input.max_attempts ≡ max) (unused : IsFresh at s.issued) where
  chosen_row :
      (r : DeliveryIntent)
      → Memᴰ r s.rows
      → among (candidates input at s.rows) r ≡ true
      → (r.attempts < max) × (r.delivered_at ≡ none)
  chosen_row r m h =
      let (d, md, e) = any-mem (λ d. d.id == r.id) (candidates input at s.rows) h in
      let (n, ready) = candidates-mem input at s.rows md in
      let same : d ≡ r = good.keyed d r n m ((==_iff d.id r.id).0 e) in
      (
        ground (arith, policy, rw same at ready),
        is_none_inv r.delivered_at (ground (arith, rw same at ready)),
      )

  -- A claim that is returned is of a chosen row, and has its attempts.
  returned :
      (r : DeliveryIntent) (c : ClaimedDelivery)
      → Memᴰ r s.rows
      → Memᴰ c (map (to_claim input at) (select (among (candidates input at s.rows)) s.rows))
      → c.id ≡ r.id
      → (among (candidates input at s.rows) r ≡ true) × (r.attempts ≡ c.attempts)
  returned r c m mc e =
      let (q, mq, ec) =
        map-mem (to_claim input at) (select (among (candidates input at s.rows)) s.rows) mc in
      let (n, hit) = select-mem (among (candidates input at s.rows)) s.rows mq in
      let same : q ≡ r = good.keyed q r n m (sym (ap (λ (x : ClaimedDelivery). x.id) ec) ∙ e) in
      (
        rw same at hit,
        ap (λ (x : DeliveryIntent). x.attempts) (sym same)
            ∙ sym (ap (λ (x : ClaimedDelivery). x.attempts) ec),
      )

  stale :
      (c : ClaimedDelivery) (i : ℕ) → Memᴰ c s.issued → some (at.random_uuid i) ≢ some c.lease_token
  stale c i m e = elim unused [ fresh h ↦ h c m i (ground (arith, e)) ]

  claims-IsSound : IsSound max (after_claim input at s)
  unfolding claim_deliveries
  claims-IsSound =
      let swept : bury_exhausted input.max_attempts at.swept_at s.rows ≡ s.rows =
        rw policy (bury_exhausted_none max at.swept_at s good) in
      rw swept (
        update-IsSound max (among (candidates input at s.rows)) (lease input at) s.rows s.issued
          (map (to_claim input at) (select (among (candidates input at s.rows)) s.rows) ++ s.issued)
          good (λ r. refl)
          (λ r m hit.
            let (few, undelivered) = chosen_row r m hit in
            RowSound.works (at.random_uuid r.id) refl few undelivered refl)
          (λ r c m mc hit id_eq token_eq. elim (append-split _ s.issued mc) [
            | inl fresh_claim ↦ (returned r c m fresh_claim id_eq).1
            | inr older ↦ absurd (stale c r.id older token_eq)
          ])
          (λ r c m mc miss id_eq token_eq. elim (append-split _ s.issued mc) [
            | inl fresh_claim ↦ absurd (cc ((returned r c m fresh_claim id_eq).0, miss))
            | inr older ↦ good.counted r c m older id_eq token_eq
          ]))

Step-IsSound : (max : ℕ) (s t : State) → Step max s t → IsSound max s → IsSound max t
Step-IsSound max s t (Step.claims input at policy unused) good =
    claims-IsSound max s good input at policy unused
Step-IsSound max s t (Step.renews c given now lease_ms) good =
    renews-IsSound max s good c given now lease_ms
Step-IsSound max s t (Step.completes c given now) good = completes-IsSound max s good c given now
Step-IsSound max s t (Step.fails c given input policy now) good =
    fails-IsSound max s good c given input policy now

-- However the workers' statements interleave, every state reached from a sound one is sound: a row
-- is delivered with its instant, given up, processed under a lease, or waiting with an attempt
-- left; it counts no more attempts than the policy allows.
pub Steps-IsSound : (max : ℕ) (s t : State) → Steps max s t → IsSound max s → IsSound max t
Steps-IsSound max s t (Steps.stop same) good = good
Steps-IsSound max s t (Steps.then {t = u} before_it last) good =
    Step-IsSound max u t last (Steps-IsSound max s u before_it good)
