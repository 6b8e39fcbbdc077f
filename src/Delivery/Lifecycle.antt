-- ===== src/Delivery/Lifecycle.antt =====
-- The states that workers reach, and what holds in them.
pub mod Sound
pub mod Terminal
use egogero.Common.{
  ℕ, zero, suc, ◌+◌, ◌-◌, ◌*◌, ◌/◌, ◌%◌, ◌^◌, ◌≤◌, ◌<◌, min, max, ◌≡◌, refl, sym, ap, subst, ◌∙◌,
  ◌≢◌, ◌↔◌, ◌⊎◌, inl, inr, Bool, true, false, not, ◌&&◌, ◌||◌, Option, none, some, List, [], ◌∷◌,
  ◌++◌, map, arith, ltb, leb, ◌==◌, if◌then◌else◌, ==_iff, ==_refl, ==_sym, Bool-cases,
  Option-cases, is, is_none, after, length, length-append, select, first, update, count, any, all,
  head?, count-append, count-le-length, contains, All, Memᴰ, first-mem, first_of-count, any-first,
  count-any, count-mem,
}
use egogero.Delivery.{
  DeliveryStatus, pending, processing, retry, delivered, dead_letter, DeliveryIntent,
  ClaimedDelivery, ClaimInput, ClaimReadings, ErrorCode, is_processing, is_waiting, expired,
  exhausted, dead, claimable, insert, order_by, limit, candidates, among, lease, to_claim,
  bury_exhausted, claim_deliveries, holds_lease, extend_lease, complete, fail, where_held,
  renew_delivery_lease, complete_delivery, FailInput, is_terminal, fail_delivery, before,
}

-- The table and every claim that was returned to a worker.
pub record State : Type 0 where
  pub rows : List DeliveryIntent
  pub issued : List ClaimedDelivery

-- A random UUID is none that was drawn before.
pub data IsFresh (at : ClaimReadings) (issued : List ClaimedDelivery) : Type 0 where
  fresh :
      ((c : ClaimedDelivery) → Memᴰ c issued → (i : ℕ) → at.random_uuid i ≢ c.lease_token)
      → IsFresh at issued

abbrev pub after_claim : ClaimInput → ClaimReadings → State → State
after_claim input at s = record {
  rows = (claim_deliveries input at s.rows).1;
  issued = (claim_deliveries input at s.rows).0 ++ s.issued;
}

-- What any worker does with any claim that it was given, at any time; `max` is the policy that
-- verifyDeliveryPolicy makes every worker share.
pub data Step (max : ℕ) (s : State) : State → Type 0 where
  claims :
      (input : ClaimInput) (at : ClaimReadings)
      → input.max_attempts ≡ max
      → IsFresh at s.issued
      → Step max s (after_claim input at s)
  renews :
      (c : ClaimedDelivery)
      → Memᴰ c s.issued
      → (now lease_ms : ℕ)
      → Step max s (record s { rows = (renew_delivery_lease c now lease_ms s.rows).1 })
  completes :
      (c : ClaimedDelivery)
      → Memᴰ c s.issued
      → (now : ℕ) → Step max s (record s { rows = (complete_delivery c now s.rows).1 })
  fails :
      (c : ClaimedDelivery)
      → Memᴰ c s.issued
      → (input : FailInput) → input.max_attempts ≡ max
      → (now : ℕ) → Step max s (record s { rows = (fail_delivery c input now s.rows).2 })

-- Any number of steps.
pub data Steps (max : ℕ) : State → State → Type 0 where
  stop : (s : State) → Steps max s s
  then : {s t u : State} → Steps max s t → Step max t u → Steps max s u

-- A row as its status says: the lease of a row that is being processed, the instant of a delivered
-- one, and fewer attempts than the policy allows while there is one to make.
pub data RowSound (max : ℕ) (r : DeliveryIntent) : Type 0 where
  waits :
      is_waiting r.status ≡ true
      → r.attempts < max
      → r.delivered_at ≡ none
      → r.lease_token ≡ none
      → RowSound max r
  works :
      (token : ℕ)
      → r.status ≡ processing
      → r.attempts < max
      → r.delivered_at ≡ none
      → r.lease_token ≡ some token
      → RowSound max r
  succeeded :
      (at : ℕ)
      → r.status ≡ delivered
      → r.attempts ≤ max
      → r.delivered_at ≡ some at
      → r.lease_token ≡ none
      → RowSound max r
  gave_up :
      r.status ≡ dead_letter
      → r.attempts ≤ max
      → r.delivered_at ≡ none
      → r.lease_token ≡ none
      → RowSound max r

-- Every row is sound, identifiers are unique, and a claim that still holds its lease counts the
-- attempts of its row.
pub record IsSound (max : ℕ) (s : State) : Type 0 where
  pub sound : (r : DeliveryIntent) → Memᴰ r s.rows → RowSound max r
  pub keyed : (q r : DeliveryIntent) → Memᴰ q s.rows → Memᴰ r s.rows → q.id ≡ r.id → q ≡ r
  pub counted :
      (r : DeliveryIntent) (c : ClaimedDelivery)
      → Memᴰ r s.rows
      → Memᴰ c s.issued
      → c.id ≡ r.id
      → r.lease_token ≡ some c.lease_token
      → r.attempts ≡ c.attempts
