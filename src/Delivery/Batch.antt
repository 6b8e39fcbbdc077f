-- ===== src/Delivery/Batch.antt =====
-- The start of a batch (src/jobs/deliver-invitations.ts: verifyDeliverySecret,
-- verifyDeliveryPolicy, safeWorkerId and the claim of runDeliveryBatch).
mod Examples
use egogero.Common.{
  ℕ, zero, suc, ◌+◌, ◌-◌, ◌*◌, ◌/◌, ◌%◌, ◌^◌, ◌≤◌, ◌<◌, min, max, ◌≡◌, refl, sym, ap, subst, ◌∙◌,
  ◌≢◌, ◌↔◌, ◌⊎◌, inl, inr, Bool, true, false, not, ◌&&◌, ◌||◌, Option, none, some, List, [], ◌∷◌,
  ◌++◌, map, arith, ltb, leb, ◌==◌, if◌then◌else◌, ==_iff, ==_refl, ==_sym, Bool-cases,
  Option-cases, is, is_none, after, length, length-append, select, first, update, count, any, all,
  head?, count-append, count-le-length, contains, All, Memᴰ, first-mem, first_of-count, any-first,
  count-any, count-mem,
}
use mathlib.Core.Option.{some-injective}
use egogero.Delivery.{DeliveryIntent, ClaimedDelivery, ClaimInput, ClaimReadings, claim_deliveries}
use egogero.Delivery.Worker.{DeliveryWorkerConfig}

-- The two rows of "SecurityKey" that the worker reads, and the outbox.
pub record Outbox : Type 0 where
  pub cache_secret_key : Option ℕ  -- 'idempotency-cache-v1'
  pub policy_key : Option ℕ  -- 'delivery-worker-policy-v1'
  pub rows : List DeliveryIntent

-- The secret by its length in bytes and its fingerprint.
pub record Secret : Type 0 where
  pub byte_length : ℕ
  pub fingerprint : ℕ

pub data StartError : Type 0 where
  secret_too_short key_mismatch policy_mismatch bad_worker_id : StartError

pub data Started : Type 0 where
  failed : StartError → Outbox → Started
  claimed : List ClaimedDelivery → Outbox → Started

pub verify_delivery_secret : Secret → Outbox → Option StartError
verify_delivery_secret secret o =
    if ltb secret.byte_length 32
    then some secret_too_short
    else if is o.cache_secret_key secret.fingerprint
    then none
    else some key_mismatch

-- INSERT ... ON CONFLICT DO NOTHING.
abbrev pub insert_policy : ℕ → Option ℕ → Option ℕ
insert_policy print none = some print
insert_policy print (some stored) = some stored

-- The row, and whether it is this worker's policy.
pub verify_delivery_policy : (ℕ → ℕ) → ℕ → Outbox → Bool × Outbox
verify_delivery_policy fingerprint max_attempts o =
    let key = insert_policy (fingerprint max_attempts) o.policy_key in
    (is key (fingerprint max_attempts), record o { policy_key = key })

-- A worker's name: whether it has at most 128 characters, all of them of the allowed ones.
pub record WorkerId : Type 0 where
  pub id : ℕ
  pub length : ℕ
  pub matches : Bool

abbrev pub safe_worker_id : WorkerId → Bool
safe_worker_id worker = not (ltb 128 worker.length || not worker.matches)

abbrev pub with_worker : DeliveryWorkerConfig → WorkerId → ClaimReadings → Outbox → Started
with_worker config worker at o =
    if not (safe_worker_id worker)
    then failed bad_worker_id o
    else (let answer =
          claim_deliveries
            (record {
              worker_id = worker.id;
              batch_size = config.batch_size;
              lease_ms = config.lease_ms;
              max_attempts = config.max_attempts;
            })
            at o.rows in
        claimed answer.0 (record o { rows = answer.1 }))

abbrev pub with_policy : Bool × Outbox → DeliveryWorkerConfig → WorkerId → ClaimReadings → Started
with_policy (false, o) config worker at = failed policy_mismatch o
with_policy (true, o) config worker at = with_worker config worker at o

abbrev pub with_secret :
    Option StartError → (ℕ → ℕ) → DeliveryWorkerConfig → WorkerId → ClaimReadings → Outbox → Started
with_secret (some e) fingerprint config worker at o = failed e o
with_secret none fingerprint config worker at o =
    with_policy (verify_delivery_policy fingerprint config.max_attempts o) config worker at

-- `runDeliveryBatch` up to its claims; `fingerprint` is the SHA-256 of a policy.
pub start_batch :
    (ℕ → ℕ) → Secret → DeliveryWorkerConfig → WorkerId → ClaimReadings → Outbox → Started
start_batch fingerprint secret config worker at o =
    with_secret (verify_delivery_secret secret o) fingerprint config worker at o

abbrev outbox_of : Started → Outbox
outbox_of (failed e o) = o
outbox_of (claimed claims o) = o

is_inv : (o : Option ℕ) (a : ℕ) → is o a ≡ true → o ≡ some a
is_inv none a h = absurd (cc)
is_inv (some b) a h = ap some ((==_iff b a).0 h)

worker_keys :
    (config : DeliveryWorkerConfig) (worker : WorkerId) (at : ClaimReadings) (o : Outbox)
    → ((outbox_of (with_worker config worker at o)).policy_key ≡ o.policy_key)
      × ((outbox_of (with_worker config worker at o)).cache_secret_key ≡ o.cache_secret_key)
worker_keys config worker at o = elim (Bool-cases (safe_worker_id worker)) [
  | inl safe ↦ rw safe (refl, refl)
  | inr unsafe ↦ rw unsafe (refl, refl)
]

policy_inv :
    (right : Bool) (o : Outbox) (config : DeliveryWorkerConfig) (worker : WorkerId)
    (at : ClaimReadings) (claims : List ClaimedDelivery) (o' : Outbox)
    → with_policy (right, o) config worker at ≡ claimed claims o'
    → (right ≡ true) × (o'.policy_key ≡ o.policy_key) × (o'.cache_secret_key ≡ o.cache_secret_key)
policy_inv false o config worker at claims o' h = absurd (cc)
policy_inv true o config worker at claims o' h =
    let (policy, cache) = worker_keys config worker at o in
    let same : outbox_of (with_worker config worker at o) ≡ o' = ap outbox_of h in
    (refl, rw same at policy, rw same at cache)

-- What a batch that claims has found in the keys, and what it leaves there.
claimed_inv :
    (fingerprint : ℕ → ℕ) (s : Secret) (config : DeliveryWorkerConfig) (worker : WorkerId)
    (at : ClaimReadings) (o : Outbox) (claims : List ClaimedDelivery) (o' : Outbox)
    → start_batch fingerprint s config worker at o ≡ claimed claims o'
    → (o.cache_secret_key ≡ some s.fingerprint)
      × (o'.cache_secret_key ≡ o.cache_secret_key)
      × (insert_policy (fingerprint config.max_attempts) o.policy_key
          ≡ some (fingerprint config.max_attempts))
      × (o'.policy_key ≡ some (fingerprint config.max_attempts))
unfolding start_batch verify_delivery_secret verify_delivery_policy
claimed_inv fingerprint s config worker at o claims o' h =
    elim (Bool-cases (ltb s.byte_length 32)) [
      | inl short ↦ absurd (cc (rw short at h))
      | inr long ↦ elim (Bool-cases (is o.cache_secret_key s.fingerprint)) [
        | inr other ↦ absurd (cc (rw (long, other) at h))
        | inl same ↦
            (let (right, policy, cache) =
                policy_inv _ _ config worker at claims o' (rw (long, same) at h) in
              let found = is_inv _ (fingerprint config.max_attempts) right in
              (is_inv o.cache_secret_key s.fingerprint same, cache, found, policy ∙ found))
      ]
    ]

-- Two workers that both claim, one on the tables that the other left, agree on the number of
-- attempts and on the fingerprint of the secret. Distinct policies have distinct fingerprints.
pub claimed-claimed :
    (fingerprint : ℕ → ℕ) (s s' : Secret) (config config' : DeliveryWorkerConfig)
    (worker worker' : WorkerId) (at at' : ClaimReadings) (o o' o'' : Outbox)
    (claims claims' : List ClaimedDelivery)
    → ((m n : ℕ) → fingerprint m ≡ fingerprint n → m ≡ n)
    → start_batch fingerprint s config worker at o ≡ claimed claims o'
    → start_batch fingerprint s' config' worker' at' o' ≡ claimed claims' o''
    → (config.max_attempts ≡ config'.max_attempts) × (s.fingerprint ≡ s'.fingerprint)
claimed-claimed fingerprint s s' config config' worker worker' at at' o o' o'' claims claims' apart
      h h' =
    let (cache, kept, found, left) = claimed_inv fingerprint s config worker at o claims o' h in
    let (cache', kept', found', left') =
      claimed_inv fingerprint s' config' worker' at' o' claims' o'' h' in
    let same : some (fingerprint config.max_attempts) ≡ some (fingerprint config'.max_attempts) =
      subst
        (λ key.
          insert_policy (fingerprint config'.max_attempts) key
          ≡ some (fingerprint config'.max_attempts))
        left found' in
    (
      apart config.max_attempts config'.max_attempts (some-injective _ _ same),
      some-injective _ _ (sym cache ∙ sym kept ∙ cache'),
    )
