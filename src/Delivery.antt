-- ===== src/Delivery.antt =====
-- The outbox of invitation deliveries (src/jobs/deliver-invitations.ts): claims with leases, their
-- renewal, completion and failure, over the table "DeliveryIntent".
pub mod Table
pub mod Lifecycle
pub mod Fencing
pub mod Worker
pub mod Batch
mod Examples
use egogero.Common.{
  ℕ, zero, suc, ◌+◌, ◌-◌, ◌*◌, ◌/◌, ◌%◌, ◌^◌, ◌≤◌, ◌<◌, min, max, ◌≡◌, refl, sym, ap, subst, ◌∙◌,
  ◌≢◌, ◌↔◌, ◌⊎◌, inl, inr, Bool, true, false, not, ◌&&◌, ◌||◌, Option, none, some, List, [], ◌∷◌,
  ◌++◌, map, arith, ltb, leb, ◌==◌, if◌then◌else◌, ==_iff, ==_refl, ==_sym, Bool-cases,
  Option-cases, is, is_none, after, length, length-append, select, first, update, count, any, all,
  head?, count-append, count-le-length, contains, All, Memᴰ, first-mem, first_of-count, any-first,
  count-any, count-mem,
}

pub data DeliveryChannel : Type 0 where
  email sms : DeliveryChannel

pub data DeliveryStatus : Type 0 where
  pending processing retry delivered dead_letter : DeliveryStatus

pub data ErrorCode : Type 0 where
  provider_transient provider_permanent provider_unavailable provider_timeout : ErrorCode
  payload_invalid payload_decryption_failed attempts_exhausted : ErrorCode

-- The row; its payload is the number that the encrypted bytes spell.
pub record DeliveryIntent : Type 0 where
  pub id : ℕ
  pub created_at : ℕ
  pub delivered_at : Option ℕ
  pub status : DeliveryStatus
  pub attempts : ℕ
  pub lease_owner : Option ℕ
  pub lease_token : Option ℕ
  pub lease_expires_at : Option ℕ
  pub next_attempt_at : ℕ
  pub last_error : Option ErrorCode
  pub convite_id : ℕ
  pub channel : DeliveryChannel
  pub payload : ℕ
  pub key_version : ℕ

pub record ClaimedDelivery : Type 0 where
  pub id : ℕ
  pub convite_id : ℕ
  pub channel : DeliveryChannel
  pub payload : ℕ
  pub key_version : ℕ
  pub attempts : ℕ
  pub lease_owner : ℕ
  pub lease_token : ℕ

pub record ClaimInput : Type 0 where
  pub worker_id : ℕ
  pub batch_size : ℕ
  pub lease_ms : ℕ
  pub max_attempts : ℕ

-- What the database adds to a claim: the clock at either statement, the rows that another transaction has locked, and
-- a fresh UUID for each row.
pub record ClaimReadings : Type 0 where
  pub swept_at : ℕ
  pub now : ℕ
  pub locked : ℕ → Bool
  pub random_uuid : ℕ → ℕ

abbrev pub is_processing : DeliveryStatus → Bool
is_processing processing = true
is_processing _ = false

abbrev pub is_waiting : DeliveryStatus → Bool
is_waiting pending = true
is_waiting retry = true
is_waiting _ = false

abbrev pub expired : ℕ → DeliveryIntent → Bool
expired now r = elim r.lease_expires_at [ none ↦ false | some t ↦ leb t now ]

abbrev pub exhausted : ℕ → ℕ → DeliveryIntent → Bool
exhausted max_attempts now r =
    is_processing r.status && expired now r && leb max_attempts r.attempts

abbrev pub dead : DeliveryIntent → DeliveryIntent
dead r = record r {
  status = dead_letter;
  last_error = some attempts_exhausted;
  lease_owner = none;
  lease_token = none;
  lease_expires_at = none;
}

-- The WHERE clause of the candidates.
abbrev pub claimable : ClaimInput → ClaimReadings → DeliveryIntent → Bool
claimable input at r =
    is_none r.delivered_at
    && ltb r.attempts input.max_attempts
    && ((is_waiting r.status && leb r.next_attempt_at at.now)
        || (is_processing r.status && expired at.now r))
    && not (at.locked r.id)

-- ORDER BY "nextAttemptAt", "createdAt", id.
abbrev pub before : DeliveryIntent → DeliveryIntent → Bool
before r s =
    ltb r.next_attempt_at s.next_attempt_at
    || (r.next_attempt_at == s.next_attempt_at
        && (ltb r.created_at s.created_at || (r.created_at == s.created_at && leb r.id s.id)))

abbrev pub insert : DeliveryIntent → List DeliveryIntent → List DeliveryIntent
insert r [] = r ∷ []
insert r (s ∷ rows) = if before r s then r ∷ s ∷ rows else s ∷ insert r rows

abbrev pub order_by : List DeliveryIntent → List DeliveryIntent
order_by [] = []
order_by (r ∷ rows) = insert r (order_by rows)

abbrev pub limit : ℕ → List DeliveryIntent → List DeliveryIntent
limit zero rows = []
limit (suc n) [] = []
limit (suc n) (r ∷ rows) = r ∷ limit n rows

unfoldable pub candidates : ClaimInput → ClaimReadings → List DeliveryIntent → List DeliveryIntent
candidates input at rows = limit input.batch_size (order_by (select (claimable input at) rows))

abbrev pub among : List DeliveryIntent → DeliveryIntent → Bool
among chosen r = any (λ c. c.id == r.id) chosen

abbrev pub lease : ClaimInput → ClaimReadings → DeliveryIntent → DeliveryIntent
lease input at r = record r {
  status = processing;
  lease_owner = some input.worker_id;
  lease_token = some (at.random_uuid r.id);
  lease_expires_at = some (at.now + input.lease_ms);
  last_error = none;
}

-- The RETURNING clause.
abbrev pub to_claim : ClaimInput → ClaimReadings → DeliveryIntent → ClaimedDelivery
to_claim input at r = record {
  id = r.id;
  convite_id = r.convite_id;
  channel = r.channel;
  payload = r.payload;
  key_version = r.key_version;
  attempts = r.attempts;
  lease_owner = input.worker_id;
  lease_token = at.random_uuid r.id;
}

unfoldable pub bury_exhausted : ℕ → ℕ → List DeliveryIntent → List DeliveryIntent
bury_exhausted max_attempts now rows = update (exhausted max_attempts now) dead rows

unfoldable pub claim_deliveries :
    ClaimInput → ClaimReadings → List DeliveryIntent → List ClaimedDelivery × List DeliveryIntent
claim_deliveries input at rows =
    let swept = bury_exhausted input.max_attempts at.swept_at rows in
    let chosen = candidates input at swept in
    (
      map (to_claim input at) (select (among chosen) swept),
      update (among chosen) (lease input at) swept,
    )

-- The WHERE clause of the three statements below.
abbrev pub holds_lease : ClaimedDelivery → DeliveryIntent → Bool
holds_lease claim r =
    r.id == claim.id
    && is_processing r.status
    && is r.lease_owner claim.lease_owner
    && is r.lease_token claim.lease_token

abbrev pub extend_lease : ℕ → ℕ → DeliveryIntent → DeliveryIntent
extend_lease now lease_ms r = record r { lease_expires_at = some (now + lease_ms) }

abbrev pub complete : ℕ → DeliveryIntent → DeliveryIntent
complete now r = record r {
  status = delivered;
  attempts = r.attempts + 1;
  delivered_at = some now;
  lease_owner = none;
  lease_token = none;
  lease_expires_at = none;
  last_error = none;
}

abbrev pub fail : Bool → ℕ → ℕ → ErrorCode → DeliveryIntent → DeliveryIntent
fail terminal now delay code r = record r {
  status = if terminal then dead_letter else retry;
  next_attempt_at = now + delay;
  last_error = some code;
  attempts = r.attempts + 1;
  lease_owner = none;
  lease_token = none;
  lease_expires_at = none;
}

-- Whether one row changed, and the table.
abbrev pub where_held :
    ClaimedDelivery
    → (DeliveryIntent → DeliveryIntent)
    → List DeliveryIntent
    → Bool × List DeliveryIntent
where_held claim change rows =
    (count (holds_lease claim) rows == 1, update (holds_lease claim) change rows)

pub renew_delivery_lease :
    ClaimedDelivery → ℕ → ℕ → List DeliveryIntent → Bool × List DeliveryIntent
renew_delivery_lease claim now lease_ms = where_held claim (extend_lease now lease_ms)

pub complete_delivery : ClaimedDelivery → ℕ → List DeliveryIntent → Bool × List DeliveryIntent
complete_delivery claim now = where_held claim (complete now)

pub record FailInput : Type 0 where
  pub code : ErrorCode
  pub permanent : Bool
  pub max_attempts : ℕ
  pub retry_delay_ms : ℕ

abbrev pub is_terminal : ClaimedDelivery → FailInput → Bool
is_terminal claim input = input.permanent || leb input.max_attempts (claim.attempts + 1)

-- `updated`, `terminal` and the table.
pub fail_delivery :
    ClaimedDelivery → FailInput → ℕ → List DeliveryIntent → Bool × Bool × List DeliveryIntent
fail_delivery claim input now rows =
    let terminal = is_terminal claim input in
    let (updated, rows') =
      where_held claim (fail terminal now input.retry_delay_ms input.code) rows in
    (updated, terminal, rows')
