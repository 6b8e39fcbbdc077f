-- ===== src/Device/RateLimit.antt =====
-- The limiter of gatehouse requests (src/dispositivos.ts: rateLimitDecision,
-- createMemoryDeviceRateLimiter). Instants are milliseconds since the epoch.
pub mod Bounds
pub mod Window
pub mod Durable
mod Examples
use egogero.Common.{
  ℕ, suc, ◌+◌, ◌-◌, ◌*◌, ◌/◌, ◌^◌, min, max, Bool, true, false, ◌&&◌, Option, none, some, List, [],
  ◌∷◌, ◌++◌, ltb, leb, after, if◌then◌else◌, ◌==◌, length, select,
}

abbrev pub device_rate_limit : ℕ
device_rate_limit = 20

abbrev pub rate_window_ms : ℕ
rate_window_ms = 60_000

abbrev pub initial_backoff_seconds : ℕ
initial_backoff_seconds = 15

abbrev pub max_backoff_seconds : ℕ
max_backoff_seconds = 300

pub record Limits : Type 0 where
  pub attempts : List ℕ
  pub blocked_until : Option ℕ
  pub backoff_level : ℕ

pub data RateLimitResult : Type 0 where
  allowed : ℕ → RateLimitResult  -- remaining
  denied : ℕ → RateLimitResult  -- retryAfterSeconds

-- `attempt > now - RATE_WINDOW_MS`, with the window on the other side: ℕ has no negative numbers.
abbrev pub within_window : ℕ → ℕ → Bool
within_window now attempt = ltb now (attempt + rate_window_ms)

abbrev pub recent : ℕ → List ℕ → List ℕ
recent now = select (within_window now)

-- `Math.max(1, Math.ceil((until - now) / 1000))`, called where `now < until`.
abbrev pub retry_after : ℕ → ℕ → ℕ
retry_after until now = max 1 ((until - now + 999) / 1000)

abbrev pub backoff_seconds : ℕ → ℕ
backoff_seconds level = min (initial_backoff_seconds * 2 ^ level) max_backoff_seconds

-- The part of the function behind its first `if`: no block is in force.
unfoldable pub decide_unblocked : Limits → ℕ → RateLimitResult × Limits
decide_unblocked s now =
    let kept = recent now s.attempts in
    if leb device_rate_limit (length kept)
    then (
      denied (backoff_seconds s.backoff_level),
      record {
        attempts = kept;
        blocked_until = some (now + backoff_seconds s.backoff_level * 1000);
        backoff_level = min (s.backoff_level + 1) 5;
      },
    )
    else (
      allowed (device_rate_limit - length kept - 1),
      record {
        attempts = kept ++ now ∷ [];
        blocked_until = none;
        backoff_level = if length kept == 0 then 0 else s.backoff_level;
      },
    )

unfoldable pub rate_limit_decision : Limits → ℕ → RateLimitResult × Limits
unfolding decide_unblocked
rate_limit_decision s now = elim s.blocked_until [
  | none ↦ decide_unblocked s now
  | some until ↦
      if ltb now until then (denied (retry_after until now), s) else decide_unblocked s now
]

abbrev pub fresh : Limits
fresh = record { attempts = []; blocked_until = none; backoff_level = 0 }

-- `states`, a map from the device to what is kept for it: `states.get(id) ?? fresh`.
abbrev pub States : Type 0
States = ℕ → Option Limits

abbrev pub or_fresh : Option Limits → Limits
or_fresh none = fresh
or_fresh (some s) = s

abbrev pub state_of : States → ℕ → Limits
state_of states device = or_fresh (states device)

unfoldable pub consume : States → ℕ → ℕ → RateLimitResult × States
consume states device now =
    let (result, next) = rate_limit_decision (state_of states device) now in
    (result, λ other. if other == device then some next else states other)

-- A row of the table DispositivoRateLimit, by its device (prisma/schema.prisma).
pub record RateLimitRow : Type 0 where
  pub attempts : List ℕ
  pub blocked_until : Option ℕ
  pub backoff_level : ℕ

abbrev pub RateLimitTable : Type 0
RateLimitTable = ℕ → Option RateLimitRow

-- The defaults of the columns.
abbrev pub row_defaults : RateLimitRow
row_defaults = record { attempts = []; blocked_until = none; backoff_level = 0 }

-- The two CHECKs of the table (prisma/migrations/0013).
abbrev pub passes_checks : RateLimitRow → Bool
passes_checks row = leb (length row.attempts) 20 && leb row.backoff_level 5

-- INSERT ... ON CONFLICT DO NOTHING: the row of the device, or none where it is missing and the
-- foreign key refuses the device.
abbrev pub inserted_row : (known : Bool) → Option RateLimitRow → Option RateLimitRow
inserted_row known (some row) = some row
inserted_row true none = some row_defaults
inserted_row false none = none

abbrev pub row_limits : RateLimitRow → Limits
row_limits row = record {
  attempts = row.attempts;
  blocked_until = row.blocked_until;
  backoff_level = row.backoff_level;
}

abbrev pub limits_row : Limits → RateLimitRow
limits_row s = record {
  attempts = s.attempts;
  blocked_until = s.blocked_until;
  backoff_level = s.backoff_level;
}

abbrev pub decided_row :
    RateLimitTable → ℕ → RateLimitResult × Limits → Option RateLimitResult × RateLimitTable
decided_row rows device (result, next) =
    if passes_checks (limits_row next)
    then (some result, λ other. if other == device then some (limits_row next) else rows other)
    else (none, rows)

abbrev pub locked_row :
    RateLimitTable → ℕ → ℕ → Option RateLimitRow → Option RateLimitResult × RateLimitTable
locked_row rows device now none = (none, rows)
locked_row rows device now (some row) =
    decided_row rows device (rate_limit_decision (row_limits row) now)

-- `createPrismaDeviceRateLimiter`, on the rows of the devices and whether a device exists: the
-- result, or none where a statement fails and the transaction is rolled back.
unfoldable pub consume_row :
    (ℕ → Bool) → RateLimitTable → ℕ → ℕ → Option RateLimitResult × RateLimitTable
consume_row known rows device now =
    locked_row rows device now (inserted_row (known device) (rows device))
