-- ===== src/AuthLimits.antt =====
-- Authentication rate limits (src/auth-rate-limits.ts: AUTH_RATE_LIMIT_POLICIES and `check`) on the
-- row of one action and subject of "AuthenticationRateLimit".
pub mod Window
pub mod Reserve
mod Examples
use egogero.Common.{
  ℕ, zero, suc, ◌+◌, ◌-◌, ◌*◌, ◌/◌, ◌%◌, ◌^◌, ◌≤◌, ◌<◌, min, max, ◌≡◌, refl, sym, ap, subst, ◌∙◌,
  ◌≢◌, ◌↔◌, ◌⊎◌, inl, inr, Bool, true, false, not, ◌&&◌, ◌||◌, Option, none, some, List, [], ◌∷◌,
  ◌++◌, map, arith, ltb, leb, ◌==◌, if◌then◌else◌, ==_iff, ==_refl, ==_sym, Bool-cases,
  Option-cases, is, is_none, after, length, length-append, select, first, update, count, any, all,
  head?, count-append, count-le-length, contains, All, Memᴰ, first-mem, first_of-count, any-first,
  count-any, count-mem,
}

pub data AuthRateLimitAction : Type 0 where
  login_ip callback_failure_ip session_creation_account recovery_ip : AuthRateLimitAction
  reauthentication_account invitation_acceptance_ip invitation_acceptance_digest :
      AuthRateLimitAction
  human_validation_account authentication_failure_ip : AuthRateLimitAction

-- A policy without `backoffMs` has 0 for it, as the statements read it.
pub record Policy : Type 0 where
  pub limit : ℕ
  pub window_ms : ℕ
  pub backoff_ms : ℕ

abbrev policy : ℕ → ℕ → ℕ → Policy
policy limit window_ms backoff_ms = record {
  limit = limit;
  window_ms = window_ms;
  backoff_ms = backoff_ms;
}

unfoldable pub auth_rate_limit_policies : AuthRateLimitAction → Policy
auth_rate_limit_policies login_ip = policy 5 600_000 0
auth_rate_limit_policies callback_failure_ip = policy 10 900_000 0
auth_rate_limit_policies session_creation_account = policy 10 900_000 900_000
auth_rate_limit_policies recovery_ip = policy 3 1_800_000 0
auth_rate_limit_policies reauthentication_account = policy 5 600_000 0
auth_rate_limit_policies invitation_acceptance_ip = policy 10 3_600_000 60_000
auth_rate_limit_policies invitation_acceptance_digest = policy 5 3_600_000 60_000
auth_rate_limit_policies human_validation_account = policy 20 60_000 0
auth_rate_limit_policies authentication_failure_ip = policy 60 60_000 0

pub record Bucket : Type 0 where
  pub window_started_at : ℕ
  pub count : ℕ
  pub denied_count : ℕ
  pub reserved_count : ℕ
  pub blocked_until : Option ℕ
  pub updated_at : ℕ

pub record AuthRateLimitDecision : Type 0 where
  pub allowed : Bool
  pub retry_after_seconds : ℕ
  pub repeated_excess : Bool

abbrev pub window_over : Policy → ℕ → Bucket → Bool
window_over p now b = leb (b.window_started_at + p.window_ms) now

-- `COALESCE("blockedUntil", clock_timestamp())`.
abbrev pub blocked_or : ℕ → Option ℕ → ℕ
blocked_or now none = now
blocked_or now (some t) = t

abbrev pub next_block : Policy → ℕ → Bucket → Option ℕ
next_block p now b =
    if ltb 0 p.backoff_ms && leb p.limit b.count
    then some (max (blocked_or now b.blocked_until) now + 2 ^ min 4 b.denied_count * p.backoff_ms)
    else if window_over p now b
    then none
    else b.blocked_until

abbrev pub next_denied : Policy → ℕ → Bucket → ℕ
next_denied p now b =
    if window_over p now b
    then 0
    else if leb p.limit b.count
    then b.denied_count + 1
    else b.denied_count

-- DO UPDATE SET, with one reading of the clock for the statement.
abbrev pub counted_call : Policy → ℕ → Bucket → Bucket
counted_call p now b = record {
  window_started_at = if window_over p now b then now else b.window_started_at;
  count = if window_over p now b then 1 else b.count + 1;
  denied_count = next_denied p now b;
  reserved_count = b.reserved_count;
  blocked_until = next_block p now b;
  updated_at = now;
}

-- The INSERT with its conflict clause.
unfoldable pub upsert : Policy → ℕ → Option Bucket → Bucket
upsert p now none = record {
  window_started_at = now;
  count = 1;
  denied_count = 0;
  reserved_count = 0;
  blocked_until = none;
  updated_at = now;
}
upsert p now (some b) = counted_call p now b

-- `CEIL` of milliseconds as seconds, and `GREATEST(1, ...)`; a difference below zero is below one.
abbrev pub retry_after : Policy → ℕ → Bucket → ℕ
retry_after p now b =
    max 1 (
      (max (b.window_started_at + p.window_ms) (blocked_or now b.blocked_until) - now + 999)
      / 1_000)

abbrev pub decide : (Bucket → Bool) → Policy → ℕ → Bucket → AuthRateLimitDecision
decide within p now b = record {
  allowed = within b && leb (blocked_or now b.blocked_until) now;
  retry_after_seconds = min 3_600 (retry_after p now b);
  repeated_excess = leb 3 b.denied_count;
}

abbrev pub no_row : AuthRateLimitDecision
no_row = record { allowed = true; retry_after_seconds = 0; repeated_excess = false }

-- `check` with `consume`: the decision, and the row it leaves.
unfoldable pub check_consume : Policy → ℕ → Option Bucket → AuthRateLimitDecision × Bucket
check_consume p now row = let b = upsert p now row in (decide (λ c. leb c.count p.limit) p now b, b)

-- `check` without `consume`: the row of the current window is only read.
unfoldable pub check_peek : Policy → ℕ → Option Bucket → AuthRateLimitDecision
check_peek p now none = no_row
check_peek p now (some b) =
    if window_over p now b then no_row else decide (λ c. ltb c.count p.limit) p now b
