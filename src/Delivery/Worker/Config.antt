-- ===== src/Delivery/Worker/Config.antt =====
-- The settings of the worker (src/jobs/deliver-invitations.ts: integerSetting, deliveryWorkerConfig).
use egogero.Common.{
  one-le-pow, le_mul, ℕ, ◌+◌, ◌-◌, ◌*◌, ◌^◌, ◌≤◌, ◌≡◌, refl, subst, inl, inr, ◌||◌, Option, none,
  some, arith, ltb, if◌then◌else◌, Bool-cases,
}
use mathlib.Core.Option.{some-injective}
use egogero.Delivery.Worker.{DeliveryWorkerConfig, Jitter, retry_delay_ms}

-- A variable of the environment, as `Number` and `Number.isSafeInteger` read it; a negative number
-- is below every minimum and counts as no_safe_integer.
pub data Setting : Type 0 where
  absent : Setting
  safe_integer : ℕ → Setting
  no_safe_integer : Setting

abbrev pub in_range : ℕ → ℕ → ℕ → Option ℕ
in_range low high n = if ltb n low || ltb high n then none else some n

unfoldable pub integer_setting : Setting → ℕ → ℕ → ℕ → Option ℕ
integer_setting absent fallback low high = in_range low high fallback
integer_setting (safe_integer n) fallback low high = in_range low high n
integer_setting no_safe_integer fallback low high = none

pub record Environment : Type 0 where
  pub batch_size : Setting
  pub concurrency : Setting
  pub lease_ms : Setting
  pub poll_ms : Setting
  pub max_attempts : Setting
  pub base_backoff_ms : Setting
  pub max_backoff_ms : Setting
  pub provider_timeout_ms : Setting

infixl 5 ◌>>=◌
abbrev pub ◌>>=◌ : {A B : Type 0} → Option A → (A → Option B) → Option B
none >>= next = none
some a >>= next = next a

-- None where an error is thrown.
unfoldable pub delivery_worker_config : Environment → Option DeliveryWorkerConfig
delivery_worker_config env = integer_setting env.batch_size 50 1 100 >>= (λ batch.
    integer_setting env.concurrency 5 1 100 >>= (λ concurrency.
      integer_setting env.base_backoff_ms 1_000 100 3_600_000 >>= (λ base.
        integer_setting env.max_backoff_ms 300_000 100 86_400_000 >>= (λ highest.
          if ltb batch concurrency || ltb highest base
          then none
          else (integer_setting env.lease_ms 60_000 1_000 3_600_000 >>= (λ lease.
              integer_setting env.poll_ms 1_000 50 60_000 >>= (λ poll.
                integer_setting env.max_attempts 8 1 100 >>= (λ attempts.
                  integer_setting env.provider_timeout_ms 30_000 1_000 300_000 >>= (λ timeout.
                    some (record {
                      batch_size = batch;
                      concurrency = concurrency;
                      lease_ms = lease;
                      poll_ms = poll;
                      max_attempts = attempts;
                      base_backoff_ms = base;
                      max_backoff_ms = highest;
                      provider_timeout_ms = timeout;
                    }))))))))))

bind_inv :
    {A B : Type 0} (o : Option A) (next : A → Option B) {b : B}
    → (o >>= next) ≡ some b
    → (a : A) × (o ≡ some a) × (next a ≡ some b)
bind_inv none next h = absurd (cc)
bind_inv (some a) next h = (a, refl, h)

in_range_inv : (low high n m : ℕ) → in_range low high n ≡ some m → (low ≤ m) × (m ≤ high)
in_range_inv low high n m h = ground arith

setting_inv :
    (s : Setting) (fallback low high n : ℕ)
    → integer_setting s fallback low high ≡ some n
    → (low ≤ n) × (n ≤ high)
unfolding integer_setting
setting_inv absent fallback low high n h = in_range_inv low high fallback n h
setting_inv (safe_integer m) fallback low high n h = in_range_inv low high m n h
setting_inv no_safe_integer fallback low high n h = absurd (cc)

-- The rounding of a factor between 0.8 and 1.2.
pub data IsJitter (jitter : Jitter) : Type 0 where
  jitters :
      ((x : ℕ) → (4 * x ≤ 5 * jitter.rounded x + 2) × (5 * jitter.rounded x ≤ 6 * x + 2))
      → IsJitter jitter

ordered :
    {B : Type 0} (batch concurrency highest base : ℕ) (next : Option B) {b : B}
    → (if ltb batch concurrency || ltb highest base then none else next) ≡ some b
    → (concurrency ≤ batch) × (base ≤ highest) × (next ≡ some b)
ordered batch concurrency highest base next h =
    elim (Bool-cases (ltb batch concurrency || ltb highest base)) [
      | inl bad ↦ absurd (cc (rw bad at h))
      | inr good ↦ (ground (arith, good), ground (arith, good), rw good at h)
    ]

-- Between 1 and 100 rows at a time with no more workers than rows, 1 to 100 attempts, and a delay
-- between 80 milliseconds and a day before each retry.
abbrev pub IsBounded : Jitter → ℕ → DeliveryWorkerConfig → Type 0
IsBounded jitter attempt config =
    (1 ≤ config.concurrency)
    × (config.concurrency ≤ config.batch_size)
    × (config.batch_size ≤ 100)
    × (1 ≤ config.max_attempts)
    × (config.max_attempts ≤ 100)
    × (80 ≤ retry_delay_ms jitter attempt config)
    × (retry_delay_ms jitter attempt config ≤ config.max_backoff_ms)
    × (config.max_backoff_ms ≤ 86_400_000)

delay-IsBounded :
    (c : DeliveryWorkerConfig) (jitter : Jitter) (attempt : ℕ)
    → IsJitter jitter
    → 100 ≤ c.base_backoff_ms
    → c.base_backoff_ms ≤ c.max_backoff_ms
    → (80 ≤ retry_delay_ms jitter attempt c) × (retry_delay_ms jitter attempt c ≤ c.max_backoff_ms)
unfolding retry_delay_ms
delay-IsBounded c jitter attempt (IsJitter.jitters noise) low high = (
  omega (
    arith,
    (noise (c.base_backoff_ms * 2 ^ (attempt - 1))).0,
    le_mul c.base_backoff_ms (2 ^ (attempt - 1)) (one-le-pow (attempt - 1)),
  ),
  omega arith,
)

-- An accepted configuration is bounded, whatever the jitter and the attempt.
pub delivery_worker_config-IsBounded :
    (env : Environment) (config : DeliveryWorkerConfig) (jitter : Jitter) (attempt : ℕ)
    → delivery_worker_config env ≡ some config
    → IsJitter jitter
    → IsBounded jitter attempt config
unfolding delivery_worker_config
delivery_worker_config-IsBounded env config jitter attempt h noise =
    let (batch, e1, h1) = bind_inv (integer_setting env.batch_size 50 1 100) _ h in
    let (concurrency, e2, h2) = bind_inv (integer_setting env.concurrency 5 1 100) _ h1 in
    let (base, e3, h3) = bind_inv (integer_setting env.base_backoff_ms 1_000 100 3_600_000) _ h2 in
    let (highest, e4, h4) =
      bind_inv (integer_setting env.max_backoff_ms 300_000 100 86_400_000) _ h3 in
    let (few, low, h5) = ordered batch concurrency highest base _ h4 in
    let (lease, e5, h6) = bind_inv (integer_setting env.lease_ms 60_000 1_000 3_600_000) _ h5 in
    let (poll, e6, h7) = bind_inv (integer_setting env.poll_ms 1_000 50 60_000) _ h6 in
    let (attempts, e7, h8) = bind_inv (integer_setting env.max_attempts 8 1 100) _ h7 in
    let (timeout, e8, h9) =
      bind_inv (integer_setting env.provider_timeout_ms 30_000 1_000 300_000) _ h8 in
    let (c1, c2) = setting_inv env.concurrency 5 1 100 concurrency e2 in
    let (b1, b2) = setting_inv env.batch_size 50 1 100 batch e1 in
    let (a1, a2) = setting_inv env.max_attempts 8 1 100 attempts e7 in
    let (base1, base2) = setting_inv env.base_backoff_ms 1_000 100 3_600_000 base e3 in
    let (top1, top2) = setting_inv env.max_backoff_ms 300_000 100 86_400_000 highest e4 in
    let built : DeliveryWorkerConfig = record {
      batch_size = batch;
      concurrency = concurrency;
      lease_ms = lease;
      poll_ms = poll;
      max_attempts = attempts;
      base_backoff_ms = base;
      max_backoff_ms = highest;
      provider_timeout_ms = timeout;
    } in
    let (d1, d2) = delay-IsBounded built jitter attempt noise base1 low in
    subst (IsBounded jitter attempt) (some-injective built config h9)
      (c1, few, b2, a1, a2, d1, d2, top2)
