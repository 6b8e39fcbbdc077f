-- ===== src/Device/RateLimit/Examples.antt =====
-- Concrete runs of the limiter.
use egogero.Common.{
  some, ℕ, ◌≤◌, ◌≡◌, refl, none, List, [], ◌∷◌, arith, count, Bool, ◌&&◌, leb, if◌then◌else◌, ◌==◌,
  ◌⊎◌,
}
use egogero.Device.RateLimit.{
  Limits, allowed, denied, rate_limit_decision, fresh, device_rate_limit, RateLimitTable,
  limits_row, consume_row,
}
use egogero.Device.RateLimit.Durable.{IsSameCall, IsFailedCall, consume_row-consume}
use egogero.Device.RateLimit.Window.{in_window, times_of, granted_calls, granted_calls-bounded}

-- Twenty calls at one instant.
abbrev full : Limits
full = record {
  attempts = 7 ∷ 7 ∷ 7 ∷ 7 ∷ 7 ∷ 7 ∷ 7 ∷ 7 ∷ 7 ∷ 7 ∷ 7 ∷ 7 ∷ 7 ∷ 7 ∷ 7 ∷ 7 ∷ 7 ∷ 7 ∷ 7 ∷ 7 ∷ [];
  blocked_until = none;
  backoff_level = 1;
}

first_call : (rate_limit_decision fresh 7).0 ≡ allowed 19
unfolding rate_limit_decision
first_call = refl

full_refused : (rate_limit_decision full 8).0 ≡ denied 30
unfolding rate_limit_decision
full_refused = refl

window_over : (rate_limit_decision full 60_007).0 ≡ allowed 19
unfolding rate_limit_decision
window_over = refl

abbrev calls : List (ℕ × ℕ)
calls = (1, 5) ∷ (2, 9) ∷ (1, 6) ∷ []

granted_calls-bounded_example :
    count (in_window 6) (times_of 1 (granted_calls (λ device. none) calls)) ≤ device_rate_limit
granted_calls-bounded_example = granted_calls-bounded 1 6 calls (omega arith)

-- Two devices exist, and the first has a row.
abbrev two_devices : ℕ → Bool
two_devices device = leb 1 device && leb device 2

abbrev one_row : RateLimitTable
one_row device = if device == 1 then some (limits_row full) else none

no_device : (consume_row two_devices one_row 3 8).0 ≡ none
unfolding consume_row
no_device = refl

new_device : (consume_row two_devices one_row 2 8).0 ≡ some (allowed 19)
unfolding consume_row rate_limit_decision
new_device = refl

consume_row-consume_example :
    IsSameCall two_devices one_row 1 8 2 ⊎ IsFailedCall two_devices one_row 1 8 2
consume_row-consume_example = consume_row-consume two_devices one_row 1 8 2 (refl, refl) tt
