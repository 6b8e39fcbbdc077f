-- ===== src/AuthLimits/Examples.antt =====
-- Session creations of one account.
use egogero.Common.{◌+◌, ◌≤◌, ◌≡◌, refl, false, none, some, [], ◌∷◌, arith}
use egogero.AuthLimits.{
  Policy, Bucket, no_row, upsert, check_consume, check_peek, auth_rate_limit_policies, login_ip,
  session_creation_account,
}
use egogero.AuthLimits.Window.{granted, granted-bounded, new_window-refused}

abbrev login : Policy
login = record { limit = 5; window_ms = 600_000; backoff_ms = 0 }

abbrev sessions : Policy
sessions = record { limit = 10; window_ms = 900_000; backoff_ms = 900_000 }

login_policy : auth_rate_limit_policies login_ip ≡ login
unfolding auth_rate_limit_policies
login_policy = refl

sessions_policy : auth_rate_limit_policies session_creation_account ≡ sessions
unfolding auth_rate_limit_policies
sessions_policy = refl

abbrev four_logins : Bucket
four_logins = record {
  window_started_at = 1_000;
  count = 4;
  denied_count = 0;
  reserved_count = 0;
  blocked_until = none;
  updated_at = 5_000;
}

fifth_only : granted login (6_000 ∷ 7_000 ∷ []) four_logins ≡ 1
unfolding check_consume upsert
fifth_only = refl

granted-bounded_example : granted login (6_000 ∷ 7_000 ∷ []) four_logins + 4 ≤ 5
granted-bounded_example =
    granted-bounded login (6_000 ∷ 7_000 ∷ []) four_logins (omega arith, (omega arith, tt))

-- Ten creations that were all allowed, a day ago.
abbrev used_up : Bucket
used_up = record {
  window_started_at = 1_000;
  count = 10;
  denied_count = 0;
  reserved_count = 0;
  blocked_until = none;
  updated_at = 8_000;
}

new_window-refused_example :
    ((check_consume sessions 80_000_000 (some used_up)).0.allowed ≡ false)
    × ((check_consume sessions 80_000_000 (some used_up)).1.count ≡ 1)
    × (check_peek sessions 80_000_000 (some used_up) ≡ no_row)
new_window-refused_example =
    new_window-refused sessions 80_000_000 used_up (omega arith) (omega arith) (omega arith)
