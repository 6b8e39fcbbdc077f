-- ===== src/Device/RateLimit/Window.antt =====
-- The limit over every window of time, for every device, in any interleaving of calls.
use egogero.Common.{
  ℕ, ◌+◌, ◌≤◌, ◌≡◌, refl, inl, inr, Bool, true, false, ◌&&◌, none, List, [], ◌∷◌, ◌++◌, arith,
  length, count, leb, if◌then◌else◌, ◌==◌, Bool-cases, ==_iff, ==_refl, ==_sym,
}
use egogero.Device.RateLimit.{
  Limits, RateLimitResult, allowed, denied, device_rate_limit, decide_unblocked, recent,
  within_window, rate_limit_decision, fresh, States, state_of, consume,
}

-- Whether the instant lies in the window that ends at `t`.
abbrev pub in_window : ℕ → ℕ → Bool
in_window t x = leb x t && within_window t x

abbrev pub is_allowed : RateLimitResult → Bool
is_allowed (allowed r) = true
is_allowed (denied r) = false

-- The instants at which one state's requests are let through.
abbrev pub granted : Limits → List ℕ → List ℕ
granted s [] = []
granted s (t ∷ ts) =
    let rest = granted (rate_limit_decision s t).1 ts in
    if is_allowed (rate_limit_decision s t).0 then t ∷ rest else rest

-- Instants that never go back, from `last` on.
abbrev pub Ordered : ℕ → List ℕ → Type 0
Ordered last [] = Unit
Ordered last (t ∷ ts) = (last ≤ t) × Ordered t ts

recent_mono : (now t : ℕ) (xs : List ℕ) → now ≤ t → length (recent t xs) ≤ length (recent now xs)
recent_mono now t [] h = omega arith
recent_mono now t (x ∷ xs) h = ground (arith, recent_mono now t xs h)

recent-recent :
    (now t : ℕ) (xs : List ℕ) → now ≤ t → length (recent t (recent now xs)) ≡ length (recent t xs)
recent-recent now t [] h = refl
recent-recent now t (x ∷ xs) h = ground (arith, recent-recent now t xs h)

recent-append :
    (t : ℕ) (xs ys : List ℕ)
    → length (recent t (xs ++ ys)) ≡ length (recent t xs) + length (recent t ys)
recent-append t [] ys = omega arith
recent-append t (x ∷ xs) ys = ground (arith, recent-append t xs ys)

-- The state remembers all of the grants so far that a later window can hold.
abbrev Covers : ℕ → List ℕ → Limits → Type 0
Covers last past s = (t : ℕ) → last ≤ t → count (in_window t) past ≤ length (recent t s.attempts)

-- What one decision grants, as a list of at most one instant.
abbrev grant : Limits → ℕ → List ℕ
grant s now = if is_allowed (rate_limit_decision s now).0 then now ∷ [] else []

module _ (s : Limits) (last now : ℕ) (past : List ℕ) (order : last ≤ now)
    (covers : Covers last past s) where
  decision-Covers :
      (t : ℕ)
      → now ≤ t
      → count (in_window t) (grant s now) + count (in_window t) past
        ≤ length (recent t (rate_limit_decision s now).1.attempts)
  unfolding rate_limit_decision decide_unblocked
  decision-Covers t h = ground (
    arith,
    covers t,
    recent-recent now t s.attempts h,
    recent-append t (recent now s.attempts) (now ∷ []),
  )

  grant_bounded :
      (t : ℕ)
      → count (in_window t) past ≤ device_rate_limit
      → count (in_window t) (grant s now) + count (in_window t) past ≤ device_rate_limit
  unfolding rate_limit_decision decide_unblocked
  grant_bounded t h = ground (arith, covers t, recent_mono now t s.attempts)

granted_bounded :
    (s : Limits) (last : ℕ) (past ts : List ℕ)
    → Ordered last ts
    → Covers last past s
    → (t : ℕ) → count (in_window t) past ≤ device_rate_limit
    → count (in_window t) (granted s ts) + count (in_window t) past ≤ device_rate_limit
granted_bounded s last past [] order covers t h = omega arith
granted_bounded s last past (now ∷ ts) (le, order) covers t h =
    let s' : Limits = (rate_limit_decision s now).1 in
    let kept = decision-Covers s last now past le covers in
    let bound = grant_bounded s last now past le covers t h in
    elim (Bool-cases (is_allowed (rate_limit_decision s now).0)) [
      | inl granting ↦
          let ih =
            granted_bounded s' now (now ∷ past) ts order
              (λ u k. omega (arith, (rw granting at (kept u k)))) t
              (omega (arith, (rw granting at bound))) in
          rw granting (omega (arith, ih))
      | inr refusing ↦
          let ih =
            granted_bounded s' now past ts order (λ u k. omega (arith, (rw refusing at (kept u k))))
              t h in
          rw refusing ih
    ]

-- A run of the limiter over calls from many devices: the granted calls, in order.
abbrev pub granted_calls : States → List (ℕ × ℕ) → List (ℕ × ℕ)
granted_calls states [] = []
granted_calls states ((device, now) ∷ calls) =
    let rest = granted_calls (consume states device now).1 calls in
    if is_allowed (consume states device now).0 then (device, now) ∷ rest else rest

-- The instants of one device's calls.
abbrev pub times_of : ℕ → List (ℕ × ℕ) → List ℕ
times_of d [] = []
times_of d ((device, now) ∷ calls) =
    if device == d then now ∷ times_of d calls else times_of d calls

state_of-consume :
    (states : States) (device now d : ℕ)
    → state_of (consume states device now).1 d ≡ (
        if device == d
        then (rate_limit_decision (state_of states device) now).1
        else state_of states d)
unfolding consume
state_of-consume states device now d = elim (Bool-cases (device == d)) [
  | inl same ↦ rw ((==_iff device d).0 same) (rw (==_refl d))
  | inr other ↦ rw (other, ==_sym device d other)
]

result-consume :
    (states : States) (device now : ℕ)
    → (consume states device now).0 ≡ (rate_limit_decision (state_of states device) now).0
unfolding consume
result-consume states device now = refl

-- What a device is granted among the others' calls is what its own calls are granted alone.
pub times_of-granted_calls :
    (d : ℕ) (states : States) (calls : List (ℕ × ℕ))
    → times_of d (granted_calls states calls) ≡ granted (state_of states d) (times_of d calls)
times_of-granted_calls d states [] = refl
times_of-granted_calls d states ((device, now) ∷ calls) = ground (
  arith,
  result-consume states device now,
  state_of-consume states device now d,
  times_of-granted_calls d (consume states device now).1 calls,
)

-- However calls from many devices interleave, and as long as the clock does not go back, no window
-- of sixty seconds holds more than twenty calls that were let through for one device.
pub granted_calls-bounded :
    (d t : ℕ) (calls : List (ℕ × ℕ))
    → Ordered 0 (times_of d calls)
    → count (in_window t) (times_of d (granted_calls (λ device. none) calls)) ≤ device_rate_limit
granted_calls-bounded d t calls order = rw (times_of-granted_calls d (λ device. none) calls) (
    omega (
      arith,
      granted_bounded fresh 0 [] (times_of d calls) order (λ u k. omega arith) t (omega arith),
    ))
