-- ===== src/Device/RateLimit/Bounds.antt =====
-- What the limiter keeps, and what it answers while a block is in force.
use native.Mathlib.Nat.{one-le-pow}
use egogero.Common.{
  after, false, ℕ, ◌+◌, ◌*◌, ◌≤◌, ◌<◌, ◌≡◌, inl, inr, Bool-cases, ltb, Option-cases, some, List, [],
  ◌∷◌, arith, length, length-append,
}
use egogero.Device.RateLimit.{
  Limits, device_rate_limit, decide_unblocked, recent, rate_limit_decision, fresh, denied,
  retry_after, backoff_seconds,
}

-- At most twenty attempts are remembered, and the level stays within its cap.
pub record IsBounded (s : Limits) : Type 0 where
  pub few : length s.attempts ≤ device_rate_limit
  pub level : s.backoff_level ≤ 5

pub fresh-IsBounded : IsBounded fresh
fresh-IsBounded = ground arith

length-recent : (now : ℕ) (xs : List ℕ) → length (recent now xs) ≤ length xs
length-recent now [] = omega arith
length-recent now (x ∷ xs) = ground (arith, length-recent now xs)

decide_unblocked-IsBounded :
    (s : Limits) (now : ℕ) → IsBounded s → IsBounded (decide_unblocked s now).1
unfolding decide_unblocked
decide_unblocked-IsBounded s now h =
    ground (arith, length-recent now s.attempts, length-append (recent now s.attempts) (now ∷ []))

-- Every decision keeps the state bounded.
pub rate_limit_decision-IsBounded :
    (s : Limits) (now : ℕ) → IsBounded s → IsBounded (rate_limit_decision s now).1
unfolding rate_limit_decision
rate_limit_decision-IsBounded s now h = ground (arith, decide_unblocked-IsBounded s now)

backoff_seconds_pos : (level : ℕ) → 0 < backoff_seconds level
backoff_seconds_pos level = omega (arith, one-le-pow level 2 (omega arith))

-- A refusal leaves a block behind that ends within the announced seconds and not a second sooner.
abbrev pub IsBlock : ℕ → ℕ → Limits → ℕ → Type 0
IsBlock now seconds s until =
    (s.blocked_until ≡ some until)
    × (now < until)
    × (until ≤ now + seconds * 1000)
    × (now + seconds * 1000 < until + 1000)

decide_unblocked-denied :
    (s : Limits) (now seconds : ℕ)
    → (decide_unblocked s now).0 ≡ denied seconds
    → (until : ℕ) × IsBlock now seconds (decide_unblocked s now).1 until
unfolding decide_unblocked
decide_unblocked-denied s now seconds h = (
  now + backoff_seconds s.backoff_level * 1000,
  ground (arith, backoff_seconds_pos s.backoff_level),
)

rate_limit_decision_blocked :
    (s : Limits) (until t : ℕ)
    → s.blocked_until ≡ some until
    → t < until
    → rate_limit_decision s t ≡ (denied (retry_after until t), s)
unfolding rate_limit_decision
rate_limit_decision_blocked s until t e h = ground arith

rate_limit_decision_unblocked :
    (s : Limits) (now : ℕ)
    → after s.blocked_until now ≡ false
    → rate_limit_decision s now ≡ decide_unblocked s now
unfolding rate_limit_decision
rate_limit_decision_unblocked s now e = ground arith

started :
    (s : Limits) (now seconds : ℕ)
    → after s.blocked_until now ≡ false
    → (rate_limit_decision s now).0 ≡ denied seconds
    → seconds ≡ backoff_seconds s.backoff_level
unfolding rate_limit_decision decide_unblocked
started s now seconds e h = ground arith

denied_until :
    (s : Limits) (now seconds : ℕ)
    → (rate_limit_decision s now).0 ≡ denied seconds
    → (until : ℕ) × IsBlock now seconds (rate_limit_decision s now).1 until
unfolding rate_limit_decision
denied_until s now seconds h = elim (Option-cases s.blocked_until) [
  | inl e ↦
      let same = rate_limit_decision_unblocked s now (ground arith) in
      rw same (decide_unblocked-denied s now seconds (rw same at h))
  | inr (until, e) ↦ elim (Bool-cases (ltb now until)) [
    | inl blocked ↦ (until, ground arith)
    | inr over ↦
        let same = rate_limit_decision_unblocked s now (ground arith) in
        rw same (decide_unblocked-denied s now seconds (rw same at h))
  ]
]

-- A refused call leaves a block behind: it ends within the announced seconds, and not a whole
-- second before; until it ends every call is refused and changes nothing; the seconds announced
-- by a call that starts a block are 15, 30, 60, ... up to 300.
pub denied-IsBlock :
    (s : Limits) (now seconds : ℕ)
    → (rate_limit_decision s now).0 ≡ denied seconds
    → let s' = (rate_limit_decision s now).1 in
      (until : ℕ) × IsBlock now seconds s' until
      × ((t : ℕ) → t < until → rate_limit_decision s' t ≡ (denied (retry_after until t), s'))
      × (after s.blocked_until now ≡ false → seconds ≡ backoff_seconds s.backoff_level)
denied-IsBlock s now seconds h =
    let (until, block) = denied_until s now seconds h in
    (
      until,
      block,
      λ t lt. rate_limit_decision_blocked (rate_limit_decision s now).1 until t block.0 lt,
      λ e. started s now seconds e h,
    )
