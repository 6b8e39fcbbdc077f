-- ===== src/AuthLimits/Window.antt =====
-- What a window lets through, and what the one after it refuses.
use egogero.Common.{
  one-le-pow, le_mul, ℕ, ◌+◌, ◌^◌, ◌≤◌, ◌<◌, min, ◌≡◌, sym, subst, inl, inr, true, false, some,
  List, [], ◌∷◌, arith, if◌then◌else◌, Bool-cases, All,
}
use egogero.AuthLimits.{
  Policy, Bucket, blocked_or, next_block, upsert, no_row, check_consume, check_peek,
}

-- The calls let through, of consuming calls one after the other.
abbrev pub granted : Policy → List ℕ → Bucket → ℕ
granted p [] b = 0
granted p (now ∷ times) b =
    (if (check_consume p now (some b)).0.allowed then 1 else 0)
    + granted p times (check_consume p now (some b)).1

-- Every time is before the end of a window that started at `start`.
abbrev pub WithinWindow : Policy → ℕ → List ℕ → Type 0
WithinWindow p start times = All (λ now. now < start + p.window_ms) times

step_granted :
    (p : Policy) (now : ℕ) (b : Bucket)
    → now < b.window_started_at + p.window_ms
    → ((check_consume p now (some b)).1.window_started_at ≡ b.window_started_at)
      × ((check_consume p now (some b)).1.count ≡ b.count + 1)
      × ((check_consume p now (some b)).0.allowed ≡ true → b.count + 1 ≤ p.limit)
unfolding check_consume upsert
step_granted p now b inside =
    (ground (arith, inside), ground (arith, inside), λ h. ground (arith, inside, h))

-- However many calls are made in one window and in whatever order their clocks stand, it lets no
-- more through than the limit leaves after the calls that are counted already.
pub granted-bounded :
    (p : Policy) (times : List ℕ) (b : Bucket)
    → WithinWindow p b.window_started_at times
    → granted p times b + min b.count p.limit ≤ p.limit
granted-bounded p [] b inside = omega arith
granted-bounded p (now ∷ times) b (first_inside, rest_inside) =
    let (same_start, one_more, room) = step_granted p now b first_inside in
    let next = (check_consume p now (some b)).1 in
    let later =
      granted-bounded p times next
        (subst (λ start. WithinWindow p start times) (sym same_start) rest_inside) in
    elim (Bool-cases (check_consume p now (some b)).0.allowed) [
      | inl through ↦ rw through (omega (arith, later, one_more, room through))
      | inr refused ↦ rw refused (omega (arith, later, one_more))
    ]

new_block :
    (p : Policy) (now : ℕ) (b : Bucket)
    → 0 < p.backoff_ms
    → p.limit ≤ b.count
    → now < blocked_or now (next_block p now b)
new_block p now b backs_off full =
    let k = min 4 b.denied_count in
    ground (arith, backs_off, full, le_mul p.backoff_ms (2 ^ k) (one-le-pow k))

-- A policy with a backoff refuses the first call of a new window where the window before it was
-- used up, even if no call had been refused: the block is computed from the count of the old
-- window.
pub new_window-refused :
    (p : Policy) (now : ℕ) (b : Bucket)
    → 0 < p.backoff_ms
    → p.limit ≤ b.count
    → b.window_started_at + p.window_ms ≤ now
    → ((check_consume p now (some b)).0.allowed ≡ false)
      × ((check_consume p now (some b)).1.count ≡ 1)
      × (check_peek p now (some b) ≡ no_row)
unfolding check_consume upsert check_peek
new_window-refused p now b backs_off full over =
    (ground (arith, new_block p now b backs_off full), ground (arith, over), ground (arith, over))
