-- ===== src/Common/Powers.antt =====
-- Powers of two and products, for backoffs that double.
use Prim.Native.Nat.{ℕ, zero, suc, ◌*◌, ◌^◌, ◌≤◌}
use native.Mathlib.Omega.{arith}

pub one-le-pow : (n : ℕ) → 1 ≤ 2 ^ n
one-le-pow zero = omega arith
one-le-pow (suc n) = omega (arith, one-le-pow n)

pub le_mul : (a p : ℕ) → 1 ≤ p → a ≤ a * p
le_mul a zero h = omega arith
le_mul a (suc p) h = omega arith
