-- ===== src/Base/Arith.antt =====
-- Products and remainders by an unknown number.
use Prim.Native.Nat.{ℕ, suc, ◌+◌, ◌*◌, ◌/◌, ◌%◌, ◌≤◌, ◌<◌}
use mathlib.Core.Logic.{◌≢◌}
use native.Mathlib.Nat.{mul-le-mul_left, div-add-mod}
use native.Mathlib.Decide.{dec_lt}
use native.Mathlib.Omega.{arith}

-- Two multiples that differ are a step apart.
pub mul_step : (z q p : ℕ) → z * q < z * p → z * q + z ≤ z * p
mul_step z q p h = elim (dec_lt q p) [
  | yes lt ↦ omega (arith, mul-le-mul_left {m = suc q} {n = p} z lt)
  | no ge ↦ absurd (omega (arith, mul-le-mul_left {m = p} {n = q} z (omega arith)))
]

-- Two numbers less than `s` apart have different remainders.
pub mod_ne : (s i p : ℕ) → i < p → p < i + s → i % s ≢ p % s
mod_ne s i p h k e = omega (
  arith,
  mul_step s (i / s) (p / s) (omega (arith, div-add-mod i s, div-add-mod p s)),
  div-add-mod i s,
  div-add-mod p s,
)

-- A multiple of `z` does not cut a block of `z` numbers: it is at most the start, or at least the
-- end, of the block.
pub cut_below : (z p m x : ℕ) → x < z * p + z → z * m ≤ x → z * m ≤ z * p
cut_below z p m x below cut = elim (dec_lt (z * p) (z * m)) [
  | yes lt ↦ absurd (omega (arith, mul_step z p m lt))
  | no ge ↦ omega arith
]

pub cut_above : (z p m x : ℕ) → z * p ≤ x → x < z * m → z * p + z ≤ z * m
cut_above z p m x above cut = mul_step z p m (omega arith)
