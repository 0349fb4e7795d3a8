-- ===== src/Pow/Target/Saturate.antt =====
-- core/matmul/pow_solve.cpp: the saturating shift and product against exact arithmetic.
use native.Mathlib.Nat.{le-div_iff_mul-le, one-le-pow, pow-le-pow_right}
use btx_miner.Common.{ℕ, zero, suc, ◌↔◌, ◌*◌, ◌/◌, ◌^◌, ◌≤◌, ◌<◌, min, ◌≡◌, arith}
use btx_miner.Common.Uint256.{max_uint}
use btx_miner.Pow.Target.{saturating_left_shift256, saturating_multiply_by_uint32}

-- The product by a `uint32_t` saturates: it is the exact product, cut off at 2 ^ 256 - 1.
pub saturating_multiply_by_uint32-eq-min :
    (value factor : ℕ) → saturating_multiply_by_uint32 value factor ≡ min max_uint (value * factor)
unfolding saturating_multiply_by_uint32
saturating_multiply_by_uint32-eq-min value factor = grind (arith, le-div_iff_mul-le)

-- From 256 bits on, any nonzero value is shifted past the top.
pub shift_out : (value shift : ℕ) → 256 ≤ shift → 0 < value → max_uint < value * 2 ^ shift
shift_out value shift far nonzero =
    let big : 2 ^ 256 ≤ 2 ^ shift = pow-le-pow_right (omega arith) far in grind arith

shift_fits : (value shift : ℕ) → (value ≤ max_uint / 2 ^ shift) ↔ (value * 2 ^ shift ≤ max_uint)
shift_fits value shift = le-div_iff_mul-le (one-le-pow shift 2 (omega arith))

-- The left shift saturates: it is the exact `value * 2 ^ shift`, cut off at 2 ^ 256 - 1.
pub saturating_left_shift256-eq-min :
    (value shift : ℕ)
    → value ≤ max_uint
    → saturating_left_shift256 value shift ≡ min max_uint (value * 2 ^ shift)
unfolding saturating_left_shift256
saturating_left_shift256-eq-min value zero h = ground arith
saturating_left_shift256-eq-min value (suc k) h =
    ground
      (arith, shift_out value (suc k), (shift_fits value (suc k)).0, (shift_fits value (suc k)).1)
