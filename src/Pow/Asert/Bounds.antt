-- ===== src/Pow/Asert/Bounds.antt =====
-- core/matmul/pow_solve.cpp: the range of `CalculateMatMulAsertTarget`.
use btx_miner.Common.{ℕ, ◌*◌, ◌≤◌, ◌<◌, arith}
use btx_miner.Common.Int.{ℤ, pos, negsuc}
use btx_miner.Pow.Asert.{asert_factor, exponent_frac, asert_radix, calculate_matmul_asert_target}
use btx_miner.Pow.Target.{clamp_retarget_result}

exponent_frac-lt : (e : ℤ) → exponent_frac e < asert_radix
unfolding exponent_frac
exponent_frac-lt (pos n) = omega arith
exponent_frac-lt (negsuc n) = omega arith

-- With a 16-bit fraction the cubic factor stays between 1 and 2 (as a 16-bit fixed-point number),
-- so it fits `uint32_t`.
pub asert_factor_bounds :
    (frac : ℕ)
    → frac < asert_radix
    → (asert_radix ≤ asert_factor frac) × (asert_factor frac ≤ 2 * asert_radix)
unfolding asert_factor
asert_factor_bounds frac h = grind arith

-- Whatever the inputs, the next target is at least 1 and at most the proof-of-work limit.
pub calculate_matmul_asert_target_bounds :
    (anchor : ℕ) (time_diff height_diff half_life : ℤ) (pow_limit : ℕ) (spacing : ℤ)
    → 1 ≤ pow_limit
    → let next =
        calculate_matmul_asert_target anchor time_diff height_diff half_life pow_limit spacing in
      (1 ≤ next) × (next ≤ pow_limit)
unfolding calculate_matmul_asert_target clamp_retarget_result
calculate_matmul_asert_target_bounds anchor time_diff height_diff half_life pow_limit spacing h =
    ground arith
