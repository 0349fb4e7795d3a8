-- ===== src/Pow/Asert/Exponent.antt =====
-- core/matmul/pow_solve.cpp: the exponent and the factor of `CalculateMatMulAsertTarget` at whole
-- numbers of half-lives after or before the schedule.
use native.Mathlib.Nat.{mul-div_cancel}
use btx_miner.Common.{ℕ, ◌+◌, ◌*◌, ◌/◌, ◌^◌, ◌≤◌, ◌<◌, ◌≡◌, ap, ◌∙◌, arith}
use btx_miner.Common.Int.{pos, sub_ℕ, ◌+ℤ◌, ◌-ℤ◌, ◌*ℤ◌}
use btx_miner.Pow.Asert.{asert_exponent, asert_radix}

module _ (spacing height half_life k : ℕ) (live : 1 ≤ half_life) (near : k < 2 ^ 47) where
  late_quotient : k * half_life * asert_radix / half_life ≡ k * asert_radix
  late_quotient = ap (λ (t : ℕ). t / half_life) regroup ∙ mul-div_cancel (k * asert_radix) live
    where
      regroup : k * half_life * asert_radix ≡ k * asert_radix * half_life
      regroup = grind arith

  pub asert_exponent_late :
      asert_exponent
        (pos (spacing * (height + 1) + k * half_life))
        (pos height)
        (pos spacing)
        half_life
      ≡ pos (k * asert_radix)
  unfolding asert_exponent ◌+ℤ◌ ◌-ℤ◌ ◌*ℤ◌
  asert_exponent_late = ground (arith, late_quotient)

  pub asert_exponent_early :
      asert_exponent
        (sub_ℕ (spacing * (height + 1)) (k * half_life))
        (pos height)
        (pos spacing)
        half_life
      ≡ sub_ℕ 0 (k * asert_radix)
  unfolding asert_exponent ◌+ℤ◌ ◌-ℤ◌ ◌*ℤ◌
  asert_exponent_early = ground (arith, late_quotient)
