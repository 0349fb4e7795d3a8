-- ===== src/Pow/Target/Scale.antt =====
-- core/matmul/pow_solve.cpp: `ScaleTargetByTimespan` and `ApplyDgwSlewGuard` against exact arithmetic.
use native.Mathlib.Nat.{le-div_iff_mul-le, mul-add-div_right, div-add-mod', mod-lt, div-le_self}
use btx_miner.Common.{ℕ, ◌+◌, ◌*◌, ◌/◌, ◌%◌, ◌^◌, ◌≤◌, ◌<◌, min, max, ◌⊎◌, ◌≡◌, arith, ap, ◌∙◌}
use btx_miner.Common.Int.{ℤ, pos, ◌+ℤ◌, ◌≤ℤ◌}
use btx_miner.Common.Uint256.{max_uint, uint32_max, sub256, mul256}
use btx_miner.Pow.Target.{scale_by, scale_target_by_timespan, clamp_timespan, apply_dgw_slew_guard}
use btx_miner.Pow.Target.Saturate.{saturating_left_shift256-eq-min}

-- target * a / b, by the quotient and the remainder of the target.
split_quotient : (target a b : ℕ) → 0 < b → target * a / b ≡ target / b * a + target % b * a / b
split_quotient target a b h =
    ap (λ (t : ℕ). t / b) regroup ∙ mul-add-div_right h (target / b * a) (target % b * a)
  where
    regroup : target * a ≡ target / b * a * b + target % b * a
    regroup = omega (arith, ap (λ (t : ℕ). t * a) (div-add-mod' target b))

pub clamp_timespan_bounds : (t : ℤ) → (1 ≤ clamp_timespan t) × (clamp_timespan t ≤ uint32_max)
unfolding clamp_timespan
clamp_timespan_bounds t = ground arith

module _ (target a b : ℕ) (fits : target ≤ max_uint) (a_pos : 1 ≤ a) (a_max : a ≤ uint32_max)
    (b_pos : 1 ≤ b) (b_max : b ≤ uint32_max) where
  remainder_lem : sub256 target (mul256 (target / b) b) ≡ target % b
  remainder_lem = omega (arith, div-add-mod' target b, mod-lt target b_pos)

  remainder_small : target % b * a < 2 ^ 64
  remainder_small = grind (arith, mod-lt target b_pos)

  rest_small : target % b * a / b < 2 ^ 64
  rest_small = omega (arith, div-le_self (target % b * a) b, remainder_small)

  scale_by-eq-min : scale_by target a b ≡ min max_uint (target * a / b)
  unfolding scale_by
  scale_by-eq-min =
      rw (remainder_lem, split_quotient target a b b_pos)
        (ground (
          arith,
          remainder_small,
          rest_small,
          le-div_iff_mul-le {x = target / b} {y = max_uint} a_pos,
        ))

-- `ScaleTargetByTimespan` returns the exact floor of target * actual / span, cut off at 2 ^ 256 - 1,
-- where both timespans are first clamped to 1 .. 2 ^ 32 - 1: no intermediate step wraps.
pub scale_target_by_timespan-eq-min :
    (target : ℕ) (actual span : ℤ)
    → target ≤ max_uint
    → scale_target_by_timespan target actual span
      ≡ min max_uint (target * clamp_timespan actual / clamp_timespan span)
unfolding scale_target_by_timespan
scale_target_by_timespan-eq-min target actual span fits =
    let (a_pos, a_max) = clamp_timespan_bounds actual in
    let (b_pos, b_max) = clamp_timespan_bounds span in
    scale_by-eq-min target _ _ fits a_pos a_max b_pos b_max

-- From the guard height on, the slew guard moves any candidate into the band from a quarter of the
-- parent target (at least 1) to four times the parent target (cut off at 2 ^ 256 - 1), and returns
-- a candidate that lies in the band unchanged; below the guard height it changes nothing.
pub apply_dgw_slew_guard_band :
    (candidate parent : ℕ) (height guard_height : ℤ)
    → parent ≤ max_uint
    → let guarded = apply_dgw_slew_guard candidate parent height guard_height in
      ((height +ℤ pos 1 ≤ℤ guard_height) × (guarded ≡ candidate))
      ⊎ ((guard_height ≤ℤ height)
          × (max 1 (parent / 4) ≤ guarded)
          × (guarded ≤ max 1 (min max_uint (parent * 4)))
          × (max 1 (parent / 4) ≤ candidate
              → candidate ≤ min max_uint (parent * 4)
              → guarded ≡ candidate))
unfolding apply_dgw_slew_guard ◌+ℤ◌
apply_dgw_slew_guard_band candidate parent height guard_height fits =
    ground (arith, saturating_left_shift256-eq-min parent 2 fits)
