-- ===== src/Pow/Asert.antt =====
-- core/matmul/pow_solve.cpp: `CalculateMatMulAsertTarget`, the aserti3-2d retarget formula.
-- Its __int128 values are integers here: with int32_t heights and int64_t seconds, the largest one
-- is below 2 ^ 112, so none of them wraps.
pub mod Exponent
pub mod Bounds
pub mod HalfLife
use btx_miner.Common.{ℕ, ◌+◌, ◌-◌, ◌*◌, ◌/◌, ◌%◌, ◌^◌, ◌||◌, ltb, leb, ◌==◌, if◌then◌else◌}
use btx_miner.Common.Int.{
  ℤ, pos, negsuc, pos_part, neg_part, ◌+ℤ◌, ◌-ℤ◌, ◌*ℤ◌, leb_ℤ, ltb_ℤ, tdiv_ℤ, fdiv_ℤ,
}
use btx_miner.Common.Uint256.{max_uint, shr256}
use btx_miner.Pow.Target.{
  saturating_left_shift256, saturating_multiply_by_uint32, clamp_retarget_result,
}

abbrev pub asert_radix : ℕ
asert_radix = 2 ^ 16

abbrev poly_coeff_1 : ℕ
poly_coeff_1 = 195766423245049

abbrev poly_coeff_2 : ℕ
poly_coeff_2 = 971821376

abbrev poly_coeff_3 : ℕ
poly_coeff_3 = 5127

-- The clamp of `exponent_q` to int64_t.
abbrev pub clamp_int64 : ℤ → ℤ
clamp_int64 q =
    if ltb_ℤ (pos (2 ^ 63 - 1)) q
    then pos (2 ^ 63 - 1)
    else if ltb_ℤ q (negsuc (2 ^ 63 - 1))
    then negsuc (2 ^ 63 - 1)
    else q

unfoldable pub asert_exponent : ℤ → ℤ → ℤ → ℕ → ℤ
asert_exponent time_diff height_diff target_spacing half_life =
    let ideal_delta = target_spacing *ℤ (height_diff +ℤ pos 1) in
    let exponent_input = time_diff -ℤ ideal_delta in
    let exponent_scaled = exponent_input *ℤ pos asert_radix in
    clamp_int64 (tdiv_ℤ exponent_scaled half_life)

-- `static_cast<uint32_t>(exponent) & 0xffff`: the two's complement low bits.
unfoldable pub exponent_frac : ℤ → ℕ
exponent_frac (pos n) = n % asert_radix
exponent_frac (negsuc n) = asert_radix - 1 - n % asert_radix

unfoldable pub asert_factor : ℕ → ℕ
asert_factor frac =
    let poly =
      poly_coeff_1 * frac
      + poly_coeff_2 * frac * frac
      + poly_coeff_3 * frac * frac * frac
      + 2 ^ 47 in
    asert_radix + poly / 2 ^ 48

-- The four ranges of `net_shift`, as `right` (a negative one, by its size) and `left`.
unfoldable pub shift_right : ℕ → ℕ → ℕ → ℕ
shift_right anchor factor right =
    if leb 256 right
    then 0
    else if ltb (max_uint / factor) anchor
    then saturating_multiply_by_uint32 (shr256 anchor right) factor
    else shr256 (saturating_multiply_by_uint32 anchor factor) right

unfoldable pub shift_left : ℕ → ℕ → ℕ → ℕ
shift_left anchor factor left =
    if leb 256 left
    then max_uint
    else (let next = saturating_multiply_by_uint32 anchor factor in
        if ltb 0 left then saturating_left_shift256 next left else next)

unfoldable pub apply_net_shift : ℕ → ℕ → ℤ → ℕ
apply_net_shift anchor factor (pos left) = shift_left anchor factor left
apply_net_shift anchor factor (negsuc n) = shift_right anchor factor (n + 1)

-- The target before the last two clamps.
unfoldable pub scaled_anchor : ℕ → ℤ → ℕ
scaled_anchor anchor exponent =
    apply_net_shift anchor (asert_factor (exponent_frac exponent))
      (fdiv_ℤ exponent asert_radix -ℤ pos 16)

-- `pow_limit` and `target_spacing` are the two fields of `params` that are read.
unfoldable pub calculate_matmul_asert_target : ℕ → ℤ → ℤ → ℤ → ℕ → ℤ → ℕ
calculate_matmul_asert_target anchor_target time_diff height_diff half_life pow_limit
      target_spacing =
    if anchor_target == 0 || ltb pow_limit anchor_target
    then pow_limit
    else if ltb_ℤ height_diff (pos 0)
    then pow_limit
    else if leb_ℤ half_life (pos 0) || leb_ℤ target_spacing (pos 0)
    then pow_limit
    else (let exponent = asert_exponent time_diff height_diff target_spacing (pos_part half_life) in
        let next = scaled_anchor anchor_target exponent in
        let next' = (if next == 0 then 1 else next) in clamp_retarget_result next' pow_limit)
