-- ===== src/Pow/Target.antt =====
-- core/matmul/pow_solve.cpp: the saturating target arithmetic that every retarget rule is built on.
pub mod Saturate
pub mod Scale
use btx_miner.Common.{ℕ, ◌-◌, ◌/◌, ◌^◌, ◌||◌, ltb, leb, ◌==◌, if◌then◌else◌}
use btx_miner.Common.Int.{ℤ, pos, pos_part, leb_ℤ, ltb_ℤ}
use btx_miner.Common.Uint256.{max_uint, uint32_max, add256, sub256, mul256, shl256, shr256}

unfoldable pub saturating_left_shift256 : ℕ → ℕ → ℕ
saturating_left_shift256 val shift =
    if shift == 0 || val == 0
    then val
    else if leb 256 shift
    then (if val == 0 then 0 else max_uint)
    else if ltb (shr256 max_uint shift) val
    then max_uint
    else shl256 val shift

unfoldable pub clamp_retarget_result : ℕ → ℕ → ℕ
clamp_retarget_result target pow_limit =
    let t = if target == 0 then 1 else target in if ltb pow_limit t then pow_limit else t

unfoldable pub saturating_multiply_by_uint32 : ℕ → ℕ → ℕ
saturating_multiply_by_uint32 value factor =
    if value == 0 || factor == 0
    then 0
    else if ltb (max_uint / factor) value
    then max_uint
    else mul256 value factor

-- One of the two timespans, as the `uint32_t` that the code clamps it to.
unfoldable pub clamp_timespan : ℤ → ℕ
clamp_timespan t =
    let t' = if leb_ℤ t (pos 0) then pos 1 else t in
    if ltb_ℤ (pos uint32_max) t' then uint32_max else pos_part t'

scale_by : ℕ → ℕ → ℕ → ℕ
scale_by target actual span =
    let quotient = target / span in
    let remainder = sub256 target (mul256 quotient span) in
    if ltb (max_uint / actual) quotient
    then max_uint
    else (let scaled = mul256 quotient actual in
        let rest = mul256 remainder actual / span in
        if ltb (sub256 max_uint rest) scaled then max_uint else add256 scaled rest)

unfoldable pub scale_target_by_timespan : ℕ → ℤ → ℤ → ℕ
unfolding scale_by clamp_timespan
scale_target_by_timespan target actual span =
    scale_by target (clamp_timespan actual) (clamp_timespan span)

-- `guard_height` is `params.nDgwSlewGuardHeight`.
unfoldable pub apply_dgw_slew_guard : ℕ → ℕ → ℤ → ℤ → ℕ
apply_dgw_slew_guard candidate parent next_height guard_height =
    let ease = saturating_left_shift256 parent 2 in
    let eased = if ltb ease candidate then ease else candidate in
    let harden = (let h = shr256 parent 2 in if h == 0 then 1 else h) in
    if ltb_ℤ next_height guard_height
    then candidate
    else (if ltb eased harden then harden else eased)
