-- ===== src/Pow/Dgw.antt =====
-- core/matmul/pow_solve.cpp: the two Dark Gravity Wave rules. The code keeps `DarkGravityWaveMatMul`
-- for tests only; `GetNextWorkRequired` routes MatMul networks to ASERT. Its `assert`s (a tip that is
-- not null, a positive warmup timespan) are taken as given.
use btx_miner.Common.{
  ℕ, ◌+◌, ◌-◌, ◌*◌, ◌/◌, ◌^◌, ◌&&◌, ◌||◌, [], ◌∷◌, Option, none, some, ltb, ◌==◌, if◌then◌else◌,
}
use btx_miner.Common.Int.{ℤ, pos, ◌+ℤ◌, ◌-ℤ◌, ◌*ℤ◌, leb_ℤ, ltb_ℤ, ◌==ℤ◌, tdiv_ℤ}
use btx_miner.Common.Uint256.{add256, mul256}
use btx_miner.Pow.Chain.{Block, Chain, Params, Vendored, int32_max, find_genesis_block_index}
use btx_miner.Pow.Target.{clamp_retarget_result, scale_target_by_timespan, apply_dgw_slew_guard}
use btx_miner.Pow.Retarget.{fast_mine_bootstrap_bits, max_ℤ}

abbrev pub dgw_past_blocks : ℕ
dgw_past_blocks = 180

abbrev int64_max : ℤ
int64_max = pos (2 ^ 63 - 1)

-- The two `if`s that clamp a timespan, lower bound first.
abbrev pub clamp_span : ℤ → ℤ → ℤ → ℤ
clamp_span lo hi span =
    let raised = (if ltb_ℤ span lo then lo else span) in if ltb_ℤ hi raised then hi else raised

unfoldable pub dampen_warmup_timespan : ℤ → ℤ → ℤ
dampen_warmup_timespan observed target =
    let threshold = (if ltb_ℤ (tdiv_ℤ int64_max 2) target then int64_max else target *ℤ pos 2) in
    if leb_ℤ observed threshold then observed else target +ℤ tdiv_ℤ (observed -ℤ target) 2

unfoldable pub expected_dgw_timespan : ℤ → Params → ℤ
expected_dgw_timespan height params =
    let interval_count =
      (if leb_ℤ params.window_alignment_height height && ltb 1 dgw_past_blocks
        then dgw_past_blocks - 1
        else dgw_past_blocks) in
    if ltb_ℤ height params.fast_mine_height
    then tdiv_ℤ (pos interval_count *ℤ params.spacing_fast_ms) 1000
    else pos interval_count *ℤ params.spacing_normal

module _ (v : Vendored) (params : Params) where
  -- The averaging loop, from block number `count` of the window on: the average and the oldest
  -- block of the window, or `none` where the chain is too short.
  unfoldable pub dgw_window : ℕ → ℕ → Chain → Option (ℕ × Block)
  dgw_window count average [] = none
  dgw_window count average (b ∷ rest) =
      let target = v.set_compact b.bits in
      let average' =
        (if count == 1 then target else add256 (mul256 average count) target / (count + 1)) in
      let older = dgw_window (count + 1) average' rest in
      if count == dgw_past_blocks then some (average', b) else older

  unfoldable pub dgw_legacy_bits : Block → ℕ → Block → ℕ
  dgw_legacy_bits tip average oldest =
      let span = pos dgw_past_blocks *ℤ params.target_spacing in
      let actual = clamp_span (tdiv_ℤ span 3) (span *ℤ pos 3) (tip.time -ℤ oldest.time) in
      if leb_ℤ span (pos 0)
      then v.get_compact params.pow_limit
      else v.get_compact
          (clamp_retarget_result (scale_target_by_timespan average actual span) params.pow_limit)

  unfoldable pub dark_gravity_wave_legacy : Block → Chain → ℕ
  unfolding dgw_legacy_bits
  dark_gravity_wave_legacy tip rest =
      if ltb_ℤ tip.height (pos dgw_past_blocks)
      then v.get_compact params.pow_limit
      else elim (dgw_window 1 0 (tip ∷ rest)) [
        | none ↦ v.get_compact params.pow_limit
        | some (average, oldest) ↦ dgw_legacy_bits tip average oldest
      ]

  -- The retarget of the transition from the fast phase.
  unfoldable pub dgw_warmup_bits : ℕ → Block → Chain → ℕ
  dgw_warmup_bits bootstrap_bits tip rest =
      let span = params.spacing_normal in
      let observed : ℤ = elim rest [
        | [] ↦ params.spacing_normal
        | prev ∷ _ ↦ tip.time -ℤ prev.time
      ] in
      let min_span = max_ℤ (pos 1) (tdiv_ℤ (span *ℤ pos 5) 6) in
      let max_span = max_ℤ min_span (tdiv_ℤ (span *ℤ pos 3) 1) in
      let actual = clamp_span min_span max_span (dampen_warmup_timespan observed span) in
      let scaled = scale_target_by_timespan (v.set_compact tip.bits) actual span in
      let floor = v.set_compact bootstrap_bits in
      let floored = (if ltb floor scaled then floor else scaled) in
      v.get_compact (clamp_retarget_result floored params.pow_limit)

  -- The clamp profile of a height: the four numbers of its hardening and easing bounds.
  unfoldable pub dgw_clamp_profile : ℤ → ℕ × ℕ × ℕ × ℕ
  dgw_clamp_profile next_height =
      if leb_ℤ params.asymmetric_clamp_height next_height
      then (if leb_ℤ params.easing_boost_height next_height then (3, 4, 3, 1) else (3, 4, 2, 1))
      else (2, 3, 3, 2)

  unfoldable pub dgw_normal_bits : ℤ → Block → ℕ → Block → ℕ
  dgw_normal_bits next_height tip average oldest =
      let span = expected_dgw_timespan next_height params in
      let (min_num, min_den, max_num, max_den) = dgw_clamp_profile next_height in
      let min_span = max_ℤ (pos 1) (tdiv_ℤ (span *ℤ pos min_num) min_den) in
      let max_span = max_ℤ min_span (tdiv_ℤ (span *ℤ pos max_num) max_den) in
      let actual = clamp_span min_span max_span (tip.time -ℤ oldest.time) in
      let scaled = scale_target_by_timespan average actual span in
      let guarded =
        apply_dgw_slew_guard scaled (v.set_compact tip.bits) next_height params.slew_guard_height in
      if leb_ℤ span (pos 0)
      then v.get_compact params.pow_limit
      else v.get_compact (clamp_retarget_result guarded params.pow_limit)

  -- The phases after the genesis block has been found.
  unfoldable pub dgw_phase_bits : ℤ → ℕ → Block → Chain → ℕ
  dgw_phase_bits next_height bootstrap_bits tip rest =
      if ltb_ℤ next_height params.fast_mine_height
      then bootstrap_bits
      else if ltb_ℤ tip.height (pos dgw_past_blocks)
      then bootstrap_bits
      else if leb_ℤ params.fast_mine_height next_height
          && ltb_ℤ next_height (params.fast_mine_height +ℤ pos (2 * dgw_past_blocks))
      then (if next_height ==ℤ params.fast_mine_height
          then tip.bits
          else dgw_warmup_bits bootstrap_bits tip rest)
      else elim (dgw_window 1 0 (tip ∷ rest)) [
        | none ↦ v.get_compact params.pow_limit
        | some (average, oldest) ↦ dgw_normal_bits next_height tip average oldest
      ]

  unfoldable pub dark_gravity_wave_matmul : Block → Chain → ℕ
  dark_gravity_wave_matmul tip rest =
      let next_height = tip.height +ℤ pos 1 in
      elim (find_genesis_block_index (tip ∷ rest)) [
        | none ↦ v.get_compact params.pow_limit
        | some genesis ↦
            if ltb_ℤ next_height (pos 0) || ltb_ℤ int32_max next_height
            then v.get_compact params.pow_limit
            else dgw_phase_bits next_height (fast_mine_bootstrap_bits v params genesis) tip rest
      ]
