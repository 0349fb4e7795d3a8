-- ===== src/Pow/Retarget.antt =====
-- core/matmul/pow_solve.cpp: the ASERT retarget rule `MatMulAsert`, which every MatMul network uses.
pub mod Anchor
pub mod Validity
use btx_miner.Common.{
  ℕ, ◌+◌, ◌-◌, ◌*◌, ◌/◌, ◌^◌, ◌≤◌, ◌≡◌, max, Bool, true, false, not, ◌&&◌, ◌||◌, List, [], ◌∷◌,
  Option, none, some, ltb, leb, ◌==◌, if◌then◌else◌,
}
use btx_miner.Common.Int.{ℤ, pos, negsuc, ◌+ℤ◌, ◌-ℤ◌, leb_ℤ, ltb_ℤ, ◌==ℤ◌}
use btx_miner.Common.Uint256.{mul256}
use btx_miner.Pow.Chain.{Block, Chain, Params, Vendored, int32_max, find_genesis_block_index}
use btx_miner.Pow.Target.{
  clamp_retarget_result, saturating_multiply_by_uint32, scale_target_by_timespan,
}
use btx_miner.Pow.Asert.{calculate_matmul_asert_target}

abbrev pub is_disabled_height : ℤ → Bool
is_disabled_height h = h ==ℤ int32_max

abbrev pub is_upgrade_configured : Params → Bool
is_upgrade_configured params = not (is_disabled_height params.upgrade_height)

-- `params` may have a null tip; the height of the tip is `none` then.
unfoldable pub latest_pre_upgrade_anchor_height : Option ℤ → Params → ℤ
latest_pre_upgrade_anchor_height none params = params.asert_height
latest_pre_upgrade_anchor_height (some tip) params =
    if leb_ℤ params.asert_height params.retune2_height && leb_ℤ params.retune2_height tip
    then params.retune2_height
    else if leb_ℤ params.asert_height params.retune_height && leb_ℤ params.retune_height tip
    then params.retune_height
    else params.asert_height

pub record HalfLifeInfo : Type 0 where
  pub current_half_life : ℤ
  pub current_anchor_height : ℤ
  pub upgrade_configured : Bool
  pub upgrade_active : Bool
  pub info_upgrade_height : ℤ
  pub info_upgrade_half_life : ℤ

-- Whether the tip is at or above the upgrade height; a null tip never is.
abbrev pub tip_reaches : ℤ → Option ℤ → Bool
tip_reaches h none = false
tip_reaches h (some tip) = leb_ℤ h tip

unfoldable pub resolve_half_life_info : Option ℤ → Params → HalfLifeInfo
resolve_half_life_info tip params =
    let configured = is_upgrade_configured params in
    let info : HalfLifeInfo = record {
      current_half_life = params.asert_half_life;
      current_anchor_height = latest_pre_upgrade_anchor_height tip params;
      upgrade_configured = configured;
      upgrade_active = false;
      info_upgrade_height = if configured then params.upgrade_height else negsuc 0;
      info_upgrade_half_life =
          if configured then params.upgrade_half_life else params.asert_half_life;
    } in
    if configured && tip_reaches params.upgrade_height tip
    then record info {
      upgrade_active = true;
      current_half_life = params.upgrade_half_life;
      current_anchor_height = params.upgrade_height;
    }
    else info

abbrev pub max_ℤ : ℤ → ℤ → ℤ
max_ℤ a b = if ltb_ℤ a b then b else a

-- The anchors that may come before the half-life upgrade.
latest_configured_anchor : Params → ℤ
latest_configured_anchor params =
    let base = params.asert_height in
    let after_retune =
      (if is_disabled_height params.retune_height then base else max_ℤ base params.retune_height) in
    if is_disabled_height params.retune2_height
    then after_retune
    else max_ℤ after_retune params.retune2_height

unfoldable pub validate_asert_params : Params → Bool
unfolding latest_configured_anchor
validate_asert_params params =
    let retune_enabled = not (is_disabled_height params.retune_height) in
    let retune2_enabled = not (is_disabled_height params.retune2_height) in
    if leb_ℤ params.asert_half_life (pos 0)
    then false
    else if leb_ℤ params.target_spacing (pos 0)
    then false
    else if params.bootstrap_factor == 0
    then false
    else if params.retune_hardening_factor == 0
    then false
    else if params.retune2_num == 0 || params.retune2_den == 0
    then false
    else if retune_enabled && ltb_ℤ params.retune_height params.asert_height
    then false
    else if retune2_enabled && ltb_ℤ params.retune2_height params.asert_height
    then false
    else if retune_enabled && retune2_enabled && ltb_ℤ params.retune2_height params.retune_height
    then false
    else if is_upgrade_configured params
    then (if leb_ℤ params.upgrade_half_life (pos 0)
        then false
        else not (leb_ℤ params.upgrade_height (latest_configured_anchor params)))
    else true

module _ (v : Vendored) (params : Params) where
  unfoldable pub fast_mine_bootstrap_bits : Block → ℕ
  fast_mine_bootstrap_bits genesis =
      let start = v.set_compact genesis.bits in
      let scale = max params.fast_mine_scale 1 in
      let scaled =
        (if ltb 1 scale
          then (if ltb (params.pow_limit / scale) start
              then params.pow_limit
              else mul256 start scale)
          else start) in
      v.get_compact (clamp_retarget_result scaled params.pow_limit)

  -- The blocks at which ASERT starts, is retuned, or is re-anchored.
  unfoldable pub asert_bootstrap_bits : Block → ℕ
  asert_bootstrap_bits tip =
      let parent = v.set_compact tip.bits in
      let scaled =
        (if ltb 1 params.bootstrap_factor
          then saturating_multiply_by_uint32 parent params.bootstrap_factor
          else parent) in
      v.get_compact (clamp_retarget_result scaled params.pow_limit)

  unfoldable pub asert_retune_bits : Block → ℕ
  asert_retune_bits tip =
      let parent = v.set_compact tip.bits in
      let hardened =
        (if ltb 1 params.retune_hardening_factor
          then parent / params.retune_hardening_factor
          else parent) in
      v.get_compact (clamp_retarget_result hardened params.pow_limit)

  unfoldable pub asert_retune2_bits : Block → ℕ
  asert_retune2_bits tip =
      let parent = v.set_compact tip.bits in
      let scaled =
        scale_target_by_timespan parent (pos params.retune2_num) (pos params.retune2_den) in
      v.get_compact (clamp_retarget_result scaled params.pow_limit)

  unfoldable pub asert_upgrade_bits : Block → ℕ
  asert_upgrade_bits tip =
      v.get_compact (clamp_retarget_result (v.set_compact tip.bits) params.pow_limit)

  -- From the anchor block on.
  unfoldable pub asert_anchored_bits : Block → Block → ℤ → ℕ
  asert_anchored_bits tip anchor half_life =
      let decoded = v.set_compact anchor.bits in
      let anchor_target =
        (if decoded == 0 || ltb params.pow_limit decoded then params.pow_limit else decoded) in
      v.get_compact (
        calculate_matmul_asert_target anchor_target (tip.time -ℤ anchor.time)
          (tip.height -ℤ anchor.height) half_life params.pow_limit params.target_spacing)

  unfoldable pub asert_from_anchor : Block → Chain → ℕ
  asert_from_anchor tip rest =
      let info = resolve_half_life_info (some tip.height) params in
      let anchor_height = info.current_anchor_height in
      if ltb_ℤ anchor_height (pos 0) || ltb_ℤ tip.height anchor_height
      then v.get_compact params.pow_limit
      else elim (v.get_ancestor (tip ∷ rest) anchor_height) [
        | none ↦ v.get_compact params.pow_limit
        | some anchor ↦ asert_anchored_bits tip anchor info.current_half_life
      ]

  -- The tip is not null (the code asserts it): `tip ∷ rest` is the chain.
  unfoldable pub matmul_asert : Block → Chain → ℕ
  matmul_asert tip rest =
      let next_height = tip.height +ℤ pos 1 in
      let limit_bits = v.get_compact params.pow_limit in
      if ltb_ℤ next_height (pos 0) || ltb_ℤ int32_max next_height
      then limit_bits
      else if ltb_ℤ next_height params.asert_height
      then elim (find_genesis_block_index (tip ∷ rest)) [
        | none ↦ limit_bits
        | some genesis ↦ fast_mine_bootstrap_bits genesis
      ]
      else if not (validate_asert_params params)
      then limit_bits
      else if next_height ==ℤ params.asert_height
      then asert_bootstrap_bits tip
      else if next_height ==ℤ params.retune_height
      then asert_retune_bits tip
      else if next_height ==ℤ params.retune2_height
      then asert_retune2_bits tip
      else if next_height ==ℤ params.upgrade_height
      then asert_upgrade_bits tip
      else asert_from_anchor tip rest
