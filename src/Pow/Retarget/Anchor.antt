-- ===== src/Pow/Retarget/Anchor.antt =====
-- core/matmul/pow_solve.cpp: which block `MatMulAsert` anchors on.
use btx_miner.Common.{◌≡◌, ◌⊎◌, true, false, some, arith}
use btx_miner.Common.Int.{ℤ, ◌≤ℤ◌, ◌<ℤ◌}
use btx_miner.Pow.Chain.{Params, int32_max}
use btx_miner.Pow.Retarget.{
  HalfLifeInfo, resolve_half_life_info, latest_pre_upgrade_anchor_height, validate_asert_params,
  latest_configured_anchor, is_disabled_height,
}

module _ (params : Params) (valid : validate_asert_params params ≡ true) where
  retune_order :
      is_disabled_height params.retune_height ≡ false → params.asert_height ≤ℤ params.retune_height
  unfolding validate_asert_params
  retune_order h = ground arith

  retune2_order :
      is_disabled_height params.retune2_height ≡ false
      → params.asert_height ≤ℤ params.retune2_height
  unfolding validate_asert_params
  retune2_order h = ground arith

  retunes_order :
      is_disabled_height params.retune_height ≡ false
      → is_disabled_height params.retune2_height ≡ false
      → params.retune_height ≤ℤ params.retune2_height
  unfolding validate_asert_params
  retunes_order h k = ground arith

  upgrade_above :
      is_disabled_height params.upgrade_height ≡ false
      → latest_configured_anchor params <ℤ params.upgrade_height
  unfolding validate_asert_params
  upgrade_above h = ground arith

  latest_above :
      (params.asert_height ≤ℤ latest_configured_anchor params)
      × (is_disabled_height params.retune_height ≡ false
          → params.retune_height ≤ℤ latest_configured_anchor params)
      × (is_disabled_height params.retune2_height ≡ false
          → params.retune2_height ≤ℤ latest_configured_anchor params)
  unfolding latest_configured_anchor
  latest_above = ground arith

reached_enabled : (h tip : ℤ) → tip <ℤ int32_max → h ≤ℤ tip → is_disabled_height h ≡ false
reached_enabled h tip below reached = ground arith

module _ (params : Params) (tip : ℤ) (valid : validate_asert_params params ≡ true)
    (started : params.asert_height ≤ℤ tip) (below : tip <ℤ int32_max) where
  abbrev before_upgrade : ℤ
  before_upgrade = latest_pre_upgrade_anchor_height (some tip) params

  before_upgrade_le_tip : (before_upgrade ≤ℤ tip) × (params.asert_height ≤ℤ before_upgrade)
  unfolding latest_pre_upgrade_anchor_height
  before_upgrade_le_tip = ground arith

  retune2_le_before : params.retune2_height ≤ℤ tip → params.retune2_height ≤ℤ before_upgrade
  unfolding latest_pre_upgrade_anchor_height
  retune2_le_before h =
      let enabled = reached_enabled params.retune2_height tip below h in
      ground (arith, retune2_order params valid enabled)

  retune_le_before : params.retune_height ≤ℤ tip → params.retune_height ≤ℤ before_upgrade
  unfolding latest_pre_upgrade_anchor_height
  retune_le_before h =
      let enabled = reached_enabled params.retune_height tip below h in
      ground (
        arith,
        retune_order params valid enabled,
        reached_enabled params.retune2_height tip below,
        retunes_order params valid enabled,
      )

  -- An upgrade that the tip has reached lies above every retune, so it is the anchor.
  retunes_lt_upgrade :
      params.upgrade_height ≤ℤ tip
      → (params.asert_height ≤ℤ params.upgrade_height)
        × (params.retune_height ≤ℤ tip → params.retune_height ≤ℤ params.upgrade_height)
        × (params.retune2_height ≤ℤ tip → params.retune2_height ≤ℤ params.upgrade_height)
  retunes_lt_upgrade h =
      let above = upgrade_above params valid (reached_enabled params.upgrade_height tip below h) in
      let l = latest_above params valid in
      (
        omega arith,
        λ r. omega (arith, l.1 (reached_enabled params.retune_height tip below r)),
        λ r. omega (arith, l.2 (reached_enabled params.retune2_height tip below r)),
      )

  abbrev resolved : HalfLifeInfo
  resolved = resolve_half_life_info (some tip) params

  resolved_after :
      params.upgrade_height ≤ℤ tip
      → (resolved.current_anchor_height ≡ params.upgrade_height)
        × (resolved.current_half_life ≡ params.upgrade_half_life)
  unfolding resolve_half_life_info
  resolved_after h = ground (arith, reached_enabled params.upgrade_height tip below h)

  resolved_before :
      tip <ℤ params.upgrade_height
      → (resolved.current_anchor_height ≡ before_upgrade)
        × (resolved.current_half_life ≡ params.asert_half_life)
  unfolding resolve_half_life_info
  resolved_before h = ground arith

-- One of the four heights that the parameters configure.
abbrev pub IsConfigured : Params → ℤ → Type 0
IsConfigured params h =
    (h ≡ params.asert_height)
    ⊎ ((h ≡ params.retune_height) ⊎ ((h ≡ params.retune2_height) ⊎ (h ≡ params.upgrade_height)))

pre_upgrade-IsConfigured :
    (params : Params) (tip : ℤ)
    → IsConfigured params (latest_pre_upgrade_anchor_height (some tip) params)
unfolding latest_pre_upgrade_anchor_height
pre_upgrade-IsConfigured params tip = ground arith

resolved-IsConfigured :
    (params : Params) (tip : ℤ)
    → IsConfigured params (resolve_half_life_info (some tip) params).current_anchor_height
unfolding resolve_half_life_info
resolved-IsConfigured params tip = ground (arith, pre_upgrade-IsConfigured params tip)

-- With validated parameters and a tip at or above the ASERT start and below INT32_MAX, the anchor is one
-- of the four configured heights: where the rule starts, is retuned, is retuned again, or changes its
-- half-life. It is not above the tip, and no configured height that the tip has reached is above it.
-- The new half-life is in force exactly from its height on.
pub resolve_half_life_info_latest :
    (params : Params) (tip : ℤ)
    → validate_asert_params params ≡ true
    → params.asert_height ≤ℤ tip
    → tip <ℤ int32_max
    → let info = resolve_half_life_info (some tip) params in
      let anchor = info.current_anchor_height in
      IsConfigured params anchor
      × (anchor ≤ℤ tip)
      × (params.asert_height ≤ℤ anchor)
      × (params.retune_height ≤ℤ tip → params.retune_height ≤ℤ anchor)
      × (params.retune2_height ≤ℤ tip → params.retune2_height ≤ℤ anchor)
      × (params.upgrade_height ≤ℤ tip
          → (anchor ≡ params.upgrade_height) × (info.current_half_life ≡ params.upgrade_half_life))
      × (tip <ℤ params.upgrade_height → info.current_half_life ≡ params.asert_half_life)
resolve_half_life_info_latest params tip valid started below = ground (
  arith,
  resolved-IsConfigured params tip,
  resolved_after params tip valid started below,
  resolved_before params tip valid started below,
  before_upgrade_le_tip params tip valid started below,
  retune_le_before params tip valid started below,
  retune2_le_before params tip valid started below,
  retunes_lt_upgrade params tip valid started below,
)
