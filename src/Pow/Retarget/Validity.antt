-- ===== src/Pow/Retarget/Validity.antt =====
-- core/matmul/pow_solve.cpp: what every branch of `MatMulAsert` returns, read back by `DeriveTarget`.
use btx_miner.Common.{
  ℕ, ◌≤◌, ◌≡◌, refl, Bool, true, false, ◌||◌, Option, none, some, arith, ◌∷◌, if◌then◌else◌, not,
}
use btx_miner.Common.Int.{ℤ, pos, ◌+ℤ◌, ltb_ℤ, ◌==ℤ◌}
use btx_miner.Pow.Target.{clamp_retarget_result}
use btx_miner.Pow.Asert.Bounds.{calculate_matmul_asert_target_bounds}
use btx_miner.Pow.Chain.{Block, Chain, Params, Vendored, int32_max, find_genesis_block_index}
use btx_miner.Pow.Retarget.{
  fast_mine_bootstrap_bits, asert_bootstrap_bits, asert_retune_bits, asert_retune2_bits,
  asert_upgrade_bits, asert_anchored_bits, asert_from_anchor, matmul_asert, validate_asert_params,
}

pub clamp_retarget_result_bounds :
    (t limit : ℕ)
    → 1 ≤ limit
    → (1 ≤ clamp_retarget_result t limit) × (clamp_retarget_result t limit ≤ limit)
unfolding clamp_retarget_result
clamp_retarget_result_bounds t limit h = ground arith

module _ (v : Vendored) (params : Params) where
  -- The compact form of a target between 1 and the proof-of-work limit.
  abbrev pub IsInRange : ℕ → Type 0
  IsInRange bits = (t : ℕ) × (bits ≡ v.get_compact t) × (1 ≤ t) × (t ≤ params.pow_limit)

  module _ (live : 1 ≤ params.pow_limit) where
    pub clamped : (t : ℕ) → IsInRange (v.get_compact (clamp_retarget_result t params.pow_limit))
    clamped t = let b = clamp_retarget_result_bounds t params.pow_limit live in (_, refl, b.0, b.1)

    pub limit_IsInRange : IsInRange (v.get_compact params.pow_limit)
    limit_IsInRange = (params.pow_limit, refl, live, omega arith)

    anchored-IsInRange :
        (tip anchor : Block) (half_life : ℤ)
        → IsInRange (asert_anchored_bits v params tip anchor half_life)
    unfolding asert_anchored_bits
    anchored-IsInRange tip anchor half_life =
        let b =
          calculate_matmul_asert_target_bounds _ _ _ half_life params.pow_limit
            params.target_spacing live in
        (_, refl, b.0, b.1)

    pub either : (b : Bool) {x y : ℕ} → IsInRange x → IsInRange y → IsInRange (if b then x else y)
    either true p q = p
    either false p q = q

    found_or_limit :
        (o : Option Block) (f : Block → ℕ)
        → ((b : Block) → IsInRange (f b))
        → IsInRange (elim o [ none ↦ v.get_compact params.pow_limit | some b ↦ f b ])
    found_or_limit none f h = limit_IsInRange
    found_or_limit (some b) f h = h b

    from_anchor-IsInRange :
        (tip : Block) (rest : Chain) → IsInRange (asert_from_anchor v params tip rest)
    unfolding asert_from_anchor
    from_anchor-IsInRange tip rest =
        either _ limit_IsInRange (found_or_limit _ _ (λ anchor. anchored-IsInRange tip anchor _))

    pub matmul_asert-IsInRange :
        (tip : Block) (rest : Chain) → IsInRange (matmul_asert v params tip rest)
    unfolding matmul_asert fast_mine_bootstrap_bits asert_bootstrap_bits asert_retune_bits
        asert_retune2_bits asert_upgrade_bits
    matmul_asert-IsInRange tip rest =
        let next = tip.height +ℤ pos 1 in
        either (ltb_ℤ next (pos 0) || ltb_ℤ int32_max next) limit_IsInRange (
          either (ltb_ℤ next params.asert_height)
            (found_or_limit (find_genesis_block_index (tip ∷ rest))
              (fast_mine_bootstrap_bits v params) (λ genesis. clamped _))
            (either (not (validate_asert_params params)) limit_IsInRange (
              either (next ==ℤ params.asert_height) (clamped _) (
                either (next ==ℤ params.retune_height) (clamped _) (
                  either (next ==ℤ params.retune2_height) (clamped _) (
                    either (next ==ℤ params.upgrade_height) (clamped _)
                      (from_anchor-IsInRange tip rest)))))))
