-- ===== src/Pow/Work/Dampened.antt =====
-- core/matmul/pow_solve.cpp: what `DarkGravityWaveMatMul` returns is what `DeriveTarget` accepts.
use btx_miner.Common.{
  ℕ, ◌≤◌, ◌≡◌, ◌||◌, ◌&&◌, Bool, true, false, Option, none, some, ◌∷◌, arith, if◌then◌else◌, ◌*◌,
}
use btx_miner.Common.Int.{ℤ, pos, ◌+ℤ◌, ltb_ℤ, leb_ℤ, ◌==ℤ◌}
use btx_miner.Common.Uint256.{max_uint}
use btx_miner.Pow.Chain.{
  Block, Chain, Params, Vendored, IsCompactCodec, int32_max, find_genesis_block_index,
}
use btx_miner.Pow.Retarget.{fast_mine_bootstrap_bits}
use btx_miner.Pow.Retarget.Validity.{IsInRange, clamped, limit_IsInRange, either}
use btx_miner.Pow.Dgw.{
  dgw_past_blocks, dgw_window, dgw_warmup_bits, dgw_normal_bits, dgw_phase_bits,
  dark_gravity_wave_matmul, expected_dgw_timespan,
}
use btx_miner.Pow.Work.{derive_target}
use btx_miner.Pow.Work.Accepted.{derive_target-IsInRange}

module _ (v : Vendored) (params : Params) (live : 1 ≤ params.pow_limit) where
  second-IsInRange :
      (b : Bool) (x y : ℕ)
      → b ≡ false
      → IsInRange v params y
      → IsInRange v params (if b then x else y)
  second-IsInRange true x y h p = ground arith
  second-IsInRange false x y h p = p

  bootstrap-IsInRange :
      (genesis : Block) → IsInRange v params (fast_mine_bootstrap_bits v params genesis)
  unfolding fast_mine_bootstrap_bits
  bootstrap-IsInRange genesis = clamped v params live _

  warmup-IsInRange :
      (bits : ℕ) (tip : Block) (rest : Chain)
      → IsInRange v params (dgw_warmup_bits v params bits tip rest)
  unfolding dgw_warmup_bits
  warmup-IsInRange bits tip rest = clamped v params live _

  normal-IsInRange :
      (next : ℤ) (tip : Block) (o : Option (ℕ × Block))
      → IsInRange v params (elim o [
        | none ↦ v.get_compact params.pow_limit
        | some (average, oldest) ↦ dgw_normal_bits v params next tip average oldest
      ])
  unfolding dgw_normal_bits
  normal-IsInRange next tip none = limit_IsInRange v params live
  normal-IsInRange next tip (some (average, oldest)) =
      either v params live (leb_ℤ (expected_dgw_timespan next params) (pos 0))
        (limit_IsInRange v params live) (clamped v params live _)

  phase-IsInRange :
      (next : ℤ) (bits : ℕ) (tip : Block) (rest : Chain)
      → (next ==ℤ params.fast_mine_height) ≡ false
      → IsInRange v params bits
      → IsInRange v params (dgw_phase_bits v params next bits tip rest)
  unfolding dgw_phase_bits
  phase-IsInRange next bits tip rest h p =
      either v params live (ltb_ℤ next params.fast_mine_height) p (
        either v params live (ltb_ℤ tip.height (pos dgw_past_blocks)) p (
          either v params live
            (leb_ℤ params.fast_mine_height next
              && ltb_ℤ next (params.fast_mine_height +ℤ pos (2 * dgw_past_blocks)))
            (second-IsInRange (next ==ℤ params.fast_mine_height) _ _ h
              (warmup-IsInRange bits tip rest))
            (normal-IsInRange next tip (dgw_window v params 1 0 (tip ∷ rest)))))

  genesis-IsInRange :
      (o : Option Block) (tip : Block) (rest : Chain)
      → let next = tip.height +ℤ pos 1 in
        (next ==ℤ params.fast_mine_height) ≡ false
        → IsInRange v params (elim o [
          | none ↦ v.get_compact params.pow_limit
          | some genesis ↦
              if ltb_ℤ next (pos 0) || ltb_ℤ int32_max next
              then v.get_compact params.pow_limit
              else dgw_phase_bits v params next (fast_mine_bootstrap_bits v params genesis) tip rest
        ])
  genesis-IsInRange none tip rest h = limit_IsInRange v params live
  genesis-IsInRange (some genesis) tip rest h =
      let next = tip.height +ℤ pos 1 in
      either v params live (ltb_ℤ next (pos 0) || ltb_ℤ int32_max next)
        (limit_IsInRange v params live)
        (phase-IsInRange next _ tip rest h (bootstrap-IsInRange genesis))

-- Away from the one block that repeats the bits of its parent, at the end of the fast phase, the bits
-- of the MatMul Dark Gravity Wave are read back by `DeriveTarget` as a target between 1 and the
-- proof-of-work limit, in every phase and on every chain.
pub dark_gravity_wave_matmul-accepted :
    (v : Vendored) (params : Params)
    → IsCompactCodec v
    → 1 ≤ params.pow_limit
    → params.pow_limit ≤ max_uint
    → (tip : Block) (rest : Chain) → (tip.height +ℤ pos 1 ==ℤ params.fast_mine_height) ≡ false
    → (t : ℕ) × (derive_target v (dark_gravity_wave_matmul v params tip rest) params.pow_limit
        ≡ some t)
      × (1 ≤ t)
      × (t ≤ params.pow_limit)
unfolding dark_gravity_wave_matmul
dark_gravity_wave_matmul-accepted v params codec live fits tip rest h =
    derive_target-IsInRange v codec params live fits _
      (genesis-IsInRange v params live (find_genesis_block_index (tip ∷ rest)) tip rest h)
