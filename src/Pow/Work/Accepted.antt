-- ===== src/Pow/Work/Accepted.antt =====
-- core/matmul/pow_solve.cpp: what `GetNextWorkRequired` returns is what `DeriveTarget` accepts, and what
-- `PermittedDifficultyTransition` lets through.
use btx_miner.Common.{
  ℕ, ◌*◌, ◌/◌, ◌≤◌, ◌≡◌, ◌⊎◌, max, true, false, ◌||◌, Option, none, some, inl, inr, arith,
  if◌then◌else◌, Option-cases, ◌∷◌,
}
use btx_miner.Common.Int.{ℤ, pos, ◌+ℤ◌, ◌≤ℤ◌, leb_ℤ, ltb_ℤ, ◌*ℤ◌}
use btx_miner.Common.Uint256.{max_uint}
use btx_miner.Pow.Chain.{Block, Chain, Params, Vendored, IsCompactCodec, int32_max}
use btx_miner.Pow.Retarget.{matmul_asert}
use btx_miner.Pow.Retarget.Validity.{
  IsInRange, clamped, limit_IsInRange, either, matmul_asert-IsInRange,
}
use btx_miner.Pow.Dgw.{dgw_past_blocks, dgw_window, dgw_legacy_bits, dark_gravity_wave_legacy}
use btx_miner.Pow.Work.{
  derive_target, get_next_work_required, easier_limit, harder_limit, matmul_transition,
  permitted_difficulty_transition,
}

module _ (v : Vendored) (params : Params) (live : 1 ≤ params.pow_limit) where
  dgw_result-IsInRange :
      (tip : Block) (o : Option (ℕ × Block))
      → IsInRange v params (elim o [
        | none ↦ v.get_compact params.pow_limit
        | some (average, oldest) ↦ dgw_legacy_bits v params tip average oldest
      ])
  unfolding dgw_legacy_bits
  dgw_result-IsInRange tip none = limit_IsInRange v params live
  dgw_result-IsInRange tip (some (average, oldest)) =
      either v params live (leb_ℤ (pos dgw_past_blocks *ℤ params.target_spacing) (pos 0))
        (limit_IsInRange v params live) (clamped v params live _)

  legacy-IsInRange :
      (tip : Block) (rest : Chain) → IsInRange v params (dark_gravity_wave_legacy v params tip rest)
  unfolding dark_gravity_wave_legacy
  legacy-IsInRange tip rest =
      either v params live (ltb_ℤ tip.height (pos dgw_past_blocks)) (limit_IsInRange v params live)
        (dgw_result-IsInRange tip (dgw_window v params 1 0 (tip ∷ rest)))

  next_work_bits :
      (tip : Block) (rest : Chain) (block_time : ℤ)
      → params.pow_no_retargeting ≡ false
      → (params.matmul_pow ≡ true)
        ⊎ ((params.kawpow ≡ true) × (params.kawpow_height ≤ℤ tip.height +ℤ pos 1))
      → (bits : ℕ) × (get_next_work_required v tip rest block_time params ≡ some bits)
        × IsInRange v params bits
  unfolding get_next_work_required
  next_work_bits tip rest block_time h k =
      let outside = ltb_ℤ (tip.height +ℤ pos 1) (pos 0) || ltb_ℤ int32_max (tip.height +ℤ pos 1) in
      let bits : ℕ =
        (if outside
          then v.get_compact params.pow_limit
          else if params.matmul_pow
          then matmul_asert v params tip rest
          else dark_gravity_wave_legacy v params tip rest) in
      (
        bits,
        ground arith,
        either v params live outside (limit_IsInRange v params live) (
            either v params live params.matmul_pow (matmul_asert-IsInRange v params live tip rest)
              (legacy-IsInRange tip rest)),
      )

module _ (v : Vendored) (codec : IsCompactCodec v) (params : Params) (live : 1 ≤ params.pow_limit)
    (fits : params.pow_limit ≤ max_uint) where
  abbrev pub IsAccepted : ℕ → Type 0
  IsAccepted bits =
      (t : ℕ) × (derive_target v bits params.pow_limit ≡ some t) × (1 ≤ t) × (t ≤ params.pow_limit)

  pub derive_target-IsInRange : (bits : ℕ) → IsInRange v params bits → IsAccepted bits
  unfolding derive_target
  derive_target-IsInRange bits (t, e, low, high) =
      let top : t ≤ max_uint = omega arith in
      let below = codec.decodes_below t low top in
      let above = codec.decodes_pos t low top in
      let sign = codec.not_negative t top in
      let size = codec.not_overflow t top in
      (v.set_compact (v.get_compact t), rw e (ground arith), above, omega arith)

-- On a network that retargets by ASERT, or by Dark Gravity Wave at this height, the required bits are
-- always produced, and `DeriveTarget` reads them back as a target between 1 and the proof-of-work
-- limit: no chain, timestamps or parameters make the node demand bits that it would itself reject.
pub get_next_work_required-accepted :
    (v : Vendored) (params : Params)
    → IsCompactCodec v
    → 1 ≤ params.pow_limit
    → params.pow_limit ≤ max_uint
    → (tip : Block) (rest : Chain) (block_time : ℤ) → params.pow_no_retargeting ≡ false
    → (params.matmul_pow ≡ true)
      ⊎ ((params.kawpow ≡ true) × (params.kawpow_height ≤ℤ tip.height +ℤ pos 1))
    → (bits t : ℕ) × (get_next_work_required v tip rest block_time params ≡ some bits)
      × (derive_target v bits params.pow_limit ≡ some t)
      × (1 ≤ t)
      × (t ≤ params.pow_limit)
get_next_work_required-accepted v params codec live fits tip rest block_time h k =
    let found = next_work_bits v params live tip rest block_time h k in
    let read = derive_target-IsInRange v codec params live fits found.0 found.2 in
    (found.0, read.0, found.1, read.1, read.2, read.3)

derive_target_bounds :
    (v : Vendored) (bits limit t : ℕ) → derive_target v bits limit ≡ some t → (1 ≤ t) × (t ≤ limit)
unfolding derive_target
derive_target_bounds v bits limit t h = ground arith

easier_bounds :
    (params : Params)
    → params.pow_limit ≤ max_uint
    → (old : ℕ) → 1 ≤ old
    → old ≤ params.pow_limit
    → let easier = easier_limit params old in
      (1 ≤ easier) × (easier ≤ max_uint) × (easier ≤ 4 * old)
easier_bounds params fits old low high = ground arith

harder_eq : (old : ℕ) → harder_limit old ≡ max 1 (old / 4)
harder_eq old = ground arith

matmul_transition_bounds :
    (v : Vendored) (params : Params)
    → IsCompactCodec v
    → params.pow_limit ≤ max_uint
    → (old new : ℕ) → 1 ≤ old
    → old ≤ params.pow_limit
    → matmul_transition v params old new ≡ true
    → (new ≤ 4 * old) × (v.set_compact (v.get_compact (max 1 (old / 4))) ≤ new)
unfolding matmul_transition
matmul_transition_bounds v params codec fits old new low high h =
    let easier = easier_limit params old in
    let easier_le = easier_bounds params fits old low high in
    let decoded = codec.decodes_below easier easier_le.0 easier_le.1 in
    ground (arith, harder_eq old)

-- A MatMul transition that is let through goes between two targets that `DeriveTarget` accepts; the
-- new one is at most four times the old, and at least the compact rounding of a quarter of the old.
pub permitted_difficulty_transition_bounds :
    (v : Vendored) (params : Params)
    → IsCompactCodec v
    → params.pow_limit ≤ max_uint
    → (height : ℤ) (old_bits new_bits : ℕ) → params.matmul_pow ≡ true
    → permitted_difficulty_transition v params height old_bits new_bits ≡ true
    → (old new : ℕ) × (derive_target v old_bits params.pow_limit ≡ some old)
      × (derive_target v new_bits params.pow_limit ≡ some new)
      × (new ≤ 4 * old)
      × (v.set_compact (v.get_compact (max 1 (old / 4))) ≤ new)
unfolding permitted_difficulty_transition
permitted_difficulty_transition_bounds v params codec fits height old_bits new_bits h k =
    let old_le = derive_target_bounds v old_bits params.pow_limit in
    elim (Option-cases (derive_target v old_bits params.pow_limit)) [
      | inl a ↦ ground arith
      | inr (old, e) ↦ elim (Option-cases (derive_target v new_bits params.pow_limit)) [
        | inl b ↦ ground arith
        | inr (new, e') ↦
            let b = old_le old e in
            let bounds =
              matmul_transition_bounds v params codec fits old new b.0 b.1 (ground arith) in
            (old, new, e, e', bounds.0, bounds.1)
      ]
    ]
