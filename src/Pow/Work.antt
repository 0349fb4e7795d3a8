-- ===== src/Pow/Work.antt =====
-- core/matmul/pow_solve.cpp: `GetNextWorkRequired` and the checks that read its result. The divisor
-- `nPowTargetTimespan` and the adjustment interval are positive on every network.
pub mod Accepted
pub mod Dampened
use btx_miner.Common.{
  ℕ, ◌+◌, ◌-◌, ◌*◌, ◌/◌, ◌%◌, ◌^◌, Bool, true, false, not, ◌&&◌, ◌||◌, List, [], ◌∷◌, Option, none,
  some, ltb, leb, ◌==◌, if◌then◌else◌,
}
use btx_miner.Common.Int.{
  ℤ, pos, negsuc, pos_part, neg_part, ◌+ℤ◌, ◌-ℤ◌, ◌*ℤ◌, leb_ℤ, ltb_ℤ, ◌==ℤ◌, tdiv_ℤ, to_unsigned,
}
use btx_miner.Common.Uint256.{mul256}
use btx_miner.Pow.Chain.{Block, Chain, Params, Vendored, int32_max}
use btx_miner.Pow.Target.{clamp_retarget_result}
use btx_miner.Pow.Retarget.{matmul_asert}
use btx_miner.Pow.Dgw.{clamp_span, dark_gravity_wave_legacy}

abbrev on_interval : ℤ → Params → Bool
on_interval height params = (pos_part height + neg_part height) % params.adjustment_interval == 0

-- `bnNew *= timespan` takes a `uint32_t`, and `/=` a 64-bit value.
abbrev pub rescale : ℕ → ℤ → ℤ → ℕ
rescale target actual span = mul256 target (to_unsigned (2 ^ 32) actual) / to_unsigned (2 ^ 64) span

unfoldable pub enforce_timewarp_protection : Params → ℤ → Bool
enforce_timewarp_protection params height =
    if not params.enforce_bip94 || leb_ℤ height (pos 0)
    then false
    else if not params.pow_no_retargeting && params.matmul_pow
    then true
    else if not params.pow_no_retargeting && params.kawpow && leb_ℤ params.kawpow_height height
    then true
    else on_interval height params

-- How far one MatMul transition may ease or harden a target.
abbrev pub easier_limit : Params → ℕ → ℕ
easier_limit params old = if ltb (params.pow_limit / 4) old then params.pow_limit else mul256 old 4

abbrev pub harder_limit : ℕ → ℕ
harder_limit old = let h = old / 4 in if h == 0 then 1 else h

module _ (v : Vendored) where
  unfoldable pub derive_target : ℕ → ℕ → Option ℕ
  derive_target bits pow_limit =
      let target = v.set_compact bits in
      if v.compact_negative bits || target == 0 || v.compact_overflow bits || ltb pow_limit target
      then none
      else some target

  -- `hash` is the 256-bit value of the hash.
  unfoldable pub check_proof_of_work_impl : ℕ → ℕ → Params → Bool
  check_proof_of_work_impl hash bits params = elim (derive_target bits params.pow_limit) [
    | none ↦ false
    | some target ↦ not (ltb target hash)
  ]

  unfoldable pub calculate_next_work_required : Block → Chain → ℤ → Params → ℕ
  calculate_next_work_required tip rest first_time params =
      let span = params.target_timespan in
      let actual = clamp_span (tdiv_ℤ span 4) (span *ℤ pos 4) (tip.time -ℤ first_time) in
      let first_height = tip.height -ℤ pos (params.adjustment_interval - 1) in
      let first =
        (if leb_ℤ (pos 0) first_height
          then elim (v.get_ancestor (tip ∷ rest) first_height) [ none ↦ tip | some b ↦ b ]
          else tip) in
      let start = v.set_compact (if params.enforce_bip94 then first.bits else tip.bits) in
      if params.pow_no_retargeting
      then tip.bits
      else v.get_compact (clamp_retarget_result (rescale start actual span) params.pow_limit)

  -- The walk back over minimum-difficulty blocks.
  last_regular_bits : Params → Block → Chain → ℕ
  last_regular_bits params b [] = b.bits
  last_regular_bits params b (prev ∷ rest) =
      let back = last_regular_bits params prev rest in
      if not (on_interval b.height params) && b.bits == v.get_compact params.pow_limit
      then back
      else b.bits

  -- `none` is the failed `assert` on the first block of the period.
  unfoldable pub get_next_work_required : Block → Chain → ℤ → Params → Option ℕ
  unfolding last_regular_bits
  get_next_work_required tip rest block_time params =
      let limit_bits = v.get_compact params.pow_limit in
      let next_height = tip.height +ℤ pos 1 in
      let first_height = tip.height -ℤ pos (params.adjustment_interval - 1) in
      if ltb_ℤ next_height (pos 0) || ltb_ℤ int32_max next_height
      then some limit_bits
      else if params.pow_no_retargeting
      then some tip.bits
      else if params.matmul_pow
      then some (matmul_asert v params tip rest)
      else if params.kawpow && leb_ℤ params.kawpow_height next_height
      then some (dark_gravity_wave_legacy v params tip rest)
      else if not (on_interval next_height params)
      then (if params.allow_min_difficulty
          then (if ltb_ℤ (tip.time +ℤ params.target_spacing *ℤ pos 2) block_time
              then some limit_bits
              else some (last_regular_bits params tip rest))
          else some tip.bits)
      else if ltb_ℤ first_height (pos 0)
      then none
      else elim (v.get_ancestor (tip ∷ rest) first_height) [
        | none ↦ none
        | some first ↦ some (calculate_next_work_required tip rest first.time params)
      ]

  unfoldable pub matmul_transition : Params → ℕ → ℕ → Bool
  matmul_transition params old new =
      let easier = easier_limit params old in
      let harder = harder_limit old in
      if ltb (v.set_compact (v.get_compact easier)) new
      then false
      else not (ltb new (v.set_compact (v.get_compact harder)))

  legacy_transition : Params → ℤ → ℕ → ℕ → Bool
  legacy_transition params height old_bits new_bits =
      let span = params.target_timespan in
      let observed = v.set_compact new_bits in
      let old = v.set_compact old_bits in
      let largest = rescale old (span *ℤ pos 4) span in
      let largest' = (if ltb params.pow_limit largest then params.pow_limit else largest) in
      let smallest = rescale old (tdiv_ℤ span 4) span in
      let smallest' = (if ltb params.pow_limit smallest then params.pow_limit else smallest) in
      if on_interval height params
      then (if ltb (v.set_compact (v.get_compact largest')) observed
          then false
          else not (ltb observed (v.set_compact (v.get_compact smallest'))))
      else old_bits == new_bits

  unfoldable pub permitted_difficulty_transition : Params → ℤ → ℕ → ℕ → Bool
  unfolding matmul_transition legacy_transition
  permitted_difficulty_transition params height old_bits new_bits =
      if params.matmul_pow
      then elim (derive_target old_bits params.pow_limit) [
        | none ↦ false
        | some old ↦ elim (derive_target new_bits params.pow_limit) [
          | none ↦ false
          | some new ↦ matmul_transition params old new
        ]
      ]
      else if params.allow_min_difficulty
      then true
      else legacy_transition params height old_bits new_bits
