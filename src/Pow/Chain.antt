-- ===== src/Pow/Chain.antt =====
-- core/matmul/pow_solve.cpp: what the retarget rules read. A `CBlockIndex*` is the list of the
-- blocks from it back to its last `pprev`; the null pointer is the empty list. The compact encoding of
-- targets (`SetCompact`, `GetCompact`) and the skip list (`GetAncestor`) belong to the vendored
-- Bitcoin Core classes, and are parameters.
pub mod Genesis
use btx_miner.Common.{
  ℕ, zero, suc, ◌+◌, ◌-◌, ◌^◌, ◌≤◌, ◌≡◌, Bool, false, List, [], ◌∷◌, Option, none, some, ◌==◌,
  if◌then◌else◌,
}
use btx_miner.Common.Int.{ℤ, pos, negsuc, pos_part, neg_part, leb_ℤ, ltb_ℤ, ◌-ℤ◌, ◌==ℤ◌}
use btx_miner.Common.Uint256.{max_uint}

pub record Block : Type 0 where
  pub height : ℤ
  pub time : ℤ
  pub bits : ℕ

abbrev pub Chain : Type 0
Chain = List Block

-- The fields of `Consensus::Params` that the retarget rules read.
pub record Params : Type 0 where
  pub pow_limit : ℕ
  pub pow_no_retargeting : Bool
  pub matmul_pow : Bool
  pub kawpow : Bool
  pub kawpow_height : ℤ
  pub allow_min_difficulty : Bool
  pub enforce_bip94 : Bool
  pub target_spacing : ℤ
  pub target_timespan : ℤ
  pub adjustment_interval : ℕ
  pub fast_mine_height : ℤ
  pub fast_mine_scale : ℕ
  pub spacing_normal : ℤ
  pub spacing_fast_ms : ℤ
  pub window_alignment_height : ℤ
  pub asymmetric_clamp_height : ℤ
  pub easing_boost_height : ℤ
  pub slew_guard_height : ℤ
  pub asert_height : ℤ
  pub asert_half_life : ℤ
  pub bootstrap_factor : ℕ
  pub retune_height : ℤ
  pub retune_hardening_factor : ℕ
  pub retune2_height : ℤ
  pub retune2_num : ℕ
  pub retune2_den : ℕ
  pub upgrade_height : ℤ
  pub upgrade_half_life : ℤ

-- The vendored code: `arith_uint256::SetCompact` with its two flags, `GetCompact`, and
-- `CBlockIndex::GetAncestor`.
pub record Vendored : Type 0 where
  pub set_compact : ℕ → ℕ
  pub compact_negative : ℕ → Bool
  pub compact_overflow : ℕ → Bool
  pub get_compact : ℕ → ℕ
  pub get_ancestor : Chain → ℤ → Option Block

-- What is relied on of it: the encoding of a nonzero target decodes, without a flag, to a nonzero
-- target that is no larger (it keeps the leading 23 or 24 bits).
pub record IsCompactCodec (v : Vendored) : Type 0 where
  pub decodes_below : (t : ℕ) → 1 ≤ t → t ≤ max_uint → v.set_compact (v.get_compact t) ≤ t
  pub decodes_pos : (t : ℕ) → 1 ≤ t → t ≤ max_uint → 1 ≤ v.set_compact (v.get_compact t)
  pub not_negative : (t : ℕ) → t ≤ max_uint → v.compact_negative (v.get_compact t) ≡ false
  pub not_overflow : (t : ℕ) → t ≤ max_uint → v.compact_overflow (v.get_compact t) ≡ false

-- `std::numeric_limits<int32_t>::max()`.
abbrev pub int32_max : ℤ
int32_max = pos (2 ^ 31 - 1)

-- The loop of `FindGenesisBlockIndex`, with the checks that follow it. `left` is `remaining_steps`.
pub find_genesis_from : ℤ → Chain → Option Block
find_genesis_from left [] = none
find_genesis_from left (b ∷ []) = if b.height ==ℤ pos 0 then some b else none
find_genesis_from left (b ∷ prev ∷ rest) =
    let walk = find_genesis_from (left -ℤ pos 1) (prev ∷ rest) in
    if ltb_ℤ (pos 0) b.height
    then (if leb_ℤ b.height prev.height
        then none
        else if ltb_ℤ (left -ℤ pos 1) (pos 0)
        then none
        else walk)
    else none

pub find_genesis_block_index : Chain → Option Block
unfolding find_genesis_from
find_genesis_block_index [] = none
find_genesis_block_index (tip ∷ rest) =
    if ltb_ℤ tip.height (pos 0) then none else find_genesis_from tip.height (tip ∷ rest)
