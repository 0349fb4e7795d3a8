-- ===== src/Pow/Tests.antt =====
-- core/matmul/pow_solve.cpp: the theorems on the retarget rules, applied to a small chain.
use btx_miner.Common.{
  ℕ, ◌+◌, ◌*◌, ◌/◌, ◌^◌, ◌≤◌, ◌≡◌, inl, refl, min, max, true, false, Option, none, some, [], ◌∷◌,
  arith, if◌then◌else◌,
}
use btx_miner.Common.Int.{ℤ, pos, ◌≤ℤ◌, ◌<ℤ◌, ◌==ℤ◌, sub_ℕ}
use btx_miner.Pow.Asert.{calculate_matmul_asert_target}
use btx_miner.Pow.Asert.HalfLife.{calculate_matmul_asert_target_half_lives}
use btx_miner.Pow.Chain.{Block, Chain, Params, Vendored, IsCompactCodec, int32_max}
use btx_miner.Pow.Retarget.{resolve_half_life_info, validate_asert_params}
use btx_miner.Pow.Retarget.Anchor.{IsConfigured, resolve_half_life_info_latest}
use btx_miner.Pow.Work.{
  derive_target, get_next_work_required, matmul_transition, permitted_difficulty_transition,
}
use btx_miner.Pow.Work.Accepted.{
  get_next_work_required-accepted, permitted_difficulty_transition_bounds,
}

abbrev pub example_params : Params
example_params = record {
  pow_limit = 2 ^ 230;
  pow_no_retargeting = false;
  matmul_pow = true;
  kawpow = false;
  kawpow_height = pos 0;
  allow_min_difficulty = false;
  enforce_bip94 = false;
  target_spacing = pos 90;
  target_timespan = pos 1209600;
  adjustment_interval = 2016;
  fast_mine_height = pos 0;
  fast_mine_scale = 1;
  spacing_normal = pos 90;
  spacing_fast_ms = pos 250;
  window_alignment_height = int32_max;
  asymmetric_clamp_height = int32_max;
  easing_boost_height = int32_max;
  slew_guard_height = int32_max;
  asert_height = pos 1;
  asert_half_life = pos 14400;
  bootstrap_factor = 1;
  retune_height = pos 3;
  retune_hardening_factor = 2;
  retune2_height = int32_max;
  retune2_num = 1;
  retune2_den = 1;
  upgrade_height = pos 10;
  upgrade_half_life = pos 3600;
}

unfoldable pub find_height : Chain → ℤ → Option Block
find_height [] h = none
find_height (b ∷ rest) h =
    let later = find_height rest h in if b.height ==ℤ h then some b else later

-- A codec that keeps every bit.
abbrev pub example_vendored : Vendored
example_vendored = record {
  set_compact = λ n. n;
  compact_negative = λ n. false;
  compact_overflow = λ n. false;
  get_compact = λ n. n;
  get_ancestor = find_height;
}

example_codec : IsCompactCodec example_vendored
example_codec = record {
  decodes_below = λ t h k. omega arith;
  decodes_pos = λ t h k. h;
  not_negative = λ t h. refl;
  not_overflow = λ t h. refl;
}

abbrev block : ℕ → Block
block n = record { height = pos n; time = pos (1000 + 90 * n); bits = 2 ^ 200 }

abbrev chain : Chain
chain = block 4 ∷ block 3 ∷ block 2 ∷ block 1 ∷ block 0 ∷ []

get_next_work_required-accepted_example :
    (bits t : ℕ) × (get_next_work_required example_vendored
        (block 5)
        chain
        (pos 1500)
        example_params
      ≡ some bits)
    × (derive_target example_vendored bits (2 ^ 230) ≡ some t)
    × (1 ≤ t)
    × (t ≤ 2 ^ 230)
get_next_work_required-accepted_example =
    get_next_work_required-accepted example_vendored example_params example_codec (omega arith)
      (omega arith) (block 5) chain (pos 1500) refl (inl refl)

example_permitted :
    permitted_difficulty_transition example_vendored example_params (pos 6) (2 ^ 200) (2 ^ 201)
    ≡ true
unfolding permitted_difficulty_transition matmul_transition derive_target
example_permitted = refl

permitted_difficulty_transition_bounds_example :
    (old new : ℕ) × (derive_target example_vendored (2 ^ 200) (2 ^ 230) ≡ some old)
    × (derive_target example_vendored (2 ^ 201) (2 ^ 230) ≡ some new)
    × (new ≤ 4 * old)
    × (max 1 (old / 4) ≤ new)
permitted_difficulty_transition_bounds_example =
    permitted_difficulty_transition_bounds example_vendored example_params example_codec
      (omega arith) (pos 6) (2 ^ 200) (2 ^ 201) refl example_permitted

example_valid : validate_asert_params example_params ≡ true
unfolding validate_asert_params
example_valid = refl

resolve_half_life_info_latest_example :
    let info = resolve_half_life_info (some (pos 12)) example_params in
    let anchor = info.current_anchor_height in
    IsConfigured example_params anchor
    × (anchor ≤ℤ pos 12)
    × (pos 1 ≤ℤ anchor)
    × (pos 3 ≤ℤ pos 12 → pos 3 ≤ℤ anchor)
    × (int32_max ≤ℤ pos 12 → int32_max ≤ℤ anchor)
    × (pos 10 ≤ℤ pos 12 → (anchor ≡ pos 10) × (info.current_half_life ≡ pos 3600))
    × (pos 12 <ℤ pos 10 → info.current_half_life ≡ pos 14400)
resolve_half_life_info_latest_example =
    resolve_half_life_info_latest example_params (pos 12) example_valid (omega arith) (omega arith)

calculate_matmul_asert_target_half_lives_example :
    let schedule = 90 * (10 + 1) in
    let next = λ (time_diff : ℤ).
      calculate_matmul_asert_target (2 ^ 200) time_diff (pos 10) (pos 3600) (2 ^ 230) (pos 90) in
    (next (pos (schedule + 3 * 3600)) ≡ min (2 ^ 230) (2 ^ 200 * 2 ^ 3))
    × (next (sub_ℕ schedule (3 * 3600)) ≡ max 1 (2 ^ 200 / 2 ^ 3))
calculate_matmul_asert_target_half_lives_example =
    calculate_matmul_asert_target_half_lives (2 ^ 200) 10 3600 90 (2 ^ 230) 3 (omega arith)
      (omega arith) (omega arith) (omega arith) (omega arith) (omega arith) (omega arith)
