-- ===== src/Pow/Asert/HalfLife.antt =====
-- core/matmul/pow_solve.cpp: `CalculateMatMulAsertTarget` at whole numbers of half-lives.
use native.Mathlib.Nat.{
  mul-div_cancel, div-div-eq-div-mul, div-eq_of_lt, pow-suc, one-le-pow, pow-le-pow_right, add-zero,
  add-suc, pow-zero, div-le_self,
}
use btx_miner.Common.{
  ℕ, Bool-cases, leb, inl, inr, Bool-cases, leb, inl, inr, ◌+◌, ◌-◌, ◌*◌, ◌/◌, ◌^◌, ◌≤◌, ◌<◌, ◌≡◌,
  ap, ap₂, ◌∙◌, sym, arith, zero, suc, min, max,
}
use btx_miner.Common.Int.{fdiv_ℤ, ℤ, pos, negsuc, sub_ℕ, ◌-ℤ◌}
use btx_miner.Common.Uint256.{max_uint}
use btx_miner.Pow.Target.{clamp_retarget_result, saturating_multiply_by_uint32}
use btx_miner.Pow.Target.Saturate.{
  shift_out, saturating_left_shift256-eq-min, saturating_multiply_by_uint32-eq-min,
}
use btx_miner.Pow.Asert.{
  asert_exponent, asert_factor, exponent_frac, asert_radix, scaled_anchor, apply_net_shift,
  shift_left, shift_right, calculate_matmul_asert_target,
}
use btx_miner.Pow.Asert.Exponent.{asert_exponent_late, asert_exponent_early}

pow-add : (b m n : ℕ) → b ^ (m + n) ≡ b ^ m * b ^ n
pow-add b m zero = rw (add-zero, pow-zero) (omega arith)
pow-add b m (suc n) = rw (add-suc, pow-suc, pow-suc) (rw (pow-add b m n) (grind arith))

le-mul_right : (a m : ℕ) → 1 ≤ m → a ≤ a * m
le-mul_right a m h = grind arith

whole_factor : (e : ℤ) → exponent_frac e ≡ 0 → asert_factor (exponent_frac e) ≡ asert_radix
unfolding asert_factor
whole_factor e h = rw h

frac_late : (k : ℕ) → exponent_frac (pos (k * asert_radix)) ≡ 0
unfolding exponent_frac
frac_late k = omega arith

net_late : (k : ℕ) → fdiv_ℤ (pos (k * asert_radix)) asert_radix -ℤ pos 16 ≡ sub_ℕ k 16
unfolding ◌-ℤ◌
net_late k = ground arith

negative_multiple : (k : ℕ) → sub_ℕ 0 (suc k * asert_radix) ≡ negsuc (suc k * asert_radix - 1)
negative_multiple k = ground arith

frac_early : (k : ℕ) → exponent_frac (negsuc (suc k * asert_radix - 1)) ≡ 0
unfolding exponent_frac
frac_early k = omega arith

net_early :
    (k : ℕ) → fdiv_ℤ (negsuc (suc k * asert_radix - 1)) asert_radix -ℤ pos 16 ≡ negsuc (suc k + 15)
unfolding ◌-ℤ◌
net_early k = ground arith

module _ (anchor : ℕ) (room : anchor * asert_radix ≤ max_uint) where
  product_lem : saturating_multiply_by_uint32 anchor asert_radix ≡ anchor * asert_radix
  product_lem = saturating_multiply_by_uint32-eq-min anchor asert_radix ∙ omega arith

  shift_left_lem :
      (left : ℕ)
      → 1 ≤ anchor
      → shift_left anchor asert_radix left ≡ min max_uint (anchor * asert_radix * 2 ^ left)
  unfolding shift_left
  shift_left_lem zero h = rw product_lem (ground arith)
  shift_left_lem (suc k) h = rw product_lem (
      ground (
        arith,
        shift_out (anchor * asert_radix) (suc k),
        saturating_left_shift256-eq-min (anchor * asert_radix) (suc k) room,
      ))

  shift_right_lem :
      (right : ℕ) → shift_right anchor asert_radix right ≡ anchor * asert_radix / 2 ^ right
  unfolding shift_right
  shift_right_lem right =
      let far : 256 ≤ right → 2 ^ 256 ≤ 2 ^ right = pow-le-pow_right (omega arith) in
      rw product_lem (ground (arith, far, div-eq_of_lt {n = anchor * asert_radix} {m = 2 ^ right}))

  right_part :
      (k q : ℕ) → k + q ≡ 16 → shift_right anchor asert_radix q ≡ min max_uint (anchor * 2 ^ k)
  right_part k q e =
      shift_right_lem q
      ∙ ap (λ (t : ℕ). t / 2 ^ q) regroup
      ∙ mul-div_cancel (anchor * 2 ^ k) (one-le-pow q 2 (omega arith))
      ∙ fits
    where
      split : 2 ^ 16 ≡ 2 ^ k * 2 ^ q
      split = ap (λ (t : ℕ). 2 ^ t) (sym e) ∙ pow-add 2 k q

      regroup : anchor * asert_radix ≡ anchor * 2 ^ k * 2 ^ q
      regroup = ap (λ (t : ℕ). anchor * t) split ∙ grind arith

      fits : anchor * 2 ^ k ≡ min max_uint (anchor * 2 ^ k)
      fits =
          omega
            (arith, le-mul_right (anchor * 2 ^ k) (2 ^ q) (one-le-pow q 2 (omega arith)), regroup)

  apply_net_shift_up :
      (k : ℕ)
      → 1 ≤ anchor
      → apply_net_shift anchor asert_radix (sub_ℕ k 16) ≡ min max_uint (anchor * 2 ^ k)
  unfolding apply_net_shift
  apply_net_shift_up k h = elim (Bool-cases (leb 16 k)) [
    | inl up ↦
        let e : 2 ^ k ≡ 2 ^ 16 * 2 ^ (k - 16) =
          ap (λ (t : ℕ). 2 ^ t) (ground arith) ∙ pow-add 2 16 (k - 16) in
        rw (up, e) (shift_left_lem (k - 16) h ∙ ap (min max_uint) (grind arith))
    | inr down ↦ rw down (right_part k (16 - k - 1 + 1) (ground arith))
  ]

  apply_net_shift_down :
      (k : ℕ) → apply_net_shift anchor asert_radix (negsuc (k + 15)) ≡ anchor / 2 ^ k
  unfolding apply_net_shift
  apply_net_shift_down k =
      shift_right_lem (k + 15 + 1)
      ∙ ap (λ (t : ℕ). anchor * asert_radix / t) split
      ∙ sym (div-div-eq-div-mul (anchor * asert_radix) (2 ^ 16) (2 ^ k))
      ∙ ap (λ (t : ℕ). t / 2 ^ k) (mul-div_cancel anchor (omega arith))
    where
      split : 2 ^ (k + 15 + 1) ≡ 2 ^ 16 * 2 ^ k
      split = ap (λ (t : ℕ). 2 ^ t) (omega arith) ∙ pow-add 2 16 k

  scaled_anchor_late :
      (k : ℕ)
      → 1 ≤ anchor
      → scaled_anchor anchor (pos (k * asert_radix)) ≡ min max_uint (anchor * 2 ^ k)
  unfolding scaled_anchor
  scaled_anchor_late k h =
      ap₂ (apply_net_shift anchor) (whole_factor (pos (k * asert_radix)) (frac_late k)) (net_late k)
      ∙ apply_net_shift_up k h

  scaled_anchor_early : (k : ℕ) → scaled_anchor anchor (sub_ℕ 0 (k * asert_radix)) ≡ anchor / 2 ^ k
  unfolding scaled_anchor apply_net_shift
  scaled_anchor_early zero =
      ap₂ (apply_net_shift anchor) (whole_factor (pos 0) (frac_late 0)) (net_late 0)
      ∙ shift_right_lem 16
      ∙ omega arith
  scaled_anchor_early (suc k) =
      ap (scaled_anchor anchor) (negative_multiple k)
      ∙ ap₂ (apply_net_shift anchor) (whole_factor _ (frac_early k)) (net_early k)
      ∙ apply_net_shift_down (suc k)

-- With an anchor in range and positive parameters every guard passes.
past_guards :
    (anchor height half_life spacing pow_limit : ℕ) (time_diff : ℤ)
    → 1 ≤ anchor
    → anchor ≤ pow_limit
    → 1 ≤ half_life
    → 1 ≤ spacing
    → calculate_matmul_asert_target anchor time_diff
        (pos height)
        (pos half_life)
        pow_limit
        (pos spacing)
      ≡ min pow_limit (
          max 1
            (scaled_anchor anchor (asert_exponent time_diff (pos height) (pos spacing) half_life)))
unfolding calculate_matmul_asert_target clamp_retarget_result
past_guards anchor height half_life spacing pow_limit time_diff a b c d = ground arith

-- A chain that is `k` half-lives behind its schedule doubles the anchor target `k` times, and one
-- that is `k` half-lives ahead halves it `k` times (both between 1 and the proof-of-work limit); on
-- schedule, `k` = 0, the target stays as it is. This holds for anchors below 2 ^ 240, whose product
-- by the 16-bit factor does not saturate.
pub calculate_matmul_asert_target_half_lives :
    (anchor height half_life spacing pow_limit k : ℕ)
    → 1 ≤ anchor
    → anchor ≤ pow_limit
    → pow_limit ≤ max_uint
    → anchor * asert_radix ≤ max_uint
    → 1 ≤ half_life
    → 1 ≤ spacing
    → k < 2 ^ 47
    → let schedule = spacing * (height + 1) in
      let next = λ (time_diff : ℤ).
        calculate_matmul_asert_target anchor time_diff
          (pos height)
          (pos half_life)
          pow_limit
          (pos spacing) in
      (next (pos (schedule + k * half_life)) ≡ min pow_limit (anchor * 2 ^ k))
      × (next (sub_ℕ schedule (k * half_life)) ≡ max 1 (anchor / 2 ^ k))
calculate_matmul_asert_target_half_lives anchor height half_life spacing pow_limit k pos_anchor
      below limit room live spaced near =
    (late, early)
  where
    guards :
        (t : ℤ)
        → calculate_matmul_asert_target anchor t
            (pos height)
            (pos half_life)
            pow_limit
            (pos spacing)
          ≡ min pow_limit
              (max 1 (scaled_anchor anchor (asert_exponent t (pos height) (pos spacing) half_life)))
    guards t = past_guards anchor height half_life spacing pow_limit t pos_anchor below live spaced

    late :
        calculate_matmul_asert_target anchor
          (pos (spacing * (height + 1) + k * half_life))
          (pos height)
          (pos half_life)
          pow_limit
          (pos spacing)
        ≡ min pow_limit (anchor * 2 ^ k)
    late =
        guards (pos (spacing * (height + 1) + k * half_life))
        ∙ ap (λ (e : ℤ). min pow_limit (max 1 (scaled_anchor anchor e)))
            (asert_exponent_late spacing height half_life k live near)
        ∙ ap (λ (t : ℕ). min pow_limit (max 1 t)) (scaled_anchor_late anchor room k pos_anchor)
        ∙ omega (arith, le-mul_right anchor (2 ^ k) (one-le-pow k 2 (omega arith)))

    early :
        calculate_matmul_asert_target anchor
          (sub_ℕ (spacing * (height + 1)) (k * half_life))
          (pos height)
          (pos half_life)
          pow_limit
          (pos spacing)
        ≡ max 1 (anchor / 2 ^ k)
    early =
        guards (sub_ℕ (spacing * (height + 1)) (k * half_life))
        ∙ ap (λ (e : ℤ). min pow_limit (max 1 (scaled_anchor anchor e)))
            (asert_exponent_early spacing height half_life k live near)
        ∙ ap (λ (t : ℕ). min pow_limit (max 1 t)) (scaled_anchor_early anchor room k)
        ∙ omega (arith, div-le_self anchor (2 ^ k))
