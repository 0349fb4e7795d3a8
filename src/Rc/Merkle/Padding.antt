-- ===== src/Rc/Merkle/Padding.antt =====
-- core/matmul/matmul_v4_rc.cpp: the padding of the leaves, and that the levels end in one root.
use native.Mathlib.Nat.{one-le-pow}
use btx_miner.Common.{
  not_below, ℕ, zero, suc, ◌+◌, ◌*◌, ◌-◌, ◌^◌, ◌≤◌, ◌<◌, ◌≡◌, ◌⊎◌, refl, ap, ◌∙◌, Bool, true, false,
  List, [], ◌∷◌, length, length-append, length-replicate, replicate, some, if◌then◌else◌, arith,
}
use btx_miner.Rc.Merkle.{
  Bytes, Merkle, double_to, pad_to_pow2, level_up, fold_levels, all_leaves, at_least_one, flush,
  finalize_root, pad_leaf_hash,
}

abbrev pub IsPow2 : ℕ → Type 0
IsPow2 n = (k : ℕ) × (n ≡ 2 ^ k)

pub pow_double : (k : ℕ) → 2 ^ suc k ≡ 2 ^ k + 2 ^ k
pow_double k = omega arith

pub pow_pos : (k : ℕ) → 1 ≤ 2 ^ k
pow_pos k = one-le-pow k 2 (omega arith)

pub pow_above : (k : ℕ) → k ≤ 2 ^ k
pow_above zero = omega arith
pow_above (suc k) = omega (arith, pow_above k, pow_pos k, pow_double k)

either-IsPow2 : (t : Bool) (a b : ℕ) → IsPow2 a → IsPow2 b → IsPow2 (if t then a else b)
either-IsPow2 true a b p q = p
either-IsPow2 false a b p q = q

double_to-IsPow2 : (fuel target size : ℕ) → IsPow2 target → IsPow2 (double_to fuel target size)
unfolding double_to
double_to-IsPow2 zero target size p = p
double_to-IsPow2 (suc fuel) target size p =
    let (k, e) = p in
    either-IsPow2 _ _ _ (double_to-IsPow2 fuel (target * 2) size (suc k, omega arith)) p

-- The result is the start, or the first doubling that is not below the size.
double_to_bounds :
    (fuel target size : ℕ)
    → 1 ≤ target
    → size ≤ target + fuel
    → let found = double_to fuel target size in
      (size ≤ found) × (target ≤ found) × ((found ≡ target) ⊎ (found < 2 * size))
unfolding double_to
double_to_bounds zero target size p l = ground arith
double_to_bounds (suc fuel) target size p l =
    let later = double_to_bounds fuel (target * 2) size (omega arith) (omega arith) in ground arith

module _ (sha256 : Bytes → Bytes) where
  pub length-level_up :
      (n : ℕ) (lvl : List Bytes) → length lvl ≡ n + n → length (level_up sha256 lvl) ≡ n
  unfolding level_up
  length-level_up zero [] h = refl
  length-level_up zero (l ∷ lvl) h = omega arith
  length-level_up (suc n) [] h = omega arith
  length-level_up (suc n) (l ∷ []) h = omega arith
  length-level_up (suc n) (l ∷ (r ∷ lvl)) h = ap suc (length-level_up n lvl (omega arith))

  pub fold_levels-some :
      (k fuel : ℕ) (lvl : List Bytes)
      → length lvl ≡ 2 ^ k
      → k ≤ fuel
      → (root : Bytes) × (fold_levels sha256 fuel lvl ≡ some root)
  unfolding fold_levels
  fold_levels-some zero fuel [] h l = ground arith
  fold_levels-some zero fuel (root ∷ []) h l = (root, refl)
  fold_levels-some zero fuel (x ∷ (y ∷ lvl)) h l = ground arith
  fold_levels-some (suc k) fuel [] h l = let p = pow_double k in let q = pow_pos k in ground arith
  fold_levels-some (suc k) fuel (x ∷ []) h l =
      let p = pow_double k in let q = pow_pos k in ground arith
  fold_levels-some (suc k) zero (x ∷ (y ∷ lvl)) h l = absurd (not_below k l)
  fold_levels-some (suc k) (suc fuel) (x ∷ (y ∷ lvl)) h l =
      fold_levels-some k fuel _ (length-level_up (2 ^ k) (x ∷ (y ∷ lvl)) (h ∙ pow_double k))
        (omega arith)

  pub length-pad :
      (xs : List Bytes)
      → 1 ≤ length xs
      → IsPow2 (length (pad_to_pow2 sha256 xs))
        × (length xs ≤ length (pad_to_pow2 sha256 xs))
        × (length (pad_to_pow2 sha256 xs) < 2 * length xs)
  unfolding pad_to_pow2
  length-pad xs h =
      let n = length xs in
      let found = double_to n 1 n in
      let b = double_to_bounds n 1 n (omega arith) (omega arith) in
      let (k, e) = double_to-IsPow2 n 1 n (0, refl) in
      let added = length-append xs (replicate (found - n) (pad_leaf_hash sha256)) in
      let count = length-replicate (found - n) (pad_leaf_hash sha256) in
      ((k, omega arith), omega arith, omega arith)

  one_leaf : (xs : List Bytes) → 1 ≤ length (at_least_one sha256 xs)
  one_leaf [] = omega arith
  one_leaf (x ∷ xs) = omega arith

  pub all_leaves_pos : (m : Merkle) → 1 ≤ length (all_leaves sha256 m)
  unfolding all_leaves
  all_leaves_pos m = one_leaf (flush sha256 m.t_leaf m.partial m.leaves)

-- Whatever was absorbed, the tree has a root: the leaves, of which there is at least one, are padded
-- to a power of two that is less than twice their number, and the levels end in one hash.
pub finalize_root-some :
    (sha256 : Bytes → Bytes) (m : Merkle)
    → let leaves = all_leaves sha256 m in
      let padded = pad_to_pow2 sha256 leaves in
      ((root : Bytes) × (finalize_root sha256 m ≡ some root))
      × IsPow2 (length padded)
      × (length leaves ≤ length padded)
      × (length padded < 2 * length leaves)
unfolding finalize_root
finalize_root-some sha256 m =
    let leaves = all_leaves sha256 m in
    let ((k, e), low, high) = length-pad sha256 leaves (all_leaves_pos sha256 m) in
    let fuel = pow_above k in
    (fold_levels-some sha256 k _ (pad_to_pow2 sha256 leaves) e (omega arith), (k, e), low, high)
