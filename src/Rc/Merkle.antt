-- ===== src/Rc/Merkle.antt =====
-- core/matmul/matmul_v4_rc.cpp: the hash tree over the bytes that a round computes. A hash is the list of
-- its 32 bytes; SHA-256 is a parameter. An `int8_t` is its byte.
pub mod Padding
pub mod Binding
pub mod Absorb
pub mod Hashes
pub mod Commit
use btx_miner.Common.{
  ℕ, zero, suc, ◌+◌, ◌*◌, ◌-◌, ◌%◌, ◌^◌, Bool, true, false, List, [], ◌∷◌, ◌++◌, length, replicate,
  Option, none, some, ltb, ◌==◌, if◌then◌else◌,
}

abbrev pub Bytes : Type 0
Bytes = List ℕ

-- `kLeafTag`, `kNodeTag`, `kPadLeafTag`, and the characters of `kPadTag`, "BTX_RC_PAD".
abbrev pub leaf_tag : ℕ
leaf_tag = 0

abbrev pub node_tag : ℕ
node_tag = 1

abbrev pub pad_leaf_tag : ℕ
pad_leaf_tag = 2

abbrev pub pad_tag : Bytes
pad_tag = 66 ∷ 84 ∷ 88 ∷ 95 ∷ 82 ∷ 67 ∷ 95 ∷ 80 ∷ 65 ∷ 68 ∷ []

pub record Merkle : Type 0 where
  pub t_leaf : ℕ
  pub partial : Bytes
  pub leaves : List Bytes

-- `resize(t_leaf, 0)`: cut off or filled up with zeros.
abbrev pub zero_filled : ℕ → Bytes → Bytes
zero_filled zero b = []
zero_filled (suc n) [] = 0 ∷ zero_filled n []
zero_filled (suc n) (x ∷ b) = x ∷ zero_filled n b

-- The loop that doubles `target`; the number of leaves is fuel enough.
unfoldable pub double_to : ℕ → ℕ → ℕ → ℕ
double_to zero target size = target
double_to (suc fuel) target size =
    let more = double_to fuel (target * 2) size in if ltb target size then more else target

module _ (sha256 : Bytes → Bytes) where
  abbrev pub sha256d : Bytes → Bytes
  sha256d d = sha256 (sha256 d)

  unfoldable pub hash_node : Bytes → Bytes → Bytes
  hash_node l r = sha256d (node_tag ∷ (l ++ r))

  unfoldable pub hash_leaf : Bytes → Bytes
  hash_leaf b = sha256d (leaf_tag ∷ b)

  unfoldable pub pad_leaf_hash : Bytes
  pad_leaf_hash = sha256d (pad_leaf_tag ∷ pad_tag)

  -- One byte of `absorb`.
  abbrev pub absorb_byte : Merkle → ℕ → Merkle
  absorb_byte m b =
      let partial = m.partial ++ b ∷ [] in
      if length partial == m.t_leaf
      then record m { partial = []; leaves = m.leaves ++ hash_leaf partial ∷ [] }
      else record m { partial = partial }

  unfoldable pub absorb : Merkle → Bytes → Merkle
  absorb m [] = m
  absorb m (b ∷ v) = absorb (absorb_byte m b) v

  -- The leaves with that of the tail, which is empty when the bytes came out even.
  abbrev pub flush : ℕ → Bytes → List Bytes → List Bytes
  flush t_leaf [] leaves = leaves
  flush t_leaf (b ∷ tail) leaves = leaves ++ hash_leaf (zero_filled t_leaf (b ∷ tail)) ∷ []

  abbrev pub at_least_one : List Bytes → List Bytes
  at_least_one [] = pad_leaf_hash ∷ []
  at_least_one (x ∷ xs) = x ∷ xs

  unfoldable pub all_leaves : Merkle → List Bytes
  all_leaves m = at_least_one (flush m.t_leaf m.partial m.leaves)

  unfoldable pub pad_to_pow2 : List Bytes → List Bytes
  pad_to_pow2 leaves =
      let target = double_to (length leaves) 1 (length leaves) in
      leaves ++ replicate (target - length leaves) pad_leaf_hash

  -- One level. A level of odd length would be read past its end; the code has none.
  unfoldable pub level_up : List Bytes → List Bytes
  level_up [] = []
  level_up (l ∷ []) = []
  level_up (l ∷ (r ∷ lvl)) = hash_node l r ∷ level_up lvl

  -- The loop over the levels, which stops at one hash; `none` when the fuel runs out.
  unfoldable pub fold_levels : ℕ → List Bytes → Option Bytes
  fold_levels fuel [] = none
  fold_levels fuel (root ∷ []) = some root
  fold_levels zero (l ∷ (r ∷ lvl)) = none
  fold_levels (suc fuel) (l ∷ (r ∷ lvl)) = fold_levels fuel (level_up (l ∷ (r ∷ lvl)))

  unfoldable pub finalize_root : Merkle → Option Bytes
  finalize_root m = let leaves = pad_to_pow2 (all_leaves m) in fold_levels (length leaves) leaves
