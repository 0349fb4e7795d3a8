-- ===== src/Rc/Tests.antt =====
-- core/matmul: the theorems on the digests, applied at small inputs.
use btx_miner.Common.{
  List, ℕ, ◌*◌, some, ◌≤◌, ◌<◌, ◌≡◌, ◌⊎◌, refl, [], ◌∷◌, length, replicate, length-replicate,
  get_or, arith,
}
use btx_miner.Rc.ChaCha.{chacha_state, rounds, keystream_block}
use btx_miner.Common.Bytes.{le_bytes}
use btx_miner.Rc.Merkle.{
  Bytes, absorb, all_leaves, pad_to_pow2, finalize_root, double_to, fold_levels, level_up,
  hash_node, hash_leaf, pad_leaf_hash,
}
use btx_miner.Rc.Merkle.Padding.{IsPow2, finalize_root-some}
use btx_miner.Rc.Merkle.Binding.{Collision}
use btx_miner.Rc.Merkle.Commit.{new_merkle, finalize_root-binds}
use btx_miner.Common.Int.{ℤ, pos, negsuc}
use btx_miner.Rc.Shuffle.{CoupParams, balanced_perm, apply_perm}
use btx_miner.Rc.Shuffle.Permutes.{IsPermutation, balanced_perm-apply_perm}

-- A stand-in for SHA-256: 32 bytes that depend on the number of bytes hashed.
abbrev pub toy_sha : Bytes → Bytes
toy_sha b = replicate 32 (length b)

toy_sha-size : (b : Bytes) → length (toy_sha b) ≡ 32
toy_sha-size b = length-replicate 32 (length b)

abbrev pub five_bytes : Bytes
five_bytes = 1 ∷ 2 ∷ 3 ∷ 4 ∷ 5 ∷ []

abbrev pub toy_coup : CoupParams
toy_coup = record {
  barriers = 2;
  lobes = 2;
  lobe_width = 32;
  bank_pages = 6;
  rows_per_lobe = 1;
  pages_per_barrier_lobe = 3;
  exchange_rounds = 1;
}

abbrev other_bytes : Bytes
other_bytes = 6 ∷ 7 ∷ 8 ∷ 9 ∷ 10 ∷ []

-- The stand-in collides, so the two roots are equal.
same_root :
    finalize_root toy_sha (absorb toy_sha (new_merkle 2) five_bytes)
    ≡ finalize_root toy_sha (absorb toy_sha (new_merkle 2) other_bytes)
unfolding finalize_root absorb all_leaves pad_to_pow2 double_to fold_levels level_up hash_node
    hash_leaf pad_leaf_hash
same_root = refl

finalize_root-binds_example : (five_bytes ≡ other_bytes) ⊎ Collision toy_sha
finalize_root-binds_example =
    finalize_root-binds toy_sha 2 five_bytes other_bytes toy_sha-size (omega arith) refl same_root

finalize_root-some_example :
    let m = absorb toy_sha (new_merkle 2) five_bytes in
    let leaves = all_leaves toy_sha m in
    let padded = pad_to_pow2 toy_sha leaves in
    ((root : Bytes) × (finalize_root toy_sha m ≡ some root))
    × IsPow2 (length padded)
    × (length leaves ≤ length padded)
    × (length padded < 2 * length leaves)
finalize_root-some_example = finalize_root-some toy_sha (absorb toy_sha (new_merkle 2) five_bytes)

balanced_perm-apply_perm_example :
    let pi = balanced_perm toy_sha five_bytes 1 5 in
    IsPermutation 5 pi
    × (length (apply_perm five_bytes pi) ≡ 5)
    × ((i : ℕ)
        → i < 5
        → get_or (apply_perm five_bytes pi) (get_or pi i 0) 0 ≡ get_or five_bytes i 0)
balanced_perm-apply_perm_example =
    balanced_perm-apply_perm toy_sha five_bytes 1 five_bytes (omega arith)

abbrev pub toy_row : List ℤ
toy_row = pos 3 ∷ pos 0 ∷ negsuc 47 ∷ []

abbrev toy_page : List (List ℤ)
toy_page = (pos 1 ∷ pos 48 ∷ []) ∷ (pos 5 ∷ pos 6 ∷ []) ∷ (negsuc 2 ∷ pos 4 ∷ []) ∷ []

-- The block function of RFC 8439, section 2.3.2.
abbrev pub rfc_key : Bytes
rfc_key =
    0 ∷ 1 ∷ 2 ∷ 3 ∷ 4 ∷ 5 ∷ 6 ∷ 7 ∷ 8 ∷ 9 ∷ 10 ∷ 11 ∷ 12 ∷ 13 ∷ 14 ∷ 15 ∷ 16 ∷ 17 ∷ 18 ∷ 19 ∷ 20
    ∷ 21 ∷ 22 ∷ 23 ∷ 24 ∷ 25 ∷ 26 ∷ 27 ∷ 28 ∷ 29 ∷ 30 ∷ 31 ∷ []

rfc_block : keystream_block (chacha_state rfc_key 150994944 1241513984 1) ≡ (
    16 ∷ 241 ∷ 231 ∷ 228 ∷ 209 ∷ 59 ∷ 89 ∷ 21 ∷ 80 ∷ 15 ∷ 221 ∷ 31 ∷ 163 ∷ 32 ∷ 113 ∷ 196 ∷ 199
    ∷ 209 ∷ 244 ∷ 199 ∷ 51 ∷ 192 ∷ 104 ∷ 3 ∷ 4 ∷ 34 ∷ 170 ∷ 154 ∷ 195 ∷ 212 ∷ 108 ∷ 78 ∷ 210 ∷ 130
    ∷ 100 ∷ 70 ∷ 7 ∷ 159 ∷ 170 ∷ 9 ∷ 20 ∷ 194 ∷ 215 ∷ 5 ∷ 217 ∷ 139 ∷ 2 ∷ 162 ∷ 181 ∷ 18 ∷ 156 ∷ 209
    ∷ 222 ∷ 22 ∷ 78 ∷ 185 ∷ 203 ∷ 208 ∷ 131 ∷ 232 ∷ 162 ∷ 80 ∷ 60 ∷ 78 ∷ [])
unfolding keystream_block chacha_state rounds le_bytes
rfc_block = refl
