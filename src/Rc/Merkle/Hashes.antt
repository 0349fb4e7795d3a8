-- ===== src/Rc/Merkle/Hashes.antt =====
-- core/matmul/matmul_v4_rc.cpp: every leaf of a tree is a hash of 32 bytes.
use btx_miner.Common.{
  ℕ, zero, suc, ◌≡◌, List, [], ◌∷◌, ◌++◌, length, replicate, arith, ◌==◌, if◌then◌else◌, Bool, true,
  false,
}
use btx_miner.Rc.Merkle.{
  Bytes, Merkle, absorb, absorb_byte, hash_leaf, flush, at_least_one, all_leaves, pad_leaf_hash,
  pad_to_pow2,
}
use btx_miner.Rc.Merkle.Binding.{AreHashes}
use btx_miner.Rc.Merkle.Absorb.{filled, longer}

module _ (sha256 : Bytes → Bytes) (size : (x : Bytes) → length (sha256 x) ≡ 32) where
  append-AreHashes :
      (xs ys : List Bytes) → AreHashes sha256 xs → AreHashes sha256 ys → AreHashes sha256 (xs ++ ys)
  append-AreHashes [] ys h k = k
  append-AreHashes (x ∷ xs) ys h k = (h.0, append-AreHashes xs ys h.1 k)

  replicate-AreHashes : (n : ℕ) (x : Bytes) → length x ≡ 32 → AreHashes sha256 (replicate n x)
  replicate-AreHashes zero x h = omega arith
  replicate-AreHashes (suc n) x h = (h, replicate-AreHashes n x h)

  either_hashes :
      (t : Bool) (m n : Merkle)
      → AreHashes sha256 m.leaves
      → AreHashes sha256 n.leaves
      → AreHashes sha256 (if t then m else n).leaves
  either_hashes true m n h k = h
  either_hashes false m n h k = k

  byte-AreHashes :
      (m : Merkle) (b : ℕ)
      → AreHashes sha256 m.leaves
      → AreHashes sha256 (absorb_byte sha256 m b).leaves
  unfolding hash_leaf
  byte-AreHashes m b h =
      either_hashes (length (m.partial ++ b ∷ []) == m.t_leaf) (filled sha256 m b)
        (longer sha256 m b) (append-AreHashes m.leaves _ h (size _, omega arith)) h

  pub absorb-AreHashes :
      (v : Bytes) (m : Merkle)
      → AreHashes sha256 m.leaves
      → AreHashes sha256 (absorb sha256 m v).leaves
  unfolding absorb
  absorb-AreHashes [] m h = h
  absorb-AreHashes (b ∷ v) m h = absorb-AreHashes v _ (byte-AreHashes m b h)

  flush-AreHashes :
      (t : ℕ) (p : Bytes) (xs : List Bytes)
      → AreHashes sha256 xs
      → AreHashes sha256 (flush sha256 t p xs)
  unfolding hash_leaf
  flush-AreHashes t [] xs h = h
  flush-AreHashes t (b ∷ p) xs h = append-AreHashes xs _ h (size _, omega arith)

  one-AreHashes :
      (xs : List Bytes) → AreHashes sha256 xs → AreHashes sha256 (at_least_one sha256 xs)
  unfolding pad_leaf_hash
  one-AreHashes [] h = (size _, omega arith)
  one-AreHashes (x ∷ xs) h = h

  pub padded-AreHashes :
      (m : Merkle)
      → AreHashes sha256 m.leaves
      → AreHashes sha256 (pad_to_pow2 sha256 (all_leaves sha256 m))
  unfolding pad_to_pow2 all_leaves pad_leaf_hash
  padded-AreHashes m h =
      append-AreHashes _ _ (one-AreHashes _ (flush-AreHashes m.t_leaf m.partial m.leaves h))
        (replicate-AreHashes _ _ (size _))
