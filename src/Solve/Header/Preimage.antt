-- ===== src/Solve/Header/Preimage.antt =====
-- core/matmul/matmul_pow.cpp: the bytes that are hashed determine the header.
use btx_miner.Common.{◌^◌, ◌<◌, ◌≡◌, arith}
use btx_miner.Common.Bytes.{field-injective, le_bytes-injective}
use btx_miner.Solve.Header.{Header, header_preimage}

-- Each field fits the width that it is written with.
pub record IsWords (h : Header) : Type 0 where
  pub version : h.version < 256 ^ 4
  pub hash_prev_block : h.hash_prev_block < 256 ^ 32
  pub hash_merkle_root : h.hash_merkle_root < 256 ^ 32
  pub time : h.time < 256 ^ 4
  pub bits : h.bits < 256 ^ 4
  pub nonce64 : h.nonce64 < 256 ^ 8
  pub matmul_dim : h.matmul_dim < 256 ^ 2
  pub seed_a : h.seed_a < 256 ^ 32
  pub seed_b : h.seed_b < 256 ^ 32

header_eq :
    (h k : Header)
    → h.version ≡ k.version
    → h.hash_prev_block ≡ k.hash_prev_block
    → h.hash_merkle_root ≡ k.hash_merkle_root
    → h.time ≡ k.time
    → h.bits ≡ k.bits
    → h.nonce64 ≡ k.nonce64
    → h.matmul_dim ≡ k.matmul_dim
    → h.seed_a ≡ k.seed_a
    → h.seed_b ≡ k.seed_b
    → record h { nonce = 0; matmul_digest = 0 } ≡ record k { nonce = 0; matmul_digest = 0 }
header_eq h k a b c d e f g i j = ground arith

-- Two headers whose fields fit their widths, and for which the same bytes are hashed, agree in every field
-- but the 32-bit nonce and the digest: the hash commits to the 64-bit nonce and to both seeds.
pub header_preimage-injective :
    (h k : Header)
    → IsWords h
    → IsWords k
    → header_preimage h ≡ header_preimage k
    → record h { nonce = 0; matmul_digest = 0 } ≡ record k { nonce = 0; matmul_digest = 0 }
unfolding header_preimage
header_preimage-injective h k w x same =
    let a = field-injective 4 h.version k.version _ _ w.version x.version same in
    let b =
      field-injective 32 h.hash_prev_block k.hash_prev_block _ _ w.hash_prev_block x.hash_prev_block
        a.1 in
    let c =
      field-injective 32 h.hash_merkle_root k.hash_merkle_root _ _ w.hash_merkle_root
        x.hash_merkle_root b.1 in
    let d = field-injective 4 h.time k.time _ _ w.time x.time c.1 in
    let e = field-injective 4 h.bits k.bits _ _ w.bits x.bits d.1 in
    let f = field-injective 8 h.nonce64 k.nonce64 _ _ w.nonce64 x.nonce64 e.1 in
    let g = field-injective 2 h.matmul_dim k.matmul_dim _ _ w.matmul_dim x.matmul_dim f.1 in
    let i = field-injective 32 h.seed_a k.seed_a _ _ w.seed_a x.seed_a g.1 in
    let j = le_bytes-injective 32 h.seed_b k.seed_b w.seed_b x.seed_b i.1 in
    header_eq h k a.0 b.0 c.0 d.0 e.0 f.0 g.0 i.0 j
