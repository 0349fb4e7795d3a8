-- ===== src/Solve/Header.antt =====
-- core/matmul/matmul_pow.cpp: the hash of a header that the MatMul puzzle is keyed by. SHA-256
-- (core/vendor/crypto/sha256.h) is a parameter, from the bytes written to the 256-bit value; a `uint256`
-- is its value, as `UintToArith256` reads it.
pub mod Preimage
use btx_miner.Common.{ℕ, ◌%◌, ◌^◌, ◌≡◌, ◌++◌, List}
use btx_miner.Common.Bytes.{le_bytes}

-- `CBlockHeader`. The fields hold unsigned words; `nVersion` is its `uint32_t` cast.
pub record Header : Type 0 where
  pub version : ℕ
  pub hash_prev_block : ℕ
  pub hash_merkle_root : ℕ
  pub time : ℕ
  pub bits : ℕ
  pub nonce64 : ℕ
  pub nonce : ℕ
  pub matmul_dim : ℕ
  pub seed_a : ℕ
  pub seed_b : ℕ
  pub matmul_digest : ℕ

-- What `ComputeMatMulHeaderHash` writes to the hasher.
unfoldable pub header_preimage : Header → List ℕ
header_preimage h =
    le_bytes 4 h.version
    ++ (le_bytes 32 h.hash_prev_block
        ++ (le_bytes 32 h.hash_merkle_root
            ++ (le_bytes 4 h.time
                ++ (le_bytes 4 h.bits
                    ++ (le_bytes 8 h.nonce64
                        ++ (le_bytes 2 h.matmul_dim
                            ++ (le_bytes 32 h.seed_a ++ le_bytes 32 h.seed_b)))))))

module _ (sha256 : List ℕ → ℕ) where
  unfoldable pub compute_matmul_header_hash : Header → ℕ
  compute_matmul_header_hash h = sha256 (header_preimage h)

  unfoldable pub derive_sigma : Header → ℕ
  derive_sigma h = sha256 (le_bytes 32 (compute_matmul_header_hash h))

  -- The header with the fields that the search changes nulled.
  unfoldable pub rc_bank_template_hash : Header → ℕ
  rc_bank_template_hash h =
      compute_matmul_header_hash
        record h { nonce64 = 0; nonce = 0; seed_a = 0; seed_b = 0; matmul_digest = 0 }
