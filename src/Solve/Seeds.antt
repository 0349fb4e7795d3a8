-- ===== src/Solve/Seeds.antt =====
-- core/matmul/pow_solve.cpp: the operand seeds that a header is given before it is hashed.
use btx_miner.Common.{
  ℕ, ◌^◌, ◌++◌, List, [], ◌∷◌, Bool, true, false, Option, none, some, if◌then◌else◌,
}
use btx_miner.Common.Int.{ℤ, pos, ltb_ℤ, to_unsigned}
use btx_miner.Common.Bytes.{le_bytes}
use btx_miner.Solve.Header.{Header}

-- The activation tests of `Consensus::Params` (core/vendor/consensus/params.h).
pub record Activation : Type 0 where
  pub mtp_seed_active : ℤ → Bool
  pub nonce_seed_active : ℤ → Bool
  pub rc_active : ℤ → Bool
  pub rc_coupled_active : ℤ → Bool

-- `std::string{"BTX_MATMUL_SEED_V2"}` and `V3` as they are serialized: the length, then the characters.
abbrev seed_tag : ℕ → List ℕ
seed_tag version_char =
    18 ∷ 66 ∷ 84 ∷ 88 ∷ 95 ∷ 77 ∷ 65 ∷ 84 ∷ 77 ∷ 85 ∷ 76 ∷ 95 ∷ 83 ∷ 69 ∷ 69 ∷ 68 ∷ 95 ∷ 86
    ∷ version_char ∷ []

unfoldable pub seed_preimage_v1 : ℕ → ℕ → ℕ → Option ℕ → List ℕ
seed_preimage_v1 prev height which nonce =
    le_bytes 32 prev
    ++ (le_bytes 4 height ++ (le_bytes 1 which ++ elim nonce [ none ↦ [] | some n ↦ le_bytes 8 n ]))

-- The fields that the second and the third version write after the height.
abbrev template_bytes : Header → ℕ → List ℕ
template_bytes h which =
    le_bytes 4 h.version
    ++ (le_bytes 32 h.hash_merkle_root
        ++ (le_bytes 4 h.time
            ++ (le_bytes 4 h.bits
                ++ (le_bytes 8 h.nonce64 ++ (le_bytes 2 h.matmul_dim ++ le_bytes 1 which)))))

unfoldable pub seed_preimage_v2 : Header → ℕ → ℕ → List ℕ
seed_preimage_v2 h height which =
    seed_tag 50 ++ (le_bytes 32 h.hash_prev_block ++ (le_bytes 4 height ++ template_bytes h which))

unfoldable pub seed_preimage_v3 : Header → ℕ → ℤ → ℕ → List ℕ
seed_preimage_v3 h height mtp which =
    seed_tag 51
    ++ (le_bytes 32 h.hash_prev_block
        ++ (le_bytes 8 (to_unsigned (2 ^ 64) mtp) ++ (le_bytes 4 height ++ template_bytes h which)))

module _ (sha256 : List ℕ → ℕ) (active : Activation) where
  -- The result is the value returned and the header as it is left.
  unfoldable pub set_deterministic_matmul_seeds : Header → ℤ → Option ℤ → Bool × Header
  set_deterministic_matmul_seeds h height mtp =
      let word = to_unsigned (2 ^ 32) height in
      if ltb_ℤ height (pos 0)
      then (true, record h { seed_a = 0; seed_b = 0 })
      else if active.mtp_seed_active height
      then elim mtp [
        | none ↦ (false, record h { seed_a = 0; seed_b = 0 })
        | some t ↦ (
          true,
          record h {
            seed_a = sha256 (seed_preimage_v3 h word t 0);
            seed_b = sha256 (seed_preimage_v3 h word t 1);
          },
        )
      ]
      else if active.nonce_seed_active height
      then (
        true,
        record h {
          seed_a = sha256 (seed_preimage_v2 h word 0);
          seed_b = sha256 (seed_preimage_v2 h word 1);
        },
      )
      else (
        true,
        record h {
          seed_a = sha256 (seed_preimage_v1 h.hash_prev_block word 0 none);
          seed_b = sha256 (seed_preimage_v1 h.hash_prev_block word 1 none);
        },
      )
