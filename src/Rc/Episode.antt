-- ===== src/Rc/Episode.antt =====
-- core/matmul/matmul_v4_rc.cpp: the episode, `run_episode_impl`: rounds of a recall and of fused layers, each
-- committed to by a root that seeds the next. The 64-bit sums do not overflow for operands that fit
-- a byte, and are integers. `fuel` bounds the blocks of each stream; `none` says that it ran out.
pub mod Recall
pub mod Layers
pub mod More
pub mod Chain
pub mod Params
mod Tests
use Prim.Native.String.{String}
use mathlib.Core.List.{flatten}
use btx_miner.Common.{
  ℕ, zero, suc, ◌+◌, ◌-◌, ◌*◌, ◌/◌, ◌%◌, ◌^◌, Bool, List, [], ◌∷◌, ◌++◌, map, Option, none, some,
  replicate, ltb, if◌then◌else◌,
}
use btx_miner.Common.Int.{ℤ, pos, to_unsigned}
use btx_miner.Rc.Gemm.{add_scaled, accumulate_row, add_rows}
use btx_miner.Rc.Merkle.{Merkle, sha256d, absorb, finalize_root}
use btx_miner.Rc.Expand.{
  Bytes, Matrix, tag, mx_block_len, ◌>>=◌, expand_mx_dequant_i8, derive_operand_seed, tagged_u32,
  derive_prf_key,
}
use btx_miner.Rc.Tile.{extract_mx_matrix_i64}
use btx_miner.Rc.Episode.Recall.{recall_rows}
use btx_miner.Rc.Episode.Params.{EpisodeParams}

-- The product, a row at a time; `n` is the number of columns.
abbrev pub gemm_s8s8_i64 : Matrix → Matrix → ℕ → Matrix
gemm_s8s8_i64 a b n = map (λ row. accumulate_row row b (replicate n (pos 0))) a

abbrev pub add_matrix : Matrix → Matrix → Matrix
add_matrix [] xs = []
add_matrix (y ∷ ys) [] = y ∷ ys
add_matrix (y ∷ ys) (x ∷ xs) = add_rows y x ∷ add_matrix ys xs

-- The digits of `%u`; ten are enough for 32 bits.
unfoldable pub decimal : ℕ → ℕ → Bytes → Bytes
decimal zero n acc = acc
decimal (suc digits) n acc =
    let more = decimal digits (n / 10) ((48 + n % 10) ∷ acc) in
    if ltb n 10 then (48 + n % 10) ∷ acc else more

abbrev pub layer_tag : String → ℕ → Bytes
layer_tag front l = tag front ++ (decimal 10 l [] ++ tag "_V1")

-- The bytes of a matrix, a row after the other.
abbrev pub matrix_bytes : Matrix → Bytes
matrix_bytes m = map (λ x. to_unsigned 256 x) (flatten m)

module _ (sha256 : Bytes → Bytes) where
  abbrev pub layer_prf : Bytes → String → ℕ → Bytes
  layer_prf seed_r front l =
      derive_prf_key sha256 (derive_operand_seed sha256 seed_r (layer_tag front l))

  -- `m.absorb` of each layer's output.
  unfoldable pub absorb_all : Merkle → List Matrix → Merkle
  absorb_all m [] = m
  absorb_all m (x ∷ xs) = absorb_all (absorb sha256 m (matrix_bytes x)) xs

module _ (sha256 : Bytes → Bytes) (fuel : ℕ) where
  unfoldable pub fused_ffn_layer : Matrix → Matrix → Matrix → Bytes → Bytes → ℕ → ℕ → Option Matrix
  fused_ffn_layer x w_up w_dn prf_up prf_dn d_model d_ff = do
    h ← extract_mx_matrix_i64 sha256 fuel prf_up 0 d_ff (gemm_s8s8_i64 x w_up d_ff)
    extract_mx_matrix_i64 sha256 fuel prf_dn 0 d_model (add_matrix (gemm_s8s8_i64 h w_dn d_model) x)

  -- The blocks of 32 rows from block `b` on; rows past the last whole block are zero.
  unfoldable pub row_blocks : Bytes → ℕ → ℕ → ℕ → Matrix → Option Matrix
  row_blocks seed_x0 d_model b zero rest = some rest
  row_blocks seed_x0 d_model b (suc blocks) rest = do
    block ←
        expand_mx_dequant_i8 sha256 fuel
          (tagged_u32 sha256 (tag "BTX_RC_X0_ROW_BLOCK_V1") seed_x0 b) 32 d_model
    more ← row_blocks seed_x0 d_model (suc b) blocks rest
    some (block ++ more)

  module _ (p : EpisodeParams) (sigma : Bytes) where
    -- `X[0]`.
    unfoldable pub first_rows : Bytes → Option Matrix
    first_rows seed_r =
        let seed_x0 = derive_operand_seed sha256 seed_r (tag "BTX_RC_X0_V1") in
        if p.rowblock_x0
        then row_blocks seed_x0 p.d_model 0 (p.b_seq / 32)
            (replicate (p.b_seq % 32) (replicate p.d_model (pos 0)))
        else expand_mx_dequant_i8 sha256 fuel seed_x0 p.b_seq p.d_model

    -- The weights of layer `l`: one pair for the episode, or a pair of its own.
    unfoldable pub up_weights : Bytes → ℕ → Option Matrix
    up_weights seed_r l =
        expand_mx_dequant_i8 sha256 fuel
          (if p.share_ep
            then derive_operand_seed sha256 sigma (tag "BTX_RC_WUP_V1")
            else derive_operand_seed sha256 seed_r (layer_tag "BTX_RC_WUP_" l))
          p.d_model p.d_ff

    unfoldable pub down_weights : Bytes → ℕ → Option Matrix
    down_weights seed_r l =
        expand_mx_dequant_i8 sha256 fuel
          (if p.share_ep
            then derive_operand_seed sha256 sigma (tag "BTX_RC_WDN_V1")
            else derive_operand_seed sha256 seed_r (layer_tag "BTX_RC_WDN_" l))
          p.d_ff p.d_model

    -- The outputs of the layers from `l` on, `X[l + 1]` first.
    unfoldable pub run_layers : Bytes → ℕ → ℕ → Matrix → Option (List Matrix)
    run_layers seed_r l zero x = some []
    run_layers seed_r l (suc layers) x = do
      w_up ← up_weights seed_r l
      w_dn ← down_weights seed_r l
      x' ←
          fused_ffn_layer x w_up w_dn (layer_prf sha256 seed_r "BTX_RC_PRF_UP_" l)
            (layer_prf sha256 seed_r "BTX_RC_PRF_DN_" l) p.d_model p.d_ff
      rest ← run_layers seed_r (suc l) layers x'
      some (x' ∷ rest)

    -- The recall: the queries are fresh in each round, the keys and values may be those of the episode.
    unfoldable pub run_recall : Bytes → Option Matrix
    run_recall seed_r = do
      let kv_seed = if p.share_ep then sigma else seed_r
      let prf_s = derive_prf_key sha256 (derive_operand_seed sha256 seed_r (tag "BTX_RC_PRF_S_V1"))
      let prf_z = derive_prf_key sha256 (derive_operand_seed sha256 seed_r (tag "BTX_RC_PRF_Z_V1"))
      q ←
          expand_mx_dequant_i8 sha256 fuel (derive_operand_seed sha256 seed_r (tag "BTX_RC_Q_V1"))
            p.n_q p.d_head
      k ←
          expand_mx_dequant_i8 sha256 fuel
            (derive_operand_seed sha256 kv_seed (tag "BTX_RC_KV_K_V1")) p.n_ctx p.d_head
      v ←
          expand_mx_dequant_i8 sha256 fuel
            (derive_operand_seed sha256 kv_seed (tag "BTX_RC_KV_V_V1")) p.n_ctx p.d_head
      recall_rows sha256 fuel prf_s prf_z p.d_head (p.n_ctx / mx_block_len) k v 0 q

    -- One round, from its seed to its root.
    unfoldable pub round_root : Bytes → Option Bytes
    round_root seed_r = do
      z ← run_recall seed_r
      x0 ← first_rows seed_r
      xs ← run_layers seed_r 0 p.l_lyr x0
      let m : Merkle = record { t_leaf = p.t_leaf; partial = []; leaves = [] }
      finalize_root sha256 (absorb_all sha256 (absorb sha256 m (matrix_bytes z)) xs)

    -- The rounds from `r` on; the first is seeded by sigma, the others by the root before.
    unfoldable pub run_rounds : ℕ → ℕ → Bytes → Option (List Bytes)
    run_rounds r zero before = some []
    run_rounds r (suc left) before = do
      root ← round_root (tagged_u32 sha256 (tag "BTX_RC_ROUND_V1") before r)
      rest ← run_rounds (suc r) left root
      some (root ∷ rest)

    -- The digest with the roots that a witness holds.
    unfoldable pub run_episode_impl : Option (Bytes × List Bytes)
    run_episode_impl = do
      roots ← run_rounds 0 p.rounds sigma
      some (sha256d sha256 (tag "BTX_RC_EPISODE_V1" ++ flatten roots), roots)
