-- ===== src/Rc/Episode/Tests.antt =====
-- core/matmul: the theorems on expansion, tiles, recall and layers, applied at small inputs.
use btx_miner.Common.{
  List, ℕ, ◌<◌, ◌≡◌, refl, [], ◌∷◌, ◌++◌, Option, some, none, length, replicate, arith, All, false,
}
use btx_miner.Common.Int.{ℤ, pos, ◌+ℤ◌, ◌*ℤ◌}
use btx_miner.Rc.Gemm.{accumulate_row}
use btx_miner.Rc.Gemm.Dot.{dot}
use btx_miner.Rc.Mantissa.{m11, mix_bits_from_i64, fill_tile, derive_mx_scale}
use btx_miner.Rc.ChaCha.{chacha_state, rounds, keystream_block}
use btx_miner.Common.Bytes.{le_bytes}
use btx_miner.Rc.Draw.{draw, fill}
use btx_miner.Rc.Expand.{
  Bytes, Matrix, tag, expand_mantissa_stream, expand_scale_stream, expand_mx_dequant_i8,
}
use btx_miner.Rc.Tile.{
  tile_nibbles, extract_from, extract_tile_mantissas, extract_mx_tile_i64, extract_row,
  extract_mx_matrix_i64,
}
use btx_miner.Rc.Tile.Within.{IsRow, IsMatrix}
use btx_miner.Rc.Episode.Chain.{AreChained, run_episode_impl-AreChained}
use btx_miner.Rc.Merkle.{
  sha256d, absorb, finalize_root, all_leaves, pad_to_pow2, double_to, fold_levels, level_up,
  hash_node, hash_leaf, pad_leaf_hash,
}
use btx_miner.Rc.Episode.{
  run_episode_impl, run_rounds, round_root, run_recall, absorb_all, first_rows, run_layers,
  up_weights, down_weights, fused_ffn_layer, decimal,
}
use btx_miner.Rc.Episode.Params.{EpisodeParams}
use btx_miner.Rc.Episode.Recall.{
  Sums, no_sums, score, recall_cells, recall_tiles, recall_row, recall_rows,
}
use mathlib.Core.List.{flatten}
use btx_miner.Rc.Episode.Recall.Segments.{total, AreScores, recall_tiles-eq-dot}
use btx_miner.Rc.Episode.Layers.{run_layers-AreMatrices}
use btx_miner.Rc.Tests.{toy_sha, five_bytes, rfc_key}

-- Two tiles with one column: the last of the first segment and the first of the second one, with a sum
-- that the tiles before left.
abbrev toy_keys : Matrix
toy_keys = replicate 64 (pos 3 ∷ [])

abbrev toy_start : Sums
toy_start = record { cur_seg = 0; seg_row = pos 7 ∷ []; acc_z = pos 0 ∷ [] }

abbrev toy_sums : Option Sums
toy_sums =
    recall_tiles toy_sha 2 rfc_key rfc_key 1 0 1023 32736 2 (pos 2 ∷ []) toy_keys toy_keys toy_start

abbrev or_none : Option Sums → Sums
or_none none = no_sums 1
or_none (some st) = st

abbrev toy_end : Sums
toy_end = or_none toy_sums

toy_sums-some : toy_sums ≡ some toy_end
unfolding recall_tiles extract_mx_tile_i64 extract_tile_mantissas extract_from tile_nibbles
    fill_tile keystream_block chacha_state rounds le_bytes m11 mix_bits_from_i64 score ◌+ℤ◌ ◌*ℤ◌
toy_sums-some = refl

toy_carried : toy_end.cur_seg ≡ 1
unfolding recall_tiles recall_cells extract_mx_tile_i64 extract_tile_mantissas extract_from
    tile_nibbles fill_tile keystream_block chacha_state rounds le_bytes m11 mix_bits_from_i64 score
    derive_mx_scale accumulate_row ◌+ℤ◌ ◌*ℤ◌
toy_carried = refl

recall_tiles-eq-dot_example :
    (ss : List ℤ) × AreScores toy_sha 2 rfc_key rfc_key 1 0 1023 2 (pos 2 ∷ []) toy_keys ss
    × IsRow 64 ss
    × ((c : ℕ) → c < 1 → total toy_end c ≡ total toy_start c +ℤ dot ss toy_keys c)
recall_tiles-eq-dot_example =
    recall_tiles-eq-dot toy_sha 2 rfc_key rfc_key 1 0 1023 32736 2 (pos 2 ∷ []) toy_keys toy_keys
      toy_start (omega arith) (omega arith) (refl, refl) toy_sums-some

abbrev toy_episode : EpisodeParams
toy_episode = record {
  rounds = 1;
  d_head = 32;
  n_q = 1;
  n_ctx = 32;
  l_lyr = 1;
  d_model = 32;
  d_ff = 32;
  b_seq = 1;
  t_leaf = 64;
  share_ep = false;
  rowblock_x0 = false;
}

abbrev or_nil {ℓ} : {A : Type ℓ} → Option (List A) → List A
or_nil none = []
or_nil (some xs) = xs

abbrev toy_x0 : Matrix
toy_x0 = or_nil (first_rows toy_sha 60 toy_episode five_bytes five_bytes)

abbrev toy_outs : List Matrix
toy_outs = or_nil (run_layers toy_sha 60 toy_episode five_bytes five_bytes 0 1 toy_x0)

toy_x0-some : first_rows toy_sha 60 toy_episode five_bytes five_bytes ≡ some toy_x0
unfolding first_rows expand_mx_dequant_i8 expand_mantissa_stream expand_scale_stream draw fill m11
    le_bytes
toy_x0-some = refl

toy_outs-some : run_layers toy_sha 60 toy_episode five_bytes five_bytes 0 1 toy_x0 ≡ some toy_outs
unfolding first_rows run_layers up_weights down_weights expand_mx_dequant_i8 expand_mantissa_stream
    expand_scale_stream draw fill m11 le_bytes fused_ffn_layer extract_mx_matrix_i64 extract_row
    extract_mx_tile_i64 extract_tile_mantissas extract_from tile_nibbles fill_tile keystream_block
    chacha_state rounds mix_bits_from_i64 accumulate_row decimal derive_mx_scale ◌+ℤ◌ ◌*ℤ◌
toy_outs-some = refl

run_layers-AreMatrices_example :
    IsMatrix 1 32 toy_x0 × (length toy_outs ≡ 1) × All (IsMatrix 1 32) toy_outs
run_layers-AreMatrices_example =
    run_layers-AreMatrices toy_sha 60 toy_episode five_bytes five_bytes toy_x0-some toy_outs-some

abbrev or_nothing : Option (Bytes × List Bytes) → Bytes × List Bytes
or_nothing none = ([], [])
or_nothing (some out) = out

-- Two rounds, with no keys to recall.
abbrev two_rounds : EpisodeParams
two_rounds = record toy_episode { rounds = 2; n_ctx = 0 }

abbrev toy_digest : Bytes × List Bytes
toy_digest = or_nothing (run_episode_impl toy_sha 60 two_rounds five_bytes)

toy_digest-some : run_episode_impl toy_sha 60 two_rounds five_bytes ≡ some toy_digest
unfolding run_episode_impl recall_cells flatten run_rounds round_root run_recall recall_rows
    recall_row recall_tiles score absorb_all absorb finalize_root all_leaves pad_to_pow2 double_to
    fold_levels level_up hash_node hash_leaf pad_leaf_hash first_rows run_layers up_weights
    down_weights expand_mx_dequant_i8 expand_mantissa_stream expand_scale_stream draw fill m11
    le_bytes fused_ffn_layer extract_mx_matrix_i64 extract_row extract_mx_tile_i64
    extract_tile_mantissas extract_from tile_nibbles fill_tile keystream_block chacha_state rounds
    mix_bits_from_i64 accumulate_row decimal derive_mx_scale ◌+ℤ◌ ◌*ℤ◌
toy_digest-some = refl

run_episode_impl-AreChained_example :
    (length toy_digest.1 ≡ 2)
    × AreChained toy_sha 60 two_rounds five_bytes 0 five_bytes toy_digest.1
    × (toy_digest.0 ≡ sha256d toy_sha (tag "BTX_RC_EPISODE_V1" ++ flatten toy_digest.1))
    × (run_episode_impl toy_sha 90 two_rounds five_bytes ≡ some toy_digest)
run_episode_impl-AreChained_example =
    run_episode_impl-AreChained toy_sha 60 two_rounds five_bytes 90 (omega arith) toy_digest-some
