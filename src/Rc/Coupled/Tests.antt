-- ===== src/Rc/Coupled/Tests.antt =====
-- core/matmul/matmul_v4_rc_coupled.cpp: the theorems on the bank, applied at small inputs.
use btx_miner.Common.{List, ℕ, Option, none, ◌≡◌, refl, [], ◌∷◌, replicate, some, arith}
use btx_miner.Rc.Expand.{◌>>=◌, Bytes}
use btx_miner.Rc.Shuffle.{CoupParams}
use btx_miner.Rc.Coupled.Bank.{
  thread_pages, run_writes, all_some, derive_bank_page, derive_bank_pages,
}
use btx_miner.Rc.Coupled.Bank.Threads.{
  Interleaves, finished, writes, all_threads, derive_bank_pages-Interleaves,
}
use btx_miner.Rc.Coupled.{
  run_coupled_with_bank, build_coupled_bank_v3, compute_coupled_digest_v3,
  compute_coupled_digest_v3_with_bank,
}
use btx_miner.Rc.Shuffle.{apply_perm, balanced_perm, select_pages, shuffle}
use btx_miner.Common.Int.{◌*ℤ◌, ◌+ℤ◌}
use btx_miner.Rc.ChaCha.{chacha_state, keystream_block, rounds}
use btx_miner.Rc.Coupled.Bank.{bank_commitment}
use btx_miner.Rc.Coupled.Mix.{
  all_to_all_mix, ascend, count_bits, descend, fold_lanes, mix_descending, mix_stage, xor_lanes,
  material_exchange_rounds, exchange_round,
}
use btx_miner.Rc.Coupled.{
  chunks, lobe_leg, lobe_legs, initial_lobes, run_barriers, barrier, mixed_lanes,
}
use btx_miner.Rc.Gemm.{accumulate_row, lobe_gemm_add}
use btx_miner.Rc.Mantissa.{derive_mx_scale, fill_tile, mix_bits_from_i64, m11}
use btx_miner.Rc.Tile.{
  extract_from, extract_mx_tile_i64, extract_tile_mantissas, tile_nibbles, extract_row,
}
use btx_miner.Rc.Xof.{next, refill, word_at}
use btx_miner.Rc.Expand.{expand_mx_dequant_i8, expand_mantissa_stream, expand_scale_stream}
use btx_miner.Rc.Draw.{draw, fill}
use btx_miner.Common.Bytes.{le_bytes}
use mathlib.Core.List.{flatten}
use btx_miner.Rc.Coupled.Gate.{compute_coupled_digest_v3-eq-run}
use btx_miner.Rc.Tests.{toy_sha, five_bytes, toy_coup}

-- Two threads that take turns unevenly.
abbrev schedule : List ℕ
schedule = 1 ∷ 0 ∷ 3 ∷ 5 ∷ 2 ∷ 4 ∷ []

schedule-Interleaves : Interleaves (all_threads 2 6) schedule
unfolding thread_pages
schedule-Interleaves = writes 1 refl (
    writes 0 refl
      (writes 1 refl (writes 1 refl (writes 0 refl (writes 0 refl (finished (refl, (refl, tt))))))))

derive_bank_pages-Interleaves_example :
    all_some (
      run_writes (derive_bank_page toy_sha 40 five_bytes toy_coup) schedule (replicate 6 (some [])))
    ≡ derive_bank_pages toy_sha 40 five_bytes toy_coup
derive_bank_pages-Interleaves_example =
    derive_bank_pages-Interleaves toy_sha 40 five_bytes toy_coup 2 schedule (omega arith)
      schedule-Interleaves

compute_coupled_digest_v3-eq-run_example :
    compute_coupled_digest_v3 toy_sha 40 toy_coup five_bytes five_bytes 7 ≡ (
      build_coupled_bank_v3 toy_sha 40 toy_coup five_bytes 7 >>= λ bank.
      run_coupled_with_bank toy_sha 40 toy_coup five_bytes bank.pages bank.bank_root)
compute_coupled_digest_v3-eq-run_example =
    compute_coupled_digest_v3-eq-run toy_sha 40 toy_coup five_bytes five_bytes 7

abbrev or_nil : Option Bytes → Bytes
or_nil none = []
or_nil (some out) = out

abbrev small_coup : CoupParams
small_coup = record toy_coup { bank_pages = 2; pages_per_barrier_lobe = 1 }

abbrev toy_digest : Bytes
toy_digest = or_nil (compute_coupled_digest_v3 toy_sha 40 small_coup five_bytes five_bytes 7)

toy_digest-some :
    compute_coupled_digest_v3 toy_sha 40 small_coup five_bytes five_bytes 7 ≡ some toy_digest
unfolding compute_coupled_digest_v3 compute_coupled_digest_v3_with_bank build_coupled_bank_v3
    run_coupled_with_bank derive_bank_pages derive_bank_page apply_perm ◌*ℤ◌ ◌+ℤ◌ chacha_state
    keystream_block rounds bank_commitment all_to_all_mix ascend count_bits descend fold_lanes
    mix_descending mix_stage xor_lanes chunks lobe_leg lobe_legs accumulate_row lobe_gemm_add
    derive_mx_scale fill_tile mix_bits_from_i64 balanced_perm select_pages shuffle extract_from
    extract_mx_tile_i64 extract_tile_mantissas tile_nibbles next refill word_at all_some
    expand_mx_dequant_i8 expand_mantissa_stream draw fill m11 le_bytes expand_scale_stream flatten
    initial_lobes run_barriers barrier extract_row mixed_lanes material_exchange_rounds
    exchange_round
toy_digest-some = refl
