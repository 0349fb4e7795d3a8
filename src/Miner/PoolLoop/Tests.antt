-- ===== src/Miner/PoolLoop/Tests.antt =====
-- The pool loop, on a small job.
use btx_miner.Common.{
  ℕ, ◌+◌, ◌%◌, ◌≤◌, ◌≡◌, ◌≢◌, refl, true, false, List, [], ◌∷◌, Option, none, some, get_elem?,
  arith, map,
}
use btx_miner.Common.Int.{pos}
use btx_miner.Common.Bytes.{le_bytes}
use btx_miner.Pow.Tests.{example_vendored}
use btx_miner.Pow.Work.{derive_target}
use btx_miner.Solve.Header.{Header, header_preimage, compute_matmul_header_hash, derive_sigma}
use btx_miner.Solve.Seeds.{seed_preimage_v2, set_deterministic_matmul_seeds}
use btx_miner.Solve.Loop.{search, solve_matmul_rc_episode}
use btx_miner.Solve.Dispatch.{
  base, effective_target, solve_variant, solve_matmul, active_matmul_solve_variant,
  rc_episode_solve_enabled,
}
use btx_miner.Solve.Tests.{toy_request, never}
use btx_miner.Miner.Version.{Text}
use btx_miner.Miner.Cursor.{resume_cursor, record_cursor, raise_cursor}
use btx_miner.Miner.Notify.{StratumJob}
use btx_miner.Miner.Latch.{
  announces_rc, has_id, starts_with, is_matmul_rc_active, maybe_latch_rc_from_job,
  rc_stratum_auto_latch_enabled,
}
use btx_miner.Miner.Latch.Tests.{toy_stratum_job, usual, unlatched}
use btx_miner.Solve.Seeds.{Activation}
use btx_miner.Miner.PoolLoop.State.{
  PoolSetup, MinedJob, Scan, Pass, build_header_from_job, header_dim, select_cursor, is_superseded,
  has_key, keys_for, wrap_lane,
}
use btx_miner.Miner.PoolLoop.{
  PoolEvent, connects, takes_job, passes, initial_scan, run_pool, on_pool_event, take_job,
  pass_over, pool_pass, on_share, on_no_share, after_share, attempts,
}
use btx_miner.Miner.PoolLoop.Keys.{AllDifferent, key_of}
use btx_miner.Miner.PoolLoop.Dedup.{run_pool-AllDifferent}
use btx_miner.Miner.PoolLoop.Cursor.{Advances, pool_pass-Advances}
use btx_miner.Miner.PoolLoop.Announced.{header_dim-first, attempts_rotate}
use btx_miner.Miner.PoolLoop.Unsent.{found_by, pool_pass_unsent}

-- The number that a text starts with.
abbrev first_char : Text → Option ℕ
first_char [] = none
first_char (c ∷ t) = some c

abbrev toy_setup : PoolSetup
toy_setup = record {
  vendored = example_vendored;
  request = toy_request;
  from_hex = first_char;
  rc_header_dim = 4096;
  matmul_dimension = 512;
  maxtries = 3;
}

abbrev pool_job : StratumJob
pool_job = record (toy_stratum_job 1 10 4096) {
  prevhash_hex = 2 ∷ [];
  merkleroot_hex = 3 ∷ [];
  target_hex = 1048576 ∷ [];
  nonce64_start = 40;
}

abbrev good_pass : Pass
good_pass = record {
  active = toy_request.job.active;
  aborted = never;
  aborted_after = false;
  latest = none;
  sends = true;
}

-- The reader has not latched yet.
abbrev not_yet : Activation
not_yet = record (toy_request.job.active) { rc_active = λ h. false }

-- The activation changes between the building of the first header and the pass over it.
abbrev events : List PoolEvent
events =
    connects
    ∷ takes_job not_yet pool_job
    ∷ passes good_pass
    ∷ connects
    ∷ takes_job toy_request.job.active pool_job
    ∷ passes good_pass
    ∷ passes good_pass
    ∷ []

-- The range is resumed after the new connection, so that nothing is searched again.
events_sent :
    map key_of (run_pool toy_setup (initial_scan []) events)
    ≡ (40, 100) ∷ (41, 100) ∷ (42, 100) ∷ []
unfolding run_pool on_pool_event take_job pass_over pool_pass on_share on_no_share after_share
    build_header_from_job header_dim select_cursor is_superseded has_key keys_for wrap_lane
    record_cursor raise_cursor resume_cursor solve_matmul solve_variant effective_target
    derive_target active_matmul_solve_variant rc_episode_solve_enabled solve_matmul_rc_episode
    search set_deterministic_matmul_seeds derive_sigma compute_matmul_header_hash header_preimage
    seed_preimage_v2 le_bytes
events_sent = refl

abbrev GetsRcDim : Activation → StratumJob → Type 0
GetsRcDim active job = header_dim toy_setup active job ≡ 4096

run_pool-AllDifferent_example :
    AllDifferent (map key_of (run_pool toy_setup (initial_scan []) events))
run_pool-AllDifferent_example =
    run_pool-AllDifferent toy_setup (pos 10) events (initial_scan []) (refl, (refl, tt)) refl

abbrev pool_header : Header
pool_header = record {
  version = 1;
  hash_prev_block = 2;
  hash_merkle_root = 3;
  time = 100;
  bits = 9;
  nonce64 = 40;
  nonce = 40;
  matmul_dim = 4096;
  seed_a = 0;
  seed_b = 0;
  matmul_digest = 0;
}

abbrev pool_work : MinedJob
pool_work = record { job = pool_job; header = pool_header; share_target = 1048576 }

abbrev working : Scan
working = record (initial_scan []) { nonce_cursor = 40; cur_range = 40; work = some pool_work }

pool_pass-Advances_example :
    Advances working toy_setup.maxtries (pool_pass toy_setup working pool_work good_pass)
pool_pass-Advances_example =
    pool_pass-Advances toy_setup pool_work good_pass working refl (omega arith)

abbrev failing_pass : Pass
failing_pass = record good_pass { sends = false }

pool_pass_unsent_example :
    let out = found_by toy_setup pool_work working failing_pass in
    let after = (pool_pass toy_setup working pool_work failing_pass).scan in
    (found_by toy_setup pool_work after (record failing_pass { sends = true }) ≡ out)
    × ((pool_pass toy_setup after pool_work (record failing_pass { sends = true })).sent ≡ [])
unfolding is_superseded has_key keys_for solve_matmul solve_variant effective_target derive_target
    active_matmul_solve_variant rc_episode_solve_enabled solve_matmul_rc_episode search
    set_deterministic_matmul_seeds derive_sigma compute_matmul_header_hash header_preimage
    seed_preimage_v2 le_bytes
pool_pass_unsent_example =
    pool_pass_unsent toy_setup pool_work working failing_pass refl refl refl refl

abbrev followed : Activation
followed = record (toy_request.job.active) {
  rc_active =
      λ h. is_matmul_rc_active true (maybe_latch_rc_from_job usual unlatched pool_job).activation h;
}

header_dim-first_example :
    (header_dim toy_setup followed pool_job ≡ 4096)
    × (active_matmul_solve_variant followed (pos 10) ≢ base)
unfolding rc_stratum_auto_latch_enabled has_id announces_rc starts_with
header_dim-first_example =
    header_dim-first toy_setup followed usual unlatched pool_job refl refl refl refl refl
      (omega arith) (omega arith) refl

attempts_rotate_example :
    (pause : ℕ) × (get_elem? (attempts 3 (1, 1) (false ∷ true ∷ false ∷ false ∷ [])) 3
      ≡ some ((1 + 3) % 3, pause))
    × (1 ≤ pause)
    × (pause ≤ 30)
attempts_rotate_example =
    attempts_rotate (false ∷ true ∷ false ∷ false ∷ []) 3 1 1 3 (omega arith) (omega arith)
      (omega arith) (omega arith)
