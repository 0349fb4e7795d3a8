-- ===== src/Solve/Tests.antt =====
-- core/matmul: the theorems on the solver, applied to a small header.
use btx_miner.Common.{
  ℕ, zero, suc, ◌+◌, ◌-◌, ◌^◌, ◌≤◌, ◌<◌, ◌≡◌, refl, Bool, true, false, none, some, List, [], ◌∷◌,
  arith, not_below,
}
use btx_miner.Common.Int.{pos}
use btx_miner.Common.Bytes.{le_bytes}
use btx_miner.Pow.Tests.{example_params, example_vendored}
use btx_miner.Pow.Work.{derive_target}
use btx_miner.Solve.Header.{
  Header, header_preimage, compute_matmul_header_hash, derive_sigma, rc_bank_template_hash,
}
use btx_miner.Solve.Header.Preimage.{IsWords, header_preimage-injective}
use btx_miner.Solve.Seeds.{seed_preimage_v2, set_deterministic_matmul_seeds}
use btx_miner.Solve.Loop.{Job, search, solve_matmul_rc_episode, solve_matmul_rc_coupled}
use btx_miner.Solve.Loop.Search.{FirstWin, IsFirstWin, trial, winner}
use btx_miner.Solve.Loop.Wins.{
  IsClean, solve_matmul_rc_episode-FirstWin, solve_matmul_rc_episode_exhausts,
}
use btx_miner.Solve.Loop.Accounts.{
  Balance, solve_matmul_rc_episode_accounts, solve_matmul_rc_coupled_template,
}
use btx_miner.Solve.Dispatch.{
  Request, Counters, effective_target, solve_variant, solve_matmul, active_matmul_solve_variant,
  rc_episode_solve_enabled,
}
use btx_miner.Solve.Dispatch.Sound.{IsFound, solve_matmul-IsFound}

-- A stand-in for SHA-256: the sum of the bytes.
abbrev pub toy_sha : List ℕ → ℕ
toy_sha [] = 0
toy_sha (b ∷ s) = b + toy_sha s

abbrev pub toy_job : Job
toy_job = record {
  sha256 = toy_sha;
  active = record {
    mtp_seed_active = λ h. false;
    nonce_seed_active = λ h. true;
    rc_active = λ h. true;
    rc_coupled_active = λ h. false;
  };
  height = pos 7;
  parent_mtp = none;
}

abbrev pub toy_header : Header
toy_header = record {
  version = 1;
  hash_prev_block = 2;
  hash_merkle_root = 3;
  time = 4;
  bits = 9;
  nonce64 = 5;
  nonce = 5;
  matmul_dim = 6;
  seed_a = 0;
  seed_b = 0;
  matmul_digest = 0;
}

-- Falls as the nonce grows, so that a later one wins.
abbrev pub toy_digest : ℕ → ℕ
toy_digest sigma = 2 ^ 20 - sigma

abbrev pub never : ℕ → Bool
never i = false

abbrev pub toy_request : Request
toy_request = record {
  job = toy_job;
  params = example_params;
  episode_env = none;
  coupled_env = none;
  episode_digest = toy_digest;
  coupled_digest = λ template word. toy_digest;
  aborted = never;
  share_target_override = some (2 ^ 20);
}

abbrev pub no_counts : Counters
no_counts = record { solve_windows = 0; rc_episodes = 0 }

toy_won : (solve_matmul example_vendored toy_request toy_header 3 no_counts).0.won ≡ true
unfolding solve_matmul solve_variant effective_target derive_target active_matmul_solve_variant
    rc_episode_solve_enabled solve_matmul_rc_episode search set_deterministic_matmul_seeds
    derive_sigma compute_matmul_header_hash header_preimage seed_preimage_v2 le_bytes
toy_won = refl

solve_matmul-IsFound_example :
    IsFound example_vendored toy_request toy_header
      (solve_matmul example_vendored toy_request toy_header 3 no_counts).0.block
solve_matmul-IsFound_example =
    solve_matmul-IsFound example_vendored toy_request toy_header 3 no_counts toy_won

solve_matmul_rc_episode-FirstWin_example :
    let out = solve_matmul_rc_episode toy_job toy_digest 1048000 never 3 toy_header 0 in
    (out.won ≡ true → FirstWin toy_job toy_digest suc 1048000 never 3 0 toy_header)
    × ((k : ℕ)
        → IsFirstWin toy_job toy_digest suc 1048000 never 3 0 toy_header k
        → out ≡ winner toy_job toy_digest suc 1048000 never 3 toy_header k 0)
solve_matmul_rc_episode-FirstWin_example =
    solve_matmul_rc_episode-FirstWin toy_job toy_digest 1048000 never 3 toy_header 0

toy_lost : (solve_matmul_rc_episode toy_job toy_digest 10 never 3 toy_header 0).won ≡ false
unfolding solve_matmul_rc_episode search set_deterministic_matmul_seeds derive_sigma
    compute_matmul_header_hash header_preimage seed_preimage_v2 le_bytes
toy_lost = refl

toy-IsClean : (j : ℕ) → j < 3 → IsClean (trial toy_job toy_digest suc 10 never 0 toy_header j)
unfolding set_deterministic_matmul_seeds derive_sigma compute_matmul_header_hash header_preimage
    seed_preimage_v2 le_bytes
toy-IsClean zero h = (refl, refl, omega arith)
toy-IsClean (suc zero) h = (refl, refl, omega arith)
toy-IsClean (suc (suc zero)) h = (refl, refl, omega arith)
toy-IsClean (suc (suc (suc j))) h = absurd (not_below j (omega arith))

solve_matmul_rc_episode_exhausts_example :
    10 < (trial toy_job toy_digest suc 10 never 0 toy_header 2).digest
solve_matmul_rc_episode_exhausts_example =
    solve_matmul_rc_episode_exhausts toy_job toy_digest 10 never 3 toy_header 0 toy-IsClean toy_lost
      2 (omega arith) (omega arith)

solve_matmul_rc_episode_accounts_example :
    let out = solve_matmul_rc_episode toy_job toy_digest 10 never 3 toy_header 0 in
    let used = 3 - out.max_tries in
    Balance toy_job toy_digest suc 10 never 3 toy_header out
    × (0 + used ≤ out.rc_episodes)
    × (out.rc_episodes ≤ suc (0 + used))
    × (out.won ≡ true → out.rc_episodes ≡ suc (0 + used))
solve_matmul_rc_episode_accounts_example =
    solve_matmul_rc_episode_accounts toy_job toy_digest 10 never 3 toy_header 0 (omega arith)

solve_matmul_rc_coupled_template_example :
    let out = solve_matmul_rc_coupled toy_job (λ t w. toy_digest) 10 never 3 toy_header 0 in
    rc_bank_template_hash toy_sha out.block ≡ rc_bank_template_hash toy_sha toy_header
solve_matmul_rc_coupled_template_example =
    solve_matmul_rc_coupled_template toy_job (λ t w. toy_digest) 10 never 3 toy_header 0

toy-IsWords : IsWords toy_header
toy-IsWords = record {
  version = omega arith;
  hash_prev_block = omega arith;
  hash_merkle_root = omega arith;
  time = omega arith;
  bits = omega arith;
  nonce64 = omega arith;
  matmul_dim = omega arith;
  seed_a = omega arith;
  seed_b = omega arith;
}

-- The same header with another 32-bit nonce, which is not hashed.
abbrev toy_header' : Header
toy_header' = record toy_header { nonce = 77 }

toy-IsWords' : IsWords toy_header'
toy-IsWords' = record {
  version = omega arith;
  hash_prev_block = omega arith;
  hash_merkle_root = omega arith;
  time = omega arith;
  bits = omega arith;
  nonce64 = omega arith;
  matmul_dim = omega arith;
  seed_a = omega arith;
  seed_b = omega arith;
}

same_bytes : header_preimage toy_header ≡ header_preimage toy_header'
unfolding header_preimage
same_bytes = refl

header_preimage-injective_example :
    record toy_header { nonce = 0; matmul_digest = 0 }
    ≡ record toy_header' { nonce = 0; matmul_digest = 0 }
header_preimage-injective_example =
    header_preimage-injective toy_header toy_header' toy-IsWords toy-IsWords' same_bytes
