-- ===== src/Miner/Solo/Tests.antt =====
-- The solo search, on a small template with three threads.
use btx_miner.Common.{◌-◌, ◌^◌, ◌≡◌, ◌≢◌, refl, inl, inr, true, false, [], ◌∷◌, none, some, arith}
use btx_miner.Common.Bytes.{le_bytes}
use btx_miner.Pow.Tests.{example_vendored}
use btx_miner.Pow.Work.{derive_target}
use btx_miner.Solve.Header.{header_preimage, compute_matmul_header_hash, derive_sigma}
use btx_miner.Solve.Seeds.{seed_preimage_v2, set_deterministic_matmul_seeds}
use btx_miner.Solve.Loop.{search, solve_matmul_rc_episode}
use btx_miner.Solve.Dispatch.{
  effective_target, solve_variant, solve_matmul, active_matmul_solve_variant,
  rc_episode_solve_enabled,
}
use btx_miner.Solve.Tests.{toy_request, toy_header, never}
use btx_miner.Miner.Fields.{codes}
use btx_miner.Miner.Endpoint.{cut_first}
use btx_miner.Miner.Solo.{
  SoloSearch, Round, accepts, refuses, accepted, is_transport, is_quorum_bounce, round_answer,
  submit_rounds, solve_and_submit, range_start, range_budget, per_thread, solve_range,
  reconcile_dim, refused, Disk, Submitted,
}
use btx_miner.Miner.Solo.Ranges.{IsPart, range_budget-IsPart}
use btx_miner.Miner.Solo.Solved.{IsSolved}
use btx_miner.Miner.Solo.Submits.{IsDecided, IsSettled, solve_and_submit-IsSettled}

abbrev three_threads : SoloSearch
three_threads = record {
  vendored = example_vendored;
  request = record toy_request { params = record (toy_request.params) { pow_limit = 2 ^ 21 } };
  block = record toy_header { bits = 2 ^ 20; nonce64 = 5; nonce = 5 };
  max_tries = 10;
  nthreads = 3;
  aborted = λ thread. never;
}

-- The last thread takes what is left over.
budgets : (range_budget 10 3 0 ≡ 3) × ((range_budget 10 3 2 ≡ 4) × (range_start 5 10 3 2 ≡ 11))
unfolding range_budget range_start per_thread
budgets = (refl, (refl, refl))

-- Fewer tries than threads: the last budget wraps round.
wrapped_budget : range_budget 2 4 3 ≡ 2 ^ 64 - 1
unfolding range_budget per_thread
wrapped_budget = refl

pinned_dim : reconcile_dim true 4096 512 512 ≡ 4096
unfolding reconcile_dim
pinned_dim = refl

-- The nonces wrap round in the second range.
range_budget-IsPart_example : IsPart (2 ^ 64 - 4) 10 3 1
range_budget-IsPart_example =
    range_budget-IsPart (2 ^ 64 - 4) 10 3 1 (omega arith) (omega arith) (omega arith) (omega arith)

abbrev restarting : Round
restarting = record { first = refuses (codes "[code -28]"); second = accepts; expired = false }

abbrev bounced : Round
bounced = record { first = refuses (codes "no quorum"); second = accepts; expired = true }

taken_at_last : submit_rounds (restarting ∷ bounced ∷ []) ≡ accepted
unfolding submit_rounds round_answer is_quorum_bounce is_transport cut_first
taken_at_last = refl

a_block : solve_range three_threads 1 ≢ none
unfolding solve_range range_budget range_start per_thread solve_matmul solve_variant
    effective_target derive_target active_matmul_solve_variant rc_episode_solve_enabled
    solve_matmul_rc_episode search set_deterministic_matmul_seeds derive_sigma
    compute_matmul_header_hash header_preimage seed_preimage_v2 le_bytes
a_block e = ground arith

abbrev stale : Round
stale = record { first = refuses (codes "stale-prevblk"); second = accepts; expired = true }

abbrev working_disk : Disk
working_disk = record { opens = true; stores = true }

solve_and_submit-IsSettled_example :
    (out : Submitted) × (solve_and_submit three_threads
        (1 ∷ 0 ∷ 2 ∷ [])
        (restarting ∷ stale ∷ [])
        working_disk
        []
      ≡ some out)
    × IsSolved three_threads out.block
    × IsDecided (restarting ∷ stale ∷ []) out.fate
    × IsSettled working_disk three_threads.request.job.height [] out
solve_and_submit-IsSettled_example =
    solve_and_submit-IsSettled three_threads (1 ∷ 0 ∷ 2 ∷ []) (restarting ∷ stale ∷ []) working_disk
      [] (inl a_block) (inr (inl refl))

refused_at_last : submit_rounds (restarting ∷ stale ∷ []) ≡ refused (codes "stale-prevblk")
unfolding submit_rounds round_answer is_quorum_bounce is_transport cut_first
refused_at_last = refl
