-- ===== src/Miner/Loop/Thread/Tests.antt =====
-- miner/poolcore.h: the theorems on the solve thread, applied to a thread that finds a share while the live
-- target moves.
use btx_miner.Common.{All, ◌+◌, ◌^◌, ◌≤◌, ◌≡◌, refl, List, [], ◌∷◌, length, arith}
use btx_miner.Pow.Tests.{example_vendored}
use btx_miner.Pow.Work.{derive_target}
use btx_miner.Solve.Tests.{toy_header, never, toy_request, no_counts}
use btx_miner.Solve.Header.{header_preimage, compute_matmul_header_hash, derive_sigma}
use btx_miner.Solve.Seeds.{seed_preimage_v2, set_deterministic_matmul_seeds}
use btx_miner.Solve.Loop.{search, solve_matmul_rc_episode}
use btx_miner.Common.Bytes.{le_bytes}
use btx_miner.Miner.Loop.Job.{rc_episode}
use btx_miner.Miner.Loop.Thread.{
  Reads, ThreadState, run_windows, window, solve_window, graded, sent_by, classify,
}
use btx_miner.Miner.Loop.Thread.Submits.{IsSubmission, run_windows-IsSubmission}
use btx_miner.Miner.Loop.Thread.Rising.{Rises, run_windows-Rises}

-- The target falls while the second window runs, and its winner is dropped.
abbrev moving_target : List Reads
moving_target =
    record { at_start = 2 ^ 20; at_check = 2 ^ 20; aborted = never }
    ∷ record { at_start = 2 ^ 20; at_check = 5; aborted = never }
    ∷ record { at_start = 2 ^ 20; at_check = 2 ^ 20; aborted = never }
    ∷ []

abbrev toy_thread : ThreadState
toy_thread = record { block = toy_header; cursor = 40; counters = no_counts; sent = [] }

-- Two of the three windows send their winner.
two_sent :
    length (run_windows example_vendored toy_request 0 rc_episode moving_target toy_thread).sent ≡ 2
unfolding run_windows window solve_window graded sent_by classify solve_matmul_rc_episode search
    set_deterministic_matmul_seeds derive_sigma compute_matmul_header_hash header_preimage
    seed_preimage_v2 le_bytes derive_target
two_sent = refl

run_windows-IsSubmission_example :
    All
      (IsSubmission example_vendored toy_request 0 rc_episode moving_target)
      (run_windows example_vendored toy_request 0 rc_episode moving_target toy_thread).sent
run_windows-IsSubmission_example =
    run_windows-IsSubmission example_vendored toy_request 0 rc_episode moving_target toy_thread refl

run_windows-Rises_example :
    let end = run_windows example_vendored toy_request 0 rc_episode moving_target toy_thread in
    Rises 40 end.sent end.cursor × (40 + 3 ≤ end.cursor)
run_windows-Rises_example =
    run_windows-Rises example_vendored toy_request 0 rc_episode moving_target toy_thread refl
      (omega arith)
