-- ===== src/Miner/Solo/Solved.antt =====
-- miner/solo_mining.h: what the block that wins in `SolveAndSubmit` satisfies.
use btx_miner.Common.{
  ℕ, ◌≡◌, subst, ap, ◌∙◌, inl, inr, List, [], ◌∷◌, some, arith, Bool-cases, Option-cases,
}
use btx_miner.Solve.Header.{Header}
use btx_miner.Solve.Dispatch.{Counters, solve_matmul}
use btx_miner.Solve.Dispatch.Sound.{IsFound, solve_matmul-IsFound}
use btx_miner.Miner.Solo.{
  range_budget, SoloSearch, thread_request, thread_block, solve_range, winning_block,
}

-- The block that wins solves the puzzle for the block of the template, at the nonces of some thread.
pub record IsSolved (s : SoloSearch) (b : Header) : Type 0 where
  pub thread : ℕ
  pub found : IsFound s.vendored (thread_request s thread) (thread_block s thread) b

solve_range-IsSolved :
    (s : SoloSearch) (i : ℕ) (b : Header) → solve_range s i ≡ some b → IsSolved s b
unfolding solve_range
solve_range-IsSolved s i b e =
    let budget = range_budget s.max_tries s.nthreads i in
    let counters : Counters = record { solve_windows = 0; rc_episodes = 0 } in
    let out = solve_matmul s.vendored (thread_request s i) (thread_block s i) budget counters in
    elim (Bool-cases out.0.won) [
      | inr lost ↦ ground arith
      | inl won ↦
          let same : out.0.block ≡ b = ground arith in
          record {
            thread = i;
            found =
                subst (λ x. IsFound s.vendored (thread_request s i) (thread_block s i) x) same
                  (solve_matmul-IsFound s.vendored (thread_request s i) (thread_block s i) budget
                    counters won);
          }
    ]

-- Whatever order the threads end in, the block that is submitted is a solution for the block of the
-- template, for the target of the block: recomputed from its own fields, it differs from it only in
-- the nonce, the seeds and the digest.
pub winning_block-IsSolved :
    (s : SoloSearch) (order : List ℕ) (b : Header) → winning_block s order ≡ some b → IsSolved s b
unfolding winning_block
winning_block-IsSolved s [] b e = ground arith
winning_block-IsSolved s (i ∷ order) b e =
    let later = winning_block-IsSolved s order b in
    elim (Option-cases (solve_range s i)) [
      | inl lost ↦ later (ground arith)
      | inr (c, won) ↦
          let same : c ≡ b = ground arith in solve_range-IsSolved s i b (won ∙ ap some same)
    ]
