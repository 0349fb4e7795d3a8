-- ===== src/Miner/Loop/Thread.antt =====
-- miner/poolcore.h: the body of the solve thread, for the three solvers. The reader of the protocol changes
-- the live target at any time: what the thread reads of it, and of the abort flag, comes with each window.
-- The witness of a block is sent with it; its roots are not modelled here.
pub mod Submits
pub mod Rising
mod Tests
use btx_miner.Common.{
  ℕ, zero, suc, ◌+◌, ◌%◌, ◌^◌, Bool, true, false, not, ◌||◌, List, [], ◌∷◌, ◌++◌, Option, none,
  some, ltb, leb, if◌then◌else◌,
}
use btx_miner.Pow.Chain.{Vendored}
use btx_miner.Pow.Work.{derive_target}
use btx_miner.Solve.Header.{Header}
use btx_miner.Solve.Loop.{Outcome, advance_nonce, solve_matmul_rc_episode, solve_matmul_rc_coupled}
use btx_miner.Solve.Dispatch.{Request, Counters, solve_matmul}
use btx_miner.Miner.Loop.Job.{Solver, btx_live, rc_episode, rc_coupled, Work}

pub data Kind : Type 0 where
  share : Kind
  block_winner : Kind

-- A solution that was sent.
pub record Sent : Type 0 where
  pub kind : Kind
  pub block : Header

-- What is read in one window: the live target at its start and when a winner is checked again, and the
-- abort flag at each iteration of the solver.
pub record Reads : Type 0 where
  pub at_start : ℕ
  pub at_check : ℕ
  pub aborted : ℕ → Bool

-- What the thread keeps between windows.
pub record ThreadState : Type 0 where
  pub block : Header
  pub cursor : ℕ
  pub counters : Counters
  pub sent : List Sent

abbrev pub share_of : Header → Sent
share_of b = record { kind = share; block = b }

-- A candidate for a block meets the target of its own header too, when it has one.
abbrev pub kind_by : Option ℕ → Header → Kind
kind_by none b = share
kind_by (some t) b = if leb b.matmul_digest t then block_winner else share

unfoldable pub classify : Vendored → ℕ → Header → Sent
classify v pow_limit b = record { kind = kind_by (derive_target v b.bits pow_limit) b; block = b }

-- What follows a call of the solver: a winner is checked against the target as it stands now, and sent
-- or dropped, and the next window starts after the nonce that the solver left.
unfoldable pub graded : (Header → Sent) → ℕ → Outcome × Counters → ThreadState → ThreadState
graded sent_as live (out, counters) st =
    let b = out.block in
    let onward = record st { block = b; cursor = (b.nonce64 + 1) % 2 ^ 64; counters = counters } in
    if not out.won || ltb live b.matmul_digest
    then onward
    else record onward { sent = st.sent ++ sent_as b ∷ [] }

-- `b.nNonce64 = cursor; b.nNonce = static_cast<uint32_t>(cursor);`.
abbrev pub window_start : ThreadState → Header
window_start st = advance_nonce st.block st.cursor

abbrev counted : ThreadState → Outcome → Outcome × Counters
counted st out = (out, record (st.counters) { rc_episodes = out.rc_episodes })

-- The request of a window: the digests, the environment and the job of the thread, and what it reads.
abbrev pub request_of : Request → Reads → Request
request_of r reads = record r {
  aborted = reads.aborted;
  share_target_override = some reads.at_start;
}

-- One turn of the loop of a thread: the live job asks `SolveMatMul` for 10^12 tries, the other two their
-- own loops for 10^6. The coupled job grades against the target that it was started with.
module _ (v : Vendored) (r : Request) (captured : ℕ) where
  unfoldable pub solve_window : Solver → Reads → ThreadState → Outcome × Counters
  solve_window btx_live reads st =
      solve_matmul v (request_of r reads) (window_start st) 1000000000000 st.counters
  solve_window rc_episode reads st = counted st (
      solve_matmul_rc_episode r.job r.episode_digest reads.at_start reads.aborted 1000000
        (window_start st) st.counters.rc_episodes)
  solve_window rc_coupled reads st = counted st (
      solve_matmul_rc_coupled r.job r.coupled_digest captured reads.aborted 1000000
        (window_start st) st.counters.rc_episodes)

  unfoldable pub sent_by : Solver → Header → Sent
  sent_by btx_live = share_of
  sent_by rc_episode = classify v r.params.pow_limit
  sent_by rc_coupled = classify v r.params.pow_limit

  unfoldable pub window : Solver → Reads → ThreadState → ThreadState
  window s reads st = graded (sent_by s) reads.at_check (solve_window s reads st) st

  -- The loop, over what it reads until it is aborted.
  unfoldable pub run_windows : Solver → List Reads → ThreadState → ThreadState
  run_windows s [] st = st
  run_windows s (reads ∷ more) st = run_windows s more (window s reads st)

-- The thread of a job, as it starts.
abbrev pub thread_of : Work → Counters → ThreadState
thread_of w counters = record {
  block = w.tmpl;
  cursor = w.nonce64_start;
  counters = counters;
  sent = [];
}
