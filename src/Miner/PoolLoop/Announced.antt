-- ===== src/Miner/PoolLoop/Announced.antt =====
-- miner/matador-miner.cpp: how a job that announces the episode rules is mined, and which endpoint is
-- tried next.
use native.Mathlib.Nat.{mod-lt, mod-eq_of_lt, mod-add-mod}
use btx_miner.Common.{
  ℕ, zero, suc, ◌+◌, ◌*◌, ◌%◌, ◌≤◌, ◌<◌, min, ◌≡◌, ◌≢◌, sym, ap, ◌∙◌, Bool, true, false, List, [],
  ◌∷◌, some, length, get_elem?, if◌then◌else◌, arith,
}
use btx_miner.Common.Int.{pos, ◌<ℤ◌}
use btx_miner.Solve.Seeds.{Activation}
use btx_miner.Solve.Dispatch.{base, active_matmul_solve_variant}
use btx_miner.Pow.Chain.{int32_max}
use btx_miner.Miner.Notify.{StratumJob}
use btx_miner.Miner.Latch.{
  Detection, Latch, announces_rc, has_id, maybe_latch_rc_from_job, rc_stratum_auto_latch_enabled,
  is_matmul_rc_active,
}
use btx_miner.Miner.Latch.Stream.{maybe_latch_rc_from_job-first}
use btx_miner.Miner.PoolLoop.State.{PoolSetup, header_dim}
use btx_miner.Miner.PoolLoop.{next_pool, next_backoff, attempts}

-- Unless the operator pins a height or turns the detection off: while no height is in force, a new job that
-- announces the episode rules, at a positive height below INT32_MAX, puts them in force at its height.
-- Under an activation that follows the height in force after that job, the header of the job gets the
-- dimension of the rules, whatever dimension the job carries, and the solver runs a variant of them.
pub header_dim-first :
    (s : PoolSetup) (active : Activation) (d : Detection) (l : Latch) (job : StratumJob)
    → rc_stratum_auto_latch_enabled d.auto_latch ≡ true
    → l.activation.pinned ≡ false
    → l.activation.height ≡ int32_max
    → has_id job.job_id l.recent_ids ≡ false
    → announces_rc d job ≡ true
    → pos 0 <ℤ job.block_height
    → job.block_height <ℤ int32_max
    → active.rc_active job.block_height
      ≡ is_matmul_rc_active true (maybe_latch_rc_from_job d l job).activation job.block_height
    → (header_dim s active job ≡ s.rc_header_dim)
      × (active_matmul_solve_variant active job.block_height ≢ base)
unfolding header_dim active_matmul_solve_variant
header_dim-first s active d l job on unpinned unlatched new a positive below same =
    let in_force =
      maybe_latch_rc_from_job-first d l job on unpinned unlatched new a positive below
        job.block_height in
    ground arith

-- The endpoints are tried in turn, round and round, whether a connection succeeds or not, with a pause
-- of at most 30 seconds after each.
pub attempts_rotate :
    (connected : List Bool) (pools index backoff k : ℕ)
    → index < pools
    → 1 ≤ backoff
    → backoff ≤ 30
    → k < length connected
    → (pause : ℕ) × (get_elem? (attempts pools (index, backoff) connected) k
        ≡ some ((index + k) % pools, pause))
      × (1 ≤ pause)
      × (pause ≤ 30)
unfolding attempts next_pool next_backoff
attempts_rotate [] pools index backoff k i low high more = absurd (omega arith)
attempts_rotate (c ∷ rest) pools index backoff zero i low high more = (
  if c then 1 else backoff,
  ap (λ n. some (n, if c then 1 else backoff))
      (sym (mod-eq_of_lt (omega arith)) ∙ ap (λ n. n % pools) (omega arith)),
  ground arith,
  ground arith,
)
attempts_rotate (c ∷ rest) pools index backoff (suc k) i low high more =
    let pause = if c then 1 else backoff in
    let later =
      attempts_rotate rest pools (suc index % pools) (min (pause * 2) 30) k
        (mod-lt (suc index) (omega arith)) (ground arith) (omega arith) (omega arith) in
    let place : (suc index % pools + k) % pools ≡ (index + suc k) % pools =
      mod-add-mod (suc index) pools k ∙ ap (λ n. n % pools) (omega arith) in
    (later.0, later.1 ∙ ap (λ n. some (n, later.0)) place, later.2, later.3)
