-- ===== src/Miner/PoolLoop/Sound.antt =====
-- miner/matador-miner.cpp: what every share that `RunPoolLoop` submits satisfies.
use btx_miner.Common.{
  ℕ, ◌≡◌, ◌⊎◌, inl, inr, List, [], ◌∷◌, Option, none, some, arith, Bool-cases, All,
}
use btx_miner.Solve.Header.{Header}
use btx_miner.Solve.Seeds.{Activation}
use btx_miner.Solve.Dispatch.{Counters}
use btx_miner.Solve.Dispatch.Sound.{IsFound}
use btx_miner.Miner.Notify.{StratumJob}
use btx_miner.Miner.PoolLoop.State.{
  PoolSetup, build_header_from_job, MinedJob, Scan, Pass, Share, is_superseded, has_key, keys_for,
}
use btx_miner.Miner.PoolLoop.ForJob.{IsForJob}
use btx_miner.Miner.PoolLoop.{
  request_for, start_at, on_share, on_no_share, after_share, pool_pass, PoolEvent, connects,
  takes_job, passes, drops_job,
}

-- What one call of the solver may send.
pub sent_by_share {κ} :
    (P : Share → Type κ) (s : PoolSetup) (scan : Scan) (w : MinedJob) (p : Pass) (b : Header)
    (attempted : ℕ)
    → P (record { job = w.job; block = b })
    → All P (on_share s scan w p b attempted).sent
unfolding on_share
sent_by_share P s scan w p b attempted h = elim (Bool-cases (is_superseded w.job p.latest)) [
  | inl e ↦ rw e tt
  | inr e ↦ elim (Bool-cases (has_key (b.nonce64, b.time) (keys_for scan w.job.block_height))) [
    | inl seen ↦ rw (e, seen) tt
    | inr new ↦ elim (Bool-cases p.sends) [
      | inl ok ↦ rw (e, new, ok) (h, tt)
      | inr failed ↦ rw (e, new, failed) tt
    ]
  ]
]

-- A pass leaves the loop over a job, or keeps its work.
pub pool_pass_work :
    (s : PoolSetup) (scan : Scan) (w : MinedJob) (p : Pass)
    → ((pool_pass s scan w p).scan.work ≡ none) ⊎ ((pool_pass s scan w p).scan.work ≡ scan.work)
unfolding pool_pass on_share on_no_share after_share
pool_pass_work s scan w p = ground arith

module _ (s : PoolSetup) (Allowed : Activation → StratumJob → Type 0) where
  abbrev no_counters : Counters
  no_counters = record { solve_windows = 0; rc_episodes = 0 }

  -- The share shows the fields of its job, and solves the puzzle for a header that is built from its
  -- job under an allowed activation, with some nonce to start from, at the height and the time of the job,
  -- for its target, under the activation of some pass.
  pub record IsShare (share : Share) : Type 0 where
    pub work : MinedJob
    pub same_job : work.job ≡ share.job
    pub active : Activation
    pub allowed : Allowed active share.job
    pub built : build_header_from_job s active share.job ≡ some (work.header, work.share_target)
    pub pass : Pass
    pub cursor : ℕ
    pub found : IsFound s.vendored (request_for s work pass) (start_at s work cursor) share.block
    pub for_job : IsForJob s active share

  -- The work is what is built from its job under an allowed activation.
  abbrev pub IsBuilt : Option MinedJob → Type 0
  IsBuilt none = Unit
  IsBuilt (some w) =
      (active : Activation) × Allowed active w.job
      × (build_header_from_job s active w.job ≡ some (w.header, w.share_target))

  -- The activations under which the headers of the jobs are built.
  abbrev pub AreTaken : List PoolEvent → Type 0
  AreTaken [] = Unit
  AreTaken (takes_job active job ∷ events) = Allowed active job × AreTaken events
  AreTaken (connects ∷ events) = AreTaken events
  AreTaken (passes p ∷ events) = AreTaken events
  AreTaken (drops_job ∷ events) = AreTaken events
