-- ===== src/Miner/Latch/Release.antt =====
-- How MaybeLatchRCFromJob gives a height up (miner/matador-miner.cpp).
use btx_miner.Common.{
  ℕ, suc, ◌+◌, ◌≤◌, ◌≡◌, refl, sym, subst, ◌⊎◌, inl, inr, true, false, List, [], ◌∷◌, length, arith,
}
use btx_miner.Common.Int.{ℤ, pos, ◌≤ℤ◌, ◌<ℤ◌}
use btx_miner.Pow.Chain.{int32_max}
use btx_miner.Miner.Version.{Text}
use btx_miner.Miner.Notify.{StratumJob}
use btx_miner.Miner.Latch.{
  Detection, Latch, announces_rc, has_id, push_id, count_job, settle_latch,
  latch_rc_activation_height, unlatch_rc_activation_height, maybe_latch_rc_from_job, observe_jobs,
  rc_stratum_auto_latch_enabled,
}

-- Jobs that announce nothing at heights from `h` on, none of which the ring holds when it comes.
abbrev pub Plain : Detection → ℤ → List Text → List StratumJob → Type 0
Plain d h ids [] = Unit
Plain d h ids (job ∷ jobs) =
    (announces_rc d job ≡ false)
    × ((pos 0 <ℤ job.block_height)
        × ((h ≤ℤ job.block_height)
            × ((has_id job.job_id ids ≡ false) × Plain d h (push_id ids job.job_id) jobs)))

module _ (d : Detection) (on : rc_stratum_auto_latch_enabled d.auto_latch ≡ true) (h : ℤ) where
  -- The height is given up, or so many more such jobs will do it.
  Pending : Latch → ℕ → Type 0
  Pending l n =
      (l.activation.height ≡ int32_max)
      ⊎ ((l.activation.height ≡ h) × ((1 ≤ n) × (3 ≤ l.plain_streak + n)))

  step-Pending :
      (l : Latch) (job : StratumJob) (n : ℕ)
      → l.activation.pinned ≡ false
      → announces_rc d job ≡ false
      → pos 0 <ℤ job.block_height
      → h ≤ℤ job.block_height
      → has_id job.job_id l.recent_ids ≡ false
      → Pending l (suc n)
      → Pending (maybe_latch_rc_from_job d l job) n
  unfolding Pending maybe_latch_rc_from_job count_job settle_latch unlatch_rc_activation_height
      latch_rc_activation_height
  step-Pending l job n unpinned plain positive reaches new p = ground arith

  step_rest :
      (l : Latch) (job : StratumJob)
      → l.activation.pinned ≡ false
      → pos 0 <ℤ job.block_height
      → has_id job.job_id l.recent_ids ≡ false
      → ((maybe_latch_rc_from_job d l job).activation.pinned ≡ false)
        × ((maybe_latch_rc_from_job d l job).recent_ids ≡ push_id l.recent_ids job.job_id)
  unfolding maybe_latch_rc_from_job count_job settle_latch unlatch_rc_activation_height
      latch_rc_activation_height
  step_rest l job unpinned positive new = ground arith

  release :
      (jobs : List StratumJob) (l : Latch)
      → l.activation.pinned ≡ false
      → Plain d h l.recent_ids jobs
      → Pending l (length jobs)
      → (observe_jobs d l jobs).activation.height ≡ int32_max
  unfolding observe_jobs Pending
  release [] l unpinned p (inl e) = e
  release [] l unpinned p (inr q) = ground arith
  release (job ∷ jobs) l unpinned (plain, (positive, (reaches, (new, rest)))) q =
      let next = maybe_latch_rc_from_job d l job in
      let kept = step_rest l job unpinned positive new in
      let p = step-Pending l job (length jobs) unpinned plain positive reaches new q in
      release jobs next kept.0 (subst (λ ids. Plain d h ids jobs) (sym kept.1) rest) p

-- Three or more new jobs that announce nothing, at or above the height that a pool's job brought into
-- force, take it out of force.
pub observe_jobs_released :
    (d : Detection) (l : Latch) (jobs : List StratumJob)
    → rc_stratum_auto_latch_enabled d.auto_latch ≡ true
    → l.activation.pinned ≡ false
    → Plain d l.activation.height l.recent_ids jobs
    → 3 ≤ length jobs
    → (observe_jobs d l jobs).activation.height ≡ int32_max
unfolding Pending
observe_jobs_released d l jobs on unpinned plain enough =
    release d on l.activation.height jobs l unpinned plain (inr (refl, (omega arith, omega arith)))
