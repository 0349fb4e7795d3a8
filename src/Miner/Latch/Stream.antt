-- ===== src/Miner/Latch/Stream.antt =====
-- MaybeLatchRCFromJob over a stream of jobs (miner/matador-miner.cpp).
use btx_miner.Common.{
  ℕ, suc, ◌≡◌, refl, sym, subst, ◌∙◌, ◌≢◌, ◌⊎◌, inl, inr, true, false, List, [], ◌∷◌, some,
  get_elem?, arith, Bool-cases, All,
}
use btx_miner.Common.Int.{ℤ, pos, leb_ℤ, ◌<ℤ◌}
use btx_miner.Pow.Chain.{int32_max}
use btx_miner.Miner.Notify.{StratumJob}
use btx_miner.Miner.Latch.{
  Detection, Latch, announces_rc, has_id, count_job, settle_latch, latch_rc_activation_height,
  unlatch_rc_activation_height, maybe_latch_rc_from_job, observe_jobs,
  rc_stratum_auto_latch_enabled, is_matmul_rc_active,
}

-- The branches of one call.
pub latch_cases {κ} :
    (P : Latch → Type κ) (d : Detection) (l : Latch) (job : StratumJob)
    → P l
    → (pos 0 <ℤ job.block_height
        → has_id job.job_id l.recent_ids ≡ false
        → P (settle_latch (count_job d l job) job.block_height))
    → P (maybe_latch_rc_from_job d l job)
unfolding maybe_latch_rc_from_job
latch_cases P d l job kept counted = elim (Bool-cases (leb_ℤ job.block_height (pos 0))) [
  | inl e ↦ rw e kept
  | inr e ↦ elim (Bool-cases (rc_stratum_auto_latch_enabled d.auto_latch)) [
    | inr off ↦ rw (e, off) kept
    | inl on ↦ elim (Bool-cases (has_id job.job_id l.recent_ids)) [
      | inl seen ↦ rw (e, on, seen) kept
      | inr new ↦ rw (e, on, new) (counted (ground arith) new)
    ]
  ]
]

module _ (d : Detection) where
  -- No job that announces the episode rules counts against a latch.
  keeps :
      (l : Latch) (job : StratumJob)
      → announces_rc d job ≡ true
      → l.activation.height ≢ int32_max
      → (maybe_latch_rc_from_job d l job).activation ≡ l.activation
  unfolding count_job settle_latch
  keeps l job a h =
      latch_cases (λ m. m.activation ≡ l.activation) d l job refl λ positive new. ground arith

  -- A height that is in force stays in force through any jobs that all announce the episode rules.
  pub observe_jobs-announcing :
      (jobs : List StratumJob) (l : Latch)
      → All (λ job. announces_rc d job ≡ true) jobs
      → l.activation.height ≢ int32_max
      → (observe_jobs d l jobs).activation ≡ l.activation
  unfolding observe_jobs
  observe_jobs-announcing [] l a h = refl
  observe_jobs-announcing (job ∷ jobs) l a h =
      let one = keeps l job a.0 h in
      observe_jobs-announcing jobs (maybe_latch_rc_from_job d l job) a.1 (rw one h) ∙ one

  -- An operator's pin is left as it is by every job.
  pub observe_jobs-pinned :
      (jobs : List StratumJob) (l : Latch)
      → l.activation.pinned ≡ true
      → (observe_jobs d l jobs).activation ≡ l.activation
  unfolding observe_jobs count_job settle_latch latch_rc_activation_height
      unlatch_rc_activation_height
  observe_jobs-pinned [] l pinned = refl
  observe_jobs-pinned (job ∷ jobs) l pinned =
      let one =
        latch_cases (λ m. m.activation ≡ l.activation) d l job refl λ positive new. ground arith in
      observe_jobs-pinned jobs (maybe_latch_rc_from_job d l job) (rw one pinned) ∙ one

  -- The height that a job of the stream announced.
  pub record IsAnnounced (jobs : List StratumJob) (h : ℤ) : Type 0 where
    pub place : ℕ
    pub job : StratumJob
    pub sent : get_elem? jobs place ≡ some job
    pub announces : announces_rc d job ≡ true
    pub positive : pos 0 <ℤ h
    pub at : job.block_height ≡ h

  -- Where the height after the jobs comes from.
  pub data Origin (l : Latch) (jobs : List StratumJob) (h : ℤ) : Type 0 where
    before : h ≡ l.activation.height → Origin l jobs h
    inert : h ≡ int32_max → Origin l jobs h
    announced : IsAnnounced jobs h → Origin l jobs h

  settle_height :
      (l : Latch) (job : StratumJob)
      → pos 0 <ℤ job.block_height
      → ((settle_latch (count_job d l job) job.block_height).activation.height
          ≡ l.activation.height)
        ⊎ (((settle_latch (count_job d l job) job.block_height).activation.height ≡ int32_max)
            ⊎ ((announces_rc d job ≡ true)
                × (job.block_height
                    ≡ (settle_latch (count_job d l job) job.block_height).activation.height)))
  unfolding count_job settle_latch latch_rc_activation_height unlatch_rc_activation_height
  settle_height l job positive = ground arith

  of_one :
      (l : Latch) (job : StratumJob) (jobs : List StratumJob)
      → Origin l (job ∷ jobs) (maybe_latch_rc_from_job d l job).activation.height
  of_one l job jobs =
      latch_cases (λ m. Origin l (job ∷ jobs) m.activation.height) d l job (before refl)
        λ positive new. elim (settle_height l job positive) [
          | inl e ↦ before e
          | inr (inl e) ↦ inert e
          | inr (inr (a, e)) ↦ announced record {
            place = 0;
            job = job;
            sent = refl;
            announces = a;
            positive = subst (λ h. pos 0 <ℤ h) e positive;
            at = e;
          }
        ]

  -- The height after any jobs is the one before them, or INT32_MAX, or the positive height of a job
  -- among them that announces the episode rules.
  pub observe_jobs-Origin :
      (jobs : List StratumJob) (l : Latch) → Origin l jobs (observe_jobs d l jobs).activation.height
  unfolding observe_jobs
  observe_jobs-Origin [] l = before refl
  observe_jobs-Origin (job ∷ jobs) l =
      let next = maybe_latch_rc_from_job d l job in
      elim (observe_jobs-Origin jobs next) [
        | before e ↦ subst (λ h. Origin l (job ∷ jobs) h) (sym e) (of_one l job jobs)
        | inert e ↦ inert e
        | announced a ↦ announced record {
          place = suc a.place;
          job = a.job;
          sent = a.sent;
          announces = a.announces;
          positive = a.positive;
          at = a.at;
        }
      ]

  -- The first job that announces the episode rules brings them into force from its height on.
  pub maybe_latch_rc_from_job-first :
      (l : Latch) (job : StratumJob)
      → rc_stratum_auto_latch_enabled d.auto_latch ≡ true
      → l.activation.pinned ≡ false
      → l.activation.height ≡ int32_max
      → has_id job.job_id l.recent_ids ≡ false
      → announces_rc d job ≡ true
      → pos 0 <ℤ job.block_height
      → job.block_height <ℤ int32_max
      → (height : ℤ)
      → is_matmul_rc_active true (maybe_latch_rc_from_job d l job).activation height
        ≡ leb_ℤ job.block_height height
  unfolding maybe_latch_rc_from_job count_job settle_latch latch_rc_activation_height
      is_matmul_rc_active
  maybe_latch_rc_from_job-first l job on unpinned unlatched new a positive below height =
      ground arith
