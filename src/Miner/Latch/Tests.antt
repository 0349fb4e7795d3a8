-- ===== src/Miner/Latch/Tests.antt =====
-- The detection of the episode rules, on a few jobs.
use btx_miner.Common.{ℕ, ◌≡◌, refl, true, false, [], ◌∷◌, none, arith}
use btx_miner.Common.Int.{pos}
use btx_miner.Miner.Fields.{codes}
use btx_miner.Pow.Chain.{int32_max}
use btx_miner.Miner.Notify.{StratumJob}
use btx_miner.Miner.Latch.{
  Detection, Latch, announces_rc, starts_with, has_id, push_id, count_job, settle_latch,
  latch_rc_activation_height, maybe_latch_rc_from_job, observe_jobs, rc_stratum_auto_latch_enabled,
}
use btx_miner.Miner.Latch.Stream.{observe_jobs-announcing, observe_jobs-Origin, Origin}
use btx_miner.Miner.Latch.Release.{observe_jobs_released}
use btx_miner.Miner.Latch.Repeats.{observe_jobs_repeated}

abbrev pub usual : Detection
usual = record { auto_latch = none; rc_header_dim = 4096 }

abbrev pub toy_stratum_job : ℕ → ℕ → ℕ → StratumJob
toy_stratum_job id height dim = record {
  job_id = id ∷ [];
  version = 1;
  prevhash_hex = [];
  merkleroot_hex = [];
  ntime = 100;
  nbits = 9;
  target_hex = [];
  clean_jobs = false;
  block_height = pos height;
  parent_mtp = pos 0;
  nonce64_start = 0;
  matmul_n = dim;
  profile = [];
  nonce_bits = 0;
  valid = true;
}

abbrev pub unlatched : Latch
unlatched = record {
  recent_ids = [];
  rc_streak = 0;
  plain_streak = 0;
  activation = record { height = int32_max; pinned = false };
}

abbrev pub latched_at_10 : Latch
latched_at_10 = record {
  recent_ids = (7 ∷ []) ∷ [];
  rc_streak = 1;
  plain_streak = 0;
  activation = record { height = pos 10; pinned = false };
}

-- A label alone is enough.
profile_announces :
    announces_rc usual (record (toy_stratum_job 1 10 512) { profile = codes "ENC-RC-v47" }) ≡ true
unfolding announces_rc starts_with
profile_announces = refl

latched :
    (observe_jobs usual unlatched
      (toy_stratum_job 1 10 512 ∷ toy_stratum_job 2 11 4096 ∷ [])).activation.height
    ≡ pos 11
unfolding observe_jobs maybe_latch_rc_from_job rc_stratum_auto_latch_enabled has_id count_job
    push_id announces_rc starts_with settle_latch latch_rc_activation_height
latched = refl

observe_jobs-announcing_example :
    (observe_jobs usual latched_at_10
      (toy_stratum_job 8 11 4096 ∷ toy_stratum_job 9 12 4096 ∷ [])).activation
    ≡ latched_at_10.activation
unfolding announces_rc starts_with
observe_jobs-announcing_example =
    observe_jobs-announcing usual (toy_stratum_job 8 11 4096 ∷ toy_stratum_job 9 12 4096 ∷ [])
      latched_at_10 (refl, (refl, tt)) (λ e. ground arith)

observe_jobs-Origin_example :
    Origin usual unlatched
      (toy_stratum_job 1 10 512 ∷ toy_stratum_job 2 11 4096 ∷ [])
      (observe_jobs usual unlatched
        (toy_stratum_job 1 10 512 ∷ toy_stratum_job 2 11 4096 ∷ [])).activation.height
observe_jobs-Origin_example =
    observe_jobs-Origin usual (toy_stratum_job 1 10 512 ∷ toy_stratum_job 2 11 4096 ∷ []) unlatched

observe_jobs_released_example :
    (observe_jobs usual latched_at_10 (
      toy_stratum_job 1 10 512
      ∷ toy_stratum_job 2 10 512
      ∷ toy_stratum_job 3 11 512
      ∷ [])).activation.height
    ≡ int32_max
unfolding rc_stratum_auto_latch_enabled has_id announces_rc starts_with push_id
observe_jobs_released_example =
    observe_jobs_released usual latched_at_10
      (toy_stratum_job 1 10 512 ∷ toy_stratum_job 2 10 512 ∷ toy_stratum_job 3 11 512 ∷ []) refl
      refl
      (
        refl,
        (
          omega arith,
          (
            omega arith,
            (
              refl,
              (
                refl,
                (
                  omega arith,
                  (omega arith, (refl, (refl, (omega arith, (omega arith, (refl, tt)))))),
                ),
              ),
            ),
          ),
        ),
      )
      (omega arith)

observe_jobs_repeated_example :
    observe_jobs usual unlatched
      (toy_stratum_job 1 10 512 ∷ toy_stratum_job 2 11 4096 ∷ toy_stratum_job 1 10 512 ∷ [])
    ≡ observe_jobs usual unlatched (toy_stratum_job 1 10 512 ∷ toy_stratum_job 2 11 4096 ∷ [])
unfolding has_id
observe_jobs_repeated_example =
    observe_jobs_repeated usual unlatched (toy_stratum_job 1 10 512)
      (toy_stratum_job 2 11 4096 ∷ []) (omega arith) refl (omega arith)
