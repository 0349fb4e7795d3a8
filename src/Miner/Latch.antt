-- ===== src/Miner/Latch.antt =====
-- Consensus::Params (core/vendor/consensus/params.h), the height from which the episode solver is used,
-- and what moves it: an operator's pin, a job of a pool (miner/matador-miner.cpp) or a template of a
-- node (miner/solo_mining.h).
pub mod Stream
pub mod Release
pub mod Repeats
pub mod Tests
use btx_miner.Common.{
  ℕ, suc, ◌^◌, Bool, true, false, not, ◌&&◌, ◌||◌, List, [], ◌∷◌, ◌++◌, map, Option, none, some,
  length, ltb, leb, ◌==◌, if◌then◌else◌, drop,
}
use btx_miner.Common.Int.{ℤ, pos, pos_part, leb_ℤ, ltb_ℤ, ◌==ℤ◌}
use btx_miner.Pow.Chain.{int32_max}
use btx_miner.Miner.Version.{Text, text_eq}
use btx_miner.Miner.Fields.{codes, strip_prefix}
use btx_miner.Miner.Endpoint.{lower}
use btx_miner.Miner.Notify.{StratumJob}

pub record RcActivationState : Type 0 where
  pub height : ℤ
  pub pinned : Bool

-- The constructor: the value of `atol` on BTX_MATMUL_RC_HEIGHT, if that is set.
unfoldable pub initial_rc_activation : Option ℤ → RcActivationState
initial_rc_activation none = record { height = int32_max; pinned = false }
initial_rc_activation (some v) =
    if ltb_ℤ (pos 0) v && leb_ℤ v int32_max
    then record { height = v; pinned = true }
    else record { height = int32_max; pinned = false }

-- The value that a call returns is beside the state that it leaves.
unfoldable pub pin_rc_activation_height : RcActivationState → ℤ → Bool × RcActivationState
pin_rc_activation_height s h =
    if leb_ℤ h (pos 0)
    then (false, s)
    else if s.pinned
    then (false, s)
    else (true, record { height = h; pinned = true })

unfoldable pub latch_rc_activation_height : RcActivationState → ℤ → Bool × RcActivationState
latch_rc_activation_height s h =
    if leb_ℤ h (pos 0)
    then (false, s)
    else if s.pinned
    then (false, s)
    else if s.height ==ℤ int32_max
    then (true, record s { height = h })
    else (false, s)

unfoldable pub unlatch_rc_activation_height : RcActivationState → Bool × RcActivationState
unlatch_rc_activation_height s =
    if s.pinned
    then (false, s)
    else if s.height ==ℤ int32_max
    then (false, s)
    else (true, record s { height = int32_max })

unfoldable pub is_matmul_rc_active : Bool → RcActivationState → ℤ → Bool
is_matmul_rc_active matmul_pow s height =
    matmul_pow && (leb_ℤ (pos 0) height && (not (s.height ==ℤ int32_max) && leb_ℤ s.height height))

-- Everything but the text "0" leaves the detection on.
unfoldable pub rc_stratum_auto_latch_enabled : Option Text → Bool
rc_stratum_auto_latch_enabled (some (c ∷ [])) = not (c == 48)
rc_stratum_auto_latch_enabled _ = true

abbrev pub rc_latch_jobs : ℕ
rc_latch_jobs = 1

abbrev pub rc_unlatch_jobs : ℕ
rc_unlatch_jobs = 3

-- The value of `atol` on BTX_MATMUL_RC_HEADER_DIM, if that is set.
unfoldable pub rc_consensus_header_matmul_dim : Option ℤ → ℕ
rc_consensus_header_matmul_dim none = 4096
rc_consensus_header_matmul_dim (some v) =
    if ltb_ℤ (pos 0) v && leb_ℤ v (pos 65535) then pos_part v else 4096

-- What the environment decides: BTX_RC_STRATUM_AUTOLATCH, and the dimension above.
pub record Detection : Type 0 where
  pub auto_latch : Option Text
  pub rc_header_dim : ℕ

abbrev pub ring_size : ℕ
ring_size = 8

-- The static variables of the detection, with the state that it drives.
pub record Latch : Type 0 where
  pub recent_ids : List Text
  pub rc_streak : ℕ
  pub plain_streak : ℕ
  pub activation : RcActivationState

-- `rfind(prefix, 0) == 0`.
unfoldable pub starts_with : Text → Text → Bool
starts_with pat s = elim (strip_prefix pat s) [ none ↦ false | some rest ↦ true ]

unfoldable pub announces_rc : Detection → StratumJob → Bool
announces_rc d job =
    let by_profile = starts_with (codes "enc-rc") (map lower job.profile) in
    let by_dim = not (job.matmul_n == 0) && (job.matmul_n == d.rc_header_dim) in
    by_profile || by_dim

-- `std::find` over the ring.
unfoldable pub has_id : Text → List Text → Bool
has_id id [] = false
has_id id (t ∷ ids) = text_eq t id || has_id id ids

unfoldable pub push_id : List Text → Text → List Text
push_id ids id =
    let pushed = ids ++ id ∷ [] in if ltb ring_size (length pushed) then drop 1 pushed else pushed

-- The ring and the two streaks after a job that is not a repetition.
unfoldable pub count_job : Detection → Latch → StratumJob → Latch
count_job d l job = record {
  recent_ids = push_id l.recent_ids job.job_id;
  rc_streak = if announces_rc d job then suc l.rc_streak else 0;
  plain_streak = if announces_rc d job then 0 else suc l.plain_streak;
  activation = l.activation;
}

-- The two decisions.
unfoldable pub settle_latch : Latch → ℤ → Latch
settle_latch l height =
    if l.activation.height ==ℤ int32_max
    then (if ltb l.rc_streak rc_latch_jobs
        then l
        else record l { activation = (latch_rc_activation_height l.activation height).1 })
    else if leb rc_unlatch_jobs l.plain_streak && leb_ℤ l.activation.height height
    then record l { activation = (unlatch_rc_activation_height l.activation).1; plain_streak = 0 }
    else l

unfoldable pub maybe_latch_rc_from_job : Detection → Latch → StratumJob → Latch
maybe_latch_rc_from_job d l job =
    if leb_ℤ job.block_height (pos 0)
    then l
    else if not (rc_stratum_auto_latch_enabled d.auto_latch)
    then l
    else if has_id job.job_id l.recent_ids
    then l
    else settle_latch (count_job d l job) job.block_height

-- The jobs of the sessions, in the order in which the observer is called.
unfoldable pub observe_jobs : Detection → Latch → List StratumJob → Latch
observe_jobs d l [] = l
observe_jobs d l (job ∷ jobs) = observe_jobs d (maybe_latch_rc_from_job d l job) jobs

unfoldable pub maybe_latch_rc_from_template :
    Detection → RcActivationState → ℤ → ℕ → RcActivationState
maybe_latch_rc_from_template d s height matmul_n =
    if leb_ℤ height (pos 0) || (matmul_n == 0)
    then s
    else if not (rc_stratum_auto_latch_enabled d.auto_latch)
    then s
    else if not (matmul_n == d.rc_header_dim)
    then s
    else if not (s.height ==ℤ int32_max)
    then s
    else (latch_rc_activation_height s height).1
