-- ===== src/Miner/Loop.antt =====
-- miner/poolcore.h: `RunPoolcoreLoop`, which reads one message a line, keeps at most one solve thread and
-- answers on its own stream. An answer is a value with the fields that vary; its time stamp and the
-- version it repeats are left out. The devices that `nvidia-smi` would list come with the line.
pub mod Job
pub mod Answers
pub mod Run
pub mod Answered
pub mod Thread
mod Tests
use btx_miner.Common.{
  ℕ, zero, suc, ◌+◌, ◌-◌, ◌*◌, ◌/◌, ◌%◌, ◌^◌, ◌<◌, Bool, true, false, not, ◌&&◌, ◌||◌, List, [],
  ◌∷◌, ◌++◌, Option, none, some, ltb, ◌==◌, if◌then◌else◌,
}
use btx_miner.Miner.Version.{Text, is_empty, text_eq}
use btx_miner.Miner.Fields.{codes, pc_get_string, pc_get_u64}
use btx_miner.Miner.Loop.Job.{
  Host, Device, Work, SolveState, Fault, stop, Note, Parsed, Template, read_template,
  start_btx_live_job, start_rc_episode_job, start_rc_coupled_job, or_zero, device_uuid,
  episode_disabled, coupled_disabled,
}

pub data Reply : Type 0 where
  hello : Reply
  init_ok : List Device → Reply
  error : Fault → Reply
  job_ack : ℕ → Text → Note → Reply
  stats : List Device → ℕ → Bool → Reply
  preempt_ok : ℕ → Reply
  shutdown_ok : Reply
  set_target_ok : Text → Reply

-- The variables of the loop, with the state that it shares with the solve thread.
pub record Pool : Type 0 where
  pub devices : List Device
  pub current_job : ℕ
  pub have_job : Bool
  pub solve : SolveState

-- What a line does: the state, the answers in order, and whether the loop returns.
pub record Turn : Type 0 where
  pub pool : Pool
  pub replies : List Reply
  pub done : Bool

abbrev pub answer : Pool → Reply → Turn
answer pool r = record { pool = pool; replies = r ∷ []; done = false }

-- A job that is handed to a new thread.
abbrev assign : Pool → ℕ → Text → Note → SolveState → Turn
assign pool jid profile note solve =
    answer (record pool { solve = solve }) (job_ack jid profile note)

pub data Profile : Type 0 where
  live : Profile
  rc : Profile
  rc_coupled : Profile
  unwired : Profile

unfoldable pub profile_of : Text → Profile
profile_of p =
    if text_eq p (codes "btx-live")
    then live
    else if text_eq p (codes "enc-rc-v46") || text_eq p (codes "enc-rc-v47")
    then rc
    else if text_eq p (codes "enc-rc-v46-coupled")
    then rc_coupled
    else unwired

pub data Message : Type 0 where
  init : Message
  job : Message
  stats_request : Message
  preempt : Message
  shutdown : Message
  set_target : Message
  result : Message
  unknown : Message

unfoldable pub message_of : Text → Message
message_of t =
    if text_eq t (codes "init")
    then init
    else if text_eq t (codes "job")
    then job
    else if text_eq t (codes "stats")
    then stats_request
    else if text_eq t (codes "preempt")
    then preempt
    else if text_eq t (codes "shutdown")
    then shutdown
    else if text_eq t (codes "set_target")
    then set_target
    else if text_eq t (codes "result")
    then result
    else unknown

module _ (host : Host) where
  -- What each profile does with a template that was read.
  unfoldable pub dispatch : Profile → Pool → Text → ℕ → Text → Template → Turn
  dispatch live pool line jid profile t = assign pool jid profile Note.dispatching (
      start_btx_live_job host pool.solve jid t (or_zero (pc_get_u64 line (codes "matmul_n")))
        (device_uuid pool.devices) profile)
  dispatch rc pool line jid profile t =
      if episode_disabled host.episode_env
      then answer pool (job_ack jid profile Note.rc_solve_disabled)
      else assign pool jid profile Note.dispatching_rc (
          start_rc_episode_job host pool.solve jid t (or_zero (pc_get_u64 line (codes "matmul_n")))
            (device_uuid pool.devices) profile (or_zero (pc_get_u64 line (codes "nonce64_start"))))
  dispatch rc_coupled pool line jid profile t =
      if coupled_disabled host.coupled_env
      then answer pool (job_ack jid profile Note.coupled_solve_disabled)
      else assign pool jid profile Note.dispatching_coupled (
          start_rc_coupled_job host pool.solve jid t (or_zero (pc_get_u64 line (codes "matmul_n")))
            (device_uuid pool.devices) profile)
  dispatch unwired pool line jid profile t =
      answer pool (job_ack jid profile Note.profile_not_wired)

  -- A profile that is not wired is answered before its template is read.
  unfoldable pub with_template : Profile → Pool → Text → ℕ → Text → Parsed → Turn
  with_template unwired pool line jid profile _ =
      answer pool (job_ack jid profile Note.profile_not_wired)
  with_template p pool line jid profile (Parsed.refused f) = answer pool (error f)
  with_template p pool line jid profile (Parsed.parsed t) = dispatch p pool line jid profile t

  unfoldable pub on_job : Pool → Text → Option ℕ → Option Text → Turn
  on_job pool line (some jid) (some profile) =
      with_template (profile_of profile) (record pool { current_job = jid; have_job = true }) line
        jid profile (read_template host line)
  on_job pool line _ _ = answer pool (error Fault.no_job_fields)

  unfoldable pub on_set_target : Pool → Option Text → Turn
  on_set_target pool none = answer pool (error Fault.no_new_target)
  on_set_target pool (some hex) = elim (host.from_hex hex) [
    | none ↦ answer pool (error Fault.bad_new_target)
    | some t ↦
        answer (record pool { solve = record (pool.solve) { share_target = t } })
          (set_target_ok hex)
  ]

  -- The chain on the type of a message.
  unfoldable pub on_message : Message → Pool → Text → Text → List Device → Turn
  on_message init pool line type found = record {
    pool = record pool { devices = found };
    replies = init_ok found ∷ elim found [ [] ↦ error Fault.no_devices ∷ [] | _ ∷ _ ↦ [] ];
    done = false;
  }
  on_message job pool line type found =
      on_job pool line (pc_get_u64 line (codes "job_id")) (pc_get_string line (codes "profile"))
  on_message stats_request pool line type found =
      answer pool (stats pool.devices pool.solve.shares_found pool.solve.running)
  on_message preempt pool line type found =
      let jid = or_zero (pc_get_u64 line (codes "job_id")) in
      let kept = pool.have_job && not (jid == pool.current_job) in
      answer (record pool { have_job = kept; solve = stop pool.solve }) (preempt_ok jid)
  on_message shutdown pool line type found = record {
    pool = record pool { solve = stop pool.solve };
    replies = shutdown_ok ∷ [];
    done = true;
  }
  on_message set_target pool line type found =
      on_set_target pool (pc_get_string line (codes "target_hex"))
  on_message result pool line type found = record { pool = pool; replies = []; done = false }
  on_message unknown pool line type found = answer pool (error (Fault.unknown_type type))

  abbrev pub on_type : Pool → Text → Option Text → List Device → Turn
  on_type pool line none found = answer pool (error Fault.no_type)
  on_type pool line (some type) found = on_message (message_of type) pool line type found

  -- One turn of the loop.
  unfoldable pub on_line : Pool → Text → List Device → Turn
  on_line pool line found =
      if is_empty line
      then record { pool = pool; replies = []; done = false }
      else on_type pool line (pc_get_string line (codes "type")) found
