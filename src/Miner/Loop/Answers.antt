-- ===== src/Miner/Loop/Answers.antt =====
-- miner/poolcore.h: what the answers of the pool loop tell its reader, and what a refused message leaves alone.
use btx_miner.Common.{
  ℕ, ◌≡◌, refl, ◌⊎◌, inl, inr, Bool, true, false, ◌||◌, List, [], ◌∷◌, Option, none, some, arith,
  if◌then◌else◌, if_both,
}
use btx_miner.Miner.Version.{Text}
use btx_miner.Miner.Loop
use btx_miner.Miner.Fields.{codes, pc_get_string}
use btx_miner.Miner.Loop.{
  Reply, init_ok, error, job_ack, stats, preempt_ok, shutdown_ok, set_target_ok, hello, Pool, Turn,
  Profile, Message, profile_of, message_of, dispatch, with_template, on_job, on_set_target,
  on_message, on_line,
}
use btx_miner.Miner.Loop.Job.{
  Host, Device, Work, SolveState, Fault, Note, Parsed, Template, stop, start, read_template,
  start_btx_live_job, start_rc_episode_job, start_rc_coupled_job,
}

-- The job that is being solved.
abbrev pub solving : Pool → Option ℕ
solving pool = if pool.solve.running then some pool.solve.job_id else none

-- What a reader of the answers knows of it: an acknowledgement that says "dispatching" names it, and
-- a preemption or the end clears it.
abbrev pub heard_note : Option ℕ → ℕ → Note → Option ℕ
heard_note known jid Note.dispatching = some jid
heard_note known jid Note.dispatching_rc = some jid
heard_note known jid Note.dispatching_coupled = some jid
heard_note known jid Note.rc_solve_disabled = known
heard_note known jid Note.coupled_solve_disabled = known
heard_note known jid Note.profile_not_wired = known

abbrev pub heard : Option ℕ → Reply → Option ℕ
heard known (job_ack jid profile note) = heard_note known jid note
heard known (preempt_ok jid) = none
heard known shutdown_ok = none
heard known hello = known
heard known (init_ok devices) = known
heard known (error fault) = known
heard known (stats devices shares running) = known
heard known (set_target_ok hex) = known

abbrev pub heard_all : Option ℕ → List Reply → Option ℕ
heard_all known [] = known
heard_all known (r ∷ rs) = heard_all (heard known r) rs

-- The flag says exactly whether there is a thread.
abbrev pub IsConsistent : SolveState → Type 0
IsConsistent st =
    ((st.running ≡ true) × ((w : Work) × (st.work ≡ some w)))
    ⊎ ((st.running ≡ false) × (st.work ≡ none))

stop_not_running :
    (st : SolveState) → (if (stop st).running then some (stop st).job_id else none) ≡ none
unfolding stop
stop_not_running st = ground arith

pub stop_lem :
    (st : SolveState) → IsConsistent st → ((stop st).running ≡ false) × ((stop st).work ≡ none)
unfolding stop
stop_lem st (inl (r, w)) = (ground arith, ground arith)
stop_lem st (inr (r, w)) = (ground arith, ground arith)

stop-IsConsistent : (st : SolveState) → IsConsistent st → IsConsistent (stop st)
stop-IsConsistent st c = inr (stop_lem st c)

abbrev pub is_error : Reply → Bool
is_error (error fault) = true
is_error hello = false
is_error (init_ok devices) = false
is_error (job_ack jid profile note) = false
is_error (stats devices shares running) = false
is_error (preempt_ok jid) = false
is_error shutdown_ok = false
is_error (set_target_ok hex) = false

abbrev pub has_error : List Reply → Bool
has_error [] = false
has_error (r ∷ rs) = is_error r || has_error rs

-- What a turn keeps: it says what it does to the job, the flag stays right, the loop ends only with
-- the thread stopped, and an error leaves the solve alone.
abbrev pub Told : Pool → Turn → Type 0
Told before t =
    (solving t.pool ≡ heard_all (solving before) t.replies)
    × (IsConsistent before.solve → IsConsistent t.pool.solve)
    × (t.done ≡ true → t.pool.solve ≡ stop before.solve)
    × (has_error t.replies ≡ true → t.pool.solve ≡ before.solve)

module _ (host : Host) where
  dispatch-Told :
      (p : Profile) (pool : Pool) (line : Text) (jid : ℕ) (profile : Text) (t : Template)
      → Told pool (dispatch host p pool line jid profile t)
  unfolding dispatch start_btx_live_job start_rc_episode_job start_rc_coupled_job start
  dispatch-Told Profile.live pool line jid profile t =
      (refl, λ c. inl (refl, (_, refl)), λ (d : false ≡ true). cc, λ (e : false ≡ true). cc)
  dispatch-Told Profile.rc pool line jid profile t =
      if_both (Told pool) _ _ _ (refl, λ c. c, λ (d : false ≡ true). cc, λ e. refl)
        (refl, λ c. inl (refl, (_, refl)), λ (d : false ≡ true). cc, λ (e : false ≡ true). cc)
  dispatch-Told Profile.rc_coupled pool line jid profile t =
      if_both (Told pool) _ _ _ (refl, λ c. c, λ (d : false ≡ true). cc, λ e. refl)
        (refl, λ c. inl (refl, (_, refl)), λ (d : false ≡ true). cc, λ (e : false ≡ true). cc)
  dispatch-Told Profile.unwired pool line jid profile t =
      (refl, λ c. c, λ (d : false ≡ true). cc, λ e. refl)

  with_template-Told :
      (p : Profile) (pool : Pool) (line : Text) (jid : ℕ) (profile : Text) (t : Parsed)
      → Told pool (with_template host p pool line jid profile t)
  unfolding with_template
  with_template-Told Profile.unwired pool line jid profile t =
      (refl, λ c. c, λ (d : false ≡ true). cc, λ e. refl)
  with_template-Told Profile.live pool line jid profile (Parsed.refused f) =
      (refl, λ c. c, λ (d : false ≡ true). cc, λ e. refl)
  with_template-Told Profile.rc pool line jid profile (Parsed.refused f) =
      (refl, λ c. c, λ (d : false ≡ true). cc, λ e. refl)
  with_template-Told Profile.rc_coupled pool line jid profile (Parsed.refused f) =
      (refl, λ c. c, λ (d : false ≡ true). cc, λ e. refl)
  with_template-Told Profile.live pool line jid profile (Parsed.parsed t) =
      dispatch-Told Profile.live pool line jid profile t
  with_template-Told Profile.rc pool line jid profile (Parsed.parsed t) =
      dispatch-Told Profile.rc pool line jid profile t
  with_template-Told Profile.rc_coupled pool line jid profile (Parsed.parsed t) =
      dispatch-Told Profile.rc_coupled pool line jid profile t

  on_job-Told :
      (pool : Pool) (line : Text) (jid : Option ℕ) (profile : Option Text)
      → Told pool (on_job host pool line jid profile)
  unfolding on_job
  on_job-Told pool line (some jid) (some profile) =
      with_template-Told (profile_of profile) (record pool { current_job = jid; have_job = true })
        line jid profile (read_template host line)
  on_job-Told pool line none none = (refl, λ c. c, λ (d : false ≡ true). cc, λ e. refl)
  on_job-Told pool line none (some profile) = (refl, λ c. c, λ (d : false ≡ true). cc, λ e. refl)
  on_job-Told pool line (some jid) none = (refl, λ c. c, λ (d : false ≡ true). cc, λ e. refl)

  on_set_target-Told : (pool : Pool) (hex : Option Text) → Told pool (on_set_target host pool hex)
  unfolding on_set_target
  on_set_target-Told pool none = (refl, λ c. c, λ (d : false ≡ true). cc, λ e. refl)
  on_set_target-Told pool (some hex) =
      elim (host.from_hex hex)
        as (λ o. Told pool (elim o [
          | none ↦ Loop.answer pool (error Fault.bad_new_target)
          | some t ↦
              Loop.answer (record pool { solve = record (pool.solve) { share_target = t } })
                (set_target_ok hex)
        ])) [
          | none ↦ (refl, λ c. c, λ (d : false ≡ true). cc, λ e. refl)
          | some t ↦ (refl, λ c. c, λ (d : false ≡ true). cc, λ (e : false ≡ true). cc)
        ]

  on_message-Told :
      (m : Message) (pool : Pool) (line type : Text) (found : List Device)
      → Told pool (on_message host m pool line type found)
  unfolding on_message
  on_message-Told Message.init pool line type [] =
      (refl, λ c. c, λ (d : false ≡ true). cc, λ e. refl)
  on_message-Told Message.init pool line type (d ∷ found) =
      (refl, λ c. c, λ (d : false ≡ true). cc, λ e. refl)
  on_message-Told Message.job pool line type found = on_job-Told pool line _ _
  on_message-Told Message.stats_request pool line type found =
      (refl, λ c. c, λ (d : false ≡ true). cc, λ e. refl)
  on_message-Told Message.preempt pool line type found = (
    stop_not_running pool.solve,
    stop-IsConsistent pool.solve,
    λ d. refl,
    λ (e : false ≡ true). cc,
  )
  on_message-Told Message.shutdown pool line type found = (
    stop_not_running pool.solve,
    stop-IsConsistent pool.solve,
    λ d. refl,
    λ (e : false ≡ true). cc,
  )
  on_message-Told Message.set_target pool line type found = on_set_target-Told pool _
  on_message-Told Message.result pool line type found =
      (refl, λ c. c, λ (d : false ≡ true). cc, λ e. refl)
  on_message-Told Message.unknown pool line type found =
      (refl, λ c. c, λ (d : false ≡ true). cc, λ e. refl)

  pub on_line-Told :
      (pool : Pool) (line : Text) (found : List Device) → Told pool (on_line host pool line found)
  unfolding on_line
  on_line-Told pool [] found = (refl, λ c. c, λ (d : false ≡ true). cc, λ e. refl)
  on_line-Told pool (c ∷ line) found =
      elim (pc_get_string (c ∷ line) (codes "type"))
        as (λ o. Told pool (Loop.on_type host pool (c ∷ line) o found)) [
          | none ↦ (refl, λ c. c, λ (d : false ≡ true). cc, λ e. refl)
          | some type ↦ on_message-Told (message_of type) pool (c ∷ line) type found
        ]
