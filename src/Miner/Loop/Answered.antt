-- ===== src/Miner/Loop/Answered.antt =====
-- miner/poolcore.h: how many answers a line gets, and that an error leaves the solve as it was.
use btx_miner.Common.{
  ℕ, ◌+◌, ◌≡◌, refl, ap₂, ◌∙◌, true, false, List, [], ◌∷◌, length, Option, none, some, arith,
  if◌then◌else◌, Bool-cases, length-append, inl, inr,
}
use btx_miner.Miner.Version.{Text, is_empty}
use btx_miner.Miner.Fields.{codes, pc_get_string}
use btx_miner.Miner.Loop
use btx_miner.Miner.Loop.{
  Reply, error, set_target_ok, Pool, Turn, Profile, Message, message_of, profile_of, dispatch,
  with_template, on_job, on_set_target, on_message, on_line,
}
use btx_miner.Miner.Loop.Job.{Host, Device, Parsed, Template, read_template}
use btx_miner.Miner.Loop.Answers.{has_error, on_line-Told}
use btx_miner.Miner.Loop.Run.{Event, received, share_found, on_event, run_events}

-- Two for an "init" that finds no device, none for a "result", and one for every other message.
abbrev pub due_message : Message → List Device → ℕ
due_message Message.result found = 0
due_message Message.init [] = 2
due_message Message.init (d ∷ found) = 1
due_message _ found = 1

abbrev pub due_type : Option Text → List Device → ℕ
due_type none found = 1
due_type (some type) found = due_message (message_of type) found

abbrev pub due : Event → ℕ
due (received line found) =
    if is_empty line then 0 else due_type (pc_get_string line (codes "type")) found
due share_found = 0

abbrev pub due_all : List Event → ℕ
due_all [] = 0
due_all (e ∷ es) = due e + due_all es

abbrev IsAnswer : Turn → Type 0
IsAnswer t = length t.replies ≡ 1

module _ (host : Host) (pool : Pool) (line : Text) where
  dispatch-IsAnswer :
      (p : Profile) (jid : ℕ) (profile : Text) (t : Template)
      → IsAnswer (dispatch host p pool line jid profile t)
  unfolding dispatch
  dispatch-IsAnswer Profile.live jid profile t = refl
  dispatch-IsAnswer Profile.rc jid profile t = ground arith
  dispatch-IsAnswer Profile.rc_coupled jid profile t = ground arith
  dispatch-IsAnswer Profile.unwired jid profile t = refl

  with_template-IsAnswer :
      (p : Profile) (jid : ℕ) (profile : Text) (t : Parsed)
      → IsAnswer (with_template host p pool line jid profile t)
  unfolding with_template
  with_template-IsAnswer Profile.unwired jid profile t = refl
  with_template-IsAnswer Profile.live jid profile (Parsed.refused f) = refl
  with_template-IsAnswer Profile.rc jid profile (Parsed.refused f) = refl
  with_template-IsAnswer Profile.rc_coupled jid profile (Parsed.refused f) = refl
  with_template-IsAnswer Profile.live jid profile (Parsed.parsed t) =
      dispatch-IsAnswer Profile.live jid profile t
  with_template-IsAnswer Profile.rc jid profile (Parsed.parsed t) =
      dispatch-IsAnswer Profile.rc jid profile t
  with_template-IsAnswer Profile.rc_coupled jid profile (Parsed.parsed t) =
      dispatch-IsAnswer Profile.rc_coupled jid profile t

on_job-IsAnswer :
    (host : Host) (pool : Pool) (line : Text) (jid : Option ℕ) (profile : Option Text)
    → IsAnswer (on_job host pool line jid profile)
unfolding on_job
on_job-IsAnswer host pool line (some jid) (some profile) =
    with_template-IsAnswer host (record pool { current_job = jid; have_job = true }) line
      (profile_of profile) jid profile (read_template host line)
on_job-IsAnswer host pool line none none = refl
on_job-IsAnswer host pool line none (some profile) = refl
on_job-IsAnswer host pool line (some jid) none = refl

on_set_target-IsAnswer :
    (host : Host) (pool : Pool) (hex : Option Text) → IsAnswer (on_set_target host pool hex)
unfolding on_set_target
on_set_target-IsAnswer host pool none = refl
on_set_target-IsAnswer host pool (some hex) = ground arith

on_message-due :
    (host : Host) (m : Message) (pool : Pool) (line type : Text) (found : List Device)
    → length (on_message host m pool line type found).replies ≡ due_message m found
unfolding on_message
on_message-due host Message.init pool line type [] = refl
on_message-due host Message.init pool line type (d ∷ found) = refl
on_message-due host Message.job pool line type found = on_job-IsAnswer host pool line _ _
on_message-due host Message.set_target pool line type found = on_set_target-IsAnswer host pool _
on_message-due host Message.stats_request pool line type found = refl
on_message-due host Message.preempt pool line type found = refl
on_message-due host Message.shutdown pool line type found = refl
on_message-due host Message.result pool line type found = refl
on_message-due host Message.unknown pool line type found = refl

on_type-due :
    (host : Host) (pool : Pool) (line : Text) (type : Option Text) (found : List Device)
    → length (Loop.on_type host pool line type found).replies ≡ due_type type found
on_type-due host pool line none found = refl
on_type-due host pool line (some type) found =
    on_message-due host (message_of type) pool line type found

on_event-due :
    (host : Host) (pool : Pool) (e : Event) → length (on_event host pool e).replies ≡ due e
unfolding on_event on_line
on_event-due host pool (received [] found) = refl
on_event-due host pool (received (c ∷ line) found) = on_type-due host pool (c ∷ line) _ found
on_event-due host pool share_found = refl

-- No message goes unanswered while the loop runs: of all that came in, each blank line and "result" has
-- no answer, an "init" that found no device has two, and each other line has one.
pub run_events-due :
    (host : Host) (pool : Pool) (es : List Event)
    → (run_events host pool es).done ≡ false
    → length (run_events host pool es).replies ≡ due_all es
unfolding run_events
run_events-due host pool [] d = refl
run_events-due host pool (e ∷ es) d =
    let t = on_event host pool e in
    let rest = run_events host t.pool es in
    elim (Bool-cases t.done) [
      | inl ended ↦ absurd (ground arith)
      | inr on ↦ rw on (
          length-append t.replies rest.replies
          ∙ ap₂ (λ m n. m + n) (on_event-due host pool e)
              (run_events-due host t.pool es (ground arith)))
    ]

-- A line that is answered by an error changes nothing of the solve: a job that runs goes on, against
-- the same target, also when it was a new job that was refused.
pub on_line-refused :
    (host : Host) (pool : Pool) (line : Text) (found : List Device)
    → has_error (on_line host pool line found).replies ≡ true
    → (on_line host pool line found).pool.solve ≡ pool.solve
on_line-refused host pool line found h = (on_line-Told host pool line found).3 h
