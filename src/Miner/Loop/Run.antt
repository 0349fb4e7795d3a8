-- ===== src/Miner/Loop/Run.antt =====
-- miner/poolcore.h: the loop over the lines of the input, beside the solve thread, which counts the shares that
-- it finds while it runs.
use btx_miner.Common.{
  ℕ, ◌+◌, ◌%◌, ◌^◌, ◌≡◌, refl, sym, ap, ◌∙◌, inl, inr, true, false, List, [], ◌∷◌, ◌++◌, Option,
  none, arith, if◌then◌else◌, Bool-cases,
}
use btx_miner.Miner.Version.{Text}
use btx_miner.Miner.Loop.{Reply, hello, Pool, Turn, on_line}
use btx_miner.Miner.Loop.Job.{Host, Device, SolveState, stop}
use btx_miner.Miner.Loop.Answers.{solving, heard_all, IsConsistent, Told, on_line-Told, stop_lem}

pub data Event : Type 0 where
  received : Text → List Device → Event
  share_found : Event

abbrev pub no_solve : SolveState
no_solve = record { job_id = 0; running = false; shares_found = 0; share_target = 0; work = none }

abbrev pub initial : List Device → Pool
initial devices = record { devices = devices; current_job = 0; have_job = false; solve = no_solve }

-- `st.shares_found.fetch_add(1)`, by a thread that runs.
abbrev count_share : SolveState → SolveState
count_share st =
    if st.running then record st { shares_found = (st.shares_found + 1) % 2 ^ 64 } else st

unfoldable pub on_event : Host → Pool → Event → Turn
on_event host pool (received line found) = on_line host pool line found
on_event host pool share_found = record {
  pool = record pool { solve = count_share pool.solve };
  replies = [];
  done = false;
}

unfoldable pub run_events : Host → Pool → List Event → Turn
run_events host pool [] = record { pool = pool; replies = []; done = false }
run_events host pool (e ∷ es) =
    let t = on_event host pool e in
    let rest = run_events host t.pool es in
    if t.done then t else record rest { replies = t.replies ++ rest.replies }

-- The loop returns at once on "shutdown"; at the end of the input it stops the thread itself.
unfoldable pub run_poolcore_loop : Host → List Device → List Event → Pool × List Reply
run_poolcore_loop host devices es =
    let t = run_events host (initial devices) es in
    let final = if t.done then t.pool else record (t.pool) { solve = stop t.pool.solve } in
    (final, hello ∷ t.replies)

on_event-Told : (host : Host) (pool : Pool) (e : Event) → Told pool (on_event host pool e)
unfolding on_event
on_event-Told host pool (received line found) = on_line-Told host pool line found
on_event-Told host pool share_found =
    (ground arith, λ c. consistent pool.solve c, λ (d : false ≡ true). cc, λ (e : false ≡ true). cc)
  where
    consistent : (st : SolveState) → IsConsistent st → IsConsistent (count_share st)
    consistent st (inl (r, (w, e))) = inl (ground arith, (w, ground arith))
    consistent st (inr (r, w)) = inr (ground arith, ground arith)

heard_all-append :
    (known : Option ℕ) (xs ys : List Reply)
    → heard_all known (xs ++ ys) ≡ heard_all (heard_all known xs) ys
heard_all-append known [] ys = refl
heard_all-append known (r ∷ xs) ys = heard_all-append _ xs ys

run_events-solving :
    (host : Host) (pool : Pool) (es : List Event)
    → let t = run_events host pool es in solving t.pool ≡ heard_all (solving pool) t.replies
unfolding run_events
run_events-solving host pool [] = refl
run_events-solving host pool (e ∷ es) =
    let t = on_event host pool e in
    let told = (on_event-Told host pool e).0 in
    elim (Bool-cases t.done) [
      | inl d ↦ rw d told
      | inr d ↦ rw d (
          run_events-solving host t.pool es
          ∙ ap (λ k. heard_all k (run_events host t.pool es).replies) told
          ∙ sym (heard_all-append (solving pool) t.replies (run_events host t.pool es).replies))
    ]

-- The answers of the loop tell which job is being solved: whatever lines come in, and whenever the
-- thread finds a share, the job that runs is the one that a reader of the answers has last heard to be
-- dispatched and not stopped since, and none when it has heard of none.
pub run_events-heard :
    (host : Host) (devices : List Device) (es : List Event)
    → let t = run_events host (initial devices) es in
      solving t.pool ≡ heard_all none (hello ∷ t.replies)
run_events-heard host devices es = run_events-solving host (initial devices) es

run_events-IsConsistent :
    (host : Host) (pool : Pool) (es : List Event)
    → IsConsistent pool.solve
    → let t = run_events host pool es in
      IsConsistent t.pool.solve
      × (t.done ≡ true → (t.pool.solve.running ≡ false) × (t.pool.solve.work ≡ none))
unfolding run_events
run_events-IsConsistent host pool [] c = (c, λ (d : false ≡ true). (cc, cc))
run_events-IsConsistent host pool (e ∷ es) c =
    let t = on_event host pool e in
    let (told, flag, ended, _) = on_event-Told host pool e in
    elim (Bool-cases t.done) [
      | inl d ↦ rw d (flag c, λ _. rw (ended d) (stop_lem pool.solve c))
      | inr d ↦ rw d (run_events-IsConsistent host t.pool es (flag c))
    ]

-- However the loop ends, by "shutdown" or at the end of its input, no thread is left that could be
-- joined, and the solve is marked as not running.
pub run_poolcore_loop-stopped :
    (host : Host) (devices : List Device) (es : List Event)
    → let st = (run_poolcore_loop host devices es).0.solve in
      (st.running ≡ false) × (st.work ≡ none)
unfolding run_poolcore_loop
run_poolcore_loop-stopped host devices es =
    let t = run_events host (initial devices) es in
    let (c, ended) = run_events-IsConsistent host (initial devices) es (inr (refl, refl)) in
    elim (Bool-cases t.done) [ inl d ↦ rw d (ended d) | inr d ↦ rw d (stop_lem t.pool.solve c) ]
