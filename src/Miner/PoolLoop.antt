-- ===== src/Miner/PoolLoop.antt =====
-- miner/matador-miner.cpp: `RunPoolLoop`, from a job to the shares that are submitted. What other
-- threads and the pool decide comes with each event: the next job of the session that is mined, the abort
-- flag, the job that is current when a share is found, whether the send of it fails. The clock, the
-- statistics and the log are left out, and so is the callback that is handed to `SolveMatMul`, which
-- calls it nowhere.
pub mod State
pub mod ForJob
pub mod Sound
pub mod Keys
pub mod Dedup
pub mod Cursor
pub mod Announced
pub mod Unsent
mod Tests
use btx_miner.Common.{
  ℕ, suc, ◌+◌, ◌-◌, ◌*◌, ◌%◌, ◌^◌, max, min, Bool, true, false, not, ◌&&◌, ◌||◌, List, [], ◌∷◌,
  ◌++◌, Option, none, some, ltb, leb, ◌==◌, if◌then◌else◌,
}
use btx_miner.Common.Int.{ℤ, negsuc, ◌==ℤ◌}
use btx_miner.Pow.Chain.{Vendored}
use btx_miner.Solve.Header.{Header}
use btx_miner.Solve.Seeds.{Activation}
use btx_miner.Solve.Loop.{Job}
use btx_miner.Solve.Dispatch.{Request, Counters, solve_matmul}
use btx_miner.Miner.Version.{Text, text_eq}
use btx_miner.Miner.Cursor.{CursorRanges, resume_cursor, record_cursor}
use btx_miner.Miner.Notify.{StratumJob}
use btx_miner.Miner.PoolLoop.State.{
  PoolSetup, header_dim, build_header_from_job, MinedJob, Scan, has_lane, select_cursor, Pass,
  Share, PoolTurn, quiet, leave, past, is_superseded, has_key, keys_for, wrap_lane,
}

-- The events of the loop: a connection, a job that is taken from a session, with the
-- activation as it is read when its header is built, a pass over it, and the end of the loop over a job.
pub data PoolEvent : Type 0 where
  connects : PoolEvent
  takes_job : Activation → StratumJob → PoolEvent
  passes : Pass → PoolEvent
  drops_job : PoolEvent

module _ (s : PoolSetup) where
  -- The request of one call of the solver.
  abbrev pub request_for : MinedJob → Pass → Request
  request_for w p = record (s.request) {
    job = record (s.request.job) {
      active = p.active;
      height = w.job.block_height;
      parent_mtp = some w.job.parent_mtp;
    };
    aborted = p.aborted;
    share_target_override = some w.share_target;
  }

  abbrev pub start_at : MinedJob → ℕ → Header
  start_at w cursor = record (w.header) { nonce64 = cursor; nonce = cursor % 2 ^ 32 }

  -- After a share that was sent.
  unfoldable pub after_share : Scan → MinedJob → ℕ → ℕ → Scan
  after_share scan w nonce attempted =
      let furthest =
        max (max (past nonce) scan.nonce_cursor) ((scan.nonce_cursor + attempted) % 2 ^ 64) in
      let cursor = wrap_lane w.job furthest in
      record scan {
        nonce_cursor = cursor;
        cursor_ranges = record_cursor scan.cursor_ranges scan.cur_range cursor;
      }

  -- What follows a call of the solver that found the header `b`.
  unfoldable pub on_share : Scan → MinedJob → Pass → Header → ℕ → PoolTurn
  on_share scan w p b attempted =
      let key : ℕ × ℕ = (b.nonce64, b.time) in
      let keys = keys_for scan w.job.block_height in
      let noted : Scan = record scan {
        submitted_keys = key ∷ keys;
        submitted_block = w.job.block_height;
      } in
      let share : Share = record { job = w.job; block = b } in
      if is_superseded w.job p.latest
      then quiet (record scan { nonce_cursor = past b.nonce64 })
      else if has_key key keys
      then quiet (record scan {
        nonce_cursor = past b.nonce64;
        submitted_keys = keys;
        submitted_block = w.job.block_height;
      })
      else if not p.sends
      then quiet (leave noted)
      else record { scan = after_share noted w b.nonce64 attempted; sent = share ∷ [] }

  -- What follows a call that found none.
  unfoldable pub on_no_share : Scan → Pass → ℕ → Scan
  on_no_share scan p attempted =
      let moved = record scan {
        nonce_cursor = max scan.nonce_cursor ((scan.nonce_cursor + attempted) % 2 ^ 64);
      } in
      if p.aborted_after || (attempted == 0) then leave moved else moved

  -- One pass of the loop over a job.
  unfoldable pub pool_pass : Scan → MinedJob → Pass → PoolTurn
  pool_pass scan w p =
      let saved = record scan {
        cursor_ranges = record_cursor scan.cursor_ranges scan.cur_range scan.nonce_cursor;
      } in
      let out =
        (solve_matmul s.vendored (request_for w p) (start_at w scan.nonce_cursor) s.maxtries
          record { solve_windows = 0; rc_episodes = 0 }).0 in
      let attempted = if leb out.max_tries s.maxtries then s.maxtries - out.max_tries else 0 in
      if out.won
      then on_share saved w p out.block attempted
      else quiet (on_no_share saved p attempted)

  unfoldable pub take_job : Scan → Activation → StratumJob → Scan
  take_job scan active job = elim (build_header_from_job s active job) [
    | none ↦ leave scan
    | some built ↦ record (select_cursor scan job) {
      work = some record { job = job; header = built.0; share_target = built.1 };
    }
  ]

  unfoldable pub pass_over : Scan → Option MinedJob → Pass → PoolTurn
  pass_over scan none p = quiet scan
  pass_over scan (some w) p = pool_pass scan w p

  unfoldable pub on_pool_event : Scan → PoolEvent → PoolTurn
  on_pool_event scan connects =
      quiet (record scan { nonce_cursor = 0; cur_range = 2 ^ 64 - 1; work = none })
  on_pool_event scan (takes_job active job) = quiet (take_job scan active job)
  on_pool_event scan (passes p) = pass_over scan scan.work p
  on_pool_event scan drops_job = quiet (leave scan)

  -- The shares that are sent, in their order.
  unfoldable pub run_pool : Scan → List PoolEvent → List Share
  run_pool scan [] = []
  run_pool scan (e ∷ events) =
      let turn = on_pool_event scan e in turn.sent ++ run_pool turn.scan events

-- Before the first connection, with the ranges that were loaded.
abbrev pub initial_scan : CursorRanges → Scan
initial_scan ranges = record {
  nonce_cursor = 0;
  cur_range = 2 ^ 64 - 1;
  cursor_ranges = ranges;
  submitted_keys = [];
  submitted_block = negsuc 0;
  work = none;
}

-- The endpoint that is tried next, and the pause before it, in seconds.
unfoldable pub next_pool : ℕ → ℕ → ℕ
next_pool pools index = suc index % pools

unfoldable pub next_backoff : ℕ → ℕ
next_backoff backoff = min (backoff * 2) 30

-- The fate of each connection, in order: whether the handshake succeeded. Each ends in a pause, and the
-- next endpoint.
unfoldable pub attempts : ℕ → ℕ × ℕ → List Bool → List (ℕ × ℕ)
attempts pools (index, backoff) [] = []
attempts pools (index, backoff) (connected ∷ rest) =
    let pause = if connected then 1 else backoff in
    (index, pause) ∷ attempts pools (next_pool pools index, next_backoff pause) rest
