-- ===== src/Miner/PoolLoop/Unsent.antt =====
-- miner/matador-miner.cpp: what becomes of a share of `RunPoolLoop` whose send fails.
use btx_miner.Common.{ℕ, ◌≡◌, refl, ap, ◌∙◌, true, false, [], ◌-◌, leb, if◌then◌else◌, arith}
use btx_miner.Solve.Header.{Header}
use btx_miner.Solve.Loop.{Outcome}
use btx_miner.Solve.Dispatch.{Counters, solve_matmul}
use btx_miner.Miner.Cursor.{record_cursor}
use btx_miner.Miner.PoolLoop.State.{
  PoolSetup, MinedJob, Scan, Pass, PoolTurn, is_superseded, has_key, keys_for,
}
use btx_miner.Miner.PoolLoop.{request_for, start_at, on_share, pool_pass}

module _ (s : PoolSetup) (w : MinedJob) where
  abbrev no_counters : Counters
  no_counters = record { solve_windows = 0; rc_episodes = 0 }

  -- What the solver returns in a pass.
  abbrev pub found_by : Scan → Pass → Outcome
  found_by scan p =
      (solve_matmul s.vendored (request_for s w p) (start_at s w scan.nonce_cursor) s.maxtries
        no_counters).0

  repeated_key :
      (scan : Scan) (p : Pass) (b : Header) (attempted : ℕ)
      → is_superseded w.job p.latest ≡ false
      → has_key (b.nonce64, b.time) (keys_for scan w.job.block_height) ≡ true
      → (on_share s scan w p b attempted).sent ≡ []
  unfolding on_share
  repeated_key scan p b attempted current seen = ground arith

  noted_key :
      (scan : Scan) (p : Pass) (b : Header) (attempted : ℕ)
      → is_superseded w.job p.latest ≡ false
      → has_key (b.nonce64, b.time) (keys_for scan w.job.block_height) ≡ false
      → p.sends ≡ false
      → ((on_share s scan w p b attempted).scan.nonce_cursor ≡ scan.nonce_cursor)
        × (has_key
              (b.nonce64, b.time)
              (keys_for (on_share s scan w p b attempted).scan w.job.block_height)
            ≡ true)
  unfolding on_share keys_for has_key
  noted_key scan p b attempted current new fails = ground arith

  pass_found :
      (scan : Scan) (p : Pass)
      → let out = found_by scan p in
        out.won ≡ true
        → pool_pass s scan w p
          ≡ on_share s
              (record scan {
                cursor_ranges = record_cursor scan.cursor_ranges scan.cur_range scan.nonce_cursor;
              })
              w
              p
              out.block
              (if leb out.max_tries s.maxtries then s.maxtries - out.max_tries else 0)
  unfolding pool_pass
  pass_found scan p won = rw won refl

  -- A share whose send fails is noted as sent: the cursor stays, and when the same pass is made again,
  -- with a send that would succeed, it finds the share again and drops it as a duplicate.
  pub pool_pass_unsent :
      (scan : Scan) (p : Pass)
      → let out = found_by scan p in
        let after = (pool_pass s scan w p).scan in
        out.won ≡ true
        → is_superseded w.job p.latest ≡ false
        → has_key (out.block.nonce64, out.block.time) (keys_for scan w.job.block_height) ≡ false
        → p.sends ≡ false
        → (found_by after (record p { sends = true }) ≡ out)
          × ((pool_pass s after w (record p { sends = true })).sent ≡ [])
  unfolding keys_for
  pool_pass_unsent scan p won current new fails =
      let out = found_by scan p in
      let q : Pass = record p { sends = true } in
      let first = pass_found scan p won in
      let noted = noted_key _ p out.block _ current new fails in
      let h = w.job.block_height in
      let after = (pool_pass s scan w p).scan in
      let cursor : after.nonce_cursor ≡ scan.nonce_cursor =
        ap (λ (t : PoolTurn). t.scan.nonce_cursor) first ∙ noted.0 in
      let same : found_by after q ≡ out =
        ap
          (λ n.
            (solve_matmul s.vendored (request_for s w p) (start_at s w n) s.maxtries no_counters).0)
          cursor in
      let seen : has_key (out.block.nonce64, out.block.time) (keys_for after h) ≡ true =
        ap (λ (t : PoolTurn). has_key (out.block.nonce64, out.block.time) (keys_for t.scan h)) first
        ∙ noted.1 in
      let found_again =
        ap (λ (o : Outcome). has_key (o.block.nonce64, o.block.time) (keys_for after h)) same
        ∙ seen in
      (
        same,
        ap (λ (t : PoolTurn). t.sent) (pass_found after q (ap (λ (o : Outcome). o.won) same ∙ won))
            ∙ repeated_key _ q (found_by after q).block _ current found_again,
      )
