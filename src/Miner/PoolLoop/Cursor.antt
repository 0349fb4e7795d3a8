-- ===== src/Miner/PoolLoop/Cursor.antt =====
-- miner/matador-miner.cpp: how far a pass of `RunPoolLoop` moves the nonce cursor.
use btx_miner.Common.{
  ℕ, suc, ◌+◌, ◌^◌, ◌≤◌, ◌<◌, ◌≡◌, inl, inr, Bool, true, false, not, Option, none, some, ◌==◌,
  arith, Bool-cases, All, if_both,
}
use btx_miner.Common.Int.{to_unsigned}
use btx_miner.Pow.Chain.{Vendored}
use btx_miner.Solve.Header.{Header, rc_bank_template_hash}
use btx_miner.Solve.Loop.{
  Job, Outcome, nonce_max, search, solve_matmul_rc_episode, solve_matmul_rc_coupled,
}
use btx_miner.Solve.Loop.Accounts.{search-Balance}
use btx_miner.Solve.Dispatch.{
  MatMulSolveVariant, base, rc, coupled, active_matmul_solve_variant, Request, Counters,
  effective_target, solve_variant, solve_matmul, rc_coupled_solve_enabled, rc_episode_solve_enabled,
}
use btx_miner.Miner.Cursor.{CursorRanges}
use btx_miner.Miner.PoolLoop.State.{
  PoolSetup, MinedJob, Scan, Pass, PoolTurn, quiet, has_lane, is_superseded, has_key, keys_for,
  wrap_lane,
}
use btx_miner.Miner.PoolLoop.{request_for, start_at, on_share, on_no_share, after_share, pool_pass}

-- The tries that are used up are the nonces before the one that won.
pub record IsSpent (h : Header) (tries : ℕ) (out : Outcome) : Type 0 where
  pub left : out.max_tries ≤ tries
  pub nonce : out.won ≡ true → out.block.nonce64 + out.max_tries ≡ h.nonce64 + tries

search-IsSpent :
    (job : Job) (mine tick : ℕ → ℕ) (target : ℕ) (aborted : ℕ → Bool) (tries : ℕ) (h : Header)
    (e : ℕ)
    → h.nonce64 ≤ nonce_max
    → IsSpent h tries (search job mine tick target aborted tries 0 h e)
search-IsSpent job mine tick target aborted tries h e n =
    let b = search-Balance job mine tick target aborted tries 0 h e n in
    record { left = b.0; nonce = λ w. ground arith }

refused-IsSpent :
    (h : Header) (tries e : ℕ)
    → IsSpent h tries (record { won = false; block = h; max_tries = tries; rc_episodes = e })
refused-IsSpent h tries e = record { left = omega arith; nonce = λ w. ground arith }

either_target {κ} :
    (P : Outcome → Type κ) (o : Option ℕ) (y : Outcome) (solve : ℕ → Outcome)
    → P y
    → ((t : ℕ) → P (solve t))
    → P (elim o [ none ↦ y | some t ↦ solve t ])
either_target P none y solve p q = p
either_target P (some t) y solve p q = q t

module _ (v : Vendored) (r : Request) where
  solve_variant-IsSpent :
      (x : MatMulSolveVariant) (h : Header) (tries e : ℕ)
      → h.nonce64 ≤ nonce_max
      → IsSpent h tries (solve_variant v r x h tries e)
  unfolding solve_variant solve_matmul_rc_episode solve_matmul_rc_coupled
  solve_variant-IsSpent base h tries e n = refused-IsSpent h tries e
  solve_variant-IsSpent rc h tries e n =
      if_both (IsSpent h tries) (rc_episode_solve_enabled r.episode_env) _ _
        (either_target (IsSpent h tries) (effective_target v r h) _ _ (refused-IsSpent h tries e)
          λ t. search-IsSpent r.job r.episode_digest suc t r.aborted tries h e n)
        (refused-IsSpent h tries e)
  solve_variant-IsSpent coupled h tries e n =
      let word = to_unsigned (2 ^ 32) r.job.height in
      let mine = r.coupled_digest (rc_bank_template_hash r.job.sha256 h) word in
      if_both (IsSpent h tries) (rc_coupled_solve_enabled r.coupled_env) _ _
        (either_target (IsSpent h tries) (effective_target v r h) _ _ (refused-IsSpent h tries e)
          λ t. search-IsSpent r.job mine (λ k. k) t r.aborted tries h e n)
        (refused-IsSpent h tries e)

  -- Whatever solver is picked, the tries that are used up are the nonces before the one that won.
  pub solve_matmul-IsSpent :
      (h : Header) (tries : ℕ) (counters : Counters)
      → h.nonce64 ≤ nonce_max
      → IsSpent h tries (solve_matmul v r h tries counters).0
  unfolding solve_matmul
  solve_matmul-IsSpent h tries counters n =
      let variant = active_matmul_solve_variant r.job.active r.job.height in
      let ran = solve_variant-IsSpent variant h tries counters.rc_episodes n in
      let idle = refused-IsSpent h tries counters.rc_episodes in
      let P = λ (o : Outcome × Counters). IsSpent h tries o.0 in
      if_both P (not r.params.matmul_pow) _ _ idle (if_both P (tries == 0) _ _ idle ran)

-- The share of a pass lies between the cursor before it and the cursor after it.
pub record Advances (scan : Scan) (tries : ℕ) (t : PoolTurn) : Type 0 where
  pub forward : scan.nonce_cursor ≤ t.scan.nonce_cursor
  pub within : t.scan.nonce_cursor ≤ suc (scan.nonce_cursor + tries)
  pub shares :
      All
        (λ x. (scan.nonce_cursor ≤ x.block.nonce64) × (x.block.nonce64 < t.scan.nonce_cursor))
        t.sent

module _ (s : PoolSetup) (w : MinedJob) (p : Pass) where
  on_share-Advances :
      (scan : Scan) (b : Header) (attempted : ℕ)
      → has_lane w.job ≡ false
      → scan.nonce_cursor + s.maxtries < nonce_max
      → attempted ≤ s.maxtries
      → b.nonce64 ≡ scan.nonce_cursor + attempted
      → Advances scan s.maxtries (on_share s scan w p b attempted)
  unfolding on_share after_share wrap_lane
  on_share-Advances scan b attempted free room used at =
      elim (Bool-cases (is_superseded w.job p.latest)) [
        | inl e ↦ simp e (record { forward = omega arith; within = omega arith; shares = tt })
        | inr e ↦
            elim (Bool-cases (has_key (b.nonce64, b.time) (keys_for scan w.job.block_height))) [
              | inl seen ↦
                  simp (e, seen)
                    (record { forward = omega arith; within = omega arith; shares = tt })
              | inr new ↦ elim (Bool-cases p.sends) [
                | inl ok ↦
                    simp (e, new, ok, free)
                      (record { forward = omega arith; within = omega arith; shares = omega arith })
                | inr failed ↦
                    simp (e, new, failed)
                      (record { forward = omega arith; within = omega arith; shares = tt })
              ]
            ]
      ]

  on_no_share-Advances :
      (scan : Scan) (attempted : ℕ)
      → scan.nonce_cursor + s.maxtries < nonce_max
      → attempted ≤ s.maxtries
      → Advances scan s.maxtries (quiet (on_no_share s scan p attempted))
  unfolding on_no_share
  on_no_share-Advances scan attempted room used = record {
    forward = ground arith;
    within = ground arith;
    shares = tt;
  }

  of_saved :
      (scan : Scan) (ranges : CursorRanges) (tries : ℕ) (t : PoolTurn)
      → Advances (record scan { cursor_ranges = ranges }) tries t
      → Advances scan tries t
  of_saved scan ranges tries t a = record {
    forward = a.forward;
    within = a.within;
    shares = a.shares;
  }

  -- Without a lane and short of the last nonces, a pass moves the cursor forward, by no more than its
  -- tries and one, and the share that it sends lies between the old cursor and the new one. So the
  -- shares of the passes over one range rise.
  pub pool_pass-Advances :
      (scan : Scan)
      → has_lane w.job ≡ false
      → scan.nonce_cursor + s.maxtries < nonce_max
      → Advances scan s.maxtries (pool_pass s scan w p)
  unfolding pool_pass
  pool_pass-Advances scan free room =
      let counters : Counters = record { solve_windows = 0; rc_episodes = 0 } in
      let r = request_for s w p in
      let h = start_at s w scan.nonce_cursor in
      let out = (solve_matmul s.vendored r h s.maxtries counters).0 in
      let spent = solve_matmul-IsSpent s.vendored r h s.maxtries counters (omega arith) in
      elim (Bool-cases out.won) [
        | inl e ↦
            let at = spent.nonce e in
            simp e (
              of_saved scan _ s.maxtries _ (
                on_share-Advances _ out.block _ free room (ground arith)
                  (ground (arith, spent.left))))
        | inr e ↦
            simp e (of_saved scan _ s.maxtries _ (on_no_share-Advances _ _ room (ground arith)))
      ]
