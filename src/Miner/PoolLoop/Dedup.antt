-- ===== src/Miner/PoolLoop/Dedup.antt =====
-- miner/matador-miner.cpp: `RunPoolLoop` sends no nonce twice at one time for one block.
use btx_miner.Common.{
  ℕ, ◌≡◌, refl, subst, subst⁻¹, inl, inr, false, List, [], ◌∷◌, ◌++◌, Option, none, some, arith,
  Bool-cases, Option-cases, map,
}
use btx_miner.Common.Int.{ℤ}
use btx_miner.Solve.Header.{Header}
use btx_miner.Solve.Seeds.{Activation}
use btx_miner.Solve.Dispatch.{solve_matmul}
use btx_miner.Miner.Cursor.{CursorRanges}
use btx_miner.Miner.Notify.{StratumJob}
use btx_miner.Miner.PoolLoop.State.{
  PoolSetup, build_header_from_job, MinedJob, Scan, Pass, Share, PoolTurn, quiet, leave,
  is_superseded, has_key, keys_for, select_cursor,
}
use btx_miner.Miner.PoolLoop.{
  request_for, start_at, on_share, on_no_share, after_share, pool_pass, PoolEvent, connects,
  takes_job, passes, drops_job, take_job, pass_over, on_pool_event, run_pool,
}
use btx_miner.Miner.PoolLoop.Sound.{pool_pass_work}
use btx_miner.Miner.PoolLoop.Keys.{
  key_of, AllDifferent, Covers, Fresh, Fresh-Covers, Covers-tail, Fresh-AllDifferent,
}

-- What a turn adds to the keys that were sent at a height.
data Adds (h : ℤ) (scan : Scan) (t : PoolTurn) : Type 0 where
  nothing : t.sent ≡ [] → Covers (keys_for t.scan h) (keys_for scan h) → Adds h scan t
  one :
      (x : Share)
      → t.sent ≡ x ∷ []
      → has_key (key_of x) (keys_for scan h) ≡ false
      → Covers (keys_for t.scan h) (key_of x ∷ keys_for scan h)
      → Adds h scan t

keys_at : (scan : Scan) (h : ℤ) → scan.submitted_block ≡ h → keys_for scan h ≡ scan.submitted_keys
unfolding keys_for
keys_at scan h e = ground arith

same_keys : (keys : List (ℕ × ℕ)) → Covers keys keys
unfolding Covers
same_keys keys k h = h

covered :
    (scan : Scan) (h : ℤ) (known : List (ℕ × ℕ))
    → scan.submitted_block ≡ h
    → Covers scan.submitted_keys known
    → Covers (keys_for scan h) known
covered scan h known e c = subst⁻¹ (λ keys. Covers keys known) (keys_at scan h e) c

-- The table of cursors plays no part in it.
same_before :
    (h : ℤ) (scan : Scan) (ranges : CursorRanges) (t : PoolTurn)
    → Adds h (record scan { cursor_ranges = ranges }) t
    → Adds h scan t
unfolding keys_for
same_before h scan ranges t (nothing e c) = nothing e c
same_before h scan ranges t (one x e new c) = one x e new c

-- A turn that sends nothing and leaves the keys.
moved-Adds :
    (h : ℤ) (scan next : Scan) → keys_for next h ≡ keys_for scan h → Adds h scan (quiet next)
moved-Adds h scan next e =
    nothing refl (subst⁻¹ (λ keys. Covers keys (keys_for scan h)) e (same_keys _))

reconnected :
    (h : ℤ) (scan : Scan) (cursor range : ℕ)
    → keys_for (record scan { nonce_cursor = cursor; cur_range = range; work = none }) h
      ≡ keys_for scan h
unfolding keys_for
reconnected h scan cursor range = refl

module _ (s : PoolSetup) where
  on_share-Adds :
      (scan : Scan) (w : MinedJob) (p : Pass) (b : Header) (attempted : ℕ)
      → Adds w.job.block_height scan (on_share s scan w p b attempted)
  unfolding on_share after_share
  on_share-Adds scan w p b attempted =
      let h = w.job.block_height in
      let keys = keys_for scan h in
      let k : ℕ × ℕ = (b.nonce64, b.time) in
      elim (Bool-cases (is_superseded w.job p.latest)) [
        | inl e ↦ simp e (nothing refl (unfold keys_for in same_keys keys))
        | inr e ↦ elim (Bool-cases (has_key k keys)) [
          | inl seen ↦ simp (e, seen) (nothing refl (covered _ h keys refl (same_keys keys)))
          | inr new ↦ elim (Bool-cases p.sends) [
            | inl ok ↦
                simp (e, new, ok)
                  (one (record { job = w.job; block = b }) refl new
                    (covered _ h (k ∷ keys) refl (same_keys (k ∷ keys))))
            | inr failed ↦
                simp (e, new, failed) (nothing refl (covered _ h keys refl (Covers-tail k keys)))
          ]
        ]
      ]

  on_no_share-keys :
      (scan : Scan) (p : Pass) (attempted : ℕ) (h : ℤ)
      → keys_for (on_no_share s scan p attempted) h ≡ keys_for scan h
  unfolding on_no_share keys_for
  on_no_share-keys scan p attempted h = ground arith

  pool_pass-Adds :
      (scan : Scan) (w : MinedJob) (p : Pass) → Adds w.job.block_height scan (pool_pass s scan w p)
  unfolding pool_pass keys_for
  pool_pass-Adds scan w p =
      let h = w.job.block_height in
      let solved =
        solve_matmul s.vendored (request_for s w p) (start_at s w scan.nonce_cursor) s.maxtries
          record { solve_windows = 0; rc_episodes = 0 } in
      elim (Bool-cases solved.0.won) [
        | inl e ↦ simp e (same_before h scan _ _ (on_share-Adds _ w p solved.0.block _))
        | inr e ↦ simp e (
            nothing refl (
              subst⁻¹ (λ keys. Covers keys (keys_for scan h)) (on_no_share-keys _ p _ h)
                (same_keys (keys_for scan h))))
      ]

  -- The jobs that are taken are for one height.
  abbrev pub AtHeight : ℤ → List PoolEvent → Type 0
  AtHeight h [] = Unit
  AtHeight h (takes_job active job ∷ events) = (job.block_height ≡ h) × AtHeight h events
  AtHeight h (connects ∷ events) = AtHeight h events
  AtHeight h (passes p ∷ events) = AtHeight h events
  AtHeight h (drops_job ∷ events) = AtHeight h events

  abbrev WorkAt : ℤ → Option MinedJob → Type 0
  WorkAt h none = Unit
  WorkAt h (some w) = w.job.block_height ≡ h

  then_rest :
      (h : ℤ) (scan : Scan) (t : PoolTurn) (xs : List Share)
      → Adds h scan t
      → Fresh (keys_for t.scan h) xs
      → Fresh (keys_for scan h) (t.sent ++ xs)
  unfolding Fresh
  then_rest h scan t xs (nothing e c) f =
      subst⁻¹ (λ l. Fresh (keys_for scan h) (l ++ xs)) e (Fresh-Covers xs _ _ c f)
  then_rest h scan t xs (one x e new c) f =
      subst⁻¹ (λ l. Fresh (keys_for scan h) (l ++ xs)) e (new, Fresh-Covers xs _ _ c f)

  take_job-work :
      (h : ℤ) (scan : Scan) (active : Activation) (job : StratumJob)
      → job.block_height ≡ h
      → WorkAt h (take_job s scan active job).work
  unfolding take_job
  take_job-work h scan active job at = elim (Option-cases (build_header_from_job s active job)) [
    | inl e ↦ rw (e, WorkAt) tt
    | inr (built, e) ↦ rw (e, WorkAt) at
  ]

  take_job-keys :
      (h : ℤ) (scan : Scan) (active : Activation) (job : StratumJob)
      → keys_for (take_job s scan active job) h ≡ keys_for scan h
  unfolding take_job select_cursor keys_for
  take_job-keys h scan active job = ground arith

  pass_over-Adds :
      (h : ℤ) (scan : Scan) (o : Option MinedJob) (p : Pass)
      → WorkAt h o
      → WorkAt h scan.work
      → Adds h scan (pass_over s scan o p) × WorkAt h (pass_over s scan o p).scan.work
  unfolding pass_over
  pass_over-Adds h scan none p at kept = (nothing refl (same_keys _), kept)
  pass_over-Adds h scan (some w) p at kept = (
    subst (λ k. Adds k scan (pool_pass s scan w p)) at (pool_pass-Adds scan w p),
    elim (pool_pass_work s scan w p) [
      | inl e ↦ subst⁻¹ (WorkAt h) e tt
      | inr e ↦ subst⁻¹ (WorkAt h) e kept
    ],
  )

  run_pool-Fresh :
      (h : ℤ) (events : List PoolEvent) (scan : Scan)
      → AtHeight h events
      → WorkAt h scan.work
      → Fresh (keys_for scan h) (run_pool s scan events)
  unfolding run_pool on_pool_event Fresh
  run_pool-Fresh h [] scan at work = tt
  run_pool-Fresh h (connects ∷ events) scan at work =
      then_rest h scan _ _ (moved-Adds h scan _ (reconnected h scan _ _))
        (run_pool-Fresh h events _ at tt)
  run_pool-Fresh h (drops_job ∷ events) scan at work =
      then_rest h scan _ _ (moved-Adds h scan (leave scan) (reconnected h scan _ _))
        (run_pool-Fresh h events (leave scan) at tt)
  run_pool-Fresh h (takes_job active job ∷ events) scan at work =
      let next = take_job s scan active job in
      then_rest h scan (quiet next) _ (moved-Adds h scan next (take_job-keys h scan active job))
        (run_pool-Fresh h events next at.1 (take_job-work h scan active job at.0))
  run_pool-Fresh h (passes p ∷ events) scan at work =
      let (adds, next) = pass_over-Adds h scan scan.work p work work in
      then_rest h scan _ _ adds
        (run_pool-Fresh h events (pass_over s scan scan.work p).scan at next)

  -- While the jobs that are taken are for one height, no two shares that are sent have the same nonce
  -- and time, however the connections, the sessions and the passes come: not after a reconnect, not
  -- after a range is searched again.
  pub run_pool-AllDifferent :
      (h : ℤ) (events : List PoolEvent) (scan : Scan)
      → AtHeight h events
      → scan.work ≡ none
      → AllDifferent (map key_of (run_pool s scan events))
  run_pool-AllDifferent h events scan at idle =
      Fresh-AllDifferent _ (keys_for scan h)
        (run_pool-Fresh h events scan at (subst⁻¹ (WorkAt h) idle tt))
