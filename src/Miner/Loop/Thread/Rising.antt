-- ===== src/Miner/Loop/Thread/Rising.antt =====
-- miner/poolcore.h: a thread moves on through the nonces, and sends none twice.
use btx_miner.Common.{
  ℕ, suc, ◌+◌, ◌*◌, ◌^◌, ◌%◌, ◌≤◌, ◌<◌, ◌≡◌, refl, ap, Bool, List, [], ◌∷◌, ◌++◌, length, Option,
  none, some, arith, if_both, subst⁻¹,
}
use btx_miner.Pow.Chain.{Vendored}
use btx_miner.Solve.Header.{Header}
use btx_miner.Solve.Loop.{
  Job, Outcome, search, nonce_max, solve_matmul_rc_episode, solve_matmul_rc_coupled,
}
use btx_miner.Solve.Loop.Accounts.{search-Balance}
use btx_miner.Solve.Dispatch
use btx_miner.Solve.Dispatch.{
  MatMulSolveVariant, Request, Counters, effective_target, active_matmul_solve_variant,
  solve_variant, solve_matmul,
}
use btx_miner.Miner.Loop.Job.{Solver, btx_live, rc_episode, rc_coupled}
use btx_miner.Miner.Loop.Thread.{
  Sent, Reads, ThreadState, graded, window_start, request_of, solve_window, sent_by, window,
  run_windows, classify,
}

-- The solver ends between the nonce it started at and the one after its tries.
abbrev Near : ℕ → ℕ → Outcome → Type 0
Near n tries out = (n ≤ out.block.nonce64) × (out.block.nonce64 ≤ n + tries)

search-Near :
    (job : Job) (mine tick : ℕ → ℕ) (target : ℕ) (aborted : ℕ → Bool) (tries : ℕ) (h : Header)
    (e : ℕ)
    → h.nonce64 ≤ nonce_max
    → Near h.nonce64 tries (search job mine tick target aborted tries 0 h e)
search-Near job mine tick target aborted tries h e n =
    let balance = search-Balance job mine tick target aborted tries 0 h e n in
    ground (arith, balance)

episode-Near :
    (job : Job) (digest : ℕ → ℕ) (t : ℕ) (aborted : ℕ → Bool) (tries : ℕ) (h : Header) (e : ℕ)
    → h.nonce64 ≤ nonce_max
    → Near h.nonce64 tries (solve_matmul_rc_episode job digest t aborted tries h e)
unfolding solve_matmul_rc_episode
episode-Near job digest t aborted tries h e n = search-Near job digest suc t aborted tries h e n

coupled-Near :
    (job : Job) (digest : ℕ → ℕ → ℕ → ℕ) (t : ℕ) (aborted : ℕ → Bool) (tries : ℕ) (h : Header)
    (e : ℕ)
    → h.nonce64 ≤ nonce_max
    → Near h.nonce64 tries (solve_matmul_rc_coupled job digest t aborted tries h e)
unfolding solve_matmul_rc_coupled
coupled-Near job digest t aborted tries h e n = search-Near job _ (λ x. x) t aborted tries h e n

reached :
    (P : Outcome → Type 0) (o : Option ℕ) (y : Outcome) (solve : ℕ → Outcome)
    → P y
    → ((t : ℕ) → P (solve t))
    → P (elim o [ none ↦ y | some t ↦ solve t ])
reached P none y solve p q = p
reached P (some t) y solve p q = q t

module _ (v : Vendored) (r : Request) (h : Header) (tries : ℕ) where
  variant-Near :
      (x : MatMulSolveVariant) (e : ℕ)
      → h.nonce64 ≤ nonce_max
      → Near h.nonce64 tries (solve_variant v r x h tries e)
  unfolding solve_variant
  variant-Near Dispatch.coupled e n =
      let stays : Near h.nonce64 tries (Dispatch.refused v r h tries e) =
        (omega arith, omega arith) in
      if_both (Near h.nonce64 tries) _ _ _
        (reached (Near h.nonce64 tries) (effective_target v r h) _ _ stays
          (λ t. coupled-Near r.job r.coupled_digest t r.aborted tries h e n))
        stays
  variant-Near Dispatch.rc e n =
      let stays : Near h.nonce64 tries (Dispatch.refused v r h tries e) =
        (omega arith, omega arith) in
      if_both (Near h.nonce64 tries) _ _ _
        (reached (Near h.nonce64 tries) (effective_target v r h) _ _ stays
          (λ t. episode-Near r.job r.episode_digest t r.aborted tries h e n))
        stays
  variant-Near Dispatch.base e n = (omega arith, omega arith)

  solve_matmul-Near :
      (counters : Counters)
      → h.nonce64 ≤ nonce_max
      → Near h.nonce64 tries (solve_matmul v r h tries counters).0
  unfolding solve_matmul
  solve_matmul-Near counters n =
      let some_variant =
        variant-Near (active_matmul_solve_variant r.job.active r.job.height) counters.rc_episodes
          n in
      ground arith

-- The nonces rise from one solution to the next, from `low` on, and all are below `high`.
abbrev pub Rises : ℕ → List Sent → ℕ → Type 0
Rises low [] high = low ≤ high
Rises low (s ∷ sent) high = (low ≤ s.block.nonce64) × Rises (suc s.block.nonce64) sent high

Rises-snoc :
    (low : ℕ) (sent : List Sent) (mid : ℕ) (s : Sent)
    → Rises low sent mid
    → mid ≤ s.block.nonce64
    → Rises low (sent ++ s ∷ []) (suc s.block.nonce64)
Rises-snoc low [] mid s h k = (omega arith, omega arith)
Rises-snoc low (x ∷ sent) mid s h k = (h.0, Rises-snoc _ sent mid s h.1 k)

Rises-weaken :
    (low : ℕ) (sent : List Sent) (mid high : ℕ)
    → Rises low sent mid
    → mid ≤ high
    → Rises low sent high
Rises-weaken low [] mid high h k = omega arith
Rises-weaken low (x ∷ sent) mid high h k = (h.0, Rises-weaken _ sent mid high h.1 k)

module _ (v : Vendored) (r : Request) (captured : ℕ) where
  sent_by-block : (s : Solver) (b : Header) → (sent_by v r captured s b).block ≡ b
  unfolding sent_by classify
  sent_by-block btx_live b = refl
  sent_by-block rc_episode b = refl
  sent_by-block rc_coupled b = refl

  solve_window-Near :
      (s : Solver) (reads : Reads) (st : ThreadState)
      → st.cursor ≤ nonce_max
      → Near st.cursor (10 ^ 12) (solve_window v r captured s reads st).0
  unfolding solve_window
  solve_window-Near btx_live reads st n =
      solve_matmul-Near v (request_of r reads) (window_start st) 1000000000000 st.counters n
  solve_window-Near rc_episode reads st n =
      let near =
        episode-Near r.job r.episode_digest reads.at_start reads.aborted 1000000 (window_start st)
          st.counters.rc_episodes n in
      (near.0, omega (arith, near.1))
  solve_window-Near rc_coupled reads st n =
      let near =
        coupled-Near r.job r.coupled_digest captured reads.aborted 1000000 (window_start st)
          st.counters.rc_episodes n in
      (near.0, omega (arith, near.1))

  abbrev Advances : ThreadState → ThreadState → Type 0
  Advances before after =
      (before.cursor < after.cursor)
      × (after.cursor ≤ before.cursor + suc (10 ^ 12))
      × ((low : ℕ) → Rises low before.sent before.cursor → Rises low after.sent after.cursor)

  graded-Advances :
      (s : Solver) (live : ℕ) (out : Outcome × Counters) (st : ThreadState)
      → st.cursor + suc (10 ^ 12) < 2 ^ 64
      → Near st.cursor (10 ^ 12) out.0
      → Advances st (graded (sent_by v r captured s) live out st)
  unfolding graded
  graded-Advances s live (out, counters) st n near =
      let sent = sent_by v r captured s out.block in
      let same = ap (λ (b : Header). b.nonce64) (sent_by-block s out.block) in
      let after : (out.block.nonce64 + 1) % 2 ^ 64 ≡ suc out.block.nonce64 =
        omega (arith, near.1) in
      let on : st.cursor < (out.block.nonce64 + 1) % 2 ^ 64 = omega (arith, after, near.0) in
      let upto : (out.block.nonce64 + 1) % 2 ^ 64 ≤ st.cursor + suc (10 ^ 12) =
        omega (arith, after, near.1) in
      if_both (Advances st) _ _ _
        (on, upto, λ low h. Rises-weaken low st.sent _ _ h (omega (arith, on)))
        (
          on,
          upto,
          λ low h.
              Rises-weaken low (st.sent ++ sent ∷ []) _ _
                (Rises-snoc low st.sent st.cursor sent h (omega (arith, same, near.0)))
                (omega (arith, same, after)),
        )

  windows_advance :
      (s : Solver) (log : List Reads) (st : ThreadState) (low : ℕ)
      → Rises low st.sent st.cursor
      → st.cursor + length log * suc (10 ^ 12) < 2 ^ 64
      → let end = run_windows v r captured s log st in
        Rises low end.sent end.cursor × (st.cursor + length log ≤ end.cursor)
  unfolding run_windows window
  windows_advance s [] st low h n = (h, omega arith)
  windows_advance s (reads ∷ log) st low h n =
      let out = solve_window v r captured s reads st in
      let st' = window v r captured s reads st in
      let near = solve_window-Near s reads st (omega (arith, n)) in
      let (on, upto, rises) = graded-Advances s reads.at_check out st (omega (arith, n)) near in
      let (later, moved) = windows_advance s log st' low (rises low h) (omega (arith, n, upto)) in
      (later, omega (arith, moved, on))

  -- A thread that does not come to the end of the nonces never sends one twice: over any windows, the
  -- nonces of the solutions rise strictly, from the cursor on, and each window moves the cursor.
  pub run_windows-Rises :
      (s : Solver) (log : List Reads) (st : ThreadState)
      → st.sent ≡ []
      → st.cursor + length log * suc (10 ^ 12) < 2 ^ 64
      → let end = run_windows v r captured s log st in
        Rises st.cursor end.sent end.cursor × (st.cursor + length log ≤ end.cursor)
  run_windows-Rises s log st none_yet n =
      windows_advance s log st st.cursor
        (subst⁻¹ (λ sent. Rises st.cursor sent st.cursor) none_yet (omega arith)) n
