-- ===== src/Miner/Loop/Thread/Submits.antt =====
-- miner/poolcore.h: every solution that a thread sends is one, for the targets as they stood.
use mathlib.Core.List.{Memᴰ}
use btx_miner.Common.{
  All, All-append, ℕ, ◌^◌, ◌≤◌, ◌≡◌, refl, ◌⊎◌, inl, inr, true, List, [], ◌∷◌, Option, none, some,
  arith, ltb, leb, subst⁻¹, Bool-cases,
}
use btx_miner.Common.Int.{to_unsigned}
use btx_miner.Pow.Chain.{Vendored}
use btx_miner.Pow.Work.{derive_target}
use btx_miner.Solve.Header.{Header, rc_bank_template_hash}
use btx_miner.Solve.Loop.{Outcome}
use btx_miner.Solve.Dispatch.{Request, Counters}
use btx_miner.Solve.Dispatch.Sound.{
  IsSolution, IsFound, episode-IsSolution, coupled-IsSolution, solve_matmul-IsFound,
}
use btx_miner.Miner.Loop.Job.{Solver, btx_live, rc_episode, rc_coupled}
use btx_miner.Miner.Loop.Thread.{
  Kind, share, block_winner, Sent, Reads, ThreadState, kind_by, classify, graded, window_start,
  request_of, solve_window, sent_by, window, run_windows,
}

abbrev pub Meets : Option ℕ → Header → Type 0
Meets o b = (t : ℕ) × (o ≡ some t) × (b.matmul_digest ≤ t)

abbrev pub Classes : Option ℕ → Kind → Header → Type 0
Classes o kind b = ((kind ≡ block_winner) × Meets o b) ⊎ ((kind ≡ share) × ¬ Meets o b)

kind_by-Classes : (o : Option ℕ) (b : Header) → Classes o (kind_by o b) b
kind_by-Classes none b = inr (refl, λ h. absurd (ground (arith, h.1)))
kind_by-Classes (some t) b = elim (Bool-cases (leb b.matmul_digest t)) [
  | inl le ↦ inl (rw le, (t, refl, ground arith))
  | inr gt ↦ inr (rw gt, λ h. absurd (ground (arith, h.1, h.2)))
]

module _ (v : Vendored) (r : Request) (captured : ℕ) where
  -- The block solves the puzzle of the thread for the target that graded its window.
  abbrev pub Solves : Solver → Reads → Header → Type 0
  Solves btx_live reads b = (h : Header) × IsFound v (request_of r reads) h b
  Solves rc_episode reads b = IsSolution r.job r.episode_digest reads.at_start b
  Solves rc_coupled reads b =
      IsSolution r.job
        (r.coupled_digest (rc_bank_template_hash r.job.sha256 b)
          (to_unsigned (2 ^ 32) r.job.height))
        captured b

  abbrev pub MeetsBlock : Header → Type 0
  MeetsBlock b = Meets (derive_target v b.bits r.params.pow_limit) b

  -- The live job calls everything a share, the others what meets the target of its header a block.
  abbrev pub IsClassified : Solver → Sent → Type 0
  IsClassified btx_live s = s.kind ≡ share
  IsClassified rc_episode s =
      Classes (derive_target v s.block.bits r.params.pow_limit) s.kind s.block
  IsClassified rc_coupled s =
      Classes (derive_target v s.block.bits r.params.pow_limit) s.kind s.block

  sent_by_lem :
      (s : Solver) (b : Header)
      → let sent = sent_by v r captured s b in (sent.block ≡ b) × IsClassified s sent
  unfolding sent_by classify
  sent_by_lem btx_live b = (refl, refl)
  sent_by_lem rc_episode b = (refl, kind_by-Classes (derive_target v b.bits r.params.pow_limit) b)
  sent_by_lem rc_coupled b = (refl, kind_by-Classes (derive_target v b.bits r.params.pow_limit) b)

  solve_window-Solves :
      (s : Solver) (reads : Reads) (st : ThreadState)
      → (solve_window v r captured s reads st).0.won ≡ true
      → Solves s reads (solve_window v r captured s reads st).0.block
  unfolding solve_window
  solve_window-Solves btx_live reads st w = (
    window_start st,
    solve_matmul-IsFound v (request_of r reads) (window_start st) 1000000000000 st.counters w,
  )
  solve_window-Solves rc_episode reads st w =
      episode-IsSolution r.job r.episode_digest reads.at_start reads.aborted 1000000
        (window_start st) st.counters.rc_episodes w
  solve_window-Solves rc_coupled reads st w =
      coupled-IsSolution r.job r.coupled_digest captured reads.aborted 1000000 (window_start st)
        st.counters.rc_episodes w

  -- A solution of one of the windows, that was graded and checked against what was read in it.
  abbrev pub IsSubmission : Solver → List Reads → Sent → Type 0
  IsSubmission s log sent =
      (reads : Reads) × Memᴰ reads log
      × Solves s reads sent.block
      × (sent.block.matmul_digest ≤ reads.at_check)
      × IsClassified s sent

  graded_sends :
      (s : Solver) (reads : Reads) (log : List Reads) (st : ThreadState) (out : Outcome × Counters)
      → Memᴰ reads log
      → (out.0.won ≡ true → Solves s reads out.0.block)
      → All (IsSubmission s log) st.sent
      → All (IsSubmission s log) (graded (sent_by v r captured s) reads.at_check out st).sent
  unfolding graded
  graded_sends s reads log st (out, counters) m solved old =
      let sent = sent_by v r captured s out.block in
      let (same, class) = sent_by_lem s out.block in
      elim (Bool-cases out.won) [
        | inr lost ↦ rw lost old
        | inl won ↦ elim (Bool-cases (ltb reads.at_check out.block.matmul_digest)) [
          | inl stale ↦ rw (won, stale) old
          | inr good ↦
              rw (won, good)
                (All-append (IsSubmission s log) st.sent (sent ∷ []) old (
                  (
                    reads,
                    m,
                    subst⁻¹ (Solves s reads) same (solved won),
                    subst⁻¹ (λ (b : Header). b.matmul_digest ≤ reads.at_check) same (ground arith),
                    class,
                  ),
                  tt,
                ))
        ]
      ]

  windows_send :
      (s : Solver) (log more : List Reads) (st : ThreadState)
      → ((x : Reads) → Memᴰ x more → Memᴰ x log)
      → All (IsSubmission s log) st.sent
      → All (IsSubmission s log) (run_windows v r captured s more st).sent
  unfolding run_windows window
  windows_send s log [] st sub old = old
  windows_send s log (reads ∷ more) st sub old =
      windows_send s log more (window v r captured s reads st) (λ x m. sub x (Memᴰ.tail m))
        (graded_sends s reads log st (solve_window v r captured s reads st)
          (sub reads (Memᴰ.head refl)) (solve_window-Solves s reads st) old)

  -- However the live target moves while a thread runs, and whenever it is aborted, each solution that it
  -- sends solves the puzzle of its solver for the target that graded its window (the one read at the
  -- start of the window, or the job's own for the coupled one), is at most the live target when
  -- it was checked again, and is called a share by the live job, and by the other two a block exactly
  -- when it also meets the target of its header.
  pub run_windows-IsSubmission :
      (s : Solver) (log : List Reads) (st : ThreadState)
      → st.sent ≡ []
      → All (IsSubmission s log) (run_windows v r captured s log st).sent
  run_windows-IsSubmission s log st none_yet =
      windows_send s log log st (λ x m. m)
        (subst⁻¹ (λ sent. All (IsSubmission s log) sent) none_yet tt)
