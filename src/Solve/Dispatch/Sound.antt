-- ===== src/Solve/Dispatch/Sound.antt =====
-- core/matmul/pow_solve.cpp: what a header that `SolveMatMul` reports satisfies, as a node that
-- receives it computes it anew.
use btx_miner.Common.{
  subst⁻¹, ◌^◌, ℕ, suc, ◌≤◌, ◌≡◌, refl, ap, ◌∙◌, ◌⊎◌, inl, inr, Bool, true, false, Option, none,
  some, arith, if◌then◌else◌,
}
use btx_miner.Common.Int.{to_unsigned}
use btx_miner.Pow.Chain.{Vendored}
use btx_miner.Solve.Header.{
  Header, derive_sigma, compute_matmul_header_hash, rc_bank_template_hash, header_preimage,
}
use btx_miner.Solve.Seeds.{set_deterministic_matmul_seeds, seed_preimage_v2, seed_preimage_v3}
use btx_miner.Solve.Loop.{
  Job, Outcome, search, seed_block, solve_matmul_rc_episode, solve_matmul_rc_coupled,
}
use btx_miner.Solve.Loop.Search.{seeded_is, seed_reset, search_won, search_finds, candidate}
use btx_miner.Solve.Loop.Accounts.{template, search-template, solve_matmul_rc_coupled_template}
use btx_miner.Solve.Dispatch.{
  MatMulSolveVariant, base, rc, coupled, active_matmul_solve_variant, Request, Counters,
  effective_target, solve_variant, solve_matmul,
}

module _ (job : Job) (mine : ℕ → ℕ) (target : ℕ) where
  -- The seeds of the header are those that its other fields call for, and its digest is that of its
  -- own sigma, is not null, and is at most the target.
  abbrev pub IsSolution : Header → Type 0
  IsSolution h =
      (seed_block job h ≡ (true, h))
      × (h.matmul_digest ≡ mine (derive_sigma job.sha256 h))
      × (1 ≤ h.matmul_digest)
      × (h.matmul_digest ≤ target)

  seed_digest :
      (h : Header) (d : ℕ)
      → seed_block job (record h { matmul_digest = d })
        ≡ ((seed_block job h).0, record ((seed_block job h).1) { matmul_digest = d })
  unfolding set_deterministic_matmul_seeds seed_preimage_v2 seed_preimage_v3
  seed_digest h d = ground arith

  seed_twice : (h : Header) → seed_block job (seed_block job h).1 ≡ seed_block job h
  seed_twice h = ap (seed_block job) (seeded_is job h) ∙ seed_reset job h _ _

  winner-IsSolution :
      (tick : ℕ → ℕ) (aborted : ℕ → Bool) (tries i : ℕ) (h : Header) (e : ℕ)
      → let out = search job mine tick target aborted tries i h e in
        out.won ≡ true → IsSolution out.block
  unfolding derive_sigma compute_matmul_header_hash header_preimage
  winner-IsSolution tick aborted tries i h e w =
      let (k, found) = search_won job mine tick target aborted tries i h e w in
      let out = search_finds job mine tick target aborted tries i k h e found.0 found.1 found.2 in
      let seeded = seed_block job (candidate h k) in
      let d = mine (derive_sigma job.sha256 seeded.1) in
      let (_, ok, low, high) = found.2 in
      let same =
        seed_digest seeded.1 d
        ∙ ap (λ (p : Bool × Header). (p.0, record (p.1) { matmul_digest = d }))
            (seed_twice (candidate h k))
        ∙ ap (λ b. (b, record (seeded.1) { matmul_digest = d })) ok in
      subst⁻¹ (λ (o : Outcome). IsSolution o.block) out (same, refl, low, high)

pub episode-IsSolution :
    (job : Job) (digest : ℕ → ℕ) (t : ℕ) (aborted : ℕ → Bool) (tries : ℕ) (h : Header) (e : ℕ)
    → let out = solve_matmul_rc_episode job digest t aborted tries h e in
      out.won ≡ true → IsSolution job digest t out.block
unfolding solve_matmul_rc_episode
episode-IsSolution job digest t aborted tries h e w =
    winner-IsSolution job digest t suc aborted tries 0 h e w

-- The bank is that of the header that is returned.
pub coupled-IsSolution :
    (job : Job) (digest : ℕ → ℕ → ℕ → ℕ) (t : ℕ) (aborted : ℕ → Bool) (tries : ℕ) (h : Header)
    (e : ℕ)
    → let out = solve_matmul_rc_coupled job digest t aborted tries h e in
      let bank = rc_bank_template_hash job.sha256 out.block in
      let word = to_unsigned (2 ^ 32) job.height in
      out.won ≡ true → IsSolution job (digest bank word) t out.block
unfolding solve_matmul_rc_coupled
coupled-IsSolution job digest t aborted tries h e w =
    let word = to_unsigned (2 ^ 32) job.height in
    let out = solve_matmul_rc_coupled job digest t aborted tries h e in
    let mine = digest (rc_bank_template_hash job.sha256 h) word in
    subst⁻¹ (λ bank. IsSolution job (digest bank word) t out.block)
      (solve_matmul_rc_coupled_template job digest t aborted tries h e)
      (winner-IsSolution job mine t (λ n. n) aborted tries 0 h e w)

module _ (v : Vendored) (r : Request) where
  -- A header that was found for the header `h`: it differs from `h` only in the nonce, the seeds and
  -- the digest, and it solves the puzzle of the variant at this height, for the target of `h`.
  abbrev pub IsFound : Header → Header → Type 0
  IsFound h block =
      let variant = active_matmul_solve_variant r.job.active r.job.height in
      let word = to_unsigned (2 ^ 32) r.job.height in
      let bank = rc_bank_template_hash r.job.sha256 block in
      (target : ℕ) × (effective_target v r h ≡ some target)
      × (template block ≡ template h)
      × (((variant ≡ rc) × IsSolution r.job r.episode_digest target block)
          ⊎ ((variant ≡ coupled) × IsSolution r.job (r.coupled_digest bank word) target block))

  episode_sound :
      (h : Header) (tries e t : ℕ)
      → let out = solve_matmul_rc_episode r.job r.episode_digest t r.aborted tries h e in
        active_matmul_solve_variant r.job.active r.job.height ≡ rc
        → effective_target v r h ≡ some t
        → out.won ≡ true
        → IsFound h out.block
  unfolding solve_matmul_rc_episode
  episode_sound h tries e t which target w = (
    t,
    target,
    search-template r.job r.episode_digest suc t r.aborted tries 0 h e,
    inl (which, episode-IsSolution r.job r.episode_digest t r.aborted tries h e w),
  )

  coupled_sound :
      (h : Header) (tries e t : ℕ)
      → let out = solve_matmul_rc_coupled r.job r.coupled_digest t r.aborted tries h e in
        active_matmul_solve_variant r.job.active r.job.height ≡ coupled
        → effective_target v r h ≡ some t
        → out.won ≡ true
        → IsFound h out.block
  unfolding solve_matmul_rc_coupled
  coupled_sound h tries e t which target w =
      let word = to_unsigned (2 ^ 32) r.job.height in
      let mine = r.coupled_digest (rc_bank_template_hash r.job.sha256 h) word in
      (
        t,
        target,
        search-template r.job mine (λ n. n) t r.aborted tries 0 h e,
        inr (which, coupled-IsSolution r.job r.coupled_digest t r.aborted tries h e w),
      )

  gate_open :
      (b : Bool) (x y : Outcome)
      → y.won ≡ false
      → (if b then x else y).won ≡ true
      → (x.won ≡ true) × ((if b then x else y) ≡ x)
  gate_open true x y n w = (w, refl)
  gate_open false x y n w = ground arith

  target_found :
      (o : Option ℕ) (solve : ℕ → Outcome) (y : Outcome)
      → y.won ≡ false
      → let out : Outcome = elim o [ none ↦ y | some t ↦ solve t ] in
        out.won ≡ true → (t : ℕ) × (o ≡ some t) × ((solve t).won ≡ true) × (out ≡ solve t)
  target_found none solve y n w = ground arith
  target_found (some t) solve y n w = (t, refl, w, refl)

  variant_sound :
      (x : MatMulSolveVariant) (h : Header) (tries e : ℕ)
      → active_matmul_solve_variant r.job.active r.job.height ≡ x
      → let out = solve_variant v r x h tries e in out.won ≡ true → IsFound h out.block
  unfolding solve_variant
  variant_sound rc h tries e which w =
      let (won, same) = gate_open _ _ _ refl w in
      let (t, target, won', same') = target_found (effective_target v r h) _ _ refl won in
      subst⁻¹ (λ (o : Outcome). IsFound h o.block) (same ∙ same')
        (episode_sound h tries e t which target won')
  variant_sound coupled h tries e which w =
      let (won, same) = gate_open _ _ _ refl w in
      let (t, target, won', same') = target_found (effective_target v r h) _ _ refl won in
      subst⁻¹ (λ (o : Outcome). IsFound h o.block) (same ∙ same')
        (coupled_sound h tries e t which target won')
  variant_sound base h tries e which w = ground arith

loop_reached :
    (v : Vendored) (r : Request) (h : Header) (tries : ℕ) (counters : Counters)
    → let variant = active_matmul_solve_variant r.job.active r.job.height in
      let out = solve_variant v r variant h tries counters.rc_episodes in
      (solve_matmul v r h tries counters).0.won ≡ true
      → (out.won ≡ true) × ((solve_matmul v r h tries counters).0 ≡ out)
unfolding solve_matmul
loop_reached v r h tries counters w = ground arith

-- When `SolveMatMul` returns true, anybody who recomputes the header agrees that it is a solution: it
-- differs from the header it was given only in the nonce, the seeds and the digest; its seeds are the ones
-- that its own fields call for; and its digest is that of the solver for this height (the
-- coupled one over the bank of this very header), is not null, and is at most the share target, or the
-- target of the block when there is none.
pub solve_matmul-IsFound :
    (v : Vendored) (r : Request) (h : Header) (tries : ℕ) (counters : Counters)
    → (solve_matmul v r h tries counters).0.won ≡ true
    → IsFound v r h (solve_matmul v r h tries counters).0.block
solve_matmul-IsFound v r h tries counters w =
    let (won, same) = loop_reached v r h tries counters w in
    subst⁻¹ (λ (o : Outcome). IsFound v r h o.block) same
      (variant_sound v r _ h tries counters.rc_episodes refl won)
