-- ===== src/Solve/Loop/Accounts.antt =====
-- core/matmul/pow_solve.cpp: what the solve loops leave in the header, in `max_tries` and in the counter
-- of episodes.
use btx_miner.Common.{
  ℕ, zero, suc, ◌+◌, ◌-◌, ◌≤◌, ◌≡◌, refl, ap, ◌∙◌, ◌⊎◌, Bool, true, false, arith,
}
use btx_miner.Solve.Header.{Header, compute_matmul_header_hash, rc_bank_template_hash}
use btx_miner.Solve.Loop.{
  Job, Outcome, search, seed_block, advance_nonce, nonce_max, solve_matmul_rc_episode,
  solve_matmul_rc_coupled,
}
use btx_miner.Solve.Loop.Search.{seeded_is, seeded_nonce64}

-- The header less the fields that a search may change.
abbrev pub template : Header → Header
template h = record h { nonce64 = 0; nonce = 0; seed_a = 0; seed_b = 0; matmul_digest = 0 }

seeded_template : (job : Job) (h : Header) → template (seed_block job h).1 ≡ template h
seeded_template job h = ap template (seeded_is job h)

module _ (job : Job) (mine : ℕ → ℕ) (tick : ℕ → ℕ) (target : ℕ) (aborted : ℕ → Bool) where
  abbrev onward : Header → Header
  onward h = let seeded = (seed_block job h).1 in advance_nonce seeded (suc seeded.nonce64)

  pub search-template :
      (tries i : ℕ) (h : Header) (e : ℕ)
      → template (search job mine tick target aborted tries i h e).block ≡ template h
  unfolding search
  search-template zero i h e = refl
  search-template (suc tries) i h e =
      let same = seeded_template job h in
      let later = search-template tries (suc i) (onward h) (tick e) ∙ same in ground arith

  abbrev pub Balance : ℕ → Header → Outcome → Type 0
  Balance tries h out =
      (out.max_tries ≤ tries)
      × (out.block.nonce64 ≤ nonce_max)
      × ((out.block.nonce64 + out.max_tries ≡ h.nonce64 + tries)
          ⊎ ((out.won ≡ false)
              × (out.block.nonce64 ≡ nonce_max)
              × (out.block.nonce64 + suc out.max_tries ≡ h.nonce64 + tries)))

  pub search-Balance :
      (tries i : ℕ) (h : Header) (e : ℕ)
      → h.nonce64 ≤ nonce_max
      → Balance tries h (search job mine tick target aborted tries i h e)
  unfolding search
  search-Balance zero i h e n = ground arith
  search-Balance (suc tries) i h e n =
      let same = seeded_nonce64 job h in
      let later = search-Balance tries (suc i) (onward h) (tick e) in ground arith

  search-episodes :
      (tries i : ℕ) (h : Header) (e : ℕ)
      → ((n : ℕ) → tick n ≡ suc n)
      → let out = search job mine tick target aborted tries i h e in
        (e + (tries - out.max_tries) ≤ out.rc_episodes)
        × (out.rc_episodes ≤ suc (e + (tries - out.max_tries)))
        × (out.won ≡ true → out.rc_episodes ≡ suc (e + (tries - out.max_tries)))
        × (out.max_tries ≤ tries)
  unfolding search
  search-episodes zero i h e c = ground arith
  search-episodes (suc tries) i h e c =
      let later = search-episodes tries (suc i) (onward h) (tick e) c in
      let counted = c e in ground arith

-- The episode loop keeps the account of its work. From a nonce of 64 bits it never leaves them, and a
-- nonce is passed for each try that is used up (one more try goes when the last nonce misses).
-- The counter of episodes grows by the tries that are used up, and by one more for the nonce that
-- won or whose digest was null.
pub solve_matmul_rc_episode_accounts :
    (job : Job) (episode_digest : ℕ → ℕ) (target : ℕ) (aborted : ℕ → Bool) (tries : ℕ) (h : Header)
    (episodes : ℕ)
    → h.nonce64 ≤ nonce_max
    → let out = solve_matmul_rc_episode job episode_digest target aborted tries h episodes in
      let used = tries - out.max_tries in
      Balance job episode_digest suc target aborted tries h out
      × (episodes + used ≤ out.rc_episodes)
      × (out.rc_episodes ≤ suc (episodes + used))
      × (out.won ≡ true → out.rc_episodes ≡ suc (episodes + used))
unfolding solve_matmul_rc_episode
solve_matmul_rc_episode_accounts job episode_digest target aborted tries h episodes n =
    let (low, high, exact, _) =
      search-episodes job episode_digest suc target aborted tries 0 h episodes (λ n. refl) in
    (search-Balance job episode_digest suc target aborted tries 0 h episodes n, low, high, exact)

-- The coupled loop derives its bank once, from the template hash of the header it starts with. However
-- the loop ends, that is the template hash of the header it returns: the bank never goes stale.
pub solve_matmul_rc_coupled_template :
    (job : Job) (coupled_digest : ℕ → ℕ → ℕ → ℕ) (target : ℕ) (aborted : ℕ → Bool) (tries : ℕ)
    (h : Header) (episodes : ℕ)
    → let out = solve_matmul_rc_coupled job coupled_digest target aborted tries h episodes in
      rc_bank_template_hash job.sha256 out.block ≡ rc_bank_template_hash job.sha256 h
unfolding solve_matmul_rc_coupled rc_bank_template_hash
solve_matmul_rc_coupled_template job coupled_digest target aborted tries h episodes =
    ap (λ t. compute_matmul_header_hash job.sha256 t)
      (search-template job _ (λ n. n) target aborted tries 0 h episodes)
