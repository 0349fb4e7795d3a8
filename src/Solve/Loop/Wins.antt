-- ===== src/Solve/Loop/Wins.antt =====
-- core/matmul/pow_solve.cpp: what it means that a solve loop returns true, and that it returns false.
use btx_miner.Common.{
  not_below, ℕ, zero, suc, ◌+◌, ◌≤◌, ◌<◌, ◌≡◌, ap, sym, ◌∙◌, Bool, true, false, arith,
}
use btx_miner.Solve.Header.{Header}
use btx_miner.Solve.Loop.{Job, search, nonce_max, solve_matmul_rc_episode}
use btx_miner.Solve.Loop.Search.{
  Trial, IsFirstWin, FirstWin, trial, winner, next, search_finds, search_won, step_miss, shift,
}

-- The episode loop returns true exactly when one of the first `max_tries` nonces wins: the loop is
-- not aborted there, the seeds can be set, the digest is not null and is at most the target, and every
-- nonce before it missed without ending the search. It then returns that nonce: the header is the
-- seeded candidate with its digest, `max_tries` is lower by the misses, and one episode is
-- counted for each nonce that was tried.
pub solve_matmul_rc_episode-FirstWin :
    (job : Job) (episode_digest : ℕ → ℕ) (target : ℕ) (aborted : ℕ → Bool) (tries : ℕ) (h : Header)
    (episodes : ℕ)
    → let out = solve_matmul_rc_episode job episode_digest target aborted tries h episodes in
      (out.won ≡ true → FirstWin job episode_digest suc target aborted tries 0 h)
      × ((k : ℕ)
          → IsFirstWin job episode_digest suc target aborted tries 0 h k
          → out ≡ winner job episode_digest suc target aborted tries h k episodes)
unfolding solve_matmul_rc_episode
solve_matmul_rc_episode-FirstWin job episode_digest target aborted tries h episodes = (
  search_won job episode_digest suc target aborted tries 0 h episodes,
  λ k (b, m, w). search_finds job episode_digest suc target aborted tries 0 k h episodes b m w,
)

-- Nothing ends the search at this nonce but a win or the last nonce.
abbrev pub IsClean : Trial → Type 0
IsClean t = (t.stopped ≡ false) × (t.seeded ≡ true) × (1 ≤ t.digest)

module _ (job : Job) (mine : ℕ → ℕ) (tick : ℕ → ℕ) (target : ℕ) (aborted : ℕ → Bool) where
  missed_here :
      (tries i : ℕ) (h : Header) (e : ℕ)
      → IsClean (trial job mine tick target aborted i h 0)
      → (search job mine tick target aborted (suc tries) i h e).won ≡ false
      → target < (trial job mine tick target aborted i h 0).digest
  unfolding search
  missed_here tries i h e (a, s, d) w = ground arith

  lost_missed :
      (tries i k : ℕ) (h : Header) (e : ℕ)
      → ((j : ℕ) → j < tries → IsClean (trial job mine tick target aborted i h j))
      → (search job mine tick target aborted tries i h e).won ≡ false
      → k < tries
      → h.nonce64 + k ≤ nonce_max
      → target < (trial job mine tick target aborted i h k).digest
  lost_missed zero i k h e c w b n = absurd (not_below k b)
  lost_missed (suc tries) i zero h e c w b n = missed_here tries i h e (c 0 (omega arith)) w
  lost_missed (suc tries) i (suc k) h e c w b n =
      let c0 = c 0 (omega arith) in
      let above = missed_here tries i h e c0 w in
      let on =
        step_miss job mine tick target aborted tries i h e (c0.0, c0.1, above, omega arith) in
      let later =
        lost_missed tries (suc i) k (next job mine tick target aborted h) (tick e)
          (λ j l. (shift job mine tick target aborted IsClean i h j).0 (c (suc j) (omega arith)))
          (ap (λ o. o.won) (sym on) ∙ w) (omega arith) (omega arith) in
      (shift job mine tick target aborted (λ t. target < t.digest) i h k).1 later

-- A loop that returns false has searched all of its window: when it was not aborted, the seeds
-- could be set and no digest was null, every nonce from the first on, for `max_tries` tries or up to the
-- last nonce of 64 bits, has a digest above the target.
pub solve_matmul_rc_episode_exhausts :
    (job : Job) (episode_digest : ℕ → ℕ) (target : ℕ) (aborted : ℕ → Bool) (tries : ℕ) (h : Header)
    (episodes : ℕ)
    → ((j : ℕ) → j < tries → IsClean (trial job episode_digest suc target aborted 0 h j))
    → (solve_matmul_rc_episode job episode_digest target aborted tries h episodes).won ≡ false
    → (k : ℕ) → k < tries
    → h.nonce64 + k ≤ nonce_max
    → target < (trial job episode_digest suc target aborted 0 h k).digest
unfolding solve_matmul_rc_episode
solve_matmul_rc_episode_exhausts job episode_digest target aborted tries h episodes c w k b n =
    lost_missed job episode_digest suc target aborted tries 0 k h episodes c w b n
