-- ===== src/Solve/Loop.antt =====
-- core/matmul/pow_solve.cpp: the search for a nonce. The two solve loops run the same statements on
-- two digests, and only the episode loop counts its episodes. The abort flag is read once an iteration: it
-- is a function of the iteration. The log lines and the choice of the CPU or the GPU for one
-- digest are left out.
pub mod Search
pub mod Wins
pub mod Accounts
use btx_miner.Common.{
  ℕ, zero, suc, ◌+◌, ◌-◌, ◌%◌, ◌^◌, Bool, true, false, not, List, Option, ◌==◌, leb, if◌then◌else◌,
}
use btx_miner.Common.Int.{ℤ, to_unsigned}
use btx_miner.Solve.Header.{Header, derive_sigma, rc_bank_template_hash}
use btx_miner.Solve.Seeds.{Activation, set_deterministic_matmul_seeds}

-- What a search leaves: the value it returns, the header, the tries that are left, and the counter
-- of episodes.
pub record Outcome : Type 0 where
  pub won : Bool
  pub block : Header
  pub max_tries : ℕ
  pub rc_episodes : ℕ

abbrev pub nonce_max : ℕ
nonce_max = 2 ^ 64 - 1

abbrev pub advance_nonce : Header → ℕ → Header
advance_nonce h nonce64 = record h { nonce64 = nonce64; nonce = nonce64 % 2 ^ 32 }

-- One job: the hash, the activation heights, the height, and what `block_height` needs of the parent.
pub record Job : Type 0 where
  pub sha256 : List ℕ → ℕ
  pub active : Activation
  pub height : ℤ
  pub parent_mtp : Option ℤ

abbrev pub seed_block : Job → Header → Bool × Header
seed_block job h = set_deterministic_matmul_seeds job.sha256 job.active h job.height job.parent_mtp

module _ (job : Job) (mine : ℕ → ℕ) (tick : ℕ → ℕ) (target : ℕ) (aborted : ℕ → Bool) where
  -- `tries` is `max_tries`, and `i` the number of the iteration.
  unfoldable pub search : ℕ → ℕ → Header → ℕ → Outcome
  search zero i h episodes = record {
    won = false;
    block = h;
    max_tries = 0;
    rc_episodes = episodes;
  }
  search (suc tries) i h episodes =
      let seeded = (seed_block job h).1 in
      let mined = mine (derive_sigma job.sha256 seeded) in
      let counted = tick episodes in
      let rest = search tries (suc i) (advance_nonce seeded (suc seeded.nonce64)) counted in
      let lost : Outcome = record {
        won = false;
        block = seeded;
        max_tries = suc tries;
        rc_episodes = counted;
      } in
      if aborted i
      then record lost { block = h; rc_episodes = episodes }
      else if not (seed_block job h).0
      then record lost { rc_episodes = episodes }
      else if mined == 0
      then lost
      else if leb mined target
      then record lost { won = true; block = record seeded { matmul_digest = mined } }
      else if seeded.nonce64 == nonce_max
      then record lost { max_tries = tries }
      else rest

-- The digests are those of core/matmul/matmul_v4_rc.cpp and matmul_v4_rc_coupled.cpp, for the dimensions that
-- the caller chose; the coupled one also takes what is derived once from the template of the header.
unfoldable pub solve_matmul_rc_episode : Job → (ℕ → ℕ) → ℕ → (ℕ → Bool) → ℕ → Header → ℕ → Outcome
solve_matmul_rc_episode job episode_digest target aborted tries h episodes =
    search job episode_digest suc target aborted tries 0 h episodes

unfoldable pub solve_matmul_rc_coupled :
    Job → (ℕ → ℕ → ℕ → ℕ) → ℕ → (ℕ → Bool) → ℕ → Header → ℕ → Outcome
solve_matmul_rc_coupled job coupled_digest target aborted tries h episodes =
    let template = rc_bank_template_hash job.sha256 h in
    let word = to_unsigned (2 ^ 32) job.height in
    search job (coupled_digest template word) (λ n. n) target aborted tries 0 h episodes
