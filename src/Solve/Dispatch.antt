-- ===== src/Solve/Dispatch.antt =====
-- core/matmul/pow_solve.cpp: `SolveMatMul`, which picks the solver by height, gates it by an environment
-- variable, and derives the target.
pub mod Sound
use btx_miner.Common.{
  ℕ, suc, ◌≡◌, Bool, true, false, not, ◌&&◌, List, [], ◌∷◌, Option, none, some, ◌==◌, if◌then◌else◌,
}
use btx_miner.Common.Int.{ℤ}
use btx_miner.Pow.Chain.{Vendored, Params}
use btx_miner.Pow.Work.{derive_target}
use btx_miner.Solve.Header.{Header}
use btx_miner.Solve.Seeds.{Activation}
use btx_miner.Solve.Loop.{Job, Outcome, solve_matmul_rc_episode, solve_matmul_rc_coupled}

pub data MatMulSolveVariant : Type 0 where
  base : MatMulSolveVariant
  rc : MatMulSolveVariant
  coupled : MatMulSolveVariant

unfoldable pub active_matmul_solve_variant : Activation → ℤ → MatMulSolveVariant
active_matmul_solve_variant active height =
    if active.rc_coupled_active height
    then coupled
    else if active.rc_active height
    then rc
    else base

-- The value of an environment variable, as its characters; `none` when it is unset.
abbrev pub Env : Type 0
Env = Option (List ℕ)

-- Everything but the text "0" leaves the episode solver on.
unfoldable pub rc_episode_solve_enabled : Env → Bool
rc_episode_solve_enabled (some (c ∷ [])) = not (c == 48)
rc_episode_solve_enabled _ = true

-- Nothing but the text "1" turns the coupled solver on.
unfoldable pub rc_coupled_solve_enabled : Env → Bool
rc_coupled_solve_enabled (some (c ∷ [])) = c == 49
rc_coupled_solve_enabled _ = false

-- What `SolveMatMul` is given beside the header: the two environment variables, the digests, the
-- abort flag, and a share target that replaces the target of the block.
pub record Request : Type 0 where
  pub job : Job
  pub params : Params
  pub episode_env : Env
  pub coupled_env : Env
  pub episode_digest : ℕ → ℕ
  pub coupled_digest : ℕ → ℕ → ℕ → ℕ
  pub aborted : ℕ → Bool
  pub share_target_override : Option ℕ

-- The counters that the solver keeps beside the outcome.
pub record Counters : Type 0 where
  pub solve_windows : ℕ
  pub rc_episodes : ℕ

module _ (v : Vendored) (r : Request) where
  -- `none` when the call ends before a loop is entered.
  unfoldable pub effective_target : Header → Option ℕ
  effective_target h = elim (derive_target v h.bits r.params.pow_limit) [
    | none ↦ none
    | some network ↦ elim r.share_target_override [
      | none ↦ some network
      | some share ↦ (if share == 0 then none else some share)
    ]
  ]

  -- The call returns false before a loop, and leaves the header and the tries as they were.
  abbrev pub refused : Header → ℕ → ℕ → Outcome
  refused h tries episodes = record {
    won = false;
    block = h;
    max_tries = tries;
    rc_episodes = episodes;
  }

  abbrev run_at : (ℕ → Outcome) → Header → ℕ → ℕ → Outcome
  run_at solve h tries episodes = elim (effective_target h) [
    | none ↦ refused h tries episodes
    | some t ↦ solve t
  ]

  unfoldable pub solve_variant : MatMulSolveVariant → Header → ℕ → ℕ → Outcome
  solve_variant coupled h tries episodes =
      if rc_coupled_solve_enabled r.coupled_env
      then run_at (λ t. solve_matmul_rc_coupled r.job r.coupled_digest t r.aborted tries h episodes)
          h tries episodes
      else refused h tries episodes
  solve_variant rc h tries episodes =
      if rc_episode_solve_enabled r.episode_env
      then run_at (λ t. solve_matmul_rc_episode r.job r.episode_digest t r.aborted tries h episodes)
          h tries episodes
      else refused h tries episodes
  solve_variant base h tries episodes = refused h tries episodes

  unfoldable pub solve_matmul : Header → ℕ → Counters → Outcome × Counters
  solve_matmul h tries counters =
      let variant = active_matmul_solve_variant r.job.active r.job.height in
      let out = solve_variant variant h tries counters.rc_episodes in
      let after : Counters = record {
        solve_windows = suc counters.solve_windows;
        rc_episodes = out.rc_episodes;
      } in
      if not r.params.matmul_pow
      then (refused h tries counters.rc_episodes, counters)
      else if tries == 0
      then (refused h tries counters.rc_episodes, counters)
      else (out, after)
