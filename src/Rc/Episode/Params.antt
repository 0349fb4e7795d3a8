-- ===== src/Rc/Episode/Params.antt =====
-- core/matmul/matmul_v4_rc.h and matmul_v4_rc.cpp: the shapes of an episode, and which one is active.
use btx_miner.Common.{ℕ, Bool, true, false, List, [], ◌∷◌, Option, some, ◌==◌, if◌then◌else◌}

pub record EpisodeParams : Type 0 where
  pub rounds : ℕ
  pub d_head : ℕ
  pub n_q : ℕ
  pub n_ctx : ℕ
  pub l_lyr : ℕ
  pub d_model : ℕ
  pub d_ff : ℕ
  pub b_seq : ℕ
  pub t_leaf : ℕ
  pub share_ep : Bool
  pub rowblock_x0 : Bool

abbrev pub production_episode_params : EpisodeParams
production_episode_params = record {
  rounds = 4;
  d_head = 128;
  n_q = 512;
  n_ctx = 786432;
  l_lyr = 16;
  d_model = 4096;
  d_ff = 16384;
  b_seq = 16384;
  t_leaf = 1024;
  share_ep = false;
  rowblock_x0 = false;
}

abbrev pub datacenter_episode_params : EpisodeParams
datacenter_episode_params = record production_episode_params {
  rounds = 8;
  l_lyr = 24;
  b_seq = 87552;
  t_leaf = 4096;
  share_ep = true;
  rowblock_x0 = true;
}

-- The text "2" of the environment variable, and nothing else, picks the second profile.
unfoldable pub active_profile_episode_params : Option (List ℕ) → EpisodeParams
active_profile_episode_params (some (c ∷ [])) =
    if c == 50 then datacenter_episode_params else production_episode_params
active_profile_episode_params _ = production_episode_params
