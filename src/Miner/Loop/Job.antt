-- ===== src/Miner/Loop/Job.antt =====
-- miner/poolcore.h: the state that the loop shares with the solve thread, and how a job is read and started.
use btx_miner.Common.{
  ℕ, ◌-◌, ◌*◌, ◌%◌, ◌^◌, Bool, true, false, not, List, [], ◌∷◌, Option, none, some, ltb, ◌==◌,
  if◌then◌else◌,
}
use btx_miner.Common.Int.{ℤ, pos, negsuc}
use btx_miner.Solve.Header.{Header}
use btx_miner.Solve.Dispatch.{Env}
use btx_miner.Miner.Version.{Text}
use btx_miner.Miner.Pool.{pc_header_from_hex}
use btx_miner.Miner.Fields.{codes, pc_get_string, pc_get_u64}

pub record Device : Type 0 where
  pub gpu_uuid : Text
  pub pci_bus_id : Text
  pub name : Text

-- `uint256::FromHex`, the dimensions of the consensus parameters, and two environment variables.
pub record Host : Type 0 where
  pub from_hex : Text → Option ℕ
  pub matmul_dimension : ℕ
  pub rc_header_dim : ℕ
  pub episode_env : Env
  pub coupled_env : Env

pub data Solver : Type 0 where
  btx_live : Solver
  rc_episode : Solver
  rc_coupled : Solver

-- What the thread is given.
pub record Work : Type 0 where
  pub solver : Solver
  pub tmpl : Header
  pub header_hex : Text
  pub share_target : ℕ
  pub height : ℤ
  pub parent_mtp : ℤ
  pub gpu_uuid : Text
  pub profile : Text
  pub nonce64_start : ℕ

-- `PcSolveState`; `work` is the thread that can be joined.
pub record SolveState : Type 0 where
  pub job_id : ℕ
  pub running : Bool
  pub shares_found : ℕ
  pub share_target : ℕ
  pub work : Option Work

-- The abort flag is raised, the thread joined, and the flag lowered again.
unfoldable pub stop : SolveState → SolveState
stop st = if not st.running then st else record st { running = false; work = none }

unfoldable pub start : SolveState → ℕ → Work → SolveState
start st jid w = record (stop st) {
  job_id = jid;
  shares_found = 0;
  share_target = w.share_target;
  running = true;
  work = some w;
}

-- A fault that is answered by `EmitError`, one for each call of it.
pub data Fault : Type 0 where
  no_type : Fault
  no_devices : Fault
  no_job_fields : Fault
  no_template_fields : Fault
  bad_header_hex : Fault
  bad_target_hex : Fault
  no_new_target : Fault
  bad_new_target : Fault
  unknown_type : Text → Fault

pub data Note : Type 0 where
  dispatching : Note
  dispatching_rc : Note
  dispatching_coupled : Note
  rc_solve_disabled : Note
  coupled_solve_disabled : Note
  profile_not_wired : Note

-- The casts of a `uint64_t` to `int32_t` and `int64_t`, and to `uint16_t`.
abbrev pub to_signed : ℕ → ℕ → ℤ
to_signed half n = let m = n % (2 * half) in if ltb m half then pos m else negsuc (2 * half - 1 - m)

abbrev pub to_uint16 : ℕ → ℕ
to_uint16 n = n % 2 ^ 16

abbrev pub or_zero : Option ℕ → ℕ
or_zero none = 0
or_zero (some n) = n

abbrev pub device_uuid : List Device → Text
device_uuid [] = codes "unknown"
device_uuid (d ∷ devices) = d.gpu_uuid

-- The text "0", and an unset variable.
abbrev pub episode_disabled : Env → Bool
episode_disabled (some (c ∷ [])) = c == 48
episode_disabled _ = false

abbrev pub coupled_disabled : Env → Bool
coupled_disabled none = true
coupled_disabled (some _) = false

-- The fields that every profile reads, and their values.
pub record Template : Type 0 where
  pub header_hex : Text
  pub tmpl : Header
  pub share_target : ℕ
  pub height : ℕ
  pub parent_mtp : ℕ

pub data Parsed : Type 0 where
  refused : Fault → Parsed
  parsed : Template → Parsed

-- A `CBlockHeader` as it is constructed.
abbrev pub null_header : Header
null_header = record {
  version = 0;
  hash_prev_block = 0;
  hash_merkle_root = 0;
  time = 0;
  bits = 0;
  nonce64 = 0;
  nonce = 0;
  matmul_dim = 0;
  seed_a = 0;
  seed_b = 0;
  matmul_digest = 0;
}

unfoldable pub template_of_fields : Host → Option Text → Option Text → Option ℕ → Option ℕ → Parsed
template_of_fields host (some header_hex) (some target_hex) (some height) (some parent_mtp) =
    elim (pc_header_from_hex header_hex null_header) [
      | none ↦ refused bad_header_hex
      | some tmpl ↦ elim (host.from_hex target_hex) [
        | none ↦ refused bad_target_hex
        | some target ↦ parsed (record {
          header_hex = header_hex;
          tmpl = tmpl;
          share_target = target;
          height = height;
          parent_mtp = parent_mtp;
        })
      ]
    ]
template_of_fields host _ _ _ _ = refused no_template_fields

unfoldable pub read_template : Host → Text → Parsed
read_template host line =
    template_of_fields host (pc_get_string line (codes "header_hex"))
      (pc_get_string line (codes "target_hex")) (pc_get_u64 line (codes "height"))
      (pc_get_u64 line (codes "parent_mtp"))

-- What a thread captures of a template whose dimension was stamped.
abbrev work_of : Solver → Template → ℕ → Text → Text → ℕ → Work
work_of solver t dim gpu_uuid profile nonce64_start = record {
  solver = solver;
  tmpl = record (t.tmpl) { matmul_dim = dim };
  header_hex = t.header_hex;
  share_target = t.share_target;
  height = to_signed (2 ^ 31) t.height;
  parent_mtp = to_signed (2 ^ 63) t.parent_mtp;
  gpu_uuid = gpu_uuid;
  profile = profile;
  nonce64_start = nonce64_start;
}

-- The dimension is cut to 16 bits before it is tested.
unfoldable pub start_btx_live_job : Host → SolveState → ℕ → Template → ℕ → Text → Text → SolveState
start_btx_live_job host st jid t matmul_n uuid profile =
    let dim = to_uint16 matmul_n in
    start st jid (
      work_of btx_live t (if dim == 0 then to_uint16 host.matmul_dimension else dim) uuid profile 0)

-- Here it is tested before it is cut.
abbrev pub rc_dim : Host → ℕ → ℕ
rc_dim host matmul_n = if matmul_n == 0 then host.rc_header_dim else to_uint16 matmul_n

unfoldable pub start_rc_episode_job :
    Host → SolveState → ℕ → Template → ℕ → Text → Text → ℕ → SolveState
start_rc_episode_job host st jid t matmul_n uuid profile nonce64_start =
    start st jid (work_of rc_episode t (rc_dim host matmul_n) uuid profile nonce64_start)

unfoldable pub start_rc_coupled_job :
    Host → SolveState → ℕ → Template → ℕ → Text → Text → SolveState
start_rc_coupled_job host st jid t matmul_n uuid profile =
    start st jid (work_of rc_coupled t (rc_dim host matmul_n) uuid profile 0)
