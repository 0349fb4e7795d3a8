-- ===== src/Miner/Client.antt =====
-- miner/stratum_client.h: `StratumClient`, the state of one connection and what a line of the pool does to
-- it. The messages that are sent, the calls of the job observer and the request to reconnect are effects,
-- in order. Latency and time stamps are left out; a failing send changes no state here, since the reader
-- catches its exception.
pub mod Dispatch
pub mod Reactions
pub mod Accounts
pub mod Jobs
pub mod Reconnects
mod Tests
use btx_miner.Common.{
  ℕ, suc, ◌+◌, ◌-◌, ◌*◌, ◌%◌, ◌^◌, Bool, true, false, not, ◌&&◌, ◌||◌, List, [], ◌∷◌, ◌++◌, Option,
  none, some, leb, ltb, ◌==◌, if◌then◌else◌,
}
use btx_miner.Common.Int.{ℤ, pos, leb_ℤ}
use btx_miner.Miner.Version.{Text, text_eq, is_empty}
use btx_miner.Miner.Fields.{codes}
use btx_miner.Miner.Endpoint.{cut_first}
use btx_miner.Miner.Stratum.{json_escape_minimal, reason_is_auth_failure}
use btx_miner.Miner.UniValue.{UniValue, ◌>>=◌, as_uint, stratum_id_to_uint, stratum_error_message}
use btx_miner.Miner.Notify.{StratumJob, to_signed, parse_notify_params, parse_lucky_pool_job}

pub data Proto : Type 0 where
  stratum : Proto
  lucky_pool : Proto

abbrev pub is_lucky_pool : Proto → Bool
is_lucky_pool stratum = false
is_lucky_pool lucky_pool = true

-- The user and the label of the miner, and the values that its messages repeat.
pub record Account : Type 0 where
  pub user : Text
  pub version : Text
  pub solver_sha256 : Text
  pub auth_escalate : Bool

-- `pending` holds the ids of the submits that have no response yet. `asked_reconnect` is
-- `watchdog_reconnect_requested` of the statistics that the sessions share.
pub record Client : Type 0 where
  pub proto : Proto
  pub job : Option StratumJob
  pub abort : Bool
  pub job_gen : ℕ
  pub submit_id : ℕ
  pub pending : List ℕ
  pub accepted : ℕ
  pub rejected : ℕ
  pub reject_streak : ℕ
  pub auth_kick : Bool
  pub extranonce1 : Text
  pub extranonce2_size : ℤ

pub data Effect : Type 0 where
  sends : Text → Effect
  observes : StratumJob → Effect
  asks_reconnect : Effect

pub record Reaction : Type 0 where
  pub client : Client
  pub effects : List Effect

abbrev pub silent : Client → Reaction
silent c = record { client = c; effects = [] }

-- A counter of 64 bits.
abbrev pub bump : ℕ → ℕ
bump n = suc n % 2 ^ 64

unfoldable pub is_new_work : Option StratumJob → StratumJob → Bool
is_new_work none j = true
is_new_work (some job) j = j.clean_jobs || not (text_eq j.job_id job.job_id)

unfoldable pub handle_notify : Client → StratumJob → Reaction
handle_notify c j =
    let woken =
      if is_new_work c.job j then record c { abort = true; job_gen = bump c.job_gen } else c in
    record { client = record woken { job = some j }; effects = observes j ∷ [] }

unfoldable pub request_auth_reconnect : Account → Client → Reaction
request_auth_reconnect a c = if c.auth_kick then silent c else record {
  client = record c { auth_kick = true };
  effects = if a.auth_escalate then asks_reconnect ∷ [] else [];
}

-- The address and the worker of the user.
abbrev pub split_user : Text → Text × Text
split_user user = elim (cut_first (codes ".") user) [ none ↦ (user, []) | some cut ↦ cut ]

unfoldable pub login_line : Account → Text
login_line a =
    let (addr, worker) = split_user a.user in
    let worker_part =
      if is_empty worker
      then []
      else codes ",\"worker\":\"" ++ (json_escape_minimal worker ++ codes "\"") in
    codes "{\"id\":3,\"method\":\"login\",\"params\":{\"address\":\""
    ++ (json_escape_minimal addr
        ++ (codes "\",\"agent\":\"matador-miner/"
            ++ (a.version ++ (codes "\"" ++ (worker_part ++ (codes "}}" ++ 10 ∷ []))))))

unfoldable pub supported_capability : Text → Bool
supported_capability tag = text_eq tag (codes "matmul_nonce_seed_v2")

-- The removal of the first pending submit with this id.
unfoldable pub take_pending : ℕ → List ℕ → Option (List ℕ)
take_pending id [] = none
take_pending id (p ∷ pending) =
    let rest = take_pending id pending in
    if p == id then some pending else elim rest [ none ↦ none | some left ↦ some (p ∷ left) ]

-- The id that a submit goes out with, and the state after it.
unfoldable pub submit_share : Client → ℕ × Client
submit_share c = (
  c.submit_id,
  record c { submit_id = bump c.submit_id; pending = c.pending ++ c.submit_id ∷ [] },
)

unfoldable pub on_accepted : Client → Client
on_accepted c = record c { accepted = bump c.accepted; reject_streak = 0 }

unfoldable pub on_rejected : Account → Client → Text → Reaction
on_rejected a c reason =
    let counted = record c { rejected = bump c.rejected; reject_streak = bump c.reject_streak } in
    if reason_is_auth_failure reason then request_auth_reconnect a counted else silent counted
