-- ===== src/Miner/Client/Tests.antt =====
-- A connection that hears a few lines, over a small stand-in for the JSON values.
use btx_miner.Common.{
  ℕ, ◌≤◌, ◌≡◌, refl, Bool, true, false, not, ◌==◌, if◌then◌else◌, List, [], ◌∷◌, Option, none, some,
  arith,
}
use btx_miner.Common.Int.{ℤ, pos}
use btx_miner.Miner.Version.{Text, text_eq}
use btx_miner.Miner.Fields.{codes}
use btx_miner.Miner.UniValue.{
  UniValue, stratum_id_to_uint, as_uint, stoull, unsigned_at, digits_of, digit_value, text_uint,
}
use btx_miner.Miner.Notify.{parse_lucky_pool_job, lucky_fields, profile_field}
use btx_miner.Miner.Client.{
  stratum, Account, Client, handle_notify, is_new_work, request_auth_reconnect, take_pending,
  submit_share, on_accepted,
}
use btx_miner.Miner.Client.Dispatch.{
  dispatch_line, dispatch_value, on_response, on_submit_response, on_login_response, answered_well,
  ClientEvent, hears, submits, arms, wakes, client_step, run_client,
}
use btx_miner.Miner.Client.Accounts.{Balances, submits_in, run_client-Balances}
use btx_miner.Miner.Client.Jobs.{Turns, Alerts, is_armed, run_client-Turns}
use btx_miner.Miner.Client.Reconnects.{asks, run_client-asks}

-- The null value, the text "1", a number, a truth value, a response, a job message and its job.
data Toy : Type 0 where
  toy_null : Toy
  toy_one : Toy
  toy_num : ℕ → Toy
  toy_flag : Bool → Toy
  toy_reply : ℕ → Bool → Toy
  toy_notice : Toy
  toy_job : Toy
  toy_method : Toy

abbrev toy_read : Text → Option Toy
toy_read [] = none
toy_read (c ∷ []) = some toy_notice
toy_read (c ∷ (d ∷ s)) = some (toy_reply c (d == 1))

abbrev toy_field : Toy → Text → Toy
toy_field (toy_reply id ok) key =
    if text_eq key (codes "id")
    then toy_num id
    else if text_eq key (codes "result")
    then toy_flag ok
    else toy_null
toy_field toy_notice key =
    if text_eq key (codes "method")
    then toy_method
    else if text_eq key (codes "params")
    then toy_job
    else toy_null
toy_field toy_job key = toy_one
toy_field _ key = toy_null

abbrev is_toy_null : Toy → Bool
is_toy_null toy_null = true
is_toy_null _ = false

abbrev toy_text : Toy → Option Text
toy_text toy_one = some (codes "1")
toy_text toy_method = some (codes "job")
toy_text _ = none

abbrev toy_int : Toy → Option ℤ
toy_int (toy_num n) = some (pos n)
toy_int _ = none

abbrev toy_bool : Toy → Option Bool
toy_bool (toy_flag b) = some b
toy_bool _ = none

abbrev has {κ} : {A : Type κ} → Option A → Bool
has none = false
has (some x) = true

abbrev is_toy_job : Toy → Bool
is_toy_job toy_job = true
is_toy_job _ = false

abbrev toy_values : UniValue
toy_values = record {
  Value = Toy;
  read = toy_read;
  exists_key = λ v key. not (is_toy_null (toy_field v key));
  field = toy_field;
  item = λ v i. toy_null;
  size = λ v. 0;
  values = λ v. [];
  is_null = is_toy_null;
  is_num = λ v. has (toy_int v);
  is_str = λ v. has (toy_text v);
  is_bool = λ v. has (toy_bool v);
  is_array = λ v. false;
  is_object = is_toy_job;
  get_str = toy_text;
  get_bool = toy_bool;
  get_int = toy_int;
  get_real = λ v. none;
  write = λ v. [];
  null = toy_null;
}

abbrev toy_account : Account
toy_account = record {
  user = codes "addr.rig";
  version = codes "1";
  solver_sha256 = codes "00";
  auth_escalate = true;
}

abbrev fresh : Client
fresh = record {
  proto = stratum;
  job = none;
  abort = false;
  job_gen = 0;
  submit_id = 10;
  pending = [];
  accepted = 0;
  rejected = 0;
  reject_streak = 0;
  auth_kick = false;
  extranonce1 = [];
  extranonce2_size = pos 4;
}

-- Two submits, a response to the first, a job, for which the flag is armed, an unmatched response, and a
-- rejected login.
abbrev session : List ClientEvent
session =
    submits
    ∷ submits
    ∷ hears (10 ∷ 1 ∷ [])
    ∷ hears (9 ∷ [])
    ∷ arms
    ∷ hears (10 ∷ 1 ∷ [])
    ∷ hears (3 ∷ 0 ∷ [])
    ∷ hears (3 ∷ 0 ∷ [])
    ∷ []

abbrev ended : Client
ended = (run_client toy_values toy_account fresh session).client

session_ends :
    ((ended.accepted ≡ 1) × (ended.pending ≡ 11 ∷ []))
    × ((ended.job_gen ≡ 1) × (asks (run_client toy_values toy_account fresh session).effects ≡ 1))
unfolding run_client client_step dispatch_line dispatch_value on_response on_submit_response
    on_login_response answered_well submit_share take_pending on_accepted request_auth_reconnect
    handle_notify is_new_work stratum_id_to_uint as_uint stoull unsigned_at digits_of digit_value
    text_uint parse_lucky_pool_job lucky_fields profile_field
session_ends = ((refl, refl), (refl, refl))

run_client-Balances_example : Balances fresh ended (submits_in session)
run_client-Balances_example =
    run_client-Balances toy_values toy_account session fresh (omega arith)
      record { counted = refl; rising = omega arith; fits = omega arith }

-- A connection hears its first job, and nothing arms the flag.
abbrev first_job : List ClientEvent
first_job = submits ∷ hears (9 ∷ []) ∷ wakes ∷ []

run_client-Turns_example :
    let d = (run_client toy_values toy_account fresh first_job).client in
    Turns fresh d × (is_armed first_job ≡ false → Alerts fresh d)
run_client-Turns_example = run_client-Turns toy_values toy_account first_job fresh (omega arith)

run_client-asks_example :
    (asks (run_client toy_values toy_account fresh session).effects ≤ 1)
    × (toy_account.auth_escalate ≡ false
        → asks (run_client toy_values toy_account fresh session).effects ≡ 0)
run_client-asks_example = run_client-asks toy_values toy_account session fresh
