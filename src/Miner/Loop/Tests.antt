-- ===== src/Miner/Loop/Tests.antt =====
-- miner/poolcore.h: the theorems on the pool loop and its threads, applied to short sessions.
use btx_miner.Common.{
  ◌≡◌, refl, true, false, List, [], ◌∷◌, ◌++◌, length, none, some, leb, if◌then◌else◌,
}
use btx_miner.Miner.Version.{Text}
use btx_miner.Miner.Fields.{
  codes, pc_get_string, pc_get_u64, after, after_key, after_char, up_to_quote, skip_spaces,
  read_digits,
}
use btx_miner.Miner.Pool.{
  pc_header_from_hex, pc_hex_to_bytes, hex_pairs, hex_digit, header_of_bytes, le_value,
}
use btx_miner.Miner.Loop.{
  hello, profile_of, message_of, dispatch, with_template, on_job, on_message, on_line,
}
use btx_miner.Miner.Loop.Job.{
  Host, Device, stop, start, template_of_fields, read_template, start_rc_episode_job,
}
use btx_miner.Miner.Loop.Answers.{solving, heard_all, has_error}
use btx_miner.Miner.Loop.Run.{
  Event, received, share_found, initial, on_event, run_events, run_events-heard,
}
use btx_miner.Miner.Loop.Answered.{due_all, run_events-due}

-- Texts of at least two characters stand for targets.
abbrev toy_host : Host
toy_host = record {
  from_hex = λ t. if leb 2 (length t) then some (length t) else none;
  matmul_dimension = 512;
  rc_header_dim = 4096;
  episode_env = none;
  coupled_env = none;
}

abbrev no_devices : List Device
no_devices = []

abbrev zero_header : Text
zero_header =
    codes "0000000000000000000000000000000000000000"
    ++ codes "0000000000000000000000000000000000000000"
    ++ codes "0000000000000000000000000000000000000000"
    ++ codes "0000000000000000000000000000000000000000"

abbrev job_line : Text → Text
job_line target =
    codes "{\"type\":\"job\",\"job_id\":12,\"profile\":\"enc-rc-v47\",\"header_hex\":\""
    ++ (zero_header
        ++ (codes "\",\"target_hex\":\"" ++ (target ++ codes "\",\"height\": 7,\"parent_mtp\":9}")))

abbrev bad_job : Event
bad_job = received (job_line (codes "f")) no_devices

abbrev session : List Event
session =
    received (codes "{\"type\":\"init\"}") no_devices
    ∷ received (job_line (codes "ffff")) no_devices
    ∷ share_found
    ∷ bad_job
    ∷ received (codes "{\"type\":\"result\"}") no_devices
    ∷ []

abbrev long_session : List Event
long_session = session ++ received (codes "{\"type\":\"shutdown\"}") no_devices ∷ []

-- The job of the second line runs on after the one that was refused.
session_runs : solving (run_events toy_host (initial no_devices) session).pool ≡ some 12
unfolding run_events on_event on_line on_message message_of on_job profile_of with_template dispatch
    read_template template_of_fields pc_header_from_hex pc_hex_to_bytes hex_pairs hex_digit
    header_of_bytes le_value start_rc_episode_job start stop pc_get_string pc_get_u64 after_key
    after after_char up_to_quote skip_spaces read_digits
session_runs = refl

run_events-heard_example :
    let t = run_events toy_host (initial no_devices) session in
    solving t.pool ≡ heard_all none (hello ∷ t.replies)
run_events-heard_example = run_events-heard toy_host no_devices session

session_goes_on : (run_events toy_host (initial no_devices) session).done ≡ false
unfolding run_events on_event on_line on_message message_of on_job profile_of with_template dispatch
    read_template template_of_fields pc_header_from_hex pc_hex_to_bytes hex_pairs hex_digit
    header_of_bytes le_value start_rc_episode_job start stop pc_get_string pc_get_u64 after_key
    after after_char up_to_quote skip_spaces read_digits
session_goes_on = refl

run_events-due_example :
    length (run_events toy_host (initial no_devices) session).replies ≡ due_all session
run_events-due_example = run_events-due toy_host (initial no_devices) session session_goes_on

job_is_refused :
    has_error (on_line toy_host (initial no_devices) (job_line (codes "f")) no_devices).replies
    ≡ true
unfolding on_line on_message message_of on_job profile_of with_template read_template
    template_of_fields pc_header_from_hex pc_hex_to_bytes hex_pairs hex_digit header_of_bytes
    le_value pc_get_string pc_get_u64 after_key after after_char up_to_quote skip_spaces read_digits
job_is_refused = refl
