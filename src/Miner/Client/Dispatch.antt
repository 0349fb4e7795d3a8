-- ===== src/Miner/Client/Dispatch.antt =====
-- miner/stratum_client.h: `DispatchLine` and the handlers of its messages. The announced difficulty, which
-- nothing but a report reads, is left out.
use btx_miner.Common.{
  ℕ, ◌^◌, Bool, true, false, not, ◌&&◌, ◌||◌, List, [], ◌∷◌, ◌++◌, Option, none, some, leb, ◌==◌,
  if◌then◌else◌,
}
use btx_miner.Common.Int.{ℤ, pos, leb_ℤ}
use btx_miner.Miner.Version.{Text, text_eq, is_empty}
use btx_miner.Miner.Fields.{codes}
use btx_miner.Miner.Stratum.{json_escape_minimal}
use btx_miner.Miner.UniValue.{UniValue, ◌>>=◌, as_uint, stratum_id_to_uint, stratum_error_message}
use btx_miner.Miner.Notify.{StratumJob, to_signed, parse_notify_params, parse_lucky_pool_job}
use btx_miner.Miner.Client.{
  lucky_pool, is_lucky_pool, Account, Client, sends, Reaction, silent, bump, handle_notify,
  request_auth_reconnect, login_line, supported_capability, take_pending, submit_share, on_accepted,
  on_rejected,
}

abbrev pub text_or : Text → Option Text → Text
text_or d none = d
text_or d (some t) = t

abbrev pub size_or_default : Option ℤ → ℤ
size_or_default none = pos 4
size_or_default (some n) = if leb_ℤ n (pos 0) then pos 4 else n

abbrev pub bool_or : Bool → Option Bool → Bool
bool_or d none = d
bool_or d (some b) = b

module _ (u : UniValue) (a : Account) where
  -- `v.exists(key) ? v[key] : kNull`.
  abbrev pub member : u.Value → Text → u.Value
  member v key = if u.exists_key v key then u.field v key else u.null

  -- The supported tags among the values, quoted, with commas between them.
  unfoldable pub ack_tags : Bool → List u.Value → Text
  ack_tags first [] = []
  ack_tags first (c ∷ cs) =
      let tag = text_or [] (u.get_str c) in
      let skipped = ack_tags first cs in
      let more = ack_tags false cs in
      if not (u.is_str c)
      then skipped
      else if not (supported_capability tag)
      then skipped
      else (if first then [] else codes ",")
        ++ (codes "\"" ++ (json_escape_minimal tag ++ (codes "\"" ++ more)))

  unfoldable pub capability_ack : u.Value → Text
  capability_ack v =
      let params = member v (codes "params") in
      let proto =
        if (u.is_array params && leb 1 (u.size params)) && u.is_str (u.item params 0)
        then text_or [] (u.get_str (u.item params 0))
        else codes "byron-pool/2" in
      let caps =
        if (u.is_array params && leb 2 (u.size params)) && u.is_array (u.item params 1)
        then ack_tags true (u.values (u.item params 1))
        else [] in
      let id_field =
        if u.exists_key v (codes "id") && not (u.is_null (u.field v (codes "id")))
        then u.write (u.field v (codes "id"))
        else codes "null" in
      codes "{\"id\":"
      ++ (id_field
          ++ (codes ",\"method\":\"mining.capability.ack\",\"params\":[\""
              ++ (json_escape_minimal proto
                  ++ (codes "\",["
                      ++ (caps
                          ++ (codes "],\""
                              ++ (json_escape_minimal a.solver_sha256
                                  ++ (codes "\"]}" ++ 10 ∷ []))))))))

  -- The two fields of a result, `none` when reading them raises an exception; the text is kept then.
  unfoldable pub extranonce_fields : Client → u.Value → Text × Option ℤ
  extranonce_fields c result =
      if u.is_array result && leb 3 (u.size result)
      then (
        if u.is_str (u.item result 1)
            then text_or [] (u.get_str (u.item result 1))
            else c.extranonce1,
        as_uint u (u.item result 2) >>= (λ n. some (to_signed (2 ^ 31) n)),
      )
      else if u.is_object result
      then (
        if u.exists_key result (codes "extranonce1")
              && u.is_str (u.field result (codes "extranonce1"))
            then text_or [] (u.get_str (u.field result (codes "extranonce1")))
            else c.extranonce1,
        if u.exists_key result (codes "extranonce2_size")
            then as_uint u (u.field result (codes "extranonce2_size"))
              >>= (λ n. some (to_signed (2 ^ 31) n))
            else some c.extranonce2_size,
      )
      else (c.extranonce1, some c.extranonce2_size)

  unfoldable pub parse_subscribe_result : Client → u.Value → Client
  parse_subscribe_result c result =
      let (text, size) = extranonce_fields c result in
      record c { extranonce1 = text; extranonce2_size = size_or_default size }

  unfoldable pub on_subscribe_response : Client → u.Value → Bool → Reaction
  on_subscribe_response c v has_error =
      if has_error
      then record { client = record c { proto = lucky_pool }; effects = sends (login_line a) ∷ [] }
      else silent (parse_subscribe_result c (member v (codes "result")))

  unfoldable pub on_authorize_response : Client → u.Value → Bool → Reaction
  on_authorize_response c v has_error =
      let r = member v (codes "result") in
      let ok =
        not has_error
        && (if u.is_null r
            then false
            else if u.is_bool r
            then bool_or false (u.get_bool r)
            else true) in
      if is_lucky_pool c.proto
      then silent c
      else if ok
      then silent c
      else request_auth_reconnect a c

  unfoldable pub on_login_response : Client → u.Value → Bool → Reaction
  on_login_response c v has_error =
      let r = member v (codes "result") in
      if not has_error && (u.is_bool r && bool_or false (u.get_bool r))
      then silent c
      else request_auth_reconnect a c

  -- Whether the result accepts a share.
  unfoldable pub answered_well : u.Value → Bool
  answered_well v =
      let r = member v (codes "result") in
      if u.is_bool r then bool_or false (u.get_bool r) else not (u.is_null r)

  unfoldable pub on_submit_response : Client → ℕ → u.Value → Bool → Text → Reaction
  on_submit_response c id v has_error reason =
      let accepted = not has_error && answered_well v in
      elim (take_pending id c.pending) [
        | none ↦ silent c
        | some left ↦
            (if accepted
              then silent (on_accepted (record c { pending = left }))
              else on_rejected a (record c { pending = left }) reason)
      ]

  -- A message with an id and no method.
  unfoldable pub on_response : Client → ℕ → u.Value → Reaction
  on_response c id v =
      let err = member v (codes "error") in
      let has_error = not (u.is_null err) in
      let reason = if has_error then stratum_error_message u err else [] in
      if id == 1
      then on_subscribe_response c v has_error
      else if id == 2
      then on_authorize_response c v has_error
      else if id == 3
      then on_login_response c v has_error
      else on_submit_response c id v has_error reason

  abbrev pub notified : Client → Option StratumJob → Reaction
  notified c none = silent c
  notified c (some j) = handle_notify c j

  -- `v["params"]`, read as a job.
  abbrev pub job_in : u.Value → (u.Value → Option StratumJob) → Option StratumJob
  job_in v parse =
      if u.exists_key v (codes "params") then parse (u.field v (codes "params")) else none

  abbrev pub method_of : u.Value → Text
  method_of v =
      if u.exists_key v (codes "method") && u.is_str (u.field v (codes "method"))
      then text_or [] (u.get_str (u.field v (codes "method")))
      else []

  abbrev pub responded : Client → u.Value → Option ℕ → Reaction
  responded c v none = silent c
  responded c v (some id) = on_response c id v

  unfoldable pub dispatch_value : Client → u.Value → Reaction
  dispatch_value c v =
      let method = method_of v in
      if text_eq method (codes "mining.notify")
      then notified c (job_in v (parse_notify_params u))
      else if text_eq method (codes "job")
      then notified c (job_in v (parse_lucky_pool_job u))
      else if text_eq method (codes "mining.capability.req")
      then record { client = c; effects = sends (capability_ack v) ∷ [] }
      else if not (is_empty method)
      then silent c
      else if not (u.exists_key v (codes "id")) || u.is_null (u.field v (codes "id"))
      then silent c
      else responded c v (stratum_id_to_uint u (u.field v (codes "id")))

  unfoldable pub dispatch_line : Client → Text → Reaction
  dispatch_line c line = elim (u.read line) [ none ↦ silent c | some v ↦ dispatch_value c v ]

-- What happens to a connection, in order: a line is heard, a share is submitted, the pool loop arms the
-- abort flag for a job, a stop wakes those who wait for a job, or the reader ends.
pub data ClientEvent : Type 0 where
  hears : Text → ClientEvent
  submits : ClientEvent
  arms : ClientEvent
  wakes : ClientEvent
  ends : ClientEvent

module _ (u : UniValue) (a : Account) where
  unfoldable pub client_step : Client → ClientEvent → Reaction
  client_step c (hears line) = dispatch_line u a c line
  client_step c submits = silent (submit_share c).1
  client_step c arms = silent (record c { abort = false })
  client_step c wakes = silent (record c { job_gen = bump c.job_gen })
  client_step c ends = silent (record c { abort = true })

  unfoldable pub run_client : Client → List ClientEvent → Reaction
  run_client c [] = silent c
  run_client c (e ∷ events) =
      let now = client_step c e in
      let rest = run_client now.client events in
      record { client = rest.client; effects = now.effects ++ rest.effects }
