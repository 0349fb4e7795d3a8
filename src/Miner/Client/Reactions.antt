-- ===== src/Miner/Client/Reactions.antt =====
-- miner/stratum_client.h: the ways in which a connection reacts to a line, whatever the line is.
use btx_miner.Common.{
  ℕ, ◌≡◌, refl, inl, inr, Bool, true, false, not, ◌&&◌, List, [], ◌∷◌, Option, none, some,
  if◌then◌else◌, leb, ltb, ◌==◌, ◌||◌, Bool-cases, Option-cases,
}
use btx_miner.Common.Int.{ℤ}
use btx_miner.Miner.Version.{Text, text_eq, is_empty}
use btx_miner.Miner.Fields.{codes}
use btx_miner.Miner.UniValue.{UniValue, ◌>>=◌, stoull, as_uint}
use btx_miner.Miner.Notify.{
  StratumJob, parse_notify_params, parse_lucky_pool_job, validated, notify_items, job_object,
  lucky_fields,
}
use btx_miner.Miner.Client.{
  lucky_pool, is_lucky_pool, Account, Client, sends, Reaction, silent, handle_notify,
  request_auth_reconnect, login_line, take_pending, on_accepted, on_rejected,
}
use btx_miner.Miner.Client.Dispatch.{
  member, job_in, method_of, answered_well, parse_subscribe_result, on_subscribe_response,
  on_authorize_response, on_login_response, on_submit_response, on_response, notified, responded,
  dispatch_value, dispatch_line,
}

pub data Reacts (a : Account) (c : Client) : Reaction → Type 0 where
  ignores : Reacts a c (silent c)
  learns : (j : StratumJob) → j.valid ≡ true → Reacts a c (handle_notify c j)
  answers : (t : Text) → Reacts a c (record { client = c; effects = sends t ∷ [] })
  logs_in :
      Reacts a c
        (record { client = record c { proto = lucky_pool }; effects = sends (login_line a) ∷ [] })
  subscribes :
      (t : Text) (n : ℤ) → Reacts a c (silent (record c { extranonce1 = t; extranonce2_size = n }))
  unauthorized : Reacts a c (request_auth_reconnect a c)
  accepts :
      (id : ℕ) (left : List ℕ)
      → take_pending id c.pending ≡ some left
      → Reacts a c (silent (on_accepted (record c { pending = left })))
  rejects :
      (id : ℕ) (left : List ℕ) (reason : Text)
      → take_pending id c.pending ≡ some left
      → Reacts a c (on_rejected a (record c { pending = left }) reason)

-- A job that is read is valid.
abbrev valid_or_none : Option StratumJob → Bool
valid_or_none none = true
valid_or_none (some j) = j.valid

chain_valid {κ} :
    {A : Type κ} (o : Option A) (f : A → Option StratumJob)
    → ((x : A) → valid_or_none (f x) ≡ true)
    → valid_or_none (o >>= f) ≡ true
chain_valid none f h = refl
chain_valid (some x) f h = h x

if_valid :
    (b : Bool) (x y : Option StratumJob)
    → valid_or_none x ≡ true
    → valid_or_none y ≡ true
    → valid_or_none (if b then x else y) ≡ true
if_valid true x y p q = p
if_valid false x y p q = q

module _ (u : UniValue) where
  parse_notify_params-valid : (p : u.Value) → valid_or_none (parse_notify_params u p) ≡ true
  unfolding parse_notify_params
  parse_notify_params-valid p = if_valid (not (u.is_array p) || ltb (u.size p) 8) none _ refl (
      chain_valid (notify_items u p) _ λ job.
        chain_valid
          (if leb 9 (u.size p) && u.is_object (u.item p 8)
            then job_object u job (u.item p 8)
            else some job)
          validated λ full. refl)

  parse_lucky_pool_job-valid : (p : u.Value) → valid_or_none (parse_lucky_pool_job u p) ≡ true
  unfolding parse_lucky_pool_job
  parse_lucky_pool_job-valid p =
      if_valid (not (u.is_object p) || not (u.exists_key p (codes "jobId"))) none _ refl (
        chain_valid (lucky_fields u p) _ λ job.
          chain_valid
            (if u.exists_key p (codes "nonceBits")
              then as_uint u (u.field p (codes "nonceBits"))
              else some 40)
            _
            λ bits.
              chain_valid
                (if u.exists_key p (codes "noncePrefix")
                  then u.get_str (u.field p (codes "noncePrefix"))
                    >>= (λ t. stoull 10 t >>= (λ r. some r.0))
                  else some 0)
                _ λ prefix. refl)

module _ (u : UniValue) (a : Account) (c : Client) where
  notified-Reacts : (o : Option StratumJob) → valid_or_none o ≡ true → Reacts a c (notified u a c o)
  notified-Reacts none h = ignores
  notified-Reacts (some j) h = learns j h

  job_in-valid :
      (v : u.Value) (parse : u.Value → Option StratumJob)
      → ((p : u.Value) → valid_or_none (parse p) ≡ true)
      → valid_or_none (job_in u a v parse) ≡ true
  job_in-valid v parse h =
      if_valid (u.exists_key v (codes "params")) (parse (u.field v (codes "params"))) none (h _)
        refl

  submit-Reacts :
      (id : ℕ) (v : u.Value) (has_error : Bool) (reason : Text)
      → Reacts a c (on_submit_response u a c id v has_error reason)
  unfolding on_submit_response
  submit-Reacts id v has_error reason = elim (Option-cases (take_pending id c.pending)) [
    | inl e ↦ rw (e, on_submit_response) ignores
    | inr (left, e) ↦
        rw (e, on_submit_response)
          (elim (Bool-cases (not has_error && answered_well u a v)) [
            | inl ok ↦ rw ok (accepts id left e)
            | inr bad ↦ rw bad (rejects id left reason e)
          ])
  ]

  either :
      (b : Bool) {x y : Reaction} → Reacts a c x → Reacts a c y → Reacts a c (if b then x else y)
  either true p q = p
  either false p q = q

  subscribe-Reacts :
      (v : u.Value) (has_error : Bool) → Reacts a c (on_subscribe_response u a c v has_error)
  unfolding on_subscribe_response parse_subscribe_result
  subscribe-Reacts v true = logs_in
  subscribe-Reacts v false = subscribes _ _

  authorize-Reacts :
      (v : u.Value) (has_error : Bool) → Reacts a c (on_authorize_response u a c v has_error)
  unfolding on_authorize_response
  authorize-Reacts v has_error =
      either (is_lucky_pool c.proto) ignores (either _ ignores unauthorized)

  login-Reacts : (v : u.Value) (has_error : Bool) → Reacts a c (on_login_response u a c v has_error)
  unfolding on_login_response
  login-Reacts v has_error = either _ ignores unauthorized

  response-Reacts : (id : ℕ) (v : u.Value) → Reacts a c (on_response u a c id v)
  unfolding on_response
  response-Reacts id v =
      let has_error = not (u.is_null (member u a v (codes "error"))) in
      either (id == 1) (subscribe-Reacts v has_error) (
        either (id == 2) (authorize-Reacts v has_error)
          (either (id == 3) (login-Reacts v has_error) (submit-Reacts id v has_error _)))

  responded-Reacts : (v : u.Value) (o : Option ℕ) → Reacts a c (responded u a c v o)
  responded-Reacts v none = ignores
  responded-Reacts v (some id) = response-Reacts id v

  value-Reacts : (v : u.Value) → Reacts a c (dispatch_value u a c v)
  unfolding dispatch_value
  value-Reacts v =
      let method = method_of u a v in
      either (text_eq method (codes "mining.notify"))
        (notified-Reacts _ (job_in-valid v (parse_notify_params u) (parse_notify_params-valid u)))
        (either (text_eq method (codes "job"))
          (notified-Reacts _
            (job_in-valid v (parse_lucky_pool_job u) (parse_lucky_pool_job-valid u)))
          (either (text_eq method (codes "mining.capability.req")) (answers _) (
            either (not (is_empty method)) ignores (
              either (not (u.exists_key v (codes "id")) || u.is_null (u.field v (codes "id")))
                ignores (responded-Reacts v _)))))

  -- Whatever the line is, one of the eight happens.
  pub dispatch_line-Reacts : (line : Text) → Reacts a c (dispatch_line u a c line)
  unfolding dispatch_line
  dispatch_line-Reacts line = elim (Option-cases (u.read line)) [
    | inl e ↦ rw (e, dispatch_line) ignores
    | inr (v, e) ↦ rw (e, dispatch_line) (value-Reacts v)
  ]
