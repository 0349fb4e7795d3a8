-- ===== src/Miner/Notify.antt =====
-- miner/stratum_client.h: a job of a stratum pool, and the readers of the two messages that carry one.
use btx_miner.Common.{
  ℕ, ◌*◌, ◌-◌, ◌%◌, ◌^◌, Bool, true, false, not, ◌&&◌, ◌||◌, [], Option, none, some, leb, ltb,
  if◌then◌else◌,
}
use btx_miner.Common.Int.{ℤ, pos, negsuc}
use btx_miner.Miner.Version.{Text, text_eq}
use btx_miner.Miner.Fields.{codes}
use btx_miner.Miner.UniValue.{UniValue, ◌>>=◌, stoull, as_uint}

pub record StratumJob : Type 0 where
  pub job_id : Text
  pub version : ℕ
  pub prevhash_hex : Text
  pub merkleroot_hex : Text
  pub ntime : ℕ
  pub nbits : ℕ
  pub target_hex : Text
  pub clean_jobs : Bool
  pub block_height : ℤ
  pub parent_mtp : ℤ
  pub nonce64_start : ℕ
  pub matmul_n : ℕ
  pub profile : Text
  pub nonce_bits : ℕ
  pub valid : Bool

abbrev pub no_job : StratumJob
no_job = record {
  job_id = [];
  version = 0;
  prevhash_hex = [];
  merkleroot_hex = [];
  ntime = 0;
  nbits = 0;
  target_hex = [];
  clean_jobs = false;
  block_height = pos 0;
  parent_mtp = pos 0;
  nonce64_start = 0;
  matmul_n = 0;
  profile = [];
  nonce_bits = 0;
  valid = false;
}

-- The cast of an unsigned value to a signed one of `2 * half` values.
abbrev pub to_signed : ℕ → ℕ → ℤ
to_signed half n = let m = n % (2 * half) in if ltb m half then pos m else negsuc (2 * half - 1 - m)

abbrev pub validated : StratumJob → Option StratumJob
validated job = some (record job { valid = true })

module _ (u : UniValue) where
  -- `v[key]` where the key is there, and a default.
  abbrev field_or {κ} : {A : Type κ} → u.Value → Text → A → (u.Value → Option A) → Option A
  field_or v key d f = if u.exists_key v key then f (u.field v key) else some d

  abbrev uint_field : u.Value → Text → Option ℕ
  uint_field v key = as_uint u (u.field v key)

  abbrev text_field : u.Value → Text → Option Text
  text_field v key = u.get_str (u.field v key)

  -- "profile", or else "algo", where it is a text.
  unfoldable pub profile_field : u.Value → Option Text
  profile_field v =
      if u.exists_key v (codes "profile") && u.is_str (u.field v (codes "profile"))
      then text_field v (codes "profile")
      else if u.exists_key v (codes "algo") && u.is_str (u.field v (codes "algo"))
      then text_field v (codes "algo")
      else some []

  unfoldable pub clean_item : u.Value → Option Bool
  clean_item v =
      if u.is_bool v
      then u.get_bool v
      else if u.is_str v
      then (do t ← u.get_str v; some (text_eq t (codes "true")))
      else some false

  -- What the job object adds.
  unfoldable pub job_object : StratumJob → u.Value → Option StratumJob
  job_object job jo = do
    height ← field_or jo (codes "block_height") 0 (as_uint u)
    mtp ←
        (if u.exists_key jo (codes "parent_mtp")
          then uint_field jo (codes "parent_mtp")
          else field_or jo (codes "parent_median_time_past") 0 (as_uint u))
    start ← field_or jo (codes "nonce64_start") 0 (as_uint u)
    dim ← field_or jo (codes "matmul_n") 0 (as_uint u)
    profile ← profile_field jo
    some (record job {
      block_height = to_signed (2 ^ 31) height;
      parent_mtp = to_signed (2 ^ 63) mtp;
      nonce64_start = start;
      matmul_n = dim % 2 ^ 16;
      profile = profile;
    })

  unfoldable pub notify_items : u.Value → Option StratumJob
  notify_items p = do
    id ← u.get_str (u.item p 0)
    version ← as_uint u (u.item p 1)
    prev ← u.get_str (u.item p 2)
    merkle ← u.get_str (u.item p 3)
    ntime ← as_uint u (u.item p 4)
    bits_text ← u.get_str (u.item p 5)
    nbits ← stoull 16 bits_text
    target ← u.get_str (u.item p 6)
    clean ← clean_item (u.item p 7)
    some (record no_job {
      job_id = id;
      version = version % 2 ^ 32;
      prevhash_hex = prev;
      merkleroot_hex = merkle;
      ntime = ntime % 2 ^ 32;
      nbits = nbits.0 % 2 ^ 32;
      target_hex = target;
      clean_jobs = clean;
    })

  -- `none` is a return of false; the job that it leaves half filled is dropped by the caller.
  unfoldable pub parse_notify_params : u.Value → Option StratumJob
  parse_notify_params p = if not (u.is_array p) || ltb (u.size p) 8 then none else (do
    job ← notify_items p
    full ←
        (if leb 9 (u.size p) && u.is_object (u.item p 8)
          then job_object job (u.item p 8)
          else some job)
    validated full)

  unfoldable pub lucky_fields : u.Value → Option StratumJob
  lucky_fields p = do
    id ← text_field p (codes "jobId")
    version ← uint_field p (codes "nVersion")
    prev ← text_field p (codes "prevHash")
    merkle ← text_field p (codes "merkleRoot")
    ntime ← uint_field p (codes "nTime")
    bits_text ← text_field p (codes "nBits")
    nbits ← stoull 16 bits_text
    target ← text_field p (codes "shareTarget")
    clean ←
        (if u.exists_key p (codes "cleanJobs") && u.is_bool (u.field p (codes "cleanJobs"))
          then u.get_bool (u.field p (codes "cleanJobs"))
          else some true)
    height ← uint_field p (codes "height")
    mtp ← field_or p (codes "parentMtp") 0 (as_uint u)
    dim ← uint_field p (codes "matmulDim")
    profile ← profile_field p
    some (record no_job {
      job_id = id;
      version = version % 2 ^ 32;
      prevhash_hex = prev;
      merkleroot_hex = merkle;
      ntime = ntime % 2 ^ 32;
      nbits = nbits.0 % 2 ^ 32;
      target_hex = target;
      clean_jobs = clean;
      block_height = to_signed (2 ^ 31) height;
      parent_mtp = to_signed (2 ^ 63) mtp;
      matmul_n = dim % 2 ^ 16;
      profile = profile;
    })

  -- The prefix is shifted above the bits that are scanned.
  unfoldable pub parse_lucky_pool_job : u.Value → Option StratumJob
  parse_lucky_pool_job p =
      if not (u.is_object p) || not (u.exists_key p (codes "jobId")) then none else (do
        job ← lucky_fields p
        bits ← field_or p (codes "nonceBits") 40 (as_uint u)
        prefix ←
            field_or p (codes "noncePrefix") 0
              (λ v. u.get_str v >>= (λ t. stoull 10 t >>= (λ r. some r.0)))
        let width = bits % 2 ^ 32
        validated (record job {
          nonce_bits = width;
          nonce64_start = if ltb width 64 then (prefix * 2 ^ width) % 2 ^ 64 else 0;
        }))
