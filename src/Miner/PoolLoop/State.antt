-- ===== src/Miner/PoolLoop/State.antt =====
-- miner/matador-miner.cpp: the variables of `RunPoolLoop`, `BuildHeaderFromJob`, and the tests that the loop
-- makes. What the loop runs with comes as one value.
use btx_miner.Common.{
  ℕ, suc, ◌+◌, ◌-◌, ◌%◌, ◌^◌, Bool, false, not, ◌&&◌, ◌||◌, List, [], ◌∷◌, Option, none, some, ltb,
  leb, ◌==◌, if◌then◌else◌,
}
use btx_miner.Common.Int.{ℤ, ◌==ℤ◌}
use btx_miner.Pow.Chain.{Vendored}
use btx_miner.Solve.Header.{Header}
use btx_miner.Solve.Seeds.{Activation}
use btx_miner.Solve.Dispatch.{Request}
use btx_miner.Miner.Version.{Text, text_eq}
use btx_miner.Miner.Cursor.{CursorRanges, resume_cursor}
use btx_miner.Miner.Notify.{StratumJob}

-- What does not change while the loop runs. `request` holds the solver's own settings; its activation, its
-- height, its target and its abort flag are those of each call. `from_hex` is `uint256::FromHex`.
pub record PoolSetup : Type 0 where
  pub vendored : Vendored
  pub request : Request
  pub from_hex : Text → Option ℕ
  pub rc_header_dim : ℕ
  pub matmul_dimension : ℕ
  pub maxtries : ℕ

infixl 5 ◌>>=◌
abbrev ◌>>=◌ {ℓ κ} : {A : Type ℓ} {B : Type κ} → Option A → (A → Option B) → Option B
none >>= f = none
some a >>= f = f a

-- The dimension that is written into the header, under the activation as it is read for it: the reader of
-- the session may change it at any time.
unfoldable pub header_dim : PoolSetup → Activation → StratumJob → ℕ
header_dim s active job =
    if active.rc_active job.block_height
    then s.rc_header_dim
    else if not (job.matmul_n == 0)
    then job.matmul_n
    else s.matmul_dimension % 2 ^ 16

-- The header and the share target; `none` when a field is malformed.
unfoldable pub build_header_from_job : PoolSetup → Activation → StratumJob → Option (Header × ℕ)
build_header_from_job s active job = do
  prev ← s.from_hex job.prevhash_hex
  merk ← s.from_hex job.merkleroot_hex
  targ ← s.from_hex job.target_hex
  some (
    record {
      version = job.version;
      hash_prev_block = prev;
      hash_merkle_root = merk;
      time = job.ntime;
      bits = job.nbits;
      nonce64 = job.nonce64_start;
      nonce = job.nonce64_start % 2 ^ 32;
      matmul_dim = header_dim s active job;
      seed_a = 0;
      seed_b = 0;
      matmul_digest = 0;
    },
    targ,
  )

-- A job that is mined, with what was built from it.
pub record MinedJob : Type 0 where
  pub job : StratumJob
  pub header : Header
  pub share_target : ℕ

-- The variables of the loop. `work` is `none` outside the loop over one job.
pub record Scan : Type 0 where
  pub nonce_cursor : ℕ
  pub cur_range : ℕ
  pub cursor_ranges : CursorRanges
  pub submitted_keys : List (ℕ × ℕ)
  pub submitted_block : ℤ
  pub work : Option MinedJob

abbrev pub has_lane : StratumJob → Bool
has_lane job = ltb 0 job.nonce_bits && ltb job.nonce_bits 64

-- Where a job starts to be searched.
unfoldable pub select_cursor : Scan → StratumJob → Scan
select_cursor scan job =
    if has_lane job
    then record scan { cur_range = job.nonce64_start; nonce_cursor = job.nonce64_start }
    else if not (job.nonce64_start == scan.cur_range)
    then record scan {
      cur_range = job.nonce64_start;
      nonce_cursor = resume_cursor scan.cursor_ranges job.nonce64_start;
    }
    else scan

-- One pass of the inner loop: the activation as the solver reads it, which may differ from the one that
-- the header was built under, the abort flag as the solver reads it and as it is afterwards, the job of
-- the session when a share is found, if there is a valid one, and whether `SubmitShare` returns.
pub record Pass : Type 0 where
  pub active : Activation
  pub aborted : ℕ → Bool
  pub aborted_after : Bool
  pub latest : Option StratumJob
  pub sends : Bool

-- A share as it is submitted: the nonce, the time and the digest are those of the block.
pub record Share : Type 0 where
  pub job : StratumJob
  pub block : Header

pub record PoolTurn : Type 0 where
  pub scan : Scan
  pub sent : List Share

abbrev pub quiet : Scan → PoolTurn
quiet scan = record { scan = scan; sent = [] }

abbrev pub leave : Scan → Scan
leave scan = record scan { work = none }

-- The next nonce, as a `uint64_t`.
abbrev pub past : ℕ → ℕ
past nonce = suc nonce % 2 ^ 64

unfoldable pub is_superseded : StratumJob → Option StratumJob → Bool
is_superseded job none = false
is_superseded job (some latest) =
    not (latest.block_height ==ℤ job.block_height)
    || not (text_eq latest.prevhash_hex job.prevhash_hex)

unfoldable pub has_key : ℕ × ℕ → List (ℕ × ℕ) → Bool
has_key k [] = false
has_key k (l ∷ keys) = (l.0 == k.0 && l.1 == k.1) || has_key k keys

-- The keys that were sent for the block at this height.
unfoldable pub keys_for : Scan → ℤ → List (ℕ × ℕ)
keys_for scan height = if height ==ℤ scan.submitted_block then scan.submitted_keys else []

-- The wrap back into the lane after a share; the difference is that of `uint64_t`s.
unfoldable pub wrap_lane : StratumJob → ℕ → ℕ
wrap_lane job cursor =
    let lane = 2 ^ job.nonce_bits in
    let off = (cursor + (2 ^ 64 - job.nonce64_start)) % 2 ^ 64 in
    if has_lane job && leb lane off then (job.nonce64_start + off % lane) % 2 ^ 64 else cursor
