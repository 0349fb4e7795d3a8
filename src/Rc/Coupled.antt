-- ===== src/Rc/Coupled.antt =====
-- core/matmul/matmul_v4_rc_coupled.cpp: the coupled episode over a bank, and the calls around it. `fuel` bounds the
-- blocks of each stream; `none` says that it ran out. Each lobe of a barrier reads the state and
-- writes its own slice of the sums, so the lobes are taken in order. The size of the state fits 32 bits.
pub mod Mix
pub mod Bank
pub mod Gate
pub mod More
mod Tests
use mathlib.Core.List.{flatten}
use btx_miner.Common.{
  ℕ, zero, suc, ◌+◌, ◌-◌, ◌*◌, ◌/◌, ◌%◌, ◌^◌, Bool, true, false, ◌&&◌, not, List, [], ◌∷◌, ◌++◌,
  map, length, get_or, take, drop, replicate, Option, none, some, ltb, ◌==◌, if◌then◌else◌,
}
use btx_miner.Common.Int.{ℤ, pos, negsuc, to_unsigned}
use btx_miner.Common.Bytes.{le_bytes}
use btx_miner.Rc.Expand.{
  Bytes, Matrix, tag, mx_block_len, ◌>>=◌, expand_mx_dequant_i8, derive_prf_key,
}
use btx_miner.Rc.Gemm.{lobe_gemm_add}
use btx_miner.Rc.Merkle.{sha256d}
use btx_miner.Rc.Tile.{extract_row}
use btx_miner.Rc.Shuffle.{CoupParams, sha_tag_u32, select_pages, balanced_perm, apply_perm}
use btx_miner.Rc.Coupled.Mix.{Lanes, sha_tag_u32u32, all_to_all_mix, material_exchange_rounds}
use btx_miner.Rc.Coupled.Bank.{Page, page_bytes, bank_root_seed, derive_bank_pages, bank_commitment}

pub record CoupledBank : Type 0 where
  pub pages : List Page
  pub bank_root : Bytes

abbrev pub medium_v3_coup_params : CoupParams
medium_v3_coup_params = record {
  barriers = 4;
  lobes = 4;
  lobe_width = 64;
  bank_pages = 64;
  rows_per_lobe = 32;
  pages_per_barrier_lobe = 4;
  exchange_rounds = 0;
}

abbrev pub production_v3_coup_params : CoupParams
production_v3_coup_params = record {
  barriers = 8;
  lobes = 8;
  lobe_width = 8192;
  bank_pages = 1536;
  rows_per_lobe = 128;
  pages_per_barrier_lobe = 24;
  exchange_rounds = 4;
}

-- So many rows of `width` entries.
unfoldable pub chunks {ℓ} : {A : Type ℓ} → ℕ → ℕ → List A → List (List A)
chunks width zero xs = []
chunks width (suc rows) xs = take width xs ∷ chunks width rows (drop width xs)

-- The `i64` of a lane, and the lane of an `i64`.
abbrev pub lane_value : ℕ → ℤ
lane_value u = if ltb u (2 ^ 63) then pos u else negsuc (2 ^ 64 - 1 - u)

-- The gate on the shape: every page is square.
abbrev pub pages_fit : CoupParams → List Page → Bool
pages_fit p [] = true
pages_fit p (pg ∷ pages) = length pg == p.lobe_width * p.lobe_width && pages_fit p pages

module _ (sha256 : Bytes → Bytes) (p : CoupParams) where
  -- The products of a lobe's rows with the pages of its leg, summed in their order.
  unfoldable pub lobe_leg : List Page → List ℕ → Matrix → Matrix → Matrix
  lobe_leg pages [] rows dest = dest
  lobe_leg pages (pid ∷ ids) rows dest = lobe_leg pages ids rows (
      lobe_gemm_add p.lobe_width rows (chunks p.lobe_width p.lobe_width (get_or pages pid [])) dest)

  -- The legs of the lobes from `e` on, over the state from theirs on.
  unfoldable pub lobe_legs : List Page → Bytes → ℕ → ℕ → ℕ → List ℤ → List ℤ
  lobe_legs pages sigma barrier e zero state = []
  lobe_legs pages sigma barrier e (suc left) state =
      let rows = chunks p.lobe_width p.rows_per_lobe state in
      let zeros = replicate p.rows_per_lobe (replicate p.lobe_width (pos 0)) in
      flatten (lobe_leg pages (select_pages sha256 barrier e sigma p) rows zeros)
      ++ lobe_legs pages sigma barrier (suc e) left (drop (p.rows_per_lobe * p.lobe_width) state)

  abbrev pub barrier_root : ℕ → List ℤ → Bytes
  barrier_root barrier state =
      sha256d sha256 (tag "BTX_RC_COUP_BARRIER_V3" ++ (le_bytes 4 barrier ++ page_bytes state))

  -- Permutation, mix and exchange of the lanes of a barrier.
  unfoldable pub mixed_lanes : Bytes → ℕ → Lanes → Lanes
  mixed_lanes sigma b acc =
      let n = p.lobes * p.rows_per_lobe * p.lobe_width in
      material_exchange_rounds sha256 0 p.exchange_rounds sigma b
        (all_to_all_mix sha256 (apply_perm acc (balanced_perm sha256 sigma b n)) sigma b n)

module _ (sha256 : Bytes → Bytes) (fuel : ℕ) (p : CoupParams) where
  -- The fresh activation of the lobes from `e` on: the first rows of a tile each.
  unfoldable pub initial_lobes : Bytes → ℕ → ℕ → Option (List ℤ)
  initial_lobes sigma e zero = some []
  initial_lobes sigma e (suc left) = do
    tile ←
        expand_mx_dequant_i8 sha256 fuel (sha_tag_u32 sha256 (tag "BTX_RC_COUP_LOBE_V3") sigma e)
          p.lobe_width p.lobe_width
    rest ← initial_lobes sigma (suc e) left
    some (flatten (take p.rows_per_lobe tile) ++ rest)

  -- One barrier: the state that it leaves.
  unfoldable pub barrier : List Page → Bytes → ℕ → List ℤ → Option (List ℤ)
  barrier pages sigma b state =
      let acc =
        map (λ x. to_unsigned (2 ^ 64) x) (lobe_legs sha256 p pages sigma b 0 p.lobes state) in
      let prf =
        derive_prf_key sha256 (sha_tag_u32u32 sha256 (tag "BTX_RC_COUP_EXTRACT_V3") sigma b 0) in
      let raw = map lane_value (mixed_lanes sha256 p sigma b acc) in
      extract_row sha256 fuel prf 0 0 (length raw / mx_block_len) raw state

  -- The barriers from `b` on: their roots.
  unfoldable pub run_barriers : List Page → Bytes → ℕ → ℕ → List ℤ → Option (List Bytes)
  run_barriers pages sigma b zero state = some []
  run_barriers pages sigma b (suc left) state = do
    state' ← barrier pages sigma b state
    rest ← run_barriers pages sigma (suc b) left state'
    some (barrier_root sha256 p b state' ∷ rest)

  unfoldable pub run_coupled_with_bank : Bytes → List Page → Bytes → Option Bytes
  run_coupled_with_bank sigma pages bank_root = do
    state ← initial_lobes sigma 0 p.lobes
    roots ← run_barriers pages sigma 0 p.barriers state
    some (sha256d sha256 (tag "BTX_RC_COUP_EPISODE_V3" ++ (bank_root ++ flatten roots)))

  unfoldable pub build_coupled_bank_v3 : Bytes → ℕ → Option CoupledBank
  build_coupled_bank_v3 bank_template_hash height = do
    pages ← derive_bank_pages sha256 fuel (bank_root_seed sha256 bank_template_hash height) p
    some (record { pages = pages; bank_root = bank_commitment sha256 pages })

  -- A bank of another shape gives the null digest.
  unfoldable pub compute_coupled_digest_v3_with_bank : Bytes → CoupledBank → Option Bytes
  compute_coupled_digest_v3_with_bank sigma bank =
      if not (length bank.pages == p.bank_pages)
      then some (replicate 32 0)
      else if not (pages_fit p bank.pages)
      then some (replicate 32 0)
      else run_coupled_with_bank sigma bank.pages bank.bank_root

  unfoldable pub compute_coupled_digest_v3 : Bytes → Bytes → ℕ → Option Bytes
  compute_coupled_digest_v3 sigma bank_template_hash height = do
    bank ← build_coupled_bank_v3 bank_template_hash height
    compute_coupled_digest_v3_with_bank sigma bank
