-- ===== src/Rc/Episode/Recall.antt =====
-- core/matmul/matmul_v4_rc.cpp: the recall of a round. A query scores the keys, a tile of scores at a time, and
-- sums the values by their scores; the sum is carried over at the ends of segments of positions.
pub mod Segments
use btx_miner.Common.{
  ℕ, zero, suc, ◌+◌, ◌*◌, ◌/◌, List, [], ◌∷◌, map, Option, none, some, take, drop, replicate, ◌==◌,
  if◌then◌else◌,
}
use btx_miner.Common.Int.{ℤ, pos, ◌+ℤ◌, ◌*ℤ◌}
use btx_miner.Rc.Gemm.{add_scaled, add_rows}
use btx_miner.Rc.Expand.{Bytes, Matrix, mx_block_len, ◌>>=◌}
use btx_miner.Rc.Tile.{extract_mx_tile_i64, extract_row}

-- `kSegLen`.
abbrev pub seg_len : ℕ
seg_len = 32768

pub record Sums : Type 0 where
  pub cur_seg : ℕ
  pub seg_row : List ℤ
  pub acc_z : List ℤ

abbrev pub zeros : ℕ → List ℤ
zeros n = replicate n (pos 0)

abbrev pub no_sums : ℕ → Sums
no_sums d_head = record { cur_seg = 0; seg_row = zeros d_head; acc_z = zeros d_head }

-- `acc += q[d] * k[d]`.
unfoldable pub score : ℤ → List ℤ → List ℤ → ℤ
score acc [] k = acc
score acc (x ∷ q) [] = acc
score acc (x ∷ q) (y ∷ k) = score (acc +ℤ x *ℤ y) q k

-- A position in another segment first carries the sum of the last one over.
abbrev pub enter_segment : ℕ → ℕ → Sums → Sums
enter_segment d_head seg st =
    if seg == st.cur_seg
    then st
    else record { cur_seg = seg; seg_row = zeros d_head; acc_z = add_rows st.acc_z st.seg_row }

-- One position: its value is added by its score.
abbrev pub recall_cell : ℕ → ℕ → ℤ → List ℤ → Sums → Sums
recall_cell d_head tt s v st =
    let st' = enter_segment d_head (tt / seg_len) st in
    record st' { seg_row = add_scaled s v st'.seg_row }

-- The positions of a tile, from `tt` on.
unfoldable pub recall_cells : ℕ → ℕ → List ℤ → Matrix → Sums → Sums
recall_cells d_head tt [] vs st = st
recall_cells d_head tt (s ∷ ss) [] st = st
recall_cells d_head tt (s ∷ ss) (v ∷ vs) st =
    recall_cells d_head (suc tt) ss vs (recall_cell d_head tt s v st)

module _ (sha256 : Bytes → Bytes) (fuel : ℕ) (prf_s prf_z : Bytes) (d_head : ℕ) where
  -- The tiles from `bj` on, at position `t0`.
  unfoldable pub recall_tiles : ℕ → ℕ → ℕ → ℕ → List ℤ → Matrix → Matrix → Sums → Option Sums
  recall_tiles i bj t0 zero q k v st = some st
  recall_tiles i bj t0 (suc tiles) q k v st = do
    s ← extract_mx_tile_i64 sha256 fuel prf_s i bj (map (score (pos 0) q) (take mx_block_len k))
    recall_tiles i (suc bj) (t0 + mx_block_len) tiles q (drop mx_block_len k) (drop mx_block_len v)
        (recall_cells d_head t0 s (take mx_block_len v) st)

  unfoldable pub recall_row : ℕ → ℕ → Matrix → Matrix → List ℤ → Option (List ℤ)
  recall_row tiles i k v q = do
    st ← recall_tiles i 0 0 tiles q k v (no_sums d_head)
    extract_row sha256 fuel prf_z i 0 (d_head / mx_block_len) (add_rows st.acc_z st.seg_row)
        (zeros d_head)

  -- The queries from `i` on.
  unfoldable pub recall_rows : ℕ → Matrix → Matrix → ℕ → Matrix → Option Matrix
  recall_rows tiles k v i [] = some []
  recall_rows tiles k v i (q ∷ qs) = do
    z ← recall_row tiles i k v q
    rest ← recall_rows tiles k v (suc i) qs
    some (z ∷ rest)
