-- ===== src/Rc/Tile.antt =====
-- core/matmul/matmul_v4_rc.cpp: from sums to the entries of a matrix, a tile of 32 at a time. A tile draws blocks
-- of its key stream until each of its cells has an accepted value: `none` says that `fuel` blocks do not
-- do, where the source draws on.
pub mod Stream
pub mod Within
use mathlib.Core.Option
use btx_miner.Common.{
  ℕ, zero, suc, ◌+◌, ◌*◌, ◌/◌, ◌%◌, ◌^◌, bit_or, bit_xor, List, [], ◌∷◌, ◌++◌, Option, none, some,
  take, drop, replicate, length,
}
use btx_miner.Common.Int.{ℤ, pos}
use btx_miner.Rc.Mantissa.{nibbles, fill_tile, derive_mx_scale, scale_tile}
use btx_miner.Rc.ChaCha.{chacha_state, keystream_block}
use btx_miner.Rc.Expand.{Bytes, Matrix, mx_block_len, ◌>>=◌}

-- `kLaneMxBlock`, 'MXBL'.
abbrev lane_mx_block : ℕ
lane_mx_block = 1297629772

-- The nibbles of a tile's block: the tile and the block choose the nonce and the counter.
unfoldable pub tile_nibbles : Bytes → ℕ → ℕ → ℕ → List ℕ
tile_nibbles prf i bj remix =
    nibbles
      (keystream_block (chacha_state prf (bit_xor bj lane_mx_block) (bit_or (i * 2 ^ 32) bj) remix))

-- The loop over the blocks, for the cells that still want a value.
unfoldable pub extract_from : (ℕ → List ℕ) → ℕ → ℕ → List ℤ → Option (List ℤ)
extract_from block_at fuel remix [] = some []
extract_from block_at zero remix (r ∷ raw) = none
extract_from block_at (suc fuel) remix (r ∷ raw) =
    let (mu, rest) = fill_tile (block_at remix) (r ∷ raw) in
    Option.map (λ more. mu ++ more) (extract_from block_at fuel ((remix + 1) % 2 ^ 32) rest)

unfoldable pub extract_tile_mantissas : ℕ → Bytes → ℕ → ℕ → List ℤ → Option (List ℤ)
extract_tile_mantissas fuel prf i bj raw = extract_from (tile_nibbles prf i bj) fuel 0 raw

module _ (sha256 : Bytes → Bytes) (fuel : ℕ) where
  unfoldable pub extract_mx_tile_i64 : Bytes → ℕ → ℕ → List ℤ → Option (List ℤ)
  extract_mx_tile_i64 prf i bj raw = do
    mu ← extract_tile_mantissas fuel prf i bj raw
    some (scale_tile (derive_mx_scale sha256 prf i bj) mu)

  -- The loop over the tiles of a row, from tile `bj` on; what is past the last whole tile stays as it was.
  unfoldable pub extract_row : Bytes → ℕ → ℕ → ℕ → List ℤ → List ℤ → Option (List ℤ)
  extract_row prf i bj zero raw out = some out
  extract_row prf i bj (suc tiles) raw out = do
    tile ← extract_mx_tile_i64 prf i bj (take mx_block_len raw)
    rest ← extract_row prf i (suc bj) tiles (drop mx_block_len raw) (drop mx_block_len out)
    some (tile ++ rest)

  -- The loop over the rows, from row `i` on, into zeros.
  unfoldable pub extract_mx_matrix_i64 : Bytes → ℕ → ℕ → Matrix → Option Matrix
  extract_mx_matrix_i64 prf i cols [] = some []
  extract_mx_matrix_i64 prf i cols (y ∷ ys) = do
    row ← extract_row prf i 0 (cols / mx_block_len) y (replicate cols (pos 0))
    rows ← extract_mx_matrix_i64 prf (suc i) cols ys
    some (row ∷ rows)
