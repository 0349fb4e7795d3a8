-- ===== src/Rc/More.antt =====
-- core/matmul/matmul_v4_rc.cpp: more fuel changes no operand and no tile.
use btx_miner.Common.{
  ℕ, zero, suc, ◌*◌, ◌/◌, ◌≤◌, ◌≡◌, List, [], ◌∷◌, Option, some, take, drop, replicate,
}
use btx_miner.Common.Int.{ℤ, pos}
use btx_miner.Rc.Draw.{draw_more}
use btx_miner.Rc.Expand.{
  Bytes, Matrix, mx_block_len, ◌>>=◌, scale_codes, stream_block, expand_mantissa_stream,
  expand_scale_stream, expand_mx_dequant_i8,
}
use btx_miner.Rc.Mantissa.{m11, nibbles}
use btx_miner.Rc.Tile.{extract_mx_tile_i64, extract_row, extract_mx_matrix_i64}
use btx_miner.Rc.Tile.Stream.{extract_tile_mantissas-eq-fill_tile}
use btx_miner.Rc.Tile.Within.{>>=-some}

-- The second gives what the first gives, where that gives anything.
abbrev pub Extends {ℓ} : {A : Type ℓ} → Option A → Option A → Type ℓ
Extends {A} o o' = (x : A) → o ≡ some x → o' ≡ some x

pub >>=-Extends {ℓ κ} :
    {A : Type ℓ} {B : Type κ} (o o' : Option A) (f f' : A → Option B)
    → Extends o o'
    → ((a : A) → Extends (f a) (f' a))
    → Extends (o >>= f) (o' >>= f')
>>=-Extends o o' f f' h k b e = let (a, e1, e2) = >>=-some o f e in rw (h a e1) (k a b e2)

pub Extends-refl {ℓ} : {A : Type ℓ} (o : Option A) → Extends o o
Extends-refl o x e = e

module _ (sha256 : Bytes → Bytes) (fuel more : ℕ) (h : fuel ≤ more) where
  expand_mantissa_stream-Extends :
      (seed : Bytes) (count : ℕ)
      → Extends
          (expand_mantissa_stream sha256 fuel seed count)
          (expand_mantissa_stream sha256 more seed count)
  unfolding expand_mantissa_stream
  expand_mantissa_stream-Extends seed count mu e =
      draw_more m11 (λ b. nibbles (stream_block sha256 109 seed b)) fuel more 0 count h e

  expand_scale_stream-Extends :
      (seed : Bytes) (count : ℕ)
      → Extends
          (expand_scale_stream sha256 fuel seed count)
          (expand_scale_stream sha256 more seed count)
  unfolding expand_scale_stream
  expand_scale_stream-Extends seed count scales e =
      draw_more (λ c. some c) (λ b. scale_codes (stream_block sha256 101 seed b)) fuel more 0 count
        h e

  pub expand_mx_dequant_i8-Extends :
      (seed : Bytes) (rows cols : ℕ)
      → Extends
          (expand_mx_dequant_i8 sha256 fuel seed rows cols)
          (expand_mx_dequant_i8 sha256 more seed rows cols)
  unfolding expand_mx_dequant_i8
  expand_mx_dequant_i8-Extends seed rows cols =
      >>=-Extends _ _ _ _ (expand_mantissa_stream-Extends seed (rows * cols)) (λ mu.
        >>=-Extends _ _ _ _ (expand_scale_stream-Extends seed (rows * (cols / mx_block_len)))
          (λ scales. Extends-refl _))

  pub extract_mx_tile_i64-Extends :
      (prf : Bytes) (i bj : ℕ) (raw : List ℤ)
      → Extends
          (extract_mx_tile_i64 sha256 fuel prf i bj raw)
          (extract_mx_tile_i64 sha256 more prf i bj raw)
  unfolding extract_mx_tile_i64
  extract_mx_tile_i64-Extends prf i bj raw =
      >>=-Extends _ _ _ _
        (λ mu e. (extract_tile_mantissas-eq-fill_tile fuel prf i bj raw).1 more mu h e)
        (λ mu. Extends-refl _)

  pub extract_row-Extends :
      (prf : Bytes) (i bj tiles : ℕ) (raw out : List ℤ)
      → Extends
          (extract_row sha256 fuel prf i bj tiles raw out)
          (extract_row sha256 more prf i bj tiles raw out)
  unfolding extract_row
  extract_row-Extends prf i bj zero raw out = Extends-refl _
  extract_row-Extends prf i bj (suc tiles) raw out =
      >>=-Extends _ _ _ _ (extract_mx_tile_i64-Extends prf i bj (take mx_block_len raw)) (λ tile.
        >>=-Extends _ _ _ _
          (extract_row-Extends prf i (suc bj) tiles (drop mx_block_len raw) (drop mx_block_len out))
          (λ rest. Extends-refl _))

  pub extract_mx_matrix_i64-Extends :
      (prf : Bytes) (i cols : ℕ) (ys : Matrix)
      → Extends
          (extract_mx_matrix_i64 sha256 fuel prf i cols ys)
          (extract_mx_matrix_i64 sha256 more prf i cols ys)
  unfolding extract_mx_matrix_i64
  extract_mx_matrix_i64-Extends prf i cols [] = Extends-refl _
  extract_mx_matrix_i64-Extends prf i cols (y ∷ ys) =
      >>=-Extends _ _ _ _
        (extract_row-Extends prf i 0 (cols / mx_block_len) y (replicate cols (pos 0)))
        (λ row.
          >>=-Extends _ _ _ _ (extract_mx_matrix_i64-Extends prf (suc i) cols ys)
            (λ rows. Extends-refl _))
