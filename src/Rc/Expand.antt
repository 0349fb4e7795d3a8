-- ===== src/Rc/Expand.antt =====
-- core/matmul/matmul_v4_rc.cpp: the operands that a seed expands to, and the hashes under a tag that key them.
-- A matrix is the list of its rows. `none` says that the hash blocks drawn, `fuel` at most for each
-- stream, do not hold enough accepted values; the source draws on.
pub mod Shape
use Prim.Native.Char.{code}
use Prim.Native.String.{String}
use mathlib.Core.List.{reverse}
use btx_miner.Common.{
  ℕ, zero, suc, ◌+◌, ◌*◌, ◌/◌, ◌%◌, ◌^◌, List, [], ◌∷◌, ◌++◌, Option, none, some, get_or,
}
use btx_miner.Common.Int.{ℤ, pos, ◌*ℤ◌}
use btx_miner.Common.Bytes.{le_bytes}
use btx_miner.Rc.Mantissa.{m11, nibbles}
use btx_miner.Rc.Draw.{draw}

abbrev pub Bytes : Type 0
Bytes = List ℕ

-- The characters of a tag, without the terminator.
abbrev pub tag : String → Bytes
tag String.[] = []
tag (String.◌∷◌ c s) = code c ∷ tag s

infixl 5 ◌>>=◌
abbrev pub ◌>>=◌ {ℓ κ} : {A : Type ℓ} {B : Type κ} → Option A → (A → Option B) → Option B
none >>= f = none
some a >>= f = f a

abbrev pub tabulate {ℓ} : {A : Type ℓ} → ℕ → ℕ → (ℕ → A) → List A
tabulate from zero f = []
tabulate from (suc n) f = f from ∷ tabulate (suc from) n f

abbrev pub Matrix : Type 0
Matrix = List (List ℤ)

abbrev pub mx_block_len : ℕ
mx_block_len = 32

-- The four codes of two bits in each byte, from the low end.
abbrev pub scale_codes : Bytes → List ℕ
scale_codes [] = []
scale_codes (b ∷ bs) = b % 4 ∷ (b / 4 % 4 ∷ (b / 16 % 4 ∷ (b / 64 % 4 ∷ scale_codes bs)))

-- `mu[idx] * (1 << scales[i * nblk + j / 32])`.
abbrev pub dequant_entry : List ℤ → List ℕ → ℕ → ℕ → ℕ → ℤ
dequant_entry mu scales cols i j =
    get_or mu (i * cols + j) (pos 0)
    *ℤ pos (2 ^ get_or scales (i * (cols / mx_block_len) + j / mx_block_len) 0)

abbrev pub dequant : ℕ → ℕ → List ℤ → List ℕ → Matrix
dequant rows cols mu scales =
    tabulate 0 rows (λ i. tabulate 0 cols (λ j. dequant_entry mu scales cols i j))

module _ (sha256 : Bytes → Bytes) where
  -- The block of a stream: the seed from its end, the domain, and the number of the block.
  abbrev pub stream_block : ℕ → Bytes → ℕ → Bytes
  stream_block domain seed block = sha256 (reverse seed ++ domain ∷ le_bytes 8 block)

  -- The domains are 'm' and 'e'. The mantissas are drawn by rejection, the scales are all accepted.
  unfoldable pub expand_mantissa_stream : ℕ → Bytes → ℕ → Option (List ℤ)
  expand_mantissa_stream fuel seed count =
      draw m11 (λ block. nibbles (stream_block 109 seed block)) fuel 0 count

  unfoldable pub expand_scale_stream : ℕ → Bytes → ℕ → Option (List ℕ)
  expand_scale_stream fuel seed count =
      draw (λ c. some c) (λ block. scale_codes (stream_block 101 seed block)) fuel 0 count

  unfoldable pub expand_mx_dequant_i8 : ℕ → Bytes → ℕ → ℕ → Option Matrix
  expand_mx_dequant_i8 fuel seed rows cols = do
    mu ← expand_mantissa_stream fuel seed (rows * cols)
    scales ← expand_scale_stream fuel seed (rows * (cols / mx_block_len))
    some (dequant rows cols mu scales)

  abbrev pub sha256_tagged : Bytes → Bytes → Bytes
  sha256_tagged t d = sha256 (t ++ d)

  abbrev pub derive_operand_seed : Bytes → Bytes → Bytes
  derive_operand_seed seed_r t = sha256_tagged t seed_r

  abbrev pub tagged_u32 : Bytes → Bytes → ℕ → Bytes
  tagged_u32 t a x = sha256_tagged t (a ++ le_bytes 4 x)

  abbrev pub derive_prf_key : Bytes → Bytes
  derive_prf_key seed = sha256_tagged (tag "BTX_MATEXPAND_MXPRF_V44LT") seed
