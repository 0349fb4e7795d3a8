-- ===== src/Rc/Mantissa.antt =====
-- core/matmul/matmul_v4_rc.cpp: from the nibbles of a key stream to the entries of a tile. `fill_tile` is what one
-- block of the stream does; the stream is in Rc/ChaCha, and the loop over its blocks in Rc/Tile.
pub mod Accepted
pub mod Filled
use btx_miner.Common.{
  ℕ, zero, suc, ◌+◌, ◌-◌, ◌*◌, ◌/◌, ◌%◌, ◌^◌, bit_xor, Bool, true, false, not, ◌&&◌, ◌||◌, List, [],
  ◌∷◌, ◌++◌, map, Option, none, some, get_or, ltb, leb, ◌==◌, if◌then◌else◌,
}
use btx_miner.Common.Int.{ℤ, pos, negsuc, ◌*ℤ◌, sub_ℕ, leb_ℤ, to_unsigned}
use btx_miner.Common.Bytes.{le_bytes}

-- The magnitude of a code, and whether it is an integer.
abbrev magnitude : ℕ → ℕ → ℕ
magnitude power man =
    if power == 0
    then 0
    else if power == 1
    then 1
    else if power == 2
    then (if man == 0 then 2 else 3)
    else (if man == 0 then 4 else 6)

abbrev is_integer : ℕ → ℕ → Bool
is_integer power man = ltb 1 power || man == 0

-- The value of an accepted nibble, `none` for one that is rejected: a half-integer or a negative zero.
unfoldable pub m11 : ℕ → Option ℤ
m11 nib =
    let sign = nib / 8 % 2 in
    let power = nib / 2 % 4 in
    let man = nib % 2 in
    let mag = magnitude power man in
    if not (is_integer power man) || (sign == 1 && mag == 0)
    then none
    else some (if sign == 1 then sub_ℕ 0 mag else pos mag)

-- A 64-bit value as the 32 bits that are mixed in.
unfoldable pub mix_bits_from_i64 : ℤ → ℕ
mix_bits_from_i64 y =
    let u = to_unsigned (2 ^ 64) y in
    if leb_ℤ (negsuc (2 ^ 31 - 1)) y && leb_ℤ y (pos (2 ^ 31 - 1))
    then to_unsigned (2 ^ 32) y
    else bit_xor (u % 2 ^ 32) (u / 2 ^ 32 % 2 ^ 32)

-- The four bits that a cell's raw value is mixed in with: `u8((raw_u * 0x9E3779B9u) >> 28)`.
abbrev pub raw_nibble : ℤ → ℕ
raw_nibble raw = mix_bits_from_i64 raw * 2654435769 % 2 ^ 32 / 2 ^ 28

-- `(nibble ^ ...) & 0x0F`.
abbrev pub mixed_nibble : ℕ → ℕ → ℕ
mixed_nibble nibble mixer = bit_xor nibble mixer % 16

-- What becomes of one nibble: rejected, or placed in front of what the rest fills.
abbrev pub place : Option ℤ → List ℤ × List ℤ → List ℤ × List ℤ → List ℤ × List ℤ
place none skipped filled = skipped
place (some v) skipped filled = (v ∷ filled.0, filled.1)

-- The loop over the nibbles of a block: the values for the first cells, and the cells that still
-- want one.
unfoldable pub fill_tile : List ℕ → List ℤ → List ℤ × List ℤ
fill_tile [] raw = ([], raw)
fill_tile (n ∷ ns) [] = ([], [])
fill_tile (n ∷ ns) (r ∷ raw) =
    place (m11 (mixed_nibble n (raw_nibble r))) (fill_tile ns (r ∷ raw)) (fill_tile ns raw)

-- The two nibbles of each byte, the low one first.
abbrev pub nibbles : List ℕ → List ℕ
nibbles [] = []
nibbles (b ∷ ks) = b % 16 ∷ (b / 16 % 16 ∷ nibbles ks)

-- `kMxScaleTag`, "BTX_MATEXPAND_MXSCALE_V44LT".
abbrev mx_scale_tag : List ℕ
mx_scale_tag =
    66 ∷ 84 ∷ 88 ∷ 95 ∷ 77 ∷ 65 ∷ 84 ∷ 69 ∷ 88 ∷ 80 ∷ 65 ∷ 78 ∷ 68 ∷ 95 ∷ 77 ∷ 88 ∷ 83 ∷ 67 ∷ 65
    ∷ 76 ∷ 69 ∷ 95 ∷ 86 ∷ 52 ∷ 52 ∷ 76 ∷ 84 ∷ []

-- The low two bits of the first byte of the hash.
unfoldable pub derive_mx_scale : (List ℕ → List ℕ) → List ℕ → ℕ → ℕ → ℕ
derive_mx_scale sha256 prf i bj =
    get_or (sha256 (mx_scale_tag ++ (prf ++ (le_bytes 4 i ++ le_bytes 4 bj)))) 0 0 % 4

-- `out[t] = mu[t] * (1 << e)`.
abbrev pub scale_tile : ℕ → List ℤ → List ℤ
scale_tile e mu = map (λ v. v *ℤ pos (2 ^ e)) mu
