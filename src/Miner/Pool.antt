-- ===== src/Miner/Pool.antt =====
-- miner/poolcore.h: how a job's header reaches the solver, as a text of hexadecimal digits. A buffer that the code
-- leaves half written when it returns false is not kept: the result is `none` then.
pub mod Template
use btx_miner.Common.{
  ℕ, zero, suc, ◌+◌, ◌-◌, ◌*◌, ◌/◌, ◌%◌, ◌^◌, Bool, true, false, ◌&&◌, List, [], ◌∷◌, ◌++◌, length,
  take, drop, Option, none, some, leb, ◌==◌, if◌then◌else◌,
}
use btx_miner.Solve.Header.{Header}

-- The value of a digit of either case.
unfoldable pub hex_digit : ℕ → Option ℕ
hex_digit c =
    if leb 48 c && leb c 57
    then some (c - 48)
    else if leb 97 c && leb c 102
    then some (c - 97 + 10)
    else if leb 65 c && leb c 70
    then some (c - 65 + 10)
    else none

-- One turn of the loop: a byte in front of the rest, unless a digit is none.
abbrev pub join_byte : Option ℕ → Option ℕ → Option (List ℕ) → Option (List ℕ)
join_byte (some hi) (some lo) (some rest) = some ((hi * 16 + lo) ∷ rest)
join_byte _ _ _ = none

unfoldable pub hex_pairs : List ℕ → Option (List ℕ)
hex_pairs [] = some []
hex_pairs (c ∷ []) = none
hex_pairs (hi ∷ (lo ∷ h)) = join_byte (hex_digit hi) (hex_digit lo) (hex_pairs h)

unfoldable pub pc_hex_to_bytes : List ℕ → ℕ → Option (List ℕ)
pc_hex_to_bytes h n = if length h == n * 2 then hex_pairs h else none

-- The number in so many bytes, the low one first.
unfoldable pub le_value : List ℕ → ℕ
le_value [] = 0
le_value (b ∷ bs) = b + 256 * le_value bs

abbrev pub word_of : List ℕ → ℕ → ℕ → ℕ
word_of raw at n = le_value (take n (drop at raw))

-- The fields that the 80 bytes hold; the others stay as they were.
unfoldable pub header_of_bytes : List ℕ → Header → Header
header_of_bytes raw b = record b {
  version = word_of raw 0 4;
  hash_prev_block = word_of raw 4 32;
  hash_merkle_root = word_of raw 36 32;
  time = word_of raw 68 4;
  bits = word_of raw 72 4;
  nonce = 0;
  nonce64 = 0;
  matmul_digest = 0;
}

abbrev pub from_raw : Option (List ℕ) → Header → Option Header
from_raw none b = none
from_raw (some raw) b = some (header_of_bytes raw b)

unfoldable pub pc_header_from_hex : List ℕ → Header → Option Header
pc_header_from_hex header_hex b = from_raw (pc_hex_to_bytes header_hex 80) b
