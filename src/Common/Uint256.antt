-- ===== src/Common/Uint256.antt =====
-- The arithmetic of `arith_uint256` (core/vendor/arith_uint256.h, a copy of Bitcoin Core's class) as
-- natural numbers below 2 ^ 256 with the wrap-around written out, and of `uint32_t` and `uint64_t`.
use btx_miner.Common.{ℕ, ◌+◌, ◌-◌, ◌*◌, ◌/◌, ◌%◌, ◌^◌}

abbrev pub uint256_mod : ℕ
uint256_mod = 2 ^ 256

-- `~arith_uint256{}`.
abbrev pub max_uint : ℕ
max_uint = 2 ^ 256 - 1

abbrev pub uint32_max : ℕ
uint32_max = 2 ^ 32 - 1

abbrev pub add256 : ℕ → ℕ → ℕ
add256 a b = (a + b) % uint256_mod

abbrev pub sub256 : ℕ → ℕ → ℕ
sub256 a b = (a + uint256_mod - b) % uint256_mod

abbrev pub mul256 : ℕ → ℕ → ℕ
mul256 a b = (a * b) % uint256_mod

-- `<<` and `>>` by a number of bits.
abbrev pub shl256 : ℕ → ℕ → ℕ
shl256 a k = (a * 2 ^ k) % uint256_mod

abbrev pub shr256 : ℕ → ℕ → ℕ
shr256 a k = a / 2 ^ k
