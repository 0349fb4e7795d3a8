-- ===== src/Rc/Coupled/Mix.antt =====
-- core/matmul/matmul_v4_rc_coupled.cpp: how a barrier mixes its lanes. A lane is its 64-bit pattern.
use btx_miner.Common.{
  ℕ, zero, suc, ◌+◌, ◌-◌, ◌*◌, ◌/◌, ◌%◌, ◌^◌, bit_and, bit_or, bit_xor, ◌||◌, not, List, [], ◌∷◌,
  ◌++◌, length, get_or, set, ltb, leb, ◌==◌, if◌then◌else◌,
}
use btx_miner.Common.Bytes.{le_bytes}
use btx_miner.Rc.Expand.{Bytes, tag}
use btx_miner.Rc.Merkle.{sha256d}
use btx_miner.Rc.Xof.{ShaXof, sha_xof, next}
use btx_miner.Rc.Shuffle.{iota, shuffle, apply_perm}

abbrev pub Lanes : Type 0
Lanes = List ℕ

-- `u64(a + b)` and `u64(a - b)`.
abbrev pub add64 : ℕ → ℕ → ℕ
add64 a b = (a + b) % 2 ^ 64

abbrev pub sub64 : ℕ → ℕ → ℕ
sub64 a b = (a + 2 ^ 64 - b) % 2 ^ 64

-- `s[pi] = a + b; s[pj] = difference(a, b)`.
abbrev pub butterfly : (ℕ → ℕ → ℕ) → Lanes → ℕ → ℕ → Lanes
butterfly difference s pi pj =
    let a = get_or s pi 0 in let b = get_or s pj 0 in set (set s pi (add64 a b)) pj (difference a b)

-- One stage, from index `i` on; `place` is where an index stands.
unfoldable pub mix_stage : (ℕ → ℕ → ℕ) → (ℕ → ℕ) → ℕ → ℕ → ℕ → Lanes → Lanes
mix_stage difference place stride i zero s = s
mix_stage difference place stride i (suc left) s =
    let j = bit_xor i stride in
    mix_stage difference place stride (suc i) left
      (if leb j i then s else butterfly difference s (place i) (place j))

-- The stages of `mix_ascending` from `stage` on, while `1 << stage` is below `n`; 32 are enough.
unfoldable pub ascend : ℕ → ℕ → ℕ → ℕ → Lanes → Lanes
ascend zero stage mask n s = s
ascend (suc left) stage mask n s =
    let more =
      ascend left (suc stage) mask n (mix_stage sub64 (λ i. bit_xor i mask) (2 ^ stage) 0 n s) in
    if ltb (2 ^ stage) n then more else s

abbrev pub mix_ascending : Lanes → ℕ → ℕ → Lanes
mix_ascending s mask n = ascend 32 0 mask n s

-- `for (u32 t = n; t > 1; t >>= 1) ++bits;`.
unfoldable pub count_bits : ℕ → ℕ → ℕ
count_bits zero t = 0
count_bits (suc left) t = let more = suc (count_bits left (t / 2)) in if ltb 1 t then more else 0

abbrev pub rotl_bits : ℕ → ℕ → ℕ → ℕ → ℕ
rotl_bits bits n x r =
    let k = r % bits in bit_and (bit_or (x * 2 ^ k % 2 ^ 32) (x / 2 ^ (bits - k))) (n - 1)

-- The stages below `stage`, the highest first.
unfoldable pub descend : ℕ → ℕ → ℕ → ℕ → Lanes → Lanes
descend zero bits mask n s = s
descend (suc stage) bits mask n s =
    descend stage bits mask n
      (mix_stage (λ a b. sub64 b a) (λ i. rotl_bits bits n (bit_xor i mask) 3) (2 ^ stage) 0 n s)

unfoldable pub mix_descending : Lanes → ℕ → ℕ → Lanes
mix_descending s mask n =
    if ltb n 2 || not (bit_and n (n - 1) == 0)
    then s
    else descend (count_bits 32 n) (count_bits 32 n) mask n s

module _ (sha256 : Bytes → Bytes) where
  abbrev pub sha_tag_u32u32 : Bytes → Bytes → ℕ → ℕ → Bytes
  sha_tag_u32u32 t a x y = sha256 (t ++ (a ++ (le_bytes 4 x ++ le_bytes 4 y)))

  -- The mask is the first word of the stream; two patterns take turns.
  unfoldable pub all_to_all_mix : Lanes → Bytes → ℕ → ℕ → Lanes
  all_to_all_mix s sigma barrier n =
      let mix_seed = sha_tag_u32u32 (tag "BTX_RC_COUP_MAT_XCHG_V3") sigma barrier 128 in
      let mask = bit_and (next sha256 (sha_xof mix_seed)).0 (n - 1) in
      if barrier % 2 == 0 then mix_ascending s mask n else mix_descending s mask n

  -- The low word first.
  abbrev pub xof_next_u64 : ShaXof → ℕ × ShaXof
  xof_next_u64 x =
      let (lo, y) = next sha256 x in let (hi, z) = next sha256 y in (bit_or lo (hi * 2 ^ 32), z)

  -- `fold ^= u64(v)`.
  unfoldable pub fold_lanes : ℕ → Lanes → ℕ
  fold_lanes fold [] = fold
  fold_lanes fold (v ∷ s) = fold_lanes (bit_xor fold v) s

  unfoldable pub xor_lanes : ShaXof → Lanes → Lanes
  xor_lanes x [] = []
  xor_lanes x (v ∷ s) = let (w, y) = xof_next_u64 x in bit_xor v w ∷ xor_lanes y s

  -- One round: the lanes are folded into a seed, masked by its stream, and permuted by the same stream from
  -- its start.
  unfoldable pub exchange_round : Bytes → ℕ → ℕ → Lanes → Lanes
  exchange_round sigma barrier r s =
      let tail = sigma ++ (le_bytes 4 barrier ++ (le_bytes 4 r ++ le_bytes 8 (fold_lanes 0 s))) in
      let seed = sha256d sha256 (tag "BTX_RC_COUP_MAT_XCHG_ROUNDS_V3" ++ tail) in
      let n = length s in
      apply_perm (xor_lanes (sha_xof seed) s) (shuffle sha256 (n - 1) (iota 0 n) (sha_xof seed))

  -- The rounds from `r` on.
  unfoldable pub material_exchange_rounds : ℕ → ℕ → Bytes → ℕ → Lanes → Lanes
  material_exchange_rounds r zero sigma barrier s = s
  material_exchange_rounds r (suc left) sigma barrier s =
      material_exchange_rounds (suc r) left sigma barrier (exchange_round sigma barrier r s)
