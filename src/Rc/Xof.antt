-- ===== src/Rc/Xof.antt =====
-- core/matmul/matmul_v4_rc_coupled.cpp: the stream of 32-bit words that a seed gives, `ShaXof`. SHA-256 is a
-- parameter from bytes to the 32 bytes of the hash.
pub mod Words
use btx_miner.Common.{
  ℕ, zero, suc, ◌+◌, ◌*◌, ◌%◌, ◌/◌, ◌^◌, List, [], ◌∷◌, ◌++◌, get_or, ltb, if◌then◌else◌,
}
use btx_miner.Common.Bytes.{le_bytes}

pub record ShaXof : Type 0 where
  pub seed : List ℕ
  pub ctr : ℕ
  pub offset : ℕ
  pub blk : List ℕ

-- The constructor: `pos` starts at the end of a block that was not computed yet.
abbrev pub sha_xof : List ℕ → ShaXof
sha_xof seed = record { seed = seed; ctr = 0; offset = 32; blk = [] }

-- The four bytes from an offset on, as a little-endian word.
unfoldable pub word_at : List ℕ → ℕ → ℕ
word_at blk i =
    get_or blk i 0
    + get_or blk (i + 1) 0 * 2 ^ 8
    + get_or blk (i + 2) 0 * 2 ^ 16
    + get_or blk (i + 3) 0 * 2 ^ 24

module _ (sha256 : List ℕ → List ℕ) where
  -- `ctr` is a `uint32_t`, and wraps.
  unfoldable pub refill : ShaXof → ShaXof
  refill x = record x {
    blk = sha256 (x.seed ++ le_bytes 4 x.ctr);
    ctr = (x.ctr + 1) % 2 ^ 32;
    offset = 0;
  }

  -- `if (pos + 4 > 32) refill();`
  abbrev pub ready : ShaXof → ShaXof
  ready x = if ltb 32 (x.offset + 4) then refill x else x

  unfoldable pub next : ShaXof → ℕ × ShaXof
  next x = let y = ready x in (word_at y.blk y.offset, record y { offset = y.offset + 4 })

  -- The state after so many words.
  unfoldable pub skip : ℕ → ShaXof → ShaXof
  skip zero x = x
  skip (suc n) x = skip n (next x).1
