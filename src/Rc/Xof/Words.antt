-- ===== src/Rc/Xof/Words.antt =====
-- core/matmul/matmul_v4_rc_coupled.cpp: the words of a stream, read at random.
use btx_miner.Common.{
  ℕ, zero, suc, ◌+◌, ◌*◌, ◌%◌, ◌/◌, ◌^◌, ◌≤◌, ◌<◌, ◌≡◌, refl, ap, ◌∙◌, List, ◌++◌, arith, ap₂, ◌-◌,
  ◌⊎◌, inl, inr,
}
use btx_miner.Common.Bytes.{le_bytes}
use btx_miner.Rc.Xof.{ShaXof, sha_xof, word_at, ready, refill, next, skip}

inside_or_end : (j : ℕ) → j ≤ 8 → (j < 8) ⊎ (j ≡ 8)
inside_or_end j h = ground arith

module _ (sha256 : List ℕ → List ℕ) (seed : List ℕ) where
  -- The block with this number.
  abbrev pub block_at : ℕ → List ℕ
  block_at n = sha256 (seed ++ le_bytes 4 n)

  -- `c` blocks and `j` words of the last of them were read.
  abbrev at : ℕ → ℕ → ShaXof
  at c j = record { seed = seed; ctr = suc c; offset = 4 * j; blk = block_at c }

  abbrev read : ShaXof → ℕ × ShaXof
  read y = (word_at y.blk y.offset, record y { offset = y.offset + 4 })

  ready_same : (x : ShaXof) → x.offset + 4 ≤ 32 → ready sha256 x ≡ x
  ready_same x h = ground arith

  ready-refill : (x : ShaXof) → 32 < x.offset + 4 → ready sha256 x ≡ refill sha256 x
  ready-refill x h = ground arith

  next_in_block :
      (c j : ℕ) → j < 8 → next sha256 (at c j) ≡ (word_at (block_at c) (4 * j), at c (suc j))
  unfolding next
  next_in_block c j h =
      ap read (ready_same (at c j) (omega arith))
      ∙ ap (λ i. (word_at (block_at c) (4 * j), record (at c j) { offset = i })) (omega arith)

  next_block :
      (c : ℕ)
      → suc (suc c) < 2 ^ 32
      → next sha256 (at c 8) ≡ (word_at (block_at (suc c)) 0, at (suc c) 1)
  unfolding next refill
  next_block c h =
      ap read (ready-refill (at c 8) (omega arith))
      ∙ ap (λ i. (word_at (block_at (suc c)) 0, record (at (suc c) 1) { ctr = i })) (omega arith)

  next_first : next sha256 (sha_xof seed) ≡ (word_at (block_at 0) 0, at 0 1)
  unfolding next refill
  next_first = refl

  -- The word with this number: eight stand in a block.
  abbrev pub word_no : ℕ → ℕ
  word_no p = word_at (block_at (p / 8)) (4 * (p % 8))

  word_in : (p c j : ℕ) → p ≡ 8 * c + j → j < 8 → word_at (block_at c) (4 * j) ≡ word_no p
  word_in p c j e h =
      let q : c ≡ p / 8 = omega arith in
      let r : j ≡ p % 8 = omega arith in ap₂ (λ a b. word_at (block_at a) (4 * b)) q r

  walk :
      (n c j : ℕ)
      → 1 ≤ j
      → j ≤ 8
      → 8 * c + j + n < 8 * (2 ^ 32 - 1)
      → (next sha256 (skip sha256 n (at c j))).0 ≡ word_no (8 * c + j + n)
  unfolding skip
  walk zero c j a b h = elim (inside_or_end j b) [
    | inl l ↦ ap (λ p. p.0) (next_in_block c j l) ∙ word_in _ c j (omega arith) l
    | inr e ↦
        ap (λ i. (next sha256 (at c i)).0) e
        ∙ ap (λ p. p.0) (next_block c (omega arith))
        ∙ word_in _ (suc c) 0 (omega arith) (omega arith)
  ]
  walk (suc n) c j a b h = elim (inside_or_end j b) [
    | inl l ↦
        ap (λ p. (next sha256 (skip sha256 n p.1)).0) (next_in_block c j l)
        ∙ walk n c (suc j) (omega arith) (omega arith) (omega arith)
        ∙ ap word_no (omega arith)
    | inr e ↦
        ap (λ i. (next sha256 (skip sha256 n (next sha256 (at c i)).1)).0) e
        ∙ ap (λ p. (next sha256 (skip sha256 n p.1)).0) (next_block c (omega arith))
        ∙ walk n (suc c) 1 (omega arith) (omega arith) (omega arith)
        ∙ ap word_no (omega arith)
  ]

-- The word with number `n` that a fresh stream hands out, one after the other, is word `n % 8` of the SHA-256
-- of the seed and the counter `n / 8`, until the 32-bit counter would wrap.
pub skip-next :
    (sha256 : List ℕ → List ℕ) (seed : List ℕ) (n : ℕ)
    → n < 8 * (2 ^ 32 - 1)
    → (next sha256 (skip sha256 n (sha_xof seed))).0 ≡ word_no sha256 seed n
unfolding skip
skip-next sha256 seed zero h = ap (λ p. p.0) (next_first sha256 seed)
skip-next sha256 seed (suc n) h =
    ap (λ p. (next sha256 (skip sha256 n p.1)).0) (next_first sha256 seed)
    ∙ walk sha256 seed n 0 1 (omega arith) (omega arith) (omega arith)
    ∙ ap (word_no sha256 seed) (omega arith)
