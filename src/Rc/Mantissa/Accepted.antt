-- ===== src/Rc/Mantissa/Accepted.antt =====
-- core/matmul/matmul_v4_rc.cpp: the table of accepted nibbles.
use btx_miner.Common.{ℕ, zero, suc, ◌+◌, ◌≤◌, ◌<◌, ◌≡◌, refl, Option, none, some, arith}
use btx_miner.Common.Int.{ℤ}
use btx_miner.Rc.Gemm.Dot.{size}
use btx_miner.Rc.Mantissa.{m11, raw_nibble, mixed_nibble}

pub m11-size : (nib : ℕ) (v : ℤ) → m11 nib ≡ some v → size v ≤ 6
unfolding m11
m11-size nib v h = ground arith

abbrev is_accepted : Option ℤ → ℕ
is_accepted none = 0
is_accepted (some v) = 1

-- How many of the nibbles below `n` are accepted once they are mixed.
abbrev pub accepted_below : ℕ → ℕ → ℕ
accepted_below mixer zero = 0
accepted_below mixer (suc n) = is_accepted (m11 (mixed_nibble n mixer)) + accepted_below mixer n

raw_nibble_lt : (raw : ℤ) → raw_nibble raw < 16
raw_nibble_lt raw = omega arith

eleven_of_sixteen : (mixer : ℕ) → mixer < 16 → accepted_below mixer 16 ≡ 11
unfolding m11
eleven_of_sixteen zero h = refl
eleven_of_sixteen (suc zero) h = refl
eleven_of_sixteen (suc (suc zero)) h = refl
eleven_of_sixteen (suc (suc (suc zero))) h = refl
eleven_of_sixteen (suc (suc (suc (suc zero)))) h = refl
eleven_of_sixteen (suc (suc (suc (suc (suc zero))))) h = refl
eleven_of_sixteen (suc (suc (suc (suc (suc (suc zero)))))) h = refl
eleven_of_sixteen (suc (suc (suc (suc (suc (suc (suc zero))))))) h = refl
eleven_of_sixteen (suc (suc (suc (suc (suc (suc (suc (suc zero)))))))) h = refl
eleven_of_sixteen (suc (suc (suc (suc (suc (suc (suc (suc (suc zero))))))))) h = refl
eleven_of_sixteen (suc (suc (suc (suc (suc (suc (suc (suc (suc (suc zero)))))))))) h = refl
eleven_of_sixteen (suc (suc (suc (suc (suc (suc (suc (suc (suc (suc (suc zero))))))))))) h = refl
eleven_of_sixteen (suc (suc (suc (suc (suc (suc (suc (suc (suc (suc (suc (suc zero)))))))))))) h =
    refl
eleven_of_sixteen (suc (suc (suc (suc (suc (suc (suc (suc (suc (suc (suc (suc (suc zero)))))))))))))
      h =
    refl
eleven_of_sixteen
      (suc (suc (suc (suc (suc (suc (suc (suc (suc (suc (suc (suc (suc (suc zero)))))))))))))) h =
    refl
eleven_of_sixteen
      (suc (suc (suc (suc (suc (suc (suc (suc (suc (suc (suc (suc (suc (suc (suc zero)))))))))))))))
      h =
    refl
eleven_of_sixteen
      (suc
        (suc (suc (suc (suc (suc (suc (suc (suc (suc (suc (suc (suc (suc (suc (suc m))))))))))))))))
      h =
    absurd (omega arith)

-- Whatever the raw value of a cell, exactly eleven of the sixteen nibbles are accepted once they are mixed with it,
-- and each of them for a value of at most 6 in size: the data decide which nibbles pass, and never how
-- many.
pub m11-accepted :
    (raw : ℤ)
    → (accepted_below (raw_nibble raw) 16 ≡ 11)
      × ((nib : ℕ) (v : ℤ) → m11 (mixed_nibble nib (raw_nibble raw)) ≡ some v → size v ≤ 6)
m11-accepted raw =
    (eleven_of_sixteen (raw_nibble raw) (raw_nibble_lt raw), λ nib v h. m11-size _ v h)
