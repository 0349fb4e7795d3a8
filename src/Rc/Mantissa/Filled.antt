-- ===== src/Rc/Mantissa/Filled.antt =====
-- core/matmul/matmul_v4_rc.cpp: the entries of a tile.
use btx_miner.Common.{
  ℕ, zero, suc, ◌^◌, ◌≤◌, ◌<◌, ◌≡◌, refl, List, [], ◌∷◌, length, drop, Option, none, some, arith,
}
use btx_miner.Common.Int.{ℤ, pos}
use btx_miner.Rc.Gemm.Dot.{AreWithin, size-*ℤ}
use btx_miner.Rc.Mantissa.{
  m11, raw_nibble, mixed_nibble, place, fill_tile, derive_mx_scale, scale_tile,
}
use btx_miner.Rc.Mantissa.Accepted.{m11-size}

-- Each value is that of a nibble that is accepted for its cell.
abbrev pub Fits : List ℤ → List ℤ → Type 0
Fits [] raw = 0 ≤ 0
Fits (v ∷ mu) [] = 1 ≤ 0
Fits (v ∷ mu) (r ∷ raw) =
    ((nib : ℕ) × (m11 (mixed_nibble nib (raw_nibble r)) ≡ some v)) × Fits mu raw

abbrev Filled : List ℤ → List ℤ × List ℤ → Type 0
Filled raw out = Fits out.0 raw × (drop (length out.0) raw ≡ out.1) × AreWithin 6 out.0

place-Filled :
    (o : Option ℤ) (n : ℕ) (r : ℤ) (raw : List ℤ) (skipped filled : List ℤ × List ℤ)
    → m11 (mixed_nibble n (raw_nibble r)) ≡ o
    → Filled (r ∷ raw) skipped
    → Filled raw filled
    → Filled (r ∷ raw) (place o skipped filled)
place-Filled none n r raw skipped filled e h k = h
place-Filled (some v) n r raw skipped filled e h (fits, rest, small) =
    (((n, e), fits), rest, (m11-size _ v e, small))

fill_tile-Filled : (ns : List ℕ) (raw : List ℤ) → Filled raw (fill_tile ns raw)
unfolding fill_tile
fill_tile-Filled [] raw = (omega arith, refl, omega arith)
fill_tile-Filled (n ∷ ns) [] = (omega arith, refl, omega arith)
fill_tile-Filled (n ∷ ns) (r ∷ raw) =
    place-Filled _ n r raw (fill_tile ns (r ∷ raw)) (fill_tile ns raw) refl
      (fill_tile-Filled ns (r ∷ raw)) (fill_tile-Filled ns raw)

pub scale_le : (e : ℕ) → e < 4 → 2 ^ e ≤ 8
scale_le zero h = omega arith
scale_le (suc zero) h = omega arith
scale_le (suc (suc zero)) h = omega arith
scale_le (suc (suc (suc zero))) h = omega arith
scale_le (suc (suc (suc (suc e)))) h = absurd (omega arith)

scale_tile-AreWithin :
    (e : ℕ) (mu : List ℤ) → e < 4 → AreWithin 6 mu → AreWithin 48 (scale_tile e mu)
scale_tile-AreWithin e [] h k = omega arith
scale_tile-AreWithin e (v ∷ mu) h k =
    (size-*ℤ 6 8 v (pos (2 ^ e)) k.0 (omega (arith, scale_le e h)), scale_tile-AreWithin e mu h k.1)

-- A block of nibbles fills the first cells of a tile, in order and without a gap: each value is that
-- of a nibble accepted for its own cell, the cells left are the ones after them, and scaled by the
-- tile's exponent every entry is at most 48 in size, whatever SHA-256 returns.
pub fill_tile-bounds :
    (sha256 : List ℕ → List ℕ) (prf : List ℕ) (i bj : ℕ) (ns : List ℕ) (raw : List ℤ)
    → let (mu, rest) = fill_tile ns raw in
      Fits mu raw
      × (drop (length mu) raw ≡ rest)
      × AreWithin 48 (scale_tile (derive_mx_scale sha256 prf i bj) mu)
unfolding derive_mx_scale
fill_tile-bounds sha256 prf i bj ns raw =
    let (fits, rest, small) = fill_tile-Filled ns raw in
    (fits, rest, scale_tile-AreWithin _ (fill_tile ns raw).0 (omega arith) small)
