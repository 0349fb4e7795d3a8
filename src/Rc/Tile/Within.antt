-- ===== src/Rc/Tile/Within.antt =====
-- core/matmul/matmul_v4_rc.cpp: what is extracted has the shape of what went in, and fits a byte.
use btx_miner.Common.{
  ℕ, zero, suc, ◌*◌, ◌/◌, ◌≤◌, ◌≡◌, refl, ap, sym, ◌∙◌, List, [], ◌∷◌, ◌++◌, Option, none, some,
  length, take, drop, replicate, length-append, length-take, length-drop, length-replicate,
  length-map, All, subst, arith,
}
use btx_miner.Common.Int.{ℤ, pos}
use btx_miner.Rc.Expand.{Bytes, Matrix, mx_block_len, ◌>>=◌}
use btx_miner.Rc.Gemm.Dot.{AreWithin}
use btx_miner.Rc.Mantissa.{fill_tile, derive_mx_scale, scale_tile}
use btx_miner.Rc.Mantissa.Filled.{Fits, fill_tile-bounds}
use btx_miner.Rc.Tile.{
  tile_nibbles, extract_tile_mantissas, extract_mx_tile_i64, extract_row, extract_mx_matrix_i64,
}
use btx_miner.Rc.Tile.Stream.{key_stream, if_full, extract_tile_mantissas-eq-fill_tile}

-- So long, and with entries of at most 48 in size.
abbrev pub IsRow : ℕ → List ℤ → Type 0
IsRow n xs = (length xs ≡ n) × AreWithin 48 xs

abbrev pub IsMatrix : ℕ → ℕ → Matrix → Type 0
IsMatrix rows cols m = (length m ≡ rows) × All (IsRow cols) m

-- A chain of two steps that gives a value has one at each.
pub >>=-some {ℓ κ} :
    {A : Type ℓ} {B : Type κ} (o : Option A) (f : A → Option B) {b : B}
    → (o >>= f) ≡ some b
    → (a : A) × (o ≡ some a) × (f a ≡ some b)
>>=-some none f h = absurd (ground arith)
>>=-some (some a) f h = (a, refl, h)

Fits-length : (mu raw : List ℤ) → Fits mu raw → length mu ≤ length raw
Fits-length [] raw h = omega arith
Fits-length (v ∷ mu) [] h = absurd (omega arith)
Fits-length (v ∷ mu) (r ∷ raw) h = omega (arith, Fits-length mu raw h.1)

full_length :
    (out : List ℤ × List ℤ) (raw mu : List ℤ)
    → Fits out.0 raw
    → drop (length out.0) raw ≡ out.1
    → if_full out ≡ some mu
    → (out.0 ≡ mu) × (length mu ≡ length raw)
full_length (vs, []) raw mu fits rest e =
    let same : vs ≡ mu = ground arith in
    (
      same,
      omega (
        arith,
        ap length same,
        Fits-length vs raw fits,
        length-drop (length vs) raw,
        ap length rest,
      ),
    )
full_length (vs, r ∷ more) raw mu fits rest e = ground arith

module _ (sha256 : Bytes → Bytes) (fuel : ℕ) (prf : Bytes) where
  pub extract_mx_tile_i64-IsRow :
      (i bj : ℕ) (raw : List ℤ) {out : List ℤ}
      → extract_mx_tile_i64 sha256 fuel prf i bj raw ≡ some out
      → IsRow (length raw) out
  unfolding extract_mx_tile_i64
  extract_mx_tile_i64-IsRow i bj raw {out} h =
      let stream = key_stream (tile_nibbles prf i bj) fuel 0 in
      let filled = fill_tile stream raw in
      let (fits, rest, small) = fill_tile-bounds sha256 prf i bj stream raw in
      let (mu, drawn, e) = >>=-some (extract_tile_mantissas fuel prf i bj raw) _ h in
      let full = sym (extract_tile_mantissas-eq-fill_tile fuel prf i bj raw).0 ∙ drawn in
      let (same, long) = full_length filled raw mu fits rest full in
      let scale = derive_mx_scale sha256 prf i bj in
      let e' : scale_tile scale mu ≡ out = ground arith in
      (
        sym (ap length e') ∙ length-map mu _ ∙ long,
        subst (AreWithin 48) (ap (scale_tile scale) same ∙ e') small,
      )

pub AreWithin-append :
    (n : ℕ) (xs ys : List ℤ) → AreWithin n xs → AreWithin n ys → AreWithin n (xs ++ ys)
AreWithin-append n [] ys h k = k
AreWithin-append n (x ∷ xs) ys h k = (h.0, AreWithin-append n xs ys h.1 k)

AreWithin-drop : (n k : ℕ) (xs : List ℤ) → AreWithin n xs → AreWithin n (drop k xs)
AreWithin-drop n zero xs h = h
AreWithin-drop n (suc k) [] h = omega arith
AreWithin-drop n (suc k) (x ∷ xs) h = AreWithin-drop n k xs h.1

pub zeros-IsRow : (cols : ℕ) → IsRow cols (replicate cols (pos 0))
zeros-IsRow cols = (length-replicate cols (pos 0), within cols)
  where
    within : (n : ℕ) → AreWithin 48 (replicate n (pos 0))
    within zero = omega arith
    within (suc n) = (omega arith, within n)

module _ (sha256 : Bytes → Bytes) (fuel : ℕ) (prf : Bytes) where
  pub extract_row-IsRow :
      (i bj tiles : ℕ) (raw old : List ℤ) {out : List ℤ}
      → tiles * mx_block_len ≤ length raw
      → tiles * mx_block_len ≤ length old
      → AreWithin 48 old
      → extract_row sha256 fuel prf i bj tiles raw old ≡ some out
      → IsRow (length old) out
  unfolding extract_row
  extract_row-IsRow i bj zero raw old {out} h k small e =
      let same : old ≡ out = ground arith in (sym (ap length same), subst (AreWithin 48) same small)
  extract_row-IsRow i bj (suc tiles) raw old {out} h k small e =
      let (tile, e1, e2) =
        >>=-some (extract_mx_tile_i64 sha256 fuel prf i bj (take mx_block_len raw)) _ e in
      let raw' = drop mx_block_len raw in
      let old' = drop mx_block_len old in
      let (rest, e3, e4) = >>=-some (extract_row sha256 fuel prf i (suc bj) tiles raw' old') _ e2 in
      let same : tile ++ rest ≡ out = ground arith in
      let first = extract_mx_tile_i64-IsRow sha256 fuel prf i bj (take mx_block_len raw) e1 in
      let later =
        extract_row-IsRow i (suc bj) tiles raw' old' (omega (arith, length-drop mx_block_len raw))
          (omega (arith, length-drop mx_block_len old)) (AreWithin-drop 48 mx_block_len old small)
          e3 in
      (
        omega (
          arith,
          ap length same,
          length-append tile rest,
          first.0,
          later.0,
          length-take mx_block_len raw,
          length-drop mx_block_len old,
        ),
        subst (AreWithin 48) same (AreWithin-append 48 tile rest first.1 later.1),
      )

  -- Every row of what is extracted has `cols` entries that fit a byte.
  pub extract_mx_matrix_i64-IsMatrix :
      (i cols : ℕ) (ys : Matrix) {out : Matrix}
      → All (λ y. length y ≡ cols) ys
      → extract_mx_matrix_i64 sha256 fuel prf i cols ys ≡ some out
      → IsMatrix (length ys) cols out
  unfolding extract_mx_matrix_i64
  extract_mx_matrix_i64-IsMatrix i cols [] {out} h e =
      let same : [] ≡ out = ground arith in subst (IsMatrix 0 cols) same (refl, tt)
  extract_mx_matrix_i64-IsMatrix i cols (y ∷ ys) {out} h e =
      let zeros = zeros-IsRow cols in
      let (row, e1, e2) =
        >>=-some (extract_row sha256 fuel prf i 0 (cols / mx_block_len) y (replicate cols (pos 0)))
          _ e in
      let (rows, e3, e4) = >>=-some (extract_mx_matrix_i64 sha256 fuel prf (suc i) cols ys) _ e2 in
      let same : row ∷ rows ≡ out = ground arith in
      let first =
        extract_row-IsRow i 0 (cols / mx_block_len) y (replicate cols (pos 0)) (omega (arith, h.0))
          (omega (arith, zeros.0)) zeros.1 e1 in
      let later = extract_mx_matrix_i64-IsMatrix (suc i) cols ys h.1 e3 in
      subst (IsMatrix (suc (length ys)) cols) same
        (ap suc later.0, ((first.0 ∙ zeros.0, first.1), later.1))
