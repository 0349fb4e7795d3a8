-- ===== src/Rc/Gemm.antt =====
-- core/matmul/matmul_v4_rc_coupled.cpp: the product of a lobe's rows and a page, `lobe_gemm_add`. The flat arrays
-- are lists of rows. The 32-bit sums do not overflow for operands up to 48 and widths up to 8192, and
-- are integers.
pub mod Dot
use btx_miner.Common.{ℕ, zero, suc, ◌+◌, ◌*◌, List, [], ◌∷◌, replicate, if◌then◌else◌}
use btx_miner.Common.Int.{ℤ, pos, ◌+ℤ◌, ◌*ℤ◌, ◌==ℤ◌}

-- `accrow[c] += a * pk[c]` for every column.
abbrev pub add_scaled : ℤ → List ℤ → List ℤ → List ℤ
add_scaled a [] acc = acc
add_scaled a (p ∷ pk) [] = []
add_scaled a (p ∷ pk) (x ∷ acc) = (x +ℤ a *ℤ p) ∷ add_scaled a pk acc

-- The loop over `k`: a row of the lobe against the rows of the page; a zero is skipped.
unfoldable pub accumulate_row : List ℤ → List (List ℤ) → List ℤ → List ℤ
accumulate_row [] page acc = acc
accumulate_row (a ∷ row) [] acc = acc
accumulate_row (a ∷ row) (pk ∷ page) acc =
    accumulate_row row page (if a ==ℤ pos 0 then acc else add_scaled a pk acc)

abbrev pub add_rows : List ℤ → List ℤ → List ℤ
add_rows [] acc = []
add_rows (d ∷ dest) [] = d ∷ dest
add_rows (d ∷ dest) (x ∷ acc) = (d +ℤ x) ∷ add_rows dest acc

-- `rows` are the M rows of the lobe, and `dest` the sums so far.
unfoldable pub lobe_gemm_add : ℕ → List (List ℤ) → List (List ℤ) → List (List ℤ) → List (List ℤ)
lobe_gemm_add width [] page dest = dest
lobe_gemm_add width (row ∷ rows) page [] = []
lobe_gemm_add width (row ∷ rows) page (d ∷ dest) =
    add_rows d (accumulate_row row page (replicate width (pos 0)))
    ∷ lobe_gemm_add width rows page dest
