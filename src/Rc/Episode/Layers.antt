-- ===== src/Rc/Episode/Layers.antt =====
-- core/matmul/matmul_v4_rc.cpp: what a round commits to has its shape, and every entry fits a byte.
use btx_miner.Common.{
  Bool, true, false, ℕ, zero, suc, ◌+◌, ◌*◌, ◌/◌, ◌%◌, ◌≡◌, refl, ap, ◌∙◌, List, [], ◌∷◌, ◌++◌,
  Option, some, length, replicate, length-append, length-replicate, length-map, All, All-append,
  subst, arith, if◌then◌else◌,
}
use btx_miner.Common.Int.{ℤ, pos, ◌==ℤ◌}
use btx_miner.Rc.Gemm.{add_scaled, accumulate_row, add_rows}
use btx_miner.Rc.Gemm.Dot.{length-add_scaled}
use btx_miner.Rc.Expand.{Bytes, Matrix, tag, expand_mx_dequant_i8, tagged_u32, derive_operand_seed}
use btx_miner.Rc.Expand.Shape.{expand_mx_dequant_i8-IsMatrix}
use btx_miner.Rc.Tile.{extract_mx_matrix_i64}
use btx_miner.Rc.Tile.Within.{
  IsRow, IsMatrix, >>=-some, extract_mx_matrix_i64-IsMatrix, zeros-IsRow,
}
use btx_miner.Rc.Episode.{
  gemm_s8s8_i64, add_matrix, fused_ffn_layer, row_blocks, first_rows, up_weights, down_weights,
  run_layers,
}
use btx_miner.Rc.Episode.Params.{EpisodeParams}

abbrev IsWide : ℕ → Matrix → Type 0
IsWide n = All (λ y. length y ≡ n)

length-accumulate_row :
    (row : List ℤ) (page : Matrix) (acc : List ℤ)
    → length (accumulate_row row page acc) ≡ length acc
unfolding accumulate_row
length-accumulate_row [] page acc = refl
length-accumulate_row (a ∷ row) [] acc = refl
length-accumulate_row (a ∷ row) (pk ∷ page) acc =
    length-accumulate_row row page _ ∙ kept (a ==ℤ pos 0)
  where
    kept : (b : Bool) → length (if b then acc else add_scaled a pk acc) ≡ length acc
    kept true = refl
    kept false = length-add_scaled a pk acc

gemm-IsWide : (a b : Matrix) (n : ℕ) → IsWide n (gemm_s8s8_i64 a b n)
gemm-IsWide [] b n = tt
gemm-IsWide (row ∷ a) b n = (
  length-accumulate_row row b (replicate n (pos 0)) ∙ length-replicate n (pos 0),
  gemm-IsWide a b n,
)

length-add_rows : (xs ys : List ℤ) → length (add_rows xs ys) ≡ length xs
length-add_rows [] ys = refl
length-add_rows (x ∷ xs) [] = refl
length-add_rows (x ∷ xs) (y ∷ ys) = ap suc (length-add_rows xs ys)

add_matrix-IsWide :
    (n : ℕ) (ys xs : Matrix)
    → IsWide n ys
    → IsWide n (add_matrix ys xs) × (length (add_matrix ys xs) ≡ length ys)
add_matrix-IsWide n [] xs h = (tt, refl)
add_matrix-IsWide n (y ∷ ys) [] h = (h, refl)
add_matrix-IsWide n (y ∷ ys) (x ∷ xs) h =
    let later = add_matrix-IsWide n ys xs h.1 in
    ((length-add_rows y x ∙ h.0, later.0), ap suc later.1)

-- A conditional that gives a value gives that of its branch.
given {ℓ} :
    {P : Type ℓ} (b : Bool) {x y : Option Matrix} {m : Matrix}
    → (if b then x else y) ≡ some m
    → (x ≡ some m → P)
    → (y ≡ some m → P)
    → P
given true e f g = f e
given false e f g = g e

module _ (sha256 : Bytes → Bytes) (fuel : ℕ) where
  -- A fused layer keeps the number of rows, and every entry of its output fits a byte.
  fused_ffn_layer-IsMatrix :
      (x w_up w_dn : Matrix) (prf_up prf_dn : Bytes) (d_model d_ff : ℕ) {out : Matrix}
      → fused_ffn_layer sha256 fuel x w_up w_dn prf_up prf_dn d_model d_ff ≡ some out
      → IsMatrix (length x) d_model out
  unfolding fused_ffn_layer
  fused_ffn_layer-IsMatrix x w_up w_dn prf_up prf_dn d_model d_ff {out} e =
      let up = gemm_s8s8_i64 x w_up d_ff in
      let (h, e1, e2) = >>=-some (extract_mx_matrix_i64 sha256 fuel prf_up 0 d_ff up) _ e in
      let down = gemm_s8s8_i64 h w_dn d_model in
      let first =
        extract_mx_matrix_i64-IsMatrix sha256 fuel prf_up 0 d_ff up (gemm-IsWide x w_up d_ff) e1 in
      let sums = add_matrix-IsWide d_model down x (gemm-IsWide h w_dn d_model) in
      let second =
        extract_mx_matrix_i64-IsMatrix sha256 fuel prf_dn 0 d_model (add_matrix down x) sums.0 e2 in
      (second.0 ∙ sums.1 ∙ length-map h _ ∙ first.0 ∙ length-map x _, second.1)

  row_blocks-IsMatrix :
      (seed : Bytes) (d_model b blocks n : ℕ) (rest : Matrix) {out : Matrix}
      → IsMatrix n d_model rest
      → row_blocks sha256 fuel seed d_model b blocks rest ≡ some out
      → IsMatrix (blocks * 32 + n) d_model out
  unfolding row_blocks
  row_blocks-IsMatrix seed d_model b zero n rest {out} h e =
      let same : rest ≡ out = ground arith in
      (omega (arith, ap length same, h.0), subst (All (IsRow d_model)) same h.1)
  row_blocks-IsMatrix seed d_model b (suc blocks) n rest {out} h e =
      let s = tagged_u32 sha256 (tag "BTX_RC_X0_ROW_BLOCK_V1") seed b in
      let (block, e1, e2) = >>=-some (expand_mx_dequant_i8 sha256 fuel s 32 d_model) _ e in
      let (more, e3, e4) =
        >>=-some (row_blocks sha256 fuel seed d_model (suc b) blocks rest) _ e2 in
      let first = expand_mx_dequant_i8-IsMatrix sha256 fuel s 32 d_model e1 in
      let later = row_blocks-IsMatrix seed d_model (suc b) blocks n rest h e3 in
      let same : block ++ more ≡ out = ground arith in
      (
        omega (arith, ap length same, length-append block more, first.0, later.0),
        subst (All (IsRow d_model)) same (All-append (IsRow d_model) block more first.1 later.1),
      )

  zero_rows-IsMatrix : (n cols : ℕ) → IsMatrix n cols (replicate n (replicate cols (pos 0)))
  zero_rows-IsMatrix zero cols = (refl, tt)
  zero_rows-IsMatrix (suc n) cols =
      let later = zero_rows-IsMatrix n cols in (ap suc later.0, (zeros-IsRow cols, later.1))

  module _ (p : EpisodeParams) (sigma seed_r : Bytes) where
    first_rows-IsMatrix :
        {x : Matrix} → first_rows sha256 fuel p sigma seed_r ≡ some x → IsMatrix p.b_seq p.d_model x
    unfolding first_rows
    first_rows-IsMatrix {x} e =
        let seed_x0 = derive_operand_seed sha256 seed_r (tag "BTX_RC_X0_V1") in
        let left = p.b_seq % 32 in
        given p.rowblock_x0 e
          (λ blocks.
            let m =
              row_blocks-IsMatrix seed_x0 p.d_model 0 (p.b_seq / 32) left _
                (zero_rows-IsMatrix left p.d_model) blocks in
            (omega (arith, m.0), m.1))
          (λ whole. expand_mx_dequant_i8-IsMatrix sha256 fuel seed_x0 p.b_seq p.d_model whole)

    layers-AreMatrices :
        (l layers : ℕ) (x : Matrix) {outs : List Matrix}
        → length x ≡ p.b_seq
        → run_layers sha256 fuel p sigma seed_r l layers x ≡ some outs
        → (length outs ≡ layers) × All (IsMatrix p.b_seq p.d_model) outs
    unfolding run_layers
    layers-AreMatrices l zero x {outs} h e =
        let same : [] ≡ outs = ground arith in
        subst (λ (o : List Matrix). (length o ≡ 0) × All (IsMatrix p.b_seq p.d_model) o) same
          (refl, tt)
    layers-AreMatrices l (suc layers) x {outs} h e =
        let (w_up, e1, e2) = >>=-some (up_weights sha256 fuel p sigma seed_r l) _ e in
        let (w_dn, e3, e4) = >>=-some (down_weights sha256 fuel p sigma seed_r l) _ e2 in
        let (x', e5, e6) =
          >>=-some (fused_ffn_layer sha256 fuel x w_up w_dn _ _ p.d_model p.d_ff) _ e4 in
        let (rest, e7, e8) =
          >>=-some (run_layers sha256 fuel p sigma seed_r (suc l) layers x') _ e6 in
        let first = fused_ffn_layer-IsMatrix x w_up w_dn _ _ p.d_model p.d_ff e5 in
        let here : IsMatrix p.b_seq p.d_model x' = (first.0 ∙ h, first.1) in
        let later = layers-AreMatrices (suc l) layers x' here.0 e7 in
        let same : x' ∷ rest ≡ outs = ground arith in
        subst (λ (o : List Matrix). (length o ≡ suc layers) × All (IsMatrix p.b_seq p.d_model) o)
          same (ap suc later.0, (here, later.1))

    -- Whatever SHA-256 returns, the layers of a round keep the shape of the episode: as many outputs as
    -- layers, each of `b_seq` rows of `d_model` entries, and every entry at most 48 in size, so that it
    -- fits the byte that is hashed.
    pub run_layers-AreMatrices :
        {x0 : Matrix} {outs : List Matrix}
        → first_rows sha256 fuel p sigma seed_r ≡ some x0
        → run_layers sha256 fuel p sigma seed_r 0 p.l_lyr x0 ≡ some outs
        → IsMatrix p.b_seq p.d_model x0
          × (length outs ≡ p.l_lyr)
          × All (IsMatrix p.b_seq p.d_model) outs
    run_layers-AreMatrices {x0} {outs} e1 e2 =
        let m = first_rows-IsMatrix e1 in
        let outs_lem = layers-AreMatrices 0 p.l_lyr x0 m.0 e2 in (m, outs_lem.0, outs_lem.1)
