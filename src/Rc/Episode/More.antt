-- ===== src/Rc/Episode/More.antt =====
-- core/matmul/matmul_v4_rc.cpp: more fuel changes no episode.
use btx_miner.Common.{
  ℕ, zero, suc, ◌+◌, ◌/◌, ◌%◌, ◌≤◌, ◌≡◌, List, [], ◌∷◌, map, Option, some, take, drop, replicate,
  Bool, true, false, if◌then◌else◌, arith, length, ap, sym, ◌∙◌,
}
use btx_miner.Common.Int.{ℤ, pos}
use btx_miner.Rc.Gemm.{add_rows}
use btx_miner.Rc.Expand.{Bytes, Matrix, mx_block_len, tag, derive_operand_seed, tagged_u32}
use btx_miner.Rc.More.{
  Extends, Extends-refl, >>=-Extends, expand_mx_dequant_i8-Extends, extract_mx_tile_i64-Extends,
  extract_row-Extends, extract_mx_matrix_i64-Extends,
}
use btx_miner.Rc.Episode.{
  gemm_s8s8_i64, add_matrix, fused_ffn_layer, row_blocks, first_rows, up_weights, down_weights,
  layer_prf, run_layers, run_recall, round_root, run_rounds, run_episode_impl,
}
use btx_miner.Rc.Tile.Within.{>>=-some}
use btx_miner.Rc.Episode.Params.{EpisodeParams}
use btx_miner.Rc.Episode.Recall.{
  Sums, zeros, no_sums, score, recall_cells, recall_tiles, recall_row, recall_rows,
}

module _ (sha256 : Bytes → Bytes) (fuel more : ℕ) (h : fuel ≤ more) where
  module _ (prf_s prf_z : Bytes) (d_head : ℕ) where
    recall_tiles-Extends :
        (i bj t0 tiles : ℕ) (q : List ℤ) (k v : Matrix) (st : Sums)
        → Extends
            (recall_tiles sha256 fuel prf_s prf_z d_head i bj t0 tiles q k v st)
            (recall_tiles sha256 more prf_s prf_z d_head i bj t0 tiles q k v st)
    unfolding recall_tiles
    recall_tiles-Extends i bj t0 zero q k v st = Extends-refl _
    recall_tiles-Extends i bj t0 (suc tiles) q k v st =
        >>=-Extends _ _ _ _
          (extract_mx_tile_i64-Extends sha256 fuel more h prf_s i bj
            (map (score (pos 0) q) (take mx_block_len k)))
          (λ s.
            recall_tiles-Extends i (suc bj) (t0 + mx_block_len) tiles q (drop mx_block_len k)
              (drop mx_block_len v) (recall_cells d_head t0 s (take mx_block_len v) st))

    recall_row-Extends :
        (tiles i : ℕ) (k v : Matrix) (q : List ℤ)
        → Extends
            (recall_row sha256 fuel prf_s prf_z d_head tiles i k v q)
            (recall_row sha256 more prf_s prf_z d_head tiles i k v q)
    unfolding recall_row
    recall_row-Extends tiles i k v q =
        >>=-Extends _ _ _ _ (recall_tiles-Extends i 0 0 tiles q k v (no_sums d_head)) (λ st.
          extract_row-Extends sha256 fuel more h prf_z i 0 (d_head / mx_block_len)
            (add_rows st.acc_z st.seg_row) (zeros d_head))

    recall_rows-Extends :
        (tiles : ℕ) (k v : Matrix) (i : ℕ) (qs : Matrix)
        → Extends
            (recall_rows sha256 fuel prf_s prf_z d_head tiles k v i qs)
            (recall_rows sha256 more prf_s prf_z d_head tiles k v i qs)
    unfolding recall_rows
    recall_rows-Extends tiles k v i [] = Extends-refl _
    recall_rows-Extends tiles k v i (q ∷ qs) =
        >>=-Extends _ _ _ _ (recall_row-Extends tiles i k v q) (λ z.
          >>=-Extends _ _ _ _ (recall_rows-Extends tiles k v (suc i) qs) (λ rest. Extends-refl _))

  fused_ffn_layer-Extends :
      (x w_up w_dn : Matrix) (prf_up prf_dn : Bytes) (d_model d_ff : ℕ)
      → Extends
          (fused_ffn_layer sha256 fuel x w_up w_dn prf_up prf_dn d_model d_ff)
          (fused_ffn_layer sha256 more x w_up w_dn prf_up prf_dn d_model d_ff)
  unfolding fused_ffn_layer
  fused_ffn_layer-Extends x w_up w_dn prf_up prf_dn d_model d_ff =
      >>=-Extends _ _ _ _
        (extract_mx_matrix_i64-Extends sha256 fuel more h prf_up 0 d_ff (gemm_s8s8_i64 x w_up d_ff))
        (λ y.
          extract_mx_matrix_i64-Extends sha256 fuel more h prf_dn 0 d_model
            (add_matrix (gemm_s8s8_i64 y w_dn d_model) x))

  row_blocks-Extends :
      (seed : Bytes) (d_model b blocks : ℕ) (rest : Matrix)
      → Extends
          (row_blocks sha256 fuel seed d_model b blocks rest)
          (row_blocks sha256 more seed d_model b blocks rest)
  unfolding row_blocks
  row_blocks-Extends seed d_model b zero rest = Extends-refl _
  row_blocks-Extends seed d_model b (suc blocks) rest =
      >>=-Extends _ _ _ _
        (expand_mx_dequant_i8-Extends sha256 fuel more h
          (tagged_u32 sha256 (tag "BTX_RC_X0_ROW_BLOCK_V1") seed b) 32 d_model)
        (λ block.
          >>=-Extends _ _ _ _ (row_blocks-Extends seed d_model (suc b) blocks rest)
            (λ later. Extends-refl _))

  module _ (p : EpisodeParams) (sigma : Bytes) where
    first_rows-Extends :
        (seed_r : Bytes)
        → Extends (first_rows sha256 fuel p sigma seed_r) (first_rows sha256 more p sigma seed_r)
    unfolding first_rows
    first_rows-Extends seed_r =
        either p.rowblock_x0
          (row_blocks-Extends seed_x0 p.d_model 0 (p.b_seq / 32)
            (replicate (p.b_seq % 32) (replicate p.d_model (pos 0))))
          (expand_mx_dequant_i8-Extends sha256 fuel more h seed_x0 p.b_seq p.d_model)
      where
        seed_x0 : Bytes
        seed_x0 = derive_operand_seed sha256 seed_r (tag "BTX_RC_X0_V1")

        either :
            (b : Bool) {x y x' y' : Option Matrix}
            → Extends x x'
            → Extends y y'
            → Extends (if b then x else y) (if b then x' else y')
        either true f g = f
        either false f g = g

    up_weights-Extends :
        (seed_r : Bytes) (l : ℕ)
        → Extends
            (up_weights sha256 fuel p sigma seed_r l)
            (up_weights sha256 more p sigma seed_r l)
    unfolding up_weights
    up_weights-Extends seed_r l = expand_mx_dequant_i8-Extends sha256 fuel more h _ p.d_model p.d_ff

    down_weights-Extends :
        (seed_r : Bytes) (l : ℕ)
        → Extends
            (down_weights sha256 fuel p sigma seed_r l)
            (down_weights sha256 more p sigma seed_r l)
    unfolding down_weights
    down_weights-Extends seed_r l =
        expand_mx_dequant_i8-Extends sha256 fuel more h _ p.d_ff p.d_model

    run_layers-Extends :
        (seed_r : Bytes) (l layers : ℕ) (x : Matrix)
        → Extends
            (run_layers sha256 fuel p sigma seed_r l layers x)
            (run_layers sha256 more p sigma seed_r l layers x)
    unfolding run_layers
    run_layers-Extends seed_r l zero x = Extends-refl _
    run_layers-Extends seed_r l (suc layers) x =
        >>=-Extends _ _ _ _ (up_weights-Extends seed_r l) (λ w_up.
          >>=-Extends _ _ _ _ (down_weights-Extends seed_r l) (λ w_dn.
            >>=-Extends _ _ _ _
              (fused_ffn_layer-Extends x w_up w_dn (layer_prf sha256 seed_r "BTX_RC_PRF_UP_" l)
                (layer_prf sha256 seed_r "BTX_RC_PRF_DN_" l) p.d_model p.d_ff)
              (λ x'.
                >>=-Extends _ _ _ _ (run_layers-Extends seed_r (suc l) layers x')
                  (λ rest. Extends-refl _))))

    run_recall-Extends :
        (seed_r : Bytes)
        → Extends (run_recall sha256 fuel p sigma seed_r) (run_recall sha256 more p sigma seed_r)
    unfolding run_recall
    run_recall-Extends seed_r =
        let expanded = expand_mx_dequant_i8-Extends sha256 fuel more h in
        >>=-Extends _ _ _ _ (expanded _ p.n_q p.d_head) (λ q.
          >>=-Extends _ _ _ _ (expanded _ p.n_ctx p.d_head) (λ k.
            >>=-Extends _ _ _ _ (expanded _ p.n_ctx p.d_head)
              (λ v. recall_rows-Extends _ _ p.d_head (p.n_ctx / mx_block_len) k v 0 q)))

    round_root-Extends :
        (seed_r : Bytes)
        → Extends (round_root sha256 fuel p sigma seed_r) (round_root sha256 more p sigma seed_r)
    unfolding round_root
    round_root-Extends seed_r = >>=-Extends _ _ _ _ (run_recall-Extends seed_r) (λ z.
        >>=-Extends _ _ _ _ (first_rows-Extends seed_r) (λ x0.
          >>=-Extends _ _ _ _ (run_layers-Extends seed_r 0 p.l_lyr x0) (λ xs. Extends-refl _)))

    run_rounds-Extends :
        (r left : ℕ) (before : Bytes)
        → Extends
            (run_rounds sha256 fuel p sigma r left before)
            (run_rounds sha256 more p sigma r left before)
    unfolding run_rounds
    run_rounds-Extends r zero before = Extends-refl _
    run_rounds-Extends r (suc left) before =
        >>=-Extends _ _ _ _
          (round_root-Extends (tagged_u32 sha256 (tag "BTX_RC_ROUND_V1") before r))
          (λ root.
            >>=-Extends _ _ _ _ (run_rounds-Extends (suc r) left root) (λ rest. Extends-refl _))

    run_episode_impl-Extends :
        Extends (run_episode_impl sha256 fuel p sigma) (run_episode_impl sha256 more p sigma)
    unfolding run_episode_impl
    run_episode_impl-Extends =
        >>=-Extends _ _ _ _ (run_rounds-Extends 0 p.rounds sigma) (λ roots. Extends-refl _)

    length-run_rounds :
        (r left : ℕ) (before : Bytes) {roots : List Bytes}
        → run_rounds sha256 fuel p sigma r left before ≡ some roots
        → length roots ≡ left
    unfolding run_rounds
    length-run_rounds r zero before {roots} e =
        let same : [] ≡ roots = ground arith in ap length (sym same)
    length-run_rounds r (suc left) before {roots} e =
        let seed = tagged_u32 sha256 (tag "BTX_RC_ROUND_V1") before r in
        let (root, e1, e2) = >>=-some (round_root sha256 fuel p sigma seed) _ e in
        let (rest, e3, e4) = >>=-some (run_rounds sha256 fuel p sigma (suc r) left root) _ e2 in
        let same : root ∷ rest ≡ roots = ground arith in
        ap length (sym same) ∙ ap suc (length-run_rounds (suc r) left root e3)

    -- An episode that ends, whatever SHA-256 returns, has a root for each round, and its digest and its
    -- roots are the same for any larger number of blocks that a stream may draw.
    pub run_episode_impl_more :
        {out : Bytes × List Bytes}
        → run_episode_impl sha256 fuel p sigma ≡ some out
        → (run_episode_impl sha256 more p sigma ≡ some out) × (length out.1 ≡ p.rounds)
    unfolding run_episode_impl
    run_episode_impl_more {out} e =
        let (roots, e1, e2) = >>=-some (run_rounds sha256 fuel p sigma 0 p.rounds sigma) _ e in
        let same : roots ≡ out.1 = ground arith in
        (
          run_episode_impl-Extends out e,
          ap length (sym same) ∙ length-run_rounds 0 p.rounds sigma e1,
        )
