-- ===== src/Rc/Episode/Recall/Segments.antt =====
-- core/matmul/matmul_v4_rc.cpp: where the segments end does not change the sums.
use btx_miner.Common.{
  subst, ℕ, zero, suc, ◌+◌, ◌*◌, ◌/◌, ◌<◌, ◌≤◌, ◌≡◌, refl, ap, ap₂, sym, ◌∙◌, List, [], ◌∷◌, some,
  length, get_or, length-replicate, arith, ◌==◌, Bool-cases, inl, inr,
}
use btx_miner.Common.Int.{ℤ, pos, ◌+ℤ◌, ◌*ℤ◌}
use btx_miner.Rc.Gemm.{add_scaled, add_rows}
use btx_miner.Rc.Gemm.Dot.{dot, +ℤ-assoc, +ℤ-zero, zero-+ℤ, get_or-add_scaled, length-add_scaled}
use btx_miner.Rc.Expand.{Bytes, Matrix, mx_block_len}
use btx_miner.Rc.Tile.{extract_mx_tile_i64}
use btx_miner.Rc.Tile.Within.{IsRow, >>=-some, extract_mx_tile_i64-IsRow, AreWithin-append}
use btx_miner.Common.{◌++◌, map, take, drop, length-append, length-take, length-drop, length-map}
use btx_miner.Rc.Episode.Recall.{
  seg_len, Sums, score, recall_tiles, zeros, enter_segment, recall_cell, recall_cells,
}

-- What is carried over already and what is not yet, in one column.
abbrev pub total : Sums → ℕ → ℤ
total st c = get_or (add_rows st.acc_z st.seg_row) c (pos 0)

abbrev pub Wide : ℕ → Sums → Type 0
Wide n st = (length st.seg_row ≡ n) × (length st.acc_z ≡ n)

length-add_rows : (xs ys : List ℤ) → length (add_rows xs ys) ≡ length xs
length-add_rows [] ys = refl
length-add_rows (x ∷ xs) [] = refl
length-add_rows (x ∷ xs) (y ∷ ys) = ap suc (length-add_rows xs ys)

get_or-add_rows :
    (xs ys : List ℤ) (c : ℕ)
    → length xs ≡ length ys
    → get_or (add_rows xs ys) c (pos 0) ≡ get_or xs c (pos 0) +ℤ get_or ys c (pos 0)
get_or-add_rows [] [] c h = sym (+ℤ-zero _)
get_or-add_rows [] (y ∷ ys) c h = absurd (omega arith)
get_or-add_rows (x ∷ xs) [] c h = absurd (omega arith)
get_or-add_rows (x ∷ xs) (y ∷ ys) zero h = refl
get_or-add_rows (x ∷ xs) (y ∷ ys) (suc c) h = get_or-add_rows xs ys c (omega arith)

get_or-zeros : (n c : ℕ) → get_or (zeros n) c (pos 0) ≡ pos 0
get_or-zeros zero c = refl
get_or-zeros (suc n) zero = refl
get_or-zeros (suc n) (suc c) = get_or-zeros n c

-- Carrying a sum over, or not, keeps the total.
enter_segment-total :
    (n seg : ℕ) (st : Sums) (c : ℕ)
    → Wide n st
    → Wide n (enter_segment n seg st) × (total (enter_segment n seg st) c ≡ total st c)
enter_segment-total n seg st c w = elim (Bool-cases (seg == st.cur_seg)) [
  | inl e ↦ rw e (w, refl)
  | inr e ↦ rw e (
    (length-replicate n (pos 0), length-add_rows st.acc_z st.seg_row ∙ w.1),
    get_or-add_rows (add_rows st.acc_z st.seg_row) (zeros n) c
          (omega (arith, length-add_rows st.acc_z st.seg_row, w.1, length-replicate n (pos 0)))
        ∙ ap (λ z. total st c +ℤ z) (get_or-zeros n c)
        ∙ +ℤ-zero _,
  )
]

add_scaled-total :
    (n : ℕ) (s : ℤ) (v : List ℤ) (st : Sums) (c : ℕ)
    → c < n
    → Wide n st
    → let st' = record st { seg_row = add_scaled s v st.seg_row } in
      Wide n st' × (total st' c ≡ total st c +ℤ s *ℤ get_or v c (pos 0))
add_scaled-total n s v st c inside w =
    let long = length-add_scaled s v st.seg_row in
    (
      (long ∙ w.0, w.1),
      get_or-add_rows st.acc_z (add_scaled s v st.seg_row) c (w.1 ∙ sym (long ∙ w.0))
          ∙ ap (λ z. get_or st.acc_z c (pos 0) +ℤ z)
              (get_or-add_scaled s v st.seg_row c (omega (arith, w.0)))
          ∙ sym (+ℤ-assoc _ _ _)
          ∙ ap (λ z. z +ℤ s *ℤ get_or v c (pos 0))
              (sym (get_or-add_rows st.acc_z st.seg_row c (w.1 ∙ sym w.0))),
    )

recall_cells-Wide :
    (n tt : ℕ) (ss : List ℤ) (vs : Matrix) (st : Sums)
    → Wide n st
    → Wide n (recall_cells n tt ss vs st)
unfolding recall_cells
recall_cells-Wide n tt [] vs st w = w
recall_cells-Wide n tt (s ∷ ss) [] st w = w
recall_cells-Wide n tt (s ∷ ss) (v ∷ vs) st w =
    let w1 = (enter_segment-total n (tt / seg_len) st 0 w).0 in
    recall_cells-Wide n (suc tt) ss vs (recall_cell n tt s v st)
      (length-add_scaled s v (enter_segment n (tt / seg_len) st).seg_row ∙ w1.0, w1.1)

cells_total :
    (n tt : ℕ) (ss : List ℤ) (vs : Matrix) (st : Sums) (c : ℕ)
    → c < n
    → Wide n st
    → total (recall_cells n tt ss vs st) c ≡ total st c +ℤ dot ss vs c
unfolding recall_cells
cells_total n tt [] vs st c inside w = sym (+ℤ-zero _)
cells_total n tt (s ∷ ss) [] st c inside w = sym (+ℤ-zero _)
cells_total n tt (s ∷ ss) (v ∷ vs) st c inside w =
    let entered = enter_segment n (tt / seg_len) st in
    let (w1, same) = enter_segment-total n (tt / seg_len) st c w in
    let (w2, added) = add_scaled-total n s v entered c inside w1 in
    cells_total n (suc tt) ss vs (recall_cell n tt s v st) c inside w2
    ∙ ap (λ z. z +ℤ dot ss vs c) (added ∙ ap (λ z. z +ℤ s *ℤ get_or v c (pos 0)) same)
    ∙ +ℤ-assoc _ _ _

-- A product over positions that are cut after `n` of them.
dot-append :
    (n : ℕ) (ss ts : List ℤ) (vs : Matrix) (c : ℕ)
    → length ss ≡ n
    → n ≤ length vs
    → dot (ss ++ ts) vs c ≡ dot ss (take n vs) c +ℤ dot ts (drop n vs) c
dot-append zero [] ts vs c h k = sym (zero-+ℤ _)
dot-append zero (s ∷ ss) ts vs c h k = absurd (omega arith)
dot-append (suc n) [] ts vs c h k = absurd (omega arith)
dot-append (suc n) (s ∷ ss) ts [] c h k = absurd (omega arith)
dot-append (suc n) (s ∷ ss) ts (v ∷ vs) c h k =
    ap (λ z. s *ℤ get_or v c (pos 0) +ℤ z) (dot-append n ss ts vs c (omega arith) (omega arith))
    ∙ sym (+ℤ-assoc _ _ _)

abbrev pub inner : List ℤ → List ℤ → ℤ
inner [] k = pos 0
inner (x ∷ q) [] = pos 0
inner (x ∷ q) (y ∷ k) = x *ℤ y +ℤ inner q k

score-inner : (acc : ℤ) (q k : List ℤ) → score acc q k ≡ acc +ℤ inner q k
unfolding score
score-inner acc [] k = sym (+ℤ-zero acc)
score-inner acc (x ∷ q) [] = sym (+ℤ-zero acc)
score-inner acc (x ∷ q) (y ∷ k) = score-inner (acc +ℤ x *ℤ y) q k ∙ +ℤ-assoc _ _ _

map-score : (q : List ℤ) (ks : Matrix) → map (score (pos 0) q) ks ≡ map (inner q) ks
map-score q [] = refl
map-score q (k ∷ ks) = ap₂ (λ x l. x ∷ l) (score-inner (pos 0) q k ∙ zero-+ℤ _) (map-score q ks)

module _ (sha256 : Bytes → Bytes) (fuel : ℕ) (prf_s prf_z : Bytes) (n : ℕ) where
  -- The extracted products of the query with the keys, a tile after the other from tile `bj` on.
  abbrev pub AreScores : ℕ → ℕ → ℕ → List ℤ → Matrix → List ℤ → Type 0
  AreScores i bj zero q k ss = ss ≡ []
  AreScores i bj (suc tiles) q k ss =
      (s rest : List ℤ) × (ss ≡ s ++ rest)
      × (extract_mx_tile_i64 sha256 fuel prf_s i bj (map (inner q) (take mx_block_len k)) ≡ some s)
      × AreScores i (suc bj) tiles q (drop mx_block_len k) rest

  -- From any position, in any segment, with any sums of the right width, when there are keys and values for
  -- all the tiles and the recall ends: the scores are the extracted
  -- products of the query with the keys, each fits a byte, and what is carried over and what is left of
  -- the sums, added up, grow in each column by the dot product of the scores with that column of the
  -- values, however many segments the positions run through.
  pub recall_tiles-eq-dot :
      (i bj t0 tiles : ℕ) (q : List ℤ) (k v : Matrix) (st : Sums) {end : Sums}
      → tiles * mx_block_len ≤ length k
      → tiles * mx_block_len ≤ length v
      → Wide n st
      → recall_tiles sha256 fuel prf_s prf_z n i bj t0 tiles q k v st ≡ some end
      → (ss : List ℤ) × AreScores i bj tiles q k ss
        × IsRow (tiles * mx_block_len) ss
        × ((c : ℕ) → c < n → total end c ≡ total st c +ℤ dot ss v c)
  unfolding recall_tiles
  recall_tiles-eq-dot i bj t0 zero q k v st {end} hk hv w e =
      let same : st ≡ end = ground arith in
      ([], refl, (refl, omega arith), λ c inside. ap (λ x. total x c) (sym same) ∙ sym (+ℤ-zero _))
  recall_tiles-eq-dot i bj t0 (suc tiles) q k v st {end} hk hv w e =
      let scores = map (score (pos 0) q) (take mx_block_len k) in
      let (s, e1, e2) = >>=-some (extract_mx_tile_i64 sha256 fuel prf_s i bj scores) _ e in
      let first = extract_mx_tile_i64-IsRow sha256 fuel prf_s i bj scores e1 in
      let long : length s ≡ mx_block_len = omega (
        arith,
        first.0,
        length-map (take mx_block_len k) (score (pos 0) q),
        length-take mx_block_len k,
      ) in
      let near = take mx_block_len v in
      let st' = recall_cells n t0 s near st in
      let wide = recall_cells-Wide n t0 s near st w in
      let (ss, scored, shape, later) =
        recall_tiles-eq-dot i (suc bj) (t0 + mx_block_len) tiles q (drop mx_block_len k)
          (drop mx_block_len v) st' (omega (arith, length-drop mx_block_len k))
          (omega (arith, length-drop mx_block_len v)) wide e2 in
      (
        s ++ ss,
        (
          s,
          ss,
          refl,
          subst (λ raw. extract_mx_tile_i64 sha256 fuel prf_s i bj raw ≡ some s)
              (map-score q (take mx_block_len k)) e1,
          scored,
        ),
        (
          omega (arith, length-append s ss, long, shape.0),
          AreWithin-append 48 s ss first.1 shape.1,
        ),
        λ c inside.
            later c inside
            ∙ ap (λ z. z +ℤ dot ss (drop mx_block_len v) c) (cells_total n t0 s near st c inside w)
            ∙ +ℤ-assoc _ _ _
            ∙ ap (λ z. total st c +ℤ z) (sym (dot-append mx_block_len s ss v c long (omega arith))),
      )
