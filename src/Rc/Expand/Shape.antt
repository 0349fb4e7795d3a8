-- ===== src/Rc/Expand/Shape.antt =====
-- core/matmul/matmul_v4_rc.cpp: an expanded operand has the shape asked for, and its entries fit a byte.
use btx_miner.Common.{
  Bool, true, false, ℕ, zero, suc, ◌+◌, ◌*◌, ◌/◌, ◌%◌, ◌^◌, ◌≤◌, ◌<◌, ◌≡◌, refl, ap, sym, ◌∙◌, List,
  [], ◌∷◌, Option, none, some, length, take, get_or, leb, if◌then◌else◌, All, subst, arith,
}
use btx_miner.Common.Int.{ℤ, pos, ◌*ℤ◌}
use btx_miner.Rc.Draw.{prepend, values, stream, draw, draw-eq-take, draw_more, if_enough}
use btx_miner.Rc.Expand.{
  Bytes, Matrix, mx_block_len, tabulate, scale_codes, stream_block, expand_mantissa_stream,
  expand_scale_stream, dequant, expand_mx_dequant_i8,
}
use btx_miner.Rc.Gemm.Dot.{size, size-*ℤ, AreWithin}
use btx_miner.Rc.Mantissa.{m11, nibbles}
use btx_miner.Rc.Mantissa.Accepted.{m11-size}
use btx_miner.Rc.Tile.Within.{IsRow, IsMatrix, >>=-some}
use btx_miner.Rc.Gemm.Dot.{take-AreWithin, get_or-AreWithin}
use btx_miner.Rc.Mantissa.Filled.{scale_le}
use btx_miner.Rc.Tile.Within.{AreWithin-append}
use btx_miner.Common.{All-append}

prepend-AreWithin :
    (n : ℕ) (o : Option ℤ) (vs : List ℤ)
    → m11 n ≡ o
    → AreWithin 6 vs
    → AreWithin 6 (prepend m11 o vs)
prepend-AreWithin n none vs e h = h
prepend-AreWithin n (some v) vs e h = (m11-size n v e, h)

values-AreWithin : (ns : List ℕ) → AreWithin 6 (values m11 ns)
unfolding values
values-AreWithin [] = omega arith
values-AreWithin (n ∷ ns) = prepend-AreWithin n (m11 n) (values m11 ns) refl (values-AreWithin ns)

stream-AreWithin :
    (block_at : ℕ → List ℕ) (fuel block : ℕ) → AreWithin 6 (stream m11 block_at fuel block)
unfolding stream
stream-AreWithin block_at zero block = omega arith
stream-AreWithin block_at (suc fuel) block =
    AreWithin-append 6 _ _ (values-AreWithin (block_at block))
      (stream-AreWithin block_at fuel ((block + 1) % 2 ^ 64))

abbrev AreCodes : List ℕ → Type 0
AreCodes = All (λ c. c < 4)

scale_codes-AreCodes : (bs : Bytes) → AreCodes (values (λ c. some c) (scale_codes bs))
unfolding values
scale_codes-AreCodes [] = tt
scale_codes-AreCodes (b ∷ bs) =
    (omega arith, (omega arith, (omega arith, (omega arith, scale_codes-AreCodes bs))))

scales-AreCodes :
    (bytes_at : ℕ → Bytes) (fuel block : ℕ)
    → AreCodes (stream (λ c. some c) (λ b. scale_codes (bytes_at b)) fuel block)
unfolding stream
scales-AreCodes bytes_at zero block = tt
scales-AreCodes bytes_at (suc fuel) block =
    All-append (λ c. c < 4) _ _ (scale_codes-AreCodes (bytes_at block))
      (scales-AreCodes bytes_at fuel ((block + 1) % 2 ^ 64))

get_or-AreCodes : (cs : List ℕ) (i : ℕ) → AreCodes cs → get_or cs i 0 < 4
get_or-AreCodes [] i h = omega arith
get_or-AreCodes (c ∷ cs) zero h = h.0
get_or-AreCodes (c ∷ cs) (suc i) h = get_or-AreCodes cs i h.1

take-AreCodes : (n : ℕ) (cs : List ℕ) → AreCodes cs → AreCodes (take n cs)
take-AreCodes zero cs h = tt
take-AreCodes (suc n) [] h = tt
take-AreCodes (suc n) (c ∷ cs) h = (h.0, take-AreCodes n cs h.1)

-- What is drawn is the front of the stream.
drawn :
    {A : Type 0} (accept : ℕ → Option A) (block_at : ℕ → List ℕ) (fuel block want : ℕ) {vs : List A}
    → draw accept block_at fuel block want ≡ some vs
    → take want (stream accept block_at fuel block) ≡ vs
drawn accept block_at fuel block want {vs} e =
    taken (leb want (length (stream accept block_at fuel block)))
      (sym (draw-eq-take accept block_at fuel block want) ∙ e)
  where
    taken :
        (b : Bool)
        → (if b then some (take want (stream accept block_at fuel block)) else none) ≡ some vs
        → take want (stream accept block_at fuel block) ≡ vs
    taken true h = ground arith
    taken false h = ground arith

tabulate-AreWithin :
    (from n : ℕ) (f : ℕ → ℤ) → ((j : ℕ) → size (f j) ≤ 48) → IsRow n (tabulate from n f)
tabulate-AreWithin from zero f h = (refl, omega arith)
tabulate-AreWithin from (suc n) f h =
    let later = tabulate-AreWithin (suc from) n f h in (ap suc later.0, (h from, later.1))

tabulate-IsMatrix :
    (from n cols : ℕ) (f : ℕ → List ℤ)
    → ((i : ℕ) → IsRow cols (f i))
    → IsMatrix n cols (tabulate from n f)
tabulate-IsMatrix from zero cols f h = (refl, tt)
tabulate-IsMatrix from (suc n) cols f h =
    let later = tabulate-IsMatrix (suc from) n cols f h in (ap suc later.0, (h from, later.1))

-- Whatever SHA-256 returns, an operand that is expanded has the rows and columns asked for, and every
-- entry, a mantissa scaled by two to a code, is at most 48 in size.
pub expand_mx_dequant_i8-IsMatrix :
    (sha256 : Bytes → Bytes) (fuel : ℕ) (seed : Bytes) (rows cols : ℕ) {m : Matrix}
    → expand_mx_dequant_i8 sha256 fuel seed rows cols ≡ some m
    → IsMatrix rows cols m
unfolding expand_mx_dequant_i8 expand_mantissa_stream expand_scale_stream
expand_mx_dequant_i8-IsMatrix sha256 fuel seed rows cols {m} h =
    let (mu, e1, e2) = >>=-some (expand_mantissa_stream sha256 fuel seed (rows * cols)) _ h in
    let (scales, e3, e4) =
      >>=-some (expand_scale_stream sha256 fuel seed (rows * (cols / mx_block_len))) _ e2 in
    let mu_within : AreWithin 6 mu =
      subst (AreWithin 6) (drawn m11 _ fuel 0 (rows * cols) e1)
        (take-AreWithin 6 (rows * cols) _ (stream-AreWithin _ fuel 0)) in
    let codes : AreCodes scales =
      subst AreCodes (drawn (λ c. some c) _ fuel 0 (rows * (cols / mx_block_len)) e3) (
        take-AreCodes (rows * (cols / mx_block_len)) _
          (scales-AreCodes (λ b. stream_block sha256 101 seed b) fuel 0)) in
    let same : dequant rows cols mu scales ≡ m = ground arith in
    subst (IsMatrix rows cols) same (
      tabulate-IsMatrix 0 rows cols _ (λ i. tabulate-AreWithin 0 cols _ (λ j.
        entry mu scales (i * cols + j) (i * (cols / mx_block_len) + j / mx_block_len) mu_within
          codes)))
  where
    entry :
        (mu : List ℤ) (scales : List ℕ) (a b : ℕ)
        → AreWithin 6 mu
        → AreCodes scales
        → size (get_or mu a (pos 0) *ℤ pos (2 ^ get_or scales b 0)) ≤ 48
    entry mu scales a b h k =
        size-*ℤ 6 8 (get_or mu a (pos 0)) (pos (2 ^ get_or scales b 0)) (get_or-AreWithin 6 mu a h)
          (omega (arith, scale_le (get_or scales b 0) (get_or-AreCodes scales b k)))

-- What an operand's stream of mantissas gives is the front of the accepted nibbles of its hash blocks, in
-- their order, and there is a result exactly when the blocks hold enough of them; likewise its scales
-- are the front of the two-bit codes. More blocks do not change a result.
pub expand_streams-eq-take :
    (sha256 : Bytes → Bytes) (fuel : ℕ) (seed : Bytes) (count : ℕ)
    → let mantissa_block : ℕ → List ℕ = λ b. nibbles (stream_block sha256 109 seed b) in
      let scale_block : ℕ → List ℕ = λ b. scale_codes (stream_block sha256 101 seed b) in
      (expand_mantissa_stream sha256 fuel seed count
        ≡ if_enough m11 mantissa_block count (stream m11 mantissa_block fuel 0))
      × (expand_scale_stream sha256 fuel seed count
          ≡ if_enough (λ c. some c) scale_block count (stream (λ c. some c) scale_block fuel 0))
      × ((more : ℕ) (mu : List ℤ)
          → fuel ≤ more
          → expand_mantissa_stream sha256 fuel seed count ≡ some mu
          → expand_mantissa_stream sha256 more seed count ≡ some mu)
unfolding expand_mantissa_stream expand_scale_stream
expand_streams-eq-take sha256 fuel seed count = (
  draw-eq-take m11 (λ b. nibbles (stream_block sha256 109 seed b)) fuel 0 count,
  draw-eq-take (λ c. some c) (λ b. scale_codes (stream_block sha256 101 seed b)) fuel 0 count,
  λ more mu h e.
      draw_more m11 (λ b. nibbles (stream_block sha256 109 seed b)) fuel more 0 count h e,
)
