-- ===== src/Rc/Tile/Stream.antt =====
-- core/matmul/matmul_v4_rc.cpp: a tile takes its values in one pass over the key stream, whatever the blocks it
-- is cut into.
use mathlib.Core.Option
use btx_miner.Common.{
  ℕ, zero, suc, ◌+◌, ◌%◌, ◌^◌, ◌≡◌, refl, ap, ap₂, sym, ◌∙◌, List, [], ◌∷◌, ◌++◌, Option, none,
  some, ◌≤◌, Option-cases, inl, inr, arith,
}
use btx_miner.Common.Int.{ℤ}
use btx_miner.Rc.Expand.{Bytes}
use btx_miner.Rc.Mantissa.{m11, raw_nibble, mixed_nibble, place, fill_tile}
use btx_miner.Rc.Tile.{tile_nibbles, extract_from, extract_tile_mantissas}

-- The first so many blocks, one after the other.
abbrev pub key_stream : (ℕ → List ℕ) → ℕ → ℕ → List ℕ
key_stream block_at zero remix = []
key_stream block_at (suc fuel) remix =
    block_at remix ++ key_stream block_at fuel ((remix + 1) % 2 ^ 32)

-- A pass that leaves a cell empty gives nothing.
abbrev pub if_full : List ℤ × List ℤ → Option (List ℤ)
if_full (mu, []) = some mu
if_full (mu, r ∷ rest) = none

abbrev joined : List ℤ × List ℤ → (List ℤ → List ℤ × List ℤ) → List ℤ × List ℤ
joined first go = (first.0 ++ (go first.1).0, (go first.1).1)

join-place :
    (o : Option ℤ) (a b : List ℤ × List ℤ) (go : List ℤ → List ℤ × List ℤ)
    → place o (joined a go) (joined b go) ≡ joined (place o a b) go
join-place none a b go = refl
join-place (some v) a b go = refl

fill_tile-empty : (ns : List ℕ) → fill_tile ns [] ≡ ([], [])
unfolding fill_tile
fill_tile-empty [] = refl
fill_tile-empty (n ∷ ns) = refl

fill_tile-nothing : (raw : List ℤ) → fill_tile [] raw ≡ ([], raw)
unfolding fill_tile
fill_tile-nothing raw = refl

fill_tile-append :
    (ns ms : List ℕ) (raw : List ℤ)
    → fill_tile (ns ++ ms) raw ≡ joined (fill_tile ns raw) (fill_tile ms)
unfolding fill_tile
fill_tile-append [] ms raw = refl
fill_tile-append (n ∷ ns) ms [] = sym (fill_tile-empty ms)
fill_tile-append (n ∷ ns) ms (r ∷ raw) =
    let o = m11 (mixed_nibble n (raw_nibble r)) in
    ap₂ (λ a b. place o a b) (fill_tile-append ns ms (r ∷ raw)) (fill_tile-append ns ms raw)
    ∙ join-place o (fill_tile ns (r ∷ raw)) (fill_tile ns raw) (fill_tile ms)

if_full-joined :
    (mu : List ℤ) (out : List ℤ × List ℤ)
    → Option.map (λ more. mu ++ more) (if_full out) ≡ if_full (mu ++ out.0, out.1)
if_full-joined mu (more, []) = refl
if_full-joined mu (more, r ∷ rest) = refl

pub extract_from-eq-fill_tile :
    (block_at : ℕ → List ℕ) (fuel remix : ℕ) (raw : List ℤ)
    → extract_from block_at fuel remix raw
      ≡ if_full (fill_tile (key_stream block_at fuel remix) raw)
unfolding extract_from
extract_from-eq-fill_tile block_at zero remix [] = ap if_full (sym (fill_tile-empty []))
extract_from-eq-fill_tile block_at (suc fuel) remix [] =
    ap if_full (sym (fill_tile-empty (key_stream block_at (suc fuel) remix)))
extract_from-eq-fill_tile block_at zero remix (r ∷ raw) =
    ap if_full (sym (fill_tile-nothing (r ∷ raw)))
extract_from-eq-fill_tile block_at (suc fuel) remix (r ∷ raw) =
    let first = fill_tile (block_at remix) (r ∷ raw) in
    let later = (remix + 1) % 2 ^ 32 in
    let more = key_stream block_at fuel later in
    ap (Option.map (λ vs. first.0 ++ vs)) (extract_from-eq-fill_tile block_at fuel later first.1)
    ∙ if_full-joined first.0 (fill_tile more first.1)
    ∙ ap if_full (sym (fill_tile-append (block_at remix) more (r ∷ raw)))

extract_from_more :
    (block_at : ℕ → List ℕ) (fuel more remix : ℕ) (raw : List ℤ) {mu : List ℤ}
    → fuel ≤ more
    → extract_from block_at fuel remix raw ≡ some mu
    → extract_from block_at more remix raw ≡ some mu
unfolding extract_from
extract_from_more block_at zero zero remix [] h e = e
extract_from_more block_at zero (suc more) remix [] h e = e
extract_from_more block_at (suc fuel) (suc more) remix [] h e = e
extract_from_more block_at zero more remix (r ∷ raw) h e = ground arith
extract_from_more block_at (suc fuel) zero remix raw h e = absurd (omega arith)
extract_from_more block_at (suc fuel) (suc more) remix (r ∷ raw) h e =
    let rest = (fill_tile (block_at remix) (r ∷ raw)).1 in
    let next = (remix + 1) % 2 ^ 32 in
    elim (Option-cases (extract_from block_at fuel next rest)) [
      | inl gone ↦ absurd (ground (arith, gone))
      | inr (ws, got) ↦
          let later = extract_from_more block_at fuel more next rest (omega arith) got in
          ground (arith, got, later)
    ]

-- The mantissas of a tile are what one pass over its key stream places, the blocks joined: the cells take
-- the accepted nibbles in order, and there is a result exactly when no cell stays empty. A result
-- stays the same when more blocks may be drawn.
pub extract_tile_mantissas-eq-fill_tile :
    (fuel : ℕ) (prf : Bytes) (i bj : ℕ) (raw : List ℤ)
    → let mu = extract_tile_mantissas fuel prf i bj raw in
      (mu ≡ if_full (fill_tile (key_stream (tile_nibbles prf i bj) fuel 0) raw))
      × ((more : ℕ) (vs : List ℤ)
          → fuel ≤ more
          → mu ≡ some vs
          → extract_tile_mantissas more prf i bj raw ≡ some vs)
unfolding extract_tile_mantissas
extract_tile_mantissas-eq-fill_tile fuel prf i bj raw = (
  extract_from-eq-fill_tile (tile_nibbles prf i bj) fuel 0 raw,
  λ more vs h e. extract_from_more (tile_nibbles prf i bj) fuel more 0 raw h e,
)
