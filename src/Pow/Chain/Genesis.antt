-- ===== src/Pow/Chain/Genesis.antt =====
-- core/matmul/pow_solve.cpp: `FindGenesisBlockIndex` against a description of well-linked chains.
use btx_miner.Common.{◌≡◌, ◌↔◌, sym, ◌∙◌, [], ◌∷◌, Option, none, some, arith}
use btx_miner.Common.Int.{ℤ, pos, ◌≤ℤ◌, ◌<ℤ◌, ◌-ℤ◌, -ℤ_parts, eq_of_parts}
use btx_miner.Pow.Chain.{Block, Chain, find_genesis_from, find_genesis_block_index}

-- Heights fall strictly from the tip to a block of height 0 that has no parent.
abbrev pub IsLinked : Chain → Type 0
IsLinked [] = ⊥
IsLinked (b ∷ []) = b.height ≡ pos 0
IsLinked (b ∷ prev ∷ rest) = (prev.height <ℤ b.height) × IsLinked (prev ∷ rest)

abbrev pub oldest : Chain → Option Block
oldest [] = none
oldest (b ∷ []) = some b
oldest (b ∷ prev ∷ rest) = oldest (prev ∷ rest)

IsLinked_nonneg : (b : Block) (rest : Chain) → IsLinked (b ∷ rest) → pos 0 ≤ℤ b.height
IsLinked_nonneg b [] h = ground arith
IsLinked_nonneg b (prev ∷ rest) h = omega (arith, h.0, IsLinked_nonneg prev rest h.1)

find_genesis_from-eq-oldest :
    (left : ℤ) (b : Block) (rest : Chain)
    → b.height ≤ℤ left
    → IsLinked (b ∷ rest)
    → find_genesis_from left (b ∷ rest) ≡ oldest (b ∷ rest)
unfolding find_genesis_from
find_genesis_from-eq-oldest left b [] h l = ground arith
find_genesis_from-eq-oldest left b (prev ∷ rest) h l = ground (
  arith,
  -ℤ_parts left (pos 1),
  IsLinked_nonneg prev rest l.1,
  find_genesis_from-eq-oldest (left -ℤ pos 1) prev rest,
)

find_genesis_from-IsLinked :
    (left : ℤ) (b : Block) (rest : Chain) (g : Block)
    → find_genesis_from left (b ∷ rest) ≡ some g
    → IsLinked (b ∷ rest)
unfolding find_genesis_from
find_genesis_from-IsLinked left b [] g h = ground (arith, eq_of_parts b.height (pos 0))
find_genesis_from-IsLinked left b (prev ∷ rest) g h =
    ground (arith, find_genesis_from-IsLinked (left -ℤ pos 1) prev rest g)

find_genesis_block_index-eq-oldest :
    (c : Chain) → IsLinked c → find_genesis_block_index c ≡ oldest c
unfolding find_genesis_block_index
find_genesis_block_index-eq-oldest [] l = absurd l
find_genesis_block_index-eq-oldest (b ∷ rest) l =
    ground
      (arith, IsLinked_nonneg b rest l, find_genesis_from-eq-oldest b.height b rest (omega arith) l)

find_genesis_block_index-IsLinked :
    (c : Chain) (g : Block) → find_genesis_block_index c ≡ some g → IsLinked c
unfolding find_genesis_block_index
find_genesis_block_index-IsLinked [] g h = cc
find_genesis_block_index-IsLinked (b ∷ rest) g h =
    ground (arith, find_genesis_from-IsLinked b.height b rest g)

-- The walk returns a block exactly on the chains whose heights fall strictly from the tip to a block
-- of height 0 that has no parent, and then it returns that oldest block: on such a chain the step
-- bound never cuts the walk short, and on every other chain the answer is the null pointer.
pub find_genesis_block_index_iff :
    (c : Chain) (g : Block)
    → (find_genesis_block_index c ≡ some g) ↔ (IsLinked c × (oldest c ≡ some g))
find_genesis_block_index_iff c g = (found, linked)
  where
    found : find_genesis_block_index c ≡ some g → IsLinked c × (oldest c ≡ some g)
    found h =
        let l = find_genesis_block_index-IsLinked c g h in
        (l, sym (find_genesis_block_index-eq-oldest c l) ∙ h)

    linked : IsLinked c × (oldest c ≡ some g) → find_genesis_block_index c ≡ some g
    linked h = find_genesis_block_index-eq-oldest c h.0 ∙ h.1
