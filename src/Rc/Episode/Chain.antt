-- ===== src/Rc/Episode/Chain.antt =====
-- core/matmul/matmul_v4_rc.cpp: how the rounds of an episode hang together, and what its digest commits to.
use mathlib.Core.List.{flatten}
use btx_miner.Common.{
  ℕ, zero, suc, ◌≤◌, ◌≡◌, refl, ◌∙◌, List, [], ◌∷◌, ◌++◌, map, some, length, subst, arith,
}
use btx_miner.Rc.Expand.{Bytes, Matrix, tag, tagged_u32}
use btx_miner.Rc.Merkle.{Merkle, sha256d, absorb, absorb_byte, finalize_root}
use btx_miner.Rc.Tile.Within.{>>=-some}
use btx_miner.Rc.Episode.{
  matrix_bytes, absorb_all, first_rows, run_layers, run_recall, round_root, run_rounds,
  run_episode_impl,
}
use btx_miner.Rc.Episode.Params.{EpisodeParams}
use btx_miner.Rc.Episode.More.{run_episode_impl_more}

module _ (sha256 : Bytes → Bytes) where
  absorb-append :
      (m : Merkle) (u v : Bytes) → absorb sha256 (absorb sha256 m u) v ≡ absorb sha256 m (u ++ v)
  unfolding absorb
  absorb-append m [] v = refl
  absorb-append m (b ∷ u) v = absorb-append (absorb_byte sha256 m b) u v

  -- The tree absorbs the layers as one string.
  absorb_all-flatten :
      (m : Merkle) (xs : List Matrix)
      → absorb_all sha256 m xs ≡ absorb sha256 m (flatten (map matrix_bytes xs))
  unfolding absorb_all flatten absorb
  absorb_all-flatten m [] = refl
  absorb_all-flatten m (x ∷ xs) =
      absorb_all-flatten (absorb sha256 m (matrix_bytes x)) xs
      ∙ absorb-append m (matrix_bytes x) (flatten (map matrix_bytes xs))

module _ (sha256 : Bytes → Bytes) (fuel : ℕ) (p : EpisodeParams) (sigma : Bytes) where
  -- Round `r` after the root `before`: its seed hashes both, its parts come from the seed, and its root is
  -- that of the bytes of the recall and of the layers in their order.
  pub record IsRound (r : ℕ) (before root : Bytes) : Type 0 where
    pub seed : Bytes
    pub seeded : seed ≡ tagged_u32 sha256 (tag "BTX_RC_ROUND_V1") before r
    pub z : Matrix
    pub recalled : run_recall sha256 fuel p sigma seed ≡ some z
    pub x0 : Matrix
    pub started : first_rows sha256 fuel p sigma seed ≡ some x0
    pub xs : List Matrix
    pub layered : run_layers sha256 fuel p sigma seed 0 p.l_lyr x0 ≡ some xs
    pub committed :
        finalize_root sha256 (
          absorb sha256
            (record { t_leaf = p.t_leaf; partial = []; leaves = [] })
            (matrix_bytes z ++ flatten (map matrix_bytes xs)))
        ≡ some root

  -- Each root is that of the round with its number, after the root before it.
  abbrev pub AreChained : ℕ → Bytes → List Bytes → Type 0
  AreChained r before [] = Unit
  AreChained r before (root ∷ roots) = IsRound r before root × AreChained (suc r) root roots

  round_root-IsRound :
      (r : ℕ) (before : Bytes) {root : Bytes}
      → round_root sha256 fuel p sigma (tagged_u32 sha256 (tag "BTX_RC_ROUND_V1") before r)
        ≡ some root
      → IsRound r before root
  unfolding round_root
  round_root-IsRound r before {root} e =
      let seed = tagged_u32 sha256 (tag "BTX_RC_ROUND_V1") before r in
      let empty : Merkle = record { t_leaf = p.t_leaf; partial = []; leaves = [] } in
      let (z, recalled, e1) = >>=-some (run_recall sha256 fuel p sigma seed) _ e in
      let (x0, started, e2) = >>=-some (first_rows sha256 fuel p sigma seed) _ e1 in
      let (xs, layered, e3) = >>=-some (run_layers sha256 fuel p sigma seed 0 p.l_lyr x0) _ e2 in
      record {
        seed = seed;
        seeded = refl;
        z = z;
        recalled = recalled;
        x0 = x0;
        started = started;
        xs = xs;
        layered = layered;
        committed =
            subst (λ m. finalize_root sha256 m ≡ some root)
              (absorb_all-flatten sha256 (absorb sha256 empty (matrix_bytes z)) xs
                ∙ absorb-append sha256 empty (matrix_bytes z) (flatten (map matrix_bytes xs)))
              e3;
      }

  run_rounds-AreChained :
      (r left : ℕ) (before : Bytes) {roots : List Bytes}
      → run_rounds sha256 fuel p sigma r left before ≡ some roots
      → AreChained r before roots
  unfolding run_rounds
  run_rounds-AreChained r zero before {roots} e =
      let same : [] ≡ roots = ground arith in subst (AreChained r before) same tt
  run_rounds-AreChained r (suc left) before {roots} e =
      let seed = tagged_u32 sha256 (tag "BTX_RC_ROUND_V1") before r in
      let (root, e1, e2) = >>=-some (round_root sha256 fuel p sigma seed) _ e in
      let (rest, e3, e4) = >>=-some (run_rounds sha256 fuel p sigma (suc r) left root) _ e2 in
      let same : root ∷ rest ≡ roots = ground arith in
      subst (AreChained r before) same
        (round_root-IsRound r before e1, run_rounds-AreChained (suc r) left root e3)

  -- An episode that ends, whatever SHA-256 returns, has a root for each round. The seed of a round hashes
  -- its number with the root before it, or with sigma for the first; its root is that of the bytes of its
  -- recall and of its layers; and the digest is the double hash of the tag with all the roots. Any larger
  -- number of blocks that a stream may draw gives the same digest and roots.
  pub run_episode_impl-AreChained :
      (more : ℕ)
      → fuel ≤ more
      → {out : Bytes × List Bytes} → run_episode_impl sha256 fuel p sigma ≡ some out
      → (length out.1 ≡ p.rounds)
        × AreChained 0 sigma out.1
        × (out.0 ≡ sha256d sha256 (tag "BTX_RC_EPISODE_V1" ++ flatten out.1))
        × (run_episode_impl sha256 more p sigma ≡ some out)
  unfolding run_episode_impl
  run_episode_impl-AreChained more h {out} e =
      let (roots, e1, e2) = >>=-some (run_rounds sha256 fuel p sigma 0 p.rounds sigma) _ e in
      let same : roots ≡ out.1 = ground arith in
      let (stable, long) = run_episode_impl_more sha256 fuel more h p sigma e in
      (
        long,
        subst (AreChained 0 sigma) same (run_rounds-AreChained 0 p.rounds sigma e1),
        subst (λ l. out.0 ≡ sha256d sha256 (tag "BTX_RC_EPISODE_V1" ++ flatten l)) same
            (ground arith),
        stable,
      )
