-- ===== src/Rc/Merkle/Commit.antt =====
-- core/matmul/matmul_v4_rc.cpp: the root of a tree commits to every byte that was absorbed.
use btx_miner.Common.{
  ℕ, ◌+◌, ◌-◌, ◌≤◌, ◌≡◌, ◌⊎◌, inl, inr, refl, ap, sym, ◌∙◌, subst, List, [], ◌++◌, length,
  length-append, length-replicate, replicate, some, arith,
}
use btx_miner.Common.Bytes.{++-injective}
use btx_miner.Rc.Merkle.{
  Bytes, Merkle, absorb, all_leaves, double_to, pad_leaf_hash, pad_to_pow2, fold_levels,
  finalize_root,
}
use btx_miner.Rc.Merkle.Padding.{finalize_root-some}
use btx_miner.Rc.Merkle.Binding.{Collision, fold_levels-binds}
use btx_miner.Rc.Merkle.Absorb.{absorb-binds, length-all_leaves}
use btx_miner.Rc.Merkle.Hashes.{absorb-AreHashes, padded-AreHashes}

-- The tree before anything is absorbed.
abbrev pub new_merkle : ℕ → Merkle
new_merkle t_leaf = record { t_leaf = t_leaf; partial = []; leaves = [] }

length-added :
    (sha256 : Bytes → Bytes) (xs : List Bytes) (n : ℕ)
    → length (xs ++ replicate n (pad_leaf_hash sha256)) ≡ length xs + n
length-added sha256 xs n = omega (
  arith,
  length-append xs (replicate n (pad_leaf_hash sha256)),
  length-replicate n (pad_leaf_hash sha256),
)

pad_to_pow2-injective :
    (sha256 : Bytes → Bytes) (xs ys : List Bytes)
    → length xs ≡ length ys
    → (length (pad_to_pow2 sha256 xs) ≡ length (pad_to_pow2 sha256 ys))
      × (pad_to_pow2 sha256 xs ≡ pad_to_pow2 sha256 ys → xs ≡ ys)
unfolding pad_to_pow2
pad_to_pow2-injective sha256 xs ys h = (
  length-added sha256 xs _ ∙ ap (λ n. n + (double_to n 1 n - n)) h ∙ sym (length-added sha256 ys _),
  λ e. (++-injective xs ys _ _ h e).0,
)

-- For leaves of at least one byte, and a SHA-256 with 32 bytes, two byte strings of one length that
-- give the same root are the same, or the two hashes yield two different texts with the same
-- SHA-256: the root of a round commits to all that the round computed.
pub finalize_root-binds :
    (sha256 : Bytes → Bytes) (t_leaf : ℕ) (v w : Bytes)
    → ((x : Bytes) → length (sha256 x) ≡ 32)
    → 1 ≤ t_leaf
    → length v ≡ length w
    → finalize_root sha256 (absorb sha256 (new_merkle t_leaf) v)
      ≡ finalize_root sha256 (absorb sha256 (new_merkle t_leaf) w)
    → (v ≡ w) ⊎ Collision sha256
unfolding finalize_root
finalize_root-binds sha256 t_leaf v w size t h e =
    let m = absorb sha256 (new_merkle t_leaf) v in
    let n = absorb sha256 (new_merkle t_leaf) w in
    let (level, back) =
      absorb-binds sha256 v w (new_merkle t_leaf) (new_merkle t_leaf) (refl, refl, refl, t) h in
    let leaves = length-all_leaves sha256 m n level in
    let (same, unpad) =
      pad_to_pow2-injective sha256 (all_leaves sha256 m) (all_leaves sha256 n) leaves in
    let ((root, found), (k, count), _, _) = finalize_root-some sha256 m in
    let other =
      subst (λ f. fold_levels sha256 f (pad_to_pow2 sha256 (all_leaves sha256 n)) ≡ some root)
        (sym same) (sym e ∙ found) in
    elim (fold_levels-binds sha256 size k _ _ _ root count (sym same ∙ count)
      (padded-AreHashes sha256 size m (absorb-AreHashes sha256 size v _ (omega arith)))
      (padded-AreHashes sha256 size n (absorb-AreHashes sha256 size w _ (omega arith))) found
      other) [
        | inr c ↦ inr c
        | inl padded ↦ (elim (back (unpad padded)) [ inr c ↦ inr c | inl s ↦ inl s.1 ])
      ]
