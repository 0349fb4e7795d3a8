-- ===== src/Rc/Merkle/Binding.antt =====
-- core/matmul/matmul_v4_rc.cpp: two levels with the same root are the same, or a collision of SHA-256 is at
-- hand.
use btx_miner.Common.{
  ℕ, zero, suc, ◌+◌, ◌^◌, ◌≤◌, ◌≡◌, ◌≢◌, ◌⊎◌, inl, inr, refl, ap₂, sym, ◌∙◌, List, [], ◌∷◌, length,
  some, arith,
}
use btx_miner.Common.Bytes.{++-injective}
use btx_miner.Rc.Merkle.Padding.{length-level_up, pow_double, pow_pos}
use btx_miner.Rc.Merkle.{Bytes, hash_node, hash_leaf, level_up, fold_levels, sha256d}

bytes_cases : (x y : Bytes) → (x ≡ y) ⊎ (x ≢ y)
bytes_cases [] [] = inl refl
bytes_cases [] (y ∷ ys) = inr (ground arith)
bytes_cases (x ∷ xs) [] = inr (ground arith)
bytes_cases (x ∷ xs) (y ∷ ys) = let rest = bytes_cases xs ys in ground arith

pub cons_eq : {A : Type 0} {x y : A} {xs ys : List A} → (x ∷ xs) ≡ (y ∷ ys) → (x ≡ y) × (xs ≡ ys)
cons_eq h = (ground arith, ground arith)

module _ (sha256 : Bytes → Bytes) where
  -- Two different texts with the same SHA-256.
  abbrev pub Collision : Type 0
  Collision = (x y : Bytes) × (x ≢ y) × (sha256 x ≡ sha256 y)

  -- What hashes to the same value is the same, or a collision is found in one of the two hashes.
  pub sha256d-binds : (x y : Bytes) → sha256d sha256 x ≡ sha256d sha256 y → (x ≡ y) ⊎ Collision
  sha256d-binds x y h = elim (bytes_cases x y) [
    | inl e ↦ inl e
    | inr n ↦ elim (bytes_cases (sha256 x) (sha256 y)) [
      | inl e ↦ inr (x, y, n, e)
      | inr m ↦ inr (sha256 x, sha256 y, m, h)
    ]
  ]

  pub hash_leaf-binds :
      (x y : Bytes) → hash_leaf sha256 x ≡ hash_leaf sha256 y → (x ≡ y) ⊎ Collision
  unfolding hash_leaf
  hash_leaf-binds x y h = elim (sha256d-binds _ _ h) [ inl e ↦ inl (cons_eq e).1 | inr c ↦ inr c ]

  abbrev pub AreHashes : List Bytes → Type 0
  AreHashes [] = 0 ≤ 0
  AreHashes (x ∷ xs) = (length x ≡ 32) × AreHashes xs

  hash_node-binds :
      (l r l' r' : Bytes)
      → length l ≡ 32
      → length l' ≡ 32
      → hash_node sha256 l r ≡ hash_node sha256 l' r'
      → ((l ≡ l') × (r ≡ r')) ⊎ Collision
  unfolding hash_node
  hash_node-binds l r l' r' h h' e = elim (sha256d-binds _ _ e) [
    | inl s ↦ inl (++-injective l l' r r' (h ∙ sym h') (cons_eq s).1)
    | inr c ↦ inr c
  ]

  level_up-binds :
      (n : ℕ) (xs ys : List Bytes)
      → length xs ≡ n + n
      → length ys ≡ n + n
      → AreHashes xs
      → AreHashes ys
      → level_up sha256 xs ≡ level_up sha256 ys
      → (xs ≡ ys) ⊎ Collision
  unfolding level_up
  level_up-binds zero [] [] h k a b e = inl refl
  level_up-binds zero [] (y ∷ ys) h k a b e = absurd (omega arith)
  level_up-binds zero (x ∷ xs) ys h k a b e = absurd (omega arith)
  level_up-binds (suc n) [] ys h k a b e = absurd (omega arith)
  level_up-binds (suc n) (x ∷ []) ys h k a b e = absurd (omega arith)
  level_up-binds (suc n) (x ∷ (x' ∷ xs)) [] h k a b e = absurd (omega arith)
  level_up-binds (suc n) (x ∷ (x' ∷ xs)) (y ∷ []) h k a b e = absurd (omega arith)
  level_up-binds (suc n) (x ∷ (x' ∷ xs)) (y ∷ (y' ∷ ys)) h k a b e =
      let parts = cons_eq e in
      elim (hash_node-binds x x' y y' a.0 b.0 parts.0) [
        | inr c ↦ inr c
        | inl first ↦
            elim (level_up-binds n xs ys (omega arith) (omega arith) a.1.1 b.1.1 parts.1) [
              | inr c ↦ inr c
              | inl rest ↦ inl (ap₂ (λ l t. l ∷ t) first.0 (ap₂ (λ l t. l ∷ t) first.1 rest))
            ]
      ]

  module _ (size : (x : Bytes) → length (sha256 x) ≡ 32) where
    level_up-AreHashes : (xs : List Bytes) → AreHashes (level_up sha256 xs)
    unfolding level_up hash_node
    level_up-AreHashes [] = omega arith
    level_up-AreHashes (x ∷ []) = omega arith
    level_up-AreHashes (x ∷ (y ∷ xs)) = (size _, level_up-AreHashes xs)

    -- Two levels of as many hashes with the same root.
    pub fold_levels-binds :
        (k fuel : ℕ) (xs ys : List Bytes) (root : Bytes)
        → length xs ≡ 2 ^ k
        → length ys ≡ 2 ^ k
        → AreHashes xs
        → AreHashes ys
        → fold_levels sha256 fuel xs ≡ some root
        → fold_levels sha256 fuel ys ≡ some root
        → (xs ≡ ys) ⊎ Collision
    unfolding fold_levels
    fold_levels-binds k fuel [] ys root h l a b e f = absurd (omega (arith, pow_pos k))
    fold_levels-binds k fuel (x ∷ xs) [] root h l a b e f = absurd (omega (arith, pow_pos k))
    fold_levels-binds k fuel (x ∷ []) (y ∷ []) root h l a b e f = inl (ground arith)
    fold_levels-binds k fuel (x ∷ []) (y ∷ (y' ∷ ys)) root h l a b e f = absurd (omega arith)
    fold_levels-binds k fuel (x ∷ (x' ∷ xs)) (y ∷ []) root h l a b e f = absurd (omega arith)
    fold_levels-binds k zero (x ∷ (x' ∷ xs)) (y ∷ (y' ∷ ys)) root h l a b e f = ground arith
    fold_levels-binds zero (suc fuel) (x ∷ (x' ∷ xs)) (y ∷ (y' ∷ ys)) root h l a b e f =
        absurd (omega arith)
    fold_levels-binds (suc k) (suc fuel) (x ∷ (x' ∷ xs)) (y ∷ (y' ∷ ys)) root h l a b e f =
        let half = pow_double k in
        let left = x ∷ (x' ∷ xs) in
        let right = y ∷ (y' ∷ ys) in
        elim (fold_levels-binds k fuel (level_up sha256 left) (level_up sha256 right) root
          (length-level_up sha256 (2 ^ k) left (h ∙ half))
          (length-level_up sha256 (2 ^ k) right (l ∙ half)) (level_up-AreHashes left)
          (level_up-AreHashes right) e f) [
            | inr c ↦ inr c
            | inl same ↦ level_up-binds (2 ^ k) left right (h ∙ half) (l ∙ half) a b same
          ]
