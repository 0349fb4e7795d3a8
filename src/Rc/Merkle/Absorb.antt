-- ===== src/Rc/Merkle/Absorb.antt =====
-- core/matmul/matmul_v4_rc.cpp: two trees with the same leaves absorbed the same bytes, or a collision of
-- SHA-256 is at hand.
use btx_miner.Common.{
  subst⁻¹, ℕ, zero, suc, ◌≤◌, ◌≡◌, ◌⊎◌, inl, inr, refl, ap, ap₂, sym, ◌∙◌, List, [], ◌∷◌, ◌++◌,
  length, length-append, arith,
}
use btx_miner.Common.Bytes.{++-injective}
use btx_miner.Rc.Merkle.{
  Bytes, Merkle, absorb, absorb_byte, hash_leaf, zero_filled, flush, at_least_one, all_leaves,
}
use btx_miner.Rc.Merkle.Binding.{Collision, cons_eq, hash_leaf-binds}

zero_filled-injective :
    (n : ℕ) (p q : Bytes)
    → length p ≡ length q
    → length p ≤ n
    → zero_filled n p ≡ zero_filled n q
    → p ≡ q
zero_filled-injective n [] [] l b e = refl
zero_filled-injective n [] (y ∷ q) l b e = absurd (omega arith)
zero_filled-injective n (x ∷ p) [] l b e = absurd (omega arith)
zero_filled-injective zero (x ∷ p) (y ∷ q) l b e = absurd (omega arith)
zero_filled-injective (suc n) (x ∷ p) (y ∷ q) l b e =
    let parts = cons_eq e in
    ap₂ (λ u v. u ∷ v) parts.0 (zero_filled-injective n p q (omega arith) (omega arith) parts.1)

snoc-injective :
    {A : Type 0} (xs ys : List A) {x y : A}
    → length xs ≡ length ys
    → xs ++ x ∷ [] ≡ ys ++ y ∷ []
    → (xs ≡ ys) × (x ≡ y)
snoc-injective xs ys h e = let parts = ++-injective xs ys _ _ h e in (parts.0, (cons_eq parts.1).0)

module _ (sha256 : Bytes → Bytes) where
  -- Two trees that have absorbed as many bytes.
  abbrev pub Level : Merkle → Merkle → Type 0
  Level m m' =
      (m.t_leaf ≡ m'.t_leaf)
      × (length m.partial ≡ length m'.partial)
      × (length m.leaves ≡ length m'.leaves)
      × (suc (length m.partial) ≤ m.t_leaf)

  abbrev pub filled : Merkle → ℕ → Merkle
  filled m b = record m {
    partial = [];
    leaves = m.leaves ++ hash_leaf sha256 (m.partial ++ b ∷ []) ∷ [];
  }

  abbrev pub longer : Merkle → ℕ → Merkle
  longer m b = record m { partial = m.partial ++ b ∷ [] }

  byte_fills :
      (m : Merkle) (b : ℕ) → suc (length m.partial) ≡ m.t_leaf → absorb_byte sha256 m b ≡ filled m b
  byte_fills m b h = let l = length-append m.partial (b ∷ []) in ground arith

  byte_adds :
      (m : Merkle) (b : ℕ)
      → suc (suc (length m.partial)) ≤ m.t_leaf
      → absorb_byte sha256 m b ≡ longer m b
  byte_adds m b h = let l = length-append m.partial (b ∷ []) in ground arith

  abbrev Same : Merkle → Merkle → Type 0
  Same m m' = (m.leaves ≡ m'.leaves) × (m.partial ≡ m'.partial)

  abbrev Steps : (m m' : Merkle) (b c : ℕ) → Merkle → Merkle → Type 0
  Steps m m' b c n n' = Level n n' × (Same n n' → (Same m m' × (b ≡ c)) ⊎ Collision sha256)

  fills_step :
      (m m' : Merkle) (b c : ℕ)
      → Level m m'
      → suc (length m.partial) ≡ m.t_leaf
      → Steps m m' b c (filled m b) (filled m' c)
  fills_step m m' b c (t, p, l, r) h = (
    (
      t,
      refl,
      omega (
        arith,
        length-append m.leaves (hash_leaf sha256 (m.partial ++ b ∷ []) ∷ []),
        length-append m'.leaves (hash_leaf sha256 (m'.partial ++ c ∷ []) ∷ []),
      ),
      omega arith,
    ),
    λ s.
        let ends = snoc-injective m.leaves m'.leaves l s.0 in
        elim (hash_leaf-binds sha256 _ _ ends.1) [
          | inr x ↦ inr x
          | inl e ↦
              (let bytes = snoc-injective m.partial m'.partial p e in
                inl ((ends.0, bytes.0), bytes.1))
        ],
  )

  adds_step :
      (m m' : Merkle) (b c : ℕ)
      → Level m m'
      → suc (suc (length m.partial)) ≤ m.t_leaf
      → Steps m m' b c (longer m b) (longer m' c)
  adds_step m m' b c (t, p, l, r) h =
      let n = length-append m.partial (b ∷ []) in
      let n' = length-append m'.partial (c ∷ []) in
      (
        (t, omega arith, l, omega arith),
        λ s. let bytes = snoc-injective m.partial m'.partial p s.1 in inl ((s.0, bytes.0), bytes.1),
      )

  full_or_not : (n t : ℕ) → suc n ≤ t → (suc n ≡ t) ⊎ (suc (suc n) ≤ t)
  full_or_not n t h = ground arith

  -- One byte on two trees: they stay level, and what they agree on after it, they agreed on before.
  byte_step :
      (m m' : Merkle) (b c : ℕ)
      → Level m m'
      → Steps m m' b c (absorb_byte sha256 m b) (absorb_byte sha256 m' c)
  byte_step m m' b c level =
      let (t, p, l, r) = level in
      elim (full_or_not (length m.partial) m.t_leaf r) [
        | inl h ↦
            subst⁻¹ (λ n. Steps m m' b c n (absorb_byte sha256 m' c)) (byte_fills m b h)
              (subst⁻¹ (λ n. Steps m m' b c (filled m b) n) (byte_fills m' c (omega arith))
                (fills_step m m' b c level h))
        | inr h ↦
            subst⁻¹ (λ n. Steps m m' b c n (absorb_byte sha256 m' c)) (byte_adds m b h)
              (subst⁻¹ (λ n. Steps m m' b c (longer m b) n) (byte_adds m' c (omega arith))
                (adds_step m m' b c level h))
      ]

  at_least_one_snoc :
      (xs : List Bytes) (x : Bytes) → at_least_one sha256 (xs ++ x ∷ []) ≡ xs ++ x ∷ []
  at_least_one_snoc [] x = refl
  at_least_one_snoc (y ∷ xs) x = refl

  at_least_one-injective :
      (xs ys : List Bytes)
      → length xs ≡ length ys
      → at_least_one sha256 xs ≡ at_least_one sha256 ys
      → xs ≡ ys
  at_least_one-injective [] [] h e = refl
  at_least_one-injective [] (y ∷ ys) h e = absurd (omega arith)
  at_least_one-injective (x ∷ xs) [] h e = absurd (omega arith)
  at_least_one-injective (x ∷ xs) (y ∷ ys) h e = e

  flush-binds :
      (t : ℕ) (p q : Bytes) (xs ys : List Bytes)
      → length p ≡ length q
      → length p ≤ t
      → length xs ≡ length ys
      → at_least_one sha256 (flush sha256 t p xs) ≡ at_least_one sha256 (flush sha256 t q ys)
      → ((xs ≡ ys) × (p ≡ q)) ⊎ Collision sha256
  flush-binds t [] [] xs ys h b l e = inl (at_least_one-injective xs ys l e, refl)
  flush-binds t [] (y ∷ q) xs ys h b l e = absurd (omega arith)
  flush-binds t (x ∷ p) [] xs ys h b l e = absurd (omega arith)
  flush-binds t (x ∷ p) (y ∷ q) xs ys h b l e =
      let ends =
        snoc-injective xs ys l (sym (at_least_one_snoc xs _) ∙ e ∙ at_least_one_snoc ys _) in
      elim (hash_leaf-binds sha256 _ _ ends.1) [
        | inr c ↦ inr c
        | inl f ↦ inl (ends.0, zero_filled-injective t (x ∷ p) (y ∷ q) h b f)
      ]

  length-flush :
      (t : ℕ) (p q : Bytes) (xs ys : List Bytes)
      → length p ≡ length q
      → length xs ≡ length ys
      → length (flush sha256 t p xs) ≡ length (flush sha256 t q ys)
  length-flush t [] [] xs ys h l = l
  length-flush t [] (y ∷ q) xs ys h l = absurd (omega arith)
  length-flush t (x ∷ p) [] xs ys h l = absurd (omega arith)
  length-flush t (x ∷ p) (y ∷ q) xs ys h l = omega (
    arith,
    length-append xs (hash_leaf sha256 (zero_filled t (x ∷ p)) ∷ []),
    length-append ys (hash_leaf sha256 (zero_filled t (y ∷ q)) ∷ []),
  )

  pub absorb-binds :
      (v w : Bytes) (m m' : Merkle)
      → Level m m'
      → length v ≡ length w
      → let out = absorb sha256 m v in
        let out' = absorb sha256 m' w in
        Level out out'
        × (all_leaves sha256 out ≡ all_leaves sha256 out'
            → (Same m m' × (v ≡ w)) ⊎ Collision sha256)
  unfolding absorb all_leaves
  absorb-binds [] [] m m' level h =
      let (t, p, l, r) = level in
      (
        level,
        λ e.
            let tails =
              e ∙ ap (λ t. at_least_one sha256 (flush sha256 t m'.partial m'.leaves)) (sym t) in
            elim (flush-binds m.t_leaf m.partial m'.partial m.leaves m'.leaves p (omega arith) l
              tails) [ inr c ↦ inr c | inl s ↦ inl (s, refl) ],
      )
  absorb-binds [] (c ∷ w) m m' level h = absurd (omega arith)
  absorb-binds (b ∷ v) [] m m' level h = absurd (omega arith)
  absorb-binds (b ∷ v) (c ∷ w) m m' level h =
      let (level', back) = byte_step m m' b c level in
      let (done, later) = absorb-binds v w _ _ level' (omega arith) in
      (
        done,
        λ e. elim (later e) [
          | inr x ↦ inr x
          | inl s ↦ (elim (back s.0) [
            | inr x ↦ inr x
            | inl r ↦ inl (r.0, ap₂ (λ u v. u ∷ v) r.1 s.1)
          ])
        ],
      )

  length-at_least_one :
      (xs ys : List Bytes)
      → length xs ≡ length ys
      → length (at_least_one sha256 xs) ≡ length (at_least_one sha256 ys)
  length-at_least_one [] [] h = refl
  length-at_least_one [] (y ∷ ys) h = absurd (omega arith)
  length-at_least_one (x ∷ xs) [] h = absurd (omega arith)
  length-at_least_one (x ∷ xs) (y ∷ ys) h = h

  pub length-all_leaves :
      (m m' : Merkle) → Level m m' → length (all_leaves sha256 m) ≡ length (all_leaves sha256 m')
  unfolding all_leaves
  length-all_leaves m m' (t, p, l, r) = length-at_least_one _ _ (
      length-flush m.t_leaf m.partial m'.partial m.leaves m'.leaves p l
      ∙ ap (λ t. length (flush sha256 t m'.partial m'.leaves)) t)
