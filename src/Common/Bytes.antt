-- ===== src/Common/Bytes.antt =====
-- Little-endian bytes (`WriteLE16`, `WriteLE32`, `WriteLE64`, and the `data()` of a `uint256`, whose
-- value is a natural number here), and when a concatenation of byte strings determines its parts.
use btx_miner.Common.{
  ℕ, zero, suc, ◌/◌, ◌%◌, ◌^◌, ◌<◌, ◌≡◌, refl, ap, sym, ◌∙◌, List, [], ◌∷◌, ◌++◌, arith, ap₂,
}
use btx_miner.Common.{length}

unfoldable pub le_bytes : ℕ → ℕ → List ℕ
le_bytes zero x = []
le_bytes (suc n) x = (x % 256) ∷ le_bytes n (x / 256)

pub length-le_bytes : (n x : ℕ) → length (le_bytes n x) ≡ n
unfolding le_bytes
length-le_bytes zero x = refl
length-le_bytes (suc n) x = ap suc (length-le_bytes n (x / 256))

head_tail {ℓ} : {A : Type ℓ} {x y : A} {xs ys : List A} → (x ∷ xs) ≡ (y ∷ ys) → (x ≡ y) × (xs ≡ ys)
head_tail h = (ground arith, ground arith)

-- A number of `n` bytes is read back from them.
pub le_bytes-injective :
    (n x y : ℕ) → x < 256 ^ n → y < 256 ^ n → le_bytes n x ≡ le_bytes n y → x ≡ y
unfolding le_bytes
le_bytes-injective zero x y hx hy h = omega arith
le_bytes-injective (suc n) x y hx hy h =
    let parts = head_tail h in
    let upper = le_bytes-injective n (x / 256) (y / 256) (omega arith) (omega arith) parts.1 in
    omega (arith, parts.0, upper)

-- Two concatenations are equal only when their parts are, if the first parts are equally long.
pub ++-injective {ℓ} :
    {A : Type ℓ} (a b c d : List A) → length a ≡ length b → a ++ c ≡ b ++ d → (a ≡ b) × (c ≡ d)
++-injective [] [] c d n h = (refl, h)
++-injective [] (y ∷ b) c d n h = ground arith
++-injective (x ∷ a) [] c d n h = ground arith
++-injective (x ∷ a) (y ∷ b) c d n h =
    let parts = head_tail h in
    let rest = ++-injective a b c d (ground arith) parts.1 in
    (ap₂ (λ u v. u ∷ v) parts.0 rest.0, rest.1)

-- A field of fixed width in front of the rest of a message.
pub field-injective :
    (n x y : ℕ) (c d : List ℕ)
    → x < 256 ^ n
    → y < 256 ^ n
    → le_bytes n x ++ c ≡ le_bytes n y ++ d
    → (x ≡ y) × (c ≡ d)
field-injective n x y c d hx hy h =
    let same = length-le_bytes n x ∙ sym (length-le_bytes n y) in
    let parts = ++-injective (le_bytes n x) (le_bytes n y) c d same h in
    (le_bytes-injective n x y hx hy parts.0, parts.1)
