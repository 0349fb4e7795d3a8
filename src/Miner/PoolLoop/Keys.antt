-- ===== src/Miner/PoolLoop/Keys.antt =====
-- miner/matador-miner.cpp: lists of shares by the nonce and the time that `RunPoolLoop` sends.
use btx_miner.Common.{ℕ, ◌≡◌, refl, false, List, [], ◌∷◌, arith, map}
use btx_miner.Miner.PoolLoop.State.{Share, has_key}

abbrev pub key_of : Share → ℕ × ℕ
key_of share = (share.block.nonce64, share.block.time)

abbrev pub AllDifferent : List (ℕ × ℕ) → Type 0
AllDifferent [] = Unit
AllDifferent (k ∷ keys) = (has_key k keys ≡ false) × AllDifferent keys

-- What the larger list lacks the smaller one lacks.
unfoldable pub Covers : List (ℕ × ℕ) → List (ℕ × ℕ) → Type 0
Covers larger known = (k : ℕ × ℕ) → has_key k larger ≡ false → has_key k known ≡ false

-- Each share is new to what was known and to those before it.
unfoldable pub Fresh : List (ℕ × ℕ) → List Share → Type 0
Fresh known [] = Unit
Fresh known (x ∷ xs) = (has_key (key_of x) known ≡ false) × Fresh (key_of x ∷ known) xs

Covers-cons :
    (k : ℕ × ℕ) (larger known : List (ℕ × ℕ))
    → Covers larger known
    → Covers (k ∷ larger) (k ∷ known)
unfolding Covers has_key
Covers-cons k larger known c j h = let rest = c j in ground arith

pub Fresh-Covers :
    (xs : List Share) (larger known : List (ℕ × ℕ))
    → Covers larger known
    → Fresh larger xs
    → Fresh known xs
unfolding Fresh Covers
Fresh-Covers [] larger known c f = tt
Fresh-Covers (x ∷ xs) larger known c f =
    (c (key_of x) f.0, Fresh-Covers xs _ _ (Covers-cons (key_of x) larger known c) f.1)

pub Covers-tail : (k : ℕ × ℕ) (known : List (ℕ × ℕ)) → Covers (k ∷ known) known
unfolding Covers has_key
Covers-tail k known j h = ground arith

Covers-swap : (j k : ℕ × ℕ) (known : List (ℕ × ℕ)) → Covers (j ∷ (k ∷ known)) (k ∷ known)
Covers-swap j k known = Covers-tail j (k ∷ known)

lacks_later :
    (xs : List Share) (k : ℕ × ℕ) (known : List (ℕ × ℕ))
    → Fresh (k ∷ known) xs
    → has_key k (map key_of xs) ≡ false
unfolding Fresh has_key
lacks_later [] k known f = refl
lacks_later (x ∷ xs) k known f =
    let rest = lacks_later xs k known (Fresh-Covers xs _ _ (Covers-swap (key_of x) k known) f.1) in
    ground arith

pub Fresh-AllDifferent :
    (xs : List Share) (known : List (ℕ × ℕ)) → Fresh known xs → AllDifferent (map key_of xs)
unfolding Fresh
Fresh-AllDifferent [] known f = tt
Fresh-AllDifferent (x ∷ xs) known f =
    (lacks_later xs (key_of x) known f.1, Fresh-AllDifferent xs _ f.1)
