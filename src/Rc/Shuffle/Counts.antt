-- ===== src/Rc/Shuffle/Counts.antt =====
-- core/matmul/matmul_v4_rc_coupled.cpp: a shuffle moves the numbers and neither loses nor doubles one.
use btx_miner.Common.{
  not_below, ℕ, zero, suc, ◌+◌, ◌≤◌, ◌<◌, ◌≡◌, refl, ap, ◌∙◌, List, [], ◌∷◌, get_or, set, length,
  length-set, arith, ◌==◌, if◌then◌else◌, ltb, ◌&&◌, leb, ◌%◌,
}
use btx_miner.Rc.Xof.{ShaXof, next}
use btx_miner.Rc.Shuffle.{iota, swap, shuffle}

abbrev ind : ℕ → ℕ → ℕ
ind v x = if x == v then 1 else 0

-- How often a number stands in a list.
abbrev pub count : ℕ → List ℕ → ℕ
count v [] = 0
count v (x ∷ xs) = ind v x + count v xs

count-set :
    (v : ℕ) (xs : List ℕ) (i x : ℕ)
    → i < length xs
    → count v (set xs i x) + ind v (get_or xs i 0) ≡ count v xs + ind v x
count-set v [] i x h = absurd (not_below i h)
count-set v (y ∷ xs) zero x h = omega arith
count-set v (y ∷ xs) (suc i) x h = omega (arith, count-set v xs i x (omega arith))

set_back_of :
    (xs : List ℕ) (i j v : ℕ) → v ≡ get_or xs j 0 → get_or (set xs i v) j 0 ≡ get_or xs j 0
set_back_of [] i j v h = refl
set_back_of (x ∷ xs) zero zero v h = h
set_back_of (x ∷ xs) zero (suc j) v h = refl
set_back_of (x ∷ xs) (suc i) zero v h = refl
set_back_of (x ∷ xs) (suc i) (suc j) v h = set_back_of xs i j v h

set_back : (xs : List ℕ) (i j : ℕ) → get_or (set xs i (get_or xs j 0)) j 0 ≡ get_or xs j 0
set_back xs i j = set_back_of xs i j (get_or xs j 0) refl

count-swap :
    (v : ℕ) (xs : List ℕ) (i j : ℕ)
    → i < length xs
    → j < length xs
    → count v (swap xs i j) ≡ count v xs
count-swap v xs i j h k =
    let x = get_or xs i 0 in
    let y = get_or xs j 0 in
    let first = count-set v xs i y h in
    let second = count-set v (set xs i y) j x (omega (arith, length-set xs i y)) in
    let back = ap (ind v) (set_back xs i j) in omega (arith, first, second, back)

length-swap : (xs : List ℕ) (i j : ℕ) → length (swap xs i j) ≡ length xs
length-swap xs i j =
    length-set (set xs i (get_or xs j 0)) j (get_or xs i 0) ∙ length-set xs i (get_or xs j 0)

module _ (sha256 : List ℕ → List ℕ) where
  pub count-shuffle :
      (v i : ℕ) (pi : List ℕ) (x : ShaXof)
      → i < length pi
      → count v (shuffle sha256 i pi x) ≡ count v pi
  unfolding shuffle
  count-shuffle v zero pi x h = refl
  count-shuffle v (suc i) pi x h =
      let w = (next sha256 x).0 % (suc i + 1) in
      let small : w < suc i + 1 = omega arith in
      count-shuffle v i (swap pi (suc i) w) _ (omega (arith, length-swap pi (suc i) w))
      ∙ count-swap v pi (suc i) w h (omega arith)

  pub length-shuffle :
      (i : ℕ) (pi : List ℕ) (x : ShaXof) → length (shuffle sha256 i pi x) ≡ length pi
  unfolding shuffle
  length-shuffle zero pi x = refl
  length-shuffle (suc i) pi x = length-shuffle i _ _ ∙ length-swap pi (suc i) _

pub count-iota :
    (v from n : ℕ) → count v (iota from n) ≡ (if leb from v && ltb v (from + n) then 1 else 0)
count-iota v from zero = ground arith
count-iota v from (suc n) = ground (arith, count-iota v (suc from) n)

pub length-iota : (from n : ℕ) → length (iota from n) ≡ n
length-iota from zero = refl
length-iota from (suc n) = ap suc (length-iota (suc from) n)

pub count_pos : (xs : List ℕ) (i : ℕ) → i < length xs → 1 ≤ count (get_or xs i 0) xs
count_pos [] i h = absurd (not_below i h)
count_pos (x ∷ xs) zero h = ground arith
count_pos (x ∷ xs) (suc i) h = omega (arith, count_pos xs i (omega arith))
