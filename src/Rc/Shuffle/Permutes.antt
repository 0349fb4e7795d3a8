-- ===== src/Rc/Shuffle/Permutes.antt =====
-- core/matmul/matmul_v4_rc_coupled.cpp: what is drawn is a permutation, whatever the seed; no lane is lost, and
-- no page is read outside the bank.
use btx_miner.Common.{
  ◌&&◌, not_below, ℕ, zero, suc, ◌+◌, ◌-◌, ◌≤◌, ◌<◌, ◌≡◌, refl, ap, sym, ◌∙◌, List, [], ◌∷◌, get_or,
  set, length, length-set, length-replicate, arith, if◌then◌else◌, ltb, leb, replicate,
}
use btx_miner.Rc.Xof.{ShaXof}
use btx_miner.Rc.Shuffle.{iota, scatter, apply_perm, balanced_perm, shuffle}
use btx_miner.Rc.Shuffle.Counts.{
  count, count-shuffle, length-shuffle, count-iota, length-iota, count_pos,
}

-- Every number below `n` stands in the list once, and no other does.
abbrev pub IsPermutation : ℕ → List ℕ → Type 0
IsPermutation n pi =
    (length pi ≡ n) × ((v : ℕ) → v < n → count v pi ≡ 1) × ((v : ℕ) → n ≤ v → count v pi ≡ 0)

pub IsPermutation-lt :
    (n : ℕ) (pi : List ℕ) (i : ℕ) → IsPermutation n pi → i < n → get_or pi i 0 < n
IsPermutation-lt n pi i p h =
    let found = count_pos pi i (omega (arith, p.0)) in let none = p.2 (get_or pi i 0) in grind arith

module _ (sha256 : List ℕ → List ℕ) where
  shuffle-count :
      (n v : ℕ) (x : ShaXof)
      → 1 ≤ n
      → count v (shuffle sha256 (n - 1) (iota 0 n) x) ≡ (if leb 0 v && ltb v (0 + n) then 1 else 0)
  shuffle-count n v x h =
      count-shuffle sha256 v (n - 1) (iota 0 n) x (omega (arith, length-iota 0 n))
      ∙ count-iota v 0 n

  pub shuffle-IsPermutation :
      (n : ℕ) (x : ShaXof) → 1 ≤ n → IsPermutation n (shuffle sha256 (n - 1) (iota 0 n) x)
  shuffle-IsPermutation n x h = (
    length-shuffle sha256 (n - 1) (iota 0 n) x ∙ length-iota 0 n,
    λ v l. ground (arith, shuffle-count n v x h),
    λ v l. ground (arith, shuffle-count n v x h),
  )

-- A list of which no number stands twice.
abbrev pub Distinct : List ℕ → Type 0
Distinct pi = (v : ℕ) → count v pi ≤ 1

get_or-set_self : (xs : List ℕ) (i v : ℕ) → i < length xs → get_or (set xs i v) i 0 ≡ v
get_or-set_self [] i v h = absurd (not_below i h)
get_or-set_self (x ∷ xs) zero v h = refl
get_or-set_self (x ∷ xs) (suc i) v h = get_or-set_self xs i v (omega arith)

get_or-set_ne : (xs : List ℕ) (i j v : ℕ) → (i ≡ j → ⊥) → get_or (set xs i v) j 0 ≡ get_or xs j 0
get_or-set_ne [] i j v h = refl
get_or-set_ne (x ∷ xs) zero zero v h = absurd (h refl)
get_or-set_ne (x ∷ xs) zero (suc j) v h = refl
get_or-set_ne (x ∷ xs) (suc i) zero v h = refl
get_or-set_ne (x ∷ xs) (suc i) (suc j) v h = get_or-set_ne xs i j v (λ e. h (ap suc e))

scatter_other :
    (pi s tmp : List ℕ) (p : ℕ) → count p pi ≡ 0 → get_or (scatter pi s tmp) p 0 ≡ get_or tmp p 0
scatter_other [] s tmp p h = refl
scatter_other (q ∷ pi) [] tmp p h = refl
scatter_other (q ∷ pi) (v ∷ s) tmp p h =
    scatter_other pi s (set tmp q v) p (ground arith) ∙ get_or-set_ne tmp q p v (ground arith)

scatter_lane :
    (pi s tmp : List ℕ) (i : ℕ)
    → Distinct pi
    → length pi ≡ length s
    → i < length s
    → ((j : ℕ) → j < length s → get_or pi j 0 < length tmp)
    → get_or (scatter pi s tmp) (get_or pi i 0) 0 ≡ get_or s i 0
scatter_lane [] s tmp i d l h b = absurd (omega arith)
scatter_lane (p ∷ pi) [] tmp i d l h b = absurd (omega arith)
scatter_lane (p ∷ pi) (v ∷ s) tmp zero d l h b =
    let once = d p in
    scatter_other pi s (set tmp p v) p (ground arith) ∙ get_or-set_self tmp p v (b 0 (omega arith))
scatter_lane (p ∷ pi) (v ∷ s) tmp (suc i) d l h b =
    scatter_lane pi s (set tmp p v) i (λ w. omega (arith, d w)) (omega arith) (omega arith)
      (λ j k. omega (arith, b (suc j) (omega arith), length-set tmp p v))

length-scatter : (pi s tmp : List ℕ) → length (scatter pi s tmp) ≡ length tmp
length-scatter [] s tmp = refl
length-scatter (p ∷ pi) [] tmp = refl
length-scatter (p ∷ pi) (v ∷ s) tmp = length-scatter pi s (set tmp p v) ∙ length-set tmp p v

pub IsPermutation-once : (n : ℕ) (pi : List ℕ) → IsPermutation n pi → Distinct pi
IsPermutation-once n pi p v = let low = p.1 v in let high = p.2 v in grind arith

-- The permutation drawn for a barrier takes each of the `n` lanes to a place of its own, whatever
-- the seed and whatever SHA-256 returns: every number below `n` stands in it exactly once, and applying it
-- puts lane `i` at place `pi[i]` of as many lanes.
pub balanced_perm-apply_perm :
    (sha256 : List ℕ → List ℕ) (sigma : List ℕ) (barrier : ℕ) (s : List ℕ)
    → 1 ≤ length s
    → let n = length s in
      let pi = balanced_perm sha256 sigma barrier n in
      IsPermutation n pi
      × (length (apply_perm s pi) ≡ n)
      × ((i : ℕ) → i < n → get_or (apply_perm s pi) (get_or pi i 0) 0 ≡ get_or s i 0)
unfolding balanced_perm apply_perm
balanced_perm-apply_perm sha256 sigma barrier s h =
    let n = length s in
    let pi = balanced_perm sha256 sigma barrier n in
    let p = shuffle-IsPermutation sha256 n _ h in
    let zeros = length-replicate n 0 in
    (
      p,
      length-scatter pi s (replicate n 0) ∙ zeros,
      λ i l.
          scatter_lane pi s (replicate n 0) i (IsPermutation-once n pi p) p.0 l
            (λ j k. omega (arith, IsPermutation-lt n pi j p k, zeros)),
    )

count_two :
    (xs : List ℕ) (i j : ℕ)
    → i < j
    → j < length xs
    → get_or xs i 0 ≡ get_or xs j 0
    → 2 ≤ count (get_or xs i 0) xs
count_two [] i j h k e = absurd (omega arith)
count_two (x ∷ xs) zero zero h k e = absurd (omega arith)
count_two (x ∷ xs) zero (suc j) h k e = let more = count_pos xs j (omega arith) in ground arith
count_two (x ∷ xs) (suc i) zero h k e = absurd (omega arith)
count_two (x ∷ xs) (suc i) (suc j) h k e =
    let more = count_two xs i j (omega arith) (omega arith) e in omega arith

pub Distinct-injective :
    (xs : List ℕ) (i j : ℕ)
    → Distinct xs
    → i < length xs
    → j < length xs
    → get_or xs i 0 ≡ get_or xs j 0
    → i ≡ j
Distinct-injective xs i j d h k e =
    let once = d (get_or xs i 0) in
    let once' = d (get_or xs j 0) in
    let above : i < j → 2 ≤ count (get_or xs i 0) xs = λ l. count_two xs i j l k e in
    let below : j < i → 2 ≤ count (get_or xs j 0) xs = λ l. count_two xs j i l h (sym e) in
    grind arith
