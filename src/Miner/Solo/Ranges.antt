-- ===== src/Miner/Solo/Ranges.antt =====
-- miner/solo_mining.h: the nonces that the threads of `SolveAndSubmit` search.
use native.Mathlib.Nat.{div-mul-le_self, le-div_iff_mul-le, mod-add-mod, mod-eq_of_lt}
use btx_miner.Common.{
  ℕ, zero, suc, ◌+◌, ◌-◌, ◌*◌, ◌/◌, ◌%◌, ◌^◌, ◌≤◌, ◌<◌, max, ◌≡◌, ◌≢◌, sym, subst⁻¹, ◌⊎◌, subst, ap,
  ◌∙◌, inl, inr, true, ◌==◌, arith, dec_lt,
}
use btx_miner.Miner.Solo.{per_thread, range_start, range_budget}

-- What thread `i` searches, when the block starts at the nonce `base`: nonces wrap round at 2^64.
pub record IsPart (base max_tries nthreads i : ℕ) : Type 0 where
  pub nonempty : 1 ≤ range_budget max_tries nthreads i
  pub first : i ≡ 0 → range_start base max_tries nthreads i ≡ base
  pub next :
      suc i < nthreads
      → (range_start base max_tries nthreads i + range_budget max_tries nthreads i) % 2 ^ 64
        ≡ range_start base max_tries nthreads (suc i)
  pub last :
      suc i ≡ nthreads
      → (range_start base max_tries nthreads i + range_budget max_tries nthreads i) % 2 ^ 64
        ≡ (base + max_tries) % 2 ^ 64
  pub apart :
      (j a b : ℕ)
      → i < j
      → j < nthreads
      → a < range_budget max_tries nthreads i
      → b < range_budget max_tries nthreads j
      → (range_start base max_tries nthreads i + a) % 2 ^ 64
        ≢ (range_start base max_tries nthreads j + b) % 2 ^ 64

per_thread-fits :
    (max_tries nthreads : ℕ)
    → 1 ≤ nthreads
    → nthreads ≤ max_tries
    → (1 ≤ per_thread max_tries nthreads) × (per_thread max_tries nthreads * nthreads ≤ max_tries)
unfolding per_thread
per_thread-fits max_tries (suc n) some_threads enough =
    let low : 1 ≤ max_tries / suc n =
      (le-div_iff_mul-le {x = 1} {y = max_tries} some_threads).1 (omega arith) in
    let whole = div-mul-le_self max_tries (suc n) in
    let same : max 1 (max_tries / suc n) ≡ max_tries / suc n = omega (arith, low) in
    (omega (arith, low), rw same whole)
per_thread-fits max_tries zero some_threads enough = absurd (omega arith)

wrapped_difference : (m q : ℕ) → q ≤ m → m < 2 ^ 64 → (m + (2 ^ 64 - q % 2 ^ 64)) % 2 ^ 64 ≡ m - q
wrapped_difference m q below fits = omega arith

last_budget :
    (max_tries i : ℕ)
    → max_tries < 2 ^ 64
    → per_thread max_tries (suc i) * suc i ≤ max_tries
    → range_budget max_tries (suc i) i ≡ max_tries - per_thread max_tries (suc i) * i
unfolding range_budget
last_budget max_tries i fits whole =
    let p = per_thread max_tries (suc i) in
    let below : p * i ≤ max_tries = omega (arith, whole) in
    let same : suc i - 1 ≡ i = omega arith in
    let here : (suc i == suc i) ≡ true = ground arith in
    rw (here, same) (wrapped_difference max_tries (p * i) below fits)

other_budget :
    (max_tries nthreads i : ℕ)
    → suc i < nthreads
    → range_budget max_tries nthreads i ≡ per_thread max_tries nthreads
unfolding range_budget
other_budget max_tries nthreads i more = ground arith

last_part :
    (max_tries i : ℕ)
    → suc i ≤ max_tries
    → max_tries < 2 ^ 64
    → (1 ≤ range_budget max_tries (suc i) i)
      × (i * per_thread max_tries (suc i) + range_budget max_tries (suc i) i ≡ max_tries)
last_part max_tries i enough fits =
    let (low, whole) = per_thread-fits max_tries (suc i) (omega arith) enough in
    let b = last_budget max_tries i fits whole in
    let p = per_thread max_tries (suc i) in (omega (arith, b, low, whole), omega (arith, b, whole))

range_end :
    (base max_tries nthreads i budget : ℕ)
    → (range_start base max_tries nthreads i + budget) % 2 ^ 64
      ≡ (base + (i * per_thread max_tries nthreads + budget)) % 2 ^ 64
unfolding range_start
range_end base max_tries nthreads i budget =
    mod-add-mod (base + i * per_thread max_tries nthreads) (2 ^ 64) budget
    ∙ ap (λ n. n % 2 ^ 64) (omega arith)

first_start :
    (base max_tries nthreads i : ℕ)
    → base < 2 ^ 64
    → i ≡ 0
    → range_start base max_tries nthreads i ≡ base
unfolding range_start
first_start base max_tries nthreads zero fits e =
    ap (λ n. n % 2 ^ 64) (omega arith) ∙ mod-eq_of_lt fits
first_start base max_tries nthreads (suc i) fits e = absurd (omega arith)

start_of_next :
    (base max_tries nthreads i : ℕ)
    → (base + (i * per_thread max_tries nthreads + per_thread max_tries nthreads)) % 2 ^ 64
      ≡ range_start base max_tries nthreads (suc i)
unfolding range_start
start_of_next base max_tries nthreads i = ap (λ n. n % 2 ^ 64) (omega arith)

-- The offset at which the range of a thread ends: after its share, or, for the last one, after the tries.
offset_end :
    (max_tries nthreads i : ℕ)
    → nthreads ≤ max_tries
    → max_tries < 2 ^ 64
    → i < nthreads
    → let budget = range_budget max_tries nthreads i in
      let offset = i * per_thread max_tries nthreads in
      ((suc i < nthreads) × (budget ≡ per_thread max_tries nthreads))
      ⊎ ((suc i ≡ nthreads) × (1 ≤ budget) × (offset + budget ≡ max_tries))
offset_end max_tries nthreads i enough fits below = elim (dec_lt (suc i) nthreads) [
  | yes more ↦ inl (more, other_budget max_tries nthreads i more)
  | no none_left ↦
      let e : suc i ≡ nthreads = omega (arith, none_left) in
      inr (
        e,
        subst (λ n. 1 ≤ range_budget max_tries n i) e (last_part max_tries i (omega arith) fits).0,
        subst (λ n. i * per_thread max_tries n + range_budget max_tries n i ≡ max_tries) e
            (last_part max_tries i (omega arith) fits).1,
      )
]

shares_fit : (p i n m : ℕ) → suc i < n → p * n ≤ m → i * p + p ≤ m
shares_fit p i n m more whole =
    let k : ℕ = n - suc (suc i) in
    let e : n ≡ suc (suc i) + k = omega (arith, more) in
    let whole' : p * (suc (suc i) + k) ≤ m = subst (λ x. p * x ≤ m) e whole in omega (arith, whole')

range_fits :
    (max_tries nthreads i : ℕ)
    → nthreads ≤ max_tries
    → max_tries < 2 ^ 64
    → i < nthreads
    → i * per_thread max_tries nthreads + range_budget max_tries nthreads i ≤ max_tries
range_fits max_tries nthreads i enough fits below =
    let (low, whole) = per_thread-fits max_tries nthreads (omega arith) enough in
    elim (offset_end max_tries nthreads i enough fits below) [
      | inl (more, same) ↦
          omega (
            arith,
            same,
            shares_fit (per_thread max_tries nthreads) i nthreads max_tries more whole,
          )
      | inr (e, some_left, all) ↦ omega (arith, all)
    ]

later_offset : (p i j : ℕ) → i < j → i * p + p ≤ j * p
later_offset p i j later =
    let k : ℕ = j - suc i in
    let e : j ≡ suc i + k = omega (arith, later) in subst⁻¹ (λ x. i * p + p ≤ x * p) e (omega arith)

wrapped_apart : (base x y : ℕ) → x < y → y < 2 ^ 64 → (base + x) % 2 ^ 64 ≢ (base + y) % 2 ^ 64
wrapped_apart base x y less fits e = omega (arith, less, fits, e)

ranges_apart :
    (base max_tries nthreads i j a b : ℕ)
    → nthreads ≤ max_tries
    → max_tries < 2 ^ 64
    → i < j
    → j < nthreads
    → a < range_budget max_tries nthreads i
    → b < range_budget max_tries nthreads j
    → (range_start base max_tries nthreads i + a) % 2 ^ 64
      ≢ (range_start base max_tries nthreads j + b) % 2 ^ 64
ranges_apart base max_tries nthreads i j a b enough fits later below ina inb e =
    let p = per_thread max_tries nthreads in
    let mine = other_budget max_tries nthreads i (omega arith) in
    let far = range_fits max_tries nthreads j enough fits below in
    let gap = later_offset p i j later in
    wrapped_apart base (i * p + a) (j * p + b) (omega (arith, ina, mine, gap))
      (omega (arith, inb, far, fits))
      (sym (range_end base max_tries nthreads i a) ∙ e ∙ range_end base max_tries nthreads j b)

-- With at least as many tries as threads, and fewer tries than 2^64, each solo thread has a nonce to try.
-- The first one starts at the nonce of the block, each starts where the one before it ends, and the last
-- one ends after all the tries, modulo 2^64. No nonce is in the ranges of two threads.
pub range_budget-IsPart :
    (base max_tries nthreads i : ℕ)
    → base < 2 ^ 64
    → nthreads ≤ max_tries
    → max_tries < 2 ^ 64
    → i < nthreads
    → IsPart base max_tries nthreads i
range_budget-IsPart base max_tries nthreads i small enough fits below =
    let p = per_thread max_tries nthreads in
    let budget = range_budget max_tries nthreads i in
    let (low, whole) = per_thread-fits max_tries nthreads (omega arith) enough in
    let ends = range_end base max_tries nthreads i budget in
    let start = first_start base max_tries nthreads i small in
    elim (offset_end max_tries nthreads i enough fits below) [
      | inl (more, same) ↦ record {
        nonempty = omega (arith, low, same);
        first = start;
        next = λ more'.
            ends
            ∙ ap (λ b. (base + (i * p + b)) % 2 ^ 64) same
            ∙ start_of_next base max_tries nthreads i;
        last = λ e. absurd (omega (arith, e, more));
        apart = λ j a b later inside.
            ranges_apart base max_tries nthreads i j a b enough fits later inside;
      }
      | inr (e, some_left, all) ↦ record {
        nonempty = some_left;
        first = start;
        next = λ more. absurd (omega (arith, e, more));
        last = λ e'. ends ∙ ap (λ n. (base + n) % 2 ^ 64) all;
        apart = λ j a b later inside.
            ranges_apart base max_tries nthreads i j a b enough fits later inside;
      }
    ]
