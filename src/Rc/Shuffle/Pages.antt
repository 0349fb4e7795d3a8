-- ===== src/Rc/Shuffle/Pages.antt =====
-- core/matmul/matmul_v4_rc_coupled.cpp: the pages of the bank that a lobe reads at a barrier.
use native.Mathlib.Nat.{div-add-mod', mod-lt, mul-le-mul_right}
use btx_miner.Common.{
  ◌/◌, not_below, ℕ, zero, suc, ◌+◌, ◌*◌, ◌%◌, ◌^◌, ◌≤◌, ◌<◌, ◌≡◌, refl, ap, sym, ◌∙◌, List, get_or,
  length, arith,
}
use btx_miner.Rc.Shuffle.{page_order, page_slots, select_pages, CoupParams}
use btx_miner.Rc.Shuffle.Permutes.{
  IsPermutation, IsPermutation-lt, IsPermutation-once, Distinct-injective, shuffle-IsPermutation,
}

length-page_slots :
    (perm : List ℕ) (n base k left : ℕ) → length (page_slots perm n base k left) ≡ left
length-page_slots perm n base k zero = refl
length-page_slots perm n base k (suc left) = ap suc (length-page_slots perm n base (suc k) left)

get_or-page_slots :
    (perm : List ℕ) (n base k left j : ℕ)
    → j < left
    → get_or (page_slots perm n base k left) j 0 ≡ get_or perm ((base + (k + j)) % 2 ^ 64 % n) 0
get_or-page_slots perm n base k zero j h = absurd (not_below j h)
get_or-page_slots perm n base k (suc left) zero h =
    ap (λ i. get_or perm ((base + i) % 2 ^ 64 % n) 0) (omega arith)
get_or-page_slots perm n base k (suc left) (suc j) h =
    get_or-page_slots perm n base (suc k) left j (omega arith)
    ∙ ap (λ i. get_or perm ((base + i) % 2 ^ 64 % n) 0) (omega arith)

-- Positions that are fewer than `n` apart stay apart modulo `n`.
apart_mod : (n b i j : ℕ) → 1 ≤ n → i < n → j < n → (b + i) % n ≡ (b + j) % n → i ≡ j
apart_mod n b i j h k l e =
    let x = div-add-mod' (b + i) n in
    let y = div-add-mod' (b + j) n in
    let above : (b + i) / n < (b + j) / n → suc ((b + i) / n) * n ≤ (b + j) / n * n =
      λ c. mul-le-mul_right n c in
    let below : (b + j) / n < (b + i) / n → suc ((b + j) / n) * n ≤ (b + i) / n * n =
      λ c. mul-le-mul_right n c in
    grind arith

module _ (n : ℕ) (perm : List ℕ) (good : IsPermutation n perm) (h : 1 ≤ n) (base most : ℕ) where
  slots_in_bank : (k : ℕ) → k < most → get_or (page_slots perm n base 0 most) k 0 < n
  slots_in_bank k l = omega (
    arith,
    get_or-page_slots perm n base 0 most k l,
    IsPermutation-lt n perm ((base + (0 + k)) % 2 ^ 64 % n) good (mod-lt _ h),
  )

  slot_at :
      (k : ℕ)
      → base + most ≤ 2 ^ 64
      → k < most
      → get_or (page_slots perm n base 0 most) k 0 ≡ get_or perm ((base + k) % n) 0
  slot_at k b l =
      let inside : (base + (0 + k)) % 2 ^ 64 ≡ base + k = omega arith in
      get_or-page_slots perm n base 0 most k l ∙ ap (λ i. get_or perm (i % n) 0) inside

  slots_apart :
      (i j : ℕ)
      → most ≤ n
      → base + most ≤ 2 ^ 64
      → i < most
      → j < most
      → get_or (page_slots perm n base 0 most) i 0 ≡ get_or (page_slots perm n base 0 most) j 0
      → i ≡ j
  slots_apart i j few b l l' e =
      let same = sym (slot_at i b l) ∙ e ∙ slot_at j b l' in
      apart_mod n base i j h (omega arith) (omega arith) (
        Distinct-injective perm _ _ (IsPermutation-once n perm good)
          (omega (arith, good.0, mod-lt (base + i) h)) (omega (arith, good.0, mod-lt (base + j) h))
          same)

-- A bank of at least one page, a leg that reads no more pages than the bank has, and a schedule that stays
-- below 2 ^ 64: the leg reads as many pages as it should, each of them in the bank, and none twice.
pub select_pages_bounds :
    (sha256 : List ℕ → List ℕ) (barrier lobe : ℕ) (sigma : List ℕ) (p : CoupParams)
    → 1 ≤ p.bank_pages
    → p.pages_per_barrier_lobe ≤ p.bank_pages
    → (barrier * p.lobes + lobe) * p.pages_per_barrier_lobe + p.pages_per_barrier_lobe ≤ 2 ^ 64
    → let pages = select_pages sha256 barrier lobe sigma p in
      (length pages ≡ p.pages_per_barrier_lobe)
      × ((k : ℕ) → k < p.pages_per_barrier_lobe → get_or pages k 0 < p.bank_pages)
      × ((i j : ℕ)
          → i < p.pages_per_barrier_lobe
          → j < p.pages_per_barrier_lobe
          → get_or pages i 0 ≡ get_or pages j 0
          → i ≡ j)
unfolding select_pages
select_pages_bounds sha256 barrier lobe sigma p h few small =
    let perm = page_order sha256 sigma p in
    let n = p.bank_pages in
    let base = (barrier * p.lobes + lobe) * p.pages_per_barrier_lobe % 2 ^ 64 in
    let good : IsPermutation n perm = shuffle-IsPermutation sha256 n _ h in
    let most = p.pages_per_barrier_lobe in
    (
      length-page_slots perm n base 0 most,
      slots_in_bank n perm good h base most,
      λ i j l l' e. slots_apart n perm good h base most i j few (omega arith) l l' e,
    )
