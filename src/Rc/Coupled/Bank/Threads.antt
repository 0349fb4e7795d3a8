-- ===== src/Rc/Coupled/Bank/Threads.antt =====
-- core/matmul/matmul_v4_rc_coupled.cpp: the threads leave the pages that one thread would, however their writes
-- interleave.
use mathlib.Core.List.{Memᴰ}
use btx_miner.Common.{
  min, max, not_below, ℕ, zero, suc, ◌+◌, ◌*◌, ◌/◌, ◌%◌, ◌≤◌, ◌<◌, ◌≡◌, refl, ap, sym, ◌∙◌, ◌⊎◌,
  inl, inr, List, [], ◌∷◌, some, length, get_elem?, set, replicate, length-set, get_elem?-set_self,
  get_elem?-set_ne, length-replicate, ltb, arith, All, subst, ℕ_discrete, ap₂, true,
}
use native.Mathlib.Nat.{div-add-mod}
use btx_miner.Rc.Expand.{Bytes, tabulate}
use btx_miner.Rc.Shuffle.{CoupParams}
use btx_miner.Rc.Coupled.Bank.{
  thread_pages, run_writes, all_some, derive_bank_page, derive_bank_pages,
}

-- The writes of several threads, each in its own order, in some order: one of them writes next until
-- none is left to write.
pub data Interleaves : List (List ℕ) → List ℕ → Type 0 where
  finished : {ts : List (List ℕ)} → All (λ t. t ≡ []) ts → Interleaves ts []
  writes :
      {ts : List (List ℕ)} (k : ℕ) {x : ℕ} {xs ws : List ℕ}
      → get_elem? ts k ≡ some (x ∷ xs)
      → Interleaves (set ts k xs) ws
      → Interleaves ts (x ∷ ws)

get_elem?-lt {ℓ} :
    {A : Type ℓ} (xs : List A) (k : ℕ) {x : A} → get_elem? xs k ≡ some x → k < length xs
get_elem?-lt [] k h = ground arith
get_elem?-lt (x ∷ xs) zero h = omega arith
get_elem?-lt (x ∷ xs) (suc k) h = omega (arith, get_elem?-lt xs k h)

finished_empty :
    (ts : List (List ℕ)) (k : ℕ) {t : List ℕ}
    → All (λ t. t ≡ []) ts
    → get_elem? ts k ≡ some t
    → t ≡ []
finished_empty [] k h e = ground arith
finished_empty (t ∷ ts) zero h e = cc (h.0, e)
finished_empty (t ∷ ts) (suc k) h e = finished_empty ts k h.1 e

not-Memᴰ-nil : {x : ℕ} {t : List ℕ} → t ≡ [] → ¬ Memᴰ x t
not-Memᴰ-nil e (Memᴰ.head p) = ground arith
not-Memᴰ-nil e (Memᴰ.tail m) = ground arith

uncons-Memᴰ : {pg x : ℕ} {t xs : List ℕ} → Memᴰ pg t → t ≡ x ∷ xs → (pg ≡ x) ⊎ Memᴰ pg xs
uncons-Memᴰ (Memᴰ.head p) e = inl (ground arith)
uncons-Memᴰ {pg} (Memᴰ.tail m) e = inr (subst (Memᴰ pg) (ground arith) m)

-- What a thread is to write is written.
written :
    {ts : List (List ℕ)} {ws : List ℕ} (k : ℕ) {t : List ℕ} {pg : ℕ}
    → Interleaves ts ws
    → get_elem? ts k ≡ some t
    → Memᴰ pg t
    → Memᴰ pg ws
written {ts} k (finished all) e m = absurd (not-Memᴰ-nil (finished_empty ts k all e) m)
written {ts} k {t} (writes j {x} {xs} e' later) e m = elim (ℕ_discrete j k) [
  | no other ↦ Memᴰ.tail (written k later (get_elem?-set_ne ts xs other ∙ e) m)
  | yes same ↦ elim (uncons-Memᴰ m (next_of same)) [
    | inl first ↦ Memᴰ.head first
    | inr rest ↦ Memᴰ.tail (written k later (left same) rest)
  ]
]
  where
    next_of : j ≡ k → t ≡ x ∷ xs
    next_of same = let at = ap (get_elem? ts) same in ground (arith, at)

    left : j ≡ k → get_elem? (set ts j xs) k ≡ some xs
    left same =
        sym (ap (get_elem? (set ts j xs)) same) ∙ get_elem?-set_self ts j xs (get_elem?-lt ts j e')

module _ {ℓ} {A : Type ℓ} (derive : ℕ → A) where
  length-run_writes :
      (ws : List ℕ) (pages : List A) → length (run_writes derive ws pages) ≡ length pages
  unfolding run_writes
  length-run_writes [] pages = refl
  length-run_writes (pg ∷ ws) pages =
      length-run_writes ws (set pages pg (derive pg)) ∙ length-set pages pg (derive pg)

  -- Every write of a slot puts the same page there.
  kept_page :
      (ws : List ℕ) (pages : List A) (pg : ℕ)
      → get_elem? pages pg ≡ some (derive pg)
      → get_elem? (run_writes derive ws pages) pg ≡ some (derive pg)
  unfolding run_writes
  kept_page [] pages pg h = h
  kept_page (w ∷ ws) pages pg h = elim (ℕ_discrete w pg) [
    | no other ↦ kept_page ws _ pg (get_elem?-set_ne pages (derive w) other ∙ h)
    | yes same ↦ kept_page ws _ pg (
        subst (λ k. get_elem? (set pages w (derive w)) k ≡ some (derive k)) same
          (get_elem?-set_self pages w (derive w)
            (subst (λ k. k < length pages) (sym same) (get_elem?-lt pages pg h))))
  ]

  written_page :
      (ws : List ℕ) (pages : List A) (pg : ℕ)
      → pg < length pages
      → Memᴰ pg ws
      → get_elem? (run_writes derive ws pages) pg ≡ some (derive pg)
  unfolding run_writes
  written_page [] pages pg h m = absurd (not-Memᴰ-nil refl m)
  written_page (w ∷ ws) pages pg h (Memᴰ.head p) = kept_page ws _ pg (
      subst (λ k. get_elem? (set pages k (derive k)) pg ≡ some (derive pg)) p
        (get_elem?-set_self pages pg (derive pg) h))
  written_page (w ∷ ws) pages pg h (Memᴰ.tail m) =
      written_page ws _ pg (omega (arith, length-set pages w (derive w))) m

  get_elem?-tabulate :
      (from n pg : ℕ) → pg < n → get_elem? (tabulate from n derive) pg ≡ some (derive (from + pg))
  get_elem?-tabulate from zero pg h = absurd (not_below pg h)
  get_elem?-tabulate from (suc n) zero h = ap (λ k. some (derive k)) (omega arith)
  get_elem?-tabulate from (suc n) (suc pg) h =
      get_elem?-tabulate (suc from) n pg (omega arith) ∙ ap (λ k. some (derive k)) (omega arith)

  length-tabulate : (from n : ℕ) → length (tabulate from n derive) ≡ n
  length-tabulate from zero = refl
  length-tabulate from (suc n) = ap suc (length-tabulate (suc from) n)

-- Two lists with the same entries are equal.
list_ext {ℓ} :
    {A : Type ℓ} (xs ys : List A)
    → length xs ≡ length ys
    → ((k : ℕ) → k < length xs → get_elem? xs k ≡ get_elem? ys k)
    → xs ≡ ys
list_ext [] [] n h = refl
list_ext [] (y ∷ ys) n h = absurd (omega arith)
list_ext (x ∷ xs) [] n h = absurd (omega arith)
list_ext (x ∷ xs) (y ∷ ys) n h =
    let rest = list_ext xs ys (omega arith) (λ k l. h (suc k) (omega arith)) in
    let first = h 0 (omega arith) in ap₂ (λ a b. a ∷ b) (ground (arith, first)) rest

-- The pages of a thread are every `nthreads`-th one.
thread_has :
    (fuel first nthreads n j : ℕ)
    → first + j * nthreads < n
    → j < fuel
    → Memᴰ (first + j * nthreads) (thread_pages fuel first nthreads n)
unfolding thread_pages
thread_has zero first nthreads n j h l = absurd (not_below j l)
thread_has (suc fuel) first nthreads n zero h l =
    let go : ltb first n ≡ true = ground arith in rw go (Memᴰ.head (omega arith))
thread_has (suc fuel) first nthreads n (suc j) h l =
    let go : ltb first n ≡ true = grind arith in
    let at : (first + nthreads) + j * nthreads ≡ first + suc j * nthreads = grind arith in
    rw go (
      Memᴰ.tail (
        subst (λ pg. Memᴰ pg (thread_pages fuel (first + nthreads) nthreads n)) at
          (thread_has fuel (first + nthreads) nthreads n j (omega (arith, at)) (omega arith))))

-- The threads of `derive_bank_pages`: thread `t` starts at page `t`.
abbrev pub all_threads : ℕ → ℕ → List (List ℕ)
all_threads nthreads n = tabulate 0 nthreads (λ t. thread_pages n t nthreads n)

run_writes-eq-tabulate {ℓ} :
    {A : Type ℓ} (derive : ℕ → A) (blank : A) (nthreads n : ℕ) (ws : List ℕ)
    → 1 ≤ nthreads
    → Interleaves (all_threads nthreads n) ws
    → run_writes derive ws (replicate n blank) ≡ tabulate 0 n derive
run_writes-eq-tabulate derive blank nthreads n ws some_thread order =
    let long = length-run_writes derive ws (replicate n blank) ∙ length-replicate n blank in
    list_ext _ _ (long ∙ sym (length-tabulate derive 0 n)) (λ k l. same k (omega (arith, long)))
  where
    same :
        (k : ℕ)
        → k < n
        → get_elem? (run_writes derive ws (replicate n blank)) k ≡ get_elem? (tabulate 0 n derive) k
    same k l =
        let r = k % nthreads in
        let q = k / nthreads in
        let parts : (0 + r) + q * nthreads ≡ k = grind (arith, div-add-mod k nthreads) in
        let few : q < n = grind (arith, parts) in
        let thread =
          get_elem?-tabulate (λ t. thread_pages n t nthreads n) 0 nthreads r (grind arith) in
        let there = thread_has n (0 + r) nthreads n q (omega (arith, parts)) few in
        let m = subst (λ pg. Memᴰ pg ws) parts (written r order thread there) in
        written_page derive ws (replicate n blank) k (omega (arith, length-replicate n blank)) m
        ∙ sym (get_elem?-tabulate derive 0 n k l ∙ ap (λ i. some (derive i)) (omega arith))

-- In whatever order the writes of the threads come, each thread's own in order, the array that they
-- leave is the one that a single thread derives page by page: for any number of processors that makes more
-- than one thread, the number of threads being cut to that of the pages.
pub derive_bank_pages-Interleaves :
    (sha256 : Bytes → Bytes) (fuel : ℕ) (brs : Bytes) (p : CoupParams) (processors : ℕ)
    (ws : List ℕ)
    → 2 ≤ min (max 1 processors) p.bank_pages
    → Interleaves (all_threads (min (max 1 processors) p.bank_pages) p.bank_pages) ws
    → all_some
        (run_writes (derive_bank_page sha256 fuel brs p) ws (replicate p.bank_pages (some [])))
      ≡ derive_bank_pages sha256 fuel brs p
unfolding derive_bank_pages
derive_bank_pages-Interleaves sha256 fuel brs p processors ws many order = ap all_some (
    run_writes-eq-tabulate (derive_bank_page sha256 fuel brs p) (some [])
      (min (max 1 processors) p.bank_pages) p.bank_pages ws (omega (arith, many)) order)
