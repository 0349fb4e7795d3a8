-- ===== src/Rc/Coupled/More.antt =====
-- core/matmul/matmul_v4_rc_coupled.cpp: more fuel changes no bank and no coupled digest.
use btx_miner.Common.{ℕ, zero, suc, ◌≤◌, ◌≡◌, List, Option, some, ap, sym, ◌∙◌}
use btx_miner.Common.Int.{ℤ}
use btx_miner.Rc.Expand.{Bytes, tabulate}
use btx_miner.Rc.More.{
  Extends, Extends-refl, >>=-Extends, expand_mx_dequant_i8-Extends, extract_row-Extends,
}
use btx_miner.Rc.Shuffle.{CoupParams}
use btx_miner.Rc.Coupled.Bank.{Page, all_some, derive_bank_page, derive_bank_pages, bank_root_seed}
use btx_miner.Rc.Coupled.{
  initial_lobes, barrier, run_barriers, run_coupled_with_bank, build_coupled_bank_v3,
  compute_coupled_digest_v3,
}
use btx_miner.Rc.Coupled.Gate.{all_some-cons, compute_coupled_digest_v3-eq-run}

all_some-Extends {ℓ} :
    {A : Type ℓ} (f g : ℕ → Option A) (from n : ℕ)
    → ((k : ℕ) → Extends (f k) (g k))
    → Extends (all_some (tabulate from n f)) (all_some (tabulate from n g))
unfolding all_some
all_some-Extends f g from zero h ys e = e
all_some-Extends f g from (suc n) h ys e =
    let (x, e1, (zs, e2, same)) = all_some-cons (f from) (tabulate (suc from) n f) e in
    rw (h from x e1, all_some-Extends f g (suc from) n h zs e2) (ap some same)

module _ (sha256 : Bytes → Bytes) (fuel more : ℕ) (h : fuel ≤ more) (p : CoupParams) where
  derive_bank_page-Extends :
      (brs : Bytes) (page : ℕ)
      → Extends (derive_bank_page sha256 fuel brs p page) (derive_bank_page sha256 more brs p page)
  unfolding derive_bank_page
  derive_bank_page-Extends brs page =
      >>=-Extends _ _ _ _
        (expand_mx_dequant_i8-Extends sha256 fuel more h _ p.lobe_width p.lobe_width)
        (λ m. Extends-refl _)

  derive_bank_pages-Extends :
      (brs : Bytes)
      → Extends (derive_bank_pages sha256 fuel brs p) (derive_bank_pages sha256 more brs p)
  unfolding derive_bank_pages
  derive_bank_pages-Extends brs =
      all_some-Extends (derive_bank_page sha256 fuel brs p) (derive_bank_page sha256 more brs p) 0
        p.bank_pages (derive_bank_page-Extends brs)

  build_coupled_bank_v3-Extends :
      (template : Bytes) (height : ℕ)
      → Extends
          (build_coupled_bank_v3 sha256 fuel p template height)
          (build_coupled_bank_v3 sha256 more p template height)
  unfolding build_coupled_bank_v3
  build_coupled_bank_v3-Extends template height =
      >>=-Extends _ _ _ _ (derive_bank_pages-Extends (bank_root_seed sha256 template height))
        (λ pages. Extends-refl _)

  initial_lobes-Extends :
      (sigma : Bytes) (e left : ℕ)
      → Extends
          (initial_lobes sha256 fuel p sigma e left)
          (initial_lobes sha256 more p sigma e left)
  unfolding initial_lobes
  initial_lobes-Extends sigma e zero = Extends-refl _
  initial_lobes-Extends sigma e (suc left) =
      >>=-Extends _ _ _ _
        (expand_mx_dequant_i8-Extends sha256 fuel more h _ p.lobe_width p.lobe_width)
        (λ tile.
          >>=-Extends _ _ _ _ (initial_lobes-Extends sigma (suc e) left) (λ rest. Extends-refl _))

  barrier-Extends :
      (pages : List Page) (sigma : Bytes) (b : ℕ) (state : List ℤ)
      → Extends
          (barrier sha256 fuel p pages sigma b state)
          (barrier sha256 more p pages sigma b state)
  unfolding barrier
  barrier-Extends pages sigma b state = extract_row-Extends sha256 fuel more h _ 0 0 _ _ state

  run_barriers-Extends :
      (pages : List Page) (sigma : Bytes) (b left : ℕ) (state : List ℤ)
      → Extends
          (run_barriers sha256 fuel p pages sigma b left state)
          (run_barriers sha256 more p pages sigma b left state)
  unfolding run_barriers
  run_barriers-Extends pages sigma b zero state = Extends-refl _
  run_barriers-Extends pages sigma b (suc left) state =
      >>=-Extends _ _ _ _ (barrier-Extends pages sigma b state) (λ state'.
        >>=-Extends _ _ _ _ (run_barriers-Extends pages sigma (suc b) left state')
          (λ rest. Extends-refl _))

  run_coupled_with_bank-Extends :
      (sigma : Bytes) (pages : List Page) (bank_root : Bytes)
      → Extends
          (run_coupled_with_bank sha256 fuel p sigma pages bank_root)
          (run_coupled_with_bank sha256 more p sigma pages bank_root)
  unfolding run_coupled_with_bank
  run_coupled_with_bank-Extends sigma pages bank_root =
      >>=-Extends _ _ _ _ (initial_lobes-Extends sigma 0 p.lobes) (λ state.
        >>=-Extends _ _ _ _ (run_barriers-Extends pages sigma 0 p.barriers state)
          (λ roots. Extends-refl _))

  -- A coupled digest that is found, whatever SHA-256 returns, is the same for any larger number of blocks
  -- that a stream may draw.
  pub compute_coupled_digest_v3_more :
      (sigma template : Bytes) (height : ℕ) {out : Bytes}
      → compute_coupled_digest_v3 sha256 fuel p sigma template height ≡ some out
      → compute_coupled_digest_v3 sha256 more p sigma template height ≡ some out
  compute_coupled_digest_v3_more sigma template height {out} e =
      compute_coupled_digest_v3-eq-run sha256 more p sigma template height
      ∙ >>=-Extends _ _ _ _ (build_coupled_bank_v3-Extends template height)
          (λ bank. run_coupled_with_bank-Extends sigma bank.pages bank.bank_root) out
          (sym (compute_coupled_digest_v3-eq-run sha256 fuel p sigma template height) ∙ e)
