-- ===== src/Rc/Coupled/Gate.antt =====
-- core/matmul/matmul_v4_rc_coupled.cpp: a bank that is built for the dimensions passes the gate on its shape.
use mathlib.Core.List.{flatten}
use btx_miner.Common.{
  ℕ, zero, suc, ◌*◌, ◌≡◌, refl, ap, sym, ◌∙◌, true, List, [], ◌∷◌, Option, none, some, length,
  length-append, All, subst, arith, ==_iff, Option-cases, inl, inr,
}
use btx_miner.Rc.Expand.{Bytes, Matrix, tag, tabulate, ◌>>=◌, expand_mx_dequant_i8}
use btx_miner.Rc.Expand.Shape.{expand_mx_dequant_i8-IsMatrix}
use btx_miner.Rc.Tile.Within.{IsRow, >>=-some}
use btx_miner.Rc.Shuffle.{CoupParams, sha_tag_u32}
use btx_miner.Rc.Coupled.Bank.{Page, all_some, derive_bank_page, derive_bank_pages, bank_root_seed}
use btx_miner.Rc.Coupled.{
  pages_fit, run_coupled_with_bank, build_coupled_bank_v3, compute_coupled_digest_v3_with_bank,
  compute_coupled_digest_v3,
}

length-flatten : (cols : ℕ) (m : Matrix) → All (IsRow cols) m → length (flatten m) ≡ length m * cols
unfolding flatten
length-flatten cols [] h = omega arith
length-flatten cols (r ∷ m) h =
    let later = length-flatten cols m h.1 in
    let long = length-append r (flatten m) in let here = h.0.0 in grind arith

pub all_some-cons {ℓ} :
    {A : Type ℓ} (o : Option A) (xs : List (Option A)) {ys : List A}
    → all_some (o ∷ xs) ≡ some ys
    → (x : A) × (o ≡ some x) × ((zs : List A) × (all_some xs ≡ some zs) × (x ∷ zs ≡ ys))
unfolding all_some
all_some-cons none xs e = ground arith
all_some-cons (some x) xs e = elim (Option-cases (all_some xs)) [
  | inl h ↦ absurd (ground (arith, h))
  | inr (zs, h) ↦ (x, refl, (zs, h, ground (arith, h)))
]

module _ (sha256 : Bytes → Bytes) (fuel : ℕ) (p : CoupParams) where
  page_length :
      (brs : Bytes) (pg : ℕ) {page : Page}
      → derive_bank_page sha256 fuel brs p pg ≡ some page
      → length page ≡ p.lobe_width * p.lobe_width
  unfolding derive_bank_page
  page_length brs pg {page} e =
      let seed = sha_tag_u32 sha256 (tag "BTX_RC_COUP_BANK_V3") brs pg in
      let (m, e1, e2) =
        >>=-some (expand_mx_dequant_i8 sha256 fuel seed p.lobe_width p.lobe_width) _ e in
      let shape = expand_mx_dequant_i8-IsMatrix sha256 fuel seed p.lobe_width p.lobe_width e1 in
      let same : flatten m ≡ page = ground arith in
      sym (ap length same)
      ∙ length-flatten p.lobe_width m shape.1
      ∙ ap (λ n. n * p.lobe_width) shape.0

  pages_lem :
      (brs : Bytes) (from n : ℕ) {pages : List Page}
      → all_some (tabulate from n (derive_bank_page sha256 fuel brs p)) ≡ some pages
      → (length pages ≡ n) × (pages_fit p pages ≡ true)
  unfolding all_some
  pages_lem brs from zero {pages} e =
      let same : [] ≡ pages = ground arith in
      subst (λ (ps : List Page). (length ps ≡ 0) × (pages_fit p ps ≡ true)) same (refl, refl)
  pages_lem brs from (suc n) {pages} e =
      let derive = derive_bank_page sha256 fuel brs p in
      let (page, e1, (rest, e2, same)) =
        all_some-cons (derive from) (tabulate (suc from) n derive) e in
      let later = pages_lem brs (suc from) n e2 in
      let square = (==_iff _ _).1 (page_length brs from e1) in
      subst (λ (ps : List Page). (length ps ≡ suc n) × (pages_fit p ps ≡ true)) same
        (ap suc later.0, rw (square, later.1) refl)

  pages_of :
      (brs : Bytes) (pages : List Page)
      → derive_bank_pages sha256 fuel brs p ≡ some pages
      → (length pages ≡ p.bank_pages) × (pages_fit p pages ≡ true)
  unfolding derive_bank_pages
  pages_of brs pages e = pages_lem brs 0 p.bank_pages e

  gate_open :
      (sigma root : Bytes) (pages : List Page)
      → (length pages ≡ p.bank_pages) × (pages_fit p pages ≡ true)
      → compute_coupled_digest_v3_with_bank sha256 fuel p sigma
          (record { pages = pages; bank_root = root })
        ≡ run_coupled_with_bank sha256 fuel p sigma pages root
  unfolding compute_coupled_digest_v3_with_bank
  gate_open sigma root pages (many, fit) = rw ((==_iff _ _).1 many, fit) refl

  -- A bank that is built for some dimensions passes the gate of the same dimensions, so the digest is that
  -- of the run over it, for every header, template and height: the null digest of the gate is never it.
  pub compute_coupled_digest_v3-eq-run :
      (sigma bank_template_hash : Bytes) (height : ℕ)
      → compute_coupled_digest_v3 sha256 fuel p sigma bank_template_hash height ≡ (
          build_coupled_bank_v3 sha256 fuel p bank_template_hash height >>= λ bank.
          run_coupled_with_bank sha256 fuel p sigma bank.pages bank.bank_root)
  unfolding compute_coupled_digest_v3 build_coupled_bank_v3
  compute_coupled_digest_v3-eq-run sigma bank_template_hash height =
      let brs = bank_root_seed sha256 bank_template_hash height in
      elim (Option-cases (derive_bank_pages sha256 fuel brs p)) [
        | inl e ↦ rw e refl
        | inr (pages, e) ↦ rw e (gate_open sigma _ pages (pages_of brs pages e))
      ]
