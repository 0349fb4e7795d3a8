-- ===== src/Rc/Coupled/Bank.antt =====
-- core/matmul/matmul_v4_rc_coupled.cpp: the bank of pages that a template of the header gives, and its
-- commitment. A page is the flat list of its entries. The threads write disjoint slots of one array: each writes
-- every `nthreads`-th page, and their writes interleave.
pub mod Threads
use mathlib.Core.Option
use mathlib.Core.List.{flatten}
use btx_miner.Common.{
  ℕ, zero, suc, ◌+◌, ◌*◌, List, [], ◌∷◌, ◌++◌, map, Option, none, some, min, max, set, replicate,
  ltb, leb, if◌then◌else◌,
}
use btx_miner.Common.Int.{ℤ, to_unsigned}
use btx_miner.Rc.Expand.{Bytes, tag, tabulate, ◌>>=◌, expand_mx_dequant_i8}
use btx_miner.Rc.Merkle.{sha256d}
use btx_miner.Rc.Shuffle.{CoupParams, sha_tag_u32}

abbrev pub Page : Type 0
Page = List ℤ

abbrev pub page_bytes : Page → Bytes
page_bytes page = map (λ x. to_unsigned 256 x) page

-- The pages of thread `t`: from `pg` on by `nthreads`, below `n`.
unfoldable pub thread_pages : ℕ → ℕ → ℕ → ℕ → List ℕ
thread_pages zero pg nthreads n = []
thread_pages (suc fuel) pg nthreads n =
    let rest = thread_pages fuel (pg + nthreads) nthreads n in if ltb pg n then pg ∷ rest else []

-- `pages[pg] = derive_bank_page(brs, pg, p)`, for the writes as they come.
unfoldable pub run_writes {ℓ} : {A : Type ℓ} → (ℕ → A) → List ℕ → List A → List A
run_writes derive [] pages = pages
run_writes derive (pg ∷ ws) pages = run_writes derive ws (set pages pg (derive pg))

-- All the values, or none.
unfoldable pub all_some {ℓ} : {A : Type ℓ} → List (Option A) → Option (List A)
all_some [] = some []
all_some (none ∷ xs) = none
all_some (some x ∷ xs) = Option.map (λ ys. x ∷ ys) (all_some xs)

module _ (sha256 : Bytes → Bytes) where
  abbrev pub bank_root_seed : Bytes → ℕ → Bytes
  bank_root_seed tmpl_hash height = sha_tag_u32 sha256 (tag "BTX_RC_COUP_BANK_V3") tmpl_hash height

  -- The digest of the tag and all pages, hashed again.
  unfoldable pub bank_commitment : List Page → Bytes
  bank_commitment pages =
      sha256d sha256 (tag "BTX_RC_COUP_BANK_V3" ++ flatten (map page_bytes pages))

  module _ (fuel : ℕ) where
    unfoldable pub derive_bank_page : Bytes → CoupParams → ℕ → Option Page
    derive_bank_page brs p page = do
      m ←
          expand_mx_dequant_i8 sha256 fuel (sha_tag_u32 sha256 (tag "BTX_RC_COUP_BANK_V3") brs page)
            p.lobe_width p.lobe_width
      some (flatten m)

    -- The pages one after the other, which is also what the threads leave.
    unfoldable pub derive_bank_pages : Bytes → CoupParams → Option (List Page)
    derive_bank_pages brs p = all_some (tabulate 0 p.bank_pages (derive_bank_page brs p))
