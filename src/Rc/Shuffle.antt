-- ===== src/Rc/Shuffle.antt =====
-- core/matmul/matmul_v4_rc_coupled.cpp: the permutations that a seed draws (Fisher and Yates), the pages that a
-- barrier reads, and the permutation of the lanes. The number that is permuted is positive: `n - 1` does not
-- wrap.
pub mod Counts
pub mod Permutes
pub mod Pages
use btx_miner.Common.{
  ℕ, zero, suc, ◌+◌, ◌-◌, ◌*◌, ◌%◌, ◌^◌, List, [], ◌∷◌, ◌++◌, get_or, set, length, replicate,
}
use btx_miner.Common.Bytes.{le_bytes}
use btx_miner.Rc.Xof.{ShaXof, sha_xof, next}

-- The numbers from `from` on.
abbrev pub iota : ℕ → ℕ → List ℕ
iota from zero = []
iota from (suc n) = from ∷ iota (suc from) n

abbrev pub swap : List ℕ → ℕ → ℕ → List ℕ
swap xs i j = set (set xs i (get_or xs j 0)) j (get_or xs i 0)

-- `kPermTag`, "BTX_RC_COUP_PERM_V3", and `kFullBankTag`, "BTX_RC_COUP_FULL_BANK_V3".
abbrev perm_tag : List ℕ
perm_tag =
    66 ∷ 84 ∷ 88 ∷ 95 ∷ 82 ∷ 67 ∷ 95 ∷ 67 ∷ 79 ∷ 85 ∷ 80 ∷ 95 ∷ 80 ∷ 69 ∷ 82 ∷ 77 ∷ 95 ∷ 86 ∷ 51
    ∷ []

abbrev full_bank_tag : List ℕ
full_bank_tag =
    66 ∷ 84 ∷ 88 ∷ 95 ∷ 82 ∷ 67 ∷ 95 ∷ 67 ∷ 79 ∷ 85 ∷ 80 ∷ 95 ∷ 70 ∷ 85 ∷ 76 ∷ 76 ∷ 95 ∷ 66 ∷ 65
    ∷ 78 ∷ 75 ∷ 95 ∷ 86 ∷ 51 ∷ []

-- `CoupParamsV3`.
pub record CoupParams : Type 0 where
  pub barriers : ℕ
  pub lobes : ℕ
  pub lobe_width : ℕ
  pub bank_pages : ℕ
  pub rows_per_lobe : ℕ
  pub pages_per_barrier_lobe : ℕ
  pub exchange_rounds : ℕ

-- The pages in slots `k` on of a leg: `out[k] = perm[(base + k) % bank_pages]`.
abbrev pub page_slots : List ℕ → ℕ → ℕ → ℕ → ℕ → List ℕ
page_slots perm bank_pages base k zero = []
page_slots perm bank_pages base k (suc left) =
    get_or perm ((base + k) % 2 ^ 64 % bank_pages) 0 ∷ page_slots perm bank_pages base (suc k) left

module _ (sha256 : List ℕ → List ℕ) where
  abbrev pub sha_tag_u32 : List ℕ → List ℕ → ℕ → List ℕ
  sha_tag_u32 tag a x = sha256 (tag ++ (a ++ le_bytes 4 x))

  -- The loop, from index `i` down to 1.
  unfoldable pub shuffle : ℕ → List ℕ → ShaXof → List ℕ
  shuffle zero pi x = pi
  shuffle (suc i) pi x =
      let (w, y) = next sha256 x in shuffle i (swap pi (suc i) (w % (suc i + 1))) y

  unfoldable pub balanced_perm : List ℕ → ℕ → ℕ → List ℕ
  balanced_perm sigma barrier n =
      shuffle (n - 1) (iota 0 n) (sha_xof (sha_tag_u32 perm_tag sigma barrier))

  abbrev pub page_order : List ℕ → CoupParams → List ℕ
  page_order sigma p =
      shuffle (p.bank_pages - 1) (iota 0 p.bank_pages)
        (sha_xof (sha_tag_u32 full_bank_tag sigma p.bank_pages))

  unfoldable pub select_pages : ℕ → ℕ → List ℕ → CoupParams → List ℕ
  select_pages barrier lobe sigma p =
      let base = (barrier * p.lobes + lobe) * p.pages_per_barrier_lobe % 2 ^ 64 in
      page_slots (page_order sigma p) p.bank_pages base 0 p.pages_per_barrier_lobe

-- The loop of `apply_perm`: lane `i` goes to position `pi[i]`.
abbrev pub scatter : List ℕ → List ℕ → List ℕ → List ℕ
scatter [] s tmp = tmp
scatter (p ∷ pi) [] tmp = tmp
scatter (p ∷ pi) (v ∷ s) tmp = scatter pi s (set tmp p v)

unfoldable pub apply_perm : List ℕ → List ℕ → List ℕ
apply_perm s pi = scatter pi s (replicate (length s) 0)
