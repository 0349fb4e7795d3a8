-- ===== src/Rc/Gemm/Dot.antt =====
-- core/matmul/matmul_v4_rc_coupled.cpp: an entry of the product is the dot product, and fits 32 bits.
use btx_miner.Common.{
  not_below, ℕ, zero, suc, ◌+◌, ◌*◌, ◌≤◌, ◌<◌, ◌≡◌, refl, ap, sym, ◌∙◌, List, [], ◌∷◌, get_or,
  length, replicate, length-replicate, length-take, take, ◌^◌, arith, if◌then◌else◌, Bool, true,
  Bool-cases, inl, inr,
}
use btx_miner.Common.Int.{pos_part, neg_part, ℤ, pos, ◌+ℤ◌, ◌*ℤ◌, ◌==ℤ◌}
use btx_miner.Rc.Gemm.{add_scaled, accumulate_row}

-- The sum over `k` of `row[k] * page[k][c]`.
abbrev pub dot : List ℤ → List (List ℤ) → ℕ → ℤ
dot [] page c = pos 0
dot (a ∷ row) [] c = pos 0
dot (a ∷ row) (pk ∷ page) c = a *ℤ get_or pk c (pos 0) +ℤ dot row page c

pub +ℤ-assoc : (x y z : ℤ) → (x +ℤ y) +ℤ z ≡ x +ℤ (y +ℤ z)
unfolding ◌+ℤ◌
+ℤ-assoc x y z = ground arith

pub +ℤ-zero : (x : ℤ) → x +ℤ pos 0 ≡ x
unfolding ◌+ℤ◌
+ℤ-zero x = ground arith

pub zero-+ℤ : (x : ℤ) → pos 0 +ℤ x ≡ x
unfolding ◌+ℤ◌
zero-+ℤ x = ground arith

zero-*ℤ : (a y : ℤ) → (a ==ℤ pos 0) ≡ true → a *ℤ y ≡ pos 0
unfolding ◌*ℤ◌
zero-*ℤ a y h = ground arith

*ℤ-zero : (a : ℤ) → a *ℤ pos 0 ≡ pos 0
unfolding ◌*ℤ◌
*ℤ-zero a = ground arith

-- The absolute value.
abbrev pub size : ℤ → ℕ
size x = pos_part x + neg_part x

size-+ℤ : (x y : ℤ) → size (x +ℤ y) ≤ size x + size y
unfolding ◌+ℤ◌
size-+ℤ x y = ground arith

pub size-*ℤ : (m n : ℕ) (x y : ℤ) → size x ≤ m → size y ≤ n → size (x *ℤ y) ≤ m * n
unfolding ◌*ℤ◌
size-*ℤ m n x y h k = grind arith

-- One step of the sum in one column; rows of the page that are long enough are read in full.
pub get_or-add_scaled :
    (a : ℤ) (pk acc : List ℤ) (c : ℕ)
    → c < length acc
    → get_or (add_scaled a pk acc) c (pos 0) ≡ get_or acc c (pos 0) +ℤ a *ℤ get_or pk c (pos 0)
get_or-add_scaled a [] acc c h = sym (ap (λ t. get_or acc c (pos 0) +ℤ t) (*ℤ-zero a) ∙ +ℤ-zero _)
get_or-add_scaled a (p ∷ pk) [] c h = absurd (not_below c h)
get_or-add_scaled a (p ∷ pk) (x ∷ acc) zero h = refl
get_or-add_scaled a (p ∷ pk) (x ∷ acc) (suc c) h = get_or-add_scaled a pk acc c (omega arith)

pub length-add_scaled : (a : ℤ) (pk acc : List ℤ) → length (add_scaled a pk acc) ≡ length acc
length-add_scaled a [] acc = refl
length-add_scaled a (p ∷ pk) [] = refl
length-add_scaled a (p ∷ pk) (x ∷ acc) = ap suc (length-add_scaled a pk acc)

-- The step with the skip of a zero.
abbrev step : ℤ → List ℤ → List ℤ → List ℤ
step a pk acc = if a ==ℤ pos 0 then acc else add_scaled a pk acc

step_lem :
    (a : ℤ) (pk acc : List ℤ) (c : ℕ)
    → c < length acc
    → (length (step a pk acc) ≡ length acc)
      × (get_or (step a pk acc) c (pos 0) ≡ get_or acc c (pos 0) +ℤ a *ℤ get_or pk c (pos 0))
step_lem a pk acc c h = elim (Bool-cases (a ==ℤ pos 0)) [
  | inl e ↦ (
    ap (λ (b : Bool). length (if b then acc else add_scaled a pk acc)) e,
    ap (λ (b : Bool). get_or (if b then acc else add_scaled a pk acc) c (pos 0)) e
        ∙ sym (ap (λ t. get_or acc c (pos 0) +ℤ t) (zero-*ℤ a _ e) ∙ +ℤ-zero _),
  )
  | inr e ↦ (
    ap (λ (b : Bool). length (if b then acc else add_scaled a pk acc)) e
        ∙ length-add_scaled a pk acc,
    ap (λ (b : Bool). get_or (if b then acc else add_scaled a pk acc) c (pos 0)) e
        ∙ get_or-add_scaled a pk acc c h,
  )
]

accumulate_row-dot :
    (row : List ℤ) (page : List (List ℤ)) (acc : List ℤ) (c : ℕ)
    → c < length acc
    → get_or (accumulate_row row page acc) c (pos 0) ≡ get_or acc c (pos 0) +ℤ dot row page c
unfolding accumulate_row
accumulate_row-dot [] page acc c h = sym (+ℤ-zero _)
accumulate_row-dot (a ∷ row) [] acc c h = sym (+ℤ-zero _)
accumulate_row-dot (a ∷ row) (pk ∷ page) acc c h =
    let (len, here) = step_lem a pk acc c h in
    accumulate_row-dot row page (step a pk acc) c (omega arith)
    ∙ ap (λ t. t +ℤ dot row page c) here
    ∙ +ℤ-assoc _ _ _

-- Every entry is at most `n` in size.
abbrev pub AreWithin : ℕ → List ℤ → Type 0
AreWithin n [] = 0 ≤ n
AreWithin n (x ∷ xs) = (size x ≤ n) × AreWithin n xs

abbrev pub RowsWithin : ℕ → List (List ℤ) → Type 0
RowsWithin n [] = 0 ≤ n
RowsWithin n (r ∷ rows) = AreWithin n r × RowsWithin n rows

pub get_or-AreWithin :
    (n : ℕ) (xs : List ℤ) (c : ℕ) → AreWithin n xs → size (get_or xs c (pos 0)) ≤ n
get_or-AreWithin n [] c h = omega arith
get_or-AreWithin n (x ∷ xs) zero h = h.0
get_or-AreWithin n (x ∷ xs) (suc c) h = get_or-AreWithin n xs c h.1

size-dot :
    (row : List ℤ) (page : List (List ℤ)) (c : ℕ)
    → AreWithin 48 row
    → RowsWithin 48 page
    → size (dot row page c) ≤ 2304 * length row
size-dot [] page c h k = omega arith
size-dot (a ∷ row) [] c h k = omega arith
size-dot (a ∷ row) (pk ∷ page) c h k =
    let entry = size-*ℤ 48 48 a (get_or pk c (pos 0)) h.0 (get_or-AreWithin 48 pk c k.0) in
    let total = size-+ℤ (a *ℤ get_or pk c (pos 0)) (dot row page c) in
    omega (arith, size-dot row page c h.1 k.1, entry, total)

pub take-AreWithin : (n k : ℕ) (xs : List ℤ) → AreWithin n xs → AreWithin n (take k xs)
take-AreWithin n zero xs h = omega arith
take-AreWithin n (suc k) [] h = omega arith
take-AreWithin n (suc k) (x ∷ xs) h = (h.0, take-AreWithin n k xs h.1)

zeros : (width c : ℕ) → get_or (replicate width (pos 0)) c (pos 0) ≡ pos 0
zeros zero c = refl
zeros (suc width) zero = refl
zeros (suc width) (suc c) = zeros width c

sum_lem :
    (row : List ℤ) (page : List (List ℤ)) (width c : ℕ)
    → c < length (replicate width (pos 0))
    → get_or (accumulate_row row page (replicate width (pos 0))) c (pos 0) ≡ dot row page c
sum_lem row page width c inside =
    accumulate_row-dot row page (replicate width (pos 0)) c inside
    ∙ ap (λ t. t +ℤ dot row page c) (zeros width c)
    ∙ zero-+ℤ _

-- For operands of at most 48 in size and a width of at most 8192, the sums of one row against a page are
-- the dot products with its columns, and after any number of steps they are below 2 ^ 31 in size:
-- skipping zeros changes nothing, and no 32-bit sum overflows on the way.
pub accumulate_row-eq-dot :
    (row : List ℤ) (page : List (List ℤ)) (width c : ℕ)
    → length row ≤ 8192
    → AreWithin 48 row
    → RowsWithin 48 page
    → c < width
    → (get_or (accumulate_row row page (replicate width (pos 0))) c (pos 0) ≡ dot row page c)
      × ((k : ℕ)
          → size (get_or (accumulate_row (take k row) page (replicate width (pos 0))) c (pos 0))
            < 2 ^ 31)
accumulate_row-eq-dot row page width c short h k l =
    let inside : c < length (replicate width (pos 0)) =
      omega (arith, length-replicate width (pos 0)) in
    (
      sum_lem row page width c inside,
      λ n. omega (
        arith,
        ap size (sum_lem (take n row) page width c inside),
        size-dot (take n row) page c (take-AreWithin 48 n row h) k,
        length-take n row,
      ),
    )
