-- ===== src/Miner/Version.antt =====
-- miner/version_compare.h and miner/update_gate.h: whether a release is newer than the one that runs, and
-- whether it is adopted. Text is the list of its character codes. The components are `long`s that
-- overflow from 19 digits on, which is undefined in the source; they are unbounded here.
pub mod Order
pub mod Printed
use btx_miner.Common.{
  ℕ, zero, suc, ◌+◌, ◌*◌, ◌-◌, Bool, true, false, not, ◌&&◌, ◌||◌, List, [], ◌∷◌, Option, none,
  some, ltb, leb, ◌==◌, if◌then◌else◌,
}
use btx_miner.Common.{get_or}
use btx_miner.Common.Int.{ℤ, pos, leb_ℤ, ltb_ℤ}

abbrev pub Text : Type 0
Text = List ℕ

-- The digits at the front of a text: the number after `n` with them, and what follows.
unfoldable pub read_number : ℕ → Text → ℕ × Text
read_number n [] = (n, [])
read_number n (c ∷ s) =
    let rest = read_number (n * 10 + (c - 48)) s in
    if leb 48 c && leb c 57 then rest else (n, c ∷ s)

-- The text after a full stop, at which the next component starts.
abbrev after_stop : Text → Option Text
after_stop [] = none
after_stop (c ∷ s) = if c == 46 then some s else none

unfoldable pub components : ℕ → Text → List ℕ
components zero s = []
components (suc n) [] = []
components (suc n) (c ∷ s) =
    let (v, rest) = read_number 0 (c ∷ s) in
    v ∷ elim (after_stop rest) [ none ↦ [] | some more ↦ components n more ]

abbrev strip_v : Text → Text
strip_v [] = []
strip_v (c ∷ s) = if c == 118 || c == 86 then s else c ∷ s

-- `out[0]`, `out[1]` and `out[2]`.
unfoldable pub parse_version : Text → ℕ × (ℕ × ℕ)
unfolding components
parse_version s =
    let out = components 3 (strip_v s) in (get_or out 0 0, (get_or out 1 0, get_or out 2 0))

unfoldable pub version_greater : Text → Text → Bool
version_greater a b =
    let va = parse_version a in
    let vb = parse_version b in
    if not (va.0 == vb.0)
    then ltb vb.0 va.0
    else if not (va.1.0 == vb.1.0)
    then ltb vb.1.0 va.1.0
    else if not (va.1.1 == vb.1.1)
    then ltb vb.1.1 va.1.1
    else false

pub data UpdateDecision : Type 0 where
  up_to_date : UpdateDecision
  auto_update_off : UpdateDecision
  no_asset : UpdateDecision
  baking : UpdateDecision
  stamp_mismatch : UpdateDecision
  adopt : UpdateDecision

abbrev pub text_eq : Text → Text → Bool
text_eq [] [] = true
text_eq (x ∷ xs) (y ∷ ys) = x == y && text_eq xs ys
text_eq _ _ = false

abbrev pub is_empty : Text → Bool
is_empty [] = true
is_empty (c ∷ s) = false

-- `already_updated_to != nullptr && candidate_tag == already_updated_to`.
abbrev pub is_stamped : Text → Option Text → Bool
is_stamped candidate none = false
is_stamped candidate (some t) = text_eq candidate t

-- The last argument is the value of an environment variable, `none` when it is unset.
unfoldable pub decide_update : Text → Text → Bool → Bool → ℤ → ℤ → Option Text → UpdateDecision
decide_update candidate current auto_update has_asset age min_age already =
    if is_empty candidate || not (version_greater candidate current)
    then up_to_date
    else if not auto_update
    then auto_update_off
    else if not has_asset
    then no_asset
    else if ltb_ℤ (pos 0) min_age && leb_ℤ (pos 0) age && ltb_ℤ age min_age
    then baking
    else if is_stamped candidate already
    then stamp_mismatch
    else adopt
