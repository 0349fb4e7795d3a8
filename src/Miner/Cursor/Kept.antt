-- ===== src/Miner/Cursor/Kept.antt =====
-- miner/cursor_persist.h: what the cursor table remembers, and for how long.
use btx_miner.Common.{
  not_below, subst⁻¹, ℕ, suc, ◌+◌, ◌≤◌, ◌<◌, ◌≡◌, ◌≢◌, refl, ◌⊎◌, inl, inr, Bool, true, false, List,
  [], ◌∷◌, ◌++◌, length, length-append, ltb, ◌==◌, if◌then◌else◌, arith,
}
use btx_miner.Miner.Cursor.{
  CursorRanges, cursor_ranges, trim, load_from, load_cursor_ranges, resume_cursor, raise_cursor,
  record_cursor,
}

-- No entry of the table is for this range.
abbrev pub Lacks : CursorRanges → ℕ → Type 0
Lacks [] base = 0 ≤ 0
Lacks ((rb, cur) ∷ r) base = (rb ≢ base) × Lacks r base

-- The first entry for the range is for at least `cursor`, and has at most `n` entries behind it.
abbrev Keeps : CursorRanges → ℕ → ℕ → ℕ → Type 0
Keeps [] base cursor n = 1 ≤ 0
Keeps ((rb, cur) ∷ r) base cursor n =
    ((rb ≡ base) × (cursor ≤ cur) × (length r ≤ n)) ⊎ ((rb ≢ base) × Keeps r base cursor n)

Keeps-resume :
    (r : CursorRanges) (base cursor n : ℕ)
    → Keeps r base cursor n
    → base < cursor
    → cursor ≤ resume_cursor r base
unfolding resume_cursor
Keeps-resume [] base cursor n k l = absurd (not_below 0 k)
Keeps-resume ((rb, cur) ∷ r) base cursor n (inl k) l = ground arith
Keeps-resume ((rb, cur) ∷ r) base cursor n (inr k) l =
    let rest = Keeps-resume r base cursor n k.1 l in ground arith

Keeps-weaken :
    (r : CursorRanges) (base cursor n m : ℕ) → n ≤ m → Keeps r base cursor n → Keeps r base cursor m
Keeps-weaken [] base cursor n m l k = k
Keeps-weaken ((rb, cur) ∷ r) base cursor n m l (inl k) = inl (k.0, k.1, omega arith)
Keeps-weaken ((rb, cur) ∷ r) base cursor n m l (inr k) =
    inr (k.0, Keeps-weaken r base cursor n m l k.1)

length-raise : (r : CursorRanges) (b c : ℕ) → length (raise_cursor r b c).1 ≡ length r
unfolding raise_cursor
length-raise [] b c = refl
length-raise ((rb, cur) ∷ r) b c = let rest = length-raise r b c in ground arith

either_table :
    (t : Bool) (p q : Bool × CursorRanges) (base cursor n : ℕ)
    → Keeps p.1 base cursor n
    → Keeps q.1 base cursor n
    → Keeps (if t then p else q).1 base cursor n
either_table true p q base cursor n k l = k
either_table false p q base cursor n k l = l

either_kept :
    (t : Bool) (p q : CursorRanges) (base cursor n : ℕ)
    → Keeps p base cursor n
    → Keeps q base cursor n
    → Keeps (if t then p else q) base cursor n
either_kept true p q base cursor n k l = k
either_kept false p q base cursor n k l = l

raise-Keeps :
    (r : CursorRanges) (base cursor n b c : ℕ)
    → Keeps r base cursor n
    → Keeps (raise_cursor r b c).1 base cursor n
unfolding raise_cursor
raise-Keeps [] base cursor n b c k = absurd (not_below 0 k)
raise-Keeps ((rb, cur) ∷ r) base cursor n b c (inl k) =
    let same = length-raise r b c in
    either_table (rb == b) _ _ base cursor n (inl (k.0, ground arith, k.2))
      (inl (k.0, k.1, omega arith))
raise-Keeps ((rb, cur) ∷ r) base cursor n b c (inr k) =
    either_table (rb == b) _ _ base cursor n (inr k)
      (inr (k.0, raise-Keeps r base cursor n b c k.1))

append-Keeps :
    (r : CursorRanges) (base cursor n : ℕ) (p : ℕ × ℕ)
    → Keeps r base cursor n
    → Keeps (r ++ p ∷ []) base cursor (suc n)
append-Keeps [] base cursor n p k = absurd (not_below 0 k)
append-Keeps ((rb, cur) ∷ r) base cursor n p (inl k) =
    inl (k.0, k.1, omega (arith, length-append r (p ∷ [])))
append-Keeps ((rb, cur) ∷ r) base cursor n p (inr k) = inr (k.0, append-Keeps r base cursor n p k.1)

trim_small : (r : CursorRanges) → length r ≤ cursor_ranges → trim r ≡ r
trim_small r h = ground arith

trim-Keeps :
    (r : CursorRanges) (base cursor n : ℕ)
    → n < cursor_ranges
    → Keeps r base cursor n
    → Keeps (trim r) base cursor n
trim-Keeps [] base cursor n b k = k
trim-Keeps ((rb, cur) ∷ r) base cursor n b (inl k) =
    subst⁻¹ (λ t. Keeps t base cursor n) (trim_small ((rb, cur) ∷ r) (omega arith)) (inl k)
trim-Keeps ((rb, cur) ∷ r) base cursor n b (inr k) =
    either_kept (ltb cursor_ranges (suc (length r))) r ((rb, cur) ∷ r) base cursor n k.1 (inr k)

record-Keeps :
    (r : CursorRanges) (base cursor n b c : ℕ)
    → suc n < cursor_ranges
    → Keeps r base cursor n
    → Keeps (record_cursor r b c) base cursor (suc n)
unfolding record_cursor
record-Keeps r base cursor n b c l k =
    either_kept (raise_cursor r b c).0 (raise_cursor r b c).1 (trim (r ++ (b, c) ∷ [])) base cursor
      (suc n)
      (Keeps-weaken _ base cursor n (suc n) (omega arith) (raise-Keeps r base cursor n b c k))
      (trim-Keeps _ base cursor (suc n) l (append-Keeps r base cursor n (b, c) k))

-- The table after a list of records.
abbrev pub record_all : CursorRanges → List (ℕ × ℕ) → CursorRanges
record_all r [] = r
record_all r ((b, c) ∷ later) = record_all (record_cursor r b c) later

record_all-Keeps :
    (later : List (ℕ × ℕ)) (r : CursorRanges) (base cursor n : ℕ)
    → n + length later < cursor_ranges
    → Keeps r base cursor n
    → Keeps (record_all r later) base cursor 7
record_all-Keeps [] r base cursor n l k = Keeps-weaken r base cursor n 7 (omega arith) k
record_all-Keeps ((b, c) ∷ later) r base cursor n l k =
    record_all-Keeps later (record_cursor r b c) base cursor (suc n) (omega arith)
      (record-Keeps r base cursor n b c (omega arith) k)

not_raised : (r : CursorRanges) (b c : ℕ) → Lacks r b → (raise_cursor r b c).0 ≡ false
unfolding raise_cursor
not_raised [] b c h = refl
not_raised ((rb, cur) ∷ r) b c h = let rest = not_raised r b c h.1 in ground arith

last-Keeps : (r : CursorRanges) (b c : ℕ) → Lacks r b → Keeps (r ++ (b, c) ∷ []) b c 0
last-Keeps [] b c h = inl (refl, omega arith, omega arith)
last-Keeps ((rb, cur) ∷ r) b c h = inr (h.0, last-Keeps r b c h.1)

record_new :
    (r : CursorRanges) (b c : ℕ) → Lacks r b → record_cursor r b c ≡ trim (r ++ (b, c) ∷ [])
unfolding record_cursor
record_new r b c h = let fresh = not_raised r b c h in ground arith

-- When a range that the table lacks is recorded, up to a cursor above its base, the search of that
-- range resumes at that cursor or above it after any seven records that follow.
pub record_cursor-resume :
    (r : CursorRanges) (base cursor : ℕ) (later : List (ℕ × ℕ))
    → Lacks r base
    → base < cursor
    → length later ≤ 7
    → cursor ≤ resume_cursor (record_all (record_cursor r base cursor) later) base
record_cursor-resume r base cursor later h l n =
    let start =
      subst⁻¹ (λ t. Keeps t base cursor 0) (record_new r base cursor h)
        (trim-Keeps _ base cursor 0 (omega arith) (last-Keeps r base cursor h)) in
    Keeps-resume _ base cursor 7 (record_all-Keeps later _ base cursor 0 (omega arith) start) l

length-trim : (r : CursorRanges) → length r ≤ suc cursor_ranges → length (trim r) ≤ cursor_ranges
length-trim [] h = omega arith
length-trim (p ∷ r) h = ground arith

length-load_from :
    (file out : CursorRanges)
    → length out ≤ cursor_ranges
    → length (load_from out file) ≤ cursor_ranges
length-load_from [] out h = h
length-load_from (p ∷ file) out h =
    length-load_from file _
      (length-trim (out ++ p ∷ []) (omega (arith, length-append out (p ∷ []))))

length-record :
    (r : CursorRanges) (b c : ℕ)
    → length r ≤ cursor_ranges
    → length (record_cursor r b c) ≤ cursor_ranges
unfolding record_cursor
length-record r b c h =
    let same = length-raise r b c in
    let small = length-trim (r ++ (b, c) ∷ []) (omega (arith, length-append r ((b, c) ∷ []))) in
    ground arith

length-record_all :
    (later : List (ℕ × ℕ)) (r : CursorRanges)
    → length r ≤ cursor_ranges
    → length (record_all r later) ≤ cursor_ranges
length-record_all [] r h = h
length-record_all ((b, c) ∷ later) r h = length-record_all later _ (length-record r b c h)

-- The table never grows past eight entries, whatever a file holds and whatever is recorded.
pub length-record_cursor :
    (file later : List (ℕ × ℕ))
    → length (record_all (load_cursor_ranges file) later) ≤ cursor_ranges
unfolding load_cursor_ranges
length-record_cursor file later = length-record_all later _ (length-load_from file [] (omega arith))
