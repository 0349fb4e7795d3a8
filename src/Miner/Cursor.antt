-- ===== src/Miner/Cursor.antt =====
-- miner/cursor_persist.h: the table of nonce ranges and how far each was searched. The file that
-- keeps it between runs is text I/O and is left out; reading it back is `load_cursor_ranges` over the
-- pairs of numbers that it holds.
pub mod Kept
use btx_miner.Common.{
  ℕ, zero, suc, ◌+◌, Bool, true, false, ◌&&◌, List, [], ◌∷◌, ◌++◌, length, ltb, ◌==◌, if◌then◌else◌,
  drop,
}

abbrev pub CursorRanges : Type 0
CursorRanges = List (ℕ × ℕ)

-- `kCursorRanges`.
abbrev pub cursor_ranges : ℕ
cursor_ranges = 8

-- The erasure of the first entry of a table that has grown too long.
abbrev pub trim : CursorRanges → CursorRanges
trim r = if ltb cursor_ranges (length r) then drop 1 r else r

abbrev pub load_from : CursorRanges → List (ℕ × ℕ) → CursorRanges
load_from out [] = out
load_from out (p ∷ file) = load_from (trim (out ++ p ∷ [])) file

unfoldable pub load_cursor_ranges : List (ℕ × ℕ) → CursorRanges
load_cursor_ranges file = load_from [] file

unfoldable pub resume_cursor : CursorRanges → ℕ → ℕ
resume_cursor [] base = base
resume_cursor ((rb, cur) ∷ r) base =
    let rest = resume_cursor r base in if rb == base && ltb base cur then cur else rest

-- The loop of `RecordCursor`: whether it finds the range, and the table with that entry raised.
unfoldable pub raise_cursor : CursorRanges → ℕ → ℕ → Bool × CursorRanges
raise_cursor [] base cursor = (false, [])
raise_cursor ((rb, cur) ∷ r) base cursor =
    let (found, rest) = raise_cursor r base cursor in
    if rb == base
    then (true, (rb, if ltb cur cursor then cursor else cur) ∷ r)
    else (found, (rb, cur) ∷ rest)

unfoldable pub record_cursor : CursorRanges → ℕ → ℕ → CursorRanges
record_cursor r base cursor =
    let (found, raised) = raise_cursor r base cursor in
    if found then raised else trim (r ++ (base, cursor) ∷ [])
