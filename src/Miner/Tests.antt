-- ===== src/Miner/Tests.antt =====
-- miner: the theorems on versions, the driver and the cursors, applied at small inputs.
use btx_miner.Common.{ℕ, ◌≤◌, ◌≡◌, ◌≢◌, ◌↔◌, ◌⊎◌, true, none, some, List, [], ◌∷◌, arith}
use btx_miner.Common.Int.{pos, ◌≤ℤ◌, ◌<ℤ◌}
use btx_miner.Miner.Version.{Text, decide_update, adopt, up_to_date}
use btx_miner.Miner.Version.Printed.{release, IsNewer, decide_update-release}
use btx_miner.Solve.Header.{Header}
use btx_miner.Miner.Pool.Template.{IsTemplate}
use btx_miner.Miner.Cursor.{CursorRanges, resume_cursor, record_cursor}
use btx_miner.Miner.Cursor.Kept.{record_all, record_cursor-resume}

-- v0.6.10 over v0.6.9.
decide_update-release_example :
    let new = release (0, (6, 10)) in
    let old = release (0, (6, 9)) in
    ((decide_update new old true true (pos 90) (pos 60) none ≡ adopt) ↔ (
      IsNewer (0, (6, 10)) (0, (6, 9))
      × (true ≡ true)
      × (true ≡ true)
      × ((pos 60 ≤ℤ pos 0) ⊎ ((pos 90 <ℤ pos 0) ⊎ (pos 60 ≤ℤ pos 90)))
      × (none ≢ some new)))
    × (decide_update new old true true (pos 90) (pos 60) none ≡ adopt
        → decide_update old new true true (pos 90) (pos 60) none ≡ up_to_date)
decide_update-release_example =
    decide_update-release (0, (6, 10)) (0, (6, 9)) true true (pos 90) (pos 60) none
      (omega arith, omega arith, omega arith) (omega arith, omega arith, omega arith)

abbrev two_ranges : CursorRanges
two_ranges = (10, 12) ∷ (20, 25) ∷ []

abbrev later_records : List (ℕ × ℕ)
later_records = (40, 41) ∷ (20, 30) ∷ (50, 52) ∷ []

record_cursor-resume_example :
    37 ≤ resume_cursor (record_all (record_cursor two_ranges 30 37) later_records) 30
record_cursor-resume_example =
    record_cursor-resume two_ranges 30 37 later_records (omega arith) (omega arith) (omega arith)

-- A text with a quote, a backslash and a line break.
abbrev awkward_text : Text
awkward_text = 65 ∷ 34 ∷ 92 ∷ 10 ∷ 7 ∷ []

abbrev toy_template : Header
toy_template = record {
  version = 536870912;
  hash_prev_block = 1234567;
  hash_merkle_root = 7654321;
  time = 1790000000;
  bits = 486604799;
  nonce64 = 9;
  nonce = 9;
  matmul_dim = 512;
  seed_a = 1;
  seed_b = 2;
  matmul_digest = 3;
}

toy_template-IsTemplate : IsTemplate toy_template
toy_template-IsTemplate = record {
  version = omega arith;
  hash_prev_block = omega arith;
  hash_merkle_root = omega arith;
  time = omega arith;
  bits = omega arith;
}
