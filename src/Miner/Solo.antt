-- ===== src/Miner/Solo.antt =====
-- miner/solo_mining.h: `SolveAndSubmit`, the threads that search a block template of a node, and the
-- submission of the block that one of them finds. The first nonce, the abort flag as each thread reads it,
-- the order in which the threads end, and what the node answers are arguments.
pub mod Ranges
pub mod Solved
pub mod Submits
mod Tests
use btx_miner.Common.{
  ℕ, zero, suc, ◌+◌, ◌-◌, ◌*◌, ◌/◌, ◌%◌, ◌^◌, max, Bool, true, false, not, ◌&&◌, ◌||◌, List, [],
  ◌∷◌, Option, none, some, ◌==◌, if◌then◌else◌,
}
use btx_miner.Common.Int.{ℤ}
use btx_miner.Pow.Chain.{Vendored}
use btx_miner.Solve.Header.{Header}
use btx_miner.Solve.Loop.{Outcome}
use btx_miner.Solve.Dispatch.{Request, solve_matmul}
use btx_miner.Miner.Version.{Text}
use btx_miner.Miner.Fields.{codes}
use btx_miner.Miner.Stratum.{contains}

-- The dimension of the header: whether the episode rules are in force, their dimension, the one of the
-- parameters, and the one of the template.
unfoldable pub reconcile_dim : Bool → ℕ → ℕ → ℕ → ℕ
reconcile_dim rc_active rc_dim dimension dim =
    if rc_active && (not (dim == 0) && not (dim == rc_dim))
    then rc_dim
    else if dim == 0
    then (if rc_active then rc_dim else dimension % 2 ^ 16)
    else dim

unfoldable pub per_thread : ℕ → ℕ → ℕ
per_thread max_tries nthreads = max 1 (max_tries / nthreads)

-- Where thread `i` starts.
unfoldable pub range_start : ℕ → ℕ → ℕ → ℕ → ℕ
range_start base max_tries nthreads i = (base + i * per_thread max_tries nthreads) % 2 ^ 64

-- How many nonces it may try; the difference is that of `uint64_t`s.
unfoldable pub range_budget : ℕ → ℕ → ℕ → ℕ
range_budget max_tries nthreads i =
    if suc i == nthreads
    then (max_tries + (2 ^ 64 - (per_thread max_tries nthreads * (nthreads - 1)) % 2 ^ 64)) % 2 ^ 64
    else per_thread max_tries nthreads

-- The search of one template.
pub record SoloSearch : Type 0 where
  pub vendored : Vendored
  pub request : Request
  pub block : Header
  pub max_tries : ℕ
  pub nthreads : ℕ
  pub aborted : ℕ → ℕ → Bool

module _ (s : SoloSearch) where
  abbrev pub thread_request : ℕ → Request
  thread_request i = record (s.request) { aborted = s.aborted i; share_target_override = none }

  abbrev pub thread_block : ℕ → Header
  thread_block i =
      let nonce64 = range_start s.block.nonce64 s.max_tries s.nthreads i in
      record (s.block) { nonce64 = nonce64; nonce = nonce64 % 2 ^ 32 }

  -- The block that thread `i` found.
  unfoldable pub solve_range : ℕ → Option Header
  solve_range i =
      let budget = range_budget s.max_tries s.nthreads i in
      let out =
        (solve_matmul s.vendored (thread_request i) (thread_block i) budget
          record { solve_windows = 0; rc_episodes = 0 }).0 in
      if budget == 0 then none else if out.won then some out.block else none

  -- The threads in the order in which they end; the first block is kept.
  unfoldable pub winning_block : List ℕ → Option Header
  winning_block [] = none
  winning_block (i ∷ order) =
      let later = winning_block order in elim (solve_range i) [ none ↦ later | some b ↦ some b ]

-- What `submitblock` gives: acceptance, or the reason against it.
pub data Answer : Type 0 where
  accepts : Answer
  refuses : Text → Answer

-- One round of the submit loop: the answer, the one to the second submission of the same block, which
-- follows an attestation, and whether the deadline has passed.
pub record Round : Type 0 where
  pub first : Answer
  pub second : Answer
  pub expired : Bool

unfoldable pub is_quorum_bounce : Text → Bool
is_quorum_bounce why = contains (codes "quorum") why || contains (codes "attestation") why

unfoldable pub is_transport : Text → Bool
is_transport why =
    contains (codes "rpc transport:") why
    || (contains (codes "unparseable response (http") why || contains (codes "[code -28]") why)

-- The answer that counts for a round.
unfoldable pub round_answer : Round → Answer
round_answer r = elim r.first [
  | accepts ↦ accepts
  | refuses why ↦ (if is_quorum_bounce why then r.second else refuses why)
]

pub data Fate : Type 0 where
  accepted : Fate
  refused : Text → Fate
  retrying : Fate

-- `retrying` when the rounds end first.
unfoldable pub submit_rounds : List Round → Fate
submit_rounds [] = retrying
submit_rounds (r ∷ rounds) =
    let rest = submit_rounds rounds in
    elim (round_answer r) [
      | accepts ↦ accepted
      | refuses why ↦ (if not (is_transport why) || r.expired then refused why else rest)
    ]

-- A file of the save directory, which is named by the height and the hash of its block, and whether it
-- holds all of the block. Newer files come first, and take the place of older ones with their name.
pub record SavedFile : Type 0 where
  pub height : ℤ
  pub block : Header
  pub whole : Bool

-- What the file system gives: whether the file is opened, and whether what is written to it is stored,
-- which the program does not ask.
pub record Disk : Type 0 where
  pub opens : Bool
  pub stores : Bool

unfoldable pub park_unsubmitted_block : Disk → ℤ → Header → List SavedFile → List SavedFile
park_unsubmitted_block disk height b files =
    if not disk.opens
    then files
    else record { height = height; block = b; whole = disk.stores } ∷ files

pub record Submitted : Type 0 where
  pub block : Header
  pub fate : Fate
  pub files : List SavedFile

-- What becomes of the block once its rounds are over.
abbrev pub settle : Disk → ℤ → Header → List SavedFile → Fate → Submitted
settle disk height b files (refused why) = record {
  block = b;
  fate = refused why;
  files = park_unsubmitted_block disk height b files;
}
settle disk height b files accepted = record { block = b; fate = accepted; files = files }
settle disk height b files retrying = record { block = b; fate = retrying; files = files }

-- The block that is handed to the node, and what becomes of it; `none` without a winner.
unfoldable pub solve_and_submit :
    SoloSearch → List ℕ → List Round → Disk → List SavedFile → Option Submitted
solve_and_submit s order rounds disk files = elim (winning_block s order) [
  | none ↦ none
  | some b ↦ some (settle disk s.request.job.height b files (submit_rounds rounds))
]
