-- ===== src/Miner/Solo/Submits.antt =====
-- miner/solo_mining.h: what becomes of a block that was found, and what is tried again.
use btx_miner.Common.{
  ℕ, ◌≡◌, ◌≢◌, refl, subst⁻¹, ap, ◌⊎◌, inl, inr, true, false, List, [], ◌∷◌, ◌++◌, none, some,
  arith, Bool-cases, Option-cases, All,
}
use btx_miner.Common.Int.{ℤ}
use btx_miner.Solve.Header.{Header}
use btx_miner.Miner.Version.{Text}
use btx_miner.Miner.Solo.{
  SoloSearch, solve_range, winning_block, Answer, accepts, refuses, Round, is_transport,
  round_answer, Fate, accepted, refused, retrying, SavedFile, Disk, Submitted,
  park_unsubmitted_block, settle, submit_rounds, solve_and_submit,
}
use btx_miner.Miner.Solo.Solved.{IsSolved, winning_block-IsSolved}

Answer-cases : (a : Answer) → (a ≡ accepts) ⊎ ((why : Text) × (a ≡ refuses why))
Answer-cases accepts = inl refl
Answer-cases (refuses why) = inr (why, refl)

-- The node did not answer, and the deadline has not passed.
pub record IsRetried (r : Round) : Type 0 where
  pub why : Text
  pub refused : round_answer r ≡ refuses why
  pub transport : is_transport why ≡ true
  pub in_time : r.expired ≡ false

-- The round that decides.
pub data Decides (r : Round) : Fate → Type 0 where
  takes : round_answer r ≡ accepts → Decides r accepted
  drops :
      (why : Text)
      → round_answer r ≡ refuses why
      → (is_transport why ≡ false) ⊎ (r.expired ≡ true)
      → Decides r (refused why)

pub record IsDecided (rounds : List Round) (fate : Fate) : Type 0 where
  pub before : List Round
  pub last : Round
  pub later : List Round
  pub split : rounds ≡ before ++ last ∷ later
  pub retried : All IsRetried before
  pub decides : Decides last fate

abbrev pub Expires : List Round → Type 0
Expires [] = ⊥
Expires (r ∷ rounds) = (r.expired ≡ true) ⊎ Expires rounds

here :
    (r : Round) (rounds : List Round) {fate : Fate} → Decides r fate → IsDecided (r ∷ rounds) fate
here r rounds d = record {
  before = [];
  last = r;
  later = rounds;
  split = refl;
  retried = tt;
  decides = d;
}

next :
    (r : Round) (rounds : List Round) (fate : Fate)
    → IsRetried r
    → IsDecided rounds fate
    → IsDecided (r ∷ rounds) fate
next r rounds fate q d = record {
  before = r ∷ d.before;
  last = d.last;
  later = d.later;
  split = ap (λ l. r ∷ l) d.split;
  retried = (q, d.retried);
  decides = d.decides;
}

module _ (r : Round) (rounds : List Round) where
  taken : round_answer r ≡ accepts → submit_rounds (r ∷ rounds) ≡ accepted
  unfolding submit_rounds
  taken e = ground arith

  dropped :
      (why : Text)
      → round_answer r ≡ refuses why
      → (is_transport why ≡ false) ⊎ (r.expired ≡ true)
      → submit_rounds (r ∷ rounds) ≡ refused why
  unfolding submit_rounds
  dropped why e d = ground arith

  tried_again :
      (why : Text)
      → round_answer r ≡ refuses why
      → is_transport why ≡ true
      → r.expired ≡ false
      → submit_rounds (r ∷ rounds) ≡ submit_rounds rounds
  unfolding submit_rounds
  tried_again why e transport early = ground arith

  decided_here :
      (fate : Fate)
      → submit_rounds (r ∷ rounds) ≡ fate
      → Decides r fate
      → IsDecided (r ∷ rounds) (submit_rounds (r ∷ rounds))
  decided_here fate e d = subst⁻¹ (IsDecided (r ∷ rounds)) e (here r rounds d)

Expires-later :
    (r : Round) (rounds : List Round) → Expires (r ∷ rounds) → r.expired ≡ false → Expires rounds
Expires-later r rounds (inl late) early = ground arith
Expires-later r rounds (inr h) early = h

-- When the deadline passes the loop has ended, in a round whose answer decides: the node accepts the
-- block, or refuses it, with a reason that is no transport failure or after the deadline. Every
-- round before it is a transport failure in time.
pub submit_rounds-IsDecided :
    (rounds : List Round) → Expires rounds → IsDecided rounds (submit_rounds rounds)
submit_rounds-IsDecided [] h = absurd h
submit_rounds-IsDecided (r ∷ rounds) h = elim (Answer-cases (round_answer r)) [
  | inl e ↦ decided_here r rounds accepted (taken r rounds e) (takes e)
  | inr (why, e) ↦ elim (Bool-cases (is_transport why)) [
    | inr fatal ↦
        decided_here r rounds (refused why) (dropped r rounds why e (inl fatal))
          (drops why e (inl fatal))
    | inl transport ↦ elim (Bool-cases r.expired) [
      | inl late ↦
          decided_here r rounds (refused why) (dropped r rounds why e (inr late))
            (drops why e (inr late))
      | inr early ↦ subst⁻¹ (IsDecided (r ∷ rounds)) (tried_again r rounds why e transport early) (
          next r rounds (submit_rounds rounds)
            (record { why = why; refused = e; transport = transport; in_time = early })
            (submit_rounds-IsDecided rounds (Expires-later r rounds h early)))
    ]
  ]
]

-- Some thread of the order finds a block.
abbrev pub Wins : SoloSearch → List ℕ → Type 0
Wins s [] = ⊥
Wins s (i ∷ order) = (solve_range s i ≢ none) ⊎ Wins s order

Wins-later :
    (s : SoloSearch) (i : ℕ) (order : List ℕ)
    → Wins s (i ∷ order)
    → solve_range s i ≡ none
    → Wins s order
Wins-later s i order (inl n) e = absurd (n e)
Wins-later s i order (inr w) e = w

some_block :
    (s : SoloSearch) (order : List ℕ)
    → Wins s order
    → (b : Header) × (winning_block s order ≡ some b)
unfolding winning_block
some_block s [] w = absurd w
some_block s (i ∷ order) w = elim (Option-cases (solve_range s i)) [
  | inr (b, e) ↦ (b, ground arith)
  | inl e ↦ let (b, later) = some_block s order (Wins-later s i order w e) in (b, ground arith)
]

-- What is left of the block: accepted, and no file touched; or refused, and then saved whole as a new
-- file, or in part when its bytes were not stored, or not at all when its file was not opened.
pub data IsSettled (disk : Disk) (height : ℤ) (files : List SavedFile) (out : Submitted)
    : Type 0 where
  connected : out.fate ≡ accepted → out.files ≡ files → IsSettled disk height files out
  saved :
      (why : Text)
      → out.fate ≡ refused why
      → disk.opens ≡ true
      → out.files ≡ record { height = height; block = out.block; whole = disk.stores } ∷ files
      → IsSettled disk height files out
  lost :
      (why : Text)
      → out.fate ≡ refused why
      → disk.opens ≡ false
      → out.files ≡ files
      → IsSettled disk height files out

not_retrying : (r : Round) → Decides r retrying → ⊥
not_retrying r d = elim d [ ]

settled_same :
    (disk : Disk) (height : ℤ) (b : Header) (files : List SavedFile) (fate : Fate)
    → let out = settle disk height b files fate in (out.block ≡ b) × (out.fate ≡ fate)
settled_same disk height b files accepted = (refl, refl)
settled_same disk height b files (refused why) = (refl, refl)
settled_same disk height b files retrying = (refl, refl)

settle-IsSettled :
    (disk : Disk) (height : ℤ) (files : List SavedFile) (b : Header) {rounds : List Round}
    (fate : Fate)
    → IsDecided rounds fate
    → IsSettled disk height files (settle disk height b files fate)
unfolding park_unsubmitted_block
settle-IsSettled disk height files b accepted d = connected refl refl
settle-IsSettled disk height files b (refused why) d = elim (Bool-cases disk.opens) [
  | inl opened ↦ saved why refl opened (ground arith)
  | inr shut ↦ lost why refl shut (ground arith)
]
settle-IsSettled disk height files b retrying d = absurd (not_retrying d.last d.decides)

-- When some thread finds a block, one is handed to the node. Once the deadline has passed, it is a
-- solution of the template that was tried again after nothing but transport failures; and the node
-- accepted it, or it is in a file of the save directory, which is whole when its bytes were stored, or
-- that file could not be opened, and then nothing keeps the block.
pub solve_and_submit-IsSettled :
    (s : SoloSearch) (order : List ℕ) (rounds : List Round) (disk : Disk) (files : List SavedFile)
    → Wins s order
    → Expires rounds
    → (out : Submitted) × (solve_and_submit s order rounds disk files ≡ some out)
      × IsSolved s out.block
      × IsDecided rounds out.fate
      × IsSettled disk s.request.job.height files out
unfolding solve_and_submit
solve_and_submit-IsSettled s order rounds disk files w h =
    let (b, won) = some_block s order w in
    let fate = submit_rounds rounds in
    let height = s.request.job.height in
    let decided = submit_rounds-IsDecided rounds h in
    let same = settled_same disk height b files fate in
    (
      settle disk height b files fate,
      rw (won, solve_and_submit) refl,
      subst⁻¹ (IsSolved s) same.0 (winning_block-IsSolved s order b won),
      subst⁻¹ (IsDecided rounds) same.1 decided,
      settle-IsSettled disk height files b fate decided,
    )
