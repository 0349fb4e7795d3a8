-- ===== src/Miner/Stratum/Lines.antt =====
-- miner/stratum_client.h: the lines do not depend on how the bytes arrive.
use mathlib.Core.List.{append_assoc, append-nil}
use btx_miner.Common.{
  ◌≡◌, refl, ap, ap₂, sym, ◌∙◌, Bool, false, ◌||◌, not, List, [], ◌∷◌, ◌++◌, ◌==◌, if◌then◌else◌,
  Bool-cases, inl, inr, arith,
}
use btx_miner.Common.Int.{ℤ}
use btx_miner.Miner.Version.{Text, is_empty}
use btx_miner.Miner.Stratum.{feed_recv_bytes, Recv, breaks, chunk_of, reader_loop}

-- The text without its carriage returns.
abbrev pub without_cr : Text → Text
without_cr [] = []
without_cr (c ∷ s) = if c == 13 then without_cr s else c ∷ without_cr s

-- The first line, and the others.
abbrev pub split_lines : Text → Text × List Text
split_lines [] = ([], [])
split_lines (c ∷ s) =
    let later = split_lines s in if c == 10 then ([], later.0 ∷ later.1) else (c ∷ later.0, later.1)

-- The lines that an end of line follows, but for the blank ones.
abbrev pub complete_lines : Text → List Text → List Text
complete_lines line [] = []
complete_lines line (next ∷ lines) =
    if is_empty line then complete_lines next lines else line ∷ complete_lines next lines

abbrev pub lines_of : Text → List Text
lines_of s = let split = split_lines (without_cr s) in complete_lines split.0 split.1

-- What is received before the loop ends.
abbrev pub heard : ℤ → List (Bool × Recv) → Text
heard stall_timeout [] = []
heard stall_timeout ((running, r) ∷ events) =
    if not running || breaks stall_timeout r then [] else chunk_of r ++ heard stall_timeout events

-- An end of line passes on what is carried, unless that is blank.
at_end :
    (carry first : Text) (rest : List Text) (left : Text) (fed : List Text)
    → fed ≡ complete_lines first rest
    → (if◌then◌else◌ {A = List Text × Text} (is_empty carry) (fed, left) (carry ∷ fed, left)).0
      ≡ complete_lines (carry ++ []) (first ∷ rest)
at_end [] first rest left fed e = e
at_end (x ∷ carry) first rest left fed e =
    ap₂ (λ line lines. line ∷ lines) (sym (append-nil (x ∷ carry))) e

blank_kept :
    (carry s : Text) (fed : List Text × Text)
    → (if is_empty carry then feed_recv_bytes carry s else fed)
      ≡ (if is_empty carry then feed_recv_bytes [] s else fed)
blank_kept [] s fed = refl
blank_kept (x ∷ carry) s fed = refl

feed_recv_bytes-lines :
    (carry s : Text)
    → (feed_recv_bytes carry s).0
      ≡ complete_lines (carry ++ (split_lines (without_cr s)).0) (split_lines (without_cr s)).1
unfolding feed_recv_bytes
feed_recv_bytes-lines carry [] = refl
feed_recv_bytes-lines carry (ch ∷ s) = elim (Bool-cases (ch == 13)) [
  | inl e ↦
      let other : (ch == 10) ≡ false = ground arith in rw (e, other) (feed_recv_bytes-lines carry s)
  | inr e ↦ elim (Bool-cases (ch == 10)) [
    | inl e' ↦
        rw (e, e')
          (let cleared = feed_recv_bytes [] s in
            ap (λ x. x.0) (blank_kept carry s (carry ∷ cleared.0, cleared.1))
            ∙ at_end carry (split_lines (without_cr s)).0 (split_lines (without_cr s)).1 cleared.1
                cleared.0 (feed_recv_bytes-lines [] s))
    | inr e' ↦
        rw (e, e')
          (feed_recv_bytes-lines (carry ++ ch ∷ []) s
            ∙ ap (λ x. complete_lines x (split_lines (without_cr s)).1)
                (append_assoc carry (ch ∷ []) _))
  ]
]

-- Bytes that come in two chunks.
feed_recv_bytes-append :
    (carry s t : Text)
    → let first = feed_recv_bytes carry s in
      let second = feed_recv_bytes first.1 t in
      feed_recv_bytes carry (s ++ t) ≡ (first.0 ++ second.0, second.1)
unfolding feed_recv_bytes
feed_recv_bytes-append carry [] t = refl
feed_recv_bytes-append carry (ch ∷ s) t = elim (Bool-cases (ch == 10)) [
  | inl e ↦ elim (Bool-cases (is_empty carry)) [
    | inl e' ↦ rw (e, e') (feed_recv_bytes-append carry s t)
    | inr e' ↦ rw (e, e') (ap (λ x. (carry ∷ x.0, x.1)) (feed_recv_bytes-append [] s t))
  ]
  | inr e ↦ elim (Bool-cases (ch == 13)) [
    | inl e' ↦ rw (e, e') (feed_recv_bytes-append carry s t)
    | inr e' ↦ rw (e, e') (feed_recv_bytes-append (carry ++ ch ∷ []) s t)
  ]
]

reader_loop-feed :
    (stall_timeout : ℤ) (events : List (Bool × Recv)) (carry : Text)
    → reader_loop stall_timeout events carry
      ≡ (feed_recv_bytes carry (heard stall_timeout events)).0
unfolding reader_loop feed_recv_bytes
reader_loop-feed stall_timeout [] carry = refl
reader_loop-feed stall_timeout ((running, r) ∷ events) carry =
    elim (Bool-cases (not running || breaks stall_timeout r)) [
      | inl e ↦ rw e refl
      | inr e ↦
          let fed = feed_recv_bytes carry (chunk_of r) in
          rw e (
            ap (λ lines. fed.0 ++ lines) (reader_loop-feed stall_timeout events fed.1)
            ∙ ap (λ x. x.0)
                (sym (feed_recv_bytes-append carry (chunk_of r) (heard stall_timeout events))))
    ]

-- The lines that the reader dispatches are those of the text that it hears before it ends, however that
-- comes in chunks, and whatever interruptions and short silences come between: the text without its
-- carriage returns, cut at its line breaks, but for blank lines and what no line break follows.
pub reader_loop-eq-lines_of :
    (stall_timeout : ℤ) (events : List (Bool × Recv))
    → reader_loop stall_timeout events [] ≡ lines_of (heard stall_timeout events)
reader_loop-eq-lines_of stall_timeout events =
    reader_loop-feed stall_timeout events [] ∙ feed_recv_bytes-lines [] (heard stall_timeout events)
