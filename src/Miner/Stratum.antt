-- ===== src/Miner/Stratum.antt =====
-- miner/stratum_client.h: how the bytes of a pool become lines, and the small readers of its texts. What
-- the socket gives is an argument: a list of returns of `RawRecv`, each with what the loop's condition
-- was when it was called.
pub mod Lines
mod Tests
use btx_miner.Common.{
  ℕ, ◌+◌, ◌*◌, Bool, true, false, ◌||◌, not, List, [], ◌∷◌, ◌++◌, map, Option, none, some, ◌==◌,
  if◌then◌else◌,
}
use btx_miner.Common.Int.{ℤ, ltb_ℤ}
use btx_miner.Miner.Version.{Text, is_empty}
use btx_miner.Miner.Fields.{codes}
use btx_miner.Miner.Endpoint.{cut_first, lower}

-- The lines that are passed on, and the partial line that is carried over.
unfoldable pub feed_recv_bytes : Text → Text → List Text × Text
feed_recv_bytes carry [] = ([], carry)
feed_recv_bytes carry (ch ∷ s) =
    let kept = feed_recv_bytes carry s in
    let cleared = feed_recv_bytes [] s in
    let pushed = feed_recv_bytes (carry ++ ch ∷ []) s in
    if ch == 10
    then (if is_empty carry then kept else (carry ∷ cleared.0, cleared.1))
    else if ch == 13
    then kept
    else pushed

-- `EINTR`, a timeout with the milliseconds since the last job, another error, the end of the stream, and
-- a chunk.
pub data Recv : Type 0 where
  interrupted : Recv
  timed_out : ℤ → Recv
  failed : Recv
  closed : Recv
  received : Text → Recv

-- Whether the loop breaks.
abbrev pub breaks : ℤ → Recv → Bool
breaks stall_timeout interrupted = false
breaks stall_timeout (timed_out idle) = ltb_ℤ stall_timeout idle
breaks stall_timeout failed = true
breaks stall_timeout closed = true
breaks stall_timeout (received chunk) = false

abbrev pub chunk_of : Recv → Text
chunk_of (received chunk) = chunk
chunk_of _ = []

-- The lines that are dispatched, in their order.
unfoldable pub reader_loop : ℤ → List (Bool × Recv) → Text → List Text
reader_loop stall_timeout [] carry = []
reader_loop stall_timeout ((running, r) ∷ events) carry =
    let fed = feed_recv_bytes carry (chunk_of r) in
    let rest = reader_loop stall_timeout events fed.1 in
    if not running || breaks stall_timeout r then [] else fed.0 ++ rest

-- Quotes and backslashes are escaped.
unfoldable pub json_escape_minimal : Text → Text
json_escape_minimal [] = []
json_escape_minimal (c ∷ s) =
    let rest = json_escape_minimal s in if c == 34 || c == 92 then 92 ∷ (c ∷ rest) else c ∷ rest

abbrev pub contains : Text → Text → Bool
contains pat s = elim (cut_first pat s) [ none ↦ false | some cut ↦ true ]

unfoldable pub reason_is_auth_failure : Text → Bool
reason_is_auth_failure reason =
    let r = map lower reason in
    contains (codes "unauthorized") r
    || contains (codes "unauthorised") r
    || contains (codes "not authorized") r
    || contains (codes "not authorised") r
    || contains (codes "authorize first") r
    || contains (codes "login first") r
