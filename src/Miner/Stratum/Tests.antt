-- ===== src/Miner/Stratum/Tests.antt =====
-- miner/stratum_client.h: the theorem on the reader's lines, applied to a few returns, and runs.
use btx_miner.Common.{◌≡◌, refl, Bool, true, false, List, [], ◌∷◌}
use btx_miner.Common.Int.{pos}
use btx_miner.Miner.Fields.{codes}
use btx_miner.Miner.Endpoint.{cut_first}
use btx_miner.Miner.Stratum.{
  Recv, interrupted, timed_out, closed, received, reader_loop, feed_recv_bytes, json_escape_minimal,
  reason_is_auth_failure,
}
use btx_miner.Miner.Stratum.Lines.{heard, lines_of, reader_loop-eq-lines_of}

-- A line in two chunks, with a silence between, and a blank line.
abbrev a_stream : List (Bool × Recv)
a_stream =
    (true, received (97 ∷ 98 ∷ []))
    ∷ (true, interrupted)
    ∷ (true, timed_out (pos 500))
    ∷ (true, received (99 ∷ 13 ∷ 10 ∷ 13 ∷ 10 ∷ 100 ∷ 10 ∷ 101 ∷ []))
    ∷ (true, closed)
    ∷ []

reader_loop-eq-lines_of_example :
    reader_loop (pos 1000) a_stream [] ≡ lines_of (heard (pos 1000) a_stream)
reader_loop-eq-lines_of_example = reader_loop-eq-lines_of (pos 1000) a_stream

two_lines : reader_loop (pos 1000) a_stream [] ≡ (codes "abc" ∷ codes "d" ∷ [])
unfolding reader_loop feed_recv_bytes
two_lines = refl

-- The silence is longer than the limit.
stalled : reader_loop (pos 400) a_stream [] ≡ []
unfolding reader_loop feed_recv_bytes
stalled = refl

escaped : json_escape_minimal (codes "a\"b\\") ≡ codes "a\\\"b\\\\"
unfolding json_escape_minimal
escaped = refl

byron : reason_is_auth_failure (codes "Unauthorized: send mining.authorize first") ≡ true
unfolding reason_is_auth_failure cut_first
byron = refl

low_difficulty : reason_is_auth_failure (codes "low difficulty share") ≡ false
unfolding reason_is_auth_failure cut_first
low_difficulty = refl
