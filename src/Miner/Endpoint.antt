-- ===== src/Miner/Endpoint.antt =====
-- miner/endpoint_parse.h: where to connect, `ParsePoolEndpoint` and `SplitHostPort`. `none` is a return of
-- false; the callers do not read what it leaves in its arguments.
pub mod Printed
mod Tests
use Prim.Native.Char.{code}
use mathlib.Core.Option
use btx_miner.Common.{
  ℕ, zero, suc, ◌+◌, ◌-◌, ◌*◌, ◌^◌, Bool, true, false, ◌&&◌, ◌||◌, not, List, [], ◌∷◌, map, Option,
  none, some, leb, ltb, ◌==◌, if◌then◌else◌,
}
use btx_miner.Common.Int.{ℤ, pos, negsuc}
use btx_miner.Miner.Version.{Text, text_eq}
use btx_miner.Miner.Fields.{codes, strip_prefix}

pub record Endpoint : Type 0 where
  pub host : Text
  pub port : ℕ
  pub use_tls : Bool

-- `s.find(pat)`: what stands before the first place of the pattern, and after it.
unfoldable pub cut_first : Text → Text → Option (Text × Text)
cut_first pat [] = Option.map (λ rest. ([], rest)) (strip_prefix pat [])
cut_first pat (c ∷ s) = elim (strip_prefix pat (c ∷ s)) [
  | some rest ↦ some ([], rest)
  | none ↦ Option.map (λ cut. (c ∷ cut.0, cut.1)) (cut_first pat s)
]

-- `s.rfind(':')`: what stands before the last colon, and after it.
unfoldable pub cut_last : Text → Option (Text × Text)
cut_last [] = none
cut_last (c ∷ s) = elim (cut_last s) [
  | some (before, behind) ↦ some (c ∷ before, behind)
  | none ↦ (if c == 58 then some ([], s) else none)
]

abbrev pub is_digit : ℕ → Bool
is_digit c = leb 48 c && leb c 57

abbrev pub is_space : ℕ → Bool
is_space c = c == 32 || leb 9 c && leb c 13

-- The value of the digits at the front, after `n`.
unfoldable pub digits_value : ℕ → Text → ℕ
digits_value n [] = n
digits_value n (c ∷ s) =
    let more = digits_value (n * 10 + (c - 48)) s in if is_digit c then more else n

-- A number that has a digit and is at most `limit`.
abbrev pub magnitude : ℕ → Text → Option ℕ
magnitude limit [] = none
magnitude limit (c ∷ s) =
    if is_digit c && leb (digits_value 0 (c ∷ s)) limit then some (digits_value 0 (c ∷ s)) else none

abbrev pub minus : ℕ → ℤ
minus zero = pos 0
minus (suc n) = negsuc n

-- `std::stoi`: spaces, a sign and digits at the front, for a 32-bit int; `none` is an exception.
unfoldable pub stoi : Text → Option ℤ
stoi [] = none
stoi (c ∷ s) =
    let rest = stoi s in
    if is_space c
    then rest
    else if c == 45
    then Option.map minus (magnitude (2 ^ 31) s)
    else if c == 43
    then Option.map pos (magnitude (2 ^ 31 - 1) s)
    else Option.map pos (magnitude (2 ^ 31 - 1) (c ∷ s))

-- `port > 0 && port <= 65535`.
abbrev pub valid_port : Option ℤ → Option ℕ
valid_port (some (pos n)) = if ltb 0 n && leb n 65535 then some n else none
valid_port _ = none

-- A host and a port around the last colon, neither of them empty.
abbrev pub host_and_port : Option (Text × Text) → Option (Text × ℕ)
host_and_port (some (c ∷ host, d ∷ behind)) =
    Option.map (λ port. (c ∷ host, port)) (valid_port (stoi (d ∷ behind)))
host_and_port _ = none

abbrev pub lower : ℕ → ℕ
lower c = if leb 65 c && leb c 90 then c + 32 else c

abbrev pub is_tls : Text → Bool
is_tls scheme =
    text_eq scheme (codes "ssl")
    || text_eq scheme (codes "tls")
    || text_eq scheme (codes "stratum+ssl")
    || text_eq scheme (codes "stratum+tls")

-- Without its scheme, and whether that is one of those for TLS.
abbrev pub strip_scheme : Option (Text × Text) → Text → Bool × Text
strip_scheme none s = (false, s)
strip_scheme (some (scheme, rest)) s = (is_tls (map lower scheme), rest)

unfoldable pub parse_pool_endpoint : Text → Option Endpoint
parse_pool_endpoint raw =
    let s = if text_eq raw (codes "minebtx") then codes "stratum.minebtx.com:3333" else raw in
    let (tls, rest) = strip_scheme (cut_first (codes "://") s) s in
    Option.map (λ found. record { host = found.0; port = found.1; use_tls = tls })
      (host_and_port (cut_last rest))

-- `while (!s.empty() && s.back() == '/') s.pop_back();`.
unfoldable pub pop_slashes : Text → Text
pop_slashes [] = []
pop_slashes (c ∷ s) = elim (pop_slashes s) [
  | [] ↦ (if c == 47 then [] else c ∷ [])
  | d ∷ rest ↦ c ∷ (d ∷ rest)
]

unfoldable pub split_host_port : Text → Option (Text × ℕ)
split_host_port s =
    host_and_port (cut_last (pop_slashes (strip_scheme (cut_first (codes "://") s) s).1))
