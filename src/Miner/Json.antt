-- ===== src/Miner/Json.antt =====
-- miner/poolcore.h: the text fields that the miner writes on a line of its protocol. A `char` is its
-- unsigned byte.
pub mod Closed
use btx_miner.Common.{ℕ, ◌+◌, ◌-◌, ◌/◌, ◌%◌, List, [], ◌∷◌, ◌++◌, ltb, ◌==◌, if◌then◌else◌}

-- A digit of `%04x`.
abbrev pub hex_char : ℕ → ℕ
hex_char d = if ltb d 10 then 48 + d else 87 + d

abbrev pub escape_char : ℕ → List ℕ
escape_char c =
    if c == 34
    then 92 ∷ 34 ∷ []
    else if c == 92
    then 92 ∷ 92 ∷ []
    else if c == 10
    then 92 ∷ 110 ∷ []
    else if c == 13
    then 92 ∷ 114 ∷ []
    else if c == 9
    then 92 ∷ 116 ∷ []
    else if ltb c 32
    then 92 ∷ 117 ∷ 48 ∷ 48 ∷ hex_char (c / 16) ∷ hex_char (c % 16) ∷ []
    else c ∷ []

unfoldable pub pc_json_escape : List ℕ → List ℕ
pc_json_escape [] = []
pc_json_escape (c ∷ s) = escape_char c ++ pc_json_escape s

-- The escaped text between its quotes.
unfoldable pub pc_json_str : List ℕ → List ℕ
pc_json_str s = 34 ∷ (pc_json_escape s ++ 34 ∷ [])
