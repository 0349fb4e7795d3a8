-- ===== src/Miner/UniValue.antt =====
-- The JSON values that the pool clients read (vendored UniValue), as operations, and the readers of
-- numbers, ids and errors that miner/stratum_client.h puts over them. An exception is `none`.
use mathlib.Core.Option
use btx_miner.Common.{
  ℕ, ◌+◌, ◌-◌, ◌*◌, ◌%◌, ◌^◌, Bool, ◌&&◌, ◌||◌, List, [], ◌∷◌, Option, none, some, leb, ltb, ◌==◌,
  if◌then◌else◌,
}
use btx_miner.Common.Int.{ℤ, to_unsigned}
use btx_miner.Miner.Version.{Text, is_empty}
use btx_miner.Miner.Fields.{codes}
use btx_miner.Miner.Endpoint.{is_digit, is_space}

infixl 5 ◌>>=◌
abbrev pub ◌>>=◌ {ℓ κ} : {A : Type ℓ} {B : Type κ} → Option A → (A → Option B) → Option B
none >>= f = none
some a >>= f = f a

-- A missing key or index gives the null value. `get_real` is the value cut to a `uint64_t`.
pub record UniValue : Type 1 where
  pub Value : Type 0
  pub read : Text → Option Value
  pub exists_key : Value → Text → Bool
  pub field : Value → Text → Value
  pub item : Value → ℕ → Value
  pub size : Value → ℕ
  pub values : Value → List Value
  pub is_null : Value → Bool
  pub is_num : Value → Bool
  pub is_str : Value → Bool
  pub is_bool : Value → Bool
  pub is_array : Value → Bool
  pub is_object : Value → Bool
  pub get_str : Value → Option Text
  pub get_bool : Value → Option Bool
  pub get_int : Value → Option ℤ
  pub get_real : Value → Option ℕ
  pub write : Value → Text
  pub null : Value

unfoldable pub digit_value : ℕ → ℕ → Option ℕ
digit_value base c =
    let d =
      if is_digit c
      then c - 48
      else if leb 97 c && leb c 122
      then c - 87
      else if leb 65 c && leb c 90
      then c - 55
      else base in
    if ltb d base then some d else none

-- The value of the digits at the front, after `n`, and what follows them.
unfoldable pub digits_of : ℕ → ℕ → Text → ℕ × Text
digits_of base n [] = (n, [])
digits_of base n (c ∷ s) = elim (digit_value base c) [
  | none ↦ (n, c ∷ s)
  | some d ↦ digits_of base (n * base + d) s
]

-- A number that has a digit and fits in 64 bits.
unfoldable pub unsigned_at : ℕ → Text → Option (ℕ × Text)
unsigned_at base [] = none
unsigned_at base (c ∷ s) =
    let all = digits_of base 0 (c ∷ s) in
    elim (digit_value base c) [
      | none ↦ none
      | some d ↦ (if ltb all.0 (2 ^ 64) then some all else none)
    ]

-- The `0x` that base 16 allows, where a digit follows it.
abbrev pub strip_0x : ℕ → Text → Text
strip_0x base (z ∷ (x ∷ (c ∷ s))) = elim (digit_value 16 c) [
  | none ↦ z ∷ (x ∷ (c ∷ s))
  | some d ↦ (if (base == 16 && z == 48) && (x == 120 || x == 88) then c ∷ s else z ∷ (x ∷ (c ∷ s)))
]
strip_0x base s = s

-- The residue of the negated value.
abbrev pub negate_64 : ℕ × Text → ℕ × Text
negate_64 (n, rest) = ((2 ^ 64 - n) % 2 ^ 64, rest)

-- `std::stoull`, and `std::stoul` where a long has 64 bits: the value, and the text that is not used.
unfoldable pub stoull : ℕ → Text → Option (ℕ × Text)
stoull base [] = none
stoull base (c ∷ s) =
    let rest = stoull base s in
    if is_space c
    then rest
    else if c == 45
    then Option.map negate_64 (unsigned_at base (strip_0x base s))
    else if c == 43
    then unsigned_at base (strip_0x base s)
    else unsigned_at base (strip_0x base (c ∷ s))

abbrev pub value_of : ℕ × Text → ℕ
value_of r = r.0

-- A text with `0x` and more, and what follows these two.
abbrev pub after_0x : Text → Option Text
after_0x (z ∷ (x ∷ (c ∷ s))) = if z == 48 && (x == 120 || x == 88) then some (c ∷ s) else none
after_0x s = none

unfoldable pub text_uint : Text → Option ℕ
text_uint [] = some 0
text_uint (c ∷ s) = elim (after_0x (c ∷ s)) [
  | some rest ↦ Option.map value_of (stoull 16 rest)
  | none ↦ Option.map value_of (stoull 10 (c ∷ s))
]

-- The whole of the text is a number.
unfoldable pub whole_uint : Text → Option ℕ
whole_uint s = do r ← stoull 10 s; if is_empty r.1 then some r.0 else none

abbrev pub or_else {ℓ} : {A : Type ℓ} → Option A → Option A → Option A
or_else none y = y
or_else (some x) y = some x

module _ (u : UniValue) where
  unfoldable pub as_uint : u.Value → Option ℕ
  as_uint v =
      if u.is_num v
      then Option.map (to_unsigned (2 ^ 64)) (u.get_int v)
      else if u.is_str v
      then u.get_str v >>= text_uint
      else some 0

  unfoldable pub stratum_id_to_uint : u.Value → Option ℕ
  stratum_id_to_uint v =
      if u.is_num v
      then or_else (Option.map (to_unsigned (2 ^ 64)) (u.get_int v)) (u.get_real v)
      else if u.is_str v
      then u.get_str v >>= whole_uint
      else none

  -- The text, or what is written when reading it raises an exception.
  abbrev pub or_unparseable : Option Text → Text
  or_unparseable none = codes "(unparseable error)"
  or_unparseable (some t) = t

  unfoldable pub stratum_error_message : u.Value → Text
  stratum_error_message err = or_unparseable (
      if u.is_str err
      then u.get_str err
      else if u.is_array err && (leb 2 (u.size err) && u.is_str (u.item err 1))
      then u.get_str (u.item err 1)
      else if u.is_object err
          && (u.exists_key err (codes "message") && u.is_str (u.field err (codes "message")))
      then u.get_str (u.field err (codes "message"))
      else some (u.write err))
