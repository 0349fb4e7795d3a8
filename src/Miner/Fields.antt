-- ===== src/Miner/Fields.antt =====
-- miner/poolcore.h: how a field is read from a line of the protocol, `PcGetString` and `PcGetU64`. A
-- position in the line is the text from it on; `npos` is `none`.
use Prim.Native.Char.{code}
use Prim.Native.String.{String}
use mathlib.Core.Option
use btx_miner.Common.{
  ℕ, ◌+◌, ◌*◌, ◌-◌, ◌%◌, ◌^◌, Bool, true, false, ◌&&◌, [], ◌∷◌, ◌++◌, Option, none, some, leb, ◌==◌,
  if◌then◌else◌,
}
use btx_miner.Miner.Version.{Text}

-- The characters of a literal.
abbrev pub codes : String → Text
codes String.[] = []
codes (String.◌∷◌ c s) = code c ∷ codes s

abbrev pub or_else {ℓ} : {A : Type ℓ} → Option A → Option A → Option A
or_else none y = y
or_else (some x) y = some x

-- The text after a prefix.
abbrev pub strip_prefix : Text → Text → Option Text
strip_prefix [] s = some s
strip_prefix (p ∷ pat) [] = none
strip_prefix (p ∷ pat) (c ∷ s) = if p == c then strip_prefix pat s else none

-- `line.find(pat)`: the text after the first place where the pattern stands.
unfoldable pub after : Text → Text → Option Text
after pat [] = strip_prefix pat []
after pat (c ∷ s) = or_else (strip_prefix pat (c ∷ s)) (after pat s)

unfoldable pub after_char : ℕ → Text → Option Text
after_char x [] = none
after_char x (c ∷ s) = if x == c then some s else after_char x s

-- The text up to the next quote.
unfoldable pub up_to_quote : Text → Option Text
up_to_quote [] = none
up_to_quote (c ∷ s) = if c == 34 then some [] else Option.map (λ t. c ∷ t) (up_to_quote s)

-- `"` + key + `"`.
abbrev pub quoted : Text → Text
quoted key = 34 ∷ (key ++ 34 ∷ [])

infixl 5 ◌>>=◌
abbrev ◌>>=◌ {ℓ κ} : {A : Type ℓ} {B : Type κ} → Option A → (A → Option B) → Option B
none >>= f = none
some a >>= f = f a

-- What stands after the colon that follows the key.
unfoldable pub after_key : Text → Text → Option Text
after_key line key = do p ← after (quoted key) line; after_char 58 p

unfoldable pub pc_get_string : Text → Text → Option Text
pc_get_string line key = do p ← after_key line key; q ← after_char 34 p; up_to_quote q

unfoldable pub skip_spaces : Text → Text
skip_spaces [] = []
skip_spaces (c ∷ s) = if c == 32 then skip_spaces s else c ∷ s

-- The loop over the digits: `v` wraps as a `uint64_t`, and `any` says that there was a digit.
unfoldable pub read_digits : Text → ℕ → Bool → Option ℕ
read_digits [] v any = if any then some v else none
read_digits (c ∷ s) v any =
    let rest = read_digits s ((v * 10 + (c - 48)) % 2 ^ 64) true in
    if leb 48 c && leb c 57 then rest else if any then some v else none

unfoldable pub pc_get_u64 : Text → Text → Option ℕ
pc_get_u64 line key = do p ← after_key line key; read_digits (skip_spaces p) 0 false
