-- ===== src/Miner/Json/Closed.antt =====
-- miner/poolcore.h: a field that is written ends where its reader thinks it ends.
use mathlib.Core.List.{append_assoc}
use btx_miner.Common.{
  subst⁻¹, ℕ, ◌/◌, ◌%◌, ◌≤◌, ◌<◌, ◌≡◌, ◌≢◌, refl, ap, sym, ◌∙◌, Bool, true, false, List, [], ◌∷◌,
  ◌++◌, Option, none, some, ltb, ◌==◌, if◌then◌else◌, arith,
}
use btx_miner.Miner.Json.{hex_char, escape_char, pc_json_escape, pc_json_str}

-- How a reader of JSON leaves a text: at the first quote that no backslash stands before. The result is
-- what follows it.
abbrev pub close_quote : List ℕ → Option (List ℕ)
close_quote [] = none
close_quote (c ∷ []) = if c == 34 then some [] else none
close_quote (c ∷ (x ∷ s)) =
    let escaped = close_quote s in
    let plain = close_quote (x ∷ s) in
    if c == 34 then some (x ∷ s) else if c == 92 then escaped else plain

-- Every character is at least a space: none is a line break or another control.
abbrev pub ArePrintable : List ℕ → Type 0
ArePrintable [] = 0 ≤ 0
ArePrintable (c ∷ s) = (32 ≤ c) × ArePrintable s

pass_plain :
    (c x : ℕ) (s : List ℕ) → c ≢ 34 → c ≢ 92 → close_quote (c ∷ (x ∷ s)) ≡ close_quote (x ∷ s)
pass_plain c x s h k = ground arith

hex_char_plain : (d : ℕ) → d < 16 → (32 ≤ hex_char d) × (hex_char d ≢ 34) × (hex_char d ≢ 92)
hex_char_plain d h = (ground arith, ground arith, ground arith)

choose :
    (P : List ℕ → Type 0) (b : Bool) (x y : List ℕ)
    → P x
    → (b ≡ false → P y)
    → P (if b then x else y)
choose P true x y p q = p
choose P false x y p q = q refl

choose_either :
    (P : List ℕ → Type 0) (b : Bool) (x y : List ℕ)
    → (b ≡ true → P x)
    → (b ≡ false → P y)
    → P (if b then x else y)
choose_either P true x y p q = p refl
choose_either P false x y p q = q refl

module _ (P : List ℕ → Type 0) (c : ℕ) where
  -- To prove something of what a character becomes.
  escape_cases :
      P (92 ∷ 34 ∷ [])
      → P (92 ∷ 92 ∷ [])
      → P (92 ∷ 110 ∷ [])
      → P (92 ∷ 114 ∷ [])
      → P (92 ∷ 116 ∷ [])
      → ((h l : ℕ) → h < 16 → l < 16 → P (92 ∷ 117 ∷ 48 ∷ 48 ∷ hex_char h ∷ hex_char l ∷ []))
      → (32 ≤ c → c ≢ 34 → c ≢ 92 → P (c ∷ []))
      → P (escape_char c)
  escape_cases q b n r t u d = choose P (c == 34) _ _ q (λ e1. choose P (c == 92) _ _ b (λ e2.
      choose P (c == 10) _ _ n (λ e3.
        choose P (c == 13) _ _ r (λ e4. choose P (c == 9) _ _ t (λ e5. control_or_plain e1 e2)))))
    where
      control_or_plain :
          (c == 34) ≡ false
          → (c == 92) ≡ false
          → P (
              if ltb c 32
              then 92 ∷ 117 ∷ 48 ∷ 48 ∷ hex_char (c / 16) ∷ hex_char (c % 16) ∷ []
              else c ∷ [])
      control_or_plain e1 e2 =
          choose_either P (ltb c 32) _ _ (λ e. u (c / 16) (c % 16) (ground arith) (omega arith))
            (λ e. d (ground arith) (ground arith) (ground arith))

escape_char-pass :
    (c x : ℕ) (s : List ℕ) → close_quote (escape_char c ++ (x ∷ s)) ≡ close_quote (x ∷ s)
escape_char-pass c x s =
    escape_cases (λ e. close_quote (e ++ (x ∷ s)) ≡ close_quote (x ∷ s)) c refl refl refl refl refl
      (λ h l a b.
        let p = hex_char_plain h a in
        let q = hex_char_plain l b in
        pass_plain (hex_char h) (hex_char l) (x ∷ s) p.1 p.2 ∙ pass_plain (hex_char l) x s q.1 q.2)
      (λ a h k. pass_plain c x s h k)

escape_char-ArePrintable : (c : ℕ) (s : List ℕ) → ArePrintable s → ArePrintable (escape_char c ++ s)
escape_char-ArePrintable c s h =
    escape_cases (λ e. ArePrintable (e ++ s)) c (omega arith, (omega arith, h))
      (omega arith, (omega arith, h)) (omega arith, (omega arith, h))
      (omega arith, (omega arith, h)) (omega arith, (omega arith, h))
      (λ d l a b. (
        omega arith,
        (
          omega arith,
          (omega arith, (omega arith, ((hex_char_plain d a).0, ((hex_char_plain l b).0, h)))),
        ),
      ))
      (λ a k m. (a, h))

first_char : (s rest : List ℕ) → (x : ℕ) × (t : List ℕ) × (s ++ 34 ∷ rest ≡ x ∷ t)
first_char [] rest = (34, rest, refl)
first_char (y ∷ s) rest = (y, s ++ 34 ∷ rest, refl)

escape-pass : (s : List ℕ) (rest : List ℕ) → close_quote (pc_json_escape s ++ 34 ∷ rest) ≡ some rest
unfolding pc_json_escape
escape-pass [] [] = refl
escape-pass [] (x ∷ rest) = refl
escape-pass (c ∷ s) rest =
    let (x, t, e) = first_char (pc_json_escape s) rest in
    ap close_quote (append_assoc (escape_char c) (pc_json_escape s) (34 ∷ rest))
    ∙ ap (λ u. close_quote (escape_char c ++ u)) e
    ∙ escape_char-pass c x t
    ∙ sym (ap close_quote e)
    ∙ escape-pass s rest

escape-ArePrintable : (s t : List ℕ) → ArePrintable t → ArePrintable (pc_json_escape s ++ t)
unfolding pc_json_escape
escape-ArePrintable [] t h = h
escape-ArePrintable (c ∷ s) t h =
    subst⁻¹ ArePrintable (append_assoc (escape_char c) (pc_json_escape s) t)
      (escape_char-ArePrintable c (pc_json_escape s ++ t) (escape-ArePrintable s t h))

-- Whatever text is put into a field, a reader that comes to it after the opening quote leaves it
-- exactly at the closing one, and what it goes on with is what was written after the field; and the field
-- holds no control character, so it never ends the line.
pub pc_json_str-close_quote :
    (s rest : List ℕ)
    → (close_quote (pc_json_escape s ++ 34 ∷ rest) ≡ some rest) × ArePrintable (pc_json_str s)
unfolding pc_json_str
pc_json_str-close_quote s rest =
    (escape-pass s rest, (omega arith, escape-ArePrintable s (34 ∷ []) (omega arith, omega arith)))
