-- ===== src/Miner/Pool/Template.antt =====
-- miner/poolcore.h: a header template that was written out in hexadecimal is read back.
use btx_miner.Common.{
  subst, ℕ, zero, suc, ◌+◌, ◌*◌, ◌/◌, ◌%◌, ◌^◌, ◌≤◌, ◌<◌, ◌≡◌, refl, ap, ◌∙◌, List, [], ◌∷◌, ◌++◌,
  length, take, drop, some, ltb, if◌then◌else◌, arith,
}
use btx_miner.Common.Bytes.{le_bytes, length-le_bytes}
use btx_miner.Solve.Header.{Header}
use btx_miner.Miner.Pool.{
  hex_digit, hex_pairs, pc_hex_to_bytes, le_value, word_of, header_of_bytes, from_raw,
  pc_header_from_hex,
}

-- A digit in lower case.
abbrev pub digit_char : ℕ → ℕ
digit_char d = if ltb d 10 then 48 + d else 87 + d

abbrev pub hex_text : List ℕ → List ℕ
hex_text [] = []
hex_text (b ∷ bs) = digit_char (b / 16) ∷ (digit_char (b % 16) ∷ hex_text bs)

abbrev pub AreBytes : List ℕ → Type 0
AreBytes [] = 0 ≤ 0
AreBytes (b ∷ bs) = (b < 256) × AreBytes bs

hex_digit-char : (d : ℕ) → d < 16 → hex_digit (digit_char d) ≡ some d
unfolding hex_digit
hex_digit-char d h = ground arith

length-hex_text : (bs : List ℕ) → length (hex_text bs) ≡ length bs * 2
length-hex_text [] = refl
length-hex_text (b ∷ bs) = omega (arith, length-hex_text bs)

hex_pairs-text : (bs : List ℕ) → AreBytes bs → hex_pairs (hex_text bs) ≡ some bs
unfolding hex_pairs
hex_pairs-text [] h = refl
hex_pairs-text (b ∷ bs) h =
    let hi = hex_digit-char (b / 16) (omega arith) in
    let lo = hex_digit-char (b % 16) (omega arith) in
    rw (hi, lo, hex_pairs-text bs h.1) (ap (λ n. some (n ∷ bs)) (omega arith))

pc_hex_to_bytes-text :
    (bs : List ℕ) → AreBytes bs → pc_hex_to_bytes (hex_text bs) (length bs) ≡ some bs
unfolding pc_hex_to_bytes
pc_hex_to_bytes-text bs h = ground (arith, length-hex_text bs, hex_pairs-text bs h)

le_value-bytes : (n x : ℕ) → x < 256 ^ n → le_value (le_bytes n x) ≡ x
unfolding le_value le_bytes
le_value-bytes zero x h = omega arith
le_value-bytes (suc n) x h = omega (arith, le_value-bytes n (x / 256) (omega arith))

le_bytes-AreBytes : (n x : ℕ) → AreBytes (le_bytes n x)
unfolding le_bytes
le_bytes-AreBytes zero x = omega arith
le_bytes-AreBytes (suc n) x = (omega arith, le_bytes-AreBytes n (x / 256))

append-AreBytes : (a b : List ℕ) → AreBytes a → AreBytes b → AreBytes (a ++ b)
append-AreBytes [] b h k = k
append-AreBytes (x ∷ a) b h k = (h.0, append-AreBytes a b h.1 k)

take-front : (n : ℕ) (a b : List ℕ) → length a ≡ n → take n (a ++ b) ≡ a
take-front zero [] b h = refl
take-front zero (x ∷ a) b h = absurd (omega arith)
take-front (suc n) [] b h = absurd (omega arith)
take-front (suc n) (x ∷ a) b h = ap (λ t. x ∷ t) (take-front n a b (omega arith))

drop-front : (n k : ℕ) (a b : List ℕ) → length a ≡ n → drop (n + k) (a ++ b) ≡ drop k b
drop-front zero k [] b h = ap (λ i. drop i b) (omega arith)
drop-front zero k (x ∷ a) b h = absurd (omega arith)
drop-front (suc n) k [] b h = absurd (omega arith)
drop-front (suc n) k (x ∷ a) b h =
    let next : suc n + k ≡ suc (n + k) = omega arith in
    ap (λ i. drop i (x ∷ (a ++ b))) next ∙ drop-front n k a b (omega arith)

-- The fields fit the widths they are written with.
pub record IsTemplate (h : Header) : Type 0 where
  pub version : h.version < 256 ^ 4
  pub hash_prev_block : h.hash_prev_block < 256 ^ 32
  pub hash_merkle_root : h.hash_merkle_root < 256 ^ 32
  pub time : h.time < 256 ^ 4
  pub bits : h.bits < 256 ^ 4

-- The 80 bytes of a template: the fields in the order of the wire, and four bytes of nonce.
unfoldable pub template_of : Header → ℕ → List ℕ
template_of h nonce =
    le_bytes 4 h.version
    ++ (le_bytes 32 h.hash_prev_block
        ++ (le_bytes 32 h.hash_merkle_root
            ++ (le_bytes 4 h.time ++ (le_bytes 4 h.bits ++ le_bytes 4 nonce))))

-- A number that was written in `n` bytes after `at` others is read back from there.
word_of-field :
    (at n x : ℕ) (raw rest : List ℕ)
    → x < 256 ^ n
    → drop at raw ≡ le_bytes n x ++ rest
    → word_of raw at n ≡ x
word_of-field at n x raw rest h e =
    ap (λ t. le_value (take n t)) e
    ∙ ap le_value (take-front n (le_bytes n x) rest (length-le_bytes n x))
    ∙ le_value-bytes n x h

module _ (h : Header) (nonce : ℕ) where
  abbrev raw : List ℕ
  raw = template_of h nonce

  abbrev from_bits : List ℕ
  from_bits = le_bytes 4 h.bits ++ le_bytes 4 nonce

  abbrev from_time : List ℕ
  from_time = le_bytes 4 h.time ++ from_bits

  abbrev from_merkle : List ℕ
  from_merkle = le_bytes 32 h.hash_merkle_root ++ from_time

  abbrev from_prev : List ℕ
  from_prev = le_bytes 32 h.hash_prev_block ++ from_merkle

  at_prev : drop 4 raw ≡ from_prev
  unfolding template_of
  at_prev = drop-front 4 0 (le_bytes 4 h.version) from_prev (length-le_bytes 4 h.version)

  at_merkle : drop 36 raw ≡ from_merkle
  unfolding template_of
  at_merkle =
      drop-front 4 32 (le_bytes 4 h.version) from_prev (length-le_bytes 4 h.version)
      ∙ drop-front 32 0 (le_bytes 32 h.hash_prev_block) from_merkle
          (length-le_bytes 32 h.hash_prev_block)

  at_time : drop 68 raw ≡ from_time
  unfolding template_of
  at_time =
      drop-front 4 64 (le_bytes 4 h.version) from_prev (length-le_bytes 4 h.version)
      ∙ drop-front 32 32 (le_bytes 32 h.hash_prev_block) from_merkle
          (length-le_bytes 32 h.hash_prev_block)
      ∙ drop-front 32 0 (le_bytes 32 h.hash_merkle_root) from_time
          (length-le_bytes 32 h.hash_merkle_root)

  at_bits : drop 72 raw ≡ from_bits
  unfolding template_of
  at_bits =
      drop-front 4 68 (le_bytes 4 h.version) from_prev (length-le_bytes 4 h.version)
      ∙ drop-front 32 36 (le_bytes 32 h.hash_prev_block) from_merkle
          (length-le_bytes 32 h.hash_prev_block)
      ∙ drop-front 32 4 (le_bytes 32 h.hash_merkle_root) from_time
          (length-le_bytes 32 h.hash_merkle_root)
      ∙ drop-front 4 0 (le_bytes 4 h.time) from_bits (length-le_bytes 4 h.time)

  raw-AreBytes : AreBytes raw
  unfolding template_of
  raw-AreBytes = append-AreBytes _ _ (le_bytes-AreBytes 4 h.version) (
      append-AreBytes _ _ (le_bytes-AreBytes 32 h.hash_prev_block) (
        append-AreBytes _ _ (le_bytes-AreBytes 32 h.hash_merkle_root) (
          append-AreBytes _ _ (le_bytes-AreBytes 4 h.time)
            (append-AreBytes _ _ (le_bytes-AreBytes 4 h.bits) (le_bytes-AreBytes 4 nonce)))))

  length-raw : length raw ≡ 80
  unfolding template_of le_bytes
  length-raw = refl

  -- The fields of a template, and the rest of the header that it is read into.
  abbrev pub filled_in : Header → Header
  filled_in b = record h {
    nonce = 0;
    nonce64 = 0;
    matmul_dim = b.matmul_dim;
    seed_a = b.seed_a;
    seed_b = b.seed_b;
    matmul_digest = 0;
  }

  header_of_raw : (b : Header) → IsTemplate h → header_of_bytes raw b ≡ filled_in b
  unfolding header_of_bytes template_of
  header_of_raw b w =
      let p = word_of-field 0 4 h.version raw from_prev w.version refl in
      let q = word_of-field 4 32 h.hash_prev_block raw from_merkle w.hash_prev_block at_prev in
      let r = word_of-field 36 32 h.hash_merkle_root raw from_time w.hash_merkle_root at_merkle in
      let s = word_of-field 68 4 h.time raw from_bits w.time at_time in
      let t = word_of-field 72 4 h.bits raw (le_bytes 4 nonce) w.bits at_bits in
      rw (p, q, r, s, t) refl

-- The 80 bytes of a header whose fields fit their widths, written in hexadecimal, are read back: the
-- five fields of the template come from the text, whatever nonce it holds; both nonces and the digest
-- are cleared, and the dimension and the seeds of the header that is read into stay.
pub pc_header_from_hex-template :
    (h b : Header) (nonce : ℕ)
    → IsTemplate h
    → pc_header_from_hex (hex_text (template_of h nonce)) b ≡ some (filled_in h nonce b)
unfolding pc_header_from_hex
pc_header_from_hex-template h b nonce w =
    let bytes =
      subst (λ n. pc_hex_to_bytes (hex_text (template_of h nonce)) n ≡ some (template_of h nonce))
        (length-raw h nonce) (pc_hex_to_bytes-text (template_of h nonce) (raw-AreBytes h nonce)) in
    ap (λ o. from_raw o b) bytes ∙ ap some (header_of_raw h nonce b w)
