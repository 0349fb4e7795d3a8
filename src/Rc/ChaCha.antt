-- ===== src/Rc/ChaCha.antt =====
-- core/matmul/matmul_v4_rc.cpp: `ChaCha20` (RFC 8439), of which one block of 64 bytes is drawn at a time. The
-- state is the list of its sixteen words.
use btx_miner.Common.{
  ℕ, zero, suc, ◌+◌, ◌-◌, ◌*◌, ◌/◌, ◌%◌, ◌^◌, bit_or, bit_xor, List, [], ◌∷◌, ◌++◌, get_or, set,
}
use btx_miner.Common.Bytes.{le_bytes}

-- The words of the bytes, the low byte first.
abbrev pub le_words : List ℕ → List ℕ
le_words [] = []
le_words (a ∷ (b ∷ (c ∷ (d ∷ bs)))) =
    bit_or (bit_or a (b * 2 ^ 8)) (bit_or (c * 2 ^ 16) (d * 2 ^ 24)) ∷ le_words bs
le_words _ = []

-- "expand 32-byte k".
abbrev sigma_words : List ℕ
sigma_words = 1634760805 ∷ 857760878 ∷ 2036477234 ∷ 1797285236 ∷ []

-- The constructor and `seek`: the constants, the key, the counter, and the nonce.
unfoldable pub chacha_state : List ℕ → ℕ → ℕ → ℕ → List ℕ
chacha_state key nonce_first nonce_second counter =
    sigma_words
    ++ (le_words key
        ++ counter ∷ nonce_first ∷ nonce_second % 2 ^ 32 ∷ nonce_second / 2 ^ 32 % 2 ^ 32 ∷ [])

abbrev pub rotl : ℕ → ℕ → ℕ
rotl x n = bit_or (x * 2 ^ n % 2 ^ 32) (x / 2 ^ (32 - n))

-- `x[a] += x[b]; x[d] = rotl(x[d] ^ x[a], n);`.
abbrev pub add_xor_rotl : List ℕ → ℕ → ℕ → ℕ → ℕ → List ℕ
add_xor_rotl x a b d n =
    let y = set x a ((get_or x a 0 + get_or x b 0) % 2 ^ 32) in
    set y d (rotl (bit_xor (get_or y d 0) (get_or y a 0)) n)

abbrev pub qr : List ℕ → ℕ → ℕ → ℕ → ℕ → List ℕ
qr x a b c d =
    add_xor_rotl (add_xor_rotl (add_xor_rotl (add_xor_rotl x a b d 16) c d b 12) a b d 8) c d b 7

-- A round on the columns and one on the diagonals.
abbrev pub double_round : List ℕ → List ℕ
double_round x =
    let columns = qr (qr (qr (qr x 0 4 8 12) 1 5 9 13) 2 6 10 14) 3 7 11 15 in
    qr (qr (qr (qr columns 0 5 10 15) 1 6 11 12) 2 7 8 13) 3 4 9 14

unfoldable pub rounds : ℕ → List ℕ → List ℕ
rounds zero x = x
rounds (suc n) x = rounds n (double_round x)

-- `x[i] + in[i]`, as bytes.
abbrev pub add_words : List ℕ → List ℕ → List ℕ
add_words [] ys = []
add_words (x ∷ xs) [] = []
add_words (x ∷ xs) (y ∷ ys) = le_bytes 4 ((x + y) % 2 ^ 32) ++ add_words xs ys

unfoldable pub keystream_block : List ℕ → List ℕ
keystream_block input = add_words (rounds 10 input) input
