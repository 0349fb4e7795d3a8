-- ===== src/Miner/Endpoint/Printed.antt =====
-- miner/endpoint_parse.h: an endpoint that is printed is read back.
use mathlib.Core.Option
use btx_miner.Common.{
  ℕ, zero, suc, ◌+◌, ◌-◌, ◌/◌, ◌%◌, ◌^◌, ◌≤◌, ◌<◌, ◌≡◌, ◌≢◌, ◌⊎◌, refl, ap, sym, ◌∙◌, true, false,
  [], ◌∷◌, ◌++◌, map, none, some, replicate, leb, ltb, ◌==◌, Bool-cases, inl, inr, arith, All,
  All-append, subst,
}
use btx_miner.Rc.Episode.{decimal}
use btx_miner.Miner.Version.{Text, text_eq}
use btx_miner.Miner.Fields.{codes, strip_prefix}
use btx_miner.Miner.Endpoint.{
  cut_first, cut_last, is_digit, is_space, digits_value, stoi, valid_port, host_and_port, lower,
  is_tls, parse_pool_endpoint, pop_slashes, split_host_port,
}

abbrev pub Without : ℕ → Text → Type 0
Without x = All (λ c. c ≢ x)

abbrev AreDigits : Text → Type 0
AreDigits = All (λ c. (48 ≤ c) × (c ≤ 57))

digits_value-decimal :
    (k n : ℕ) (acc : Text) → n < 10 ^ k → digits_value 0 (decimal k n acc) ≡ digits_value n acc
unfolding decimal digits_value
digits_value-decimal zero n acc h = ap (λ m. digits_value m acc) (omega arith)
digits_value-decimal (suc k) n acc h = elim (Bool-cases (ltb n 10)) [
  | inl e ↦
      let d : is_digit (48 + n % 10) ≡ true = ground arith in
      rw (e, d) (ap (λ m. digits_value m acc) (ground arith))
  | inr e ↦
      let d : is_digit (48 + n % 10) ≡ true = ground arith in
      rw e (
        digits_value-decimal k (n / 10) ((48 + n % 10) ∷ acc) (omega arith)
        ∙ rw d (ap (λ m. digits_value m acc) (omega arith)))
]

decimal-AreDigits : (k n : ℕ) (acc : Text) → AreDigits acc → AreDigits (decimal k n acc)
unfolding decimal
decimal-AreDigits zero n acc h = h
decimal-AreDigits (suc k) n acc h = elim (Bool-cases (ltb n 10)) [
  | inl e ↦ rw e ((omega arith, omega arith), h)
  | inr e ↦
      rw e (decimal-AreDigits k (n / 10) ((48 + n % 10) ∷ acc) ((omega arith, omega arith), h))
]

pub decimal-cons :
    (k n c : ℕ) (acc : Text) → (d : ℕ) × (ds : Text) × (decimal k n (c ∷ acc) ≡ d ∷ ds)
unfolding decimal
decimal-cons zero n c acc = (c, acc, refl)
decimal-cons (suc k) n c acc = elim (Bool-cases (ltb n 10)) [
  | inl e ↦ (48 + n % 10, c ∷ acc, rw e refl)
  | inr e ↦ let (d, ds, e') = decimal-cons k (n / 10) (48 + n % 10) (c ∷ acc) in (d, ds, rw e e')
]

decimal-nonempty : (k n : ℕ) → (d : ℕ) × (ds : Text) × (decimal (suc k) n [] ≡ d ∷ ds)
unfolding decimal
decimal-nonempty k n = elim (Bool-cases (ltb n 10)) [
  | inl e ↦ (48 + n % 10, [], rw e refl)
  | inr e ↦ let (d, ds, e') = decimal-cons k (n / 10) (48 + n % 10) [] in (d, ds, rw e e')
]

AreDigits-Without : (x : ℕ) (s : Text) → (57 < x) ⊎ (x < 48) → AreDigits s → Without x s
AreDigits-Without x [] away h = tt
AreDigits-Without x (c ∷ s) away h = (ground (arith, away, h.0), AreDigits-Without x s away h.1)

cut_last-none : (s : Text) → Without 58 s → cut_last s ≡ none
unfolding cut_last
cut_last-none [] h = refl
cut_last-none (c ∷ s) h =
    let later = cut_last-none s h.1 in
    let other : (c == 58) ≡ false = ground (arith, h.0) in rw (later, other) refl

cut_last-append : (host s : Text) → Without 58 s → cut_last (host ++ 58 ∷ s) ≡ some (host, s)
unfolding cut_last
cut_last-append [] s h = rw (cut_last-none s h) refl
cut_last-append (c ∷ host) s h = rw (cut_last-append host s h) refl

cut_first-append :
    (scheme rest : Text)
    → Without 58 scheme
    → cut_first (codes "://") (scheme ++ (codes "://" ++ rest)) ≡ some (scheme, rest)
unfolding cut_first
cut_first-append [] rest h = refl
cut_first-append (c ∷ scheme) rest h =
    let other : (58 == c) ≡ false = ground (arith, h.0) in
    rw (other, cut_first) (rw (cut_first-append scheme rest h.1) refl)

pop_slashes-replicate : (n : ℕ) → pop_slashes (replicate n 47) ≡ []
unfolding pop_slashes
pop_slashes-replicate zero = refl
pop_slashes-replicate (suc n) = rw (pop_slashes-replicate n) refl

pop_slashes-append : (s : Text) (n : ℕ) → Without 47 s → pop_slashes (s ++ replicate n 47) ≡ s
unfolding pop_slashes
pop_slashes-append [] n h = pop_slashes-replicate n
pop_slashes-append (c ∷ []) n h =
    let other : (c == 47) ≡ false = ground (arith, h.0) in
    rw (pop_slashes, pop_slashes-replicate n, other) refl
pop_slashes-append (c ∷ (d ∷ s)) n h = rw (pop_slashes, pop_slashes-append (d ∷ s) n h.1) refl

-- A number in digits that is a port is read as it.
stoi-digits :
    (d : ℕ) (ds : Text) (port : ℕ)
    → AreDigits (d ∷ ds)
    → digits_value 0 (d ∷ ds) ≡ port
    → 1 ≤ port
    → port ≤ 65535
    → valid_port (stoi (d ∷ ds)) ≡ some port
unfolding stoi
stoi-digits d ds port h e low high =
    let e1 : is_space d ≡ false = ground (arith, h.0) in
    let e2 : (d == 45) ≡ false = ground (arith, h.0) in
    let e3 : (d == 43) ≡ false = ground (arith, h.0) in
    let e4 : is_digit d ≡ true = ground (arith, h.0) in
    let e5 : leb port (2 ^ 31 - 1) ≡ true = ground (arith, high) in
    let e6 : ltb 0 port ≡ true = ground (arith, low) in
    let e7 : leb port 65535 ≡ true = ground (arith, high) in rw (e1, e2, e3, e, e4, e5, e6, e7) refl

host_and_port-decimal :
    (host : Text) (port : ℕ)
    → host ≢ []
    → 1 ≤ port
    → port ≤ 65535
    → host_and_port (cut_last (host ++ 58 ∷ decimal 10 port [])) ≡ some (host, port)
unfolding digits_value
host_and_port-decimal [] port some_host low high = absurd (some_host refl)
host_and_port-decimal (c ∷ host) port some_host low high =
    let (d, ds, e) = decimal-nonempty 9 port in
    let digits = decimal-AreDigits 10 port [] tt in
    let value = digits_value-decimal 10 port [] (omega arith) in
    rw
      (cut_last-append (c ∷ host) (decimal 10 port [])
        (AreDigits-Without 58 _ (inl (omega arith)) digits))
      (rw e (
        ap (Option.map (λ n. (c ∷ host, n))) (
          stoi-digits d ds port (subst AreDigits e digits) (ap (digits_value 0) (sym e) ∙ value) low
            high)))

text_eq-colon : (s rest t : Text) → Without 58 t → text_eq (s ++ 58 ∷ rest) t ≡ false
text_eq-colon [] rest [] h = refl
text_eq-colon [] rest (c ∷ t) h =
    let other : (58 == c) ≡ false = ground (arith, h.0) in rw other refl
text_eq-colon (c ∷ s) rest [] h = refl
text_eq-colon (c ∷ s) rest (d ∷ t) h = elim (Bool-cases (c == d)) [
  | inl e ↦ rw e (text_eq-colon s rest t h.1)
  | inr e ↦ rw e refl
]

no_scheme : (s : Text) → Without 47 s → strip_prefix (codes "://") s ≡ none
no_scheme [] h = refl
no_scheme (c ∷ []) h = elim (Bool-cases (58 == c)) [ inl e ↦ rw e refl | inr e ↦ rw e refl ]
no_scheme (c ∷ (d ∷ s)) h =
    let other : (47 == d) ≡ false = ground (arith, h.1.0) in
    elim (Bool-cases (58 == c)) [ inl e ↦ rw (e, other) refl | inr e ↦ rw e refl ]

cut_first-none : (s : Text) → Without 47 s → cut_first (codes "://") s ≡ none
unfolding cut_first
cut_first-none [] h = refl
cut_first-none (c ∷ s) h = rw (cut_first, no_scheme (c ∷ s) h) (rw (cut_first-none s h.1) refl)

minebtx-Without : Without 58 (codes "minebtx")
minebtx-Without = (
  ground arith,
  (
    ground arith,
    (ground arith, (ground arith, (ground arith, (ground arith, (ground arith, tt))))),
  ),
)

-- `host:port`.
abbrev pub address : Text → ℕ → Text
address host port = host ++ 58 ∷ decimal 10 port []

address-Without : (host : Text) (port : ℕ) → Without 47 host → Without 47 (address host port)
address-Without host port no_slash =
    All-append (λ c. c ≢ 47) host (58 ∷ decimal 10 port []) no_slash
      (ground arith, AreDigits-Without 47 _ (inr (omega arith)) (decimal-AreDigits 10 port [] tt))

-- A host without a slash that is not empty, and a port from 1 to 65535, printed around a colon, are read
-- back: as they are, without TLS; after a scheme without a colon, with TLS when the scheme is one of the
-- four; and, for a proxy, with any number of slashes after them.
pub parse_pool_endpoint-address :
    (scheme host : Text) (port slashes : ℕ)
    → Without 58 scheme
    → Without 47 host
    → host ≢ []
    → 1 ≤ port
    → port ≤ 65535
    → (parse_pool_endpoint (address host port)
        ≡ some (record { host = host; port = port; use_tls = false }))
      × (parse_pool_endpoint (scheme ++ (codes "://" ++ address host port))
          ≡ some (record { host = host; port = port; use_tls = is_tls (map lower scheme) }))
      × (split_host_port (scheme ++ (codes "://" ++ (address host port ++ replicate slashes 47)))
          ≡ some (host, port))
unfolding parse_pool_endpoint split_host_port
parse_pool_endpoint-address scheme host port slashes plain no_slash some_host low high =
    let found = host_and_port-decimal host port some_host low high in
    let there = address-Without host port no_slash in
    let alias = text_eq-colon host (decimal 10 port []) (codes "minebtx") minebtx-Without in
    let alias' =
      text_eq-colon scheme (47 ∷ (47 ∷ address host port)) (codes "minebtx") minebtx-Without in
    (
      rw alias (rw (cut_first-none (address host port) there) (rw found refl)),
      rw alias' (rw (cut_first-append scheme (address host port) plain) (rw found refl)),
      rw (cut_first-append scheme (address host port ++ replicate slashes 47) plain)
          (rw (pop_slashes-append (address host port) slashes there) found),
    )
