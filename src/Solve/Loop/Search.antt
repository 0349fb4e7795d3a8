-- ===== src/Solve/Loop/Search.antt =====
-- core/matmul/pow_solve.cpp: which nonces the search tries, and which of them it returns.
use btx_miner.Common.{
  not_below, subst, subst⁻¹, ap₂, ℕ, zero, suc, ◌+◌, ◌≤◌, ◌-◌, ◌⊎◌, inl, inr, ◌<◌, ◌≡◌, ◌≢◌, sym,
  ap, ◌∙◌, Bool, true, false, arith,
}
use btx_miner.Solve.Header.{Header, derive_sigma}
use btx_miner.Solve.Seeds.{set_deterministic_matmul_seeds, seed_preimage_v2, seed_preimage_v3}
use btx_miner.Solve.Loop.{Job, Outcome, search, seed_block, advance_nonce, nonce_max}

-- The header with the `k`-th nonce after its own.
abbrev pub candidate : Header → ℕ → Header
candidate h zero = h
candidate h (suc k) = advance_nonce h (h.nonce64 + suc k)

module _ (job : Job) where
  -- Seeding reads neither seed, and changes nothing else.
  pub seed_reset :
      (h : Header) (a b : ℕ)
      → seed_block job (record h { seed_a = a; seed_b = b }) ≡ seed_block job h
  unfolding set_deterministic_matmul_seeds seed_preimage_v2 seed_preimage_v3
  seed_reset h a b = ground arith

  pub seeded_is :
      (h : Header)
      → (seed_block job h).1
        ≡ record h { seed_a = (seed_block job h).1.seed_a; seed_b = (seed_block job h).1.seed_b }
  unfolding set_deterministic_matmul_seeds
  seeded_is h = ground arith

  next_nonce :
      (h : Header) (a b k : ℕ)
      → candidate (advance_nonce (record h { seed_a = a; seed_b = b }) (suc h.nonce64)) k
        ≡ record (candidate h (suc k)) { seed_a = a; seed_b = b }
  next_nonce h a b zero = ground arith
  next_nonce h a b (suc k) = ground arith

  -- Trying the next nonce of a seeded header is the same as seeding the header with that nonce.
  pub next_candidate :
      (h : Header) (k : ℕ)
      → seed_block job (candidate (advance_nonce (seed_block job h).1 (suc h.nonce64)) k)
        ≡ seed_block job (candidate h (suc k))
  next_candidate h k =
      let a = (seed_block job h).1.seed_a in
      let b = (seed_block job h).1.seed_b in
      ap (λ s. seed_block job (candidate (advance_nonce s (suc h.nonce64)) k)) (seeded_is h)
      ∙ ap (seed_block job) (next_nonce h a b k)
      ∙ seed_reset (candidate h (suc k)) a b

  pub seeded_nonce64 : (h : Header) → (seed_block job h).1.nonce64 ≡ h.nonce64
  seeded_nonce64 h = ap (λ x. x.nonce64) (seeded_is h)

extend : {k : ℕ} (P : ℕ → Type 0) → P 0 → ((j : ℕ) → j < k → P (suc j)) → (j : ℕ) → j < suc k → P j
extend P p f zero l = p
extend P p f (suc j) l = f j (omega arith)

-- One iteration, as seen from outside: whether it is aborted, whether the seeds can be set, the
-- digest of the candidate, and its nonce.
pub record Trial : Type 0 where
  pub stopped : Bool
  pub seeded : Bool
  pub digest : ℕ
  pub at_nonce : ℕ

-- The target is not met, and the search goes on to the next nonce.
abbrev pub Misses : ℕ → Trial → Type 0
Misses target t =
    (t.stopped ≡ false) × (t.seeded ≡ true) × (target < t.digest) × (t.at_nonce ≢ nonce_max)

abbrev pub Wins : ℕ → Trial → Type 0
Wins target t = (t.stopped ≡ false) × (t.seeded ≡ true) × (1 ≤ t.digest) × (t.digest ≤ target)

abbrev pub iterate : (ℕ → ℕ) → ℕ → ℕ → ℕ
iterate f zero x = x
iterate f (suc n) x = iterate f n (f x)

abbrev make_trial : Bool → Bool → ℕ → ℕ → Trial
make_trial a b d n = record { stopped = a; seeded = b; digest = d; at_nonce = n }

trial_eq :
    {a a' b b' : Bool} {d d' n n' : ℕ}
    → a ≡ a'
    → b ≡ b'
    → d ≡ d'
    → n ≡ n'
    → make_trial a b d n ≡ make_trial a' b' d' n'
trial_eq p q r s = ground arith

module _ (job : Job) (mine : ℕ → ℕ) (tick : ℕ → ℕ) (target : ℕ) (aborted : ℕ → Bool) where
  abbrev attempt : Header → ℕ → Header
  attempt h k = (seed_block job (candidate h k)).1

  abbrev pub trial : ℕ → Header → ℕ → Trial
  trial i h k = record {
    stopped = aborted (i + k);
    seeded = (seed_block job (candidate h k)).0;
    digest = mine (derive_sigma job.sha256 (attempt h k));
    at_nonce = h.nonce64 + k;
  }

  abbrev pub next : Header → Header
  next h = advance_nonce (seed_block job h).1 (suc h.nonce64)

  pub trial-next : (i : ℕ) (h : Header) (k : ℕ) → trial (suc i) (next h) k ≡ trial i h (suc k)
  trial-next i h k =
      let same = next_candidate job h k in
      let d = ap (λ p. mine (derive_sigma job.sha256 p.1)) same in
      let s = ap (λ p. p.0) same in
      let o : suc i + k ≡ i + suc k = omega arith in
      let n : suc h.nonce64 + k ≡ h.nonce64 + suc k = omega arith in trial_eq (ap aborted o) s d n

  abbrev winner_at : Bool × Header → ℕ → ℕ → Outcome
  winner_at seeded left episodes = record {
    won = true;
    block = record (seeded.1) { matmul_digest = mine (derive_sigma job.sha256 seeded.1) };
    max_tries = left;
    rc_episodes = episodes;
  }

  -- What the search returns when the `k`-th candidate wins.
  abbrev pub winner : ℕ → Header → ℕ → ℕ → Outcome
  winner tries h k episodes =
      winner_at (seed_block job (candidate h k)) (tries - k) (iterate tick (suc k) episodes)

  abbrev go : ℕ → ℕ → Header → ℕ → Outcome
  go = search job mine tick target aborted

  pub step_miss :
      (tries i : ℕ) (h : Header) (e : ℕ)
      → Misses target (trial i h 0)
      → go (suc tries) i h e ≡ go tries (suc i) (next h) (tick e)
  unfolding search
  step_miss tries i h e (a, s, d, n) = ground (arith, seeded_nonce64 job h)

  step_win :
      (tries i : ℕ) (h : Header) (e : ℕ)
      → Wins target (trial i h 0)
      → go (suc tries) i h e ≡ winner (suc tries) h 0 e
  unfolding search
  step_win tries i h e (a, s, d, n) = ground arith

  step_cases :
      (tries i : ℕ) (h : Header) (e : ℕ)
      → (go (suc tries) i h e).won ≡ true
      → Misses target (trial i h 0) ⊎ Wins target (trial i h 0)
  unfolding search
  step_cases tries i h e w = ground (arith, seeded_nonce64 job h)

  pub shift :
      (P : Trial → Type 0) (i : ℕ) (h : Header) (k : ℕ)
      → (P (trial i h (suc k)) → P (trial (suc i) (next h) k))
        × (P (trial (suc i) (next h) k) → P (trial i h (suc k)))
  shift P i h k = (subst⁻¹ P (trial-next i h k), subst P (trial-next i h k))

  winner-next :
      (tries k : ℕ) (h : Header) (e : ℕ)
      → winner tries (next h) k (tick e) ≡ winner (suc tries) h (suc k) e
  winner-next tries k h e =
      ap₂ (λ p left. winner_at p left (iterate tick (suc (suc k)) e)) (next_candidate job h k)
        (omega arith)

  pub search_finds :
      (tries i k : ℕ) (h : Header) (e : ℕ)
      → k < tries
      → ((j : ℕ) → j < k → Misses target (trial i h j))
      → Wins target (trial i h k)
      → go tries i h e ≡ winner tries h k e
  search_finds zero i k h e b m w = absurd (not_below k b)
  search_finds (suc tries) i zero h e b m w = step_win tries i h e w
  search_finds (suc tries) i (suc k) h e b m w =
      step_miss tries i h e (m 0 (omega arith))
      ∙ search_finds tries (suc i) k (next h) (tick e) (omega arith)
          (λ j l. (shift (Misses target) i h j).0 (m (suc j) (omega arith)))
          ((shift (Wins target) i h k).0 w)
      ∙ winner-next tries k h e

  -- The `k`-th candidate wins, within the tries, and none before it does.
  abbrev pub IsFirstWin : ℕ → ℕ → Header → ℕ → Type 0
  IsFirstWin tries i h k =
      (k < tries) × ((j : ℕ) → j < k → Misses target (trial i h j)) × Wins target (trial i h k)

  abbrev pub FirstWin : ℕ → ℕ → Header → Type 0
  FirstWin tries i h = (k : ℕ) × IsFirstWin tries i h k

  pub search_won :
      (tries i : ℕ) (h : Header) (e : ℕ) → (go tries i h e).won ≡ true → FirstWin tries i h
  unfolding search
  search_won zero i h e w = ground arith
  search_won (suc tries) i h e w = elim (step_cases tries i h e w) [
    | inr wins ↦ (0, (omega arith, λ j l. absurd (not_below j l), wins))
    | inl misses ↦
        let later = ap (λ o. o.won) (sym (step_miss tries i h e misses)) ∙ w in
        let (k, (b, m, found)) = search_won tries (suc i) (next h) (tick e) later in
        (
          suc k,
          (
            omega arith,
            extend (λ j. Misses target (trial i h j)) misses
                (λ j l. (shift (Misses target) i h j).1 (m j l)),
            (shift (Wins target) i h k).1 found,
          ),
        )
  ]
