-- ===== src/Miner/Latch/Repeats.antt =====
-- Why MaybeLatchRCFromJob counts a job that several sessions deliver once (miner/matador-miner.cpp).
use mathlib.Core.List.{append_assoc}
use btx_miner.Common.{
  ℕ, suc, ◌+◌, ◌≤◌, ◌<◌, ◌≡◌, refl, sym, subst, ap, ◌∙◌, ◌⊎◌, inl, inr, true, false, List, [], ◌∷◌,
  ◌++◌, length, ltb, arith, Bool-cases, length-append,
}
use btx_miner.Common.Int.{ℤ, pos, leb_ℤ}
use btx_miner.Miner.Version.{Text, text_eq}
use btx_miner.Miner.Notify.{StratumJob}
use btx_miner.Miner.Latch.{
  Detection, Latch, has_id, push_id, count_job, settle_latch, maybe_latch_rc_from_job, observe_jobs,
  rc_stratum_auto_latch_enabled, ring_size,
}
use btx_miner.Miner.Latch.Stream.{latch_cases}

-- The ring holds an id, with at most `n` after it.
record Held (id : Text) (n : ℕ) (ids : List Text) : Type 0 where
  pub older : List Text
  pub newer : List Text
  pub ring : ids ≡ older ++ id ∷ newer
  pub few : length newer ≤ n
  pub bounded : length ids ≤ ring_size

text_eq_self : (t : Text) → text_eq t t ≡ true
text_eq_self [] = refl
text_eq_self (c ∷ t) = ground (arith, text_eq_self t)

has_id-append : (id : Text) (xs ys : List Text) → has_id id (xs ++ id ∷ ys) ≡ true
unfolding has_id
has_id-append id [] ys = rw (text_eq_self id) refl
has_id-append id (x ∷ xs) ys = elim (Bool-cases (text_eq x id)) [
  | inl e ↦ rw e refl
  | inr e ↦ rw e (has_id-append id xs ys)
]

push-Held :
    (id new : Text) (xs ys : List Text) (n : ℕ)
    → suc n < ring_size
    → length (xs ++ id ∷ ys) ≤ ring_size
    → length ys ≤ n
    → Held id (suc n) (push_id (xs ++ id ∷ ys) new)
unfolding push_id
push-Held id new [] ys n room bounded few =
    let size = length-append ys (new ∷ []) in
    let fits : ltb ring_size (length (id ∷ (ys ++ new ∷ []))) ≡ false = ground (arith, size) in
    rw fits record {
      older = [];
      newer = ys ++ new ∷ [];
      ring = refl;
      few = omega (arith, size);
      bounded = omega (arith, size);
    }
push-Held id new (x ∷ xs) ys n room bounded few =
    let size = length-append ys (new ∷ []) in
    let whole = length-append (xs ++ id ∷ ys) (new ∷ []) in
    elim (Bool-cases (ltb ring_size (length (x ∷ ((xs ++ id ∷ ys) ++ new ∷ []))))) [
      | inl e ↦ rw e record {
        older = xs;
        newer = ys ++ new ∷ [];
        ring = append_assoc xs (id ∷ ys) (new ∷ []);
        few = omega (arith, size);
        bounded = omega (arith, whole);
      }
      | inr e ↦ rw e record {
        older = x ∷ xs;
        newer = ys ++ new ∷ [];
        ring = ap (λ l. x ∷ l) (append_assoc xs (id ∷ ys) (new ∷ []));
        few = omega (arith, size);
        bounded = ground (arith, whole);
      }
    ]

push_id-Held :
    (id new : Text) (ids : List Text) (n : ℕ)
    → suc n < ring_size
    → Held id n ids
    → Held id (suc n) (push_id ids new)
push_id-Held id new ids n room held =
    subst (λ l. Held id (suc n) (push_id l new)) (sym held.ring)
      (push-Held id new held.older held.newer n room
        (subst (λ l. length l ≤ ring_size) held.ring held.bounded) held.few)

recent_ids-settle_latch :
    (l : Latch) (height : ℤ) → (settle_latch l height).recent_ids ≡ l.recent_ids
unfolding settle_latch
recent_ids-settle_latch l height = ground arith

widen : {id : Text} {ids : List Text} {n : ℕ} → Held id n ids → Held id (suc n) ids
widen held = record {
  older = held.older;
  newer = held.newer;
  ring = held.ring;
  few = omega (arith, held.few);
  bounded = held.bounded;
}

module _ (d : Detection) (id : Text) where
  observe_jobs-Held :
      (jobs : List StratumJob) (l : Latch) (n : ℕ)
      → n + length jobs < ring_size
      → Held id n l.recent_ids
      → Held id (n + length jobs) (observe_jobs d l jobs).recent_ids
  unfolding observe_jobs count_job
  observe_jobs-Held [] l n room held = subst (λ k. Held id k l.recent_ids) (omega arith) held
  observe_jobs-Held (job ∷ jobs) l n room held =
      let next = maybe_latch_rc_from_job d l job in
      let one : Held id (suc n) next.recent_ids =
        latch_cases (λ m. Held id (suc n) m.recent_ids) d l job (widen held)
          λ positive new.
            rw (recent_ids-settle_latch (count_job d l job) job.block_height)
              (push_id-Held id job.job_id l.recent_ids n (omega arith) held) in
      subst (λ k. Held id k (observe_jobs d next jobs).recent_ids) (omega arith)
        (observe_jobs-Held jobs next (suc n) (omega arith) one)

observe_jobs-append :
    (d : Detection) (jobs : List StratumJob) (job : StratumJob) (l : Latch)
    → observe_jobs d l (jobs ++ job ∷ []) ≡ maybe_latch_rc_from_job d (observe_jobs d l jobs) job
unfolding observe_jobs
observe_jobs-append d [] job l = refl
observe_jobs-append d (j ∷ jobs) job l =
    observe_jobs-append d jobs job (maybe_latch_rc_from_job d l j)

ignores :
    (d : Detection) (l : Latch) (job : StratumJob)
    → has_id job.job_id l.recent_ids ≡ true
    → maybe_latch_rc_from_job d l job ≡ l
unfolding maybe_latch_rc_from_job
ignores d l job seen = ground arith

fresh_id : (id : Text) (ids : List Text) → length ids ≤ ring_size → Held id 0 (push_id ids id)
unfolding push_id
fresh_id id [] bounded = record {
  older = [];
  newer = [];
  ring = refl;
  few = omega arith;
  bounded = omega arith;
}
fresh_id id (x ∷ ids) bounded =
    let size = length-append ids (id ∷ []) in
    elim (Bool-cases (ltb ring_size (length (x ∷ (ids ++ id ∷ []))))) [
      | inl e ↦ rw e record {
        older = ids;
        newer = [];
        ring = refl;
        few = omega arith;
        bounded = omega (arith, size);
      }
      | inr e ↦ rw e record {
        older = x ∷ ids;
        newer = [];
        ring = refl;
        few = omega arith;
        bounded = ground arith;
      }
    ]

-- A new job is in the ring after it, or the detection passes over it.
noted :
    (d : Detection) (l : Latch) (job : StratumJob)
    → length l.recent_ids ≤ ring_size
    → has_id job.job_id l.recent_ids ≡ false
    → ((m : Latch) → maybe_latch_rc_from_job d m job ≡ m)
      ⊎ Held job.job_id 0 (maybe_latch_rc_from_job d l job).recent_ids
unfolding maybe_latch_rc_from_job count_job
noted d l job bounded new = elim (Bool-cases (leb_ℤ job.block_height (pos 0))) [
  | inl e ↦ inl (λ m. rw e refl)
  | inr e ↦ elim (Bool-cases (rc_stratum_auto_latch_enabled d.auto_latch)) [
    | inr off ↦ inl (λ m. rw (e, off) refl)
    | inl on ↦ inr (
        rw (e, on, new, recent_ids-settle_latch (count_job d l job) job.block_height)
          (fresh_id job.job_id l.recent_ids bounded))
  ]
]

-- A new job that is delivered again, while at most seven others have come, changes nothing: two
-- sessions that hear the same jobs count each once.
pub observe_jobs_repeated :
    (d : Detection) (l : Latch) (job : StratumJob) (jobs : List StratumJob)
    → length l.recent_ids ≤ ring_size
    → has_id job.job_id l.recent_ids ≡ false
    → length jobs < ring_size
    → observe_jobs d l (job ∷ (jobs ++ job ∷ [])) ≡ observe_jobs d l (job ∷ jobs)
unfolding observe_jobs
observe_jobs_repeated d l job jobs bounded new few =
    let next = maybe_latch_rc_from_job d l job in
    observe_jobs-append d jobs job next ∙ elim (noted d l job bounded new) [
      | inl passes ↦ passes (observe_jobs d next jobs)
      | inr held ↦
          let at_end = observe_jobs-Held d job.job_id jobs next 0 (omega arith) held in
          ignores d (observe_jobs d next jobs) job
            (rw at_end.ring (has_id-append job.job_id at_end.older at_end.newer))
    ]
