-- ===== src/Miner/PoolLoop/ForJob.antt =====
-- miner/matador-miner.cpp: what a share that `RunPoolLoop` submits shows to the pool, told by the fields
-- of its job and of its block alone.
use btx_miner.Common.{ℕ, ◌≤◌, ◌≡◌, ap, subst, sym, ◌∙◌, inl, inr, some, arith, Option-cases}
use btx_miner.Solve.Header.{Header}
use btx_miner.Solve.Seeds.{Activation}
use btx_miner.Solve.Dispatch.{effective_target}
use btx_miner.Solve.Dispatch.Sound.{IsFound}
use btx_miner.Miner.Notify.{StratumJob}
use btx_miner.Miner.PoolLoop.State.{
  PoolSetup, header_dim, build_header_from_job, MinedJob, Pass, Share,
}
use btx_miner.Miner.PoolLoop.{request_for, start_at}

pub record IsForJob (s : PoolSetup) (active : Activation) (share : Share) : Type 0 where
  pub version : share.block.version ≡ share.job.version
  pub prev : s.from_hex share.job.prevhash_hex ≡ some share.block.hash_prev_block
  pub merkle : s.from_hex share.job.merkleroot_hex ≡ some share.block.hash_merkle_root
  pub time : share.block.time ≡ share.job.ntime
  pub bits : share.block.bits ≡ share.job.nbits
  pub dim : share.block.matmul_dim ≡ header_dim s active share.job
  pub target : ℕ
  pub parsed : s.from_hex share.job.target_hex ≡ some target
  pub nonzero : 1 ≤ share.block.matmul_digest
  pub below : share.block.matmul_digest ≤ target

-- The header and the target of a job.
record IsHeaderOf (s : PoolSetup) (active : Activation) (job : StratumJob) (h : Header) (t : ℕ)
    : Type 0 where
  pub version : h.version ≡ job.version
  pub prev : s.from_hex job.prevhash_hex ≡ some h.hash_prev_block
  pub merkle : s.from_hex job.merkleroot_hex ≡ some h.hash_merkle_root
  pub time : h.time ≡ job.ntime
  pub bits : h.bits ≡ job.nbits
  pub dim : h.matmul_dim ≡ header_dim s active job
  pub parsed : s.from_hex job.target_hex ≡ some t

built-IsHeaderOf :
    (s : PoolSetup) (active : Activation) (job : StratumJob) (h : Header) (t : ℕ)
    → build_header_from_job s active job ≡ some (h, t)
    → IsHeaderOf s active job h t
unfolding build_header_from_job
built-IsHeaderOf s active job h t e = elim (Option-cases (s.from_hex job.prevhash_hex)) [
  | inl no_prev ↦ ground arith
  | inr (prev, p) ↦ elim (Option-cases (s.from_hex job.merkleroot_hex)) [
    | inl no_merkle ↦ ground arith
    | inr (merkle, m) ↦ elim (Option-cases (s.from_hex job.target_hex)) [
      | inl no_target ↦ ground arith
      | inr (target, q) ↦ record {
        version = ground arith;
        prev = ground arith;
        merkle = ground arith;
        time = ground arith;
        bits = ground arith;
        dim = ground arith;
        parsed = ground arith;
      }
    ]
  ]
]

share_target_used :
    (s : PoolSetup) (w : MinedJob) (p : Pass) (h : Header) (t : ℕ)
    → effective_target s.vendored (request_for s w p) h ≡ some t
    → t ≡ w.share_target
unfolding effective_target
share_target_used s w p h t e = ground arith

pub found-IsForJob :
    (s : PoolSetup) (active : Activation) (w : MinedJob) (p : Pass) (cursor : ℕ) (b : Header)
    → build_header_from_job s active w.job ≡ some (w.header, w.share_target)
    → IsFound s.vendored (request_for s w p) (start_at s w cursor) b
    → IsForJob s active (record { job = w.job; block = b })
found-IsForJob s active w p cursor b built (t, target, same, which) =
    let bounds : (1 ≤ b.matmul_digest) × (b.matmul_digest ≤ t) = elim which [
      | inl solved ↦ (solved.1.2, solved.1.3)
      | inr solved ↦ (solved.1.2, solved.1.3)
    ] in
    let h = built-IsHeaderOf s active w.job w.header w.share_target built in
    record {
      version = ap (λ x. x.version) same ∙ h.version;
      prev = h.prev ∙ ap some (sym (ap (λ x. x.hash_prev_block) same));
      merkle = h.merkle ∙ ap some (sym (ap (λ x. x.hash_merkle_root) same));
      time = ap (λ x. x.time) same ∙ h.time;
      bits = ap (λ x. x.bits) same ∙ h.bits;
      dim = ap (λ x. x.matmul_dim) same ∙ h.dim;
      target = w.share_target;
      parsed = h.parsed;
      nonzero = bounds.0;
      below =
          subst (λ x. b.matmul_digest ≤ x) (share_target_used s w p (start_at s w cursor) t target)
            bounds.1;
    }
