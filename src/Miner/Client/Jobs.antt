-- ===== src/Miner/Client/Jobs.antt =====
-- miner/stratum_client.h: what the job generation of a connection tells.
use btx_miner.Common.{
  ℕ, suc, ◌+◌, ◌^◌, ◌≤◌, ◌<◌, ◌≡◌, refl, ap₂, ◌∙◌, subst⁻¹, Bool, false, ◌⊎◌, inl, inr, true, not,
  ◌||◌, List, [], ◌∷◌, Option, none, some, length, ◌==◌, arith, Bool-cases, ==_iff,
}
use btx_miner.Miner.Version.{Text, text_eq}
use btx_miner.Miner.UniValue.{UniValue}
use btx_miner.Miner.Notify.{StratumJob}
use btx_miner.Miner.Client.{
  lucky_pool, Account, Client, Reaction, bump, is_new_work, handle_notify, request_auth_reconnect,
  submit_share, on_accepted, on_rejected,
}
use btx_miner.Miner.Client.Dispatch.{
  dispatch_line, ClientEvent, hears, submits, arms, wakes, ends, client_step, run_client,
}
use btx_miner.Miner.Client.Reactions.{
  Reacts, ignores, learns, answers, logs_in, subscribes, unauthorized, accepts, rejects,
  dispatch_line-Reacts,
}

text_eq→eq : (s t : Text) → text_eq s t ≡ true → s ≡ t
text_eq→eq [] [] h = refl
text_eq→eq [] (d ∷ t) h = ground arith
text_eq→eq (c ∷ s) [] h = ground arith
text_eq→eq (c ∷ s) (d ∷ t) h = elim (Bool-cases (c == d)) [
  | inl e ↦ ap₂ (λ x l. x ∷ l) ((==_iff c d).0 e) (text_eq→eq s t (ground arith))
  | inr e ↦ ground arith
]

-- The job is that of before, or a refresh of it under the same id.
abbrev pub SameWork : Option StratumJob → Option StratumJob → Type 0
SameWork none none = Unit
SameWork none (some k) = ⊥
SameWork (some j) none = ⊥
SameWork (some j) (some k) = k.job_id ≡ j.job_id

SameWork-refl : (o : Option StratumJob) → SameWork o o
SameWork-refl none = tt
SameWork-refl (some j) = refl

SameWork-trans : (x y z : Option StratumJob) → SameWork x y → SameWork y z → SameWork x z
SameWork-trans none none z a b = b
SameWork-trans (some j) (some k) (some l) a b = b ∙ a
SameWork-trans none (some k) z a b = absurd a
SameWork-trans (some j) none z a b = absurd a
SameWork-trans (some j) (some k) none a b = absurd b

-- The generation stands, and the work with it, or it has grown.
abbrev pub Turns : Client → Client → Type 0
Turns c d = ((d.job_gen ≡ c.job_gen) × SameWork c.job d.job) ⊎ (c.job_gen < d.job_gen)

-- Other work raises the abort flag, and a raised flag stays up.
abbrev pub Alerts : Client → Client → Type 0
Alerts c d = (SameWork c.job d.job ⊎ (d.abort ≡ true)) × (c.abort ≡ true → d.abort ≡ true)

abbrev Moves : Client → Client → Type 0
Moves c d = Turns c d × Alerts c d

untouched : (c d : Client) → d.job ≡ c.job → d.job_gen ≡ c.job_gen → d.abort ≡ c.abort → Moves c d
untouched c d job gen abort =
    let same : SameWork c.job d.job = subst⁻¹ (SameWork c.job) job (SameWork-refl c.job) in
    (inl (gen, same), (inl same, λ up. abort ∙ up))

refreshed :
    (c : Client) (j : StratumJob) (o : Option StratumJob)
    → c.job ≡ o
    → suc c.job_gen < 2 ^ 64
    → Moves c (handle_notify c j).client
unfolding handle_notify is_new_work
refreshed c j none at room = (inr (simp at (omega arith)), (inr (simp at refl), λ up. simp at refl))
refreshed c j (some old) at room =
    elim (Bool-cases (j.clean_jobs || not (text_eq j.job_id old.job_id))) [
      | inl new ↦ (
        inr (simp (at, new) (omega arith)),
        (inr (simp (at, new) refl), λ up. simp (at, new) refl),
      )
      | inr same ↦
          let equal : text_eq j.job_id old.job_id ≡ true = ground arith in
          let kept : SameWork c.job (some j) =
            subst⁻¹ (λ o. SameWork o (some j)) at (text_eq→eq j.job_id old.job_id equal) in
          (inl (simp (at, same) refl, kept), (inl kept, λ up. simp (at, same) up))
    ]

module _ (a : Account) (c : Client) where
  reconnect-Moves : Moves c (request_auth_reconnect a c).client
  unfolding request_auth_reconnect
  reconnect-Moves =
      untouched c (request_auth_reconnect a c).client (ground arith) (ground arith) (ground arith)

  rejected-Moves :
      (left : List ℕ) (reason : Text)
      → Moves c (on_rejected a (record c { pending = left }) reason).client
  unfolding on_rejected request_auth_reconnect
  rejected-Moves left reason =
      untouched c (on_rejected a (record c { pending = left }) reason).client (ground arith)
        (ground arith) (ground arith)

  reaction-Moves : (r : Reaction) → Reacts a c r → suc c.job_gen < 2 ^ 64 → Moves c r.client
  unfolding on_accepted
  reaction-Moves r ignores room = untouched c c refl refl refl
  reaction-Moves r (learns j valid) room = refreshed c j c.job refl room
  reaction-Moves r (answers t) room = untouched c c refl refl refl
  reaction-Moves r logs_in room = untouched c (record c { proto = lucky_pool }) refl refl refl
  reaction-Moves r (subscribes t n) room =
      untouched c (record c { extranonce1 = t; extranonce2_size = n }) refl refl refl
  reaction-Moves r unauthorized room = reconnect-Moves
  reaction-Moves r (accepts id left e) room =
      untouched c (on_accepted (record c { pending = left })) refl refl refl
  reaction-Moves r (rejects id left reason e) room = rejected-Moves left reason

then-Turns : (c d e : Client) → Turns c d → Turns d e → Turns c e
then-Turns c d e (inl (g, s)) (inl (h, t)) = inl (h ∙ g, SameWork-trans c.job d.job e.job s t)
then-Turns c d e (inl (g, s)) (inr h) = inr (omega (arith, g, h))
then-Turns c d e (inr g) (inl (h, t)) = inr (omega (arith, g, h))
then-Turns c d e (inr g) (inr h) = inr (omega (arith, g, h))

then-Alerts : (c d e : Client) → Alerts c d → Alerts d e → Alerts c e
then-Alerts c d e (inl s, stays) (inl t, stays') =
    (inl (SameWork-trans c.job d.job e.job s t), λ up. stays' (stays up))
then-Alerts c d e (inr up, stays) (o, stays') = (inr (stays' up), λ u. stays' (stays u))
then-Alerts c d e (inl s, stays) (inr up, stays') = (inr up, λ u. stays' (stays u))

reaction-job_gen :
    (a : Account) (c : Client) (r : Reaction) → Reacts a c r → r.client.job_gen ≤ suc c.job_gen
unfolding on_accepted on_rejected request_auth_reconnect handle_notify
reaction-job_gen a c r ignores = omega arith
reaction-job_gen a c r (learns j valid) = ground arith
reaction-job_gen a c r (answers t) = omega arith
reaction-job_gen a c r logs_in = omega arith
reaction-job_gen a c r (subscribes t n) = omega arith
reaction-job_gen a c r unauthorized = ground arith
reaction-job_gen a c r (accepts id left e) = omega arith
reaction-job_gen a c r (rejects id left reason e) = ground arith

-- Whether the pool loop arms the flag in one of the events.
abbrev pub is_armed : List ClientEvent → Bool
is_armed [] = false
is_armed (arms ∷ events) = true
is_armed (hears line ∷ events) = is_armed events
is_armed (submits ∷ events) = is_armed events
is_armed (wakes ∷ events) = is_armed events
is_armed (ends ∷ events) = is_armed events

-- A run of events that ends in `d`: the generation tells of other work, and so does the abort flag unless
-- it was armed.
abbrev Tells : List ClientEvent → Client → Client → Type 0
Tells events c d = Turns c d × (is_armed events ≡ false → Alerts c d)

after_move :
    (c d e : Client) (events : List ClientEvent) → Moves c d → Tells events d e → Tells events c e
after_move c d e events m t = (then-Turns c d e m.0 t.0, λ quiet. then-Alerts c d e m.1 (t.1 quiet))

-- While the generation does not wrap round, over any lines, submits, armings, wakings and the end of the
-- reader. When the generation stands, the connection has the job of before, or a refresh of it under its
-- id, or still none. And when the flag is not armed meanwhile, the same holds or the abort flag is up.
pub run_client-Turns :
    (u : UniValue) (a : Account) (events : List ClientEvent) (c : Client)
    → c.job_gen + length events < 2 ^ 64
    → let d = (run_client u a c events).client in Turns c d × (is_armed events ≡ false → Alerts c d)
unfolding run_client client_step
run_client-Turns u a [] c room = let m = untouched c c refl refl refl in (m.0, λ quiet. m.1)
run_client-Turns u a (submits ∷ events) c room =
    let d = (submit_share c).1 in
    let same : d.job_gen ≡ c.job_gen = unfold submit_share in refl in
    let m : Moves c d = unfold submit_share in untouched c d refl refl refl in
    after_move c d (run_client u a d events).client events m
      (run_client-Turns u a events d (omega (arith, same)))
run_client-Turns u a (arms ∷ events) c room =
    let d = record c { abort = false } in
    let later = run_client-Turns u a events d (omega arith) in
    (
      then-Turns c d (run_client u a d events).client (inl (refl, SameWork-refl c.job)) later.0,
      λ quiet. absurd (ground arith),
    )
run_client-Turns u a (wakes ∷ events) c room =
    let d = record c { job_gen = bump c.job_gen } in
    let next : d.job_gen ≡ suc c.job_gen = omega arith in
    let m : Moves c d = (inr (omega (arith, next)), (inl (SameWork-refl c.job), λ up. up)) in
    after_move c d (run_client u a d events).client events m
      (run_client-Turns u a events d (omega (arith, next)))
run_client-Turns u a (ends ∷ events) c room =
    let d = record c { abort = true } in
    let same = SameWork-refl c.job in
    let m : Moves c d = (inl (refl, same), (inl same, λ up. refl)) in
    after_move c d (run_client u a d events).client events m
      (run_client-Turns u a events d (omega arith))
run_client-Turns u a (hears line ∷ events) c room =
    let r = dispatch_line u a c line in
    let reacts = dispatch_line-Reacts u a c line in
    let near = reaction-job_gen a c r reacts in
    after_move c r.client (run_client u a r.client events).client events
      (reaction-Moves a c r reacts (omega arith))
      (run_client-Turns u a events r.client (omega (arith, near)))
