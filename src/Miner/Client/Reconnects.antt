-- ===== src/Miner/Client/Reconnects.antt =====
-- miner/stratum_client.h: how often a connection asks for a reconnect.
use btx_miner.Common.{
  ℕ, suc, ◌+◌, ◌≤◌, ◌≡◌, refl, ap₂, ◌∙◌, true, false, List, [], ◌∷◌, ◌++◌, if◌then◌else◌, arith,
}
use btx_miner.Miner.Version.{Text}
use btx_miner.Miner.UniValue.{UniValue}
use btx_miner.Miner.Notify.{StratumJob}
use btx_miner.Miner.Client.{
  Account, Client, Effect, sends, observes, asks_reconnect, Reaction, bump, handle_notify,
  request_auth_reconnect, submit_share, on_accepted, on_rejected,
}
use btx_miner.Miner.Client.Dispatch.{
  dispatch_line, ClientEvent, hears, submits, arms, wakes, ends, client_step, run_client,
}
use btx_miner.Miner.Client.Reactions.{
  Reacts, ignores, learns, answers, logs_in, subscribes, unauthorized, accepts, rejects,
  dispatch_line-Reacts,
}

-- How often a reconnect is asked for.
abbrev pub asks : List Effect → ℕ
asks [] = 0
asks (asks_reconnect ∷ effects) = suc (asks effects)
asks (sends t ∷ effects) = asks effects
asks (observes j ∷ effects) = asks effects

asks-append : (xs ys : List Effect) → asks (xs ++ ys) ≡ asks xs + asks ys
asks-append [] ys = omega arith
asks-append (asks_reconnect ∷ xs) ys = omega (arith, asks-append xs ys)
asks-append (sends t ∷ xs) ys = asks-append xs ys
asks-append (observes j ∷ xs) ys = asks-append xs ys

abbrev kicked : Client → ℕ
kicked c = if c.auth_kick then 1 else 0

-- The requests of a reaction are paid by raising the flag.
abbrev Pays : Account → Client → Reaction → Type 0
Pays a c r =
    (asks r.effects + kicked c ≤ kicked r.client) × (a.auth_escalate ≡ false → asks r.effects ≡ 0)

reconnect-Pays : (a : Account) (c : Client) → Pays a c (request_auth_reconnect a c)
unfolding request_auth_reconnect
reconnect-Pays a c = ground arith

rejected-Pays :
    (a : Account) (c : Client) (left : List ℕ) (reason : Text)
    → Pays a c (on_rejected a (record c { pending = left }) reason)
unfolding on_rejected request_auth_reconnect
rejected-Pays a c left reason = ground arith

handle_notify-Pays : (a : Account) (c : Client) (j : StratumJob) → Pays a c (handle_notify c j)
unfolding handle_notify
handle_notify-Pays a c j = ground arith

reaction-Pays : (a : Account) (c : Client) (r : Reaction) → Reacts a c r → Pays a c r
unfolding on_accepted
reaction-Pays a c r ignores = (omega arith, λ e. refl)
reaction-Pays a c r (learns j valid) = handle_notify-Pays a c j
reaction-Pays a c r (answers t) = (omega arith, λ e. refl)
reaction-Pays a c r logs_in = (omega arith, λ e. refl)
reaction-Pays a c r (subscribes t n) = (omega arith, λ e. refl)
reaction-Pays a c r unauthorized = reconnect-Pays a c
reaction-Pays a c r (accepts id left e) = (omega arith, λ e. refl)
reaction-Pays a c r (rejects id left reason e) = rejected-Pays a c left reason

submitted-Pays :
    (a : Account) (c : Client) (r : Reaction) → Pays a (submit_share c).1 r → Pays a c r
unfolding submit_share
submitted-Pays a c r p = p

run_client-Pays :
    (u : UniValue) (a : Account) (events : List ClientEvent) (c : Client)
    → Pays a c (run_client u a c events)
unfolding run_client client_step
run_client-Pays u a [] c = (omega arith, λ e. refl)
run_client-Pays u a (submits ∷ events) c =
    submitted-Pays a c (run_client u a (submit_share c).1 events)
      (run_client-Pays u a events (submit_share c).1)
run_client-Pays u a (arms ∷ events) c = run_client-Pays u a events (record c { abort = false })
run_client-Pays u a (wakes ∷ events) c =
    run_client-Pays u a events (record c { job_gen = bump c.job_gen })
run_client-Pays u a (ends ∷ events) c = run_client-Pays u a events (record c { abort = true })
run_client-Pays u a (hears line ∷ events) c =
    let r = dispatch_line u a c line in
    let now = reaction-Pays a c r (dispatch_line-Reacts u a c line) in
    let later = run_client-Pays u a events r.client in
    let sum = asks-append r.effects (run_client u a r.client events).effects in
    (omega (arith, now.0, later.0, sum), λ e. sum ∙ ap₂ (λ x y. x + y) (now.1 e) (later.1 e))

-- A connection asks for a reconnect at most once, whatever it hears, and the session of the developer
-- fee, which is not to escalate, never does.
pub run_client-asks :
    (u : UniValue) (a : Account) (events : List ClientEvent) (c : Client)
    → (asks (run_client u a c events).effects ≤ 1)
      × (a.auth_escalate ≡ false → asks (run_client u a c events).effects ≡ 0)
run_client-asks u a events c = let paid = run_client-Pays u a events c in (ground arith, paid.1)
