-- ===== src/Miner/Client/Accounts.antt =====
-- miner/stratum_client.h: the account that a connection keeps of its submits, and how often it asks for a
-- reconnect.
use btx_miner.Common.{
  ℕ, Bool, true, false, suc, ◌+◌, ◌%◌, ◌^◌, ◌≤◌, ◌<◌, ◌≡◌, refl, subst, ap, inl, inr, List, [], ◌∷◌,
  ◌++◌, some, length, length-append, ◌==◌, arith, Bool-cases, Option-cases,
}
use btx_miner.Miner.Version.{Text}
use btx_miner.Miner.Stratum.{reason_is_auth_failure}
use btx_miner.Miner.UniValue.{UniValue}
use btx_miner.Miner.Notify.{StratumJob}
use btx_miner.Miner.Client.{
  Account, Client, Reaction, bump, handle_notify, request_auth_reconnect, take_pending,
  submit_share, on_accepted, on_rejected,
}
use btx_miner.Miner.Client.Dispatch.{
  dispatch_line, ClientEvent, hears, submits, arms, wakes, ends, client_step, run_client,
}
use btx_miner.Miner.Client.Reactions.{
  Reacts, ignores, learns, answers, logs_in, subscribes, unauthorized, accepts, rejects,
  dispatch_line-Reacts,
}

-- Strictly rising numbers from `lo` on, below `hi`.
abbrev pub Rising : ℕ → List ℕ → ℕ → Type 0
Rising lo [] hi = lo ≤ hi
Rising lo (p ∷ ps) hi = (lo ≤ p) × Rising (suc p) ps hi

Rising-below : (l : List ℕ) (lo lo' hi : ℕ) → lo' ≤ lo → Rising lo l hi → Rising lo' l hi
Rising-below [] lo lo' hi le r = omega arith
Rising-below (p ∷ ps) lo lo' hi le r = (omega arith, r.1)

Rising-append : (l : List ℕ) (lo hi : ℕ) → Rising lo l hi → Rising lo (l ++ hi ∷ []) (suc hi)
Rising-append [] lo hi r = (r, omega arith)
Rising-append (p ∷ ps) lo hi r = (r.0, Rising-append ps (suc p) hi r.1)

-- A list from which one element was taken.
record IsTaken (l left : List ℕ) : Type 0 where
  pub shorter : length l ≡ suc (length left)
  pub rising : (lo hi : ℕ) → Rising lo l hi → Rising lo left hi

IsTaken-next : (p : ℕ) (l left : List ℕ) → IsTaken l left → IsTaken (p ∷ l) (p ∷ left)
IsTaken-next p l left t = record {
  shorter = ap suc t.shorter;
  rising = λ lo hi r. (r.0, t.rising (suc p) hi r.1);
}

IsTaken-here : (p : ℕ) (l : List ℕ) → IsTaken (p ∷ l) l
IsTaken-here p l = record {
  shorter = refl;
  rising = λ lo hi r. Rising-below l (suc p) lo hi (omega (arith, r.0)) r.1;
}

take_pending-IsTaken : (id : ℕ) (l left : List ℕ) → take_pending id l ≡ some left → IsTaken l left
unfolding take_pending
take_pending-IsTaken id [] left e = ground arith
take_pending-IsTaken id (p ∷ l) left e =
    let later = take_pending-IsTaken id l in
    elim (Bool-cases (p == id)) [
      | inl same ↦ let k : l ≡ left = ground arith in subst (IsTaken (p ∷ l)) k (IsTaken-here p l)
      | inr other ↦ elim (Option-cases (take_pending id l)) [
        | inl lacks ↦ ground arith
        | inr (m, found) ↦
            let k : p ∷ m ≡ left = ground arith in
            subst (IsTaken (p ∷ l)) k (IsTaken-next p l m (later m found))
      ]
    ]

-- Every submit is pending, accepted or rejected; ids start at 10 and rise.
pub record IsAccounted (c : Client) : Type 0 where
  pub counted : c.accepted + c.rejected + length c.pending + 10 ≡ c.submit_id
  pub rising : Rising 10 c.pending c.submit_id
  pub fits : c.submit_id < 2 ^ 64

-- Two clients with the same account.
record IsSameAccount (c d : Client) : Type 0 where
  pub accepted : d.accepted ≡ c.accepted
  pub rejected : d.rejected ≡ c.rejected
  pub pending : d.pending ≡ c.pending
  pub submit_id : d.submit_id ≡ c.submit_id

same-IsAccounted : (c d : Client) → IsSameAccount c d → IsAccounted c → IsAccounted d
same-IsAccounted c d e v = record {
  counted = rw (e.accepted, e.rejected, e.pending, e.submit_id) v.counted;
  rising = rw (e.pending, e.submit_id) v.rising;
  fits = rw e.submit_id v.fits;
}

handle_notify-same : (c : Client) (j : StratumJob) → IsSameAccount c (handle_notify c j).client
unfolding handle_notify
handle_notify-same c j = ground arith

reconnect-same : (a : Account) (c : Client) → IsSameAccount c (request_auth_reconnect a c).client
unfolding request_auth_reconnect
reconnect-same a c = ground arith

module _ (a : Account) (c : Client) (id : ℕ) (left : List ℕ) where
  accepted-IsAccounted :
      take_pending id c.pending ≡ some left
      → IsAccounted c
      → IsAccounted (on_accepted (record c { pending = left }))
  unfolding on_accepted
  accepted-IsAccounted e v =
      let t = take_pending-IsTaken id c.pending left e in
      record {
        counted = omega (arith, t.shorter, v.counted, v.fits);
        rising = t.rising 10 c.submit_id v.rising;
        fits = v.fits;
      }

  rejected-IsAccounted :
      (reason : Text)
      → take_pending id c.pending ≡ some left
      → IsAccounted c
      → IsAccounted (on_rejected a (record c { pending = left }) reason).client
  unfolding on_rejected
  rejected-IsAccounted reason e v =
      let t = take_pending-IsTaken id c.pending left e in
      let d : Client = record c {
        pending = left;
        rejected = bump c.rejected;
        reject_streak = bump c.reject_streak;
      } in
      let counted : IsAccounted d = record {
        counted = omega (arith, t.shorter, v.counted, v.fits);
        rising = t.rising 10 c.submit_id v.rising;
        fits = v.fits;
      } in
      elim (Bool-cases (reason_is_auth_failure reason)) [
        | inl auth ↦ rw auth (same-IsAccounted d _ (reconnect-same a d) counted)
        | inr other ↦ rw other counted
      ]

reaction-IsAccounted :
    (a : Account) (c : Client) (r : Reaction) → Reacts a c r → IsAccounted c → IsAccounted r.client
reaction-IsAccounted a c r ignores v = v
reaction-IsAccounted a c r (learns j valid) v = same-IsAccounted c _ (handle_notify-same c j) v
reaction-IsAccounted a c r (answers t) v = v
reaction-IsAccounted a c r logs_in v = record {
  counted = v.counted;
  rising = v.rising;
  fits = v.fits;
}
reaction-IsAccounted a c r (subscribes t n) v = record {
  counted = v.counted;
  rising = v.rising;
  fits = v.fits;
}
reaction-IsAccounted a c r unauthorized v = same-IsAccounted c _ (reconnect-same a c) v
reaction-IsAccounted a c r (accepts id left e) v = accepted-IsAccounted a c id left e v
reaction-IsAccounted a c r (rejects id left reason e) v =
    rejected-IsAccounted a c id left reason e v

submit_share-IsAccounted :
    (c : Client) → suc c.submit_id < 2 ^ 64 → IsAccounted c → IsAccounted (submit_share c).1
unfolding submit_share
submit_share-IsAccounted c room v =
    let next : suc c.submit_id % 2 ^ 64 ≡ suc c.submit_id = omega (arith, room) in
    record {
      counted = omega (arith, next, v.counted, length-append c.pending (c.submit_id ∷ []));
      rising = rw next (Rising-append c.pending 10 c.submit_id v.rising);
      fits = omega (arith, next, room);
    }

reaction-submit_id :
    (a : Account) (c : Client) (r : Reaction) → Reacts a c r → r.client.submit_id ≡ c.submit_id
unfolding on_accepted on_rejected request_auth_reconnect handle_notify
reaction-submit_id a c r ignores = refl
reaction-submit_id a c r (learns j valid) = ground arith
reaction-submit_id a c r (answers t) = refl
reaction-submit_id a c r logs_in = refl
reaction-submit_id a c r (subscribes t n) = refl
reaction-submit_id a c r unauthorized = ground arith
reaction-submit_id a c r (accepts id left e) = refl
reaction-submit_id a c r (rejects id left reason e) = ground arith

abbrev pub submits_in : List ClientEvent → ℕ
submits_in [] = 0
submits_in (submits ∷ events) = suc (submits_in events)
submits_in (hears line ∷ events) = submits_in events
submits_in (arms ∷ events) = submits_in events
submits_in (wakes ∷ events) = submits_in events
submits_in (ends ∷ events) = submits_in events

-- The account after some more submits.
pub record Balances (c d : Client) (more : ℕ) : Type 0 where
  pub account : IsAccounted d
  pub issued : d.submit_id ≡ c.submit_id + more

-- The account is not that of the job.
moved :
    {c : Client} {abort : Bool} {job_gen : ℕ}
    → IsAccounted c
    → IsAccounted (record c { abort = abort; job_gen = job_gen })
moved v = record { counted = v.counted; rising = v.rising; fits = v.fits }

-- While ids do not wrap round, over any lines, submits, armings and wakings: every submit is pending, accepted or
-- rejected, so that none is counted twice, the pending ids are different, and an id is issued for
-- each submit and for nothing else.
pub run_client-Balances :
    (u : UniValue) (a : Account) (events : List ClientEvent) (c : Client)
    → c.submit_id + submits_in events < 2 ^ 64
    → IsAccounted c
    → Balances c (run_client u a c events).client (submits_in events)
unfolding run_client client_step
run_client-Balances u a [] c room v = record { account = v; issued = omega arith }
run_client-Balances u a (submits ∷ events) c room v =
    let d = (submit_share c).1 in
    let one : d.submit_id ≡ suc c.submit_id = unfold submit_share in omega arith in
    let later =
      run_client-Balances u a events d (omega (arith, one))
        (submit_share-IsAccounted c (omega arith) v) in
    record { account = later.account; issued = omega (arith, later.issued, one) }
run_client-Balances u a (arms ∷ events) c room v =
    let later = run_client-Balances u a events (record c { abort = false }) room (moved v) in
    record { account = later.account; issued = later.issued }
run_client-Balances u a (wakes ∷ events) c room v =
    let later =
      run_client-Balances u a events (record c { job_gen = bump c.job_gen }) room (moved v) in
    record { account = later.account; issued = later.issued }
run_client-Balances u a (ends ∷ events) c room v =
    let later = run_client-Balances u a events (record c { abort = true }) room (moved v) in
    record { account = later.account; issued = later.issued }
run_client-Balances u a (hears line ∷ events) c room v =
    let r = dispatch_line u a c line in
    let reacts = dispatch_line-Reacts u a c line in
    let same = reaction-submit_id a c r reacts in
    let later =
      run_client-Balances u a events r.client (omega (arith, same))
        (reaction-IsAccounted a c r reacts v) in
    record { account = later.account; issued = omega (arith, later.issued, same) }
