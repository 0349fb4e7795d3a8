-- ===== src/Miner/Version/Printed.antt =====
-- miner/version_compare.h and miner/update_gate.h: releases as they are printed, `v1.2.3`.
use btx_miner.Common.{
  ℕ, zero, suc, ◌+◌, ◌/◌, ◌%◌, ◌^◌, ◌<◌, ◌≡◌, ◌≢◌, ◌↔◌, ◌⊎◌, inl, inr, refl, ap, sym, ◌∙◌, [], ◌∷◌,
  Bool, true, false, Option, none, some, ltb, leb, ◌&&◌, Bool-cases, arith,
}
use btx_miner.Common.Int.{ℤ, pos, ◌<ℤ◌, ◌≤ℤ◌}
use btx_miner.Rc.Episode.{decimal}
use btx_miner.Miner.Version.{
  Text, read_number, components, parse_version, version_greater, decide_update, adopt, up_to_date,
  is_stamped, text_eq,
}
use btx_miner.Miner.Endpoint.Printed.{decimal-cons}
use btx_miner.Miner.Version.Order.{decide_update-adopt}

abbrev pub Numbers : Type 0
Numbers = ℕ × (ℕ × ℕ)

-- `v`, and the three numbers in decimal, with a full stop between two of them.
abbrev pub release : Numbers → Text
release v = 118 ∷ decimal 18 v.0 (46 ∷ decimal 18 v.1.0 (46 ∷ decimal 18 v.1.1 []))

-- The numbers fit a `long`.
abbrev pub AreSmall : Numbers → Type 0
AreSmall v = (v.0 < 10 ^ 18) × (v.1.0 < 10 ^ 18) × (v.1.1 < 10 ^ 18)

-- The first number that differs decides.
abbrev pub IsNewer : Numbers → Numbers → Type 0
IsNewer v w = (w.0 < v.0) ⊎ ((v.0 ≡ w.0) × ((w.1.0 < v.1.0) ⊎ ((v.1.0 ≡ w.1.0) × (w.1.1 < v.1.1))))

read_number-decimal :
    (k n : ℕ) (acc : Text) → n < 10 ^ k → read_number 0 (decimal k n acc) ≡ read_number n acc
unfolding decimal read_number
read_number-decimal zero n acc h = ap (λ m. read_number m acc) (omega arith)
read_number-decimal (suc k) n acc h = elim (Bool-cases (ltb n 10)) [
  | inl e ↦
      let d : (leb 48 (48 + n % 10) && leb (48 + n % 10) 57) ≡ true = ground arith in
      rw (e, d) (ap (λ m. read_number m acc) (ground arith))
  | inr e ↦
      let d : (leb 48 (48 + n % 10) && leb (48 + n % 10) 57) ≡ true = ground arith in
      rw e (
        read_number-decimal k (n / 10) ((48 + n % 10) ∷ acc) (omega arith)
        ∙ rw d (ap (λ m. read_number m acc) (omega arith)))
]

decimal-suc : (k n : ℕ) (acc : Text) → (d : ℕ) × (ds : Text) × (decimal (suc k) n acc ≡ d ∷ ds)
unfolding decimal
decimal-suc k n acc = elim (Bool-cases (ltb n 10)) [
  | inl e ↦ (48 + n % 10, acc, rw e refl)
  | inr e ↦ let (d, ds, e') = decimal-cons k (n / 10) (48 + n % 10) acc in (d, ds, rw e e')
]

components-last : (m k n : ℕ) → n < 10 ^ suc k → components (suc m) (decimal (suc k) n []) ≡ n ∷ []
unfolding components
components-last m k n h =
    let (d, ds, e) = decimal-suc k n [] in
    let read : read_number 0 (d ∷ ds) ≡ (n, []) =
      ap (read_number 0) (sym e)
      ∙ read_number-decimal (suc k) n [] h
      ∙ unfold read_number in refl in
    rw e (rw read refl)

components-next :
    (m k n : ℕ) (more : Text)
    → n < 10 ^ suc k
    → components (suc m) (decimal (suc k) n (46 ∷ more)) ≡ n ∷ components m more
unfolding components
components-next m k n more h =
    let (d, ds, e) = decimal-suc k n (46 ∷ more) in
    let stop : read_number n (46 ∷ more) ≡ (n, 46 ∷ more) = unfold read_number in refl in
    let read : read_number 0 (d ∷ ds) ≡ (n, 46 ∷ more) =
      ap (read_number 0) (sym e) ∙ read_number-decimal (suc k) n (46 ∷ more) h ∙ stop in
    rw e (rw read refl)

parse_version-release : (v : Numbers) → AreSmall v → parse_version (release v) ≡ v
unfolding parse_version
parse_version-release v (a, b, c) =
    let minor = 46 ∷ decimal 18 v.1.1 [] in
    rw
      (
        components-next 2 17 v.0 (decimal 18 v.1.0 minor) a,
        components-next 1 17 v.1.0 (decimal 18 v.1.1 []) b,
        components-last 0 17 v.1.1 c,
      )
      refl

-- `VersionGreater` compares the printed numbers as numbers, so that v0.6.10 is newer than v0.6.9.
version_greater-release :
    (v w : Numbers)
    → AreSmall v
    → AreSmall w
    → ((version_greater (release v) (release w) ≡ true) ↔ IsNewer v w)
unfolding version_greater
version_greater-release v w sv sw =
    rw (parse_version-release v sv, parse_version-release w sw) (ground arith)

text_eq_iff : (s t : Text) → (text_eq s t ≡ true) ↔ (s ≡ t)
text_eq_iff [] [] = (λ h. refl, λ h. refl)
text_eq_iff [] (d ∷ t) = ground arith
text_eq_iff (c ∷ s) [] = ground arith
text_eq_iff (c ∷ s) (d ∷ t) = let later = text_eq_iff s t in ground (arith, later)

is_stamped_iff : (t : Text) (o : Option Text) → (is_stamped t o ≡ false) ↔ (o ≢ some t)
is_stamped_iff t none = ground arith
is_stamped_iff t (some u) = let same = text_eq_iff t u in ground (arith, same)

-- For numbers below 10^18: a printed release is adopted exactly when its numbers are newer than those of the printed release that
-- runs, the first one that differs deciding; updates are on; there is an asset; it is not too young (an
-- unknown age never is); and it is not the one that was already switched to. When it is, the release
-- that ran is not adopted over it.
pub decide_update-release :
    (v w : Numbers) (auto_update has_asset : Bool) (age min_age : ℤ) (already : Option Text)
    → AreSmall v
    → AreSmall w
    → ((decide_update (release v) (release w) auto_update has_asset age min_age already ≡ adopt) ↔ (
        IsNewer v w
        × (auto_update ≡ true)
        × (has_asset ≡ true)
        × ((min_age ≤ℤ pos 0) ⊎ ((age <ℤ pos 0) ⊎ (min_age ≤ℤ age)))
        × (already ≢ some (release v))))
      × (decide_update (release v) (release w) auto_update has_asset age min_age already ≡ adopt
          → decide_update (release w) (release v) auto_update has_asset age min_age already
            ≡ up_to_date)
decide_update-release v w auto_update has_asset age min_age already sv sw =
    let (adopts, back) =
      decide_update-adopt (release v) (release w) auto_update has_asset age min_age already in
    let newer = version_greater-release v w sv sw in
    let fresh = is_stamped_iff (release v) already in
    (
      (
        λ e.
            let (g, on, asset, old, stamp) = adopts.0 e in
            (newer.0 g, on, asset, old, fresh.0 stamp),
        λ h.
            let (n, on, asset, old, stamp) = h in
            adopts.1 (newer.1 n, on, asset, old, fresh.1 stamp),
      ),
      back,
    )
