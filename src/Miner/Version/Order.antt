-- ===== src/Miner/Version/Order.antt =====
-- miner/version_compare.h and miner/update_gate.h: releases are ordered, and updates only go up.
use btx_miner.Common.{[], ◌∷◌, ◌≡◌, ◌↔◌, ◌⊎◌, Bool, true, false, Option, arith}
use btx_miner.Common.Int.{ℤ, pos, ◌<ℤ◌, ◌≤ℤ◌}
use btx_miner.Miner.Version.{
  Text, parse_version, version_greater, decide_update, is_empty, components, adopt, up_to_date,
  is_stamped,
}

-- `VersionGreater` is a strict order on the releases with different numbers: a release is never newer
-- than itself; of two, at most one is newer; newer than newer is newer; and two of which neither
-- is newer have the same three numbers.
pub version_greater-order :
    (a b c : Text)
    → (version_greater a a ≡ false)
      × (version_greater a b ≡ true → version_greater b a ≡ false)
      × (version_greater a b ≡ true → version_greater b c ≡ true → version_greater a c ≡ true)
      × (version_greater a b ≡ false
          → version_greater b a ≡ false
          → parse_version a ≡ parse_version b)
unfolding version_greater
version_greater-order a b c = ground arith

-- The empty text reads as 0.0.0, above which nothing is.
empty_not_greater : (a b : Text) → is_empty a ≡ true → version_greater a b ≡ false
unfolding version_greater parse_version components
empty_not_greater [] b h = let (x, (y, z)) = parse_version b in ground arith
empty_not_greater (c ∷ a) b h = ground arith

-- A release is adopted exactly when it is newer, updates are on, there is an asset, it is not too
-- young (an unknown age never is), and it is not the one that was already switched to. With the two
-- exchanged, the answer is then that all is up to date.
pub decide_update-adopt :
    (candidate current : Text) (auto_update has_asset : Bool) (age min_age : ℤ)
    (already : Option Text)
    → ((decide_update candidate current auto_update has_asset age min_age already ≡ adopt) ↔ (
        (version_greater candidate current ≡ true)
        × (auto_update ≡ true)
        × (has_asset ≡ true)
        × ((min_age ≤ℤ pos 0) ⊎ ((age <ℤ pos 0) ⊎ (min_age ≤ℤ age)))
        × (is_stamped candidate already ≡ false)))
      × (decide_update candidate current auto_update has_asset age min_age already ≡ adopt
          → decide_update current candidate auto_update has_asset age min_age already ≡ up_to_date)
unfolding decide_update
decide_update-adopt candidate current auto_update has_asset age min_age already = ground (
  arith,
  (version_greater-order candidate current candidate).1,
  empty_not_greater candidate current,
)
