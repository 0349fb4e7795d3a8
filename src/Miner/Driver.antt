-- ===== src/Miner/Driver.antt =====
-- miner/cuda_driver_floor.h: whether the installed CUDA driver is new enough.
use btx_miner.Common.{
  ℕ, ◌+◌, ◌*◌, ◌/◌, ◌%◌, ◌≤◌, ◌≡◌, ◌↔◌, Bool, true, not, Option, none, some, arith, if◌then◌else◌,
}
use btx_miner.Common.Int.{ℤ, pos, leb_ℤ, ltb_ℤ, ◌==ℤ◌, tdiv_ℤ, pos_part}

-- The two outputs, or `none` when the code returns false and leaves them alone.
unfoldable pub decode_cuda_version : ℤ → Option (ℤ × ℤ)
decode_cuda_version packed =
    let major = tdiv_ℤ packed 1000 in
    if leb_ℤ packed (pos 0)
    then none
    else if leb_ℤ major (pos 0)
    then none
    else some (major, pos (pos_part packed % 1000 / 10))

unfoldable pub cuda_driver_meets_floor : ℤ → ℤ → ℤ → ℤ → Bool
cuda_driver_meets_floor drv_major drv_minor req_major req_minor =
    if leb_ℤ drv_major (pos 0)
    then true
    else if not (drv_major ==ℤ req_major)
    then ltb_ℤ req_major drv_major
    else leb_ℤ req_minor drv_minor

-- For versions `1000 * major + 10 * minor` with a minor below 100 and a major of at least 1, decoding
-- the driver's and comparing it with the floor is comparing the packed numbers.
pub decode_cuda_version-floor :
    (major minor req_major req_minor : ℕ)
    → 1 ≤ major
    → minor ≤ 99
    → req_minor ≤ 99
    → (decode_cuda_version (pos (1000 * major + 10 * minor)) ≡ some (pos major, pos minor))
      × ((cuda_driver_meets_floor (pos major) (pos minor) (pos req_major) (pos req_minor) ≡ true)
          ↔ (1000 * req_major + 10 * req_minor ≤ 1000 * major + 10 * minor))
unfolding decode_cuda_version cuda_driver_meets_floor
decode_cuda_version-floor major minor req_major req_minor a b c = ground arith
