-- ===== src/Planner/Branch.antt =====
-- planner.py: the upper bound of a driver branch on a Zypper host.
use nvidia_converge.Common.{◌+◌, ◌*◌, ◌/◌, ◌%◌, ◌≤◌, ◌<◌, ◌≡◌, String, arith, ok, ap}
use nvidia_converge.Common.Decimal.{read_int, show_int, read_int-show_int}
use nvidia_converge.Planner.Packages.{next_driver_branch}

some_bound :
    (major : String) (bound : String)
    → next_driver_branch major ≡ ok bound
    → show_int ((read_int major / 10 + 1) * 10) ≡ bound
unfolding next_driver_branch
some_bound major bound h = ground arith

-- The bound is the next multiple of ten: it lies above the branch, at most ten above.
pub next_driver_branch_bounds :
    (major : String) (bound : String)
    → next_driver_branch major ≡ ok bound
    → (read_int major < read_int bound)
      × (read_int bound ≤ read_int major + 10)
      × (read_int bound % 10 ≡ 0)
next_driver_branch_bounds major bound h =
    let n = read_int major in
    let e = ap read_int (some_bound major bound h) in
    let r = read_int-show_int ((read_int major / 10 + 1) * 10) in
    (omega arith, omega arith, omega arith)
