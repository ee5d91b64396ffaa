-- ===== src/Examples/Modules.antt =====
-- module_safety.py and cuda_compat.py on sample hosts.
use nvidia_converge.Common.{
  get, ◌≡◌, ◌≤◌, arith, ◌↔◌, ◌&&◌, refl, String, true, false, not, none, some, List, [], ◌∷◌, ◌==◌,
  if◌then◌else◌, contains, is_none,
}
use nvidia_converge.Common.Text.{is_decimal}
use nvidia_converge.Common.Decimal.{read_int}
use nvidia_converge.Common.Sorting.{sorted, insert_sorted}
use nvidia_converge.Models.{PackageInfo}
use nvidia_converge.ModuleSafety.{
  SysModules, done, raised, dependency_cycle, nvidia_module_unload_order, visit, visit_holders,
  visit_all, for_each, follow, require_all, require_module_directory,
}
use nvidia_converge.ModuleSafety.Fuel.{ended, unload_order-ended}
use nvidia_converge.ModuleSafety.Order.{IsSafeOrder, unload_order-IsSafeOrder}
use nvidia_converge.CudaCompat.{
  compatible, unknown, cuda_forward_compatibility_status, cuda_minor_compatibility_status,
  find_cuda_compat_package, cuda_compat_version_from_package,
}
use nvidia_converge.CudaCompat.Matrix.{
  native_branches, driver_branches, by_branch, forward_compatibility-by_branch,
  forward_compatibility_unknown,
}
use nvidia_converge.CudaCompat.Minor.{minor_compatibility_monotone}

abbrev desktop_holders : String → List String
desktop_holders name =
    if name == "nvidia"
    then "nvidia_uvm" ∷ "nvidia_modeset" ∷ []
    else if name == "nvidia_modeset"
    then "nvidia_drm" ∷ []
    else []

-- The display stack: the base driver is held by two modules, one of which is held by a third.
abbrev desktop : SysModules
desktop = record {
  entries = some ("ext4" ∷ "nvidia" ∷ "nvidia_drm" ∷ "nvidia_modeset" ∷ "nvidia_uvm" ∷ []);
  is_directory = λ name. some true;
  holders = λ name. some (desktop_holders name);
}

-- Two modules that hold each other.
abbrev knot : SysModules
knot = record {
  entries = some ("nvidia" ∷ "nvidia_uvm" ∷ []);
  is_directory = λ name. some true;
  holders = λ name. some ((if name == "nvidia" then "nvidia_uvm" else "nvidia") ∷ []);
}

unfoldable program : Unit {0}
unfolding nvidia_module_unload_order visit visit_holders visit_all for_each follow require_all
    require_module_directory sorted insert_sorted ◌==◌
program = tt

abbrev desktop_order : List String
desktop_order = "nvidia_drm" ∷ "nvidia_modeset" ∷ "nvidia_uvm" ∷ "nvidia" ∷ []

desktop-order : nvidia_module_unload_order desktop ≡ done desktop_order
unfolding program
desktop-order = refl

knot-cycle : nvidia_module_unload_order knot ≡ raised (dependency_cycle "nvidia")
unfolding program
knot-cycle = refl

unload_order-IsSafeOrder_example : IsSafeOrder desktop desktop_order
unload_order-IsSafeOrder_example = unload_order-IsSafeOrder desktop desktop_order desktop-order

unload_order-ended_example : ended (nvidia_module_unload_order knot) ≡ true
unload_order-ended_example = unload_order-ended knot

forward-listed : contains driver_branches "580" ≡ true
unfolding ◌==◌
forward-listed = refl

shipped-545 : get native_branches "12.3" ≡ some 545
unfolding ◌==◌
shipped-545 = refl

forward_compatibility-by_branch_example :
    cuda_forward_compatibility_status "580" "12.3" ≡ by_branch (read_int "580") 545
forward_compatibility-by_branch_example =
    forward_compatibility-by_branch "580" "12.3" 545 forward-listed shipped-545

forward_compatibility_unknown_example :
    (cuda_forward_compatibility_status "470" "12.3" ≡ unknown)
    ↔ ((contains driver_branches "470" && not (is_none (get native_branches "12.3"))) ≡ false)
forward_compatibility_unknown_example = forward_compatibility_unknown "470" "12.3"

minor-580 : cuda_minor_compatibility_status "580" "13.1" ≡ compatible
unfolding cuda_minor_compatibility_status ◌==◌ read_int
minor-580 = refl

numeric-590 : is_decimal "590" ≡ true
unfolding is_decimal ◌==◌
numeric-590 = refl

later-590 : read_int "580" ≤ read_int "590"
unfolding read_int
later-590 = omega arith

minor_compatibility_monotone_example : cuda_minor_compatibility_status "590" "13.1" ≡ compatible
minor_compatibility_monotone_example =
    minor_compatibility_monotone "580" "590" "13.1" numeric-590 later-590 minor-580

abbrev compat_package : PackageInfo
compat_package = record {
  name = "cuda-compat-13-1";
  version = some "590.44.01";
  manager = some "apt-get";
  installed = true;
  architecture = none;
  epoch = none;
}

compat-version : cuda_compat_version_from_package "cuda-compat-13-1" ≡ some "13.1"
unfolding cuda_compat_version_from_package ◌==◌
compat-version = refl

compat-found : find_cuda_compat_package "13.1" (compat_package ∷ []) ≡ some compat_package
unfolding find_cuda_compat_package ◌==◌
compat-found = refl
