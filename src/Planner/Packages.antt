-- ===== src/Planner/Packages.antt =====
-- planner.py: which packages are installed, and by which command.
use nvidia_converge.Common.{
  ◌+◌, ◌*◌, ◌/◌, String, Bool, not, ◌||◌, Option, none, some, List, [], ◌∷◌, ◌++◌, ◌==◌, ◌<>◌,
  Result, ok, value_error, ◌>>=◌, is_none, is_empty, opt_eq, contains, any, select, drop_seen,
  starts_with, if◌then◌else◌,
}
use nvidia_converge.Common.Text.{is_decimal}
use nvidia_converge.Common.Decimal.{read_int, show_int}
use nvidia_converge.Models.{DesiredState, HostAudit, open_kernel_module, driver_major}
use nvidia_converge.Planner.Recipe.{release_major, suse_kernel_devel, on_disk_ready}

-- `_driver_package_name`
unfoldable pub driver_package_name : DesiredState → String
driver_package_name desired = if open_kernel_module desired then "nvidia-open" else "cuda-drivers"

-- `_deduplicate`
unfoldable pub deduplicate : List String → List String
deduplicate values = drop_seen [] values

-- `_rhel_build_dependencies`
unfoldable pub rhel_build_dependencies : String → Option String → List String
rhel_build_dependencies kernel os_version =
    if opt_eq (release_major os_version) (some "9")
    then "gcc" ∷ "make" ∷ []
    else ("kernel-devel-" <> kernel) ∷ "kernel-headers" ∷ "gcc" ∷ "make" ∷ []

-- `_kernel_build_targets`
unfoldable pub kernel_build_targets : HostAudit → List String
unfolding rhel_build_dependencies
kernel_build_targets audit =
    let pm = audit.package_manager in
    if opt_eq pm (some "apt-get")
    then ("linux-headers-" <> audit.kernel.running) ∷ []
    else if opt_eq pm (some "dnf") || opt_eq pm (some "yum")
    then select (λ name. not (contains ("gcc" ∷ "make" ∷ []) name))
        (rhel_build_dependencies audit.kernel.running audit.os_version)
    else if opt_eq pm (some "zypper")
    then elim (suse_kernel_devel audit.kernel.running) [
      | none ↦ []
      | some kernel_devel ↦ kernel_devel ∷ []
    ]
    else []

-- `_needs_driver_install`
unfoldable pub needs_driver_install : DesiredState → HostAudit → Bool
needs_driver_install desired audit = not (on_disk_ready desired audit)

abbrev only_if : Bool → List String → List String
only_if test names = if test then names else []

-- The targets before repetitions are dropped.
unfoldable pub drifted_components : DesiredState → HostAudit → List String
unfolding needs_driver_install driver_package_name
drifted_components desired audit =
    only_if (needs_driver_install desired audit) (driver_package_name desired ∷ [])
    ++ (only_if (not audit.runtime.nvidia_container_runtime_installed)
          ("nvidia-container-toolkit" ∷ [])
        ++ (only_if (not audit.runtime.docker_installed) ("docker-ce" ∷ [])
            ++ (only_if (not audit.kernel.headers_installed) (kernel_build_targets audit)
                ++ only_if (is_none audit.kernel.compiler) (
                    if opt_eq audit.package_manager (some "apt-get")
                    then "build-essential" ∷ []
                    else "gcc" ∷ "make" ∷ []))))

-- `package_install_targets`
unfoldable pub package_install_targets : DesiredState → HostAudit → List String
unfolding drifted_components deduplicate
package_install_targets desired audit = deduplicate (drifted_components desired audit)

-- `_next_driver_branch`. `int(driver_major)` reads a text of digits, which is what `_DRIVER_PATTERN`
-- leaves.
unfoldable pub next_driver_branch : String → Result String
unfolding is_decimal
next_driver_branch major =
    if is_decimal major then ok (show_int ((read_int major / 10 + 1) * 10)) else value_error

abbrev pub branch_packages : List String
branch_packages = "cuda-drivers" ∷ "nvidia-fabricmanager" ∷ "nvidia-open" ∷ []

-- The loop of `package_install_operands` on a zypper host.
unfoldable pub bounded_operands : String → String → List String → List String
bounded_operands lower_bound upper_bound [] = []
bounded_operands lower_bound upper_bound (target ∷ targets) =
    (if contains branch_packages target
      then (target <> (">=" <> lower_bound)) ∷ (target <> ("<" <> upper_bound)) ∷ []
      else target ∷ [])
    ++ bounded_operands lower_bound upper_bound targets

-- `package_install_operands`
unfoldable pub package_install_operands : DesiredState → HostAudit → Result (List String)
unfolding next_driver_branch bounded_operands
package_install_operands desired audit =
    let targets = package_install_targets desired audit in
    if not (opt_eq audit.package_manager (some "zypper")) then ok targets else do
      upper_bound ← next_driver_branch (driver_major desired)
      ok (bounded_operands (driver_major desired) upper_bound targets)

-- The command of `package_install_commands` for operands that are not empty.
unfoldable pub install_command : Option String → List String → List (List String)
install_command none operands = []
install_command (some pm) operands =
    if pm == "apt-get"
    then ("apt-get" ∷ "install" ∷ "-y" ∷ "--allow-downgrades" ∷ "--no-install-recommends"
        ∷ operands)
      ∷ []
    else if pm == "dnf" || pm == "yum"
    then (pm ∷ "-C" ∷ "--setopt=install_weak_deps=False" ∷ "install" ∷ "-y" ∷ operands) ∷ []
    else if pm == "zypper"
    then ("zypper" ∷ "--non-interactive" ∷ "--no-refresh" ∷ "install" ∷ "--no-recommends"
        ∷ operands)
      ∷ []
    else []

-- `package_install_commands`
unfoldable pub package_install_commands : DesiredState → HostAudit → Result (List (List String))
unfolding package_install_operands install_command
package_install_commands desired audit = do
  operands ← package_install_operands desired audit
  ok (if is_empty operands then [] else install_command audit.package_manager operands)

-- `_package_policy_staging_required`
unfoldable pub package_policy_staging_required : List String → Bool
package_policy_staging_required targets =
    any (λ target. contains branch_packages target || starts_with target "cuda-compat-") targets
