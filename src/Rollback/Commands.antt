-- ===== src/Rollback/Commands.antt =====
-- rollback.py: the package commands of a rollback.
use nvidia_converge.Common.{
  String, Bool, true, false, ◌&&◌, Option, none, some, List, [], ◌∷◌, ◌++◌, map, select, contains,
  last?, is_empty, starts_with, ◌==◌, ◌<>◌, opt_eq, if◌then◌else◌,
}
use nvidia_converge.Common.Sorting.{sorted}
use nvidia_converge.Common.Text.{rsplit_once, ends_with}
use nvidia_converge.Common.Checking.{Checked, passed, rejected, ◌>>=◌}
use nvidia_converge.Models.{PackageInfo, HostAudit}
use nvidia_converge.Rollback.Specs.{
  PackagePayload, PackagePayloadBundle, RollbackSnapshot, is_text, text_or_empty, rpm_package_spec,
  zypper_package_spec, apt_package_spec, is_dnf, sorted_set, package_removal_specs,
}
use nvidia_converge.Audit.{is_interesting_package}
use nvidia_converge.Rollback.Delta.{
  restore_packages, added_packages, restored_rpm_packages, replaced_rpm_packages,
}

-- The texts of `RollbackSnapshotError` in `_rollback_commands`.
pub data RollbackError : Type 0 where
  no_snapshot_path missing_payload no_retained_payloads : RollbackError

-- `str(Path(path).parent)`, and `/` between two paths, for paths in their normal form.
unfoldable pub parent_path : String → String
unfolding rsplit_once
parent_path path = elim (rsplit_once "/" path) [
  | none ↦ "."
  | some (before, after) ↦ if before == "" then "/" else before
]

unfoldable pub join_path : String → String → String
unfolding ends_with
join_path base name =
    if starts_with name "/"
    then name
    else if ends_with base "/"
    then base <> name
    else base <> ("/" <> name)

-- `by_identity.get(identity)`: of equal keys the last payload stays in the dictionary.
abbrev pub find_payload : PackageInfo → List PackagePayload → Option PackagePayload
find_payload p payloads = last? (
    select
      (λ q.
        contains q.roles "baseline"
        && q.name == p.name
        && q.architecture == text_or_empty p.architecture
        && opt_eq q.epoch p.epoch
        && q.version == text_or_empty p.version)
      payloads)

-- The retained payloads of the packages, in their order.
unfoldable pub local_payloads_of :
    String → PackagePayloadBundle → List PackageInfo → Checked RollbackError (List String)
local_payloads_of snapshot_path bundle [] = passed []
local_payloads_of snapshot_path bundle (p ∷ packages) = elim (find_payload p bundle.packages) [
  | none ↦ rejected missing_payload
  | some payload ↦ do
    paths ← local_payloads_of snapshot_path bundle packages
    passed (
        join_path (join_path (parent_path snapshot_path) bundle.directory) payload.filename ∷ paths)
]

-- `local_payloads`
unfoldable pub local_payloads :
    Option String
    → Option PackagePayloadBundle
    → List PackageInfo
    → Checked RollbackError (Option (List String))
local_payloads none none packages = passed none
local_payloads (some path) none packages = rejected no_retained_payloads
local_payloads none (some bundle) packages = rejected no_snapshot_path
local_payloads (some path) (some bundle) packages = do
  paths ← local_payloads_of path bundle packages
  passed (some paths)

abbrev pub apt_install : List String
apt_install =
    "apt-get" ∷ "install" ∷ "-y" ∷ "--allow-change-held-packages" ∷ "--allow-downgrades"
    ∷ "--no-download" ∷ "--no-install-recommends" ∷ "--purge" ∷ []

abbrev pub zypper_install : List String
zypper_install =
    "zypper" ∷ "--non-interactive" ∷ "--disable-repositories" ∷ "--no-refresh" ∷ "install"
    ∷ "--oldpackage" ∷ "--no-recommends" ∷ "--no-force-resolution" ∷ []

-- A command in front of its operands, and no command without operands.
abbrev pub with_operands : List String → List String → List (List String)
with_operands command [] = []
with_operands command (operand ∷ operands) = (command ++ (operand ∷ operands)) ∷ []

-- `dnf_local_transaction_command` with `apply=True`; the script stands as the name of its constant.
unfoldable pub dnf_local_transaction_command :
    List String → List String → List String → List String → List String
dnf_local_transaction_command restore_paths remove_specs expected_installs expected_removals =
    ("python3" ∷ "-I" ∷ "-c" ∷ "DNF_LOCAL_TRANSACTION_SCRIPT" ∷ "--apply" ∷ [])
    ++ (restore_paths
        ++ (("--remove" ∷ [])
            ++ (remove_specs
                ++ (("--expect-install" ∷ [])
                    ++ (expected_installs ++ (("--expect-remove" ∷ []) ++ expected_removals))))))

-- `_remove_commands`, as it is called: for DNF and YUM.
unfoldable pub remove_commands : String → List String → Bool → List (List String)
remove_commands pm packages exact =
    with_operands
      (pm
        ∷ "--disablerepo=*"
        ∷ "--disableplugin=versionlock"
        ∷ "--noautoremove"
        ∷ (if exact then "remove-nevra" else "remove-n")
        ∷ "-y"
        ∷ [])
      packages

-- The RPM packages by their names.
abbrev pub rpm_specs : (PackageInfo → String) → List PackageInfo → List String
rpm_specs spec packages = map spec (select (λ p. opt_eq p.manager (some "rpm")) packages)

abbrev pub or_else {ℓ} : {A : Type ℓ} → Option A → A → A
or_else none a = a
or_else (some a) _ = a

-- The packages that `_rollback_commands` takes up.
abbrev pub rollback_installed : List PackageInfo → List PackageInfo
rollback_installed packages =
    select (λ p. p.installed && is_text p.version && is_interesting_package p.name) packages

-- The commands of the package manager, once the payloads are found.
unfoldable pub manager_commands :
    List PackageInfo
    → Option String
    → List String
    → Bool
    → Option (List String)
    → Option (List String)
    → Option (List String)
    → List (List String)
manager_commands installed none remove_specs exact payloads installs removals = []
manager_commands installed (some pm) remove_specs exact payloads installs removals =
    if pm == "apt-get"
    then with_operands apt_install (
        or_else payloads
          (map apt_package_spec (select (λ p. opt_eq p.manager (some "apt")) installed))
        ++ map (λ s. s <> "-") remove_specs)
    else if is_dnf (some pm)
    then elim payloads [
      | some paths ↦
          if is_empty paths && is_empty remove_specs
          then []
          else dnf_local_transaction_command paths remove_specs
              (sorted (or_else installs (rpm_specs rpm_package_spec installed)))
              (sorted (or_else removals remove_specs))
            ∷ []
      | none ↦
          with_operands
            (pm ∷ "--disablerepo=*" ∷ "--disableplugin=versionlock" ∷ "--noautoremove"
              ∷ "--setopt=localpkg_gpgcheck=1" ∷ "install-nevra" ∷ "-y" ∷ [])
            (rpm_specs rpm_package_spec installed)
          ++ remove_commands pm remove_specs exact
    ]
    else if pm == "zypper"
    then with_operands (zypper_install ++ ("--" ∷ [])) (
        or_else payloads (rpm_specs zypper_package_spec installed)
        ++ map (λ s. "-" <> s) remove_specs)
    else []

-- `_rollback_commands`
unfoldable pub rollback_commands :
    List PackageInfo
    → Option String
    → List String
    → Bool
    → Option String
    → Option PackagePayloadBundle
    → Option (List String)
    → Option (List String)
    → Checked RollbackError (List (List String))
rollback_commands packages pm remove_packages exact path bundle installs removals = do
  payloads ← local_payloads path bundle (rollback_installed packages)
  passed (
      manager_commands (rollback_installed packages) pm (sorted_set remove_packages) exact payloads
        installs removals)

-- `rollback_package_commands` without and with an audit of the current host.
unfoldable pub rollback_package_commands :
    RollbackSnapshot → Option HostAudit → Checked RollbackError (List (List String))
rollback_package_commands snapshot none =
    rollback_commands snapshot.packages snapshot.package_manager snapshot.introduced_packages false
      snapshot.path snapshot.package_payloads none none
rollback_package_commands snapshot (some audit) =
    let restore = restore_packages snapshot.packages audit.packages in
    let remove =
      package_removal_specs (added_packages snapshot.packages audit.packages)
        snapshot.package_manager in
    let restored = restored_rpm_packages restore in
    let replaced = replaced_rpm_packages snapshot.packages audit.packages restored in
    let dnf = is_dnf snapshot.package_manager in
    rollback_commands restore snapshot.package_manager remove true snapshot.path
      snapshot.package_payloads
      (if dnf then some (sorted (map rpm_package_spec restored)) else none)
      (if dnf then some (sorted_set (remove ++ map rpm_package_spec replaced)) else none)
