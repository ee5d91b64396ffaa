-- ===== src/Rollback/Accepted.antt =====
-- rollback.py: the commands of a rollback pass `_allowed_rollback_command`.
use mathlib.Core.Path.{subst}
use nvidia_converge.Common.{
  ◌≡◌, refl, ap, sym, ◌∙◌, String, Bool, true, Option, none, some, List, [], ◌∷◌, ◌++◌, map, all,
  all-append, drop_seen, if◌then◌else◌, ◌==◌, ◌<>◌, arith,
}
use nvidia_converge.Common.Sorting.{sorted}
use nvidia_converge.Common.Sets.{contains-sorted, contains-drop_seen, contains-all, all-contains}
use nvidia_converge.Common.Checking.{passed, ◌>>=◌}
use nvidia_converge.Models.{PackageInfo, HostAudit}
use nvidia_converge.Rollback.Delta.{
  restore_packages, added_packages, restored_rpm_packages, replaced_rpm_packages,
}
use nvidia_converge.Rollback.Specs.{
  RollbackSnapshot, sorted_set, removal_specs_of, package_removal_specs, is_dnf, rpm_package_spec,
}
use nvidia_converge.Rollback.Commands.{
  local_payloads, rollback_installed, rollback_commands, rollback_package_commands,
  manager_commands, with_operands, apt_install, zypper_install,
}
use nvidia_converge.Rollback.Allowed.{
  valid_package_spec, valid_local_payload_path, allowed_apt_operand, allowed_zypper_operand,
  allowed_zypper, allowed_rollback_command,
}
use nvidia_converge.Rollback.Operands.{apt-removal, zypper-removal, apt-payload, zypper-payload}

all-map :
    (p q : String → Bool) (f : String → String)
    → ((s : String) → p s ≡ true → q (f s) ≡ true)
    → (xs : List String) → all p xs ≡ true
    → all q (map f xs) ≡ true
all-map p q f h [] a = refl
all-map p q f h (x ∷ xs) a = ground (arith, h x, all-map p q f h xs)

all-implied :
    (p q : String → Bool)
    → ((s : String) → p s ≡ true → q s ≡ true)
    → (xs : List String) → all p xs ≡ true
    → all q xs ≡ true
all-implied p q h [] a = refl
all-implied p q h (x ∷ xs) a = ground (arith, h x, all-implied p q h xs)

apt-accepted :
    (operands : List String)
    → all allowed_apt_operand operands ≡ true
    → all allowed_rollback_command (with_operands apt_install operands) ≡ true
unfolding allowed_rollback_command ◌==◌
apt-accepted [] h = refl
apt-accepted (operand ∷ operands) h = ground (arith, h)

zypper-accepted :
    (operands : List String)
    → all allowed_zypper_operand operands ≡ true
    → all allowed_rollback_command (with_operands (zypper_install ++ ("--" ∷ [])) operands) ≡ true
unfolding allowed_rollback_command allowed_zypper ◌==◌
zypper-accepted [] h = refl
zypper-accepted (operand ∷ operands) h = ground (arith, h)

-- The package managers that restore and remove in one installation, with the extension of their payloads.
pub data OneTransaction : String → String → Type 0 where
  apt : OneTransaction "apt-get" "deb"
  zypper : OneTransaction "zypper" "rpm"

manager-accepted :
    (pm extension : String) (installed : List PackageInfo) (remove_specs paths : List String)
    (exact : Bool) (installs removals : Option (List String))
    → OneTransaction pm extension
    → all (valid_local_payload_path extension) paths ≡ true
    → all valid_package_spec remove_specs ≡ true
    → all allowed_rollback_command
        (manager_commands installed (some pm) remove_specs exact (some paths) installs removals)
      ≡ true
unfolding manager_commands ◌==◌
manager-accepted pm extension installed remove_specs paths exact installs removals apt p r =
    apt-accepted (paths ++ map (λ s. s <> "-") remove_specs) (
      all-append allowed_apt_operand paths _
      ∙ ground (
        arith,
        all-implied _ allowed_apt_operand apt-payload paths p,
        all-map valid_package_spec allowed_apt_operand (λ s. s <> "-") apt-removal remove_specs r,
      ))
manager-accepted pm extension installed remove_specs paths exact installs removals zypper p r =
    zypper-accepted (paths ++ map (λ s. "-" <> s) remove_specs) (
      all-append allowed_zypper_operand paths _
      ∙ ground (
        arith,
        all-implied _ allowed_zypper_operand zypper-payload paths p,
        all-map valid_package_spec allowed_zypper_operand (λ s. "-" <> s) zypper-removal
            remove_specs r,
      ))

all-sorted_set :
    (p : String → Bool) (xs : List String) → all p xs ≡ true → all p (sorted_set xs) ≡ true
all-sorted_set p xs h = contains-all p (sorted_set xs) (λ x found.
    all-contains p xs x h
      (ground (arith, contains-sorted (drop_seen [] xs) x, contains-drop_seen xs [] x)))

-- What `_rollback_commands` gets from `rollback_package_commands`, for a package manager.
module _ (snapshot : RollbackSnapshot) (audit : HostAudit) (payloads : Option (List String)) where
  abbrev restore : List PackageInfo
  restore = restore_packages snapshot.packages audit.packages

  abbrev commands_for : Option String → List (List String)
  commands_for manager =
      let remove =
        package_removal_specs (added_packages snapshot.packages audit.packages) manager in
      let restored = restored_rpm_packages restore in
      let replaced = replaced_rpm_packages snapshot.packages audit.packages restored in
      manager_commands (rollback_installed restore) manager (sorted_set remove) true payloads
        (if is_dnf manager then some (sorted (map rpm_package_spec restored)) else none)
        (if is_dnf manager
          then some (sorted_set (remove ++ map rpm_package_spec replaced))
          else none)

-- With APT and Zypper, when the payloads of the packages to restore are found at valid paths and the
-- names to remove are valid, the rollback of a host has commands, and a snapshot may record each.
pub rollback_package_commands-accepted :
    (pm extension : String) (snapshot : RollbackSnapshot) (audit : HostAudit) (paths : List String)
    → OneTransaction pm extension
    → snapshot.package_manager ≡ some pm
    → local_payloads snapshot.path snapshot.package_payloads
        (rollback_installed (restore_packages snapshot.packages audit.packages))
      ≡ passed (some paths)
    → all (valid_local_payload_path extension) paths ≡ true
    → all valid_package_spec
        (removal_specs_of (some pm) (added_packages snapshot.packages audit.packages))
      ≡ true
    → (commands : List (List String)) × (rollback_package_commands snapshot (some audit)
        ≡ passed commands)
      × (all allowed_rollback_command commands ≡ true)
unfolding rollback_package_commands rollback_commands package_removal_specs
rollback_package_commands-accepted pm extension snapshot audit paths one manager found p r = (
  commands_for snapshot audit (some paths) snapshot.package_manager,
  ap (λ m. m >>= λ payloads. passed (commands_for snapshot audit payloads snapshot.package_manager))
      found,
  subst (λ m. all allowed_rollback_command (commands_for snapshot audit (some paths) m) ≡ true)
      (sym manager)
      (manager-accepted pm extension _ _ paths true _ _ one p
        (all-sorted_set valid_package_spec _ (all-sorted_set valid_package_spec _ r))),
)
