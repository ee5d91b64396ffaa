-- ===== src/Rollback/Delta.antt =====
-- rollback.py: the packages that a rollback restores and removes on the current host.
use nvidia_converge.Common.{Bool, not, ◌&&◌, ◌||◌, some, List, any, select, opt_eq}
use nvidia_converge.Models.{PackageInfo}
use nvidia_converge.Rollback.Specs.{is_text, same_state, same_slot}
use nvidia_converge.Audit.{is_interesting_package}

abbrev pub installed_of : List PackageInfo → List PackageInfo
installed_of packages = select (λ p. p.installed) packages

-- `_package_state_identity(package) in states`, for the states of some packages
abbrev pub has_state : List PackageInfo → PackageInfo → Bool
has_state packages p = any (same_state p) packages

-- `(package.name, package.architecture) in slots`
abbrev pub has_slot : List PackageInfo → PackageInfo → Bool
has_slot packages p = any (same_slot p) packages

-- `restore_packages`: what the snapshot has installed, in a state that the host has not.
abbrev pub is_missing : List PackageInfo → PackageInfo → Bool
is_missing current p = p.installed && is_text p.version && not (has_state (installed_of current) p)

unfoldable pub restore_packages : List PackageInfo → List PackageInfo → List PackageInfo
restore_packages baseline current = select (is_missing current) baseline

-- The current packages of the baseline, for `current_baseline_slots`.
abbrev pub current_baseline : List PackageInfo → List PackageInfo → List PackageInfo
current_baseline baseline current =
    select (λ p. p.installed && has_state (installed_of baseline) p) current

-- `added_packages`: new states in a slot that is new, or that still has a state of the baseline.
abbrev pub is_added : List PackageInfo → List PackageInfo → PackageInfo → Bool
is_added baseline current p =
    p.installed
    && not (has_state (installed_of baseline) p)
    && (not (has_slot (installed_of baseline) p) || has_slot (current_baseline baseline current) p)

unfoldable pub added_packages : List PackageInfo → List PackageInfo → List PackageInfo
added_packages baseline current = select (is_added baseline current) current

-- `restored_rpm_packages`
unfoldable pub restored_rpm_packages : List PackageInfo → List PackageInfo
restored_rpm_packages restore =
    select
      (λ p.
        p.installed
        && opt_eq p.manager (some "rpm")
        && is_text p.version
        && is_interesting_package p.name)
      restore

-- The packages that the restored ones replace.
unfoldable pub replaced_rpm_packages :
    List PackageInfo → List PackageInfo → List PackageInfo → List PackageInfo
replaced_rpm_packages baseline current restored =
    select
      (λ p.
        p.installed
        && opt_eq p.manager (some "rpm")
        && is_text p.version
        && has_slot restored p
        && not (has_state (installed_of baseline) p))
      current
