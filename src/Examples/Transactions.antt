-- ===== src/Examples/Transactions.antt =====
-- preflight.py on sample transactions of APT.
use nvidia_converge.Common.{
  ◌≡◌, ◌↔◌, ◌==◌, refl, String, true, ◌||◌, none, some, List, [], ◌∷◌, any,
}
use nvidia_converge.Common.Text.{span}
use nvidia_converge.Audit.{is_interesting_package}
use nvidia_converge.Models.{PackageInfo, HostAudit}
use nvidia_converge.Preflight.Closure.{
  target_name, forward_target_names, forward_package_observable, driver_package_dependency,
  kernel_package_allowed, target_package_allowed, forward_package_allowed,
}
use nvidia_converge.Preflight.Apt.{
  AptIdentity, AptInstall, AptRemoval, AptTransaction, mismatched_replacement, unplanned_removal,
  apt_identity, same_identity, current_identities, resolve_apt_removal, install_error,
  removal_error, apt_forward_transaction_error,
}
use nvidia_converge.Common.{map}
use nvidia_converge.Common.Text.{rsplit_once, ends_with}
use nvidia_converge.Rollback.Specs.{
  apt_package_name, apt_package_spec, rpm_package_spec, zypper_package_spec,
}
use nvidia_converge.Rollback.Commands.{parent_path, join_path}
use nvidia_converge.Preflight.Restore.{
  Bindings, snapshot_payload_operand, snapshot_by_spec, audit_by_remove_spec, identities_of,
  replacement_error, observed_removals, has_identity, difference_error, bound_transaction_error,
  apt_rollback_transaction_error,
}
use nvidia_converge.Preflight.Exact.{rolled_back, rollback-exact}
use nvidia_converge.Examples.Rollbacks.{snapshot, changed_host, payload_path}
use nvidia_converge.Preflight.Removals.{names, resolve_apt_removal-names}
use nvidia_converge.Preflight.Keeps.{same_slot, after, forward-keeps}
use nvidia_converge.Examples.Hosts.{bare_host}

unfoldable program : Unit {0}
unfolding span is_interesting_package target_name forward_target_names forward_package_observable
    driver_package_dependency kernel_package_allowed target_package_allowed forward_package_allowed
    apt_identity current_identities resolve_apt_removal install_error removal_error
    apt_forward_transaction_error rsplit_once ends_with apt_package_name apt_package_spec
    rpm_package_spec zypper_package_spec parent_path join_path snapshot_payload_operand
    snapshot_by_spec audit_by_remove_spec replacement_error observed_removals difference_error
    bound_transaction_error apt_rollback_transaction_error ◌==◌
program = tt

abbrev driver : PackageInfo
driver = record {
  name = "nvidia-open";
  version = some "570.86.15-1";
  manager = some "apt";
  installed = true;
  architecture = none;
  epoch = none;
}

abbrev toolkit : PackageInfo
toolkit = record driver { name = "nvidia-container-toolkit"; version = some "1.17.8-1" }

abbrev audited_host : HostAudit
audited_host = record bare_host { packages = driver ∷ toolkit ∷ [] }

abbrev targets : List String
targets = "nvidia-open<590" ∷ []

abbrev upgrade : AptInstall
upgrade = record {
  name = "nvidia-open";
  architecture = "amd64";
  version = "580.65.06-1";
  old_version = some "570.86.15-1";
}

abbrev upgrading : AptTransaction
upgrading = record { installs = upgrade ∷ []; removals = [] }

abbrev toolkit_identity : AptIdentity
toolkit_identity = record {
  name = "nvidia-container-toolkit";
  architecture = "amd64";
  version = "1.17.8-1";
}

upgrading-accepted :
    apt_forward_transaction_error (some upgrading) "amd64" targets audited_host ≡ none
unfolding program
upgrading-accepted = refl

-- The replaced version is not the audited one.
stale-refused :
    apt_forward_transaction_error
      (some (record upgrading { installs = record upgrade { old_version = some "570.1-1" } ∷ [] }))
      "amd64"
      targets
      audited_host
    ≡ some mismatched_replacement
unfolding program
stale-refused = refl

-- The toolkit is removed without an installation in its place.
removing-refused :
    apt_forward_transaction_error
      (some (record upgrading {
        removals =
            record { name = "nvidia-container-toolkit"; architecture = none; version = "1.17.8-1" }
            ∷ [];
      }))
      "amd64"
      targets
      audited_host
    ≡ some unplanned_removal
unfolding program
removing-refused = refl

toolkit-audited :
    any (same_identity toolkit_identity) (current_identities "amd64" audited_host.packages) ≡ true
unfolding program
toolkit-audited = refl

forward-keeps_example :
    (any
        (same_slot toolkit_identity)
        (after "amd64" (current_identities "amd64" audited_host.packages) upgrading)
      ≡ true)
    × ((forward_package_allowed toolkit_identity.name targets "apt-get" audited_host
          || any
              (same_identity toolkit_identity)
              (after "amd64" (current_identities "amd64" audited_host.packages) upgrading))
        ≡ true)
forward-keeps_example =
    forward-keeps "amd64" targets audited_host upgrading toolkit_identity upgrading-accepted
      toolkit-audited

-- The driver is put back and the toolkit removed.
abbrev rolling_back : AptTransaction
rolling_back = record {
  installs =
      record {
        name = "nvidia-driver-550";
        architecture = "amd64";
        version = "550.90.07-1";
        old_version = some "550.163.01-1";
      }
      ∷ [];
  removals =
      record { name = "nvidia-container-toolkit"; architecture = none; version = "1.17.8-1" } ∷ [];
}

abbrev removed_names : List String
removed_names = "nvidia-container-toolkit:amd64" ∷ []

rolling_back-accepted :
    apt_rollback_transaction_error
      (some rolling_back)
      snapshot
      changed_host
      (payload_path ∷ [])
      removed_names
      "amd64"
    ≡ none
unfolding program
rolling_back-accepted = refl

rollback-exact_example :
    (restores : Bindings) × (current : Bindings) × (snapshot_by_spec snapshot "amd64"
        snapshot.packages []
      ≡ some restores)
    × (audit_by_remove_spec "amd64" changed_host.packages [] ≡ some current)
    × ((a : AptIdentity)
        → has_identity (after "amd64" (map (λ m. m.1) current) rolling_back) a
          ≡ rolled_back
              (map (λ m. m.1) current)
              (identities_of restores (payload_path ∷ []))
              (identities_of current removed_names)
              a)
rollback-exact_example =
    rollback-exact rolling_back snapshot changed_host (payload_path ∷ []) removed_names "amd64"
      rolling_back-accepted

abbrev toolkit_removal : AptRemoval
toolkit_removal = record {
  name = "nvidia-container-toolkit";
  architecture = none;
  version = "1.17.8-1";
}

resolve_apt_removal-names_example :
    (resolve_apt_removal toolkit_removal (toolkit_identity ∷ []) "amd64" ≡ some toolkit_identity)
    ↔ (names toolkit_removal (toolkit_identity ∷ []) "amd64" toolkit_identity ≡ true)
resolve_apt_removal-names_example =
    resolve_apt_removal-names toolkit_removal (toolkit_identity ∷ []) "amd64" toolkit_identity refl
