-- ===== src/Examples/Rollbacks.antt =====
-- rollback.py on a sample host: an upgrade of a driver and a new package are rolled back.
use nvidia_converge.Common.{
  ◌≡◌, ◌⊎◌, ◌==◌, refl, String, true, false, none, some, List, [], ◌∷◌, all,
}
use nvidia_converge.Common.Text.{rsplit_once, ends_with, span, is_lower_hex, after_prefix}
use nvidia_converge.Common.Sorting.{insert_sorted, sorted}
use nvidia_converge.Common.Checking.{passed}
use nvidia_converge.Config.{is_alphanumeric}
use nvidia_converge.Models.{PackageInfo, HostAudit}
use nvidia_converge.Rollback.Specs.{
  RollbackSnapshot, rpm_package_spec, zypper_package_spec, apt_package_name, apt_package_spec,
  removal_spec, removal_specs_of, package_removal_specs,
}
use nvidia_converge.Audit.{is_interesting_package}
use nvidia_converge.Rollback.Delta.{
  has_state, has_slot, restore_packages, added_packages, restored_rpm_packages,
  replaced_rpm_packages,
}
use nvidia_converge.Rollback.Commands.{
  parent_path, join_path, local_payloads_of, local_payloads, rollback_installed,
  dnf_local_transaction_command, remove_commands, manager_commands, rollback_commands,
  rollback_package_commands,
}
use nvidia_converge.Rollback.Allowed.{
  is_name_char, is_version_char, word_of, valid_package_spec, valid_package_specs, parts_of,
  is_payload_name, is_payload_place, valid_local_payload_path, drop_last, drop_first,
  allowed_apt_operand, allowed_zypper_operand, allowed_zypper, allowed_transaction,
  allowed_dnf_local, allowed_rollback_command,
}
use nvidia_converge.Rollback.Restores.{delta-covers}
use nvidia_converge.Rollback.Accepted.{apt, rollback_package_commands-accepted}
use nvidia_converge.Examples.Hosts.{bare_host}

unfoldable program : Unit {0}
unfolding rsplit_once ends_with span is_lower_hex after_prefix insert_sorted sorted is_alphanumeric
    is_interesting_package rpm_package_spec zypper_package_spec apt_package_name apt_package_spec
    removal_spec package_removal_specs restore_packages added_packages restored_rpm_packages
    replaced_rpm_packages parent_path join_path local_payloads_of local_payloads
    dnf_local_transaction_command remove_commands manager_commands rollback_commands
    rollback_package_commands is_name_char is_version_char word_of valid_package_spec
    valid_package_specs parts_of is_payload_name is_payload_place valid_local_payload_path drop_last
    drop_first allowed_apt_operand allowed_zypper_operand allowed_zypper allowed_transaction
    allowed_dnf_local allowed_rollback_command ◌==◌
program = tt

abbrev pub old_driver : PackageInfo
old_driver = record {
  name = "nvidia-driver-550";
  version = some "550.90.07-1";
  manager = some "apt";
  installed = true;
  architecture = some "amd64";
  epoch = none;
}

abbrev pub new_driver : PackageInfo
new_driver = record old_driver { version = some "550.163.01-1" }

abbrev pub new_toolkit : PackageInfo
new_toolkit = record old_driver { name = "nvidia-container-toolkit"; version = some "1.17.8-1" }

abbrev pub snapshot : RollbackSnapshot
snapshot = record {
  path = some "/var/lib/nvidia-converge/snapshot.json";
  packages = old_driver ∷ [];
  package_manager = some "apt-get";
  introduced_packages = [];
  package_payloads = some (record {
    directory = "snapshot.payloads";
    packages =
        record {
          name = "nvidia-driver-550";
          architecture = "amd64";
          epoch = none;
          version = "550.90.07-1";
          filename = "00112233445566778899aabbccddeeff00112233445566778899aabbccddeeff.deb";
          roles = "baseline" ∷ [];
        }
        ∷ [];
  });
}

abbrev pub changed_host : HostAudit
changed_host = record bare_host { packages = new_driver ∷ new_toolkit ∷ [] }

abbrev pub payload_path : String
payload_path =
    "/var/lib/nvidia-converge/snapshot.payloads/00112233445566778899aabbccddeeff00112233445566778899aabbccddeeff.deb"

changed-commands :
    rollback_package_commands snapshot (some changed_host)
    ≡ passed (
        ("apt-get" ∷ "install" ∷ "-y" ∷ "--allow-change-held-packages" ∷ "--allow-downgrades"
          ∷ "--no-download" ∷ "--no-install-recommends" ∷ "--purge" ∷ payload_path
          ∷ "nvidia-container-toolkit:amd64-" ∷ [])
        ∷ [])
unfolding program
changed-commands = refl

-- An RPM of a pre-release, whose version has a tilde, has a name that no command may remove.
tilde-refused :
    valid_package_spec
      (rpm_package_spec (record old_driver { version = some "550.90~rc1-1"; manager = some "rpm" }))
    ≡ false
unfolding program
tilde-refused = refl

delta-covers_example :
    (has_state (added_packages (old_driver ∷ []) (new_driver ∷ new_toolkit ∷ [])) new_driver ≡ true)
    ⊎ (has_slot (restore_packages (old_driver ∷ []) (new_driver ∷ new_toolkit ∷ [])) new_driver
        ≡ true)
unfolding ◌==◌
delta-covers_example =
    delta-covers (old_driver ∷ []) (new_driver ∷ new_toolkit ∷ []) new_driver refl refl refl

payload-found :
    local_payloads snapshot.path snapshot.package_payloads
      (rollback_installed (restore_packages snapshot.packages changed_host.packages))
    ≡ passed (some (payload_path ∷ []))
unfolding program
payload-found = refl

payload-valid : all (valid_local_payload_path "deb") (payload_path ∷ []) ≡ true
unfolding program
payload-valid = refl

removals-valid :
    all valid_package_spec
      (removal_specs_of (some "apt-get") (added_packages snapshot.packages changed_host.packages))
    ≡ true
unfolding program
removals-valid = refl

rollback_package_commands-accepted_example :
    (commands : List (List String)) × (rollback_package_commands snapshot (some changed_host)
      ≡ passed commands)
    × (all allowed_rollback_command commands ≡ true)
rollback_package_commands-accepted_example =
    rollback_package_commands-accepted "apt-get" "deb" snapshot changed_host (payload_path ∷ []) apt
      refl payload-found payload-valid removals-valid
