-- ===== src/Doctor/MigState.antt =====
-- doctor.py: MIG capability, mode and geometry (lines 224 to 293), and `diagnose` as a whole.
use nvidia_converge.Common.{
  String, true, not, ◌&&◌, ◌||◌, Option, none, some, List, [], ◌∷◌, ◌++◌, ◌==◌, ◌<>◌, is_false,
  is_none, is_empty, opt_eq, nat_eq, length, if◌then◌else◌,
}
use nvidia_converge.Models.{DesiredState, HostAudit, Finding, info}
use nvidia_converge.Mig.{full_mig_geometry_matches}
use nvidia_converge.Doctor.Checks.{Check, when, collect}
use nvidia_converge.Doctor.Host.{host_checks}
use nvidia_converge.Doctor.Drivers.{version_checks, flavor_checks, userspace_checks}
use nvidia_converge.Doctor.Services.{docker_checks, fabric_checks, fabric_version_checks}

unfoldable pub capability_checks : DesiredState → HostAudit → List Check
capability_checks desired audit =
    when (desired.mig == "enabled" && is_false audit.mig_capable) "mig.unsupported"
      "At least one GPU does not support MIG"
    ∷ when (desired.mig == "enabled" && is_none audit.mig_capable) "mig.capability-unknown"
        "MIG capability could not be determined"
    ∷ when (is_none audit.mig_mode_pending) "mig.pending-unknown"
        "Pending MIG mode could not be determined"
    ∷ when
        (not (is_none audit.mig_mode_pending)
          && not (is_none audit.mig_mode)
          && not (opt_eq audit.mig_mode_pending audit.mig_mode))
        "mig.pending-reboot" "A MIG mode transition is pending"
    ∷ []

-- The chain under `elif audit.mig_mode_pending == audit.mig_mode`.
unfoldable pub geometry_checks : DesiredState → HostAudit → List Check
geometry_checks desired audit =
    let full = full_mig_geometry_matches audit.mig_geometry audit.gpu_uuids in
    if not audit.mig_geometry_complete
    then when true "mig.geometry-unobservable" "MIG instance geometry could not be determined" ∷ []
    else if desired.mig == "enabled" && not full
    then when true
        (if is_empty audit.mig_geometry then "mig.geometry-missing" else "mig.geometry-mismatch")
        "MIG mode does not expose the desired usable instance"
      ∷ []
    else if desired.mig == "enabled" && not (nat_eq (length audit.mig_device_uuids) 1)
    then when true "mig.device-unobservable" "The desired MIG compute device UUID is not unique"
      ∷ []
    else if desired.mig == "disabled"
        && (not (is_empty audit.mig_geometry) || not (is_empty audit.mig_device_uuids))
    then when true "mig.disabled-with-instances"
        "MIG devices remain visible while MIG mode is disabled"
      ∷ []
    else []

-- The chain on `audit.mig_mode`, at its value.
unfoldable pub mode_checks_at : DesiredState → HostAudit → Option String → List Check
unfolding geometry_checks
mode_checks_at desired audit none = when true "mig.unknown" "MIG mode could not be determined" ∷ []
mode_checks_at desired audit (some mode) =
    if not (mode == desired.mig)
    then when true ("mig." <> mode)
        (if mode == "mixed" then "MIG mode is mixed across GPUs" else "MIG mode is " <> mode)
      ∷ []
    else if opt_eq audit.mig_mode_pending (some mode)
    then geometry_checks desired audit
    else []

unfoldable pub mode_checks : DesiredState → HostAudit → List Check
unfolding mode_checks_at
mode_checks desired audit = mode_checks_at desired audit audit.mig_mode

-- The checks of `diagnose`, in the order of the source.
unfoldable pub error_findings : DesiredState → HostAudit → List Finding
error_findings d a =
    collect (host_checks d a)
    ++ (collect (version_checks d a)
        ++ (collect (flavor_checks d a)
            ++ (collect (userspace_checks d a)
                ++ (collect (docker_checks d a)
                    ++ (collect (fabric_checks d a)
                        ++ (collect (fabric_version_checks d a)
                            ++ (collect (capability_checks d a) ++ collect (mode_checks d a))))))))

abbrev pub healthy : Finding
healthy = record {
  id = "stack.healthy";
  severity = info;
  summary = "NVIDIA stack matches observed desired-state checks";
}

-- `if not findings: findings.append(healthy)`
unfoldable pub or_healthy : List Finding → List Finding
or_healthy [] = healthy ∷ []
or_healthy (f ∷ fs) = f ∷ fs

unfoldable pub diagnose : DesiredState → HostAudit → List Finding
unfolding error_findings or_healthy
diagnose d a = or_healthy (error_findings d a)
