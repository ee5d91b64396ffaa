-- ===== src/Doctor/Drivers.antt =====
-- doctor.py: the loaded and the on-disk module, nvidia-smi, NVML and CUDA compatibility
-- (lines 60 to 137).
use nvidia_converge.Common.{not, ◌&&◌, List, [], ◌∷◌, ◌==◌, is_true, is_false, is_none, opt_bool_eq}
use nvidia_converge.Models.{
  DesiredState, HostAudit, open_kernel_module, matches_driver_version, failed,
}
use nvidia_converge.Doctor.Checks.{Check, when, is_nonempty, both_differ}

unfoldable pub version_checks : DesiredState → HostAudit → List Check
version_checks desired audit =
    when (not m.loaded) "module.not-loaded" "NVIDIA kernel module is not loaded"
    ∷ when (m.loaded && is_none m.version) "driver.loaded-version-unknown"
        "Loaded NVIDIA module version is unknown"
    ∷ when (m.loaded && is_none m.installed_version) "driver.installed-version-unknown"
        "On-disk NVIDIA module version is unknown"
    ∷ when (m.loaded && both_differ m.version m.installed_version) "driver.module-version-mismatch"
        "Loaded and on-disk NVIDIA modules differ"
    ∷ when (is_nonempty m.version && not (matches_driver_version desired m.version))
        "driver.version-mismatch" "Loaded NVIDIA module does not match desired driver"
    ∷ []
  where
    open audit use {module_info as m}

unfoldable pub flavor_checks : DesiredState → HostAudit → List Check
flavor_checks desired audit =
    let open_wanted = open_kernel_module desired in
    when (open_wanted && is_false m.open_module) "driver.closed-module"
      "Closed NVIDIA module detected"
    ∷ when (not open_wanted && is_true m.open_module) "driver.open-module"
        "Open NVIDIA module detected"
    ∷ when (open_wanted && is_none m.open_module) "driver.module-flavor-unknown"
        "Loaded NVIDIA module flavor could not be determined"
    ∷ when (not open_wanted && is_none m.open_module) "driver.module-flavor-unknown"
        "Loaded NVIDIA module flavor could not be determined"
    ∷ when (open_wanted && is_false m.installed_open_module) "driver.installed-closed-module"
        "Closed on-disk NVIDIA module detected"
    ∷ when (not open_wanted && is_true m.installed_open_module) "driver.installed-open-module"
        "Open on-disk NVIDIA module detected"
    ∷ when (open_wanted && is_none m.installed_open_module) "driver.installed-module-flavor-unknown"
        "On-disk NVIDIA module flavor could not be determined"
    ∷ when (not open_wanted && is_none m.installed_open_module)
        "driver.installed-module-flavor-unknown"
        "On-disk NVIDIA module flavor could not be determined"
    ∷ when
        (m.loaded
          && not (is_none m.open_module)
          && not (is_none m.installed_open_module)
          && not (opt_bool_eq m.open_module m.installed_open_module))
        "driver.module-flavor-mismatch" "Loaded and on-disk NVIDIA module flavors differ"
    ∷ []
  where
    open audit use {module_info as m}

unfoldable pub userspace_checks : DesiredState → HostAudit → List Check
userspace_checks desired audit =
    when (failed audit.nvidia_smi) "nvidia-smi.failed" "nvidia-smi failed"
    ∷ when (failed audit.nvml) "nvml.failed" "NVML library load failed"
    ∷ when (not (desired.cuda_compat == "none")) "cuda-compat.deployment-unmodeled"
        "CUDA forward-compatibility deployment is not modeled"
    ∷ []
