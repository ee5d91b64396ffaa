-- ===== src/Doctor/Host.antt =====
-- doctor.py: package manager, build inputs, Secure Boot and open-module support (lines 9 to 59).
use nvidia_converge.Common.{not, ◌&&◌, List, [], ◌∷◌, ◌==◌, is_true, is_false, is_none}
use nvidia_converge.Models.{DesiredState, HostAudit, open_kernel_module}
use nvidia_converge.Doctor.Checks.{Check, when}

unfoldable pub host_checks : DesiredState → HostAudit → List Check
host_checks desired audit =
    when (is_none audit.package_manager) "package-manager.missing"
      "No supported package manager found"
    ∷ when (not audit.package_inventory_complete) "package-inventory.incomplete"
        "Installed package inventory is incomplete"
    ∷ when (not audit.kernel.headers_installed) "kernel.headers.missing"
        "Running-kernel headers are not ready"
    ∷ when (is_none audit.kernel.compiler) "compiler.missing" "No C compiler found"
    ∷ when (desired.secure_boot == "disabled" && is_true audit.kernel.secure_boot_enabled)
        "secure-boot.enabled" "Secure Boot is enabled"
    ∷ when (desired.secure_boot == "signed" && not (is_true audit.module_info.signed))
        "secure-boot.unsigned-module" "Desired policy requires a verified loaded NVIDIA module"
    ∷ when (desired.secure_boot == "signed" && not (is_true audit.module_info.installed_signed))
        "secure-boot.installed-module-unsigned"
        "Desired policy requires a signed on-disk NVIDIA module"
    ∷ when (is_none audit.kernel.secure_boot_enabled) "secure-boot.unknown"
        "Secure Boot state could not be determined"
    ∷ when (open_kernel_module desired && is_false audit.open_kernel_module_supported)
        "gpu.open-module-unsupported" "GPU hardware does not support the open kernel module"
    ∷ when (open_kernel_module desired && is_none audit.open_kernel_module_supported)
        "gpu.open-module-support-unknown" "Open kernel-module hardware support is unknown"
    ∷ []
