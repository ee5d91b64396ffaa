-- ===== src/Doctor/Spec.antt =====
-- What a host has to show to comply with a desired state, independent of the order and the wording
-- of the checks of doctor.py.
use nvidia_converge.Common.{◌≡◌, ◌≢◌, ◌⊎◌, Bool, true, false, none, some, ◌==◌, is_empty, length}
use nvidia_converge.Models.{
  DesiredState, HostAudit, open_kernel_module, matches_driver_version, failed,
}
use nvidia_converge.Mig.{full_mig_geometry_matches}
use nvidia_converge.Doctor.Services.{fabric_manager_package_installed}

-- A requirement that holds only for some desired states.
abbrev pub When : Bool → Type 0 → Type 0
When true P = P
When false P = Unit

module _ (d : DesiredState) (a : HostAudit) where
  open a use {module_info as m, runtime as r}

  pub record HostReady : Type 0 where
    pub manager : a.package_manager ≢ none
    pub inventory : a.package_inventory_complete ≡ true
    pub headers : a.kernel.headers_installed ≡ true
    pub compiler : a.kernel.compiler ≢ none
    pub boot_known : a.kernel.secure_boot_enabled ≢ none
    pub boot_disabled :
        When (d.secure_boot == "disabled") (a.kernel.secure_boot_enabled ≡ some false)
    pub signed : When (d.secure_boot == "signed") (m.signed ≡ some true)
    pub installed_signed : When (d.secure_boot == "signed") (m.installed_signed ≡ some true)
    pub open_supported : When (open_kernel_module d) (a.open_kernel_module_supported ≡ some true)

  -- One version, of the desired branch or exact version, is loaded and on disk. An empty version
  -- text counts as observed.
  pub record VersionReady : Type 0 where
    pub loaded : m.loaded ≡ true
    pub known : m.version ≢ none
    pub same : m.installed_version ≡ m.version
    pub matches : (m.version ≡ some "") ⊎ (matches_driver_version d m.version ≡ true)

  pub record FlavorReady : Type 0 where
    pub loaded_flavor : m.open_module ≡ some (open_kernel_module d)
    pub disk_flavor : m.installed_open_module ≡ some (open_kernel_module d)

  pub record UserspaceReady : Type 0 where
    pub nvidia_smi : failed a.nvidia_smi ≡ false
    pub nvml : failed a.nvml ≡ false
    pub no_compat : d.cuda_compat ≡ "none"

  pub record DockerReady : Type 0 where
    pub installed : r.docker_installed ≡ true
    pub active : a.docker_service_active ≡ some true
    pub enabled : a.docker_service_enabled ≡ some true
    pub toolkit : r.nvidia_container_runtime_installed ≡ true
    pub usable : r.docker_gpus_usable ≡ some true

  pub record FabricReady : Type 0 where
    pub applicable : a.fabric_manager_applicable ≡ some true
    pub package_installed : fabric_manager_package_installed a ≡ true
    pub active : a.fabric_manager_active ≡ some true
    pub enabled : a.fabric_manager_enabled ≡ some true
    pub healthy : a.fabric_manager_healthy ≡ some true
    pub matches : matches_driver_version d a.fabric_manager_version ≡ true
    pub same : (m.version ≡ none) ⊎ (a.fabric_manager_version ≡ m.version)

  -- The current and the pending mode are the desired one, and the geometry is what the mode needs.
  pub record MigReady : Type 0 where
    pub mode : a.mig_mode ≡ some d.mig
    pub pending : a.mig_mode_pending ≡ some d.mig
    pub complete : a.mig_geometry_complete ≡ true
    pub capable : When (d.mig == "enabled") (a.mig_capable ≡ some true)
    pub full :
        When (d.mig == "enabled") (full_mig_geometry_matches a.mig_geometry a.gpu_uuids ≡ true)
    pub one_device : When (d.mig == "enabled") (length a.mig_device_uuids ≡ 1)
    pub no_instances : When (d.mig == "disabled") (is_empty a.mig_geometry ≡ true)
    pub no_devices : When (d.mig == "disabled") (is_empty a.mig_device_uuids ≡ true)

  pub record Compliant : Type 0 where
    pub host : HostReady
    pub version : VersionReady
    pub flavor : FlavorReady
    pub userspace : UserspaceReady
    pub docker : When (d.container_runtime == "docker") DockerReady
    pub fabric : When d.fabric_manager FabricReady
    pub mig : MigReady
