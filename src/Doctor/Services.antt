-- ===== src/Doctor/Services.antt =====
-- doctor.py: Docker and Fabric Manager (lines 138 to 223, and `_fabric_manager_package_installed`).
use nvidia_converge.Common.{
  Bool, not, ◌&&◌, ◌||◌, List, [], ◌∷◌, ◌==◌, is_false, is_none, any, starts_with,
}
use nvidia_converge.Models.{DesiredState, HostAudit, PackageInfo, matches_driver_version}
use nvidia_converge.Doctor.Checks.{Check, when, both_differ}

unfoldable pub docker_checks : DesiredState → HostAudit → List Check
docker_checks desired audit =
    let docker = desired.container_runtime == "docker" in
    when (docker && not r.docker_installed) "docker.missing" "Docker is not installed"
    ∷ when (docker && is_false audit.docker_service_active) "docker.service-inactive"
        "Docker service is inactive"
    ∷ when (docker && is_none audit.docker_service_active) "docker.service-state-unknown"
        "Docker service activity is unknown"
    ∷ when (docker && is_false audit.docker_service_enabled) "docker.service-disabled"
        "Docker service is not enabled at boot"
    ∷ when (docker && is_none audit.docker_service_enabled) "docker.service-enablement-unknown"
        "Docker boot enablement is unknown"
    ∷ when (docker && not r.nvidia_container_runtime_installed) "container-toolkit.missing"
        "NVIDIA container toolkit is missing"
    ∷ when (docker && is_false r.docker_gpus_usable) "docker.nvidia-runtime-missing"
        "Docker is not configured with the NVIDIA runtime"
    ∷ when (docker && r.docker_installed && is_none r.docker_gpus_usable) "docker.runtime-unknown"
        "Docker runtime state could not be determined"
    ∷ []
  where
    open audit use {runtime as r}

unfoldable pub is_fabric_manager_package : PackageInfo → Bool
is_fabric_manager_package pkg =
    pkg.installed
    && (pkg.name == "nvidia-fabricmanager"
        || pkg.name == "nvidia-fabric-manager"
        || starts_with pkg.name "nvidia-fabricmanager-"
        || starts_with pkg.name "nvidia-fabric-manager-")

-- `_fabric_manager_package_installed`
unfoldable pub fabric_manager_package_installed : HostAudit → Bool
unfolding is_fabric_manager_package
fabric_manager_package_installed audit = any is_fabric_manager_package audit.packages

unfoldable pub fabric_checks : DesiredState → HostAudit → List Check
fabric_checks desired audit =
    let fabric = desired.fabric_manager in
    when (fabric && is_false audit.fabric_manager_applicable) "fabric-manager.not-applicable"
      "Fabric Manager is not applicable to the observed topology"
    ∷ when (fabric && is_none audit.fabric_manager_applicable)
        "fabric-manager.applicability-unknown" "Fabric Manager topology could not be qualified"
    ∷ when (fabric && not (fabric_manager_package_installed audit)) "fabric-manager.missing"
        "NVIDIA Fabric Manager package is missing"
    ∷ when (fabric && is_false audit.fabric_manager_active) "fabric-manager.inactive"
        "NVIDIA Fabric Manager is inactive"
    ∷ when (fabric && is_none audit.fabric_manager_active) "fabric-manager.unknown"
        "Fabric Manager state could not be determined"
    ∷ when (fabric && is_false audit.fabric_manager_enabled) "fabric-manager.disabled"
        "NVIDIA Fabric Manager is not enabled at boot"
    ∷ when (fabric && is_none audit.fabric_manager_enabled) "fabric-manager.enablement-unknown"
        "Fabric Manager boot enablement is unknown"
    ∷ when (fabric && is_false audit.fabric_manager_healthy) "fabric-manager.fabric-unhealthy"
        "GPU Fabric registration is unhealthy"
    ∷ when (fabric && is_none audit.fabric_manager_healthy) "fabric-manager.fabric-health-unknown"
        "GPU Fabric registration health is unknown"
    ∷ []

-- The chain on the version, once the package is there.
unfoldable pub fabric_version_checks : DesiredState → HostAudit → List Check
fabric_version_checks desired audit =
    let versioned = desired.fabric_manager && fabric_manager_package_installed audit in
    let matched = matches_driver_version desired audit.fabric_manager_version in
    when (versioned && is_none audit.fabric_manager_version) "fabric-manager.version-unknown"
      "Fabric Manager version could not be determined"
    ∷ when (versioned && not (is_none audit.fabric_manager_version) && not matched)
        "fabric-manager.version-mismatch" "Fabric Manager does not match the desired driver"
    ∷ when
        (versioned && matched && both_differ audit.fabric_manager_version audit.module_info.version)
        "fabric-manager.version-mismatch" "Fabric Manager does not exactly match the loaded driver"
    ∷ []
