-- ===== src/Examples/Hosts.antt =====
-- Sample hosts and geometries, as audit.py would observe them.
use nvidia_converge.Common.{String, true, false, none, some, List, [], ◌∷◌, Result, ok, value_error}
use nvidia_converge.Models.{
  DesiredState, default_desired, HostAudit, CommandResult, PackagePolicySelector, MigGpuInstance,
  pos, PlanAction,
}

abbrev pub uuid : String
uuid = "GPU-6f1d1ffa"

-- The whole GPU as one instance: profile 0 at placement 0.
abbrev pub whole_gpu : MigGpuInstance
whole_gpu = record {
  gpu_uuid = uuid;
  profile = "MIG 7g.80gb";
  profile_id = 0;
  placement_start = 0;
  placement_size = 8;
  compute_instances = record { profile = "7g.80gb"; profile_id = 0 } ∷ [];
}

-- Half of it.
abbrev pub half_gpu : MigGpuInstance
half_gpu = record {
  gpu_uuid = uuid;
  profile = "MIG 3g.40gb";
  profile_id = 9;
  placement_start = 4;
  placement_size = 4;
  compute_instances = record { profile = "MIG 3c.3g.40gb"; profile_id = 2 } ∷ [];
}

abbrev pub command : CommandResult
command = record { command = "nvidia-smi" ∷ []; returncode = some (pos 0); skipped = false }

abbrev pub pin_580 : PackagePolicySelector
pin_580 = record {
  identifier = "nvidia-driver-pinning-580";
  name = "nvidia-driver-pinning-580";
  kind = "package";
  relation = none;
  version = none;
  repositories = [];
}

-- An Ubuntu host that complies with the default desired state.
abbrev pub compliant_host : HostAudit
compliant_host = record {
  os_id = some "ubuntu";
  os_version = some "22.04";
  package_manager = some "apt-get";
  kernel = record {
    running = "6.8.0-45-generic";
    headers_installed = true;
    compiler = some "gcc 12";
    secure_boot_enabled = some true;
  };
  module_info = record {
    loaded = true;
    version = some "580.82.07";
    open_module = some true;
    signed = some true;
    installed_version = some "580.82.07";
    installed_open_module = some true;
    installed_signed = some true;
  };
  runtime = record {
    docker_installed = true;
    nvidia_container_runtime_installed = true;
    docker_gpus_usable = some true;
  };
  packages = [];
  nvidia_smi = command;
  nvml = command;
  fabric_manager_active = none;
  mig_mode = some "disabled";
  package_inventory_complete = true;
  docker_service_active = some true;
  docker_service_enabled = some true;
  fabric_manager_enabled = none;
  fabric_manager_version = none;
  package_policy = record { backend = some "apt-get"; observable = true; selectors = pin_580 ∷ [] };
  open_kernel_module_supported = some true;
  mig_capable = some true;
  mig_mode_pending = some "disabled";
  fabric_manager_applicable = none;
  fabric_manager_healthy = none;
  gpu_uuids = uuid ∷ [];
  mig_geometry = [];
  mig_device_uuids = [];
  mig_geometry_complete = true;
}

-- The same host before a driver is installed.
abbrev pub bare_host : HostAudit
bare_host = record compliant_host {
  module_info = record {
    loaded = false;
    version = none;
    open_module = none;
    signed = none;
    installed_version = none;
    installed_open_module = none;
    installed_signed = none;
  };
}

-- The same host with MIG enabled, and half of the GPU in an instance.
abbrev pub half_host : HostAudit
half_host = record compliant_host {
  mig_mode = some "enabled";
  mig_mode_pending = some "enabled";
  mig_geometry = half_gpu ∷ [];
}

-- A host of which no GPU was found to support the open kernel module.
abbrev pub unsupported_host : HostAudit
unsupported_host = record compliant_host { open_kernel_module_supported = some false }

abbrev pub desired_mig : DesiredState
desired_mig = record default_desired { mig = "enabled"; mig_profile = "full" }

abbrev pub planned : Result (List PlanAction) → List PlanAction
planned (ok plan) = plan
planned value_error = []
