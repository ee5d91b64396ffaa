-- ===== src/Models/Host.antt =====
-- The observed host: the dataclasses of nvidia_converge/models.py from `CommandResult` to
-- `HostAudit`, with the fields that the doctor and the planner read.
use nvidia_converge.Common.{ℕ, zero, String, Bool, false, true, Option, some, List}

-- A Python `int`: a return code is negative after a signal.
pub data ℤ : Type 0 where
  pos : ℕ → ℤ
  negsuc : ℕ → ℤ

pub record CommandResult : Type 0 where
  pub command : List String
  pub returncode : Option ℤ
  pub skipped : Bool

-- `result.returncode != 0`
abbrev pub failed : CommandResult → Bool
failed r = elim r.returncode [ some (pos zero) ↦ false | _ ↦ true ]

pub record PackageInfo : Type 0 where
  pub name : String
  pub version : Option String
  pub manager : Option String
  pub installed : Bool
  pub architecture : Option String
  pub epoch : Option String

pub record KernelInfo : Type 0 where
  pub running : String
  pub headers_installed : Bool
  pub compiler : Option String
  pub secure_boot_enabled : Option Bool

pub record ModuleInfo : Type 0 where
  pub loaded : Bool
  pub version : Option String
  pub open_module : Option Bool
  pub signed : Option Bool
  pub installed_version : Option String
  pub installed_open_module : Option Bool
  pub installed_signed : Option Bool

pub record RuntimeInfo : Type 0 where
  pub docker_installed : Bool
  pub nvidia_container_runtime_installed : Bool
  pub docker_gpus_usable : Option Bool

pub record MigComputeInstance : Type 0 where
  pub profile : String
  pub profile_id : ℕ

pub record MigGpuInstance : Type 0 where
  pub gpu_uuid : String
  pub profile : String
  pub profile_id : ℕ
  pub placement_start : ℕ
  pub placement_size : ℕ
  pub compute_instances : List MigComputeInstance

pub record PackagePolicySelector : Type 0 where
  pub identifier : String
  pub name : String
  pub kind : String
  pub relation : Option String
  pub version : Option String
  pub repositories : List String

pub record PackagePolicyInfo : Type 0 where
  pub backend : Option String
  pub observable : Bool
  pub selectors : List PackagePolicySelector

pub record HostAudit : Type 0 where
  pub os_id : Option String
  pub os_version : Option String
  pub package_manager : Option String
  pub kernel : KernelInfo
  pub module_info : ModuleInfo
  pub runtime : RuntimeInfo
  pub packages : List PackageInfo
  pub nvidia_smi : CommandResult
  pub nvml : CommandResult
  pub fabric_manager_active : Option Bool
  pub mig_mode : Option String
  pub package_inventory_complete : Bool
  pub docker_service_active : Option Bool
  pub docker_service_enabled : Option Bool
  pub fabric_manager_enabled : Option Bool
  pub fabric_manager_version : Option String
  pub package_policy : PackagePolicyInfo
  pub open_kernel_module_supported : Option Bool
  pub mig_capable : Option Bool
  pub mig_mode_pending : Option String
  pub fabric_manager_applicable : Option Bool
  pub fabric_manager_healthy : Option Bool
  pub gpu_uuids : List String
  pub mig_geometry : List MigGpuInstance
  pub mig_device_uuids : List String
  pub mig_geometry_complete : Bool
