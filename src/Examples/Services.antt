-- ===== src/Examples/Services.antt =====
-- planner.py on a Docker service, and on a Zypper host.
use nvidia_converge.Common.{
  ◌≡◌, arith, refl, ◌||◌, String, Bool, true, false, some, List, [], ◌∷◌, ok, ◌==◌, is_true,
  contains, if◌then◌else◌,
}
use nvidia_converge.Models.{HostAudit, default_desired, driver_major}
use nvidia_converge.Common.Decimal.{read_int, show_int}
use nvidia_converge.Planner.Recipe.{suse_kernel_devel}
use nvidia_converge.Planner.Docker.{docker_actions}
use nvidia_converge.Planner.Packages.{
  package_install_targets, package_install_operands, next_driver_branch, kernel_build_targets,
}
use nvidia_converge.Planner.DockerRun.{ServiceManager, run_actions, docker_actions-run}
use nvidia_converge.Planner.Operands.{bounded_in, package_install_operands-bounded}
use nvidia_converge.Examples.Program.{planner_program}
use nvidia_converge.Examples.Hosts.{compliant_host, bare_host}

pub record Service : Type 0 where
  pub running : Bool
  pub at_boot : Bool
  pub with_runtime : Bool

-- An effect that the planner's commands may have: that of the second word; the runtime is
-- configured while Docker is stopped.
abbrev effect : List String → Service → Service
effect (program ∷ verb ∷ operand ∷ rest) s =
    if verb == "enable"
    then (if operand == "--now"
        then record s { running = true; at_boot = true }
        else record s { at_boot = true })
    else if verb == "start"
    then record s { running = true }
    else if verb == "stop"
    then record s { running = false }
    else if verb == "runtime"
    then record s { with_runtime = if s.running then s.with_runtime else true }
    else s
effect _ s = s

configure-stopped :
    (s : Service) → s.running ≡ false → (if s.running then s.with_runtime else true) ≡ true
configure-stopped s stopped = ground arith

unfoldable service_manager : ServiceManager Service
unfolding ◌==◌
service_manager = record {
  run = effect;
  active = λ s. s.running;
  enabled = λ s. s.at_boot;
  configured = λ s. s.with_runtime;
  enable_enables = λ s. refl;
  enable_active = λ s. refl;
  enable_configured = λ s. refl;
  now_enables = λ s. refl;
  now_starts = λ s. refl;
  start_starts = λ s. refl;
  start_enabled = λ s. refl;
  start_configured = λ s. refl;
  stop_stops = λ s. refl;
  stop_enabled = λ s. refl;
  configure_configures = configure-stopped;
  configure_active = λ s. refl;
  configure_enabled = λ s. refl;
}

abbrev fresh_service : Service
fresh_service = record { running = true; at_boot = false; with_runtime = false }

abbrev fresh_host : HostAudit
fresh_host = record compliant_host {
  docker_service_enabled = some false;
  runtime = record {
    docker_installed = true;
    nvidia_container_runtime_installed = true;
    docker_gpus_usable = some false;
  };
}

docker_actions-run_example :
    (service_manager.active
        (run_actions service_manager (docker_actions default_desired fresh_host) fresh_service)
      ≡ true)
    × (service_manager.enabled
          (run_actions service_manager (docker_actions default_desired fresh_host) fresh_service)
        ≡ true)
    × ((is_true fresh_host.runtime.docker_gpus_usable
          || service_manager.configured (
              run_actions service_manager
                (docker_actions default_desired fresh_host)
                fresh_service))
        ≡ true)
unfolding service_manager
docker_actions-run_example =
    docker_actions-run service_manager default_desired fresh_host fresh_service refl refl refl

-- A SUSE host without a driver and without headers.
abbrev suse_host : HostAudit
suse_host = record bare_host {
  os_id = some "sles";
  os_version = some "15.6";
  package_manager = some "zypper";
  kernel = record {
    running = "6.4.0-150600.21-default";
    headers_installed = false;
    compiler = some "gcc 7";
    secure_boot_enabled = some true;
  };
}

abbrev suse_operands : List String
suse_operands = "nvidia-open>=580" ∷ "nvidia-open<590" ∷ "kernel-default-devel=6.4.0-150600.21" ∷ []

suse-operands : package_install_operands default_desired suse_host ≡ ok suse_operands
unfolding planner_program kernel_build_targets suse_kernel_devel driver_major read_int show_int
suse-operands = refl

suse-target : contains (package_install_targets default_desired suse_host) "nvidia-open" ≡ true
unfolding planner_program kernel_build_targets suse_kernel_devel
suse-target = refl

package_install_operands-bounded_example :
    (upper_bound : String) × (next_driver_branch (driver_major default_desired) ≡ ok upper_bound)
    × (bounded_in suse_operands (driver_major default_desired) upper_bound "nvidia-open" ≡ true)
package_install_operands-bounded_example =
    package_install_operands-bounded default_desired suse_host suse_operands "nvidia-open" refl
      suse-operands suse-target
