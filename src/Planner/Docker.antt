-- ===== src/Planner/Docker.antt =====
-- planner.py: `_docker_service_action` and the configuration of the Docker runtime.
use nvidia_converge.Common.{
  Bool, true, false, not, ◌&&◌, List, [], ◌∷◌, ◌++◌, ◌==◌, is_true, is_false, if◌then◌else◌,
}
use nvidia_converge.Models.{DesiredState, HostAudit, PlanAction}

abbrev enable_docker : List PlanAction
enable_docker =
    record {
      id = "service.docker";
      commands = ("systemctl" ∷ "enable" ∷ "docker.service" ∷ []) ∷ [];
      destructive = false;
    }
    ∷ []

-- `_docker_service_action`: no action, or one.
unfoldable pub docker_service_action : HostAudit → Bool → List PlanAction
docker_service_action audit defer_start =
    let active = audit.docker_service_active in
    let enabled = audit.docker_service_enabled in
    if defer_start
    then (if is_false enabled then enable_docker else [])
    else if is_false active && is_false enabled
    then record {
      id = "service.docker";
      commands = ("systemctl" ∷ "enable" ∷ "--now" ∷ "docker.service" ∷ []) ∷ [];
      destructive = true;
    }
      ∷ []
    else if is_false active
    then record {
      id = "service.docker";
      commands = ("systemctl" ∷ "start" ∷ "docker.service" ∷ []) ∷ [];
      destructive = true;
    }
      ∷ []
    else if is_false enabled
    then enable_docker
    else []

-- `runtime_configuration_required` of `build_plan`.
unfoldable pub runtime_configuration_required : DesiredState → HostAudit → Bool
runtime_configuration_required desired audit =
    desired.container_runtime == "docker" && not (is_true audit.runtime.docker_gpus_usable)

-- The Docker part of `build_plan`.
unfoldable pub docker_actions : DesiredState → HostAudit → List PlanAction
unfolding docker_service_action runtime_configuration_required
docker_actions desired audit =
    let required = runtime_configuration_required desired audit in
    (if desired.container_runtime == "docker" then docker_service_action audit required else [])
    ++ (if desired.container_runtime == "docker" && required
        then record {
          id = "configure.docker-runtime";
          commands =
              (if is_true audit.docker_service_active
                then ("systemctl" ∷ "stop" ∷ "docker.service" ∷ []) ∷ []
                else [])
              ++ (("nvidia-ctk" ∷ "runtime" ∷ "configure" ∷ "--runtime=docker" ∷ [])
                  ∷ ("systemctl" ∷ "start" ∷ "docker.service" ∷ [])
                  ∷ []);
          destructive = true;
        }
          ∷ []
        else [])
