-- ===== src/Planner/DockerRun.antt =====
-- planner.py: what the Docker actions of a plan do, for a service manager with the documented
-- effects of the commands.
use nvidia_converge.Common.{
  ◌≡◌, ◌∙◌, ==_iff, String, Bool, true, false, ◌||◌, some, List, [], ◌∷◌, arith, is_true,
}
use nvidia_converge.Models.{DesiredState, HostAudit, PlanAction}
use nvidia_converge.Planner.Docker.{docker_actions}

abbrev pub enable_command : List String
enable_command = "systemctl" ∷ "enable" ∷ "docker.service" ∷ []

abbrev pub enable_now_command : List String
enable_now_command = "systemctl" ∷ "enable" ∷ "--now" ∷ "docker.service" ∷ []

abbrev pub start_command : List String
start_command = "systemctl" ∷ "start" ∷ "docker.service" ∷ []

abbrev pub stop_command : List String
stop_command = "systemctl" ∷ "stop" ∷ "docker.service" ∷ []

abbrev pub configure_command : List String
configure_command = "nvidia-ctk" ∷ "runtime" ∷ "configure" ∷ "--runtime=docker" ∷ []

-- systemctl and nvidia-ctk on the Docker service, as far as the plan relies on them. The runtime is
-- configured only while the service is stopped.
pub record ServiceManager (S : Type 0) : Type 0 where
  pub run : List String → S → S
  pub active : S → Bool
  pub enabled : S → Bool
  pub configured : S → Bool
  pub enable_enables : (s : S) → enabled (run enable_command s) ≡ true
  pub enable_active : (s : S) → active (run enable_command s) ≡ active s
  pub enable_configured : (s : S) → configured (run enable_command s) ≡ configured s
  pub now_enables : (s : S) → enabled (run enable_now_command s) ≡ true
  pub now_starts : (s : S) → active (run enable_now_command s) ≡ true
  pub start_starts : (s : S) → active (run start_command s) ≡ true
  pub start_enabled : (s : S) → enabled (run start_command s) ≡ enabled s
  pub start_configured : (s : S) → configured (run start_command s) ≡ configured s
  pub stop_stops : (s : S) → active (run stop_command s) ≡ false
  pub stop_enabled : (s : S) → enabled (run stop_command s) ≡ enabled s
  pub configure_configures :
      (s : S) → active s ≡ false → configured (run configure_command s) ≡ true
  pub configure_active : (s : S) → active (run configure_command s) ≡ active s
  pub configure_enabled : (s : S) → enabled (run configure_command s) ≡ enabled s

module _ {S : Type 0} (manager : ServiceManager S) where
  abbrev pub run_commands : List (List String) → S → S
  run_commands [] s = s
  run_commands (command ∷ commands) s = run_commands commands (manager.run command s)

  abbrev pub run_actions : List PlanAction → S → S
  run_actions [] s = s
  run_actions (action ∷ actions) s = run_actions actions (run_commands action.commands s)

  -- Configuring and starting, while the service is stopped.
  restart :
      (s : S)
      → manager.active s ≡ false
      → (manager.active (manager.run start_command (manager.run configure_command s)) ≡ true)
        × (manager.enabled (manager.run start_command (manager.run configure_command s))
            ≡ manager.enabled s)
        × (manager.configured (manager.run start_command (manager.run configure_command s)) ≡ true)
  restart s stopped = (
    manager.start_starts (manager.run configure_command s),
    manager.start_enabled (manager.run configure_command s) ∙ manager.configure_enabled s,
    manager.start_configured (manager.run configure_command s)
        ∙ manager.configure_configures s stopped,
  )

  -- From the observed state of a service that is asked for, the Docker actions of a plan leave it
  -- running and enabled, and, unless its use of GPUs was observed, the runtime configured, for any
  -- service manager that configures the runtime while the service is stopped.
  pub docker_actions-run :
      (d : DesiredState) (a : HostAudit) (s : S)
      → d.container_runtime ≡ "docker"
      → a.docker_service_active ≡ some (manager.active s)
      → a.docker_service_enabled ≡ some (manager.enabled s)
      → (manager.active (run_actions (docker_actions d a) s) ≡ true)
        × (manager.enabled (run_actions (docker_actions d a) s) ≡ true)
        × ((is_true a.runtime.docker_gpus_usable
              || manager.configured (run_actions (docker_actions d a) s))
            ≡ true)
  unfolding docker_actions
  docker_actions-run d a s docker active enabled = ground (
    arith,
    (==_iff d.container_runtime "docker").1 docker,
    manager.enable_enables s,
    manager.enable_active s,
    manager.now_enables s,
    manager.now_starts s,
    manager.start_starts s,
    manager.start_enabled s,
    manager.stop_enabled s,
    manager.stop_enabled (manager.run enable_command s),
    restart s,
    restart (manager.run stop_command s) (manager.stop_stops s),
    restart (manager.run enable_command s),
    restart (manager.run stop_command (manager.run enable_command s))
        (manager.stop_stops (manager.run enable_command s)),
  )
