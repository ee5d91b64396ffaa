-- ===== src/Planner/Plan.antt =====
-- planner.py: `build_plan`.
use nvidia_converge.Common.{
  String, Bool, false, not, ◌&&◌, ◌||◌, Option, none, some, List, [], ◌∷◌, ◌++◌, ◌==◌, Result, ok,
  ◌>>=◌, is_none, is_false, is_empty, opt_eq, contains, any, if◌then◌else◌,
}
use nvidia_converge.Models.{DesiredState, HostAudit, Finding, PlanAction, is_error}
use nvidia_converge.Mig.{mig_geometry_destroy_commands}
use nvidia_converge.Planner.Recipe.{package_recipe_error, module_reload_required}
use nvidia_converge.Planner.Packages.{
  driver_package_name, package_install_targets, package_install_commands,
  package_policy_staging_required,
}
use nvidia_converge.Planner.Policy.{unsupported, destructive_action, is_refusal, lock_actions}
use nvidia_converge.Planner.MigPlan.{first_uuid, mig_refusal, reset_refusal, mig_actions}
use nvidia_converge.Planner.Docker.{docker_actions}

-- `_PACKAGE_REMEDIABLE_FINDINGS`
abbrev pub package_remediable_findings : List String
package_remediable_findings =
    "compiler.missing" ∷ "container-toolkit.missing" ∷ "cuda-compat.library-missing"
    ∷ "cuda-compat.library-unknown" ∷ "cuda-compat.library-unusable" ∷ "cuda-compat.package-missing"
    ∷ "docker.missing" ∷ "driver.closed-module" ∷ "driver.installed-version-unknown"
    ∷ "driver.installed-closed-module" ∷ "driver.installed-open-module"
    ∷ "driver.installed-module-flavor-unknown" ∷ "driver.loaded-version-unknown"
    ∷ "driver.module-flavor-unknown" ∷ "driver.module-flavor-mismatch"
    ∷ "driver.module-version-mismatch" ∷ "driver.open-module" ∷ "driver.version-mismatch"
    ∷ "kernel.headers.missing" ∷ "module.not-loaded" ∷ "nvidia-smi.failed" ∷ "nvml.failed"
    ∷ "secure-boot.unsigned-module" ∷ "secure-boot.installed-module-unsigned" ∷ []

-- `_AUTOMATICALLY_REMEDIABLE_FINDINGS`
abbrev pub automatically_remediable_findings : List String
automatically_remediable_findings =
    package_remediable_findings
    ++ ("docker.nvidia-runtime-missing" ∷ "docker.service-disabled" ∷ "docker.service-inactive"
        ∷ "mig.disabled" ∷ "mig.enabled" ∷ "mig.geometry-mismatch" ∷ "mig.geometry-missing" ∷ [])

-- `_automatically_remediable`
unfoldable pub automatically_remediable : Finding → HostAudit → Bool
automatically_remediable finding audit =
    contains automatically_remediable_findings finding.id
    || finding.id == "docker.runtime-unknown" && is_false audit.docker_service_active

unfoldable pub is_unresolved : HostAudit → Finding → Bool
is_unresolved audit finding =
    is_error finding.severity && not (automatically_remediable finding audit)

-- `module_reset_required` of `build_plan`.
unfoldable pub module_reset_required : DesiredState → HostAudit → Bool
module_reset_required desired audit =
    audit.module_info.loaded
    && (contains (package_install_targets desired audit) (driver_package_name desired)
        || module_reload_required audit)

-- `policy_actions` of `build_plan`.
unfoldable pub policy_actions : DesiredState → HostAudit → Result (List PlanAction)
policy_actions desired audit =
    if desired.kernel_policy == "pin-compatible" then lock_actions desired audit else ok []

abbrev pub snapshot_action : PlanAction
snapshot_action = record {
  id = "snapshot.current-state";
  commands = ("nvidia-converge" ∷ "snapshot" ∷ "--apply" ∷ []) ∷ [];
  destructive = false;
}

abbrev pub verify_action : PlanAction
verify_action = destructive_action "verify.stack" (("nvidia-converge" ∷ "verify" ∷ []) ∷ [])

-- The snapshot, the policy and the packages; without packages, the policy alone.
unfoldable pub package_actions : Bool → List PlanAction → List (List String) → List PlanAction
package_actions needs_packages policy commands =
    if needs_packages
    then snapshot_action ∷ (policy ++ (destructive_action "install.packages" commands ∷ []))
    else policy

-- What is done around a module reset: teardown of the geometry, and the module itself.
unfoldable pub module_actions : HostAudit → Bool → List PlanAction
module_actions audit reset =
    (if reset && opt_eq audit.mig_mode (some "enabled") && not (is_empty audit.mig_geometry)
      then destructive_action "prepare.mig-geometry-teardown"
          (mig_geometry_destroy_commands (first_uuid audit.gpu_uuids))
        ∷ []
      else [])
    ++ (if not audit.module_info.loaded || reset
        then destructive_action "prepare.module" [] ∷ []
        else [])

-- MIG without a reset of the module, or its reconciliation after one.
unfoldable pub mig_phase : DesiredState → HostAudit → Bool → List PlanAction
mig_phase desired audit reset =
    if reset
    then destructive_action "reconcile.mig-after-module" [] ∷ []
    else mig_actions desired audit

-- The actions of a plan that is not refused.
unfoldable pub convergence_actions :
    DesiredState → HostAudit → List PlanAction → List (List String) → List PlanAction
convergence_actions desired audit policy commands =
    let reset = module_reset_required desired audit in
    package_actions (not (is_empty (package_install_targets desired audit))) policy commands
    ++ (module_actions audit reset
        ++ (mig_phase desired audit reset
            ++ (docker_actions desired audit ++ (verify_action ∷ []))))

-- The part of `build_plan` behind the preconditions: the package policy, then the actions.
unfoldable pub plan_with_policy :
    DesiredState → HostAudit → List PlanAction → Result (List PlanAction)
plan_with_policy desired audit policy =
    let targets = package_install_targets desired audit in
    if any is_refusal policy
    then ok policy
    else if not (is_empty targets)
        && not (is_empty policy)
        && package_policy_staging_required targets
    then ok (unsupported "unsupported.package-policy-staging" ∷ [])
    else if is_empty targets
    then ok (convergence_actions desired audit policy [])
    else do
      commands ← package_install_commands desired audit
      ok (convergence_actions desired audit policy commands)

-- The early returns of `build_plan`, in their order.
unfoldable pub plan_refusal : DesiredState → HostAudit → List Finding → Option PlanAction
plan_refusal desired audit findings =
    if is_none audit.package_manager
    then some (unsupported "unsupported.package-manager")
    else if not (is_none (package_recipe_error desired audit))
    then some (unsupported "unsupported.package-recipe")
    else elim (mig_refusal desired audit) [
      | some refusal ↦ some refusal
      | none ↦
          if any (is_unresolved audit) findings
          then some (unsupported "unsupported.precondition")
          else reset_refusal audit (module_reset_required desired audit)
    ]

-- `build_plan`
unfoldable pub build_plan : DesiredState → HostAudit → List Finding → Result (List PlanAction)
build_plan desired audit findings = elim (plan_refusal desired audit findings) [
  | some refusal ↦ ok (refusal ∷ [])
  | none ↦ policy_actions desired audit >>= plan_with_policy desired audit
]
