-- ===== src/Examples/Program.antt =====
-- What a run of the doctor and of the planner goes through, for evaluation by `unfolding`.
use nvidia_converge.Common.{◌==◌}
use nvidia_converge.Common.Sorting.{sorted, insert_sorted}
use nvidia_converge.Models.{open_kernel_module, matches_driver_version}
use nvidia_converge.Doctor.{
  collect, host_checks, version_checks, flavor_checks, userspace_checks, docker_checks,
  fabric_checks, fabric_version_checks, capability_checks, mode_checks, diagnose,
}
use nvidia_converge.Planner.Packages.{
  package_install_commands, package_install_targets, package_policy_staging_required,
}
use nvidia_converge.Planner.Policy.{
  lock_actions, package_policy_error, apt_lock_actions, dnf_lock_actions, zypper_lock_actions,
}
use nvidia_converge.Planner.Recipe.{
  package_recipe_error, backend_recipe_error, module_reload_required,
}
use nvidia_converge.Planner.Docker.{docker_actions}
use nvidia_converge.Planner.MigPlan.{
  mig_actions, mig_refusal, reset_refusal, enable_mig, disable_mig, configure_mig_geometry,
  mode_change_required, geometry_change_required, mig_reconciliation_actions,
}
use nvidia_converge.Mig.{
  full_mig_geometry_matches, restorable_mig_geometry, desired_full_mig_geometry_command,
  mig_geometry_destroy_commands,
}
use nvidia_converge.Planner.Plan.{
  is_unresolved, automatically_remediable, module_reset_required, policy_actions, package_actions,
  module_actions, mig_phase, convergence_actions, plan_with_policy, plan_refusal, build_plan,
}

unfoldable pub doctor_program : Unit {0}
unfolding diagnose ◌==◌ collect host_checks open_kernel_module version_checks matches_driver_version
    flavor_checks userspace_checks docker_checks fabric_checks fabric_version_checks
    capability_checks mode_checks
doctor_program = tt

unfoldable pub planner_program : Unit {0}
unfolding doctor_program build_plan plan_refusal plan_with_policy convergence_actions policy_actions
    lock_actions package_policy_error apt_lock_actions dnf_lock_actions zypper_lock_actions sorted
    insert_sorted package_recipe_error backend_recipe_error module_reload_required mig_refusal
    reset_refusal is_unresolved automatically_remediable module_reset_required package_actions
    module_actions mig_phase mig_actions enable_mig disable_mig configure_mig_geometry
    mode_change_required geometry_change_required mig_reconciliation_actions docker_actions
    package_install_targets package_install_commands package_policy_staging_required
    full_mig_geometry_matches restorable_mig_geometry desired_full_mig_geometry_command
    mig_geometry_destroy_commands
planner_program = tt
