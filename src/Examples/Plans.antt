-- ===== src/Examples/Plans.antt =====
-- planner.py on the sample hosts.
use nvidia_converge.Common.{
  ◌≡◌, ◌⊎◌, ◌↔◌, ◌==◌, none, inr, refl, true, false, List, [], ◌∷◌, map, ok, any, all, contains,
  IsNodup, ◌<◌, ◌≤◌, ◌+◌, ◌%◌,
}
use nvidia_converge.Common.Decimal.{read_int, show_int}
use nvidia_converge.Models.{default_desired, PlanAction}
use nvidia_converge.Doctor.{diagnose}
use nvidia_converge.Planner.Policy.{is_refusal}
use nvidia_converge.Planner.Packages.{package_install_targets, next_driver_branch}
use nvidia_converge.Planner.MigPlan.{
  mig_reconciliation_actions, mig_actions, disable_mig, mig_refusal, is_mode,
}
use nvidia_converge.Planner.Plan.{build_plan, is_unresolved, verify_action}
use nvidia_converge.Planner.PolicyShape.{IsRefused, IsConvergent}
use nvidia_converge.Planner.Shape.{build_plan-shape, build_plan-unresolved}
use nvidia_converge.Planner.Order.{InstallOrder, build_plan-install}
use nvidia_converge.Planner.Installs.{installs}
use nvidia_converge.Planner.MigSafety.{Qualified, changes_mig, build_plan-Qualified}
use nvidia_converge.Planner.MigAgreement.{reconciliation-mig_actions, reconciliation-Qualified}
use nvidia_converge.Planner.Branch.{next_driver_branch_bounds}
use nvidia_converge.Planner.Targets.{IsLacking, package_install_targets-IsLacking}
use nvidia_converge.Examples.Program.{planner_program}
use nvidia_converge.Examples.Hosts.{bare_host, unsupported_host, half_host, planned}

-- The plans for the sample hosts, at what the doctor reports on them.
abbrev bare_plan : List PlanAction
bare_plan = planned (build_plan default_desired bare_host (diagnose default_desired bare_host))

abbrev half_plan : List PlanAction
half_plan = planned (build_plan default_desired half_host (diagnose default_desired half_host))

bare-ids :
    map (λ x. x.id) bare_plan
    ≡ "snapshot.current-state" ∷ "install.packages" ∷ "prepare.module" ∷ "verify.stack" ∷ []
unfolding planner_program
bare-ids = refl

half-actions : half_plan ≡ disable_mig half_host ∷ verify_action ∷ []
unfolding planner_program
half-actions = refl

bare-planned :
    build_plan default_desired bare_host (diagnose default_desired bare_host) ≡ ok bare_plan
unfolding planner_program
bare-planned = refl

bare-installs : any installs bare_plan ≡ true
unfolding planner_program
bare-installs = refl

half-planned :
    build_plan default_desired half_host (diagnose default_desired half_host) ≡ ok half_plan
unfolding planner_program
half-planned = refl

half-changes : any changes_mig half_plan ≡ true
unfolding planner_program
half-changes = refl

build_plan-shape_example : IsRefused bare_plan ⊎ IsConvergent bare_plan
build_plan-shape_example =
    build_plan-shape default_desired bare_host (diagnose default_desired bare_host) bare_plan
      bare-planned

build_plan-install_example : InstallOrder default_desired bare_host bare_plan
build_plan-install_example =
    build_plan-install default_desired bare_host (diagnose default_desired bare_host) bare_plan
      bare-planned bare-installs

unsupported-unresolved :
    any (is_unresolved unsupported_host) (diagnose default_desired unsupported_host) ≡ true
unfolding planner_program
unsupported-unresolved = refl

build_plan-unresolved_example :
    (action : PlanAction) × (build_plan default_desired unsupported_host
        (diagnose default_desired unsupported_host)
      ≡ ok (action ∷ []))
    × (action.commands ≡ [])
build_plan-unresolved_example =
    build_plan-unresolved default_desired unsupported_host
      (diagnose default_desired unsupported_host) unsupported-unresolved

build_plan-Qualified_example : Qualified half_host
build_plan-Qualified_example =
    build_plan-Qualified default_desired half_host (diagnose default_desired half_host) half_plan
      half-planned half-changes

half-reconciliation : all is_refusal (mig_reconciliation_actions default_desired half_host) ≡ false
unfolding planner_program
half-reconciliation = refl

reconciliation-Qualified_example : Qualified half_host
reconciliation-Qualified_example =
    reconciliation-Qualified default_desired half_host half-reconciliation

half-admitted : mig_refusal default_desired half_host ≡ none
unfolding planner_program
half-admitted = refl

half-mode : is_mode half_host.mig_mode ≡ true
unfolding planner_program
half-mode = refl

reconciliation-mig_actions_example :
    mig_reconciliation_actions default_desired half_host ≡ mig_actions default_desired half_host
reconciliation-mig_actions_example =
    reconciliation-mig_actions default_desired half_host (inr refl) half-mode refl half-admitted

branch-580 : next_driver_branch "580" ≡ ok "590"
unfolding next_driver_branch ◌==◌ read_int show_int
branch-580 = refl

next_driver_branch_bounds_example :
    (read_int "580" < read_int "590")
    × (read_int "590" ≤ read_int "580" + 10)
    × (read_int "590" % 10 ≡ 0)
next_driver_branch_bounds_example = next_driver_branch_bounds "580" "590" branch-580

package_install_targets-IsLacking_example :
    IsNodup (package_install_targets default_desired bare_host)
    × ((contains (package_install_targets default_desired bare_host) "nvidia-open" ≡ true)
        ↔ IsLacking default_desired bare_host "nvidia-open")
package_install_targets-IsLacking_example =
    package_install_targets-IsLacking default_desired bare_host "nvidia-open"
