-- ===== src/Planner/Order.antt =====
-- planner.py: what stands in front of a package installation.
use nvidia_converge.Common.{
  ◌≡◌, refl, ◌∙◌, ap, inl, inr, String, true, false, List, [], ◌∷◌, ◌++◌, arith, ok, any,
  any-append, is_empty, ◌==◌,
}
use nvidia_converge.Models.{DesiredState, HostAudit, Finding, PlanAction}
use nvidia_converge.Planner.Packages.{package_install_targets, package_install_commands}
use nvidia_converge.Planner.Policy.{unsupported, destructive_action}
use nvidia_converge.Planner.Docker.{docker_actions}
use nvidia_converge.Planner.PolicyNames.{policy-avoids, refused-avoids}
use nvidia_converge.Planner.Plan.{
  module_actions, mig_phase, package_actions, convergence_actions, module_reset_required,
  policy_actions, build_plan, snapshot_action, verify_action,
}
use nvidia_converge.Planner.Shape.{
  Outcome, policy_refused, staging_refused, converges_idle, converges_installing, build_plan-cases,
}
use nvidia_converge.Planner.Installs.{
  installs, installs-Avoids, docker-installs, phase-installs, module-installs,
}
use mathlib.Core.List.{append_assoc}

-- Where the installation stands in a plan, and what it runs.
pub record InstallOrder (d : DesiredState) (a : HostAudit) (plan : List PlanAction) : Type 0 where
  pub policy : List PlanAction
  pub commands : List (List String)
  pub rest : List PlanAction
  pub chosen : policy_actions d a ≡ ok policy
  pub resolved : package_install_commands d a ≡ ok commands
  pub needed : is_empty (package_install_targets d a) ≡ false
  pub order :
      plan ≡ snapshot_action ∷ (policy ++ (destructive_action "install.packages" commands ∷ rest))
  pub once : any installs (policy ++ rest) ≡ false

-- What follows the package actions of a plan.
abbrev plan_tail : DesiredState → HostAudit → List PlanAction
plan_tail d a =
    module_actions a (module_reset_required d a)
    ++ (mig_phase d a (module_reset_required d a) ++ (docker_actions d a ++ (verify_action ∷ [])))

verify-installs : any installs (verify_action ∷ []) ≡ false
unfolding ◌==◌
verify-installs = refl

staging-installs : any installs (unsupported "unsupported.package-policy-staging" ∷ []) ≡ false
unfolding ◌==◌
staging-installs = refl

tail-installs : (d : DesiredState) (a : HostAudit) → any installs (plan_tail d a) ≡ false
tail-installs d a =
    simp (any-append, module-installs, phase-installs, docker-installs) verify-installs

installing :
    (d : DesiredState) (a : HostAudit) (policy : List PlanAction) (commands : List (List String))
    → is_empty (package_install_targets d a) ≡ false
    → convergence_actions d a policy commands
      ≡ snapshot_action
        ∷ (policy ++ (destructive_action "install.packages" commands ∷ plan_tail d a))
unfolding convergence_actions package_actions
installing d a policy commands needed = rw (needed, append_assoc)

idle :
    (d : DesiredState) (a : HostAudit) (policy : List PlanAction)
    → is_empty (package_install_targets d a) ≡ true
    → convergence_actions d a policy [] ≡ policy ++ plan_tail d a
unfolding convergence_actions package_actions
idle d a policy none_needed = rw none_needed

-- Nothing but the installation itself installs.
around-installs :
    (d : DesiredState) (a : HostAudit) (policy : List PlanAction)
    → policy_actions d a ≡ ok policy
    → any installs (policy ++ plan_tail d a) ≡ false
around-installs d a policy chosen =
    any-append installs policy (plan_tail d a)
    ∙ ground (
      arith,
      policy-avoids (λ id. id == "install.packages") installs-Avoids d a policy chosen,
      tail-installs d a,
    )

Outcome-InstallOrder :
    (d : DesiredState) (a : HostAudit) (policy plan : List PlanAction)
    → policy_actions d a ≡ ok policy
    → Outcome d a policy plan
    → any installs plan ≡ true
    → InstallOrder d a plan
Outcome-InstallOrder d a policy plan chosen (policy_refused r e) h = cc (
  ap (any installs) e,
  h,
  policy-avoids (λ id. id == "install.packages") installs-Avoids d a policy chosen,
)
Outcome-InstallOrder d a policy plan chosen (staging_refused r e) h =
    cc (ap (any installs) e, h, staging-installs)
Outcome-InstallOrder d a policy plan chosen (converges_idle r i e) h =
    cc (ap (any installs) (e ∙ idle d a policy i), h, around-installs d a policy chosen)
Outcome-InstallOrder d a policy plan chosen (converges_installing commands r needed resolved e) h =
    record {
      policy = policy;
      commands = commands;
      rest = plan_tail d a;
      chosen = chosen;
      resolved = resolved;
      needed = needed;
      order = e ∙ installing d a policy commands needed;
      once = around-installs d a policy chosen;
    }

-- In every plan that installs packages, the snapshot comes first, then the actions of the package
-- policy, then the one installation, which runs the commands of `package_install_commands`.
pub build_plan-install :
    (d : DesiredState) (a : HostAudit) (fs : List Finding) (plan : List PlanAction)
    → build_plan d a fs ≡ ok plan
    → any installs plan ≡ true
    → InstallOrder d a plan
build_plan-install d a fs plan h i = elim (build_plan-cases d a fs plan h) [
  | inl refused ↦
      cc (refused-avoids (λ id. id == "install.packages") installs-Avoids plan refused, i)
  | inr planned ↦ Outcome-InstallOrder d a planned.policy plan planned.chosen planned.outcome i
]
