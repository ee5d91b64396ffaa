-- ===== src/Planner/Shape.antt =====
-- planner.py: a plan is a refusal that runs nothing, or ends with the verification of the stack.
use nvidia_converge.Common.{Result, value_error}
use nvidia_converge.Common.{
  ◌≡◌, refl, String, ◌⊎◌, inl, inr, Bool, true, false, not, ◌&&◌, Option, none, some, List, [], ◌∷◌,
  arith, ok, >>=-eq-ok, any, any-append, last?, last?-append_of_last, Bool-cases, Option-cases,
  is_empty,
}
use nvidia_converge.Models.{DesiredState, HostAudit, Finding, PlanAction}
use nvidia_converge.Planner.Policy.{unsupported, destructive_action, is_refusal}
use nvidia_converge.Planner.Packages.{
  package_install_targets, package_install_commands, package_policy_staging_required,
}
use mathlib.Core.Path.{subst, sym}
use nvidia_converge.Planner.Docker.{docker_actions}
use nvidia_converge.Planner.MigPlan.{
  mig_refusal, reset_refusal, mig_actions, disable_mig, enable_mig, configure_mig_geometry,
}
use nvidia_converge.Planner.Plan.{
  module_actions, mig_phase, module_reset_required, package_actions, convergence_actions,
  plan_with_policy, plan_refusal, policy_actions, build_plan, verify_action, is_unresolved,
}
use nvidia_converge.Planner.PolicyShape.{
  IsRefused, IsConvergent, is_refused, is_policy, on_ok, lock-is_policy,
}

docker-accepted : (d : DesiredState) (a : HostAudit) → any is_refusal (docker_actions d a) ≡ false
unfolding docker_actions
docker-accepted d a = ground arith

mig-accepted : (d : DesiredState) (a : HostAudit) → any is_refusal (mig_actions d a) ≡ false
unfolding mig_actions disable_mig enable_mig configure_mig_geometry
mig-accepted d a = ground arith

phase-accepted :
    (d : DesiredState) (a : HostAudit) (reset : Bool) → any is_refusal (mig_phase d a reset) ≡ false
unfolding mig_phase
phase-accepted d a reset = ground (arith, mig-accepted d a)

module-accepted : (a : HostAudit) (reset : Bool) → any is_refusal (module_actions a reset) ≡ false
unfolding module_actions
module-accepted a reset = ground arith

package-accepted :
    (needed : Bool) (policy : List PlanAction) (commands : List (List String))
    → any is_refusal policy ≡ false
    → any is_refusal (package_actions needed policy commands) ≡ false
unfolding package_actions
package-accepted true policy commands h =
    rw (any-append is_refusal policy (destructive_action "install.packages" commands ∷ []), h)
package-accepted false policy commands h = h

convergence-accepted :
    (d : DesiredState) (a : HostAudit) (policy : List PlanAction) (commands : List (List String))
    → any is_refusal policy ≡ false
    → any is_refusal (convergence_actions d a policy commands) ≡ false
unfolding convergence_actions
convergence-accepted d a policy commands h =
    simp (any-append, module-accepted, phase-accepted, docker-accepted, package-accepted)

convergence-verified :
    (d : DesiredState) (a : HostAudit) (policy : List PlanAction) (commands : List (List String))
    → last? (convergence_actions d a policy commands) ≡ some verify_action
unfolding convergence_actions
convergence-verified d a policy commands =
    last?-append_of_last (package_actions _ policy commands) _ (
      last?-append_of_last (module_actions a _) _ (
        last?-append_of_last (mig_phase d a _) _
          (last?-append_of_last (docker_actions d a) (verify_action ∷ []) refl)))

empty_of_test {ℓ} : {A : Type ℓ} (xs : List A) → is_empty xs ≡ true → xs ≡ []
empty_of_test [] h = refl
empty_of_test (x ∷ xs) h = cc

is_refused-IsRefused : (plan : List PlanAction) → is_refused plan ≡ true → IsRefused plan
is_refused-IsRefused (action ∷ []) h = record {
  action = action;
  alone = refl;
  refused = ground arith;
  idle = empty_of_test action.commands (ground arith);
}
is_refused-IsRefused [] h = cc
is_refused-IsRefused (x ∷ y ∷ zs) h = cc

-- The outcomes of `plan_with_policy`, with the actions as a function of the commands.
pub data Outcome (d : DesiredState) (a : HostAudit) (policy plan : List PlanAction) : Type 0 where
  policy_refused : any is_refusal policy ≡ true → plan ≡ policy → Outcome d a policy plan
  staging_refused :
      any is_refusal policy ≡ false
      → plan ≡ unsupported "unsupported.package-policy-staging" ∷ []
      → Outcome d a policy plan
  converges_idle :
      any is_refusal policy ≡ false
      → is_empty (package_install_targets d a) ≡ true
      → plan ≡ convergence_actions d a policy []
      → Outcome d a policy plan
  converges_installing :
      (commands : List (List String))
      → any is_refusal policy ≡ false
      → is_empty (package_install_targets d a) ≡ false
      → package_install_commands d a ≡ ok commands
      → plan ≡ convergence_actions d a policy commands
      → Outcome d a policy plan

pub plan_with_policy-Outcome :
    (d : DesiredState) (a : HostAudit) (policy plan : List PlanAction)
    → plan_with_policy d a policy ≡ ok plan
    → Outcome d a policy plan
unfolding plan_with_policy
plan_with_policy-Outcome d a policy plan e = elim (Bool-cases (any is_refusal policy)) [
  | inl refused ↦ policy_refused refused (ground arith)
  | inr accepted ↦ elim (Bool-cases staging) [
    | inl staged ↦ staging_refused accepted (ground arith)
    | inr direct ↦ elim (Bool-cases (is_empty (package_install_targets d a))) [
      | inl idle ↦ converges_idle accepted idle (ground arith)
      | inr needed ↦
          let (commands, found, done) =
            >>=-eq-ok (package_install_commands d a)
              (λ commands. ok (convergence_actions d a policy commands)) {b = plan}
              (ground arith) in
          converges_installing commands accepted needed found (ground arith)
    ]
  ]
]
  where
    staging : Bool
    staging =
        not (is_empty (package_install_targets d a))
        && not (is_empty policy)
        && package_policy_staging_required (package_install_targets d a)

convergence-IsConvergent :
    (d : DesiredState) (a : HostAudit) (policy : List PlanAction) (commands : List (List String))
    → any is_refusal policy ≡ false
    → IsConvergent (convergence_actions d a policy commands)
convergence-IsConvergent d a policy commands accepted = record {
  accepted = convergence-accepted d a policy commands accepted;
  verified = convergence-verified d a policy commands;
}

policy-plan :
    (d : DesiredState) (a : HostAudit) (policy plan : List PlanAction)
    → is_policy policy ≡ true
    → Outcome d a policy plan
    → IsRefused plan ⊎ IsConvergent plan
policy-plan d a policy plan h (policy_refused r e) =
    inl (rw e (is_refused-IsRefused policy (ground arith)))
policy-plan d a policy plan h (staging_refused r e) =
    inl (rw e (is_refused-IsRefused (unsupported "unsupported.package-policy-staging" ∷ []) refl))
policy-plan d a policy plan h (converges_idle accepted i e) =
    inr (subst IsConvergent (sym e) (convergence-IsConvergent d a policy [] accepted))
policy-plan d a policy plan h (converges_installing commands accepted n c e) =
    inr (subst IsConvergent (sym e) (convergence-IsConvergent d a policy commands accepted))

abbrev is_refusal? : Option PlanAction → Bool
is_refusal? none = true
is_refusal? (some action) = is_refusal action && is_empty action.commands

mig-refusal : (d : DesiredState) (a : HostAudit) → is_refusal? (mig_refusal d a) ≡ true
unfolding mig_refusal
mig-refusal d a = ground arith

reset-refusal : (a : HostAudit) (reset : Bool) → is_refusal? (reset_refusal a reset) ≡ true
unfolding reset_refusal
reset-refusal a reset = ground arith

plan-refusal :
    (d : DesiredState) (a : HostAudit) (fs : List Finding)
    → is_refusal? (plan_refusal d a fs) ≡ true
unfolding plan_refusal
plan-refusal d a fs = ground (arith, mig-refusal d a, reset-refusal a (module_reset_required d a))

policy_actions-is_policy :
    (d : DesiredState) (a : HostAudit) → on_ok is_policy (policy_actions d a) ≡ true
unfolding policy_actions
policy_actions-is_policy d a = ground (arith, lock-is_policy d a)

policy-tested :
    (r : Result (List PlanAction)) (policy : List PlanAction)
    → r ≡ ok policy
    → on_ok is_policy r ≡ true
    → is_policy policy ≡ true
policy-tested (ok p) policy e h = ground arith
policy-tested value_error policy e h = cc

-- A plan that was not refused early comes from a policy; the refusals before it are ruled out.
pub record Planned (d : DesiredState) (a : HostAudit) (fs : List Finding) (plan : List PlanAction)
    : Type 0 where
  pub policy : List PlanAction
  pub admitted : plan_refusal d a fs ≡ none
  pub chosen : policy_actions d a ≡ ok policy
  pub outcome : Outcome d a policy plan

pub build_plan-cases :
    (d : DesiredState) (a : HostAudit) (fs : List Finding) (plan : List PlanAction)
    → build_plan d a fs ≡ ok plan
    → IsRefused plan ⊎ Planned d a fs plan
unfolding build_plan
build_plan-cases d a fs plan h = elim (Option-cases (plan_refusal d a fs)) [
  | inl admitted ↦
      let (policy, chosen, done) =
        >>=-eq-ok (policy_actions d a) (plan_with_policy d a) {b = plan} (ground arith) in
      inr (record {
        policy = policy;
        admitted = admitted;
        chosen = chosen;
        outcome = plan_with_policy-Outcome d a policy plan done;
      })
  | inr (action, refused) ↦ inl (
      subst IsRefused {x = action ∷ []} (ground arith)
        (is_refused-IsRefused (action ∷ []) (ground (arith, plan-refusal d a fs))))
]

-- Whatever the host, the desired state and the findings, a plan is either a single refusal with no
-- commands, or holds no refusal and ends with the verification of the stack.
pub build_plan-shape :
    (d : DesiredState) (a : HostAudit) (fs : List Finding) (plan : List PlanAction)
    → build_plan d a fs ≡ ok plan
    → IsRefused plan ⊎ IsConvergent plan
build_plan-shape d a fs plan h = elim (build_plan-cases d a fs plan h) [
  | inl refused ↦ inl refused
  | inr planned ↦
      policy-plan d a planned.policy plan
        (policy-tested (policy_actions d a) planned.policy planned.chosen
          (policy_actions-is_policy d a))
        planned.outcome
]

pub plan_refusal-resolved :
    (d : DesiredState) (a : HostAudit) (fs : List Finding)
    → plan_refusal d a fs ≡ none
    → any (is_unresolved a) fs ≡ false
unfolding plan_refusal
plan_refusal-resolved d a fs h = ground arith

-- Where a finding is an error that the planner does not remedy, the plan is a single action without
-- commands.
pub build_plan-unresolved :
    (d : DesiredState) (a : HostAudit) (fs : List Finding)
    → any (is_unresolved a) fs ≡ true
    → (action : PlanAction) × (build_plan d a fs ≡ ok (action ∷ [])) × (action.commands ≡ [])
unfolding build_plan
build_plan-unresolved d a fs h = elim (Option-cases (plan_refusal d a fs)) [
  | inl accepted ↦ cc (plan_refusal-resolved d a fs accepted)
  | inr (action, refused) ↦
      (action, ground arith, empty_of_test action.commands (ground (arith, plan-refusal d a fs)))
]
