-- ===== src/Planner/MigSafety.antt =====
-- planner.py: MIG is changed only on one GPU whose geometry can be restored.
use nvidia_converge.Common.{
  ◌≡◌, refl, sym, ◌∙◌, ap, inl, inr, String, Bool, true, false, ◌&&◌, ◌||◌, none, some, List, [],
  ◌∷◌, arith, ok, any, any-append, contains, ◌==◌, ==_iff, Bool-cases, opt_eq, length, starts_with,
  opt_eq_iff,
}
use nvidia_converge.Models.{DesiredState, HostAudit, Finding, PlanAction}
use nvidia_converge.Mig.{restorable_mig_geometry}
use nvidia_converge.Planner.Policy.{unsupported, destructive_action}
use nvidia_converge.Planner.PolicyNames.{Avoids, policy-avoids, refused-avoids}
use nvidia_converge.Planner.Docker.{docker_actions}
use nvidia_converge.Planner.MigPlan.{
  mig_actions, disable_mig, enable_mig, configure_mig_geometry, mig_refusal, reset_refusal,
  mig_change_required, mode_change_required,
}
use nvidia_converge.Planner.Shape.{
  Outcome, policy_refused, staging_refused, converges_idle, converges_installing, build_plan-cases,
}
use nvidia_converge.Planner.Plan.{
  module_actions, mig_phase, package_actions, convergence_actions, module_reset_required,
  build_plan, plan_refusal, verify_action, snapshot_action,
}

-- The actions that run MIG commands.
abbrev mig_names : List String
mig_names =
    "disable.mig" ∷ "enable.mig" ∷ "configure.mig-geometry" ∷ "prepare.mig-geometry-teardown" ∷ []

abbrev pub changes_mig : PlanAction → Bool
changes_mig action = contains mig_names action.id

-- One GPU, completely observed, with a geometry that rollback can restore.
pub record Qualified (a : HostAudit) : Type 0 where
  pub one_gpu : length a.gpu_uuids ≡ 1
  pub complete : a.mig_geometry_complete ≡ true
  pub restorable : restorable_mig_geometry a.mig_geometry a.gpu_uuids ≡ true

change-Qualified :
    (d : DesiredState) (a : HostAudit)
    → mig_refusal d a ≡ none
    → mig_change_required d a ≡ true
    → Qualified a
unfolding mig_refusal
change-Qualified d a accepted change = ground arith

reset-Qualified :
    (a : HostAudit) (reset : Bool)
    → reset_refusal a reset ≡ none
    → (reset && opt_eq a.mig_mode (some "enabled")) ≡ true
    → Qualified a
unfolding reset_refusal
reset-Qualified a reset accepted enabled = ground arith

-- The two modes are different texts.
pub disabled_differs : (x : String) → x ≡ "disabled" → (x == "enabled") ≡ false
unfolding ◌==◌
disabled_differs x e = rw e refl

pub enabled_differs : (x : String) → x ≡ "enabled" → (x == "disabled") ≡ false
unfolding ◌==◌
enabled_differs x e = rw e refl

mig_actions-change :
    (d : DesiredState) (a : HostAudit)
    → any changes_mig (mig_actions d a) ≡ true
    → mig_change_required d a ≡ true
unfolding mig_actions disable_mig enable_mig configure_mig_geometry mode_change_required
mig_actions-change d a h = ground (
  arith,
  ==_iff d.mig "enabled",
  ==_iff d.mig "disabled",
  opt_eq_iff a.mig_mode (some "enabled"),
  opt_eq_iff a.mig_mode (some "disabled"),
  opt_eq_iff a.mig_mode (some d.mig),
  disabled_differs d.mig,
  enabled_differs d.mig,
)

module_actions-enabled :
    (a : HostAudit) (reset : Bool)
    → any changes_mig (module_actions a reset) ≡ true
    → (reset && opt_eq a.mig_mode (some "enabled")) ≡ true
unfolding module_actions ◌==◌
module_actions-enabled a reset h = ground arith

docker-changes : (d : DesiredState) (a : HostAudit) → any changes_mig (docker_actions d a) ≡ false
unfolding docker_actions ◌==◌
docker-changes d a = ground arith

mig_names-refused :
    (id : String) → starts_with id "unsupported." ≡ true → contains mig_names id ≡ false
mig_names-refused id h = ground (
  arith,
  not_named "disable.mig" refl,
  not_named "enable.mig" refl,
  not_named "configure.mig-geometry" refl,
  not_named "prepare.mig-geometry-teardown" refl,
)
  where
    not_named : (name : String) → starts_with name "unsupported." ≡ false → (name == id) ≡ false
    not_named name other = elim (Bool-cases (name == id)) [
      | inl same ↦ cc (ap (λ s. starts_with s "unsupported.") ((==_iff name id).0 same), h, other)
      | inr differs ↦ differs
    ]

mig_names-Avoids : Avoids (contains mig_names)
unfolding ◌==◌
mig_names-Avoids = record { apt = refl; rpm = refl; zypper = refl; refused = mig_names-refused }

plain-changes : any changes_mig (snapshot_action ∷ verify_action ∷ []) ≡ false
unfolding ◌==◌
plain-changes = refl

verify-changes : any changes_mig (verify_action ∷ []) ≡ false
unfolding ◌==◌
verify-changes = refl

staging-changes : any changes_mig (unsupported "unsupported.package-policy-staging" ∷ []) ≡ false
unfolding ◌==◌
staging-changes = refl

install-changes :
    (commands : List (List String))
    → any changes_mig (destructive_action "install.packages" commands ∷ []) ≡ false
unfolding ◌==◌
install-changes commands = refl

package-changes :
    (needed : Bool) (policy : List PlanAction) (commands : List (List String))
    → any changes_mig policy ≡ false
    → any changes_mig (package_actions needed policy commands) ≡ false
unfolding package_actions
package-changes true policy commands h = ground (
  arith,
  plain-changes,
  any-append changes_mig policy (destructive_action "install.packages" commands ∷ []),
  install-changes commands,
)
package-changes false policy commands h = h

-- The reset decides which of the two parts of a plan touches MIG.
phase-change :
    (d : DesiredState) (a : HostAudit) (reset : Bool)
    → any changes_mig (mig_phase d a reset) ≡ true
    → mig_change_required d a ≡ true
unfolding mig_phase ◌==◌
phase-change d a true h = cc
phase-change d a false h = mig_actions-change d a h

convergence-changes :
    (d : DesiredState) (a : HostAudit) (policy : List PlanAction) (commands : List (List String))
    → any changes_mig policy ≡ false
    → any changes_mig (convergence_actions d a policy commands) ≡ true
    → (any changes_mig (module_actions a (module_reset_required d a))
        || any changes_mig (mig_phase d a (module_reset_required d a)))
      ≡ true
unfolding convergence_actions
convergence-changes d a policy commands quiet h = ground (
  arith,
  verify-changes,
  simp (any-append, package-changes _ policy commands quiet, docker-changes) at h,
)

admitted-refusals :
    (d : DesiredState) (a : HostAudit) (fs : List Finding)
    → plan_refusal d a fs ≡ none
    → (mig_refusal d a ≡ none) × (reset_refusal a (module_reset_required d a) ≡ none)
unfolding plan_refusal
admitted-refusals d a fs h = ground arith

convergence-Qualified :
    (d : DesiredState) (a : HostAudit) (fs : List Finding) (policy : List PlanAction)
    (commands : List (List String))
    → plan_refusal d a fs ≡ none
    → any changes_mig policy ≡ false
    → any changes_mig (convergence_actions d a policy commands) ≡ true
    → Qualified a
convergence-Qualified d a fs policy commands admitted quiet h =
    let (mig, reset) = admitted-refusals d a fs admitted in
    elim (Bool-cases (any changes_mig (module_actions a (module_reset_required d a)))) [
      | inl around ↦
          reset-Qualified a (module_reset_required d a) reset
            (module_actions-enabled a (module_reset_required d a) around)
      | inr none_around ↦ change-Qualified d a mig (
          phase-change d a (module_reset_required d a)
            (ground (arith, convergence-changes d a policy commands quiet h)))
    ]

-- A plan with an action that disables, enables, configures or tears down MIG is for a host with
-- exactly one GPU, whose geometry is completely observed and can be restored.
pub build_plan-Qualified :
    (d : DesiredState) (a : HostAudit) (fs : List Finding) (plan : List PlanAction)
    → build_plan d a fs ≡ ok plan
    → any changes_mig plan ≡ true
    → Qualified a
build_plan-Qualified d a fs plan h changes = elim (build_plan-cases d a fs plan h) [
  | inl refused ↦ cc (refused-avoids (contains mig_names) mig_names-Avoids plan refused, changes)
  | inr planned ↦
      Outcome-Qualified planned.policy planned.admitted
        (policy-avoids (contains mig_names) mig_names-Avoids d a planned.policy planned.chosen)
        planned.outcome
]
  where
    Outcome-Qualified :
        (policy : List PlanAction)
        → plan_refusal d a fs ≡ none
        → any changes_mig policy ≡ false
        → Outcome d a policy plan
        → Qualified a
    Outcome-Qualified policy admitted quiet (policy_refused r e) =
        cc (ap (any changes_mig) e, quiet, changes)
    Outcome-Qualified policy admitted quiet (staging_refused r e) =
        cc (ap (any changes_mig) e, staging-changes, changes)
    Outcome-Qualified policy admitted quiet (converges_idle r i e) =
        convergence-Qualified d a fs policy [] admitted quiet
          (sym (ap (any changes_mig) e) ∙ changes)
    Outcome-Qualified policy admitted quiet (converges_installing commands r n c e) =
        convergence-Qualified d a fs policy commands admitted quiet
          (sym (ap (any changes_mig) e) ∙ changes)
