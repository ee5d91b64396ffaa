-- ===== src/Planner/Settled.antt =====
-- planner.py: a host that complies is left alone, but for the verification.
use nvidia_converge.Common.{
  ◌≡◌, ◌≢◌, refl, ◌∙◌, ◌⊎◌, inl, inr, String, Bool, true, false, Option, none, some, List, [], ◌∷◌,
  arith, ok, ==_iff, opt_eq_iff, opt_eq, opt_bool_eq, ◌==◌, is_none, is_true, not, ◌||◌,
}
use nvidia_converge.Models.{
  DesiredState, HostAudit, Finding, PlanAction, matches_driver_version, open_kernel_module,
}
use nvidia_converge.Doctor.{diagnose}
use nvidia_converge.Doctor.Spec.{Compliant, DockerReady}
use nvidia_converge.Doctor.Compliance.{diagnose-healthy}
use nvidia_converge.Planner.Recipe.{package_recipe_error, module_reload_required, on_disk_ready}
use nvidia_converge.Config.{validate_desired}
use nvidia_converge.Config.Valid.{validate_desired-IsValid}
use nvidia_converge.Planner.Locked.{Locked, lock_actions-Locked}
use nvidia_converge.Planner.Policy.{lock_actions}
use nvidia_converge.Planner.Packages.{package_install_targets, drifted_components}
use nvidia_converge.Planner.Docker.{docker_actions}
use nvidia_converge.Planner.MigPlan.{
  mig_refusal, reset_refusal, mig_actions, mode_change_required, geometry_change_required,
}
use nvidia_converge.Planner.Plan.{
  is_unresolved, module_reset_required, policy_actions, package_actions, module_actions, mig_phase,
  convergence_actions, plan_with_policy, plan_refusal, build_plan, verify_action,
}

bool_self : (b : Option Bool) → opt_bool_eq b b ≡ true
bool_self b = ground arith

opt_eq_self : (m : Option String) → opt_eq m m ≡ true
opt_eq_self m = ground (arith, opt_eq_iff m m)

build_plan-accepted :
    (d : DesiredState) (a : HostAudit) (fs : List Finding) (policy : List PlanAction)
    → plan_refusal d a fs ≡ none
    → policy_actions d a ≡ ok policy
    → build_plan d a fs ≡ plan_with_policy d a policy
unfolding build_plan
build_plan-accepted d a fs policy accepted chosen = ground arith

-- Signed modules are asked for, or the signature of the installed module is not observed or that of
-- the loaded one.
abbrev pub SignatureAgrees : DesiredState → HostAudit → Type 0
SignatureAgrees d a =
    (d.secure_boot ≡ "signed")
    ⊎ ((a.module_info.installed_signed ≡ none)
        ⊎ (a.module_info.installed_signed ≡ a.module_info.signed))

module _ (d : DesiredState) (a : HostAudit) (c : Compliant d a)
    (docker : d.container_runtime ≡ "docker") (signature : SignatureAgrees d a)
    (mig : (d.mig ≡ "enabled") ⊎ (d.mig ≡ "disabled"))
    (versioned : a.module_info.version ≢ some "") where
  docker-ready : DockerReady d a
  docker-ready = ground (arith, c.docker, (==_iff d.container_runtime "docker").1 docker)

  matches : matches_driver_version d a.module_info.version ≡ true
  matches = ground (arith, c.version.matches)

  signed-disk : d.secure_boot ≡ "signed" → a.module_info.installed_signed ≡ some true
  signed-disk signed =
      ground (arith, c.host.installed_signed, (==_iff d.secure_boot "signed").1 signed)

  signed-loaded : d.secure_boot ≡ "signed" → a.module_info.signed ≡ some true
  signed-loaded signed = ground (arith, c.host.signed, (==_iff d.secure_boot "signed").1 signed)

  -- The signing that is required is there.
  disk_signed : not (d.secure_boot == "signed") || is_true a.module_info.installed_signed ≡ true
  disk_signed = ground (arith, c.host.installed_signed)

  -- The two observations of the signature give no reason to load the module again.
  signature_same :
      (is_none a.module_info.installed_signed
        || opt_bool_eq a.module_info.signed a.module_info.installed_signed)
      ≡ true
  signature_same = elim signature [
    | inl signed ↦ rw (signed-disk signed, signed-loaded signed) refl
    | inr (inl unseen) ↦ rw unseen refl
    | inr (inr same) ↦ ground (arith, same, bool_self a.module_info.signed)
  ]

  disk-ready : on_disk_ready d a ≡ true
  unfolding on_disk_ready
  disk-ready =
      rw
        (
          c.version.same,
          c.flavor.disk_flavor,
          disk_signed,
          matches,
          bool_self (some (open_kernel_module d)),
        )
        (ground arith)

  reload-none : module_reload_required a ≡ false
  unfolding module_reload_required
  reload-none =
      rw
        (
          c.version.same,
          c.flavor.loaded_flavor,
          c.flavor.disk_flavor,
          opt_eq_self a.module_info.version,
          bool_self (some (open_kernel_module d)),
        )
        (ground (arith, signature_same))

  drifted-nil : drifted_components d a ≡ []
  unfolding drifted_components
  drifted-nil = ground (
    arith, disk-ready, docker-ready.installed, docker-ready.toolkit, c.host.headers,
    c.host.compiler,
  )

  targets-nil : package_install_targets d a ≡ []
  unfolding package_install_targets
  targets-nil = rw drifted-nil

  reset-none : module_reset_required d a ≡ false
  unfolding module_reset_required
  reset-none = ground (arith, reload-none, targets-nil)

  mode_change-none : mode_change_required d a ≡ false
  unfolding mode_change_required
  mode_change-none = ground (arith, c.mig.mode, opt_eq_self (some d.mig))

  geometry_change-none : geometry_change_required d a ≡ false
  unfolding geometry_change_required
  geometry_change-none = ground (arith, c.mig.full)

  mode-definite : opt_eq a.mig_mode (some "mixed") ≡ false
  unfolding ◌==◌
  mode-definite = elim mig [ inl e ↦ rw (c.mig.mode, e) refl | inr e ↦ rw (c.mig.mode, e) refl ]

  mig_refusal-none : mig_refusal d a ≡ none
  unfolding mig_refusal
  mig_refusal-none = ground (arith, mode_change-none, geometry_change-none, mode-definite)

  reset_refusal-none : reset_refusal a (module_reset_required d a) ≡ none
  unfolding reset_refusal
  reset_refusal-none = ground (arith, reset-none)

  mig_actions-nil : mig_actions d a ≡ []
  unfolding mig_actions
  mig_actions-nil = ground (
    arith,
    geometry_change-none,
    c.mig.mode,
    ==_iff d.mig "disabled",
    ==_iff d.mig "enabled",
    opt_eq_iff a.mig_mode (some "enabled"),
    opt_eq_iff a.mig_mode (some "disabled"),
  )

  docker_actions-nil : docker_actions d a ≡ []
  unfolding docker_actions
  docker_actions-nil =
      ground (arith, docker-ready.usable, docker-ready.active, docker-ready.enabled)

  convergence-settled : convergence_actions d a [] [] ≡ verify_action ∷ []
  unfolding convergence_actions package_actions module_actions mig_phase
  convergence-settled =
      rw (reset-none, targets-nil, mig_actions-nil, docker_actions-nil, c.version.loaded) refl

  plan_refusal-none : package_recipe_error d a ≡ none → plan_refusal d a (diagnose d a) ≡ none
  unfolding plan_refusal is_unresolved
  plan_refusal-none recipe =
      rw (recipe, mig_refusal-none, reset_refusal-none, (diagnose-healthy d a).1 c)
        (ground (arith, c.host.manager))

  plan_with_policy-settled : plan_with_policy d a [] ≡ ok (verify_action ∷ [])
  unfolding plan_with_policy
  plan_with_policy-settled = rw (targets-nil, convergence-settled) refl

  build_plan-settled :
      package_recipe_error d a ≡ none
      → policy_actions d a ≡ ok []
      → build_plan d a (diagnose d a) ≡ ok (verify_action ∷ [])
  build_plan-settled recipe policy =
      build_plan-accepted d a (diagnose d a) [] (plan_refusal-none recipe) policy
      ∙ plan_with_policy-settled

pinned-nil :
    (d : DesiredState) (a : HostAudit) → lock_actions d a ≡ ok [] → policy_actions d a ≡ ok []
unfolding policy_actions
pinned-nil d a h = ground arith

-- A host that complies with a desired state that passes validation gets the verification of the
-- stack as its whole plan, under these conditions: either signed modules are asked for, or the
-- signature of the installed module is not observed, or it is that of the loaded module; the loaded
-- version is not the empty text; there is a package recipe; and the package policy is observable,
-- of the host's package manager, and the one that locking leaves.
pub build_plan-Compliant :
    (d : DesiredState) (a : HostAudit)
    → validate_desired d ≡ none
    → SignatureAgrees d a
    → Compliant d a
    → a.module_info.version ≢ some ""
    → package_recipe_error d a ≡ none
    → a.package_policy.backend ≡ a.package_manager
    → a.package_policy.observable ≡ true
    → Locked d a
    → build_plan d a (diagnose d a) ≡ ok (verify_action ∷ [])
build_plan-Compliant d a valid signature c versioned recipe backend observable locked =
    let v = validate_desired-IsValid d valid in
    build_plan-settled d a c v.runtime signature v.mode versioned recipe
      (pinned-nil d a (lock_actions-Locked d a recipe backend observable locked))
