-- ===== src/Planner/PolicyNames.antt =====
-- planner.py: the names of the actions of a package policy, for any set of names that they avoid.
use nvidia_converge.Common.{
  ◌≡◌, refl, sym, String, Bool, true, false, not, List, [], ◌∷◌, arith, Result, ok, value_error,
  ◌>>=◌, any, starts_with,
}
use mathlib.Core.Path.{subst}
use nvidia_converge.Models.{
  DesiredState, HostAudit, PlanAction, PackagePolicySelector, driver_major,
}
use nvidia_converge.Planner.Packages.{next_driver_branch}
use nvidia_converge.Planner.Policy.{
  apt_lock_actions, dnf_lock_actions, zypper_lock_actions, zypper_lock_choice, lock_actions,
  nvidia_selectors,
}
use nvidia_converge.Planner.PolicyShape.{IsRefused}
use nvidia_converge.Planner.Plan.{policy_actions}

-- A set of names that holds no lock and no refusal.
pub record Avoids (names : String → Bool) : Type 0 where
  pub apt : names "lock.apt" ≡ false
  pub rpm : names "lock.rpm" ≡ false
  pub zypper : names "lock.zypper" ≡ false
  pub refused : (id : String) → starts_with id "unsupported." ≡ true → names id ≡ false

module _ (names : String → Bool) (avoids : Avoids names) where
  abbrev pub named : PlanAction → Bool
  named action = names action.id

  abbrev quiet : Result (List PlanAction) → Bool
  quiet (ok actions) = not (any named actions)
  quiet value_error = true

  policy-refused : names "unsupported.package-policy" ≡ false
  policy-refused = avoids.refused "unsupported.package-policy" refl

  apt-quiet : (d : DesiredState) (a : HostAudit) → any named (apt_lock_actions d a) ≡ false
  unfolding apt_lock_actions
  apt-quiet d a = ground (arith, avoids.apt, policy-refused)

  dnf-quiet : (d : DesiredState) (a : HostAudit) → quiet (dnf_lock_actions d a) ≡ true
  unfolding dnf_lock_actions
  dnf-quiet d a = ground (arith, avoids.rpm, policy-refused)

  choice-quiet :
      (upper_bound : String) (selectors : List PackagePolicySelector)
      → any named (zypper_lock_choice upper_bound selectors) ≡ false
  unfolding zypper_lock_choice
  choice-quiet u [] = ground (arith, avoids.zypper)
  choice-quiet u (s ∷ []) = ground (arith, policy-refused)
  choice-quiet u (s ∷ t ∷ ss) = ground (arith, policy-refused)

  bound-quiet :
      (selectors : List PackagePolicySelector) (m : Result String)
      → quiet (m >>= λ upper_bound. ok (zypper_lock_choice upper_bound selectors)) ≡ true
  bound-quiet selectors (ok upper_bound) = ground (arith, choice-quiet upper_bound selectors)
  bound-quiet selectors value_error = refl

  zypper-quiet : (d : DesiredState) (a : HostAudit) → quiet (zypper_lock_actions d a) ≡ true
  unfolding zypper_lock_actions
  zypper-quiet d a =
      bound-quiet (nvidia_selectors a.package_policy.selectors)
        (next_driver_branch (driver_major d))

  actions-quiet : (d : DesiredState) (a : HostAudit) → quiet (policy_actions d a) ≡ true
  unfolding policy_actions lock_actions
  actions-quiet d a = ground (
    arith,
    apt-quiet d a,
    dnf-quiet d a,
    zypper-quiet d a,
    policy-refused,
    avoids.refused "unsupported.package-recipe" refl,
  )

  quiet-ok :
      (r : Result (List PlanAction)) (policy : List PlanAction)
      → r ≡ ok policy
      → quiet r ≡ true
      → any named policy ≡ false
  quiet-ok (ok actions) policy e h = ground arith
  quiet-ok value_error policy e h = cc

  -- The policy of a plan has none of the names.
  pub policy-avoids :
      (d : DesiredState) (a : HostAudit) (policy : List PlanAction)
      → policy_actions d a ≡ ok policy
      → any named policy ≡ false
  policy-avoids d a policy e = quiet-ok (policy_actions d a) policy e (actions-quiet d a)

  -- Nor has a refused plan.
  pub refused-avoids : (plan : List PlanAction) → IsRefused plan → any named plan ≡ false
  refused-avoids plan r =
      subst (λ p. any named p ≡ false) (sym r.alone)
        (ground (arith, avoids.refused r.action.id r.refused))
