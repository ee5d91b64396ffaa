-- ===== src/Planner/PolicyShape.antt =====
-- planner.py: `lock_actions` returns one refusal, or actions that are accepted.
use nvidia_converge.Common.{
  ◌≡◌, refl, String, Bool, true, false, not, ◌&&◌, ◌||◌, some, List, [], ◌∷◌, arith, Result, ok,
  value_error, ◌>>=◌, any, last?, is_empty,
}
use nvidia_converge.Models.{DesiredState, HostAudit, PlanAction, PackagePolicySelector}
use nvidia_converge.Planner.Policy.{
  nvidia_selectors, is_refusal, apt_lock_actions, dnf_lock_actions, zypper_lock_actions,
  zypper_lock_choice, lock_actions,
}
use nvidia_converge.Planner.Packages.{next_driver_branch}
use nvidia_converge.Models.{driver_major}
use nvidia_converge.Planner.Plan.{verify_action}

-- One refusal, with no command.
pub record IsRefused (plan : List PlanAction) : Type 0 where
  pub action : PlanAction
  pub alone : plan ≡ action ∷ []
  pub refused : is_refusal action ≡ true
  pub idle : action.commands ≡ []

-- No refusal among the actions, and the verification comes last.
pub record IsConvergent (plan : List PlanAction) : Type 0 where
  pub accepted : any is_refusal plan ≡ false
  pub verified : last? plan ≡ some verify_action

-- The same by tests: one refusal, or accepted actions, wherever there is a result.
abbrev pub is_refused : List PlanAction → Bool
is_refused (action ∷ []) = is_refusal action && is_empty action.commands
is_refused _ = false

abbrev pub is_policy : List PlanAction → Bool
is_policy policy = is_refused policy || not (any is_refusal policy)

abbrev pub on_ok : (List PlanAction → Bool) → Result (List PlanAction) → Bool
on_ok p (ok policy) = p policy
on_ok p value_error = true

apt-is_policy : (d : DesiredState) (a : HostAudit) → is_policy (apt_lock_actions d a) ≡ true
unfolding apt_lock_actions
apt-is_policy d a = ground arith

dnf-is_policy : (d : DesiredState) (a : HostAudit) → on_ok is_policy (dnf_lock_actions d a) ≡ true
unfolding dnf_lock_actions
dnf-is_policy d a = ground arith

choice-is_policy :
    (upper_bound : String) (selectors : List PackagePolicySelector)
    → is_policy (zypper_lock_choice upper_bound selectors) ≡ true
unfolding zypper_lock_choice
choice-is_policy u [] = refl
choice-is_policy u (s ∷ []) = ground arith
choice-is_policy u (s ∷ t ∷ ss) = refl

bound-is_policy :
    (selectors : List PackagePolicySelector) (m : Result String)
    → on_ok is_policy (m >>= λ upper_bound. ok (zypper_lock_choice upper_bound selectors)) ≡ true
bound-is_policy selectors (ok upper_bound) = choice-is_policy upper_bound selectors
bound-is_policy selectors value_error = refl

zypper-is_policy :
    (d : DesiredState) (a : HostAudit) → on_ok is_policy (zypper_lock_actions d a) ≡ true
unfolding zypper_lock_actions
zypper-is_policy d a =
    bound-is_policy (nvidia_selectors a.package_policy.selectors)
      (next_driver_branch (driver_major d))

pub lock-is_policy : (d : DesiredState) (a : HostAudit) → on_ok is_policy (lock_actions d a) ≡ true
unfolding lock_actions
lock-is_policy d a = ground (arith, apt-is_policy d a, dnf-is_policy d a, zypper-is_policy d a)
