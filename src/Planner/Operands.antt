-- ===== src/Planner/Operands.antt =====
-- planner.py: `package_install_operands` keeps driver packages within their branch on a Zypper host.
use nvidia_converge.Common.{
  ◌≡◌, refl, String, Bool, true, ◌&&◌, ◌||◌, some, List, [], ◌∷◌, ◌++◌, ◌<>◌, arith, ok, ◌==◌,
  ==_iff, ==_self, contains, opt_eq, opt_eq_iff, if◌then◌else◌, inl, inr, Bool-cases, >>=-eq-ok,
}
use mathlib.Core.Path.{subst}
use nvidia_converge.Models.{DesiredState, HostAudit, driver_major}
use nvidia_converge.Planner.Packages.{
  branch_packages, bounded_operands, next_driver_branch, package_install_targets,
  package_install_operands,
}

contains-append :
    (xs ys : List String) (y : String) → contains (xs ++ ys) y ≡ (contains xs y || contains ys y)
contains-append [] ys y = refl
contains-append (x ∷ xs) ys y = ground (arith, contains-append xs ys y)

-- A driver package comes with both bounds of its branch, another package as it is.
abbrev pub bounded_in : List String → String → String → String → Bool
bounded_in operands lower_bound upper_bound target =
    if contains branch_packages target
    then contains operands (target <> (">=" <> lower_bound))
      && contains operands (target <> ("<" <> upper_bound))
    else contains operands target

bounded_operands-bounded :
    (lower_bound upper_bound : String) (targets : List String) (target : String)
    → contains targets target ≡ true
    → bounded_in (bounded_operands lower_bound upper_bound targets) lower_bound upper_bound target
      ≡ true
unfolding bounded_operands
bounded_operands-bounded l u [] target found = cc
bounded_operands-bounded l u (x ∷ targets) target found = elim (Bool-cases (x == target)) [
  | inl same ↦
      subst (λ t. bounded_in (bounded_operands l u (x ∷ targets)) l u t ≡ true)
        ((==_iff x target).0 same)
        (ground (arith, ==_self (x <> (">=" <> l)), ==_self (x <> ("<" <> u)), ==_self x))
  | inr other ↦ ground (arith, bounded_operands-bounded l u targets target)
]

ok-injective {ℓ} : {A : Type ℓ} {a b : A} → ok a ≡ ok b → a ≡ b
ok-injective e = cc

-- On a Zypper host every driver package among the install targets stands among the operands with
-- the lower bound of its branch and the upper bound of the next one, and every other target as it is.
pub package_install_operands-bounded :
    (d : DesiredState) (a : HostAudit) (operands : List String) (target : String)
    → a.package_manager ≡ some "zypper"
    → package_install_operands d a ≡ ok operands
    → contains (package_install_targets d a) target ≡ true
    → (upper_bound : String) × (next_driver_branch (driver_major d) ≡ ok upper_bound)
      × (bounded_in operands (driver_major d) upper_bound target ≡ true)
unfolding package_install_operands
package_install_operands-bounded d a operands target manager h found =
    let zypper : opt_eq a.package_manager (some "zypper") ≡ true =
      (opt_eq_iff a.package_manager (some "zypper")).1 manager in
    let (upper_bound, bound, more) =
      >>=-eq-ok (next_driver_branch (driver_major d))
        (λ u. ok (bounded_operands (driver_major d) u (package_install_targets d a))) {b = operands}
        (ground arith) in
    (
      upper_bound,
      bound,
      subst (λ os. bounded_in os (driver_major d) upper_bound target ≡ true) (ok-injective more)
          (bounded_operands-bounded (driver_major d) upper_bound (package_install_targets d a)
            target found),
    )
