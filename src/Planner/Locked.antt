-- ===== src/Planner/Locked.antt =====
-- planner.py: `lock_actions` leaves a policy alone that already holds the driver on its branch.
use text.Mathlib.TextPositions.{starts_with-append}
use nvidia_converge.Common.{
  ◌≡◌, refl, ap, ◌∙◌, String, true, false, Option, none, some, [], ◌∷◌, arith, ok, ◌==◌, ==_self,
  opt_eq, opt_eq_iff,
}
use nvidia_converge.Common.Sorting.{sorted}
use nvidia_converge.Common.Text.{lower, has_text}
use nvidia_converge.Models.{DesiredState, HostAudit, PackagePolicySelector, driver_major}
use nvidia_converge.Planner.Recipe.{package_recipe_error}
use nvidia_converge.Planner.Packages.{next_driver_branch}
use nvidia_converge.Planner.Policy.{
  package_policy_error, apt_policy_selector_error, dnf_policy_selector_error, apt_pinning_package,
  dnf_module_stream, apt_lock_actions, dnf_lock_actions, zypper_lock_actions, zypper_lock_choice,
  same_zypper_policy, installed_pins, is_pinning, lock_actions, nvidia_selectors,
}

-- What the package managers show once the actions of `lock_actions` have run.
abbrev pub apt_selector : DesiredState → PackagePolicySelector
apt_selector d = record {
  identifier = apt_pinning_package d;
  name = apt_pinning_package d;
  kind = "package";
  relation = none;
  version = none;
  repositories = [];
}

abbrev pub dnf_selector : DesiredState → PackagePolicySelector
dnf_selector d = record {
  identifier = "nvidia-driver";
  name = "nvidia-driver";
  kind = "module";
  relation = some "stream";
  version = some (dnf_module_stream d);
  repositories = [];
}

abbrev pub zypper_selector : String → String → PackagePolicySelector
zypper_selector identifier upper_bound = record {
  identifier = identifier;
  name = "*nvidia*";
  kind = "package";
  relation = some "ge";
  version = some upper_bound;
  repositories = [];
}

-- The one selector of the package manager is the desired one.
pub data Locked (d : DesiredState) (a : HostAudit) : Type 0 where
  by_apt :
      a.package_manager ≡ some "apt-get"
      → a.package_policy.selectors ≡ apt_selector d ∷ []
      → Locked d a
  by_dnf :
      a.package_manager ≡ some "dnf" → a.package_policy.selectors ≡ dnf_selector d ∷ [] → Locked d a
  by_zypper :
      (identifier upper_bound : String)
      → a.package_manager ≡ some "zypper"
      → next_driver_branch (driver_major d) ≡ ok upper_bound
      → a.package_policy.selectors ≡ zypper_selector identifier upper_bound ∷ []
      → Locked d a

apt-is_pinning : (d : DesiredState) → is_pinning (apt_selector d) ≡ true
unfolding apt_pinning_package
apt-is_pinning d = starts_with-append "nvidia-driver-pinning-" _

apt-nil :
    (d : DesiredState) (a : HostAudit)
    → a.package_policy.selectors ≡ apt_selector d ∷ []
    → apt_lock_actions d a ≡ []
unfolding apt_lock_actions apt_policy_selector_error installed_pins sorted
apt-nil d a e = rw (e, apt-is_pinning d, ==_self (apt_pinning_package d), ==_self "package") refl

dnf-nil :
    (d : DesiredState) (a : HostAudit)
    → a.package_policy.selectors ≡ dnf_selector d ∷ []
    → dnf_lock_actions d a ≡ ok []
unfolding dnf_lock_actions dnf_policy_selector_error
dnf-nil d a e =
    rw
      (
        e,
        ==_self (dnf_module_stream d),
        ==_self "nvidia-driver",
        ==_self "module",
        ==_self "stream",
      )
      refl

choice-nil :
    (identifier upper_bound : String)
    → zypper_lock_choice upper_bound (zypper_selector identifier upper_bound ∷ []) ≡ []
unfolding zypper_lock_choice same_zypper_policy
choice-nil identifier upper_bound =
    rw (==_self upper_bound, ==_self "*nvidia*", ==_self "package", ==_self "ge") refl

nvidia-one :
    (identifier upper_bound : String)
    → nvidia_selectors (zypper_selector identifier upper_bound ∷ [])
      ≡ zypper_selector identifier upper_bound ∷ []
unfolding lower has_text ◌==◌
nvidia-one identifier upper_bound = refl

zypper-nil :
    (d : DesiredState) (a : HostAudit) (identifier upper_bound : String)
    → next_driver_branch (driver_major d) ≡ ok upper_bound
    → a.package_policy.selectors ≡ zypper_selector identifier upper_bound ∷ []
    → zypper_lock_actions d a ≡ ok []
unfolding zypper_lock_actions
zypper-nil d a identifier upper_bound bound e =
    rw (e, bound, nvidia-one identifier upper_bound, choice-nil identifier upper_bound) refl

-- A host has one package manager.
pub manager_differs :
    (manager : Option String) (name other : String)
    → manager ≡ some name
    → (name == other) ≡ false
    → opt_eq manager (some other) ≡ false
manager_differs manager name other e h = ap (λ m. opt_eq m (some other)) e ∙ h

pub dnf_not_apt : ("dnf" == "apt-get") ≡ false
unfolding ◌==◌
dnf_not_apt = refl

zypper_not_apt : ("zypper" == "apt-get") ≡ false
unfolding ◌==◌
zypper_not_apt = refl

zypper_not_dnf : ("zypper" == "dnf") ≡ false
unfolding ◌==◌
zypper_not_dnf = refl

-- The branch of `lock_actions` for each package manager.
by_manager :
    (d : DesiredState) (a : HostAudit)
    → package_recipe_error d a ≡ none
    → package_policy_error a ≡ none
    → Locked d a
    → lock_actions d a ≡ ok []
unfolding lock_actions
by_manager d a recipe readable (by_apt manager e) =
    ground (arith, (opt_eq_iff a.package_manager (some "apt-get")).1 manager, apt-nil d a e)
by_manager d a recipe readable (by_dnf manager e) = ground (
  arith,
  manager_differs a.package_manager "dnf" "apt-get" manager dnf_not_apt,
  (opt_eq_iff a.package_manager (some "dnf")).1 manager,
  dnf-nil d a e,
)
by_manager d a recipe readable (by_zypper identifier upper_bound manager bound e) = ground (
  arith,
  manager_differs a.package_manager "zypper" "apt-get" manager zypper_not_apt,
  manager_differs a.package_manager "zypper" "dnf" manager zypper_not_dnf,
  (opt_eq_iff a.package_manager (some "zypper")).1 manager,
  zypper-nil d a identifier upper_bound bound e,
)

-- With a recipe and a readable policy whose one selector is the desired one, nothing is locked again.
pub lock_actions-Locked :
    (d : DesiredState) (a : HostAudit)
    → package_recipe_error d a ≡ none
    → a.package_policy.backend ≡ a.package_manager
    → a.package_policy.observable ≡ true
    → Locked d a
    → lock_actions d a ≡ ok []
unfolding package_policy_error
lock_actions-Locked d a recipe backend observable locked =
    by_manager d a recipe
      (ground (arith, (opt_eq_iff a.package_policy.backend a.package_manager).1 backend)) locked
