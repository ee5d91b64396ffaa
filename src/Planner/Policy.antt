-- ===== src/Planner/Policy.antt =====
-- planner.py: `lock_actions`, the selector that keeps the driver on its branch.
use Prim.Native.String.{count}
use nvidia_converge.Common.{
  String, Bool, true, false, not, ◌&&◌, ◌||◌, Option, none, some, List, [], ◌∷◌, map, ◌==◌, ◌<>◌,
  Result, ok, value_error, ◌>>=◌, is_none, is_empty, opt_eq, contains, any, select, drop_seen,
  starts_with, if◌then◌else◌, leb,
}
use nvidia_converge.Common.Text.{is_digit, span, lower, has_text}
use nvidia_converge.Common.Sorting.{sorted}
use nvidia_converge.Models.{
  DesiredState, HostAudit, PackagePolicySelector, PlanAction, open_kernel_module,
  exact_driver_version, driver_major,
}
use nvidia_converge.Planner.Recipe.{package_recipe_error}
use nvidia_converge.Planner.Packages.{next_driver_branch}

-- A refusal: `PlanAction(id, …, [], reason=…)`.
abbrev pub unsupported : String → PlanAction
unsupported id = record { id = id; commands = []; destructive = false }

-- `PlanAction(id, …, commands, destructive=True, …)`.
abbrev pub destructive_action : String → List (List String) → PlanAction
destructive_action id commands = record { id = id; commands = commands; destructive = true }

pub data PolicyError : Type 0 where
  backend_mismatch unobservable : PolicyError
  apt_selector_shape : PolicyError
  several_dnf_selectors dnf_selector_shape : PolicyError

-- `_package_policy_error`
unfoldable pub package_policy_error : HostAudit → Option PolicyError
package_policy_error audit =
    if not (opt_eq audit.package_policy.backend audit.package_manager)
    then some backend_mismatch
    else if not audit.package_policy.observable
    then some unobservable
    else none

abbrev pub is_pinning : PackagePolicySelector → Bool
is_pinning selector = starts_with selector.name "nvidia-driver-pinning-"

-- `_apt_policy_selector_error`
unfoldable pub apt_policy_selector_error : List PackagePolicySelector → Option PolicyError
apt_policy_selector_error [] = none
apt_policy_selector_error (selector ∷ selectors) =
    let rest = apt_policy_selector_error selectors in
    if not (is_pinning selector)
    then rest
    else if not (selector.identifier == selector.name)
        || not (selector.kind == "package")
        || not (is_none selector.relation)
        || not (is_none selector.version)
        || not (is_empty selector.repositories)
    then some apt_selector_shape
    else rest

-- `_dnf_policy_selector_error`
unfoldable pub dnf_policy_selector_error : List PackagePolicySelector → Option PolicyError
dnf_policy_selector_error [] = none
dnf_policy_selector_error (selector ∷ []) =
    if not (selector.identifier == "nvidia-driver")
      || not (selector.name == "nvidia-driver")
      || not (selector.kind == "module")
      || not (opt_eq selector.relation (some "stream"))
      || is_none selector.version
      || not (is_empty selector.repositories)
    then some dnf_selector_shape
    else none
dnf_policy_selector_error (selector ∷ other ∷ selectors) = some several_dnf_selectors

-- `_same_zypper_policy`, at the selector that the planner expects.
unfoldable pub same_zypper_policy : PackagePolicySelector → String → Bool
same_zypper_policy observed upper_bound =
    observed.name == "*nvidia*"
    && observed.kind == "package"
    && opt_eq observed.relation (some "ge")
    && opt_eq observed.version (some upper_bound)
    && is_empty observed.repositories

-- `_apt_pinning_package`
unfoldable pub apt_pinning_package : DesiredState → String
apt_pinning_package desired =
    "nvidia-driver-pinning-"
    <> (if exact_driver_version desired then desired.driver else driver_major desired)

-- `_dnf_module_stream`
unfoldable pub dnf_module_stream : DesiredState → String
dnf_module_stream desired =
    driver_major desired <> (if open_kernel_module desired then "-open" else "-dkms")

-- `re.fullmatch(r"[1-9]\d{2,3}-(?:open|dkms)", stream)`
unfoldable pub is_module_stream : String → Bool
unfolding span is_digit
is_module_stream stream =
    let (major, rest) = span is_digit stream in
    let digits = count major in
    not (starts_with major "0")
    && (leb 3 digits && leb digits 4)
    && (rest == "-open" || rest == "-dkms")

-- `dnf_module_enable_command(apply=True, stream=stream)`. The fourth word stands for the text of
-- `DNF_MODULE_ENABLE_SCRIPT`.
unfoldable pub dnf_module_enable_command : String → Result (List String)
unfolding is_module_stream
dnf_module_enable_command stream =
    if is_module_stream stream
    then ok (
        "python3" ∷ "-I" ∷ "-c" ∷ "DNF_MODULE_ENABLE_SCRIPT" ∷ "--apply" ∷ "nvidia-driver" ∷ stream
        ∷ "unbound-preflight-proof" ∷ [])
    else value_error

abbrev refuse_policy : List PlanAction
refuse_policy = unsupported "unsupported.package-policy" ∷ []

-- The names of the installed pinning packages, a set.
unfoldable pub installed_pins : List PackagePolicySelector → List String
installed_pins selectors = drop_seen [] (map (λ s. s.name) (select is_pinning selectors))

-- `lock_actions` on an APT host with a readable policy.
unfoldable pub apt_lock_actions : DesiredState → HostAudit → List PlanAction
unfolding apt_policy_selector_error apt_pinning_package installed_pins
apt_lock_actions desired audit =
    let selectors = audit.package_policy.selectors in
    let pin = apt_pinning_package desired in
    let installed = installed_pins selectors in
    let conflicting = sorted (select (λ name. not (name == pin)) installed) in
    if not (is_none (apt_policy_selector_error selectors))
    then refuse_policy
    else if is_empty conflicting && contains installed pin
    then []
    else destructive_action "lock.apt" (
        ("apt-get"
          ∷ "install"
          ∷ "-y"
          ∷ "--allow-downgrades"
          ∷ "--no-install-recommends"
          ∷ "--purge"
          ∷ pin
          ∷ map (λ name. name <> "-") conflicting)
        ∷ [])
      ∷ []

-- `selectors[0].version if selectors else None`
abbrev pub current_stream : List PackagePolicySelector → Option String
current_stream [] = none
current_stream (selector ∷ selectors) = selector.version

-- `lock_actions` on a DNF host with a readable policy.
unfoldable pub dnf_lock_actions : DesiredState → HostAudit → Result (List PlanAction)
unfolding dnf_policy_selector_error dnf_module_stream dnf_module_enable_command
dnf_lock_actions desired audit =
    let selectors = audit.package_policy.selectors in
    let stream = dnf_module_stream desired in
    if not (is_none (dnf_policy_selector_error selectors))
    then ok refuse_policy
    else if opt_eq (current_stream selectors) (some stream)
    then ok []
    else if not (is_none (current_stream selectors))
    then ok refuse_policy
    else do
      command ← dnf_module_enable_command stream
      ok (destructive_action "lock.rpm" (command ∷ []) ∷ [])

abbrev pub nvidia_selectors : List PackagePolicySelector → List PackagePolicySelector
nvidia_selectors selectors = select (λ s. has_text "nvidia" (lower s.name)) selectors

-- The choice on the relevant locks of a Zypper host.
unfoldable pub zypper_lock_choice : String → List PackagePolicySelector → List PlanAction
unfolding same_zypper_policy
zypper_lock_choice upper_bound [] =
    destructive_action "lock.zypper"
      (("zypper" ∷ "--non-interactive" ∷ "addlock" ∷ ("*nvidia* >= " <> upper_bound) ∷ []) ∷ [])
    ∷ []
zypper_lock_choice upper_bound (selector ∷ []) =
    if same_zypper_policy selector upper_bound then [] else refuse_policy
zypper_lock_choice upper_bound (selector ∷ other ∷ selectors) = refuse_policy

-- `lock_actions` on a Zypper host with a readable policy.
unfoldable pub zypper_lock_actions : DesiredState → HostAudit → Result (List PlanAction)
unfolding zypper_lock_choice
zypper_lock_actions desired audit = do
  upper_bound ← next_driver_branch (driver_major desired)
  ok (zypper_lock_choice upper_bound (nvidia_selectors audit.package_policy.selectors))

-- `lock_actions`
unfoldable pub lock_actions : DesiredState → HostAudit → Result (List PlanAction)
lock_actions desired audit =
    let pm = audit.package_manager in
    if not (is_none (package_recipe_error desired audit))
    then ok (unsupported "unsupported.package-recipe" ∷ [])
    else if not (is_none (package_policy_error audit))
    then ok refuse_policy
    else if opt_eq pm (some "apt-get")
    then ok (apt_lock_actions desired audit)
    else if opt_eq pm (some "dnf")
    then dnf_lock_actions desired audit
    else if opt_eq pm (some "zypper")
    then zypper_lock_actions desired audit
    else ok []

abbrev pub is_refusal : PlanAction → Bool
is_refusal action = starts_with action.id "unsupported."

-- `package_policy_package_targets`
unfoldable pub package_policy_package_targets : DesiredState → HostAudit → Result (List String)
unfolding lock_actions
package_policy_package_targets desired audit =
    if not (opt_eq audit.package_manager (some "apt-get")) then ok [] else do
      actions ← lock_actions desired audit
      let pin = apt_pinning_package desired
      let installed = map (λ s. s.name) audit.package_policy.selectors
      ok (
          if any is_refusal actions
          then []
          else if not (contains installed pin) && not (is_empty actions)
          then pin ∷ []
          else [])
