-- ===== src/Planner/Recipe.antt =====
-- planner.py: `_package_recipe_error` and what it is made of. Its texts are constructors here.
use nvidia_converge.Common.{
  String, Bool, false, not, ◌&&◌, ◌||◌, Option, none, some, List, [], ◌∷◌, ◌==◌, ◌<>◌, is_none,
  is_true, opt_eq, opt_bool_eq, contains, if◌then◌else◌,
}
use nvidia_converge.Common.Text.{split_once, rsplit_once, ends_with, lower}
use nvidia_converge.Models.{
  DesiredState, HostAudit, open_kernel_module, exact_driver_version, matches_driver_version, failed,
}

-- `_APT_RELEASES.get(os_id)`
unfoldable pub apt_releases : String → Option (List String)
apt_releases os_id =
    if os_id == "debian"
    then some ("12" ∷ "13" ∷ [])
    else if os_id == "ubuntu"
    then some ("22" ∷ "24" ∷ "26" ∷ [])
    else none

abbrev pub rhel_ids : List String
rhel_ids = "almalinux" ∷ "rhel" ∷ "rocky" ∷ []

abbrev pub rhel_releases : List String
rhel_releases = "8" ∷ "9" ∷ []

abbrev pub suse_ids : List String
suse_ids = "opensuse-leap" ∷ "sles" ∷ []

abbrev pub suse_releases : List String
suse_releases = "15" ∷ "16" ∷ []

abbrev pub suse_kernel_variants : List String
suse_kernel_variants = "64k" ∷ "azure" ∷ "default" ∷ []

-- `value in values`, for a value that may be `None`.
abbrev pub contains_opt : List String → Option String → Bool
contains_opt xs none = false
contains_opt xs (some x) = contains xs x

-- `_release_major`
unfoldable pub release_major : Option String → Option String
unfolding split_once
release_major none = none
release_major (some version) = if version == "" then none else some (split_once "." version).0

-- `_suse_kernel_devel`
unfoldable pub suse_kernel_devel : String → Option String
unfolding rsplit_once
suse_kernel_devel kernel = elim (rsplit_once "-" kernel) [
  | none ↦ none
  | some (version, variant) ↦
      if version == "" || not (contains suse_kernel_variants variant)
      then none
      else some ("kernel-" <> (variant <> ("-devel=" <> version)))
]

-- `module_reload_required`: a loaded module differs from what is observed on disk.
unfoldable pub module_reload_required : HostAudit → Bool
module_reload_required audit =
    if not m.loaded
    then false
    else not (is_none m.installed_version) && not (opt_eq m.version m.installed_version)
      || not (is_none m.installed_open_module)
        && not (opt_bool_eq m.open_module m.installed_open_module)
      || not (is_none m.installed_signed) && not (opt_bool_eq m.signed m.installed_signed)
  where
    open audit use {module_info as m}

-- `on_disk_ready`, in `_needs_driver_install` and in `_package_recipe_error`.
unfoldable pub on_disk_ready : DesiredState → HostAudit → Bool
on_disk_ready desired audit =
    matches_driver_version desired m.installed_version
    && opt_bool_eq m.installed_open_module (some (open_kernel_module desired))
    && (not (desired.secure_boot == "signed") || is_true m.installed_signed)
  where
    open audit use {module_info as m}

pub data RecipeError : Type 0 where
  cuda_compat_unmodeled userspace_unrepairable version_transition flavor_transition : RecipeError
  no_apt_recipe : RecipeError
  no_dnf_recipe not_x86_64 rhel9_headers dnf_exact_version : RecipeError
  yum_unsupported : RecipeError
  no_zypper_recipe zypper_exact_version suse_kernel_unknown : RecipeError
  no_recipe : RecipeError

unfoldable pub apt_recipe_error : HostAudit → String → Option String → Option RecipeError
unfolding apt_releases
apt_recipe_error audit os_id release = elim (apt_releases os_id) [
  | none ↦ some no_apt_recipe
  | some supported ↦ if contains_opt supported release then none else some no_apt_recipe
]

unfoldable pub dnf_recipe_error :
    DesiredState → HostAudit → String → Option String → Option RecipeError
unfolding ends_with
dnf_recipe_error desired audit os_id release =
    if not (contains rhel_ids os_id) || not (contains_opt rhel_releases release)
    then some no_dnf_recipe
    else if not (ends_with audit.kernel.running ".x86_64")
    then some not_x86_64
    else if opt_eq release (some "9") && not audit.kernel.headers_installed
    then some rhel9_headers
    else if exact_driver_version desired
    then some dnf_exact_version
    else none

unfoldable pub zypper_recipe_error :
    DesiredState → HostAudit → String → Option String → Option RecipeError
zypper_recipe_error desired audit os_id release =
    if not (contains suse_ids os_id) || not (contains_opt suse_releases release)
    then some no_zypper_recipe
    else if exact_driver_version desired
    then some zypper_exact_version
    else if is_none (suse_kernel_devel audit.kernel.running)
    then some suse_kernel_unknown
    else none

-- The branch on the package manager at the end of `_package_recipe_error`.
unfoldable pub backend_recipe_error : DesiredState → HostAudit → Option RecipeError
unfolding apt_recipe_error dnf_recipe_error zypper_recipe_error release_major lower
backend_recipe_error desired audit =
    let pm = audit.package_manager in
    let os_id = lower (elim audit.os_id [ none ↦ "" | some name ↦ name ]) in
    let release = release_major audit.os_version in
    if opt_eq pm (some "apt-get")
    then apt_recipe_error audit os_id release
    else if opt_eq pm (some "dnf")
    then dnf_recipe_error desired audit os_id release
    else if opt_eq pm (some "yum")
    then some yum_unsupported
    else if opt_eq pm (some "zypper")
    then zypper_recipe_error desired audit os_id release
    else some no_recipe

-- `_package_recipe_error`
unfoldable pub package_recipe_error : DesiredState → HostAudit → Option RecipeError
unfolding on_disk_ready
package_recipe_error desired audit =
    if not (desired.cuda_compat == "none")
    then some cuda_compat_unmodeled
    else if on_disk_ready desired audit
        && (failed audit.nvml
            || m.loaded && failed audit.nvidia_smi && not (module_reload_required audit))
    then some userspace_unrepairable
    else if not (is_none m.installed_version)
        && not (matches_driver_version desired m.installed_version)
    then some version_transition
    else if not (is_none m.installed_open_module)
        && not (opt_bool_eq m.installed_open_module (some (open_kernel_module desired)))
    then some flavor_transition
    else backend_recipe_error desired audit
  where
    open audit use {module_info as m}
