-- ===== src/Rollback/Specs.antt =====
-- rollback.py: the packages that a rollback is about, and their names for a package manager.
use nvidia_converge.Common.{
  String, Bool, false, not, ◌&&◌, ◌||◌, Option, none, some, List, [], ◌∷◌, ◌++◌, drop_seen, ◌==◌,
  ◌<>◌, opt_eq, if◌then◌else◌,
}
use nvidia_converge.Common.Sorting.{sorted}
use nvidia_converge.Models.{PackageInfo}

-- `PackagePayload`, with the fields that the commands read.
pub record PackagePayload : Type 0 where
  pub name : String
  pub architecture : String
  pub epoch : Option String
  pub version : String
  pub filename : String
  pub roles : List String

-- `PackagePayloadBundle`, without its size.
pub record PackagePayloadBundle : Type 0 where
  pub directory : String
  pub packages : List PackagePayload

-- `RollbackSnapshot`, with the fields that the package commands read.
pub record RollbackSnapshot : Type 0 where
  pub path : Option String
  pub packages : List PackageInfo
  pub package_manager : Option String
  pub introduced_packages : List String
  pub package_payloads : Option PackagePayloadBundle

-- A text that is neither `None` nor empty.
abbrev pub is_text : Option String → Bool
is_text none = false
is_text (some s) = not (s == "")

-- `value or ""`
abbrev pub text_or_empty : Option String → String
text_or_empty none = ""
text_or_empty (some s) = s

-- `f"{value}"`
abbrev pub show_text : Option String → String
show_text none = "None"
show_text (some s) = s

-- `f"{before}{value}{after}" if value else ""`
abbrev pub if_text : String → Option String → String → String
if_text before value after = if is_text value then before <> (text_or_empty value <> after) else ""

unfoldable pub rpm_package_spec : PackageInfo → String
rpm_package_spec p =
    p.name
    <> ("-" <> (if_text "" p.epoch ":" <> (show_text p.version <> if_text "." p.architecture "")))

unfoldable pub zypper_package_spec : PackageInfo → String
zypper_package_spec p =
    p.name
    <> (if_text "." p.architecture "" <> ("=" <> (if_text "" p.epoch ":" <> show_text p.version)))

-- The name of a package for APT, without and with its version.
unfoldable pub apt_package_name : PackageInfo → String
apt_package_name p = p.name <> if_text ":" p.architecture ""

unfoldable pub apt_package_spec : PackageInfo → String
unfolding apt_package_name
apt_package_spec p = apt_package_name p <> ("=" <> show_text p.version)

-- `_package_state_identity(p) == _package_state_identity(q)`
abbrev pub same_state : PackageInfo → PackageInfo → Bool
same_state p q =
    p.name == q.name
    && opt_eq p.architecture q.architecture
    && opt_eq p.epoch q.epoch
    && opt_eq p.version q.version

-- `(p.name, p.architecture) == (q.name, q.architecture)`
abbrev pub same_slot : PackageInfo → PackageInfo → Bool
same_slot p q = p.name == q.name && opt_eq p.architecture q.architecture

-- `manager in {"dnf", "yum"}`
abbrev pub is_dnf : Option String → Bool
is_dnf manager = opt_eq manager (some "dnf") || opt_eq manager (some "yum")

-- The name for the removal of a package; other package managers have none.
unfoldable pub removal_spec : Option String → PackageInfo → List String
unfolding rpm_package_spec apt_package_name
removal_spec manager p =
    if opt_eq manager (some "apt-get")
    then apt_package_name p ∷ []
    else if is_dnf manager
    then rpm_package_spec p ∷ []
    else if opt_eq manager (some "zypper")
    then (p.name
        <> (if_text "." p.architecture ""
            <> (if is_text p.version
                then "=" <> (if_text "" p.epoch ":" <> show_text p.version)
                else "")))
      ∷ []
    else []

-- `sorted(set(values))`
abbrev pub sorted_set : List String → List String
sorted_set values = sorted (drop_seen [] values)

abbrev pub removal_specs_of : Option String → List PackageInfo → List String
removal_specs_of manager [] = []
removal_specs_of manager (p ∷ packages) =
    removal_spec manager p ++ removal_specs_of manager packages

unfoldable pub package_removal_specs : List PackageInfo → Option String → List String
package_removal_specs packages manager = sorted_set (removal_specs_of manager packages)
