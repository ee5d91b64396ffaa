-- ===== src/Preflight/Apt.antt =====
-- preflight.py: the check of a parsed forward transaction of APT.
use nvidia_converge.Common.{
  String, Bool, true, false, not, ◌&&◌, ◌||◌, Option, none, some, List, [], ◌∷◌, map, any, all,
  select, contains, opt_eq, ◌==◌, if◌then◌else◌,
}
use nvidia_converge.Models.{PackageInfo, HostAudit}
use nvidia_converge.Rollback.Specs.{is_text, text_or_empty}
use nvidia_converge.Preflight.Closure.{forward_target_names, forward_package_allowed}

-- `_AptIdentity`
pub record AptIdentity : Type 0 where
  pub name : String
  pub architecture : String
  pub version : String

-- `_AptInstall`, with the version that it replaces.
pub record AptInstall : Type 0 where
  pub name : String
  pub architecture : String
  pub version : String
  pub old_version : Option String

-- `_AptRemoval`
pub record AptRemoval : Type 0 where
  pub name : String
  pub architecture : Option String
  pub version : String

-- What `_parse_apt_transaction` returns; the installations are the values of its dictionary.
pub record AptTransaction : Type 0 where
  pub installs : List AptInstall
  pub removals : List AptRemoval

-- The texts of the errors.
pub data TransactionError : Type 0 where
  malformed duplicate_slots outside_closure unobserved_replacement mismatched_replacement :
      TransactionError
  unbound_removal unplanned_removal foreign_removal missing_targets : TransactionError
  duplicate_restores unbound_operands unexpected_install missing_restore : TransactionError
  unexpected_removal missing_removal : TransactionError

-- `_apt_identity`
unfoldable pub apt_identity : String → PackageInfo → Option AptIdentity
apt_identity native p =
    if not p.installed || not (opt_eq p.manager (some "apt")) || not (is_text p.version)
    then none
    else some (record {
      name = p.name;
      architecture = if is_text p.architecture then text_or_empty p.architecture else native;
      version = text_or_empty p.version;
    })

abbrev pub same_identity : AptIdentity → AptIdentity → Bool
same_identity a b = a.name == b.name && a.architecture == b.architecture && a.version == b.version

-- `a[:2] == b[:2]`
abbrev pub in_slot : AptIdentity → AptIdentity → Bool
in_slot a b = a.name == b.name && a.architecture == b.architecture

-- A set of identities, as a list without repetitions.
abbrev pub add_identity : AptIdentity → List AptIdentity → List AptIdentity
add_identity a identities = if any (same_identity a) identities then identities else a ∷ identities

unfoldable pub current_identities : String → List PackageInfo → List AptIdentity
unfolding apt_identity
current_identities native [] = []
current_identities native (p ∷ packages) =
    let rest = current_identities native packages in
    elim (apt_identity native p) [ none ↦ rest | some a ↦ add_identity a rest ]

-- Two identities of one slot.
abbrev pub has_shared_slot : List AptIdentity → Bool
has_shared_slot [] = false
has_shared_slot (a ∷ identities) = any (in_slot a) identities || has_shared_slot identities

-- The only element.
abbrev pub only {ℓ} : {A : Type ℓ} → List A → Option A
only (a ∷ []) = some a
only _ = none

abbrev pub fits_removal : AptRemoval → AptIdentity → Bool
fits_removal removal a =
    a.name == removal.name
    && a.version == removal.version
    && elim removal.architecture [ none ↦ true | some explicit ↦ a.architecture == explicit ]

-- `_resolve_apt_removal`
unfoldable pub resolve_apt_removal : AptRemoval → List AptIdentity → String → Option AptIdentity
resolve_apt_removal removal candidates native =
    let matches = select (fits_removal removal) candidates in
    elim (only matches) [
      | some a ↦ some a
      | none ↦ elim removal.architecture [
        | some explicit ↦ none
        | none ↦ only (select (λ a. a.architecture == native) matches)
      ]
    ]

-- The slot of an installation, with its new version.
abbrev pub installed_identity : AptInstall → AptIdentity
installed_identity i = record { name = i.name; architecture = i.architecture; version = i.version }

-- `current_by_slot.get(...)`: the slots have no repetition.
abbrev pub find_slot : AptIdentity → List AptIdentity → Option AptIdentity
find_slot a [] = none
find_slot a (b ∷ identities) = if in_slot a b then some b else find_slot a identities

-- The first error of a loop.
abbrev pub first_error {ℓ} :
    {A : Type ℓ} → (A → Option TransactionError) → List A → Option TransactionError
first_error check [] = none
first_error check (a ∷ rest) = elim (check a) [ some e ↦ some e | none ↦ first_error check rest ]

abbrev pub or_error : Option TransactionError → Option TransactionError → Option TransactionError
or_error (some e) later = some e
or_error none later = later

-- The body of the loop over the installations.
unfoldable pub install_error :
    List String → HostAudit → List AptIdentity → AptInstall → Option TransactionError
install_error packages audit current i =
    if not (forward_package_allowed i.name packages "apt-get" audit)
    then some outside_closure
    else elim (find_slot (installed_identity i) current) [
      | none ↦ elim i.old_version [ none ↦ none | some old ↦ some unobserved_replacement ]
      | some c ↦ if opt_eq i.old_version (some c.version) then none else some mismatched_replacement
    ]

-- The body of the loop over the removals.
unfoldable pub removal_error :
    String
    → List String
    → HostAudit
    → List AptIdentity
    → List AptInstall
    → AptRemoval
    → Option TransactionError
removal_error native packages audit current installs removal =
    elim (resolve_apt_removal removal current native) [
      | none ↦ some unbound_removal
      | some a ↦
          if not (any (λ i. in_slot a (installed_identity i)) installs)
          then some unplanned_removal
          else if not (forward_package_allowed a.name packages "apt-get" audit)
          then some foreign_removal
          else none
    ]

-- `_apt_forward_transaction_error`, from what the parser returned.
unfoldable pub apt_forward_transaction_error :
    Option AptTransaction → String → List String → HostAudit → Option TransactionError
apt_forward_transaction_error none native packages audit = some malformed
apt_forward_transaction_error (some t) native packages audit =
    let current = current_identities native audit.packages in
    if has_shared_slot current
    then some duplicate_slots
    else or_error (first_error (install_error packages audit current) t.installs) (
        or_error (first_error (removal_error native packages audit current t.installs) t.removals) (
          if all (contains (map (λ i. i.name) t.installs))
            (forward_target_names "apt-get" packages audit)
          then none
          else some missing_targets))
