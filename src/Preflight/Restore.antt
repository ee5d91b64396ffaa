-- ===== src/Preflight/Restore.antt =====
-- preflight.py: the check of a parsed rollback transaction of APT.
use nvidia_converge.Common.{
  String, Bool, true, false, not, ◌&&◌, ◌||◌, Option, none, some, List, [], ◌∷◌, map, any, all,
  select, contains, head?, get, is_none, opt_eq, ◌==◌, if◌then◌else◌,
}
use nvidia_converge.Models.{PackageInfo, HostAudit}
use nvidia_converge.Rollback.Specs.{
  RollbackSnapshot, is_text, text_or_empty, is_dnf, rpm_package_spec, zypper_package_spec,
  apt_package_name, apt_package_spec,
}
use nvidia_converge.Rollback.Commands.{parent_path, join_path}
use nvidia_converge.Preflight.Apt.{
  AptIdentity, AptInstall, AptRemoval, AptTransaction, TransactionError, malformed, duplicate_slots,
  unobserved_replacement, mismatched_replacement, unbound_removal, duplicate_restores,
  unbound_operands, unexpected_install, missing_restore, unexpected_removal, missing_removal,
  apt_identity, same_identity, in_slot, resolve_apt_removal, installed_identity, find_slot,
  first_error, or_error,
}

-- `_apt_restore_spec(package) or ""`
abbrev pub apt_restore_spec : PackageInfo → String
apt_restore_spec p =
    if p.installed && opt_eq p.manager (some "apt") && is_text p.version
    then apt_package_spec p
    else ""

-- `_snapshot_payload_operand`: the first retained payload of the package.
unfoldable pub snapshot_payload_operand : RollbackSnapshot → PackageInfo → String
snapshot_payload_operand snapshot p = elim snapshot.path [
  | none ↦ named
  | some path ↦ elim snapshot.package_payloads [
    | none ↦ named
    | some bundle ↦
        elim (head? (
          select
            (λ q.
              contains q.roles "baseline"
              && q.name == p.name
              && q.architecture == text_or_empty p.architecture
              && opt_eq q.epoch p.epoch
              && q.version == text_or_empty p.version)
            bundle.packages)) [
              | none ↦ ""
              | some payload ↦
                  join_path (join_path (parent_path path) bundle.directory) payload.filename
            ]
  ]
]
  where
    named : String
    named =
        if opt_eq snapshot.package_manager (some "apt-get")
        then apt_restore_spec p
        else if is_dnf snapshot.package_manager
        then rpm_package_spec p
        else if opt_eq snapshot.package_manager (some "zypper")
        then zypper_package_spec p
        else ""

-- Operands with the identities that they stand for.
abbrev pub Bindings : Type 0
Bindings = List (String × AptIdentity)

-- `snapshot_by_spec`; `none` for a repeated operand.
unfoldable pub snapshot_by_spec :
    RollbackSnapshot → String → List PackageInfo → Bindings → Option Bindings
unfolding snapshot_payload_operand apt_identity
snapshot_by_spec snapshot native [] found = some found
snapshot_by_spec snapshot native (p ∷ packages) found = elim (apt_identity native p) [
  | none ↦ snapshot_by_spec snapshot native packages found
  | some a ↦ elim (snapshot_payload_operand snapshot p == "") [
    | true ↦ snapshot_by_spec snapshot native packages found
    | false ↦ elim (is_none (get found (snapshot_payload_operand snapshot p))) [
      | false ↦ none
      | true ↦
          snapshot_by_spec snapshot native packages
            ((snapshot_payload_operand snapshot p, a) ∷ found)
    ]
  ]
]

-- `audit_by_remove_spec`, which has the current identities; `none` for a repeated operand or slot.
unfoldable pub audit_by_remove_spec : String → List PackageInfo → Bindings → Option Bindings
unfolding apt_identity
audit_by_remove_spec native [] found = some found
audit_by_remove_spec native (p ∷ packages) found = elim (apt_identity native p) [
  | none ↦ audit_by_remove_spec native packages found
  | some a ↦
      elim (is_none (get found (apt_package_name p)) && not (any (λ m. in_slot a m.1) found)) [
        | false ↦ none
        | true ↦ audit_by_remove_spec native packages ((apt_package_name p, a) ∷ found)
      ]
]

-- The identities of some operands, which are all there.
abbrev pub identities_of : Bindings → List String → List AptIdentity
identities_of bindings [] = []
identities_of bindings (spec ∷ specs) =
    let rest = identities_of bindings specs in
    elim (get bindings spec) [ none ↦ rest | some a ↦ a ∷ rest ]

-- The body of the loop over the installations.
unfoldable pub replacement_error : List AptIdentity → AptInstall → Option TransactionError
replacement_error current i = elim (find_slot (installed_identity i) current) [
  | none ↦ elim i.old_version [ none ↦ none | some old ↦ some unobserved_replacement ]
  | some c ↦ if opt_eq i.old_version (some c.version) then none else some mismatched_replacement
]

-- `observed_removals`; `none` when one is not bound to a current package.
unfoldable pub observed_removals :
    List AptIdentity → String → List AptRemoval → Option (List AptIdentity)
observed_removals current native [] = some []
observed_removals current native (r ∷ removals) =
    let rest = observed_removals current native removals in
    elim (resolve_apt_removal r current native) [
      | none ↦ none
      | some a ↦ elim rest [ none ↦ none | some others ↦ some (a ∷ others) ]
    ]

abbrev pub has_identity : List AptIdentity → AptIdentity → Bool
has_identity identities a = any (same_identity a) identities

abbrev pub is_subset : List AptIdentity → List AptIdentity → Bool
is_subset xs ys = all (has_identity ys) xs

-- The four differences of the sets.
unfoldable pub difference_error :
    List AptIdentity
    → List AptIdentity
    → List AptIdentity
    → List AptIdentity
    → Option TransactionError
difference_error installs expected_installs removals expected_removals =
    if not (is_subset installs expected_installs)
    then some unexpected_install
    else if not (is_subset expected_installs installs)
    then some missing_restore
    else if not (is_subset removals expected_removals)
    then some unexpected_removal
    else if not (is_subset expected_removals removals)
    then some missing_removal
    else none

-- What follows once the operands are bound.
unfoldable pub bound_transaction_error :
    AptTransaction
    → String
    → Bindings
    → Bindings
    → List String
    → List String
    → Option TransactionError
bound_transaction_error t native restores current restore_specs remove_specs =
    if not (all (λ spec. not (is_none (get restores spec))) restore_specs)
      || not (all (λ spec. not (is_none (get current spec))) remove_specs)
    then some unbound_operands
    else or_error (first_error (replacement_error (map (λ m. m.1) current)) t.installs)
        (elim (observed_removals (map (λ m. m.1) current) native t.removals) [
          | none ↦ some unbound_removal
          | some removals ↦
              difference_error (map installed_identity t.installs)
                (identities_of restores restore_specs) removals (identities_of current remove_specs)
        ])

-- `_apt_rollback_transaction_error`, from what the parser returned.
unfoldable pub apt_rollback_transaction_error :
    Option AptTransaction
    → RollbackSnapshot
    → HostAudit
    → List String
    → List String
    → String
    → Option TransactionError
apt_rollback_transaction_error none snapshot audit restore_specs remove_specs native =
    some malformed
apt_rollback_transaction_error (some t) snapshot audit restore_specs remove_specs native =
    elim (snapshot_by_spec snapshot native snapshot.packages []) [
      | none ↦ some duplicate_restores
      | some restores ↦ elim (audit_by_remove_spec native audit.packages []) [
        | none ↦ some duplicate_slots
        | some current ↦
            bound_transaction_error t native restores current restore_specs remove_specs
      ]
    ]
