-- ===== src/Planner/MigPlan.antt =====
-- planner.py: the MIG part of `build_plan`, and `mig_reconciliation_actions`.
use nvidia_converge.Common.{
  String, Bool, not, ◌&&◌, ◌||◌, Option, none, some, List, [], ◌∷◌, ◌++◌, ◌==◌, is_empty, opt_eq,
  nat_eq, length, if◌then◌else◌,
}
use nvidia_converge.Models.{DesiredState, HostAudit, PlanAction}
use nvidia_converge.Mig.{
  full_mig_geometry_matches, restorable_mig_geometry, desired_full_mig_geometry_command,
  mig_geometry_destroy_commands,
}
use nvidia_converge.Planner.Policy.{unsupported, destructive_action}

-- `mode in {"enabled", "disabled"}`
abbrev pub is_mode : Option String → Bool
is_mode mode = opt_eq mode (some "enabled") || opt_eq mode (some "disabled")

-- `audit.gpu_uuids[0]`. Every use stands behind a test that there is exactly one.
abbrev pub first_uuid : List String → String
first_uuid [] = ""
first_uuid (uuid ∷ uuids) = uuid

unfoldable pub mode_change_required : DesiredState → HostAudit → Bool
mode_change_required desired audit =
    is_mode audit.mig_mode && not (opt_eq audit.mig_mode (some desired.mig))

unfoldable pub geometry_change_required : DesiredState → HostAudit → Bool
geometry_change_required desired audit =
    desired.mig == "enabled"
    && opt_eq audit.mig_mode (some "enabled")
    && not (full_mig_geometry_matches audit.mig_geometry audit.gpu_uuids)

abbrev pub mig_change_required : DesiredState → HostAudit → Bool
mig_change_required desired audit =
    mode_change_required desired audit || geometry_change_required desired audit

-- The refusals of `build_plan` that concern MIG, in their order.
unfoldable pub mig_refusal : DesiredState → HostAudit → Option PlanAction
mig_refusal desired audit =
    let change = mig_change_required desired audit in
    if opt_eq audit.mig_mode (some "mixed")
    then some (unsupported "unsupported.mig-rollback-baseline")
    else if change && not (nat_eq (length audit.gpu_uuids) 1)
    then some (unsupported "unsupported.mig-transaction-scope")
    else if change && not audit.mig_geometry_complete
    then some (unsupported "unsupported.mig-geometry-unobservable")
    else if change && not (restorable_mig_geometry audit.mig_geometry audit.gpu_uuids)
    then some (unsupported "unsupported.mig-rollback-geometry")
    else none

-- The refusals of a module reset while MIG is enabled.
unfoldable pub reset_refusal : HostAudit → Bool → Option PlanAction
reset_refusal audit module_reset_required =
    if not (module_reset_required && opt_eq audit.mig_mode (some "enabled"))
    then none
    else if not (nat_eq (length audit.gpu_uuids) 1)
    then some (unsupported "unsupported.module-reset-mig-transaction-scope")
    else if not audit.mig_geometry_complete
    then some (unsupported "unsupported.module-reset-mig-geometry-unobservable")
    else if not (restorable_mig_geometry audit.mig_geometry audit.gpu_uuids)
    then some (unsupported "unsupported.module-reset-mig-rollback-geometry")
    else none

-- `mig_geometry_destroy_commands(uuid) if audit.mig_geometry else []`
abbrev pub teardown_commands : HostAudit → List (List String)
teardown_commands audit =
    if is_empty audit.mig_geometry
    then []
    else mig_geometry_destroy_commands (first_uuid audit.gpu_uuids)

unfoldable pub disable_mig : HostAudit → PlanAction
disable_mig audit = destructive_action "disable.mig" (
    teardown_commands audit
    ++ (("nvidia-smi" ∷ "-i" ∷ first_uuid audit.gpu_uuids ∷ "-mig" ∷ "0" ∷ []) ∷ []))

unfoldable pub enable_mig : HostAudit → PlanAction
enable_mig audit = destructive_action "enable.mig" (
    ("nvidia-smi" ∷ "-i" ∷ first_uuid audit.gpu_uuids ∷ "-mig" ∷ "1" ∷ [])
    ∷ desired_full_mig_geometry_command (first_uuid audit.gpu_uuids)
    ∷ [])

unfoldable pub configure_mig_geometry : HostAudit → PlanAction
configure_mig_geometry audit = destructive_action "configure.mig-geometry" (
    teardown_commands audit
    ++ (desired_full_mig_geometry_command (first_uuid audit.gpu_uuids) ∷ []))

-- The MIG actions of `build_plan` when the module is not reset.
unfoldable pub mig_actions : DesiredState → HostAudit → List PlanAction
mig_actions desired audit =
    (if desired.mig == "disabled" && opt_eq audit.mig_mode (some "enabled")
      then disable_mig audit ∷ []
      else [])
    ++ ((if desired.mig == "enabled" && opt_eq audit.mig_mode (some "disabled")
          then enable_mig audit ∷ []
          else [])
        ++ (if geometry_change_required desired audit
            then configure_mig_geometry audit ∷ []
            else []))

-- `mig_reconciliation_actions`
unfoldable pub mig_reconciliation_actions : DesiredState → HostAudit → List PlanAction
mig_reconciliation_actions desired audit =
    if not (is_mode audit.mig_mode)
    then unsupported "unsupported.mig-state-unobservable" ∷ []
    else if not (is_mode audit.mig_mode_pending)
    then unsupported "unsupported.mig-pending-unobservable" ∷ []
    else if not (opt_eq audit.mig_mode audit.mig_mode_pending)
    then (if opt_eq audit.mig_mode_pending (some desired.mig)
        then []
        else unsupported "unsupported.mig-pending-conflict" ∷ [])
    else if opt_eq audit.mig_mode (some desired.mig) && not (geometry_change_required desired audit)
    then []
    else if not (nat_eq (length audit.gpu_uuids) 1)
    then unsupported "unsupported.mig-transaction-scope" ∷ []
    else if not audit.mig_geometry_complete
    then unsupported "unsupported.mig-geometry-unobservable" ∷ []
    else if not (restorable_mig_geometry audit.mig_geometry audit.gpu_uuids)
    then unsupported "unsupported.mig-rollback-geometry" ∷ []
    else if desired.mig == "disabled"
    then disable_mig audit ∷ []
    else if opt_eq audit.mig_mode (some "disabled")
    then enable_mig audit ∷ []
    else configure_mig_geometry audit ∷ []
