-- ===== src/Planner/MigAgreement.antt =====
-- planner.py: `mig_reconciliation_actions` and the MIG part of `build_plan` do the same.
use nvidia_converge.Common.{
  ◌≡◌, refl, ap, sym, ◌⊎◌, inl, inr, String, true, false, Option, none, some, arith, all, ==_iff,
  opt_eq, opt_eq_iff,
}
use nvidia_converge.Models.{DesiredState, HostAudit}
use nvidia_converge.Planner.Policy.{is_refusal}
use nvidia_converge.Planner.MigPlan.{
  mig_actions, mig_refusal, mode_change_required, geometry_change_required, is_mode,
  mig_reconciliation_actions,
}
use nvidia_converge.Planner.MigSafety.{Qualified, enabled_differs, disabled_differs}

exclusive :
    (mode : Option String)
    → opt_eq mode (some "enabled") ≡ true
    → opt_eq mode (some "disabled") ≡ false
exclusive none h = refl
exclusive (some mode) h = enabled_differs mode ((==_iff mode "enabled").0 h)

-- Where the desired and the observed MIG mode are each enabled or disabled, no transition is pending,
-- and the plan's own MIG tests admit the host, a reconciliation after a module reset takes the very
-- MIG actions that a plan without a reset takes.
pub reconciliation-mig_actions :
    (d : DesiredState) (a : HostAudit)
    → (d.mig ≡ "enabled") ⊎ (d.mig ≡ "disabled")
    → is_mode a.mig_mode ≡ true
    → a.mig_mode_pending ≡ a.mig_mode
    → mig_refusal d a ≡ none
    → mig_reconciliation_actions d a ≡ mig_actions d a
unfolding mig_reconciliation_actions mig_actions mig_refusal mode_change_required
    geometry_change_required
reconciliation-mig_actions d a (inl wanted) mode pending admitted = ground (
  arith,
  (==_iff d.mig "enabled").1 wanted,
  enabled_differs d.mig wanted,
  ap (λ (x : String). opt_eq a.mig_mode (some x)) wanted,
  ap (λ (x : Option String). opt_eq x (some "enabled")) pending,
  ap (λ (x : Option String). opt_eq x (some "disabled")) pending,
  (opt_eq_iff a.mig_mode a.mig_mode_pending).1 (sym pending),
  exclusive a.mig_mode,
)
reconciliation-mig_actions d a (inr wanted) mode pending admitted = ground (
  arith,
  (==_iff d.mig "disabled").1 wanted,
  disabled_differs d.mig wanted,
  ap (λ (x : String). opt_eq a.mig_mode (some x)) wanted,
  ap (λ (x : Option String). opt_eq x (some "enabled")) pending,
  ap (λ (x : Option String). opt_eq x (some "disabled")) pending,
  (opt_eq_iff a.mig_mode a.mig_mode_pending).1 (sym pending),
  exclusive a.mig_mode,
)

-- A reconciliation either does nothing but refuse, or it runs commands on a host with exactly one
-- GPU, whose geometry is completely observed and can be restored.
pub reconciliation-Qualified :
    (d : DesiredState) (a : HostAudit)
    → all (λ x. is_refusal x) (mig_reconciliation_actions d a) ≡ false
    → Qualified a
unfolding mig_reconciliation_actions
reconciliation-Qualified d a h = ground arith
