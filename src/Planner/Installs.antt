-- ===== src/Planner/Installs.antt =====
-- planner.py: which parts of a plan install no packages.
use nvidia_converge.Common.{
  ◌≡◌, ap, starts_with, refl, inl, inr, String, Bool, true, false, arith, any, ◌==◌, ==_iff,
  Bool-cases,
}
use nvidia_converge.Planner.PolicyNames.{Avoids}
use nvidia_converge.Models.{DesiredState, HostAudit, PlanAction}
use nvidia_converge.Planner.Docker.{docker_actions}
use nvidia_converge.Planner.MigPlan.{mig_actions, disable_mig, enable_mig, configure_mig_geometry}
use nvidia_converge.Planner.Plan.{module_actions, mig_phase}

abbrev pub installs : PlanAction → Bool
installs action = action.id == "install.packages"

installs-refused :
    (id : String) → starts_with id "unsupported." ≡ true → (id == "install.packages") ≡ false
installs-refused id h = elim (Bool-cases (id == "install.packages")) [
  | inl same ↦
      cc (ap (λ s. starts_with s "unsupported.") ((==_iff id "install.packages").0 same), h)
  | inr other ↦ other
]

pub installs-Avoids : Avoids (λ id. id == "install.packages")
unfolding ◌==◌
installs-Avoids = record { apt = refl; rpm = refl; zypper = refl; refused = installs-refused }

pub docker-installs : (d : DesiredState) (a : HostAudit) → any installs (docker_actions d a) ≡ false
unfolding docker_actions ◌==◌
docker-installs d a = ground arith

pub phase-installs :
    (d : DesiredState) (a : HostAudit) (reset : Bool) → any installs (mig_phase d a reset) ≡ false
unfolding mig_phase mig_actions disable_mig enable_mig configure_mig_geometry ◌==◌
phase-installs d a reset = ground arith

pub module-installs : (a : HostAudit) (reset : Bool) → any installs (module_actions a reset) ≡ false
unfolding module_actions ◌==◌
module-installs a reset = ground arith
