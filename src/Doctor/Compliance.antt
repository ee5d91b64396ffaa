-- ===== src/Doctor/Compliance.antt =====
-- doctor.py: the doctor reports a healthy stack exactly for the hosts that comply.
use nvidia_converge.Common.{◌≡◌, ◌↔◌, refl, true, List, [], ◌∷◌, ◌++◌, all, all-append, arith}
use nvidia_converge.Models.{DesiredState, HostAudit, Finding, is_error}
use nvidia_converge.Doctor.Checks.{
  Check, collect, AllQuiet, collect-nil, AllQuiet-collect, collect-errors, append-nil_left,
  append-nil_right,
}
use nvidia_converge.Doctor.Host.{host_checks}
use nvidia_converge.Doctor.Drivers.{version_checks, flavor_checks, userspace_checks}
use nvidia_converge.Doctor.Services.{docker_checks, fabric_checks, fabric_version_checks}
use nvidia_converge.Doctor.MigState.{
  capability_checks, mode_checks, error_findings, or_healthy, diagnose, healthy,
}
use nvidia_converge.Doctor.Spec.{Compliant}
use nvidia_converge.Doctor.Parts.{
  host-ready, host-quiet, version-ready, version-quiet, flavor-ready, flavor-quiet, userspace-ready,
  userspace-quiet, docker-ready, docker-quiet, fabric-ready, fabric-quiet, fabric_version-quiet,
  mig-ready, mig-quiet,
}

-- The head of an appended row of findings is quiet, and so is what follows.
quiet-head :
    (checks : List Check) (rest : List Finding) → collect checks ++ rest ≡ [] → AllQuiet checks
quiet-head checks rest h = AllQuiet-collect checks (append-nil_left (collect checks) rest h)

quiet-rest : (checks : List Check) (rest : List Finding) → collect checks ++ rest ≡ [] → rest ≡ []
quiet-rest checks rest h = append-nil_right (collect checks) rest h

append-quiet :
    (checks : List Check) {rest : List Finding}
    → AllQuiet checks
    → rest ≡ []
    → collect checks ++ rest ≡ []
append-quiet checks q e = rw (collect-nil checks q, e)

module _ (d : DesiredState) (a : HostAudit) where
  compliant_of_nil : error_findings d a ≡ [] → Compliant d a
  unfolding error_findings
  compliant_of_nil e0 =
      let e1 = quiet-rest (host_checks d a) _ e0 in
      let e2 = quiet-rest (version_checks d a) _ e1 in
      let e3 = quiet-rest (flavor_checks d a) _ e2 in
      let e4 = quiet-rest (userspace_checks d a) _ e3 in
      let e5 = quiet-rest (docker_checks d a) _ e4 in
      let e6 = quiet-rest (fabric_checks d a) _ e5 in
      let e7 = quiet-rest (fabric_version_checks d a) _ e6 in
      let version = version-ready d a (quiet-head (version_checks d a) _ e1) in
      record {
        host = host-ready d a (quiet-head (host_checks d a) _ e0);
        version = version;
        flavor = flavor-ready d a version (quiet-head (flavor_checks d a) _ e2);
        userspace = userspace-ready d a (quiet-head (userspace_checks d a) _ e3);
        docker = docker-ready d a (quiet-head (docker_checks d a) _ e4);
        fabric =
            fabric-ready d a version (quiet-head (fabric_checks d a) _ e5)
              (quiet-head (fabric_version_checks d a) _ e6);
        mig =
            mig-ready d a (quiet-head (capability_checks d a) _ e7)
              (AllQuiet-collect (mode_checks d a) (quiet-rest (capability_checks d a) _ e7));
      }

  nil_of_compliant : Compliant d a → error_findings d a ≡ []
  unfolding error_findings
  nil_of_compliant c =
      let (capability, mode) = mig-quiet d a c.mig in
      append-quiet (host_checks d a) (host-quiet d a c.host) (
        append-quiet (version_checks d a) (version-quiet d a c.version) (
          append-quiet (flavor_checks d a) (flavor-quiet d a c.flavor) (
            append-quiet (userspace_checks d a) (userspace-quiet d a c.userspace) (
              append-quiet (docker_checks d a) (docker-quiet d a c.docker) (
                append-quiet (fabric_checks d a) (fabric-quiet d a c.fabric) (
                  append-quiet (fabric_version_checks d a) (fabric_version-quiet d a c.fabric) (
                    append-quiet (capability_checks d a) capability
                      (collect-nil (mode_checks d a) mode))))))))

  error_findings-errors : all (λ f. is_error f.severity) (error_findings d a) ≡ true
  unfolding error_findings
  error_findings-errors = simp (all-append, collect-errors)

or_healthy_iff :
    (fs : List Finding)
    → all (λ f. is_error f.severity) fs ≡ true
    → (or_healthy fs ≡ healthy ∷ []) ↔ (fs ≡ [])
unfolding or_healthy
or_healthy_iff [] errors = (λ e. refl, λ e. refl)
or_healthy_iff (f ∷ fs) errors = (λ e. ground arith, λ e. cc)

-- The doctor's report is the single entry `stack.healthy` exactly when the host complies with the
-- desired state.
pub diagnose-healthy :
    (d : DesiredState) (a : HostAudit) → (diagnose d a ≡ healthy ∷ []) ↔ Compliant d a
unfolding diagnose
diagnose-healthy d a = (
  λ e. compliant_of_nil d a ((or_healthy_iff (error_findings d a) (error_findings-errors d a)).0 e),
  λ c. (or_healthy_iff (error_findings d a) (error_findings-errors d a)).1 (nil_of_compliant d a c),
)
