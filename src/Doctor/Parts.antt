-- ===== src/Doctor/Parts.antt =====
-- doctor.py: the checks of each part stay quiet exactly when that part of the host is ready.
use nvidia_converge.Common.{opt_eq_iff}
use nvidia_converge.Common.{
  ◌≡◌, ◌≢◌, refl, sym, ap, inl, inr, Option, String, Bool-cases, ==_self, true, false, some, none,
  arith, ==_iff, ◌==◌, ◌⊎◌,
}
use nvidia_converge.Models.{DesiredState, HostAudit, matches_driver_version}
use nvidia_converge.Doctor.Checks.{is_nonempty, both_differ, AllQuiet}
use nvidia_converge.Doctor.Host.{host_checks}
use nvidia_converge.Doctor.Drivers.{version_checks, flavor_checks, userspace_checks}
use nvidia_converge.Doctor.Services.{docker_checks, fabric_checks, fabric_version_checks}
use nvidia_converge.Doctor.MigState.{
  capability_checks, mode_checks_at, mode_checks, geometry_checks,
}
use nvidia_converge.Doctor.Spec.{
  When, HostReady, VersionReady, FlavorReady, UserspaceReady, DockerReady, FabricReady, MigReady,
}

both_differ-same : (x y : Option String) → x ≢ none → y ≢ none → both_differ x y ≡ false → x ≡ y
both_differ-same none y hx hy h = absurd (hx refl)
both_differ-same (some x) none hx hy h = absurd (hy refl)
both_differ-same (some x) (some y) hx hy h = ground (arith, ==_iff x y)

both_differ_self : (x : Option String) → both_differ x x ≡ false
both_differ_self none = refl
both_differ_self (some x) = rw ==_self

empty_of_quiet : (x : Option String) → x ≢ none → is_nonempty x ≡ false → x ≡ some ""
empty_of_quiet none hx h = absurd (hx refl)
empty_of_quiet (some x) hx h = ground (arith, ==_iff x "")

both_differ-cases :
    (x y : Option String) → x ≢ none → both_differ x y ≡ false → (y ≡ none) ⊎ (x ≡ y)
both_differ-cases x none hx h = inl refl
both_differ-cases x (some y) hx h = inr (both_differ-same x (some y) hx (λ e. cc) h)

quiet_of_same : (x y : Option String) → (y ≡ none) ⊎ (x ≡ y) → both_differ x y ≡ false
quiet_of_same none y h = refl
quiet_of_same (some x) none h = refl
quiet_of_same (some x) (some y) (inl e) = cc
quiet_of_same (some x) (some y) (inr e) = ground (arith, ==_iff x y)

matches-known :
    (d : DesiredState) (version : Option String)
    → matches_driver_version d version ≡ true
    → version ≢ none
unfolding matches_driver_version
matches-known d none h = cc
matches-known d (some v) h = λ e. cc

module _ (d : DesiredState) (a : HostAudit) where
  open a use {module_info as m}

  pub host-ready : AllQuiet (host_checks d a) → HostReady d a
  unfolding host_checks
  host-ready q = ground arith

  pub host-quiet : HostReady d a → AllQuiet (host_checks d a)
  unfolding host_checks
  host-quiet r = ground arith

  pub version-ready : AllQuiet (version_checks d a) → VersionReady d a
  unfolding version_checks
  version-ready q =
      let known : m.version ≢ none = ground arith in
      record {
        loaded = ground arith;
        known = known;
        same =
            sym
              (both_differ-same m.version m.installed_version known (ground arith) (ground arith));
        matches = elim (Bool-cases (matches_driver_version d m.version)) [
          | inl ok ↦ inr ok
          | inr bad ↦ inl (empty_of_quiet m.version known (ground arith))
        ];
      }

  pub version-quiet : VersionReady d a → AllQuiet (version_checks d a)
  unfolding version_checks
  version-quiet r =
      ground (arith, both_differ_self m.version, ap (both_differ m.version) r.same, ==_self "")

  pub flavor-ready : VersionReady d a → AllQuiet (flavor_checks d a) → FlavorReady d a
  unfolding flavor_checks
  flavor-ready v q = ground arith

  pub flavor-quiet : FlavorReady d a → AllQuiet (flavor_checks d a)
  unfolding flavor_checks
  flavor-quiet r = ground arith

  pub userspace-ready : AllQuiet (userspace_checks d a) → UserspaceReady d a
  unfolding userspace_checks
  userspace-ready q = ground (arith, ==_iff d.cuda_compat "none")

  pub userspace-quiet : UserspaceReady d a → AllQuiet (userspace_checks d a)
  unfolding userspace_checks
  userspace-quiet r = ground (arith, ==_iff d.cuda_compat "none")

  pub docker-ready :
      AllQuiet (docker_checks d a) → When (d.container_runtime == "docker") (DockerReady d a)
  unfolding docker_checks
  docker-ready q = ground arith

  pub docker-quiet :
      When (d.container_runtime == "docker") (DockerReady d a) → AllQuiet (docker_checks d a)
  unfolding docker_checks
  docker-quiet r = ground arith

  pub fabric-ready :
      VersionReady d a
      → AllQuiet (fabric_checks d a)
      → AllQuiet (fabric_version_checks d a)
      → When d.fabric_manager (FabricReady d a)
  unfolding fabric_checks fabric_version_checks
  fabric-ready v p q = ground (arith, both_differ-cases a.fabric_manager_version m.version)

  pub fabric-quiet : When d.fabric_manager (FabricReady d a) → AllQuiet (fabric_checks d a)
  unfolding fabric_checks
  fabric-quiet r = ground arith

  pub fabric_version-quiet :
      When d.fabric_manager (FabricReady d a) → AllQuiet (fabric_version_checks d a)
  unfolding fabric_version_checks
  fabric_version-quiet r = ground (
    arith,
    quiet_of_same a.fabric_manager_version m.version,
    matches-known d a.fabric_manager_version,
  )

  geometry-ready :
      AllQuiet (capability_checks d a)
      → AllQuiet (geometry_checks d a)
      → a.mig_mode ≡ some d.mig
      → a.mig_mode_pending ≡ some d.mig
      → MigReady d a
  unfolding capability_checks geometry_checks
  geometry-ready c g mode pending = ground arith

  mode-ready :
      (mode : Option String)
      → AllQuiet (mode_checks_at d a mode)
      → a.mig_mode_pending ≢ none
      → (mode ≡ some d.mig) × AllQuiet (mode_checks_at d a (some d.mig))
  unfolding mode_checks_at
  mode-ready none q known = ground arith
  mode-ready (some mode) q known = ground (arith, ==_iff mode d.mig)

  pending-ready :
      AllQuiet (capability_checks d a) → a.mig_mode ≡ some d.mig → (a.mig_mode_pending ≡ some d.mig)
  unfolding capability_checks
  pending-ready c mode = ground (arith, opt_eq_iff a.mig_mode_pending a.mig_mode)

  pub mig-quiet : MigReady d a → AllQuiet (capability_checks d a) × AllQuiet (mode_checks d a)
  unfolding capability_checks mode_checks
  mig-quiet r = ground (arith, opt_eq_iff a.mig_mode_pending a.mig_mode, ==_self d.mig)

  pending-known : AllQuiet (capability_checks d a) → a.mig_mode_pending ≢ none
  unfolding capability_checks
  pending-known c = ground arith

  geometry-quiet :
      a.mig_mode_pending ≡ some d.mig
      → AllQuiet (mode_checks_at d a (some d.mig))
      → AllQuiet (geometry_checks d a)
  unfolding mode_checks_at
  geometry-quiet pending q = ground (arith, ==_self d.mig)

  pub mig-ready : AllQuiet (capability_checks d a) → AllQuiet (mode_checks d a) → MigReady d a
  unfolding mode_checks
  mig-ready c q =
      let (mode, at_mode) = mode-ready a.mig_mode q (pending-known c) in
      let pending = pending-ready c mode in
      geometry-ready c (geometry-quiet pending at_mode) mode pending
