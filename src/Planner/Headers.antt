-- ===== src/Planner/Headers.antt =====
-- planner.py: `_kernel_build_targets` names the header packages of the running kernel.
use Prim.Native.String.append
use Prim.Native.String.compare
use nvidia_converge.Common.{
  ◌≡◌, refl, sym, ap, ◌∙◌, ◌⊎◌, inl, inr, String, true, false, not, ◌||◌, none, some, [], ◌∷◌, ◌==◌,
  ◌<>◌, ==_iff, ==_self, opt_eq, opt_eq_iff, arith, contains, select, Bool-cases, Option-cases,
  if◌then◌else◌,
}
use nvidia_converge.Models.{HostAudit}
use nvidia_converge.Planner.Recipe.{release_major, suse_kernel_devel}
use nvidia_converge.Planner.Packages.{kernel_build_targets, rhel_build_dependencies}

-- A package that carries the headers of the running kernel, by package manager.
pub data IsHeaderPackage (a : HostAudit) (name : String) : Type 0 where
  apt_headers :
      a.package_manager ≡ some "apt-get"
      → name ≡ "linux-headers-" <> a.kernel.running
      → IsHeaderPackage a name
  rhel_headers :
      (a.package_manager ≡ some "dnf") ⊎ (a.package_manager ≡ some "yum")
      → opt_eq (release_major a.os_version) (some "9") ≡ false
      → (name ≡ "kernel-devel-" <> a.kernel.running) ⊎ (name ≡ "kernel-headers")
      → IsHeaderPackage a name
  suse_headers :
      a.package_manager ≡ some "zypper"
      → suse_kernel_devel a.kernel.running ≡ some name
      → IsHeaderPackage a name

devel_not_compiler :
    (kernel : String) → contains ("gcc" ∷ "make" ∷ []) ("kernel-devel-" <> kernel) ≡ false
unfolding ◌==◌
devel_not_compiler kernel =
    rw
      (
        append.cons "k" "ernel-devel-" kernel,
        compare.cons-cons "g" "k" "cc" ("ernel-devel-" <> kernel),
        compare.cons-cons "m" "k" "ake" ("ernel-devel-" <> kernel),
      )
      refl

headers_not_compiler : contains ("gcc" ∷ "make" ∷ []) "kernel-headers" ≡ false
unfolding ◌==◌
headers_not_compiler = refl

compilers_excluded :
    (contains ("gcc" ∷ "make" ∷ []) "gcc" ≡ true) × (contains ("gcc" ∷ "make" ∷ []) "make" ≡ true)
unfolding ◌==◌
compilers_excluded = (refl, refl)

-- The names among the build dependencies of an RPM host that are no compiler.
rhel-targets :
    (a : HostAudit)
    → select
        (λ name. not (contains ("gcc" ∷ "make" ∷ []) name))
        (rhel_build_dependencies a.kernel.running a.os_version)
      ≡ (if opt_eq (release_major a.os_version) (some "9")
          then []
          else ("kernel-devel-" <> a.kernel.running) ∷ "kernel-headers" ∷ [])
unfolding rhel_build_dependencies
rhel-targets a =
    ground (arith, devel_not_compiler a.kernel.running, headers_not_compiler, compilers_excluded)

-- The targets for the headers, by package manager.
module _ (a : HostAudit) where
  apt-targets :
      a.package_manager ≡ some "apt-get"
      → kernel_build_targets a ≡ ("linux-headers-" <> a.kernel.running) ∷ []
  unfolding kernel_build_targets
  apt-targets manager = rw manager (ground (arith, ==_self "apt-get"))

  dnf-targets :
      (a.package_manager ≡ some "dnf") ⊎ (a.package_manager ≡ some "yum")
      → kernel_build_targets a ≡ (
          if opt_eq (release_major a.os_version) (some "9")
          then []
          else ("kernel-devel-" <> a.kernel.running) ∷ "kernel-headers" ∷ [])
  unfolding kernel_build_targets ◌==◌
  dnf-targets (inl manager) = rw manager (rhel-targets a)
  dnf-targets (inr manager) = rw manager (rhel-targets a)

  zypper-targets :
      a.package_manager ≡ some "zypper"
      → kernel_build_targets a
        ≡ elim (suse_kernel_devel a.kernel.running) [ none ↦ [] | some name ↦ name ∷ [] ]
  unfolding kernel_build_targets ◌==◌
  zypper-targets manager = rw manager refl

  no-targets :
      opt_eq a.package_manager (some "apt-get") ≡ false
      → (opt_eq a.package_manager (some "dnf") || opt_eq a.package_manager (some "yum")) ≡ false
      → opt_eq a.package_manager (some "zypper") ≡ false
      → kernel_build_targets a ≡ []
  unfolding kernel_build_targets
  no-targets not_apt not_rpm not_zypper = ground arith

module _ (a : HostAudit) (name : String) where
  pub IsHeaderPackage-target :
      IsHeaderPackage a name → contains (kernel_build_targets a) name ≡ true
  IsHeaderPackage-target (apt_headers manager same) =
      ap (λ ts. contains ts name) (apt-targets a manager) ∙ ground (arith, ==_iff name name, same)
  IsHeaderPackage-target (rhel_headers manager release same) =
      ap (λ ts. contains ts name) (dnf-targets a manager) ∙ elim same [
        | inl devel ↦
            rw (release, devel) (ground (arith, ==_self ("kernel-devel-" <> a.kernel.running)))
        | inr common ↦ rw (release, common) (ground (arith, ==_self "kernel-headers"))
      ]
  IsHeaderPackage-target (suse_headers manager found) =
      ap (λ ts. contains ts name) (zypper-targets a manager)
      ∙ rw found (ground (arith, ==_self name))

  rpm-IsHeaderPackage :
      (a.package_manager ≡ some "dnf") ⊎ (a.package_manager ≡ some "yum")
      → contains (kernel_build_targets a) name ≡ true
      → IsHeaderPackage a name
  rpm-IsHeaderPackage manager h =
      let found = sym (ap (λ ts. contains ts name) (dnf-targets a manager)) ∙ h in
      rhel_headers manager (ground arith)
        (elim (Bool-cases (("kernel-devel-" <> a.kernel.running) == name)) [
          | inl devel ↦ inl (sym ((==_iff ("kernel-devel-" <> a.kernel.running) name).0 devel))
          | inr other ↦ inr (sym ((==_iff "kernel-headers" name).0 (ground arith)))
        ])

  zypper-IsHeaderPackage :
      a.package_manager ≡ some "zypper"
      → contains
          (elim (suse_kernel_devel a.kernel.running) [ none ↦ [] | some found ↦ found ∷ [] ])
          name
        ≡ true
      → IsHeaderPackage a name
  zypper-IsHeaderPackage manager h = elim (Option-cases (suse_kernel_devel a.kernel.running)) [
    | inl missing ↦ ground arith
    | inr (found, e) ↦ suse_headers manager (e ∙ ap some ((==_iff found name).0 (ground arith)))
  ]

  pub target-IsHeaderPackage :
      contains (kernel_build_targets a) name ≡ true → IsHeaderPackage a name
  target-IsHeaderPackage h = elim (Bool-cases (opt_eq a.package_manager (some "apt-get"))) [
    | inl apt ↦
        let manager = (opt_eq_iff a.package_manager (some "apt-get")).0 apt in
        apt_headers manager (
          sym (
            (==_iff ("linux-headers-" <> a.kernel.running) name).0
              (ground (arith, sym (ap (λ ts. contains ts name) (apt-targets a manager)) ∙ h))))
    | inr not_apt ↦ elim (Bool-cases (opt_eq a.package_manager (some "zypper"))) [
      | inl zypper ↦
          let manager = (opt_eq_iff a.package_manager (some "zypper")).0 zypper in
          zypper-IsHeaderPackage manager
            (sym (ap (λ ts. contains ts name) (zypper-targets a manager)) ∙ h)
      | inr not_zypper ↦ elim (Bool-cases (opt_eq a.package_manager (some "dnf"))) [
        | inl dnf ↦ rpm-IsHeaderPackage (inl ((opt_eq_iff a.package_manager (some "dnf")).0 dnf)) h
        | inr not_dnf ↦ elim (Bool-cases (opt_eq a.package_manager (some "yum"))) [
          | inl yum ↦
              rpm-IsHeaderPackage (inr ((opt_eq_iff a.package_manager (some "yum")).0 yum)) h
          | inr not_yum ↦
              let none_left = no-targets a not_apt (ground arith) not_zypper in
              let absent : false ≡ true = sym (ap (λ ts. contains ts name) none_left) ∙ h in cc
        ]
      ]
    ]
  ]
