-- ===== src/Planner/Targets.antt =====
-- planner.py: `package_install_targets` names what the host lacks, and nothing else.
use nvidia_converge.Common.{
  ◌≡◌, refl, sym, ap, ◌∙◌, ◌⊎◌, ◌↔◌, inl, inr, String, Bool, true, false, not, ◌&&◌, ◌||◌, none,
  some, List, [], ◌∷◌, ◌++◌, ◌==◌, ==_iff, ==_self, opt_eq, opt_eq_iff, opt_bool_eq, is_none,
  is_true, arith, contains, IsNodup, Bool-cases, if◌then◌else◌,
}
use nvidia_converge.Common.Sets.{contains-drop_seen, drop_seen-IsNodup}
use nvidia_converge.Models.{DesiredState, HostAudit, open_kernel_module, matches_driver_version}
use nvidia_converge.Planner.Recipe.{on_disk_ready}
use nvidia_converge.Planner.Headers.{
  IsHeaderPackage, IsHeaderPackage-target, target-IsHeaderPackage,
}
use nvidia_converge.Planner.Packages.{
  deduplicate, drifted_components, package_install_targets, kernel_build_targets,
  driver_package_name, needs_driver_install,
}

-- A package that the desired state needs and the host lacks: the driver, where the module on disk
-- has another version or flavor, or not the signature that is asked for; the container runtimes; the
-- headers of the running kernel; and a compiler.
pub data IsLacking (d : DesiredState) (a : HostAudit) (name : String) : Type 0 where
  driver :
      (matches_driver_version d a.module_info.installed_version ≡ false)
        ⊎ ((opt_bool_eq a.module_info.installed_open_module (some (open_kernel_module d)) ≡ false)
            ⊎ ((d.secure_boot ≡ "signed") × (is_true a.module_info.installed_signed ≡ false)))
      → name ≡ (if open_kernel_module d then "nvidia-open" else "cuda-drivers")
      → IsLacking d a name
  container_toolkit :
      a.runtime.nvidia_container_runtime_installed ≡ false
      → name ≡ "nvidia-container-toolkit"
      → IsLacking d a name
  docker : a.runtime.docker_installed ≡ false → name ≡ "docker-ce" → IsLacking d a name
  headers : a.kernel.headers_installed ≡ false → IsHeaderPackage a name → IsLacking d a name
  apt_compiler :
      a.kernel.compiler ≡ none
      → a.package_manager ≡ some "apt-get"
      → name ≡ "build-essential"
      → IsLacking d a name
  compiler :
      a.kernel.compiler ≡ none
      → opt_eq a.package_manager (some "apt-get") ≡ false
      → (name ≡ "gcc") ⊎ (name ≡ "make")
      → IsLacking d a name

contains-append :
    (xs ys : List String) (x : String) → contains (xs ++ ys) x ≡ (contains xs x || contains ys x)
contains-append [] ys x = refl
contains-append (y ∷ xs) ys x = ground (arith, contains-append xs ys x)

contains-if :
    (b : Bool) (xs : List String) (x : String)
    → contains (if b then xs else []) x ≡ (b && contains xs x)
contains-if true xs x = refl
contains-if false xs x = refl

module _ (d : DesiredState) (a : HostAudit) (name : String) where
  contains-drifted : contains (drifted_components d a) name ≡ (
      not (on_disk_ready d a) && driver_package_name d == name
      || not a.runtime.nvidia_container_runtime_installed && "nvidia-container-toolkit" == name
      || not a.runtime.docker_installed && "docker-ce" == name
      || not a.kernel.headers_installed && contains (kernel_build_targets a) name
      || is_none a.kernel.compiler
        && opt_eq a.package_manager (some "apt-get")
        && "build-essential" == name
      || is_none a.kernel.compiler
        && not (opt_eq a.package_manager (some "apt-get"))
        && ("gcc" == name || "make" == name))
  unfolding drifted_components needs_driver_install
  contains-drifted = simp (contains-append, contains-if) (ground arith)

  IsLacking-drifted : IsLacking d a name → contains (drifted_components d a) name ≡ true
  unfolding on_disk_ready driver_package_name
  IsLacking-drifted (driver why same) =
      contains-drifted
      ∙ ground (arith, ==_self name, ap (λ n. n == name) same, ==_iff d.secure_boot "signed")
  IsLacking-drifted (container_toolkit why same) =
      contains-drifted ∙ ground (arith, (==_iff "nvidia-container-toolkit" name).1 (sym same))
  IsLacking-drifted (docker why same) =
      contains-drifted ∙ ground (arith, (==_iff "docker-ce" name).1 (sym same))
  IsLacking-drifted (headers why carried) =
      contains-drifted ∙ ground (arith, IsHeaderPackage-target a name carried)
  IsLacking-drifted (apt_compiler why manager same) =
      contains-drifted
      ∙ ground (
        arith,
        (==_iff "build-essential" name).1 (sym same),
        (opt_eq_iff a.package_manager (some "apt-get")).1 manager,
      )
  IsLacking-drifted (compiler why manager same) =
      contains-drifted ∙ ground (arith, ==_iff "gcc" name, ==_iff "make" name)

  lacking_driver :
      on_disk_ready d a ≡ false
      → (matches_driver_version d a.module_info.installed_version ≡ false)
        ⊎ ((opt_bool_eq a.module_info.installed_open_module (some (open_kernel_module d)) ≡ false)
            ⊎ ((d.secure_boot ≡ "signed") × (is_true a.module_info.installed_signed ≡ false)))
  unfolding on_disk_ready
  lacking_driver h = elim (Bool-cases (matches_driver_version d a.module_info.installed_version)) [
    | inr other ↦ inl other
    | inl version ↦
        elim (Bool-cases
          (opt_bool_eq a.module_info.installed_open_module (some (open_kernel_module d)))) [
            | inr other ↦ inr (inl other)
            | inl flavor ↦
                inr (inr ((==_iff d.secure_boot "signed").0 (ground arith), ground arith))
          ]
  ]

  compiler-IsLacking :
      is_none a.kernel.compiler ≡ true
      → (if opt_eq a.package_manager (some "apt-get")
          then "build-essential" == name
          else "gcc" == name || "make" == name)
        ≡ true
      → IsLacking d a name
  compiler-IsLacking missing h =
      let gone : a.kernel.compiler ≡ none = ground arith in
      elim (Bool-cases (opt_eq a.package_manager (some "apt-get"))) [
        | inl apt ↦
            apt_compiler gone ((opt_eq_iff a.package_manager (some "apt-get")).0 apt)
              (sym ((==_iff "build-essential" name).0 (ground arith)))
        | inr other ↦ elim (Bool-cases ("gcc" == name)) [
          | inl gcc ↦ compiler gone other (inl (sym ((==_iff "gcc" name).0 gcc)))
          | inr not_gcc ↦ compiler gone other (inr (sym ((==_iff "make" name).0 (ground arith))))
        ]
      ]

  drifted-IsLacking : contains (drifted_components d a) name ≡ true → IsLacking d a name
  unfolding driver_package_name
  drifted-IsLacking h =
      let found = sym contains-drifted ∙ h in
      elim (Bool-cases (not (on_disk_ready d a) && driver_package_name d == name)) [
        | inl one ↦
            driver (lacking_driver (ground arith))
              (sym ((==_iff (driver_package_name d) name).0 (ground arith)))
        | inr none1 ↦
            elim (Bool-cases (
              not a.runtime.nvidia_container_runtime_installed
              && "nvidia-container-toolkit" == name)) [
                | inl one ↦
                    container_toolkit (ground arith)
                      (sym ((==_iff "nvidia-container-toolkit" name).0 (ground arith)))
                | inr none2 ↦
                    elim (Bool-cases (not a.runtime.docker_installed && "docker-ce" == name)) [
                      | inl one ↦
                          docker (ground arith) (sym ((==_iff "docker-ce" name).0 (ground arith)))
                      | inr none3 ↦ elim (Bool-cases a.kernel.headers_installed) [
                        | inl present ↦ compiler-IsLacking (ground arith) (ground arith)
                        | inr missing ↦ elim (Bool-cases (contains (kernel_build_targets a) name)) [
                          | inl one ↦ headers missing (target-IsHeaderPackage a name one)
                          | inr none4 ↦ compiler-IsLacking (ground arith) (ground arith)
                        ]
                      ]
                    ]
              ]
      ]

-- The install targets are, without repetition, exactly the packages that the host lacks for the
-- desired state.
pub package_install_targets-IsLacking :
    (d : DesiredState) (a : HostAudit) (name : String)
    → IsNodup (package_install_targets d a)
      × ((contains (package_install_targets d a) name ≡ true) ↔ IsLacking d a name)
unfolding package_install_targets deduplicate
package_install_targets-IsLacking d a name =
    let kept = contains-drop_seen (drifted_components d a) [] name in
    (
      drop_seen-IsNodup (drifted_components d a) [],
      (
        λ h. drifted-IsLacking d a name (ground arith),
        λ lacking. ground (arith, IsLacking-drifted d a name lacking),
      ),
    )
