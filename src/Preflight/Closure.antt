-- ===== src/Preflight/Closure.antt =====
-- preflight.py: the packages that a transaction for some targets may touch.
use Prim.Native.Char.{Char, code}
use nvidia_converge.Common.{
  String, Bool, not, ◌&&◌, ◌||◌, List, [], ◌∷◌, map, any, contains, nat_eq, starts_with, ◌==◌, ◌<>◌,
  if◌then◌else◌,
}
use nvidia_converge.Common.Text.{span}
use nvidia_converge.Models.{HostAudit}
use nvidia_converge.Audit.{is_interesting_package}

abbrev pub toolkit_package_closure : List String
toolkit_package_closure =
    "libnvidia-container-tools" ∷ "libnvidia-container1" ∷ "nvidia-container-toolkit"
    ∷ "nvidia-container-toolkit-base" ∷ []

abbrev pub docker_package_closure : List String
docker_package_closure =
    "containerd.io" ∷ "docker-buildx-plugin" ∷ "docker-ce" ∷ "docker-ce-cli"
    ∷ "docker-ce-rootless-extras" ∷ "docker-compose-plugin" ∷ []

-- `re.split(r"[<>=]", spec, maxsplit=1)[0]`
abbrev pub is_no_relation : Char → Bool
is_no_relation c = not (nat_eq (code c) b'<' || nat_eq (code c) b'=' || nat_eq (code c) b'>')

unfoldable pub target_name : String → String
unfolding span
target_name spec = (span is_no_relation spec).0

abbrev pub is_dnf_name : String → Bool
is_dnf_name manager = manager == "dnf" || manager == "yum"

unfoldable pub forward_target_names : String → List String → HostAudit → List String
unfolding target_name
forward_target_names manager packages audit =
    map
      (λ spec.
        if is_dnf_name manager && target_name spec == "kernel-devel-" <> audit.kernel.running
        then "kernel-devel"
        else target_name spec)
      packages

unfoldable pub forward_package_observable : String → String → HostAudit → List String → Bool
unfolding is_interesting_package
forward_package_observable name manager audit targets =
    is_interesting_package name
    && (not (manager == "apt-get")
        || any (starts_with name) ("nvidia-" ∷ "libnvidia-" ∷ "cuda-" ∷ "docker-ce" ∷ [])
        || contains
            ("build-essential" ∷ "containerd.io" ∷ "docker-buildx-plugin" ∷ "docker-compose-plugin"
              ∷ "nvidia-container-toolkit" ∷ [])
            name
        || name == "linux-headers-" <> audit.kernel.running
        || contains targets name)

unfoldable pub driver_package_dependency : String → Bool
driver_package_dependency name =
    not (
      contains toolkit_package_closure name
      || any (starts_with name) (
          "cuda-compat-" ∷ "cuda-drivers-fabricmanager" ∷ "cuda-toolkit" ∷ "libnvidia-container"
          ∷ "nvidia-container" ∷ "nvidia-fabricmanager" ∷ []))
    && (contains ("cuda-drivers" ∷ "nvidia-open" ∷ []) name
        || any (starts_with name) ("cuda-drivers-" ∷ "nvidia-" ∷ "libnvidia-" ∷ []))

abbrev pub is_vendor_devel : String → Bool
is_vendor_devel name =
    contains ("kernel-default-devel" ∷ "kernel-azure-devel" ∷ "kernel-64k-devel" ∷ []) name

-- The rules for kernel packages, of which the first that applies decides.
unfoldable pub kernel_package_allowed : List String → String → Bool
kernel_package_allowed targets name =
    if any (λ target. starts_with target "linux-headers-") targets
    then starts_with name "linux-headers-"
    else if contains targets "kernel-devel" || contains targets "kernel-headers"
    then name == "kernel-devel" || name == "kernel-headers" || starts_with name "kernel-devel-"
    else any is_vendor_devel targets && is_vendor_devel name

-- `_forward_package_allowed`, for the names of the targets.
unfoldable pub target_package_allowed : String → List String → String → HostAudit → Bool
unfolding forward_package_observable driver_package_dependency kernel_package_allowed
target_package_allowed name targets manager audit =
    forward_package_observable name manager audit targets
    && (contains targets name
        || ((contains targets "cuda-drivers" || contains targets "nvidia-open")
            && driver_package_dependency name)
        || (contains targets "nvidia-container-toolkit" && contains toolkit_package_closure name)
        || (contains targets "docker-ce" && contains docker_package_closure name)
        || kernel_package_allowed targets name)

unfoldable pub forward_package_allowed : String → List String → String → HostAudit → Bool
unfolding forward_target_names target_package_allowed
forward_package_allowed name packages manager audit =
    target_package_allowed name (forward_target_names manager packages audit) manager audit
