-- ===== src/Audit.antt =====
-- nvidia_converge/audit.py: the packages that the audit of a host takes up.
use nvidia_converge.Common.{String, Bool, ◌||◌, [], ◌∷◌, any, contains, starts_with}

-- `_interesting_package`
unfoldable pub is_interesting_package : String → Bool
is_interesting_package name =
    any (starts_with name)
      ("nvidia" ∷ "libnvidia" ∷ "cuda" ∷ "docker-ce" ∷ "linux-headers-" ∷ "kernel-devel-" ∷ [])
    || contains
        ("build-essential" ∷ "containerd.io" ∷ "docker-buildx-plugin" ∷ "docker-compose-plugin"
          ∷ "gcc" ∷ "kernel-devel" ∷ "kernel-headers" ∷ "make" ∷ "nvidia-container-toolkit" ∷ [])
        name
    || contains ("kernel-default-devel" ∷ "kernel-azure-devel" ∷ "kernel-64k-devel" ∷ []) name
