-- ===== src/Examples/Geometry.antt =====
-- mig.py on the sample geometries.
use nvidia_converge.Common.{◌≡◌, refl, true, false, [], ◌∷◌, ◌==◌}
use nvidia_converge.Mig.{
  create, full_mig_geometry_matches, restorable_mig_geometry, mig_geometry_create_command,
  desired_full_mig_geometry_command,
}
use nvidia_converge.Mig.Commands.{Recreates, create_command-Recreates, create_command-full}
use nvidia_converge.Models.{MigGpuInstance}
use nvidia_converge.Examples.Hosts.{uuid, whole_gpu, half_gpu}

whole-matches : full_mig_geometry_matches (whole_gpu ∷ []) (uuid ∷ []) ≡ true
unfolding full_mig_geometry_matches ◌==◌
whole-matches = refl

half-differs : full_mig_geometry_matches (half_gpu ∷ []) (uuid ∷ []) ≡ false
unfolding full_mig_geometry_matches ◌==◌
half-differs = refl

half-restorable : restorable_mig_geometry (half_gpu ∷ []) (uuid ∷ []) ≡ true
unfolding restorable_mig_geometry ◌==◌
half-restorable = refl

half-command :
    mig_geometry_create_command uuid (half_gpu ∷ [])
    ≡ create ("nvidia-smi" ∷ "mig" ∷ "-i" ∷ uuid ∷ "-cgi" ∷ "9:4" ∷ "-C" ∷ [])
unfolding mig_geometry_create_command ◌==◌
half-command = refl

create_command-Recreates_example :
    (g : MigGpuInstance) × (half_gpu ∷ [] ≡ g ∷ [])
    × Recreates uuid g ("nvidia-smi" ∷ "mig" ∷ "-i" ∷ uuid ∷ "-cgi" ∷ "9:4" ∷ "-C" ∷ [])
create_command-Recreates_example =
    create_command-Recreates uuid (half_gpu ∷ [])
      ("nvidia-smi" ∷ "mig" ∷ "-i" ∷ uuid ∷ "-cgi" ∷ "9:4" ∷ "-C" ∷ []) half-command

create_command-full_example :
    mig_geometry_create_command uuid (whole_gpu ∷ [])
    ≡ create (desired_full_mig_geometry_command uuid)
create_command-full_example = create_command-full uuid (whole_gpu ∷ []) whole-matches
