-- ===== src/Mig/Commands.antt =====
-- mig.py: the command that recreates a geometry names the recorded GPU, profile and placement.
use nvidia_converge.Common.{
  ℕ, String, ◌≡◌, refl, ap, ◌∙◌, true, ◌<>◌, Option, none, some, List, [], ◌∷◌, arith, ==_iff,
}
use mathlib.Core.Path.{ap₂}
use nvidia_converge.Common.Text.{split_once}
use nvidia_converge.Common.Decimal.{read_int, show_int, read_int-show_int, split_once-show_int}
use nvidia_converge.Models.{MigGpuInstance}
use nvidia_converge.Mig.{
  create, full_mig_geometry_matches, mig_geometry_create_command, create_operand,
  desired_full_mig_geometry_command,
}

-- How nvidia-smi reads the operand of `-cgi`: a profile and a placement around a colon.
abbrev read_parts : String × Option String → Option (ℕ × ℕ)
read_parts (profile, none) = none
read_parts (profile, some start) = some (read_int profile, read_int start)

pub read_operand : String → Option (ℕ × ℕ)
read_operand operand = read_parts (split_once ":" operand)

pub read_operand-create_operand :
    (g : MigGpuInstance) → read_operand (create_operand g) ≡ some (g.profile_id, g.placement_start)
unfolding read_operand create_operand
read_operand-create_operand g =
    ap read_parts (split_once-show_int g.profile_id (show_int g.placement_start))
    ∙ cc (read_int-show_int g.profile_id, read_int-show_int g.placement_start)

-- The command recreates the one instance of the geometry, on its GPU.
pub record Recreates (uuid : String) (g : MigGpuInstance) (command : List String) : Type 0 where
  pub operand : String
  pub same_gpu : g.gpu_uuid ≡ uuid
  pub written : command ≡ "nvidia-smi" ∷ "mig" ∷ "-i" ∷ uuid ∷ "-cgi" ∷ operand ∷ "-C" ∷ []
  pub reads : read_operand operand ≡ some (g.profile_id, g.placement_start)

-- Whenever a creation command is built, the geometry is a single instance, and the command names
-- the GPU of that instance and an operand that reads back as its profile and placement.
pub create_command-Recreates :
    (uuid : String) (geometry : List MigGpuInstance) (command : List String)
    → mig_geometry_create_command uuid geometry ≡ create command
    → (g : MigGpuInstance) × (geometry ≡ g ∷ []) × Recreates uuid g command
unfolding mig_geometry_create_command
create_command-Recreates uuid [] command h = cc
create_command-Recreates uuid (g ∷ []) command h = (
  g,
  refl,
  record {
    operand = create_operand g;
    same_gpu = ground (arith, ==_iff g.gpu_uuid uuid);
    written = ground arith;
    reads = read_operand-create_operand g;
  },
)
create_command-Recreates uuid (g ∷ g' ∷ gs) command h = ground arith

create_operand-zero :
    (g : MigGpuInstance) → g.profile_id ≡ 0 → g.placement_start ≡ 0 → create_operand g ≡ "0:0"
unfolding create_operand show_int
create_operand-zero g profile start =
    ap₂ (λ (a b : ℕ). show_int a <> (":" <> show_int b)) profile start

-- The full geometry is recreated by the command that plans use for it.
pub create_command-full :
    (uuid : String) (geometry : List MigGpuInstance)
    → full_mig_geometry_matches geometry (uuid ∷ []) ≡ true
    → mig_geometry_create_command uuid geometry ≡ create (desired_full_mig_geometry_command uuid)
unfolding mig_geometry_create_command full_mig_geometry_matches desired_full_mig_geometry_command
create_command-full uuid (g ∷ []) h = ground (arith, create_operand-zero g)
create_command-full uuid _ h = cc
