-- ===== src/Mig.antt =====
-- nvidia_converge/mig.py: which MIG geometry can be restored, and the commands that create and
-- destroy it.
pub mod Commands
pub mod Laws
use Prim.Native.Char.{Char, code}
use nvidia_converge.Common.{
  ℕ, String, Bool, true, false, not, ◌&&◌, ◌||◌, Option, none, some, List, [], ◌∷◌, ◌==◌, ◌<>◌,
  nat_eq, if◌then◌else◌,
}
use nvidia_converge.Common.Text.{is_digit, span, has_char, after_prefix, strip, lower}
use nvidia_converge.Common.Decimal.{show_int}
use nvidia_converge.Models.{MigComputeInstance, MigGpuInstance}

-- `.+` over the whole rest of a text: `.` matches all but a line feed.
unfoldable pub is_dot_plus : String → Bool
unfolding has_char
is_dot_plus s = not (s == "") && not (has_char "\n" s)

unfoldable pub starts_nonzero : String → Bool
starts_nonzero String.[] = false
starts_nonzero (String.◌∷◌ c s) = not (nat_eq (code c) b'0')

-- `re.fullmatch(r"([1-9]\d*)X\.(.+)", profile)` for a unit letter X, with its two groups.
unfoldable pub sliced_profile : String → String → Option (String × String)
unfolding span is_digit after_prefix starts_nonzero is_dot_plus
sliced_profile unit profile =
    let (slices, tail) = span is_digit profile in
    elim (after_prefix tail (unit <> ".")) [
      | none ↦ none
      | some rest ↦ if starts_nonzero slices && is_dot_plus rest then some (slices, rest) else none
    ]

-- `_normalize_profile`
unfoldable pub normalize_profile : String → String
unfolding after_prefix strip lower
normalize_profile profile =
    lower (strip (elim (after_prefix profile "MIG ") [ some rest ↦ rest | none ↦ profile ]))

-- The two patterns of `_compute_instance_uses_full_gpu_instance` and the tests on their groups.
unfoldable pub profiles_agree : String → String → Bool
unfolding sliced_profile
profiles_agree gpu_profile compute_profile = elim (sliced_profile "g" gpu_profile) [
  | none ↦ false
  | some (gpu_slices, _) ↦ elim (sliced_profile "c" compute_profile) [
    | none ↦ false
    | some (compute_slices, gpu) ↦ elim (sliced_profile "g" gpu) [
      | none ↦ false
      | some _ ↦ gpu == gpu_profile && compute_slices == gpu_slices
    ]
  ]
]

-- `_compute_instance_uses_full_gpu_instance`, of the only compute instance.
unfoldable pub compute_instance_uses_full_gpu_instance : MigGpuInstance → MigComputeInstance → Bool
unfolding normalize_profile profiles_agree
compute_instance_uses_full_gpu_instance instance_ compute =
    let gpu_profile = normalize_profile instance_.profile in
    let compute_profile = normalize_profile compute.profile in
    if compute_profile == gpu_profile then true else profiles_agree gpu_profile compute_profile

unfoldable pub has_one_full_compute : MigGpuInstance → List MigComputeInstance → Bool
unfolding compute_instance_uses_full_gpu_instance
has_one_full_compute g (compute ∷ []) = compute_instance_uses_full_gpu_instance g compute
has_one_full_compute g _ = false

unfoldable pub full_mig_geometry_matches : List MigGpuInstance → List String → Bool
unfolding has_one_full_compute
full_mig_geometry_matches (g ∷ []) (uuid ∷ []) =
    g.gpu_uuid == uuid
    && nat_eq g.profile_id 0
    && nat_eq g.placement_start 0
    && has_one_full_compute g g.compute_instances
full_mig_geometry_matches _ _ = false

unfoldable pub restorable_mig_geometry : List MigGpuInstance → List String → Bool
unfolding has_one_full_compute
restorable_mig_geometry [] gpu_uuids = true
restorable_mig_geometry (g ∷ []) (uuid ∷ []) =
    g.gpu_uuid == uuid && has_one_full_compute g g.compute_instances
restorable_mig_geometry _ _ = false

-- No command, the command, or the `ValueError`.
pub data CreateCommand : Type 0 where
  no_command : CreateCommand
  create : List String → CreateCommand
  not_restorable : CreateCommand

unfoldable pub create_operand : MigGpuInstance → String
unfolding show_int
create_operand g = show_int g.profile_id <> (":" <> show_int g.placement_start)

unfoldable pub mig_geometry_create_command : String → List MigGpuInstance → CreateCommand
unfolding restorable_mig_geometry create_operand
mig_geometry_create_command gpu_uuid [] = no_command
mig_geometry_create_command gpu_uuid (g ∷ gs) =
    if restorable_mig_geometry (g ∷ gs) (gpu_uuid ∷ [])
    then create ("nvidia-smi" ∷ "mig" ∷ "-i" ∷ gpu_uuid ∷ "-cgi" ∷ create_operand g ∷ "-C" ∷ [])
    else not_restorable

unfoldable pub desired_full_mig_geometry_command : String → List String
desired_full_mig_geometry_command gpu_uuid =
    "nvidia-smi" ∷ "mig" ∷ "-i" ∷ gpu_uuid ∷ "-cgi" ∷ "0:0" ∷ "-C" ∷ []

unfoldable pub mig_geometry_destroy_commands : String → List (List String)
mig_geometry_destroy_commands gpu_uuid =
    ("nvidia-smi" ∷ "mig" ∷ "-i" ∷ gpu_uuid ∷ "-dci" ∷ [])
    ∷ ("nvidia-smi" ∷ "mig" ∷ "-i" ∷ gpu_uuid ∷ "-dgi" ∷ [])
    ∷ []
