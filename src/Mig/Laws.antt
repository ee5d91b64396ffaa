-- ===== src/Mig/Laws.antt =====
-- mig.py: what the two geometry tests say about each other.
use nvidia_converge.Common.{String, ◌≡◌, true, List, [], ◌∷◌, arith}
use nvidia_converge.Models.{MigGpuInstance}
use nvidia_converge.Mig.{full_mig_geometry_matches, restorable_mig_geometry}

-- The full geometry is one that rollback can restore.
pub full-restorable :
    (geometry : List MigGpuInstance) (uuids : List String)
    → full_mig_geometry_matches geometry uuids ≡ true
    → restorable_mig_geometry geometry uuids ≡ true
unfolding full_mig_geometry_matches restorable_mig_geometry
full-restorable (g ∷ []) (u ∷ []) h = ground arith
full-restorable _ _ h = ground arith
