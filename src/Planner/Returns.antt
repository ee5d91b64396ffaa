-- ===== src/Planner/Returns.antt =====
-- planner.py: where `build_plan` returns a plan instead of raising.
use nvidia_converge.Common.{Bool, true, false, Result, ok, value_error}

abbrev returns {ℓ} : {A : Type ℓ} → Result A → Bool
returns (ok a) = true
returns value_error = false
