-- ===== src/Models/Report.antt =====
-- `Severity`, `Finding` and `PlanAction` of nvidia_converge/models.py.
use nvidia_converge.Common.{String, Bool, true, false, List}

pub data Severity : Type 0 where
  info warning error : Severity

abbrev pub is_error : Severity → Bool
is_error error = true
is_error _ = false

pub record Finding : Type 0 where
  pub id : String
  pub severity : Severity
  pub summary : String

pub record PlanAction : Type 0 where
  pub id : String
  pub commands : List (List String)
  pub destructive : Bool
