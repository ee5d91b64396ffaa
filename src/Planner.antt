-- ===== src/Planner.antt =====
-- nvidia_converge/planner.py: the plan that brings an observed host to its desired state.
-- `Recipe` says which hosts have a recipe, `Packages` and `Policy` what is installed and pinned,
-- `Docker` and `MigPlan` what is done to the services and to MIG; `Plan` is `build_plan`.
pub mod Recipe
pub mod Packages
pub mod Policy
pub mod Docker
pub mod MigPlan
pub mod Plan
pub mod PolicyShape
pub mod Shape
mod PolicyNames
pub mod Headers
pub mod Installs
pub mod Order
pub mod MigSafety
pub mod MigAgreement
pub mod Branch
pub mod Targets
pub mod Settled
pub mod Returns
pub mod Operands
pub mod DockerRun
pub mod Locked
