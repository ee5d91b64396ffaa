-- ===== src/Doctor.antt =====
-- nvidia_converge/doctor.py: the findings that separate an observed host from its desired state.
-- The parts of `diagnose` are in `Checks`; `Host`, `Drivers`, `Services` and `MigState` hold them in
-- the order of the source.
mod Checks
mod Host
mod Drivers
mod Services
mod MigState
unfoldable pub use Checks.*
unfoldable pub use Host.*
unfoldable pub use Drivers.*
unfoldable pub use Services.*
unfoldable pub use MigState.*
pub mod Spec
mod Parts
pub mod Compliance
