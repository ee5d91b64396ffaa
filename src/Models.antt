-- ===== src/Models.antt =====
-- nvidia_converge/models.py: the desired state, the observed host, findings and planned actions.
-- Fields that only carry prose for people or that no modelled operation reads are left out: the
-- time stamps, the details, evidence and remediation of a finding, the description and reason of
-- an action, and the raw command outputs.
mod Desired
mod Host
mod Report
unfoldable pub use Desired.*
pub use Host.*
pub use Report.*
