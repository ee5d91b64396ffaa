-- ===== src/Examples.antt =====
-- Runs of the program on sample hosts, and the theorems applied to them.
pub mod Hosts
mod Program
mod Geometry
mod Findings
mod Plans
mod Modules
mod Configs
mod Services
mod Journals
mod Recoveries
mod Rollbacks
mod Transactions
