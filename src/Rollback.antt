-- ===== src/Rollback.antt =====
-- nvidia_converge/rollback.py: the package transaction of a rollback. `Specs` are the names that the
-- package managers take, `Delta` the packages to restore and to remove, `Commands` the commands, and
-- `Allowed` the test that a recorded command has to pass. `Restores` is about the delta, `Operands`
-- and `Accepted` compare the commands with the test.
pub mod Specs
pub mod Delta
pub mod Commands
pub mod Allowed
pub mod Restores
pub mod Operands
pub mod Accepted
