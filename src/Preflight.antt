-- ===== src/Preflight.antt =====
-- nvidia_converge/preflight.py: the checks of APT transactions. `Closure` says which packages a forward
-- transaction may touch, `Apt` is its check, `Singles` is about the only member of a list that passes
-- a test, `Removals` which package a removal names, and `Keeps` what an accepted one leaves in place.
-- `Restore` is the check of a rollback transaction, and `Exact` the effect of an accepted one.
pub mod Closure
pub mod Apt
pub mod Keeps
pub mod Singles
pub mod Removals
pub mod Restore
pub mod Exact
