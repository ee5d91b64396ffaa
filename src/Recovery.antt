-- ===== src/Recovery.antt =====
-- nvidia_converge/recovery.py: the journal of an applied operation. `Json` is what the JSON reader
-- returns, `Fields` the tests on the fields of one event, `Stream` the validation of the events of a
-- journal, `Journal` what parsing reads off them, and `Operations` what is left to recover.
-- `Protocol` describes the journals on its own; `Machine`, `Equalities`, `Simulation`,
-- `Completeness` and `Acceptance` compare it with the validation. `Scans`, `Splits`, `Safety` and
-- `Answers` are about the order of events, `Bindings`, `Mutation`, `Resolution` and `Parsed` about
-- parsing, `Authority` and `Outcome` about recovery.
pub mod Json
pub mod Fields
pub mod Stream
pub mod Journal
pub mod Protocol
pub mod Machine
pub mod Equalities
pub mod Simulation
pub mod Completeness
pub mod Acceptance
pub mod Scans
pub mod Splits
pub mod Safety
pub mod Answers
pub mod Bindings
pub mod Mutation
pub mod Resolution
pub mod Parsed
pub mod Operations
pub mod Authority
pub mod Outcome
