-- ===== src/Lib.antt =====
-- nvidia-converge: the decisions that bring a Linux host's NVIDIA stack to a desired state.
--
-- The program audits a host (audit.py), lets the doctor compare the audit with the desired state
-- (doctor.py), and lets the planner turn both into an ordered list of actions (planner.py), which the
-- command line runs under a journal with rollback. Modelled here is the core that decides: the data
-- that these parts exchange, the doctor, the planner and the MIG geometry they share, with the
-- validation of a desired state, CUDA compatibility, the unload order of the kernel modules, and the
-- validation of a journal with what an interrupted operation leaves to recover, the package
-- transaction of a rollback, and the check of a package transaction before it runs.
--
-- Common: the library names and lists, texts, decimals and exceptions that the parts share.
--   A function that may raise returns `Result`: `ok`, or `value_error` for a ValueError.
--   A check that rejects its input with one of several errors returns `Checked`.
-- Models: nvidia_converge/models.py. `DesiredState` and its properties, `HostAudit` and what it holds,
--   `Finding` and `PlanAction`. Fields of prose, raw output and timestamps are left out.
-- Mig: nvidia_converge/mig.py, function by function. `Mig.Commands` reads a creation command back.
-- Doctor: nvidia_converge/doctor.py. `diagnose` is split at its blocks: `Host`, `Drivers`, `Services`
--   and `MigState` hold the rows of checks in the order of the source; each check is the condition of
--   an `if` with the finding it appends. `Spec` says on its own what a compliant host is.
-- Planner: nvidia_converge/planner.py. `Recipe` is _package_recipe_error and its tables, `Packages` the
--   install targets, operands and commands, `Policy` is lock_actions, `Docker` and `MigPlan` the parts
--   of build_plan for Docker and MIG with mig_reconciliation_actions, `Plan` is build_plan: its early
--   returns are `plan_refusal`, what follows them is `plan_with_policy` and `convergence_actions`.
--   `Headers` and `Targets` describe on their own which packages a host lacks. `DockerRun` takes
--   systemctl and nvidia-ctk as a parameter, `ServiceManager`, with their documented
--   effects on the Docker service. Reasons and descriptions are left out; the texts of recipe and
--   policy errors are constructors.
-- Config: nvidia_converge/desired.py, the validation of a desired state: `validate_desired` with its
--   patterns, `Valid` for what the rest of the program can rely on, and `Scalar` for the scalars of
--   the YAML subset; `Quoting` describes on its own how a scalar is written for a text. A `$` of a pattern used with `match` also matches in front of a line
--   feed at the end.
-- CudaCompat: nvidia_converge/cuda_compat.py. The forward-compatibility matrix as a table, the native
--   floor of a CUDA major family, and the lookup of an installed compatibility package.
-- ModuleSafety: nvidia_converge/module_safety.py. `nvidia_module_unload_order` over `SysModules`, what
--   /sys/module shows. `Walk` holds the sets that `visit` changes. The recursion of `visit` is on fuel;
--   a visited module leaves the known modules that can be visited below it, so that two more than
--   their number, 8, is enough.
-- Recovery: nvidia_converge/recovery.py. `Json` is what the JSON reader returns, `Fields` the tests on
--   the fields of one event, `Stream` the loop body and the loop of _validate_event_stream with its
--   local variables as a record, `Journal` what _parse_journal reads off the events, `Operations` the
--   decision of unresolved_operations on the parsed journals, and recovery_snapshot_path. `Protocol` is a
--   description of its own of what a journal may hold: a machine of five phases and its steps;
--   `Machine`, `Simulation`, `Completeness` and `Acceptance` compare it with the validation, and
--   `Splits`, `Safety` and `Answers` read the order of events off it. `Bindings`, `Mutation`,
--   `Resolution` and `Parsed` compare parsing with validation, `Authority` and `Outcome` are about the
--   operations left to recover. Whether a final report agrees with its journal, and the equality of
--   paths, are parameters.
-- Rollback: nvidia_converge/rollback.py, the package transaction of a rollback. `Specs` are the names
--   that the package managers take, `Delta` the packages that rollback_package_commands restores and
--   removes, `Commands` is _rollback_commands, `Allowed` _allowed_rollback_command. Paths are in the
--   normal form of Path. Sets of identities are tests on lists.
-- Audit: nvidia_converge/audit.py, the test for the packages of interest.
-- Preflight: nvidia_converge/preflight.py. `Closure` is _forward_package_allowed with its tables, `Apt`
--   _apt_forward_transaction_error from the parsed transaction on. `Removals` describes which
--   package a removal names without the program's own resolution, and compares the two. `Keeps` says
--   what APT does to the packages of a host by that description, and what an accepted transaction
--   leaves in place. `Restore` is
--   _apt_rollback_transaction_error, and `Exact` its effect on the packages. The dictionary of
--   installations is the list of its values, and a set of identities a list.
-- Examples: runs on sample hosts, journals and transactions.
--
-- Texts are modelled on ASCII: lower, strip, `\d` and isspace read ASCII characters only. `int` reads
-- the digits that the validation of the desired state leaves; anything else raises. Numbers are
-- natural numbers, but for return codes. `show_int` recurses on fuel, one more than its number, which
-- is enough since the number of digits is at most that. The script text that a DNF command carries
-- stands as the name of its constant.
--
-- Not modelled: the lines of desired-state files (the rest of desired.py), input and output (the rest
-- of audit.py,
-- runner.py, files.py, locking.py, verify.py, gpu_safety.py, kernel_headers.py), the files of the
-- journal (the rest of recovery.py), snapshots and the compensation of services and modules (the rest
-- of rollback.py), the rest of the preflight of package transactions (preflight.py),
-- reports (report.py) and the command line (cli.py).
pub mod Common
pub mod Models
pub mod Mig
pub mod Doctor
pub mod Planner
pub mod Examples
pub mod CudaCompat
pub mod ModuleSafety
pub mod Config
pub mod Recovery
pub mod Rollback
pub mod Audit
pub mod Preflight
