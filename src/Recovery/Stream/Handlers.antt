-- ===== src/Recovery/Stream/Handlers.antt =====
-- recovery.py: the branches of `_validate_event_stream`, one for each name of an event.
use nvidia_converge.Common.{
  String, Bool, true, false, not, ◌&&◌, ◌||◌, Option, none, some, List, [], ◌∷◌, ◌++◌, ◌==◌,
  contains, is_none, is_empty, bool_eq, opt_eq, if◌then◌else◌,
}
use nvidia_converge.Common.Checking.{Checked, passed, rejected, ◌>>=◌}
use nvidia_converge.Recovery.Json.{
  Json, null, Event, as_text, as_boolean, as_integer, is_unhashable,
}
use nvidia_converge.Recovery.Fields.{
  Rejection, overlapping_command, mutation_without_snapshot, unmatched_completion,
  invalid_command_completion, misplaced_snapshot, release_out_of_phase, release_mismatch,
  invalid_release_order, misplaced_completion, sealed_without_snapshot,
  misplaced_persistence_failure, invalid_persistence_failure, invalid_recovery, unhashable,
  field_of, is_operation_id, Command, read_command, Binding, read_binding, read_completion,
}

-- `_SAFE_PRIVATE_STATE_COMMANDS`
unfoldable pub is_private_state_command : List String → Bool
is_private_state_command (word ∷ []) =
    word == "persist-rollback-snapshot" || word == "stage-package-payloads"
is_private_state_command _ = false

-- A command that may change the host.
abbrev pub mutates_host : Command → Bool
mutates_host (command, mutating) = mutating && not (is_private_state_command command)

-- The local variables of `_validate_event_stream`.
pub record Stream : Type 0 where
  pub operation_id : Option String
  pub pending : Option Command
  pub binding : Option Binding
  pub release_targets : List String
  pub mutation_possible : Bool
  pub completion_seen : Bool
  pub persistence_failure_seen : Bool
  pub sealed : Bool
  pub terminal : Bool
  pub allows_persistence_failure : Bool

abbrev pub start : Stream
start = record {
  operation_id = none;
  pending = none;
  binding = none;
  release_targets = [];
  mutation_possible = false;
  completion_seen = false;
  persistence_failure_seen = false;
  sealed = false;
  terminal = false;
  allows_persistence_failure = false;
}

abbrev pub texts_eq : List String → List String → Bool
texts_eq [] [] = true
texts_eq (x ∷ xs) (y ∷ ys) = x == y && texts_eq xs ys
texts_eq _ _ = false

abbrev pub command_eq : Command → Command → Bool
command_eq (command, mutating) (command', mutating') =
    texts_eq command command' && bool_eq mutating mutating'

abbrev pub binding_eq : Binding → Binding → Bool
binding_eq b c =
    b.path == c.path && b.integrity == c.integrity && b.operation == c.operation && b.host == c.host

-- `if event_name == "command-started"`
unfoldable pub on_command_started : Event → Stream → Checked Rejection Stream
on_command_started event s = do
  command ← read_command event
  if not (is_none s.pending)
      then rejected overlapping_command
      else if mutates_host command && is_none s.binding
      then rejected mutation_without_snapshot
      else passed (record s {
        pending = some command;
        mutation_possible = s.mutation_possible || mutates_host command;
      })

abbrev pub is_absent_or {ℓ} : {A : Type ℓ} → (Json → Option A) → Json → Bool
is_absent_or read null = true
is_absent_or read value = not (is_none (read value))

-- `if event_name == "command-finished"`
unfoldable pub on_command_finished : Event → Stream → Checked Rejection Stream
on_command_finished event s = do
  command ← read_command event
  if not (elim s.pending [ none ↦ false | some started ↦ command_eq started command ])
      then rejected unmatched_completion
      else if is_none (as_boolean (field_of event "skipped"))
          || not (is_absent_or as_integer (field_of event "returncode"))
          || not (is_absent_or as_text (field_of event "reason"))
      then rejected invalid_command_completion
      else passed (record s { pending = none })

-- `if event_name == "rollback-snapshot-persisted"`
unfoldable pub on_snapshot : Event → Stream → Checked Rejection Stream
on_snapshot event s =
    if not (is_none s.pending) || not (is_none s.binding)
    then rejected misplaced_snapshot
    else do b ← read_binding event; passed (record s { binding = some b })

-- `_snapshot_event_binding(event, path) != snapshot_binding`
abbrev pub is_bound_to : Option Binding → Binding → Bool
is_bound_to none b = false
is_bound_to (some a) b = binding_eq b a

abbrev is_release_target : String → Bool
is_release_target target =
    target == "install-target" || target == "operation-target" || target == "rollback-baseline"

-- The order of the release targets: a target first, at most one, then the baseline.
unfoldable pub release_fits : List String → Bool → String → Bool
release_fits targets mutation_possible target =
    is_release_target target
    && not (contains targets target)
    && not ((target == "install-target" || target == "operation-target") && not (is_empty targets))
    && not (
        target == "rollback-baseline"
        && not (
            texts_eq targets []
            || texts_eq targets ("install-target" ∷ [])
            || texts_eq targets ("operation-target" ∷ [])))
    && mutation_possible

-- `if event_name == "launcher-release-authorized"`
unfoldable pub on_release : Event → Stream → Checked Rejection Stream
unfolding release_fits
on_release event s =
    if not (is_none s.pending) || is_none s.binding then rejected release_out_of_phase else do
      b ← read_binding event
      if not (is_bound_to s.binding b)
          then rejected release_mismatch
          else if is_unhashable (field_of event "release_target")
          then rejected unhashable
          else elim (as_text (field_of event "release_target")) [
            | none ↦ rejected invalid_release_order
            | some target ↦
                if release_fits s.release_targets s.mutation_possible target
                then passed (record s { release_targets = s.release_targets ++ (target ∷ []) })
                else rejected invalid_release_order
          ]

-- `if event_name == "operation-completed"`
unfoldable pub on_completed : Event → Stream → Checked Rejection Stream
on_completed event s =
    if not (is_none s.pending) || s.completion_seen then rejected misplaced_completion else do
      incomplete ← read_completion event
      if not incomplete
          then passed (record s {
            completion_seen = true;
            terminal = true;
            allows_persistence_failure = true;
          })
          else if is_none s.binding
          then rejected sealed_without_snapshot
          else passed (record s { completion_seen = true; mutation_possible = true; sealed = true })

-- `if event_name == "report-persistence-failed"`
unfoldable pub on_persistence_failed : Event → Stream → Checked Rejection Stream
on_persistence_failed event s =
    if not (is_none s.pending) || s.persistence_failure_seen
    then rejected misplaced_persistence_failure
    else elim (as_text (field_of event "error")) [
      | none ↦ rejected invalid_persistence_failure
      | some error ↦
          if error == ""
          then rejected invalid_persistence_failure
          else passed (record s {
            persistence_failure_seen = true;
            terminal = false;
            allows_persistence_failure = false;
            sealed = true;
          })
    ]

-- `if event_name == "operation-recovered"`
unfoldable pub on_recovered : Event → Stream → Checked Rejection Stream
on_recovered event s = elim (as_text (field_of event "recovery_operation_id")) [
  | none ↦ rejected invalid_recovery
  | some recovery_id ↦
      if not (is_operation_id recovery_id)
        || opt_eq (some recovery_id) s.operation_id
        || is_none s.binding
        || not s.mutation_possible
      then rejected invalid_recovery
      else do
        b ← read_binding event
        if is_bound_to s.binding b
            then passed (record s { terminal = true; allows_persistence_failure = false })
            else rejected invalid_recovery
]
