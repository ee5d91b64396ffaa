-- ===== src/Recovery/Stream.antt =====
-- recovery.py: `_validate_event_stream`, one event after the other.
mod Handlers
unfoldable pub use Handlers.*
use nvidia_converge.Common.{
  ℕ, zero, suc, String, Bool, true, false, not, ◌&&◌, ◌||◌, Option, none, some, List, [], ◌∷◌, ◌++◌,
  ◌==◌, contains, is_none, is_empty, bool_eq, opt_eq, if◌then◌else◌,
}
use nvidia_converge.Common.Checking.{Checked, passed, rejected, ◌>>=◌}
use nvidia_converge.Recovery.Json.{
  Json, null, Event, as_text, as_boolean, as_integer, is_unhashable,
}
use nvidia_converge.Recovery.Fields.{
  Rejection, not_started, invalid_timestamp, unexpected_fields, mixed_operation_ids, after_terminal,
  after_sealed, restarted, overlapping_command, mutation_without_snapshot, unmatched_completion,
  invalid_command_completion, misplaced_snapshot, release_out_of_phase, release_mismatch,
  invalid_release_order, misplaced_completion, sealed_without_snapshot,
  misplaced_persistence_failure, invalid_persistence_failure, invalid_recovery, unhashable,
  EventName, operation_started, rollback_snapshot_persisted, launcher_release_authorized,
  command_started, command_finished, operation_completed, report_persistence_failed,
  operation_recovered, field_of, read_name, read_operation_id, is_operation_id, has_expected_fields,
  Command, read_command, Binding, read_binding, read_completion,
}

-- The chain on `event_name`.
unfoldable pub handle : EventName → ℕ → Event → Stream → Checked Rejection Stream
handle operation_started zero event s = passed s
handle operation_started (suc index) event s = rejected restarted
handle command_started index event s = on_command_started event s
handle command_finished index event s = on_command_finished event s
handle rollback_snapshot_persisted index event s = on_snapshot event s
handle launcher_release_authorized index event s = on_release event s
handle operation_completed index event s = on_completed event s
handle report_persistence_failed index event s = on_persistence_failed event s
handle operation_recovered index event s = on_recovered event s

abbrev pub is_persistence_failure : EventName → Bool
is_persistence_failure report_persistence_failed = true
is_persistence_failure _ = false

abbrev pub is_recovery : EventName → Bool
is_recovery operation_recovered = true
is_recovery _ = false

-- The tests in front of the chain: one operation, nothing after a terminal record but a first
-- persistence failure, and nothing but recovery after a sealed state.
unfoldable pub admit : EventName → String → Stream → Checked Rejection Stream
admit name id s =
    if not (is_none s.operation_id) && not (opt_eq s.operation_id (some id))
    then rejected mixed_operation_ids
    else if s.terminal && not (s.allows_persistence_failure && is_persistence_failure name)
    then rejected after_terminal
    else if s.sealed && not (is_recovery name) && not (is_persistence_failure name)
    then rejected after_sealed
    else passed (record s { operation_id = some id })

-- The name and the operation of an event, its time and its fields having been tested.
unfoldable pub read_header : Event → Checked Rejection (EventName × String)
read_header event = do
  name ← read_name (field_of event "event")
  id ← read_operation_id (field_of event "operation_id")
  if elim (as_text (field_of event "timestamp")) [ none ↦ true | some t ↦ t == "" ]
      then rejected invalid_timestamp
      else if not (has_expected_fields event name)
      then rejected unexpected_fields
      else passed (name, id)

-- The body of the loop over the events.
unfoldable pub step : ℕ → Event → Stream → Checked Rejection Stream
step index event s = do
  header ← read_header event
  admitted ← admit header.0 header.1 s
  handle header.0 index event admitted

unfoldable pub run_events : ℕ → List Event → Stream → Checked Rejection Stream
run_events index [] s = passed s
run_events index (event ∷ events) s = step index event s >>= run_events (suc index) events

abbrev pub starts_operation : List Event → Bool
starts_operation [] = false
starts_operation (event ∷ events) = elim (as_text (field_of event "event")) [
  | none ↦ false
  | some name ↦ name == "operation-started"
]

-- `_validate_event_stream`, with the state that the loop ends in; the source returns its operation.
unfoldable pub validate_event_stream : List Event → Checked Rejection Stream
validate_event_stream events =
    if starts_operation events then run_events 0 events start else rejected not_started
