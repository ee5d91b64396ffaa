-- ===== src/Examples/Journals.antt =====
-- recovery.py on sample journals: an installation that is interrupted, and its recovery.
use nvidia_converge.Common.{◌≡◌, ◌==◌, refl, String, true, false, some, List, [], ◌∷◌}
use nvidia_converge.Common.Text.{is_hex, after_prefix, span, is_lower_hex}
use nvidia_converge.Common.Checking.{passed, rejected}
use nvidia_converge.Models.{pos}
use nvidia_converge.Recovery.Json.{null, boolean, integer, text, array, nil, cons, Event, Items}
use nvidia_converge.Recovery.Fields.{
  after_terminal, mutation_without_snapshot, unhashable, read_name, read_operation_id,
  has_expected_fields, read_command, is_host_id, check_binding, read_binding, read_completion,
}
use nvidia_converge.Recovery.Stream.{
  Stream, is_private_state_command, on_command_started, on_command_finished, on_snapshot,
  release_fits, on_release, on_completed, on_persistence_failed, on_recovered, handle, admit,
  read_header, step, run_events, validate_event_stream,
}

unfoldable pub journal_program : Unit {0}
unfolding is_hex after_prefix span is_lower_hex read_name read_operation_id has_expected_fields
    read_command is_host_id check_binding read_binding read_completion is_private_state_command
    on_command_started on_command_finished on_snapshot release_fits on_release on_completed
    on_persistence_failed on_recovered handle admit read_header step run_events
    validate_event_stream ◌==◌
journal_program = tt

abbrev pub operation_id : String
operation_id = "0123456789abcdef0123456789abcdef"

abbrev pub recovering_id : String
recovering_id = "fedcba9876543210fedcba9876543210"

abbrev pub digest : String
digest = "00112233445566778899aabbccddeeff00112233445566778899aabbccddeeff"

-- An event of the operation with its own fields.
abbrev pub event_of : String → Event → Event
event_of name details =
    ("event", text name)
    ∷ ("operation_id", text operation_id)
    ∷ ("timestamp", text "2025-01-01T00:00:00Z")
    ∷ details

abbrev pub binding_members : Event
binding_members =
    ("snapshot_path", text "/var/lib/snapshot.json")
    ∷ ("snapshot_integrity_sha256", text digest)
    ∷ ("snapshot_operation_id", text operation_id)
    ∷ (
      "snapshot_host_id",
      text "machine-id-sha256:00112233445566778899aabbccddeeff00112233445566778899aabbccddeeff",
    )
    ∷ []

abbrev pub install : Items
install = cons (text "apt-get") (cons (text "install") nil)

abbrev pub started : Event
started = event_of "operation-started" []

abbrev pub snapshotted : Event
snapshotted = event_of "rollback-snapshot-persisted" binding_members

abbrev pub installing : Event
installing =
    event_of "command-started" (("command", array install) ∷ ("mutating", boolean true) ∷ [])

abbrev pub installed : Event
installed = event_of "command-finished" (
    ("command", array install)
    ∷ ("mutating", boolean true)
    ∷ ("returncode", integer (pos 0))
    ∷ ("skipped", boolean false)
    ∷ ("reason", null)
    ∷ [])

abbrev pub succeeded : Event
succeeded = event_of "operation-completed" (
    ("exit_code", integer (pos 0))
    ∷ ("incomplete", boolean false)
    ∷ ("outcome", text "succeeded")
    ∷ [])

abbrev pub recovering : Event
recovering =
    event_of "operation-recovered" (("recovery_operation_id", text recovering_id) ∷ binding_members)

-- The installation was interrupted.
abbrev pub interrupted : List Event
interrupted = started ∷ snapshotted ∷ installing ∷ []

abbrev pub interrupted_state : Stream
interrupted_state = record {
  operation_id = some operation_id;
  pending = some ("apt-get" ∷ "install" ∷ [], true);
  binding = some (record {
    path = "/var/lib/snapshot.json";
    integrity = digest;
    operation = operation_id;
    host = "machine-id-sha256:00112233445566778899aabbccddeeff00112233445566778899aabbccddeeff";
  });
  release_targets = [];
  mutation_possible = true;
  completion_seen = false;
  persistence_failure_seen = false;
  sealed = false;
  terminal = false;
  allows_persistence_failure = false;
}

pub interrupted-accepted : validate_event_stream interrupted ≡ passed interrupted_state
unfolding journal_program
interrupted-accepted = refl

-- No host mutation without a snapshot.
unbacked-rejected :
    validate_event_stream (started ∷ installing ∷ []) ≡ rejected mutation_without_snapshot
unfolding journal_program
unbacked-rejected = refl

continued-rejected :
    validate_event_stream (started ∷ succeeded ∷ installing ∷ []) ≡ rejected after_terminal
unfolding journal_program
continued-rejected = refl

-- A name that is a list is no text: the test for membership raises.
listed-rejected :
    validate_event_stream (started ∷ (("event", array nil) ∷ []) ∷ []) ≡ rejected unhashable
unfolding journal_program
listed-rejected = refl
