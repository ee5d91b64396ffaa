-- ===== src/Recovery/Journal.antt =====
-- recovery.py: what `_parse_journal` reads off the events of a journal.
use nvidia_converge.Common.{
  String, Bool, true, false, not, ◌&&◌, ◌||◌, Option, none, some, List, [], ◌∷◌, ◌==◌, any, all,
  select, last?, is_none, is_empty, if◌then◌else◌,
}
use nvidia_converge.Common.Checking.{Checked, passed, rejected, ◌>>=◌}
use nvidia_converge.Recovery.Json.{Json, Event, as_text, as_boolean, command_texts}
use nvidia_converge.Recovery.Fields.{
  Rejection, no_operation_id, conflicting_bindings, field_of, Binding,
}
use nvidia_converge.Recovery.Stream.{is_private_state_command, validate_event_stream, binding_eq}

-- `UnresolvedOperation`, without the path of its journal.
pub record UnresolvedOperation : Type 0 where
  pub operation_id : String
  pub snapshot_path : Option String
  pub snapshot_integrity_sha256 : Option String
  pub snapshot_operation_id : Option String
  pub snapshot_host_id : Option String
  pub launcher_release_target : Option String
  pub host_mutation_possible : Bool

pub record ParsedJournal : Type 0 where
  pub operation_id : String
  pub operation : Option UnresolvedOperation
  pub completion : Option Event
  pub persistence_failed : Bool
  pub recovery_operation_id : Option String
  pub private_snapshot_artifacts_possible : Bool
  pub snapshot_binding_present : Bool

-- `event["event"] == name`
abbrev pub is_named : String → Event → Bool
is_named name event = elim (as_text (field_of event "event")) [
  | none ↦ false
  | some found ↦ found == name
]

-- `value is True`, and `value is False`
abbrev pub is_true : Json → Bool
is_true value = elim (as_boolean value) [ none ↦ false | some b ↦ b ]

abbrev pub is_false : Json → Bool
is_false value = elim (as_boolean value) [ none ↦ false | some b ↦ not b ]

-- `tuple(value) in _SAFE_PRIVATE_STATE_COMMANDS`
abbrev pub holds_private_command : Json → Bool
holds_private_command value = elim (command_texts value) [
  | none ↦ false
  | some command ↦ is_private_state_command command
]

abbrev pub starts_private_command : Event → Bool
starts_private_command event =
    is_named "command-started" event
    && is_true (field_of event "mutating")
    && holds_private_command (field_of event "command")

abbrev pub starts_host_mutation : Event → Bool
starts_host_mutation event =
    is_named "command-started" event
    && is_true (field_of event "mutating")
    && not (holds_private_command (field_of event "command"))

-- A field of the last of some events.
abbrev pub last_field : List Event → String → Option String
last_field events key = elim (last? events) [
  | none ↦ none
  | some event ↦ as_text (field_of event key)
]

abbrev pub completions : List Event → List Event
completions events = select (is_named "operation-completed") events

-- `host_mutation_possible`
unfoldable pub host_mutation_possible : List Event → Bool
host_mutation_possible events =
    any starts_host_mutation events || elim (last? (completions events)) [
      | none ↦ false
      | some completion ↦ is_true (field_of completion "incomplete")
    ]

-- The tuple of an event's binding. The validation has found four texts.
abbrev pub raw_binding : Event → Option Binding
raw_binding event = elim (as_text (field_of event "snapshot_path")) [
  | none ↦ none
  | some path ↦ elim (as_text (field_of event "snapshot_integrity_sha256")) [
    | none ↦ none
    | some integrity ↦ elim (as_text (field_of event "snapshot_operation_id")) [
      | none ↦ none
      | some operation ↦ elim (as_text (field_of event "snapshot_host_id")) [
        | none ↦ none
        | some host ↦
            some (record { path = path; integrity = integrity; operation = operation; host = host })
      ]
    ]
  ]
]

abbrev pub opt_binding_eq : Option Binding → Option Binding → Bool
opt_binding_eq none none = true
opt_binding_eq (some b) (some c) = binding_eq b c
opt_binding_eq _ _ = false

-- The one binding of the snapshot events, if there is any.
unfoldable pub journal_binding : List Event → Checked Rejection (Option Binding)
journal_binding [] = passed none
journal_binding (event ∷ events) =
    if all (λ other. opt_binding_eq (raw_binding event) (raw_binding other)) events
    then passed (raw_binding event)
    else rejected conflicting_bindings

-- `_validate_event_stream`: the operation it returns, and the assertion in front of it.
unfoldable pub validated_operation_id : List Event → Checked Rejection String
validated_operation_id events = do
  s ← validate_event_stream events
  elim s.operation_id [ none ↦ rejected no_operation_id | some id ↦ passed id ]

-- `operation`
unfoldable pub unresolved_operation :
    String → Option Binding → List Event → Option UnresolvedOperation
unresolved_operation id binding events =
    if host_mutation_possible events
    then some (record {
      operation_id = id;
      snapshot_path = elim binding [ none ↦ none | some b ↦ some b.path ];
      snapshot_integrity_sha256 = elim binding [ none ↦ none | some b ↦ some b.integrity ];
      snapshot_operation_id = elim binding [ none ↦ none | some b ↦ some b.operation ];
      snapshot_host_id = elim binding [ none ↦ none | some b ↦ some b.host ];
      launcher_release_target =
          last_field (select (is_named "launcher-release-authorized") events) "release_target";
      host_mutation_possible = host_mutation_possible events;
    })
    else none

-- The record that parsing returns.
abbrev pub parsed_of : String → Option Binding → List Event → ParsedJournal
parsed_of id binding events = record {
  operation_id = id;
  operation = unresolved_operation id binding events;
  completion = last? (completions events);
  persistence_failed = any (is_named "report-persistence-failed") events;
  recovery_operation_id =
      last_field (select (is_named "operation-recovered") events) "recovery_operation_id";
  private_snapshot_artifacts_possible = any starts_private_command events;
  snapshot_binding_present =
      not (is_empty (select (is_named "rollback-snapshot-persisted") events));
}

-- `_parse_journal`, from the events of its lines.
unfoldable pub parse_events : List Event → Checked Rejection ParsedJournal
parse_events events = do
  id ← validated_operation_id events
  binding ← journal_binding (select (is_named "rollback-snapshot-persisted") events)
  passed (parsed_of id binding events)

-- `_journal_has_terminal_resolution`
unfoldable pub journal_has_terminal_resolution : ParsedJournal → Bool
journal_has_terminal_resolution parsed =
    not (is_none parsed.recovery_operation_id)
    || (elim parsed.completion [
      | none ↦ false
      | some completion ↦ is_false (field_of completion "incomplete")
    ]
        && not parsed.persistence_failed)
