-- ===== src/Recovery/Fields.antt =====
-- recovery.py: the names of events, and the tests on the fields of one event.
use nvidia_converge.Common.{
  String, Bool, false, not, ◌&&◌, none, some, List, [], ◌∷◌, ◌==◌, all, contains, get, map,
  starts_with, if◌then◌else◌,
}
use nvidia_converge.Common.Text.{is_hex, after_prefix}
use nvidia_converge.Common.Checking.{Checked, passed, rejected}
use nvidia_converge.Recovery.Json.{
  Json, null, Event, as_text, as_boolean, as_integer, is_unhashable, command_texts, is_zero,
}

-- The texts of `RecoveryStateError`; `unhashable` is Python's TypeError.
pub data Rejection : Type 0 where
  not_started unknown_event invalid_operation_id invalid_timestamp unexpected_fields : Rejection
  mixed_operation_ids after_terminal after_sealed restarted : Rejection
  invalid_command overlapping_command mutation_without_snapshot : Rejection
  unmatched_completion invalid_command_completion : Rejection
  misplaced_snapshot invalid_binding : Rejection
  release_out_of_phase release_mismatch invalid_release_order : Rejection
  misplaced_completion invalid_completion sealed_without_snapshot : Rejection
  misplaced_persistence_failure invalid_persistence_failure invalid_recovery : Rejection
  no_operation_id conflicting_bindings : Rejection
  marker_mismatch too_many_unresolved missing_binding ambiguous_binding incomplete_binding :
      Rejection
  unhashable : Rejection

-- `_KNOWN_EVENTS`
pub data EventName : Type 0 where
  operation_started rollback_snapshot_persisted launcher_release_authorized : EventName
  command_started command_finished operation_completed : EventName
  report_persistence_failed operation_recovered : EventName

abbrev pub known_events : List (String × EventName)
known_events =
    ("operation-started", operation_started)
    ∷ ("rollback-snapshot-persisted", rollback_snapshot_persisted)
    ∷ ("launcher-release-authorized", launcher_release_authorized)
    ∷ ("command-started", command_started)
    ∷ ("command-finished", command_finished)
    ∷ ("operation-completed", operation_completed)
    ∷ ("report-persistence-failed", report_persistence_failed)
    ∷ ("operation-recovered", operation_recovered)
    ∷ []

-- `event.get(key)`, where a missing key gives `None`.
abbrev pub field_of : Event → String → Json
field_of event key = elim (get event key) [ none ↦ null | some value ↦ value ]

-- `event_name not in _KNOWN_EVENTS`
unfoldable pub read_name : Json → Checked Rejection EventName
read_name value = if is_unhashable value then rejected unhashable else elim (as_text value) [
  | none ↦ rejected unknown_event
  | some name ↦ elim (get known_events name) [
    | none ↦ rejected unknown_event
    | some known ↦ passed known
  ]
]

-- `_OPERATION_ID.fullmatch`
abbrev pub is_operation_id : String → Bool
is_operation_id = is_hex 32

unfoldable pub read_operation_id : Json → Checked Rejection String
read_operation_id value = elim (as_text value) [
  | none ↦ rejected invalid_operation_id
  | some id ↦ if is_operation_id id then passed id else rejected invalid_operation_id
]

abbrev binding_fields : List String
binding_fields =
    "snapshot_path" ∷ "snapshot_integrity_sha256" ∷ "snapshot_operation_id" ∷ "snapshot_host_id"
    ∷ []

-- The table of `_validate_event_fields`.
abbrev pub detail_fields : EventName → List String
detail_fields operation_started = []
detail_fields rollback_snapshot_persisted = binding_fields
detail_fields launcher_release_authorized = "release_target" ∷ binding_fields
detail_fields command_started = "command" ∷ "mutating" ∷ []
detail_fields command_finished = "command" ∷ "mutating" ∷ "returncode" ∷ "skipped" ∷ "reason" ∷ []
detail_fields operation_completed = "exit_code" ∷ "incomplete" ∷ "outcome" ∷ []
detail_fields report_persistence_failed = "error" ∷ []
detail_fields operation_recovered = "recovery_operation_id" ∷ binding_fields

abbrev pub expected_fields : EventName → List String
expected_fields name = "event" ∷ "operation_id" ∷ "timestamp" ∷ detail_fields name

-- `_validate_event_fields`: the keys, as a set, are the expected ones.
unfoldable pub has_expected_fields : Event → EventName → Bool
has_expected_fields event name =
    let keys = map (λ m. m.0) event in
    all (contains (expected_fields name)) keys && all (contains keys) (expected_fields name)

-- The command of an event and whether it mutates.
abbrev pub Command : Type 0
Command = List String × Bool

-- `_validate_command_event`
unfoldable pub read_command : Event → Checked Rejection Command
read_command event = elim (as_boolean (field_of event "mutating")) [
  | none ↦ rejected invalid_command
  | some mutating ↦ elim (command_texts (field_of event "command")) [
    | none ↦ rejected invalid_command
    | some command ↦ passed (command, mutating)
  ]
]

-- What ties an event to a rollback snapshot: path, integrity, operation and host.
pub record Binding : Type 0 where
  pub path : String
  pub integrity : String
  pub operation : String
  pub host : String

-- `_HOST_ID.fullmatch`
unfoldable pub is_host_id : String → Bool
is_host_id host = elim (after_prefix host "machine-id-sha256:") [
  | some digest ↦ is_hex 64 digest
  | none ↦ elim (after_prefix host "hostname-sha256:") [
    | some digest ↦ is_hex 64 digest
    | none ↦ false
  ]
]

-- The tests on the four texts of a binding. A path is absolute when it starts with a slash.
unfoldable pub check_binding : Binding → Checked Rejection Binding
unfolding is_host_id
check_binding b =
    if starts_with b.path "/"
      && is_hex 64 b.integrity
      && is_operation_id b.operation
      && is_host_id b.host
    then passed b
    else rejected invalid_binding

-- `_snapshot_event_binding`
unfoldable pub read_binding : Event → Checked Rejection Binding
unfolding check_binding
read_binding event = elim (as_text (field_of event "snapshot_path")) [
  | none ↦ rejected invalid_binding
  | some path ↦ elim (as_text (field_of event "snapshot_integrity_sha256")) [
    | none ↦ rejected invalid_binding
    | some integrity ↦ elim (as_text (field_of event "snapshot_operation_id")) [
      | none ↦ rejected invalid_binding
      | some operation ↦ elim (as_text (field_of event "snapshot_host_id")) [
        | none ↦ rejected invalid_binding
        | some host ↦
            check_binding
              (record { path = path; integrity = integrity; operation = operation; host = host })
      ]
    ]
  ]
]

-- `_validate_completion_event`, and whether the completion is incomplete.
unfoldable pub read_completion : Event → Checked Rejection Bool
read_completion event = elim (as_integer (field_of event "exit_code")) [
  | none ↦ rejected invalid_completion
  | some exit_code ↦ elim (as_boolean (field_of event "incomplete")) [
    | none ↦ rejected invalid_completion
    | some incomplete ↦
        if is_unhashable (field_of event "outcome")
        then rejected unhashable
        else elim (as_text (field_of event "outcome")) [
          | none ↦ rejected invalid_completion
          | some outcome ↦
              if outcome == "succeeded"
              then (if is_zero exit_code && not incomplete
                  then passed incomplete
                  else rejected invalid_completion)
              else if outcome == "failed" && not (is_zero exit_code)
              then passed incomplete
              else rejected invalid_completion
        ]
  ]
]
