-- ===== src/Recovery/Scans.antt =====
-- recovery.py: what the tests of `_parse_journal` see in an event of the protocol.
use nvidia_converge.Common.{
  ◌≡◌, refl, ◌∙◌, inl, inr, String, Bool, true, false, some, ◌==◌, ==_iff, ==_self, arith, get,
  Option-cases,
}
use nvidia_converge.Common.Checking.{passed, split_passed}
use nvidia_converge.Recovery.Json.{Json, Event, as_text, as_boolean, command_texts}
use nvidia_converge.Recovery.Fields.{
  EventName, operation_started, rollback_snapshot_persisted, launcher_release_authorized,
  command_started, command_finished, operation_completed, report_persistence_failed,
  operation_recovered, known_events, read_name, read_operation_id, field_of, Command, read_command,
  Binding, check_binding, read_binding, read_completion,
}
use nvidia_converge.Recovery.Stream.{read_header, mutates_host}
use nvidia_converge.Recovery.Protocol.{
  Entry, snapshot, release, command, finish, complete, persistence_failure, recovery, name_of,
  Records,
}
use nvidia_converge.Recovery.Journal.{is_named, starts_host_mutation, raw_binding}

-- The text of a name.
abbrev pub text_of : EventName → String
text_of operation_started = "operation-started"
text_of rollback_snapshot_persisted = "rollback-snapshot-persisted"
text_of launcher_release_authorized = "launcher-release-authorized"
text_of command_started = "command-started"
text_of command_finished = "command-finished"
text_of operation_completed = "operation-completed"
text_of report_persistence_failed = "report-persistence-failed"
text_of operation_recovered = "operation-recovered"

known_text :
    (text : String) (name : EventName) → get known_events text ≡ some name → text_of name ≡ text
known_text text name h = ground (arith, ==_iff (text_of name) text)

read_name-text :
    (value : Json) (name : EventName)
    → read_name value ≡ passed name
    → as_text value ≡ some (text_of name)
unfolding read_name
read_name-text value name h = elim (Option-cases (as_text value)) [
  | inl none_is ↦ ground arith
  | inr (t, e) ↦ ground (arith, known_text t name)
]

read_operation_id-text :
    (value : Json) (id : String) → read_operation_id value ≡ passed id → as_text value ≡ some id
unfolding read_operation_id
read_operation_id-text value id h = elim (Option-cases (as_text value)) [
  | inl none_is ↦ ground arith
  | inr (t, e) ↦ ground arith
]

-- The texts that a header was read from.
pub read_header-texts :
    (event : Event) (name : EventName) (id : String)
    → read_header event ≡ passed (name, id)
    → (as_text (field_of event "event") ≡ some (text_of name))
      × (as_text (field_of event "operation_id") ≡ some id)
unfolding read_header
read_header-texts event name id h =
    let (n, named, more) = split_passed (read_name (field_of event "event")) _ h in
    let (i, identified, rest) =
      split_passed (read_operation_id (field_of event "operation_id")) _ more in
    ground (
      arith,
      read_name-text (field_of event "event") n named,
      read_operation_id-text (field_of event "operation_id") i identified,
      rest,
    )

pub is_named-text_of :
    (event : Event) (name : EventName) (id text : String)
    → read_header event ≡ passed (name, id)
    → is_named text event ≡ (text_of name == text)
is_named-text_of event name id text h = ground (arith, read_header-texts event name id h)

-- Different names have different texts.
abbrev pub same_name : EventName → EventName → Bool
same_name m n = text_of m == text_of n

pub read_command-fields :
    (event : Event) (c : Command)
    → read_command event ≡ passed c
    → (as_boolean (field_of event "mutating") ≡ some c.1)
      × (command_texts (field_of event "command") ≡ some c.0)
unfolding read_command
read_command-fields event c h = elim (Option-cases (as_boolean (field_of event "mutating"))) [
  | inl none_is ↦ ground arith
  | inr (m, e) ↦ elim (Option-cases (command_texts (field_of event "command"))) [
    | inl none_is ↦ ground arith
    | inr (t, e') ↦ ground arith
  ]
]

pub read_completion-incomplete :
    (event : Event) (incomplete : Bool)
    → read_completion event ≡ passed incomplete
    → as_boolean (field_of event "incomplete") ≡ some incomplete
unfolding read_completion
read_completion-incomplete event incomplete h = ground arith

pub read_binding-raw_binding :
    (event : Event) (b : Binding) → read_binding event ≡ passed b → raw_binding event ≡ some b
unfolding read_binding check_binding
read_binding-raw_binding event b h = ground arith

-- The tests on an event, from its entry.
abbrev pub mutates : Entry → Bool
mutates (command c) = mutates_host c
mutates _ = false

abbrev pub is_command : Entry → Bool
is_command (command c) = true
is_command _ = false

abbrev pub is_snapshot : Entry → Bool
is_snapshot (snapshot b) = true
is_snapshot _ = false

abbrev pub is_complete : Entry → Bool
is_complete (complete incomplete) = true
is_complete _ = false

abbrev pub is_failure : Entry → Bool
is_failure persistence_failure = true
is_failure _ = false

abbrev pub is_recovering : Entry → Bool
is_recovering (recovery id b) = true
is_recovering _ = false

-- What the scans of `_parse_journal` see in an event that records an entry.
pub record Sees (event : Event) (entry : Entry) : Type 0 where
  pub mutation : starts_host_mutation event ≡ mutates entry
  pub commands : is_named "command-started" event ≡ is_command entry
  pub snapshots : is_named "rollback-snapshot-persisted" event ≡ is_snapshot entry
  pub completes : is_named "operation-completed" event ≡ is_complete entry
  pub fails : is_named "report-persistence-failed" event ≡ is_failure entry
  pub recovers : is_named "operation-recovered" event ≡ is_recovering entry

module _ (id : String) (event : Event) where
  named_by :
      (entry : Entry) (text : String)
      → Records id event entry
      → is_named text event ≡ (text_of (name_of entry) == text)
  named_by entry text r = is_named-text_of event (name_of entry) id text r.header

  command-mutation :
      (entry : Entry)
      → Records id event entry
      → is_named "command-started" event ≡ false
      → starts_host_mutation event ≡ false
  command-mutation entry r h = ground arith

  Sees-by :
      (entry : Entry)
      → Records id event entry
      → starts_host_mutation event ≡ mutates entry
      → (text_of (name_of entry) == "command-started") ≡ is_command entry
      → (text_of (name_of entry) == "rollback-snapshot-persisted") ≡ is_snapshot entry
      → (text_of (name_of entry) == "operation-completed") ≡ is_complete entry
      → (text_of (name_of entry) == "report-persistence-failed") ≡ is_failure entry
      → (text_of (name_of entry) == "operation-recovered") ≡ is_recovering entry
      → Sees event entry
  Sees-by entry r changes commands snapshots completes fails recovers = record {
    mutation = changes;
    commands = named_by entry "command-started" r ∙ commands;
    snapshots = named_by entry "rollback-snapshot-persisted" r ∙ snapshots;
    completes = named_by entry "operation-completed" r ∙ completes;
    fails = named_by entry "report-persistence-failed" r ∙ fails;
    recovers = named_by entry "operation-recovered" r ∙ recovers;
  }

  pub Records-Sees : (entry : Entry) → Records id event entry → Sees event entry
  unfolding ◌==◌
  Records-Sees (command c) r =
      Sees-by (command c) r
        (ground (
          arith,
          named_by (command c) "command-started" r,
          ==_self "command-started",
          read_command-fields event c r.holds,
        ))
        refl refl refl refl refl
  Records-Sees (snapshot b) r =
      Sees-by (snapshot b) r
        (command-mutation (snapshot b) r (named_by (snapshot b) "command-started" r)) refl refl refl
        refl refl
  Records-Sees (release b target) r =
      Sees-by (release b target) r
        (command-mutation (release b target) r (named_by (release b target) "command-started" r))
        refl refl refl refl refl
  Records-Sees (finish c) r =
      Sees-by (finish c) r (command-mutation (finish c) r (named_by (finish c) "command-started" r))
        refl refl refl refl refl
  Records-Sees (complete incomplete) r =
      Sees-by (complete incomplete) r
        (command-mutation (complete incomplete) r
          (named_by (complete incomplete) "command-started" r))
        refl refl refl refl refl
  Records-Sees persistence_failure r =
      Sees-by persistence_failure r
        (command-mutation persistence_failure r (named_by persistence_failure "command-started" r))
        refl refl refl refl refl
  Records-Sees (recovery recovery_id b) r =
      Sees-by (recovery recovery_id b) r
        (command-mutation (recovery recovery_id b) r
          (named_by (recovery recovery_id b) "command-started" r))
        refl refl refl refl refl
