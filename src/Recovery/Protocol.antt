-- ===== src/Recovery/Protocol.antt =====
-- recovery.py: what the journal of an operation may hold, as a state machine of its own.
use nvidia_converge.Common.{
  ◌≡◌, ◌≢◌, String, Bool, true, false, ◌&&◌, not, Option, none, some, List, [], ◌∷◌, ◌++◌, ◌==◌,
  is_none,
}
use nvidia_converge.Common.Checking.{passed}
use nvidia_converge.Recovery.Json.{Event, as_text, as_boolean, as_integer}
use nvidia_converge.Recovery.Fields.{
  EventName, operation_started, rollback_snapshot_persisted, launcher_release_authorized,
  command_started, command_finished, operation_completed, report_persistence_failed,
  operation_recovered, field_of, Command, read_command, Binding, read_binding, read_completion,
  is_operation_id,
}
use nvidia_converge.Recovery.Stream.{mutates_host, is_absent_or, read_header}

-- What an event records after the first, which starts the operation.
pub data Entry : Type 0 where
  snapshot : Binding → Entry
  release : Binding → String → Entry
  command : Command → Entry
  finish : Command → Entry
  complete : Bool → Entry
  persistence_failure : Entry
  recovery : String → Binding → Entry

abbrev pub name_of : Entry → EventName
name_of (snapshot b) = rollback_snapshot_persisted
name_of (release b target) = launcher_release_authorized
name_of (command c) = command_started
name_of (finish c) = command_finished
name_of (complete incomplete) = operation_completed
name_of persistence_failure = report_persistence_failed
name_of (recovery id b) = operation_recovered

abbrev pub has_finish_fields : Event → Bool
has_finish_fields event =
    not (is_none (as_boolean (field_of event "skipped")))
    && is_absent_or as_integer (field_of event "returncode")
    && is_absent_or as_text (field_of event "reason")

-- The fields that an event has for its entry.
abbrev pub Holds : Event → Entry → Type 0
Holds event (snapshot b) = read_binding event ≡ passed b
Holds event (release b target) =
    (read_binding event ≡ passed b) × (as_text (field_of event "release_target") ≡ some target)
Holds event (command c) = read_command event ≡ passed c
Holds event (finish c) = (read_command event ≡ passed c) × (has_finish_fields event ≡ true)
Holds event (complete incomplete) = read_completion event ≡ passed incomplete
Holds event persistence_failure =
    (error : String) × (as_text (field_of event "error") ≡ some error) × ((error == "") ≡ false)
Holds event (recovery id b) =
    (read_binding event ≡ passed b)
    × (as_text (field_of event "recovery_operation_id") ≡ some id)
    × (is_operation_id id ≡ true)

-- An event of the operation records an entry.
pub record Records (id : String) (event : Event) (entry : Entry) : Type 0 where
  pub header : read_header event ≡ passed (name_of entry, id)
  pub holds : Holds event entry

-- Where an operation is. A sealed one may have reported that its report could not be kept.
pub data Phase : Type 0 where
  running : Phase
  executing : Command → Phase
  completed : Phase
  sealed : Bool → Phase
  recovered : Phase

-- The phase, the snapshot, whether the host may have been changed, and the release targets.
pub data State : Type 0 where
  at : Phase → Option Binding → Bool → List String → State

abbrev pub opened : State
opened = at running none false []

-- At most one target is released, then the baseline.
pub data Releases : List String → String → Type 0 where
  install : Releases [] "install-target"
  operation : Releases [] "operation-target"
  baseline : Releases [] "rollback-baseline"
  install_baseline : Releases ("install-target" ∷ []) "rollback-baseline"
  operation_baseline : Releases ("operation-target" ∷ []) "rollback-baseline"

-- The phases in which a failure to keep the report can be recorded.
pub data CanReport : Phase → Type 0 where
  running_report : CanReport running
  completed_report : CanReport completed
  sealed_report : CanReport (sealed false)

-- The phases that a recovery can follow.
pub data CanRecover : Phase → Type 0 where
  running_recover : CanRecover running
  executing_recover : {c : Command} → CanRecover (executing c)
  sealed_recover : {reported : Bool} → CanRecover (sealed reported)

-- The entries that an operation of this identity may record next.
pub data Step (id : String) : State → Entry → State → Type 0 where
  snapshot_step :
      {b : Binding} {m : Bool} {ts : List String}
      → Step id (at running none m ts) (snapshot b) (at running (some b) m ts)
  release_step :
      {b : Binding} {ts : List String} {target : String}
      → Releases ts target
      → Step id
          (at running (some b) true ts)
          (release b target)
          (at running (some b) true (ts ++ (target ∷ [])))
  private_step :
      {o : Option Binding} {m : Bool} {ts : List String} {c : Command}
      → mutates_host c ≡ false
      → Step id (at running o m ts) (command c) (at (executing c) o m ts)
  mutating_step :
      {b : Binding} {m : Bool} {ts : List String} {c : Command}
      → mutates_host c ≡ true
      → Step id (at running (some b) m ts) (command c) (at (executing c) (some b) true ts)
  finish_step :
      {o : Option Binding} {m : Bool} {ts : List String} {c : Command}
      → Step id (at (executing c) o m ts) (finish c) (at running o m ts)
  complete_step :
      {o : Option Binding} {m : Bool} {ts : List String}
      → Step id (at running o m ts) (complete false) (at completed o m ts)
  seal_step :
      {b : Binding} {m : Bool} {ts : List String}
      → Step id (at running (some b) m ts) (complete true) (at (sealed false) (some b) true ts)
  report_step :
      {p : Phase} {o : Option Binding} {m : Bool} {ts : List String}
      → CanReport p
      → Step id (at p o m ts) persistence_failure (at (sealed true) o m ts)
  recover_step :
      {p : Phase} {b : Binding} {ts : List String} {recovery_id : String}
      → CanRecover p
      → recovery_id ≢ id
      → Step id (at p (some b) true ts) (recovery recovery_id b) (at recovered (some b) true ts)

pub data Steps (id : String) : State → List Entry → State → Type 0 where
  stop : {s : State} → Steps id s [] s
  next :
      {s t u : State} {entry : Entry} {entries : List Entry}
      → Step id s entry t
      → Steps id t entries u
      → Steps id s (entry ∷ entries) u

-- The events of an operation with their entries.
pub data Recorded (id : String) : List Event → List Entry → Type 0 where
  nothing : Recorded id [] []
  also :
      {event : Event} {events : List Event} {entry : Entry} {entries : List Entry}
      → Records id event entry
      → Recorded id events entries
      → Recorded id (event ∷ events) (entry ∷ entries)

-- A journal of an operation: its start, then entries that follow the protocol.
pub record IsJournal (events : List Event) (id : String) (entries : List Entry) (end : State)
    : Type 0 where
  pub first : Event
  pub rest : List Event
  pub parts : events ≡ first ∷ rest
  pub header : read_header first ≡ passed (operation_started, id)
  pub recorded : Recorded id rest entries
  pub steps : Steps id opened entries end
