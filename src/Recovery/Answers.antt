-- ===== src/Recovery/Answers.antt =====
-- recovery.py: what follows a started command, and the operation that all events share.
use nvidia_converge.Common.{
  ◌≡◌, refl, ap, sym, ◌∙◌, ◌⊎◌, inl, inr, String, Bool, true, some, List, ◌∷◌, ◌++◌, ◌==◌, arith,
  ==_self, all, opt_eq,
}
use nvidia_converge.Common.Checking.{passed}
use nvidia_converge.Recovery.Json.{Event, as_text}
use nvidia_converge.Recovery.Fields.{
  field_of, read_command, command_finished, operation_recovered, operation_started,
}
use nvidia_converge.Recovery.Stream.{Stream, validate_event_stream, read_header}
use nvidia_converge.Recovery.Protocol.{
  Entry, name_of, Records, State, Step, Steps, next, private_step, mutating_step, finish_step,
  report_step, recover_step, Recorded, nothing, also,
}
use nvidia_converge.Recovery.Simulation.{view}
use nvidia_converge.Recovery.Acceptance.{validate_event_stream-IsJournal}
use nvidia_converge.Recovery.Journal.{is_named}
use nvidia_converge.Recovery.Scans.{is_named-text_of, read_header-texts, Records-Sees, is_command}
use nvidia_converge.Recovery.Splits.{Place, starting, entering, validate_event_stream-Place}
use nvidia_converge.Recovery.Safety.{start-named}

-- The same command finished, or its operation recovered.
abbrev pub Answers : Event → Event → Type 0
Answers event reply =
    ((is_named "command-finished" reply ≡ true) × (read_command reply ≡ read_command event))
    ⊎ (is_named "operation-recovered" reply ≡ true)

start-command :
    (event : Event) (id : String)
    → read_header event ≡ passed (operation_started, id)
    → is_named "command-started" event ≡ true
    → ⊥
unfolding ◌==◌
start-command event id h named = ground (arith, start-named event id "command-started" h refl)

command-Answers :
    (id : String) (event reply : Event) (after : List Event) (entry : Entry) (later : List Entry)
    (s t u : State)
    → Step id s entry t
    → is_command entry ≡ true
    → Records id event entry
    → Recorded id (reply ∷ after) later
    → Steps id t later u
    → Answers event reply
unfolding ◌==◌
command-Answers id event reply after entry later s t u (private_step {c} h) starts r
      (also {entry = other} r' rs) (next finish_step more) =
    inl (
      is_named-text_of reply command_finished id "command-finished" r'.header,
      r'.holds.0 ∙ sym r.holds,
    )
command-Answers id event reply after entry later s t u (mutating_step {c} h) starts r
      (also {entry = other} r' rs) (next finish_step more) =
    inl (
      is_named-text_of reply command_finished id "command-finished" r'.header,
      r'.holds.0 ∙ sym r.holds,
    )
command-Answers id event reply after entry later s t u (private_step {c} h) starts r
      (also {entry = other} r' rs) (next (recover_step p differs) more) =
    inr (is_named-text_of reply operation_recovered id "operation-recovered" r'.header)
command-Answers id event reply after entry later s t u (mutating_step {c} h) starts r
      (also {entry = other} r' rs) (next (recover_step p differs) more) =
    inr (is_named-text_of reply operation_recovered id "operation-recovered" r'.header)
command-Answers id event reply after entry later s t u (private_step h) starts r rs
      (next (report_step p) more) =
    elim p [ ]
command-Answers id event reply after entry later s t u (mutating_step h) starts r rs
      (next (report_step p) more) =
    elim p [ ]
command-Answers id event reply after entry later s t u taken starts r rs more = cc

-- In an accepted journal the event after a started command, if there is one, records that the same
-- command has finished or that the operation has been recovered.
pub command_started-Answers :
    (before : List Event) (event reply : Event) (after : List Event) (s : Stream)
    → validate_event_stream (before ++ (event ∷ reply ∷ after)) ≡ passed s
    → is_named "command-started" event ≡ true
    → Answers event reply
command_started-Answers before event reply after s h named =
    let (id, same, placed) = validate_event_stream-Place before event (reply ∷ after) s h in
    of_place before id placed
  where
    of_place :
        (before : List Event) (id : String)
        → Place id event (reply ∷ after) (view s) before
        → Answers event reply
    of_place before id (starting header) = absurd (start-command event id header named)
    of_place before id (entering {before = others} a) =
        command-Answers id event reply after a.entry a.later a.from a.to (view s) a.taken
          (ground (arith, (Records-Sees id event a.entry a.records).commands)) a.records
          a.recorded_after a.steps_after

abbrev pub belongs_to : String → Event → Bool
belongs_to id event = opt_eq (as_text (field_of event "operation_id")) (some id)

Recorded-belongs_to :
    (id : String) (events : List Event) (entries : List Entry)
    → Recorded id events entries
    → all (belongs_to id) events ≡ true
Recorded-belongs_to id events entries nothing = refl
Recorded-belongs_to id events entries
      (also {event} {events = others} {entry} {entries = later} r rs) =
    ground (
      arith,
      Recorded-belongs_to id others later rs,
      read_header-texts event (name_of entry) id r.header,
      ==_self id,
    )

-- All events of an accepted journal are of the operation that its validation returns.
pub validate_event_stream-belongs_to :
    (events : List Event) (s : Stream)
    → validate_event_stream events ≡ passed s
    → (id : String) × (s.operation_id ≡ some id) × (all (belongs_to id) events ≡ true)
validate_event_stream-belongs_to events s h =
    let (id, entries, same, j) = validate_event_stream-IsJournal events s h in
    (
      id,
      same,
      ap (all (belongs_to id)) j.parts
          ∙ ground (
            arith,
            read_header-texts j.first operation_started id j.header,
            ==_self id,
            Recorded-belongs_to id j.rest entries j.recorded,
          ),
    )
