-- ===== src/Recovery/Splits.antt =====
-- recovery.py: a journal around one of its events.
use nvidia_converge.Common.{◌≡◌, String, some, List, [], ◌∷◌, ◌++◌, arith}
use mathlib.Core.Path.{subst}
use nvidia_converge.Common.Checking.{passed}
use nvidia_converge.Recovery.Json.{Event}
use nvidia_converge.Recovery.Fields.{operation_started}
use nvidia_converge.Recovery.Stream.{Stream, validate_event_stream, read_header}
use nvidia_converge.Recovery.Protocol.{
  Entry, Records, State, opened, Step, Steps, stop, next, Recorded, nothing, also,
}
use nvidia_converge.Recovery.Simulation.{view}
use nvidia_converge.Recovery.Acceptance.{validate_event_stream-IsJournal}

-- The entries before an event, its own, and those after it.
pub record Around (id : String) (before : List Event) (event : Event) (after : List Event)
    (s u : State) : Type 0 where
  pub earlier : List Entry
  pub entry : Entry
  pub later : List Entry
  pub from : State
  pub to : State
  pub recorded_before : Recorded id before earlier
  pub steps_before : Steps id s earlier from
  pub records : Records id event entry
  pub taken : Step id from entry to
  pub recorded_after : Recorded id after later
  pub steps_after : Steps id to later u

Recorded-Around :
    (id : String) (before : List Event) (event : Event) (after : List Event) (entries : List Entry)
    (s u : State)
    → Recorded id (before ++ (event ∷ after)) entries
    → Steps id s entries u
    → Around id before event after s u
Recorded-Around id [] event after entries s u (also {entry} {entries = later} r rs)
      (next {t} taken more) =
    record {
      earlier = [];
      entry = entry;
      later = later;
      from = s;
      to = t;
      recorded_before = nothing;
      steps_before = stop;
      records = r;
      taken = taken;
      recorded_after = rs;
      steps_after = more;
    }
Recorded-Around id (e ∷ before) event after entries s u (also {entry} {entries = others} r rs)
      (next {t} taken more) =
    let a = Recorded-Around id before event after others t u rs more in
    record {
      earlier = entry ∷ a.earlier;
      entry = a.entry;
      later = a.later;
      from = a.from;
      to = a.to;
      recorded_before = also r a.recorded_before;
      steps_before = next taken a.steps_before;
      records = a.records;
      taken = a.taken;
      recorded_after = a.recorded_after;
      steps_after = a.steps_after;
    }

-- An event of an accepted journal is its start, or an entry of the protocol.
pub data Place (id : String) (event : Event) (after : List Event) (u : State)
    : List Event → Type 0 where
  starting : read_header event ≡ passed (operation_started, id) → Place id event after u []
  entering :
      {first : Event} {before : List Event}
      → Around id before event after opened u
      → Place id event after u (first ∷ before)

pub validate_event_stream-Place :
    (before : List Event) (event : Event) (after : List Event) (s : Stream)
    → validate_event_stream (before ++ (event ∷ after)) ≡ passed s
    → (id : String) × (s.operation_id ≡ some id) × Place id event after (view s) before
validate_event_stream-Place before event after s h =
    let (id, entries, same, j) = validate_event_stream-IsJournal (before ++ (event ∷ after)) s h in
    (id, same, place before j.parts j.header j.recorded j.steps)
  where
    place :
        (before : List Event) {first : Event} {rest : List Event} {id : String}
        {entries : List Entry}
        → before ++ (event ∷ after) ≡ first ∷ rest
        → read_header first ≡ passed (operation_started, id)
        → Recorded id rest entries
        → Steps id opened entries (view s)
        → Place id event after (view s) before
    place [] {first} {rest} {id} parts header recorded steps =
        starting (ground (arith, header, parts))
    place (e ∷ before) {first} {rest} {id} {entries} parts header recorded steps =
        let tail : rest ≡ before ++ (event ∷ after) = ground arith in
        entering (
          Recorded-Around id before event after entries opened (view s)
            (subst (λ r. Recorded id r entries) tail recorded) steps)
