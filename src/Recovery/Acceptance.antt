-- ===== src/Recovery/Acceptance.antt =====
-- recovery.py: `_validate_event_stream` accepts exactly the journals of the protocol.
use mathlib.Core.Path.{subst}
use nvidia_converge.Common.{
  ◌≡◌, ◌↔◌, refl, ap, sym, ◌∙◌, inl, inr, ℕ, suc, String, true, some, List, [], ◌∷◌, ◌==◌, ==_iff,
  arith, get, Option-cases,
}
use nvidia_converge.Common.Checking.{passed, ◌>>=◌, split_passed, passed-injective}
use nvidia_converge.Recovery.Json.{Event, as_text}
use nvidia_converge.Recovery.Fields.{
  EventName, operation_started, known_events, read_name, read_operation_id, field_of,
}
use nvidia_converge.Recovery.Stream.{
  Stream, start, handle, admit, read_header, step, run_events, starts_operation,
  validate_event_stream,
}
use nvidia_converge.Recovery.Protocol.{
  Entry, Records, State, opened, Step, Steps, stop, next, Recorded, nothing, also, IsJournal,
}
use nvidia_converge.Recovery.Machine.{Moves, Moves-handle}
use nvidia_converge.Recovery.Simulation.{view, is_sound, step-Advances, Moves-Step, Moves-same}
use nvidia_converge.Recovery.Completeness.{Step-Follows}

-- Only one text names the start.
known_start :
    (name : String) (known : EventName)
    → get known_events name ≡ some known
    → (known ≡ operation_started) ↔ ((name == "operation-started") ≡ true)
known_start name known h =
    ground (arith, ==_iff name "operation-started", ==_iff "operation-started" name)

read_name-start :
    (event : Event) (name : EventName)
    → read_name (field_of event "event") ≡ passed name
    → (name ≡ operation_started) ↔ (starts_operation (event ∷ []) ≡ true)
unfolding read_name
read_name-start event name h = elim (Option-cases (as_text (field_of event "event"))) [
  | inl none_is ↦ ground arith
  | inr (t, e) ↦ ground (arith, known_start t name)
]

record Ran (id : String) (events : List Event) (s s' : Stream) : Type 0 where
  pub entries : List Entry
  pub recorded : Recorded id events entries
  pub steps : Steps id (view s) entries (view s')
  pub sound : is_sound s' ≡ true
  pub same : s'.operation_id ≡ some id

run_events-Ran :
    (id : String) (index : ℕ) (events : List Event) (s s' : Stream)
    → is_sound s ≡ true
    → s.operation_id ≡ some id
    → run_events (suc index) events s ≡ passed s'
    → Ran id events s s'
unfolding run_events
run_events-Ran id index [] s s' i same h =
    let e : s ≡ s' = passed-injective h in
    subst (Ran id [] s) e
      (record { entries = []; recorded = nothing; steps = stop; sound = i; same = same })
run_events-Ran id index (event ∷ events) s s' i same h =
    let (t, one, more) = split_passed (step (suc index) event s) _ h in
    let a = step-Advances id index event s t i same one in
    let r = run_events-Ran id (suc index) events t s' a.sound a.same more in
    record {
      entries = a.entry ∷ r.entries;
      recorded = also a.records r.recorded;
      steps = next a.taken r.steps;
      sound = r.sound;
      same = r.same;
    }

-- One step of the protocol, taken by the loop body.
record Taken (id : String) (index : ℕ) (event : Event) (s : Stream) (t' : State) : Type 0 where
  pub reached : Stream
  pub accepted : step (suc index) event s ≡ passed reached
  pub seen : view reached ≡ t'
  pub sound : is_sound reached ≡ true
  pub same : reached.operation_id ≡ some id

Step-Taken :
    (id : String) (index : ℕ) (event : Event) (entry : Entry) (s : Stream) (t t' : State)
    → Records id event entry
    → is_sound s ≡ true
    → s.operation_id ≡ some id
    → t ≡ view s
    → Step id t entry t'
    → Taken id index event s t'
unfolding step admit
Step-Taken id index event entry s t t' r i same e taken =
    let f = Step-Follows id entry s t t' i same e taken in
    let known : s ≡ record s { operation_id = some id } = ground arith in
    let moves = subst (λ u. Moves entry u f.reached) known f.moves in
    record {
      reached = f.reached;
      accepted =
          ground
            (arith, r.header, f.admits, Moves-handle entry index event s f.reached r.holds f.moves);
      seen = f.seen;
      sound = (Moves-Step id entry s f.reached f.admits i moves).1;
      same = Moves-same id entry s f.reached moves;
    }

record Reached (id : String) (index : ℕ) (events : List Event) (s : Stream) (u : State)
    : Type 0 where
  pub reached : Stream
  pub accepted : run_events (suc index) events s ≡ passed reached
  pub seen : view reached ≡ u
  pub same : reached.operation_id ≡ some id

Steps-Reached :
    (id : String) (index : ℕ) (events : List Event) (entries : List Entry) (s : Stream)
    (t u : State)
    → is_sound s ≡ true
    → s.operation_id ≡ some id
    → t ≡ view s
    → Recorded id events entries
    → Steps id t entries u
    → Reached id index events s u
unfolding run_events
Steps-Reached id index events entries s t u i same e nothing stop = record {
  reached = s;
  accepted = refl;
  seen = sym e;
  same = same;
}
Steps-Reached id index events entries s t u i same e
      (also {event} {events = later} {entry} {entries = others} r rs)
      (next {t = between} taken more) =
    let k = Step-Taken id index event entry s t between r i same e taken in
    let f =
      Steps-Reached id (suc index) later others k.reached between u k.sound k.same (sym k.seen) rs
        more in
    record {
      reached = f.reached;
      accepted = ap (λ m. m >>= run_events (suc (suc index)) later) k.accepted ∙ f.accepted;
      seen = f.seen;
      same = f.same;
    }

read_header-name :
    (event : Event) (name : EventName) (id : String)
    → read_header event ≡ passed (name, id)
    → read_name (field_of event "event") ≡ passed name
unfolding read_header
read_header-name event name id h =
    let (n, named, more) = split_passed (read_name (field_of event "event")) _ h in
    let (i, identified, rest) =
      split_passed (read_operation_id (field_of event "operation_id")) _ more in
    ground (arith, named, rest)

-- The first event starts the operation, and leaves the other variables alone.
first-started :
    (event : Event) (s : Stream)
    → starts_operation (event ∷ []) ≡ true
    → step 0 event start ≡ passed s
    → (id : String) × (read_header event ≡ passed (operation_started, id))
      × (s ≡ record start { operation_id = some id })
unfolding step admit handle
first-started event s named h =
    let ((name, id), header, more) = split_passed (read_header event) _ h in
    let starts = (read_name-start event name (read_header-name event name id header)).1 named in
    (id, ground (arith, header, starts), ground (arith, more, starts))

started-first :
    (event : Event) (id : String)
    → read_header event ≡ passed (operation_started, id)
    → (starts_operation (event ∷ []) ≡ true)
      × (step 0 event start ≡ passed (record start { operation_id = some id }))
unfolding step admit handle
started-first event id h = (
  (read_name-start event operation_started (read_header-name event operation_started id h)).0 refl,
  ground arith,
)

-- A journal that `_validate_event_stream` accepts is the start of one operation, followed by events
-- that record entries of the same operation, and those entries are steps of the protocol from its
-- opened state to the view of the state that the validation ends in.
pub validate_event_stream-IsJournal :
    (events : List Event) (s : Stream)
    → validate_event_stream events ≡ passed s
    → (id : String) × (entries : List Entry) × (s.operation_id ≡ some id)
      × IsJournal events id entries (view s)
unfolding validate_event_stream run_events
validate_event_stream-IsJournal [] s h = cc
validate_event_stream-IsJournal (first ∷ rest) s h =
    let started : starts_operation (first ∷ []) ≡ true = ground arith in
    let run : run_events 0 (first ∷ rest) start ≡ passed s = ground arith in
    let (t, one, more) = split_passed (step 0 first start) _ run in
    let (id, header, state) = first-started first t started one in
    let r = run_events-Ran id 0 rest t s (ground arith) (ground arith) more in
    (
      id,
      r.entries,
      r.same,
      record {
        first = first;
        rest = rest;
        parts = refl;
        header = header;
        recorded = r.recorded;
        steps = subst (λ v. Steps id v r.entries (view s)) (ap view state) r.steps;
      },
    )

-- Every journal that begins with the start of an operation and records entries that are steps of the
-- protocol is accepted by `_validate_event_stream`, for that operation and with the view of the
-- protocol's last state.
pub IsJournal-validate_event_stream :
    (events : List Event) (id : String) (entries : List Entry) (end : State)
    → IsJournal events id entries end
    → (s : Stream) × (validate_event_stream events ≡ passed s)
      × (s.operation_id ≡ some id)
      × (view s ≡ end)
unfolding validate_event_stream run_events
IsJournal-validate_event_stream events id entries end j =
    let (named, one) = started-first j.first id j.header in
    let r =
      Steps-Reached id 0 j.rest entries (record start { operation_id = some id }) opened end refl
        refl refl j.recorded j.steps in
    let run : run_events 0 (j.first ∷ j.rest) start ≡ passed r.reached =
      ap (λ m. m >>= run_events 1 j.rest) one ∙ r.accepted in
    (r.reached, ap validate_event_stream j.parts ∙ ground (arith, named, run), r.same, r.seen)
