-- ===== src/Recovery/Safety.antt =====
-- recovery.py: the order of the events in an accepted journal.
use nvidia_converge.Common.{
  ◌≡◌, refl, ◌∙◌, inl, inr, String, Bool, true, false, Option, none, List, [], ◌∷◌, ◌++◌, ◌==◌,
  arith, any, Bool-cases, ◌≢◌,
}
use nvidia_converge.Common.Checking.{passed}
use nvidia_converge.Recovery.Json.{Event}
use nvidia_converge.Recovery.Fields.{Binding, operation_started}
use nvidia_converge.Recovery.Stream.{Stream, validate_event_stream, read_header}
use nvidia_converge.Recovery.Protocol.{
  Entry, recovered, State, at, opened, Step, Steps, stop, next, snapshot_step, release_step,
  private_step, mutating_step, finish_step, complete_step, seal_step, report_step, recover_step,
  Recorded, nothing, also,
}
use nvidia_converge.Recovery.Simulation.{view}
use nvidia_converge.Recovery.Journal.{is_named, starts_host_mutation}
use nvidia_converge.Recovery.Scans.{
  is_named-text_of, Records-Sees, mutates, is_snapshot, is_recovering,
}
use nvidia_converge.Recovery.Splits.{Place, starting, entering, validate_event_stream-Place}

abbrev pub bound : State → Option Binding
bound (at p o m ts) = o

-- Only a snapshot event binds a snapshot.
pub Step-bound :
    (id : String) (s t : State) (entry : Entry)
    → Step id s entry t
    → is_snapshot entry ≡ false
    → bound t ≡ bound s
Step-bound id s t entry snapshot_step h = cc
Step-bound id s t entry (release_step fits) h = refl
Step-bound id s t entry (private_step c) h = refl
Step-bound id s t entry (mutating_step c) h = refl
Step-bound id s t entry finish_step h = refl
Step-bound id s t entry complete_step h = refl
Step-bound id s t entry seal_step h = refl
Step-bound id s t entry (report_step p) h = refl
Step-bound id s t entry (recover_step p other) h = refl

pub Steps-bound :
    (id : String) (events : List Event) (entries : List Entry) (s u : State)
    → Recorded id events entries
    → Steps id s entries u
    → any (is_named "rollback-snapshot-persisted") events ≡ false
    → bound u ≡ bound s
Steps-bound id events entries s u nothing stop h = refl
Steps-bound id events entries s u (also {event} {events = others} {entry} {entries = later} r rs)
      (next {t} taken more) h =
    Steps-bound id others later t u rs more (ground arith)
    ∙ Step-bound id s t entry taken (ground (arith, (Records-Sees id event entry r).snapshots))

-- A step that may change the host stands on a snapshot.
mutating-bound :
    (id : String) (s t : State) (entry : Entry)
    → Step id s entry t
    → mutates entry ≡ true
    → bound s ≢ none
mutating-bound id s t entry (private_step c) h = cc
mutating-bound id s t entry (mutating_step c) h = λ e. cc
mutating-bound id s t entry taken h = cc

-- The first event is none of the others.
pub start-named :
    (event : Event) (id text : String)
    → read_header event ≡ passed (operation_started, id)
    → ("operation-started" == text) ≡ false
    → is_named text event ≡ false
start-named event id text h other = is_named-text_of event operation_started id text h ∙ other

pub start-mutation :
    (event : Event) (id : String)
    → read_header event ≡ passed (operation_started, id)
    → starts_host_mutation event ≡ false
unfolding ◌==◌
start-mutation event id h = ground (arith, start-named event id "command-started" h refl)

-- In an accepted journal a rollback snapshot has been persisted before every command that may
-- change the host.
pub mutation-snapshot :
    (before : List Event) (event : Event) (after : List Event) (s : Stream)
    → validate_event_stream (before ++ (event ∷ after)) ≡ passed s
    → starts_host_mutation event ≡ true
    → any (is_named "rollback-snapshot-persisted") before ≡ true
mutation-snapshot before event after s h changes =
    let (id, same, placed) = validate_event_stream-Place before event after s h in
    of_place before id placed
  where
    of_place :
        (before : List Event) (id : String)
        → Place id event after (view s) before
        → any (is_named "rollback-snapshot-persisted") before ≡ true
    of_place before id (starting header) = ground (arith, start-mutation event id header)
    of_place before id (entering {first} {before = others} a) =
        elim (Bool-cases (any (is_named "rollback-snapshot-persisted") others)) [
          | inl found ↦ ground arith
          | inr missing ↦ absurd (
              mutating-bound id a.from a.to a.entry a.taken
                (ground (arith, (Records-Sees id event a.entry a.records).mutation))
                (Steps-bound id others a.earlier opened a.from a.recorded_before a.steps_before
                  missing))
        ]

-- A recovered operation records nothing more.
pub Steps-recovered :
    (id : String) (events : List Event) (entries : List Entry) {o : Option Binding} {m : Bool}
    {ts : List String} (u : State)
    → Recorded id events entries
    → Steps id (at recovered o m ts) entries u
    → events ≡ []
Steps-recovered id events entries u nothing stop = refl
Steps-recovered id events entries u (also r rs) (next (report_step p) more) = elim p [ ]
Steps-recovered id events entries u (also r rs) (next (recover_step p other) more) = elim p [ ]

recovering-end :
    (id : String) (s t u : State) (entry : Entry) (events : List Event) (entries : List Entry)
    → Step id s entry t
    → is_recovering entry ≡ true
    → Recorded id events entries
    → Steps id t entries u
    → events ≡ []
recovering-end id s t u entry events entries (recover_step p other) h rs more =
    Steps-recovered id events entries u rs more
recovering-end id s t u entry events entries taken h rs more = cc

-- In an accepted journal no event stands after the one that records the recovery.
pub recovered-last :
    (before : List Event) (event : Event) (after : List Event) (s : Stream)
    → validate_event_stream (before ++ (event ∷ after)) ≡ passed s
    → is_named "operation-recovered" event ≡ true
    → after ≡ []
unfolding ◌==◌
recovered-last before event after s h named =
    let (id, same, placed) = validate_event_stream-Place before event after s h in
    of_place before id placed
  where
    of_place :
        (before : List Event) (id : String) → Place id event after (view s) before → after ≡ []
    of_place before id (starting header) =
        ground (arith, start-named event id "operation-recovered" header refl)
    of_place before id (entering {before = others} a) =
        recovering-end id a.from a.to (view s) a.entry after a.later a.taken
          (ground (arith, (Records-Sees id event a.entry a.records).recovers)) a.recorded_after
          a.steps_after
