-- ===== src/Recovery/Resolution.antt =====
-- recovery.py: `_journal_has_terminal_resolution` on an accepted journal.
use nvidia_converge.Common.{
  ◌≡◌, refl, String, Bool, true, false, not, ◌&&◌, ◌||◌, Option, none, some, List, ◌∷◌, arith, any,
  select, is_none, last?,
}
use nvidia_converge.Recovery.Json.{Event}
use nvidia_converge.Recovery.Fields.{field_of, Binding}
use nvidia_converge.Recovery.Protocol.{
  Entry, recovery, Records, Phase, running, executing, completed, sealed, recovered, State, at,
  Steps, stop, next, complete_step, seal_step, report_step, recover_step, Recorded, nothing, also,
}
use nvidia_converge.Recovery.Journal.{is_named, is_false, completions, last_field}
use nvidia_converge.Recovery.Scans.{Records-Sees, read_completion-incomplete}
use nvidia_converge.Recovery.Mutation.{phase, is_closed, Steps-closed}
use nvidia_converge.Recovery.Safety.{Steps-recovered}

-- The operation has come to its end.
abbrev pub is_ended : Phase → Bool
is_ended completed = true
is_ended recovered = true
is_ended (sealed reported) = false
is_ended (executing c) = false
is_ended running = false

abbrev pub recovery_id : List Event → Option String
recovery_id events =
    last_field (select (is_named "operation-recovered") events) "recovery_operation_id"

abbrev pub has_failure : List Event → Bool
has_failure events = any (is_named "report-persistence-failed") events

-- The terms of the resolution, from the events.
abbrev pub is_resolved : List Event → Bool
is_resolved events =
    not (is_none (recovery_id events))
    || (elim (last? (completions events)) [
      | none ↦ false
      | some completion ↦ is_false (field_of completion "incomplete")
    ]
        && not (has_failure events))

Steps-ended :
    (id : String) (entries : List Entry) {o : Option Binding} {m : Bool} {ts : List String}
    (u : State)
    → Steps id (at recovered o m ts) entries u
    → is_ended (phase u) ≡ true
Steps-ended id entries u stop = refl
Steps-ended id entries u (next (report_step p) more) = elim p [ ]
Steps-ended id entries u (next (recover_step p other) more) = elim p [ ]

-- A recovery is the last event, and holds the identity of the recovering operation.
module _ (id : String) (event : Event) (others : List Event) (later : List Entry) {new : String}
    {b : Binding} {o : Option Binding} {m : Bool} {ts : List String} (u : State) where
  recovery-resolved :
      Records id event (recovery new b)
      → Recorded id others later
      → Steps id (at recovered o m ts) later u
      → (recovery_id (event ∷ others) ≡ some new) × (is_ended (phase u) ≡ true)
  recovery-resolved r rs more = (
    ground (
      arith,
      Steps-recovered id others later u rs more,
      r.holds,
      (Records-Sees id event (recovery new b) r).recovers,
    ),
    Steps-ended id later u more,
  )

module _ (id : String) where
  from_sealed :
      (events : List Event) (entries : List Entry) (s u : State) {reported : Bool}
      → Recorded id events entries
      → Steps id s entries u
      → phase s ≡ sealed reported
      → is_ended (phase u) ≡ not (is_none (recovery_id events))
  from_sealed events entries s u nothing stop h = ground arith
  from_sealed events entries s u (also {event} {events = others} {entry} {entries = later} r rs)
        (next {t} (report_step p) more) h =
      ground (arith, from_sealed others later t u rs more refl, Records-Sees id event entry r)
  from_sealed events entries s u (also {event} {events = others} {entry} {entries = later} r rs)
        (next {t} (recover_step p other) more) h =
      ground (arith, recovery-resolved id event others later u r rs more)
  from_sealed events entries s u (also {event} {events = others} {entry} {entries = later} r rs)
        (next {t} taken more) h =
      cc

  from_completed :
      (events : List Event) (entries : List Entry) (s u : State)
      → Recorded id events entries
      → Steps id s entries u
      → phase s ≡ completed
      → is_ended (phase u) ≡ (not (is_none (recovery_id events)) || not (has_failure events))
  from_completed events entries s u nothing stop h = ground arith
  from_completed events entries s u (also {event} {events = others} {entry} {entries = later} r rs)
        (next {t} (report_step p) more) h =
      ground (arith, from_sealed others later t u rs more refl, Records-Sees id event entry r)
  from_completed events entries s u (also {event} {events = others} {entry} {entries = later} r rs)
        (next {t} (recover_step p other) more) h =
      ground (arith, recovery-resolved id event others later u r rs more)
  from_completed events entries s u (also {event} {events = others} {entry} {entries = later} r rs)
        (next {t} taken more) h =
      cc

  pub Steps-is_resolved :
      (events : List Event) (entries : List Entry) (s u : State)
      → Recorded id events entries
      → Steps id s entries u
      → is_closed (phase s) ≡ false
      → is_ended (phase u) ≡ is_resolved events
  Steps-is_resolved events entries s u nothing stop h = ground arith
  Steps-is_resolved events entries s u
        (also {event} {events = others} {entry} {entries = later} r rs)
        (next {t} (report_step p) more) h =
      ground (
        arith,
        from_sealed others later t u rs more refl,
        Steps-closed id others later t u rs more refl,
        Records-Sees id event entry r,
      )
  Steps-is_resolved events entries s u
        (also {event} {events = others} {entry} {entries = later} r rs)
        (next {t} (recover_step p other) more) h =
      ground (arith, recovery-resolved id event others later u r rs more)
  Steps-is_resolved events entries s u
        (also {event} {events = others} {entry} {entries = later} r rs)
        (next {t} complete_step more) h =
      ground (
        arith,
        from_completed others later t u rs more refl,
        Steps-closed id others later t u rs more refl,
        Records-Sees id event entry r,
        read_completion-incomplete event false r.holds,
      )
  Steps-is_resolved events entries s u
        (also {event} {events = others} {entry} {entries = later} r rs) (next {t} seal_step more)
        h =
      ground (
        arith,
        from_sealed others later t u rs more refl,
        Steps-closed id others later t u rs more refl,
        Records-Sees id event entry r,
        read_completion-incomplete event true r.holds,
      )
  Steps-is_resolved events entries s u
        (also {event} {events = others} {entry} {entries = later} r rs) (next {t} taken more) h =
      ground (arith, Steps-is_resolved others later t u rs more refl, Records-Sees id event entry r)
