-- ===== src/Recovery/Bindings.antt =====
-- recovery.py: the snapshot binding that `_parse_journal` reads is the one of the validation.
use nvidia_converge.Common.{
  ◌≡◌, refl, ap, sym, ◌∙◌, String, false, none, some, List, [], arith, select, is_none, is_empty,
}
use nvidia_converge.Common.Checking.{passed}
use nvidia_converge.Recovery.Json.{Event}
use nvidia_converge.Recovery.Fields.{Binding}
use nvidia_converge.Recovery.Protocol.{
  Entry, State, Step, Steps, stop, next, snapshot_step, release_step, private_step, mutating_step,
  finish_step, complete_step, seal_step, report_step, recover_step, Recorded, nothing, also,
}
use nvidia_converge.Recovery.Journal.{is_named, journal_binding}
use nvidia_converge.Recovery.Scans.{Records-Sees, is_snapshot, read_binding-raw_binding}
use nvidia_converge.Recovery.Safety.{bound, Step-bound}

abbrev pub snapshots : List Event → List Event
snapshots events = select (is_named "rollback-snapshot-persisted") events

-- A snapshot is bound once.
rebinding :
    (id : String) (s t : State) (entry : Entry) {b : Binding}
    → Step id s entry t
    → bound s ≡ some b
    → is_snapshot entry ≡ false
rebinding id s t entry snapshot_step h = cc
rebinding id s t entry (release_step fits) h = refl
rebinding id s t entry (private_step c) h = refl
rebinding id s t entry (mutating_step c) h = refl
rebinding id s t entry finish_step h = refl
rebinding id s t entry complete_step h = refl
rebinding id s t entry seal_step h = refl
rebinding id s t entry (report_step p) h = refl
rebinding id s t entry (recover_step p other) h = refl

bound-snapshots :
    (id : String) (events : List Event) (entries : List Entry) (s u : State) {b : Binding}
    → Recorded id events entries
    → Steps id s entries u
    → bound s ≡ some b
    → (snapshots events ≡ []) × (bound u ≡ some b)
bound-snapshots id events entries s u nothing stop h = (refl, h)
bound-snapshots id events entries s u
      (also {event} {events = others} {entry} {entries = later} r rs) (next {t} taken more) h =
    let old = rebinding id s t entry taken h in
    let kept = Step-bound id s t entry taken old ∙ h in
    let (rest, final) = bound-snapshots id others later t u rs more kept in
    (ground (arith, rest, (Records-Sees id event entry r).snapshots), final)

pub Steps-journal_binding :
    (id : String) (events : List Event) (entries : List Entry) (s u : State)
    → Recorded id events entries
    → Steps id s entries u
    → bound s ≡ none
    → (journal_binding (snapshots events) ≡ passed (bound u))
      × (is_empty (snapshots events) ≡ is_none (bound u))
unfolding journal_binding
Steps-journal_binding id events entries s u nothing stop h = (ap passed (sym h), ground arith)
Steps-journal_binding id events entries s u
      (also {event} {events = others} {entry} {entries = later} r rs)
      (next {t} (snapshot_step {b}) more) h =
    let (rest, final) = bound-snapshots id others later t u rs more refl in
    ground (
      arith,
      rest,
      final,
      read_binding-raw_binding event b r.holds,
      (Records-Sees id event entry r).snapshots,
    )
Steps-journal_binding id events entries s u
      (also {event} {events = others} {entry} {entries = later} r rs) (next {t} taken more) h =
    let rest =
      Steps-journal_binding id others later t u rs more (Step-bound id s t entry taken refl ∙ h) in
    ground (arith, rest, (Records-Sees id event entry r).snapshots)
