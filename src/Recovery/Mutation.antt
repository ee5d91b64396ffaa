-- ===== src/Recovery/Mutation.antt =====
-- recovery.py: whether the host may have been changed, by `_parse_journal` and by the validation.
use nvidia_converge.Common.{
  ◌≡◌, refl, String, Bool, true, false, not, ◌||◌, List, [], arith, any, is_none,
}
use nvidia_converge.Recovery.Json.{Event}
use nvidia_converge.Recovery.Protocol.{
  Entry, Phase, running, executing, completed, sealed, recovered, State, at, Step, Steps, stop,
  next, snapshot_step, release_step, private_step, mutating_step, finish_step, complete_step,
  seal_step, report_step, recover_step, Recorded, nothing, also,
}
use nvidia_converge.Recovery.Journal.{host_mutation_possible, completions, starts_host_mutation}
use nvidia_converge.Recovery.Scans.{Records-Sees, read_completion-incomplete}

abbrev pub mutated : State → Bool
mutated (at p o m ts) = m

-- No more commands and no second completion.
abbrev pub is_closed : Phase → Bool
is_closed running = false
is_closed (executing c) = false
is_closed completed = true
is_closed (sealed reported) = true
is_closed recovered = true

abbrev pub phase : State → Phase
phase (at p o m ts) = p

pub Steps-closed :
    (id : String) (events : List Event) (entries : List Entry) (s u : State)
    → Recorded id events entries
    → Steps id s entries u
    → is_closed (phase s) ≡ true
    → (completions events ≡ [])
      × (any starts_host_mutation events ≡ false)
      × (mutated u ≡ mutated s)
Steps-closed id events entries s u nothing stop h = (refl, refl, refl)
Steps-closed id events entries s u (also {event} {events = others} {entry} {entries = later} r rs)
      (next {t} (report_step p) more) h =
    ground (arith, Steps-closed id others later t u rs more refl, Records-Sees id event entry r)
Steps-closed id events entries s u (also {event} {events = others} {entry} {entries = later} r rs)
      (next {t} (recover_step p other) more) h =
    ground (arith, Steps-closed id others later t u rs more refl, Records-Sees id event entry r)
Steps-closed id events entries s u (also r rs) (next taken more) h = cc

pub Steps-mutated :
    (id : String) (events : List Event) (entries : List Entry) (s u : State)
    → Recorded id events entries
    → Steps id s entries u
    → mutated u ≡ (mutated s || host_mutation_possible events)
unfolding host_mutation_possible
Steps-mutated id events entries s u nothing stop = ground arith
Steps-mutated id events entries s u (also {event} {events = others} {entry} {entries = later} r rs)
      (next {t} (report_step p) more) =
    ground (arith, Steps-closed id others later t u rs more refl, Records-Sees id event entry r)
Steps-mutated id events entries s u (also {event} {events = others} {entry} {entries = later} r rs)
      (next {t} (recover_step p other) more) =
    ground (arith, Steps-closed id others later t u rs more refl, Records-Sees id event entry r)
Steps-mutated id events entries s u (also {event} {events = others} {entry} {entries = later} r rs)
      (next {t} complete_step more) =
    ground (
      arith,
      Steps-closed id others later t u rs more refl,
      Records-Sees id event entry r,
      read_completion-incomplete event false r.holds,
    )
Steps-mutated id events entries s u (also {event} {events = others} {entry} {entries = later} r rs)
      (next {t} seal_step more) =
    ground (
      arith,
      Steps-closed id others later t u rs more refl,
      Records-Sees id event entry r,
      read_completion-incomplete event true r.holds,
    )
Steps-mutated id events entries s u (also {event} {events = others} {entry} {entries = later} r rs)
      (next {t} (private_step c) more) =
    ground (arith, Steps-mutated id others later t u rs more, Records-Sees id event entry r)
Steps-mutated id events entries s u (also {event} {events = others} {entry} {entries = later} r rs)
      (next {t} (mutating_step c) more) =
    ground (arith, Steps-mutated id others later t u rs more, Records-Sees id event entry r)
Steps-mutated id events entries s u (also {event} {events = others} {entry} {entries = later} r rs)
      (next {t} taken more) =
    ground (arith, Steps-mutated id others later t u rs more, Records-Sees id event entry r)

-- What may have been changed has a snapshot.
abbrev pub is_backed : State → Bool
is_backed (at p o m ts) = not m || not (is_none o)

Step-is_backed :
    (id : String) (s t : State) (entry : Entry)
    → Step id s entry t
    → is_backed s ≡ true
    → is_backed t ≡ true
Step-is_backed id s t entry (snapshot_step {m}) h = ground arith
Step-is_backed id s t entry (release_step fits) h = refl
Step-is_backed id s t entry (private_step c) h = h
Step-is_backed id s t entry (mutating_step c) h = refl
Step-is_backed id s t entry finish_step h = h
Step-is_backed id s t entry complete_step h = h
Step-is_backed id s t entry seal_step h = refl
Step-is_backed id s t entry (report_step p) h = h
Step-is_backed id s t entry (recover_step p other) h = refl

pub Steps-is_backed :
    (id : String) (s u : State) (entries : List Entry)
    → Steps id s entries u
    → is_backed s ≡ true
    → is_backed u ≡ true
Steps-is_backed id s u entries stop h = h
Steps-is_backed id s u entries (next {t} {entry} {entries = later} taken more) h =
    Steps-is_backed id t u later more (Step-is_backed id s t entry taken h)
