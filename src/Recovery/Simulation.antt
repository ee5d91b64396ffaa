-- ===== src/Recovery/Simulation.antt =====
-- recovery.py: the loop body of `_validate_event_stream` takes the steps of the protocol.
use mathlib.Core.Path.{subst}
use nvidia_converge.Common.{
  ◌≡◌, refl, ap, sym, ◌∙◌, inl, inr, ℕ, suc, String, Bool, true, false, not, ◌&&◌, ◌||◌, none, some,
  arith, is_none, opt_eq, opt_eq_iff, if◌then◌else◌, Bool-cases, Option-cases,
}
use nvidia_converge.Common.Checking.{passed, split_passed}
use nvidia_converge.Recovery.Json.{Event}
use nvidia_converge.Recovery.Fields.{EventName, report_persistence_failed, operation_recovered}
use nvidia_converge.Recovery.Stream.{
  Stream, mutates_host, admit, read_header, step, is_recovery, is_persistence_failure,
}
use nvidia_converge.Recovery.Protocol.{
  Entry, snapshot, release, command, finish, complete, persistence_failure, recovery, name_of,
  Records, Phase, running, executing, completed, sealed, recovered, State, at, CanReport,
  running_report, completed_report, sealed_report, CanRecover, running_recover, executing_recover,
  sealed_recover, Step, snapshot_step, release_step, private_step, mutating_step, finish_step,
  complete_step, seal_step, report_step, recover_step,
}
use nvidia_converge.Recovery.Machine.{Moves, handle-Handled}
use nvidia_converge.Recovery.Equalities.{command_eq-≡, is_bound_to-≡, release_fits-Releases}

-- The phase that the flags of the loop stand for.
abbrev pub phase_of : Stream → Phase
phase_of s =
    if s.terminal
    then (if s.allows_persistence_failure then completed else recovered)
    else if s.sealed
    then sealed s.persistence_failure_seen
    else elim s.pending [ none ↦ running | some c ↦ executing c ]

abbrev pub view : Stream → State
view s = at (phase_of s) s.binding s.mutation_possible s.release_targets

-- The flags agree: no command is pending in a sealed or completed operation, a persistence failure
-- seals, a completion seals or ends, and what may be changed has a snapshot.
abbrev pub is_sound : Stream → Bool
is_sound s =
    (not s.sealed || is_none s.pending)
    && (not (s.terminal && s.allows_persistence_failure) || (is_none s.pending && not s.sealed))
    && (not s.persistence_failure_seen || s.sealed)
    && (not s.completion_seen || s.sealed || s.terminal)
    && (not s.mutation_possible || not (is_none s.binding))

-- What the tests in front of the chain have let through.
abbrev pub Admits : EventName → String → Stream → Type 0
Admits name id s =
    ((not (is_none s.operation_id) && not (opt_eq s.operation_id (some id))) ≡ false)
    × ((s.terminal && not (s.allows_persistence_failure && is_persistence_failure name)) ≡ false)
    × ((s.sealed && not (is_recovery name) && not (is_persistence_failure name)) ≡ false)

admit-Admits :
    (name : EventName) (id : String) (s t : Stream)
    → admit name id s ≡ passed t
    → Admits name id s × (t ≡ record s { operation_id = some id })
unfolding admit
admit-Admits name id s t h = ground arith

-- A step between the views of two states, from the equations of the views.
Step-between :
    (s s' : Stream) {id : String} {entry : Entry} {t t' : State}
    → Step id t entry t'
    → t ≡ view s
    → t' ≡ view s'
    → Step id (view s) entry (view s')
Step-between s s' {id} {entry} {t} {t'} taken e e' =
    subst (λ u. Step id u entry (view s')) e (subst (Step id t entry) e' taken)

phase-CanReport :
    (id : String) (s : Stream)
    → Admits report_persistence_failed id s
    → s.pending ≡ none
    → s.persistence_failure_seen ≡ false
    → CanReport (phase_of s)
phase-CanReport id s a idle unreported = elim (Bool-cases s.terminal) [
  | inl ended ↦ subst CanReport (ground arith) completed_report
  | inr going ↦ elim (Bool-cases s.sealed) [
    | inl closed ↦ subst CanReport (ground arith) sealed_report
    | inr unsealed ↦ subst CanReport (ground arith) running_report
  ]
]

phase-CanRecover :
    (id : String) (s : Stream) → Admits operation_recovered id s → CanRecover (phase_of s)
phase-CanRecover id s a = elim (Bool-cases s.sealed) [
  | inl closed ↦
      subst CanRecover (ground arith) (sealed_recover {reported = s.persistence_failure_seen})
  | inr unsealed ↦ elim (Option-cases s.pending) [
    | inl idle ↦ subst CanRecover (ground arith) running_recover
    | inr (c, e) ↦ subst CanRecover (ground arith) (executing_recover {c = c})
  ]
]

pub Moves-Step :
    (id : String) (entry : Entry) (s s' : Stream)
    → Admits (name_of entry) id s
    → is_sound s ≡ true
    → Moves entry (record s { operation_id = some id }) s'
    → Step id (view s) entry (view s') × (is_sound s' ≡ true)
Moves-Step id (snapshot b) s s' a i m = (
  Step-between s s' (snapshot_step {b = b} {m = s.mutation_possible} {ts = s.release_targets})
      (ground arith) (ground arith),
  ground arith,
)
Moves-Step id (release b target) s s' a i m =
    let (fits, changed) = release_fits-Releases s.release_targets s.mutation_possible target m.2 in
    let bound = is_bound_to-≡ s.binding b (m.1) in
    (Step-between s s' (release_step {b = b} fits) (ground arith) (ground arith), ground arith)
Moves-Step id (command c) s s' a i m = elim (Bool-cases (mutates_host c)) [
  | inr private ↦ (
    Step-between s s'
        (private_step {o = s.binding} {m = s.mutation_possible} {ts = s.release_targets} private)
        (ground arith) (ground arith),
    ground arith,
  )
  | inl mutates ↦ elim (Option-cases s.binding) [
    | inl none_is ↦ ground arith
    | inr (b, e) ↦ (
      Step-between s s'
          (mutating_step {b = b} {m = s.mutation_possible} {ts = s.release_targets} mutates)
          (ground arith) (ground arith),
      ground arith,
    )
  ]
]
Moves-Step id (finish c) s s' a i m = elim (Option-cases s.pending) [
  | inl none_is ↦ ground arith
  | inr (started, e) ↦ (
    Step-between s s'
        (finish_step {o = s.binding} {m = s.mutation_possible} {ts = s.release_targets} {c = c})
        (ground (arith, command_eq-≡ started c)) (ground arith),
    ground arith,
  )
]
Moves-Step id (complete false) s s' a i m = (
  Step-between s s'
      (complete_step {o = s.binding} {m = s.mutation_possible} {ts = s.release_targets})
      (ground arith) (ground arith),
  ground arith,
)
Moves-Step id (complete true) s s' a i m = elim (Option-cases s.binding) [
  | inl none_is ↦ ground arith
  | inr (b, e) ↦ (
    Step-between s s' (seal_step {b = b} {m = s.mutation_possible} {ts = s.release_targets})
        (ground arith) (ground arith),
    ground arith,
  )
]
Moves-Step id persistence_failure s s' a i m = (
  Step-between s s'
      (report_step {o = s.binding} {m = s.mutation_possible} {ts = s.release_targets}
        (phase-CanReport id s a m.0 m.1))
      refl (ground arith),
  ground arith,
)
Moves-Step id (recovery id' b) s s' a i m =
    let bound = is_bound_to-≡ s.binding b m.1 in
    (
      Step-between s s'
          (recover_step {b = b} {ts = s.release_targets} (phase-CanRecover id s a)
            (λ e. ground (arith, opt_eq_iff (some id') (some id), ap (λ x. some x) e)))
          (ground arith) (ground arith),
      ground arith,
    )

-- An accepted event records an entry, and takes the step of the protocol for it.
pub record Advances (id : String) (event : Event) (s s' : Stream) : Type 0 where
  pub entry : Entry
  pub records : Records id event entry
  pub taken : Step id (view s) entry (view s')
  pub sound : is_sound s' ≡ true
  pub same : s'.operation_id ≡ some id

pub Moves-same :
    (id : String) (entry : Entry) (s s' : Stream)
    → Moves entry (record s { operation_id = some id }) s'
    → s'.operation_id ≡ some id
Moves-same id (complete false) s s' m = ground arith
Moves-same id (complete true) s s' m = ground arith
Moves-same id (snapshot b) s s' m = ground arith
Moves-same id (release b target) s s' m = ground arith
Moves-same id (command c) s s' m = ground arith
Moves-same id (finish c) s s' m = ground arith
Moves-same id persistence_failure s s' m = ground arith
Moves-same id (recovery id' b) s s' m = ground arith

pub step-Advances :
    (id : String) (index : ℕ) (event : Event) (s s' : Stream)
    → is_sound s ≡ true
    → s.operation_id ≡ some id
    → step (suc index) event s ≡ passed s'
    → Advances id event s s'
unfolding step
step-Advances id index event s s' i same h =
    let ((name, id'), header, more) = split_passed (read_header event) _ h in
    let (t, admitted, handled) = split_passed (admit name id' s) _ more in
    let (a, state) = admit-Admits name id' s t admitted in
    let id_eq : id' ≡ id = ground (arith, opt_eq_iff (some id) (some id')) in
    let found = handle-Handled name index event t s' handled in
    let moves : Moves found.entry (record s { operation_id = some id }) s' =
      subst (λ u. Moves found.entry u s')
        (state ∙ ap (λ x. record s { operation_id = some x }) id_eq) found.moves in
    let admits : Admits (name_of found.entry) id s =
      subst (λ n. Admits n id s) (sym found.named) (subst (λ x. Admits name x s) id_eq a) in
    let (taken, sound) = Moves-Step id found.entry s s' admits i moves in
    record {
      entry = found.entry;
      records = record { header = ground (arith, id_eq, found.named, header); holds = found.holds };
      taken = taken;
      sound = sound;
      same = Moves-same id found.entry s s' moves;
    }
