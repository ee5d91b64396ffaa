-- ===== src/Recovery/Machine.antt =====
-- recovery.py: the transitions of a journal, read off the loop body of `_validate_event_stream`.
use nvidia_converge.Common.{
  ◌≡◌, refl, ◌⊎◌, inl, inr, ℕ, suc, true, false, ◌&&◌, ◌||◌, none, some, [], ◌∷◌, ◌++◌, arith,
  is_none, opt_eq, Option-cases,
}
use nvidia_converge.Common.Checking.{Checked, passed, rejected, split_passed}
use nvidia_converge.Recovery.Json.{Event, as_text}
use nvidia_converge.Recovery.Fields.{
  Rejection, EventName, operation_started, rollback_snapshot_persisted, launcher_release_authorized,
  command_started, command_finished, operation_completed, report_persistence_failed,
  operation_recovered, field_of, read_command, read_binding, read_completion,
}
use nvidia_converge.Recovery.Protocol.{
  Entry, snapshot, release, command, finish, complete, persistence_failure, recovery, name_of,
  Holds,
}
use nvidia_converge.Recovery.Stream.{
  Stream, mutates_host, command_eq, is_bound_to, release_fits, on_command_started,
  on_command_finished, on_snapshot, on_release, on_completed, on_persistence_failed, on_recovered,
  handle,
}

-- The transition of an entry: when it is allowed, and the state it leads to.
abbrev pub Moves : Entry → Stream → Stream → Type 0
Moves (snapshot b) s s' =
    (s.pending ≡ none) × (s.binding ≡ none) × (s' ≡ record s { binding = some b })
Moves (release b target) s s' =
    (s.pending ≡ none)
    × (is_bound_to s.binding b ≡ true)
    × (release_fits s.release_targets s.mutation_possible target ≡ true)
    × (s' ≡ record s { release_targets = s.release_targets ++ (target ∷ []) })
Moves (command c) s s' =
    (s.pending ≡ none)
    × ((mutates_host c && is_none s.binding) ≡ false)
    × (s'
        ≡ record s { pending = some c; mutation_possible = s.mutation_possible || mutates_host c })
Moves (finish c) s s' =
    (elim s.pending [ none ↦ false | some started ↦ command_eq started c ] ≡ true)
    × (s' ≡ record s { pending = none })
Moves (complete false) s s' =
    (s.pending ≡ none)
    × (s.completion_seen ≡ false)
    × (s' ≡ record s { completion_seen = true; terminal = true; allows_persistence_failure = true })
Moves (complete true) s s' =
    (s.pending ≡ none)
    × (s.completion_seen ≡ false)
    × (is_none s.binding ≡ false)
    × (s' ≡ record s { completion_seen = true; mutation_possible = true; sealed = true })
Moves persistence_failure s s' =
    (s.pending ≡ none)
    × (s.persistence_failure_seen ≡ false)
    × (s' ≡ record s {
      persistence_failure_seen = true;
      terminal = false;
      allows_persistence_failure = false;
      sealed = true;
    })
Moves (recovery id b) s s' =
    (opt_eq (some id) s.operation_id ≡ false)
    × (is_bound_to s.binding b ≡ true)
    × (s.mutation_possible ≡ true)
    × (s' ≡ record s { terminal = true; allows_persistence_failure = false })

-- A transition for an event of this name.
pub record Handled (name : EventName) (event : Event) (s s' : Stream) : Type 0 where
  pub entry : Entry
  pub named : name_of entry ≡ name
  pub holds : Holds event entry
  pub moves : Moves entry s s'

command_started-Handled :
    (event : Event) (s s' : Stream)
    → on_command_started event s ≡ passed s'
    → Handled command_started event s s'
unfolding on_command_started
command_started-Handled event s s' h =
    let (c, read, more) = split_passed (read_command event) _ h in
    record { entry = command c; named = refl; holds = read; moves = ground arith }

command_finished-Handled :
    (event : Event) (s s' : Stream)
    → on_command_finished event s ≡ passed s'
    → Handled command_finished event s s'
unfolding on_command_finished
command_finished-Handled event s s' h =
    let (c, read, more) = split_passed (read_command event) _ h in
    record { entry = finish c; named = refl; holds = (read, ground arith); moves = ground arith }

-- A check passes or rejects.
Checked-cases :
    {A : Type 0} (m : Checked Rejection A)
    → ((a : A) × (m ≡ passed a)) ⊎ ((why : Rejection) × (m ≡ rejected why))
Checked-cases (passed a) = inl (a, refl)
Checked-cases (rejected why) = inr (why, refl)

snapshot-Handled :
    (event : Event) (s s' : Stream)
    → on_snapshot event s ≡ passed s'
    → Handled rollback_snapshot_persisted event s s'
unfolding on_snapshot
snapshot-Handled event s s' h = elim (Checked-cases (read_binding event)) [
  | inl (b, read) ↦ record { entry = snapshot b; named = refl; holds = read; moves = ground arith }
  | inr (why, e) ↦ ground arith
]

release-Handled :
    (event : Event) (s s' : Stream)
    → on_release event s ≡ passed s'
    → Handled launcher_release_authorized event s s'
unfolding on_release
release-Handled event s s' h = elim (Checked-cases (read_binding event)) [
  | inr (why, e) ↦ ground arith
  | inl (b, read) ↦ elim (Option-cases (as_text (field_of event "release_target"))) [
    | inl none_is ↦ ground arith
    | inr (target, e) ↦ record {
      entry = release b target;
      named = refl;
      holds = (read, e);
      moves = ground arith;
    }
  ]
]

completed-Handled :
    (event : Event) (s s' : Stream)
    → on_completed event s ≡ passed s'
    → Handled operation_completed event s s'
unfolding on_completed
completed-Handled event s s' h = elim (Checked-cases (read_completion event)) [
  | inr (why, e) ↦ ground arith
  | inl (false, read) ↦ record {
    entry = complete false;
    named = refl;
    holds = read;
    moves = ground arith;
  }
  | inl (true, read) ↦ record {
    entry = complete true;
    named = refl;
    holds = read;
    moves = ground arith;
  }
]

persistence_failed-Handled :
    (event : Event) (s s' : Stream)
    → on_persistence_failed event s ≡ passed s'
    → Handled report_persistence_failed event s s'
unfolding on_persistence_failed
persistence_failed-Handled event s s' h = elim (Option-cases (as_text (field_of event "error"))) [
  | inl none_is ↦ ground arith
  | inr (error, e) ↦ record {
    entry = persistence_failure;
    named = refl;
    holds = (error, e, ground arith);
    moves = ground arith;
  }
]

recovered-Handled :
    (event : Event) (s s' : Stream)
    → on_recovered event s ≡ passed s'
    → Handled operation_recovered event s s'
unfolding on_recovered
recovered-Handled event s s' h =
    elim (Option-cases (as_text (field_of event "recovery_operation_id"))) [
      | inl none_is ↦ ground arith
      | inr (id, e) ↦ elim (Checked-cases (read_binding event)) [
        | inr (why, e) ↦ ground arith
        | inl (b, read) ↦ record {
          entry = recovery id b;
          named = refl;
          holds = (read, e, ground arith);
          moves = ground arith;
        }
      ]
    ]

pub handle-Handled :
    (name : EventName) (index : ℕ) (event : Event) (s s' : Stream)
    → handle name (suc index) event s ≡ passed s'
    → Handled name event s s'
unfolding handle
handle-Handled operation_started index event s s' h = cc
handle-Handled command_started index event s s' h = command_started-Handled event s s' h
handle-Handled command_finished index event s s' h = command_finished-Handled event s s' h
handle-Handled rollback_snapshot_persisted index event s s' h = snapshot-Handled event s s' h
handle-Handled launcher_release_authorized index event s s' h = release-Handled event s s' h
handle-Handled operation_completed index event s s' h = completed-Handled event s s' h
handle-Handled report_persistence_failed index event s s' h =
    persistence_failed-Handled event s s' h
handle-Handled operation_recovered index event s s' h = recovered-Handled event s s' h

-- An allowed transition is taken.
pub Moves-handle :
    (entry : Entry) (index : ℕ) (event : Event) (s s' : Stream)
    → Holds event entry
    → Moves entry s s'
    → handle (name_of entry) (suc index) event s ≡ passed s'
unfolding handle on_command_started on_command_finished on_snapshot on_release on_completed
    on_persistence_failed on_recovered
Moves-handle (snapshot b) index event s s' h m = ground arith
Moves-handle (release b target) index event s s' h m = ground arith
Moves-handle (command c) index event s s' h m = ground arith
Moves-handle (finish c) index event s s' h m = ground arith
Moves-handle (complete false) index event s s' h m = ground arith
Moves-handle (complete true) index event s s' h m = ground arith
Moves-handle persistence_failure index event s s' (error, e, nonempty) m = ground arith
Moves-handle (recovery id b) index event s s' h m = ground arith
