-- ===== src/Examples/Recoveries.antt =====
-- recovery.py: the theorems applied to the sample journals.
use nvidia_converge.Common.{
  ◌≡◌, ◌≢◌, ◌==◌, ap, refl, String, Bool, true, false, none, some, List, [], ◌∷◌, ◌++◌, any, all,
}
use nvidia_converge.Common.Checking.{passed}
use nvidia_converge.Recovery.Json.{Event}
use nvidia_converge.Recovery.Fields.{Binding, Command}
use nvidia_converge.Recovery.Stream.{Stream, validate_event_stream}
use nvidia_converge.Recovery.Protocol.{
  Entry, snapshot, command, recovery, recovered, at, executing_recover, stop, next, snapshot_step,
  mutating_step, recover_step, nothing, also, IsJournal,
}
use nvidia_converge.Recovery.Simulation.{view}
use nvidia_converge.Recovery.Acceptance.{
  validate_event_stream-IsJournal, IsJournal-validate_event_stream,
}
use nvidia_converge.Recovery.Journal.{
  UnresolvedOperation, ParsedJournal, is_named, starts_host_mutation, parse_events,
  validated_operation_id, journal_binding, unresolved_operation, host_mutation_possible,
  journal_has_terminal_resolution,
}
use nvidia_converge.Recovery.Safety.{mutation-snapshot, recovered-last}
use nvidia_converge.Recovery.Answers.{
  Answers, command_started-Answers, belongs_to, validate_event_stream-belongs_to,
}
use nvidia_converge.Recovery.Parsed.{Agrees, IsBoundTo, parse_events-Agrees, parse_events-IsBoundTo}
use nvidia_converge.Recovery.Operations.{
  Marked, completion_has_final_report, is_retired, collect_unresolved, parse_journals,
  unresolved_operations,
}
use nvidia_converge.Recovery.Authority.{recovers_operation}
use nvidia_converge.Recovery.Outcome.{
  Chooses, unresolved_operations-recovers, unresolved_operations-Chooses,
}
use nvidia_converge.Examples.Journals.{
  journal_program, operation_id, recovering_id, started, snapshotted, installing, installed,
  recovering, interrupted, interrupted_state, interrupted-accepted,
}

validate_event_stream-IsJournal_example :
    (id : String) × (entries : List Entry) × (interrupted_state.operation_id ≡ some id)
    × IsJournal interrupted id entries (view interrupted_state)
validate_event_stream-IsJournal_example =
    validate_event_stream-IsJournal interrupted interrupted_state interrupted-accepted

abbrev sample_binding : Binding
sample_binding = record {
  path = "/var/lib/snapshot.json";
  integrity = "00112233445566778899aabbccddeeff00112233445566778899aabbccddeeff";
  operation = operation_id;
  host = "machine-id-sha256:00112233445566778899aabbccddeeff00112233445566778899aabbccddeeff";
}

abbrev install_command : Command
install_command = ("apt-get" ∷ "install" ∷ [], true)

abbrev recovered_entries : List Entry
recovered_entries =
    snapshot sample_binding ∷ command install_command ∷ recovery recovering_id sample_binding ∷ []

others_differ : recovering_id ≢ operation_id
unfolding ◌==◌
others_differ e = let differ : false ≡ true = ap (λ id. id == operation_id) e in cc

recovered-IsJournal :
    IsJournal
      (interrupted ++ (recovering ∷ []))
      operation_id
      recovered_entries
      (at recovered (some sample_binding) true [])
unfolding journal_program
recovered-IsJournal = record {
  first = started;
  rest = snapshotted ∷ installing ∷ recovering ∷ [];
  parts = refl;
  header = refl;
  recorded =
      also (record { header = refl; holds = refl })
        (also (record { header = refl; holds = refl })
          (also (record { header = refl; holds = (refl, refl, refl) }) nothing));
  steps =
      next snapshot_step
        (next (mutating_step refl) (next (recover_step executing_recover others_differ) stop));
}

IsJournal-validate_event_stream_example :
    (s : Stream) × (validate_event_stream (interrupted ++ (recovering ∷ [])) ≡ passed s)
    × (s.operation_id ≡ some operation_id)
    × (view s ≡ at recovered (some sample_binding) true [])
IsJournal-validate_event_stream_example =
    IsJournal-validate_event_stream (interrupted ++ (recovering ∷ [])) operation_id
      recovered_entries (at recovered (some sample_binding) true []) recovered-IsJournal

installing-mutates : starts_host_mutation installing ≡ true
unfolding journal_program
installing-mutates = refl

mutation-snapshot_example :
    any (is_named "rollback-snapshot-persisted") (started ∷ snapshotted ∷ []) ≡ true
mutation-snapshot_example =
    mutation-snapshot (started ∷ snapshotted ∷ []) installing [] interrupted_state
      interrupted-accepted installing-mutates

recovered-accepted :
    validate_event_stream (interrupted ++ (recovering ∷ []))
    ≡ passed (record interrupted_state { terminal = true })
unfolding journal_program
recovered-accepted = refl

recovering-named : is_named "operation-recovered" recovering ≡ true
unfolding ◌==◌
recovering-named = refl

recovered-last_example : ◌≡◌ {A = List Event} [] []
recovered-last_example =
    recovered-last interrupted recovering [] (record interrupted_state { terminal = true })
      recovered-accepted recovering-named

installed-accepted :
    validate_event_stream (interrupted ++ (installed ∷ []))
    ≡ passed (record interrupted_state { pending = none })
unfolding journal_program
installed-accepted = refl

installing-named : is_named "command-started" installing ≡ true
unfolding ◌==◌
installing-named = refl

command_started-Answers_example : Answers installing installed
command_started-Answers_example =
    command_started-Answers (started ∷ snapshotted ∷ []) installing installed []
      (record interrupted_state { pending = none }) installed-accepted installing-named

validate_event_stream-belongs_to_example :
    (id : String) × (interrupted_state.operation_id ≡ some id)
    × (all (belongs_to id) interrupted ≡ true)
validate_event_stream-belongs_to_example =
    validate_event_stream-belongs_to interrupted interrupted_state interrupted-accepted

parse_events-Agrees_example :
    (p : ParsedJournal) × (parse_events interrupted ≡ passed p) × Agrees interrupted_state p
parse_events-Agrees_example = parse_events-Agrees interrupted interrupted_state interrupted-accepted

-- What is left to recover after the interruption.
abbrev interrupted_operation : UnresolvedOperation
interrupted_operation = record {
  operation_id = operation_id;
  snapshot_path = some sample_binding.path;
  snapshot_integrity_sha256 = some sample_binding.integrity;
  snapshot_operation_id = some sample_binding.operation;
  snapshot_host_id = some sample_binding.host;
  launcher_release_target = none;
  host_mutation_possible = true;
}

abbrev interrupted_parsed : ParsedJournal
interrupted_parsed = record {
  operation_id = operation_id;
  operation = some interrupted_operation;
  completion = none;
  persistence_failed = false;
  recovery_operation_id = none;
  private_snapshot_artifacts_possible = false;
  snapshot_binding_present = true;
}

interrupted-parsed : parse_events interrupted ≡ passed interrupted_parsed
unfolding journal_program parse_events validated_operation_id journal_binding unresolved_operation
    host_mutation_possible
interrupted-parsed = refl

parse_events-IsBoundTo_example :
    (interrupted_operation.operation_id ≡ interrupted_parsed.operation_id)
    × (s : Stream) × (b : Binding) × (validate_event_stream interrupted ≡ passed s)
    × (s.binding ≡ some b)
    × IsBoundTo interrupted_operation b
parse_events-IsBoundTo_example =
    parse_events-IsBoundTo interrupted interrupted_parsed interrupted_operation interrupted-parsed
      refl

-- No final report is found.
abbrev without_reports : ParsedJournal → Bool
without_reports parsed = false

abbrev marked_journals : List Marked
marked_journals = (operation_id, interrupted) ∷ []

interrupted-indexed : parse_journals marked_journals ≡ passed (interrupted_parsed ∷ [])
unfolding journal_program parse_events validated_operation_id journal_binding unresolved_operation
    host_mutation_possible parse_journals
interrupted-indexed = refl

interrupted-unresolved :
    unresolved_operations without_reports marked_journals ≡ passed (interrupted_operation ∷ [])
unfolding journal_program parse_events validated_operation_id journal_binding unresolved_operation
    host_mutation_possible parse_journals unresolved_operations collect_unresolved is_retired
    journal_has_terminal_resolution completion_has_final_report
interrupted-unresolved = refl

unresolved_operations-recovers_example :
    recovers_operation operation_id (interrupted_operation ∷ []) ≡ true
unfolding journal_program
unresolved_operations-recovers_example =
    unresolved_operations-recovers without_reports [] [] operation_id interrupted interrupted_state
      (interrupted_operation ∷ []) interrupted-unresolved interrupted-accepted refl refl

unresolved_operations-Chooses_example : Chooses (λ p q. p == q) (interrupted_operation ∷ [])
unresolved_operations-Chooses_example =
    unresolved_operations-Chooses without_reports (λ p q. p == q) marked_journals
      (interrupted_operation ∷ []) interrupted-unresolved
