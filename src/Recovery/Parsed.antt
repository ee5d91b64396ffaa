-- ===== src/Recovery/Parsed.antt =====
-- recovery.py: `_parse_journal` reads off a journal what its validation has found.
use nvidia_converge.Common.{
  ◌≡◌, ◌≢◌, refl, ap, sym, ◌∙◌, inl, inr, String, true, not, ◌||◌, none, some, List, ◌∷◌, ◌==◌,
  arith, is_none, is_empty, Option-cases,
}
use nvidia_converge.Common.Checking.{passed, split_passed}
use nvidia_converge.Recovery.Json.{Event}
use nvidia_converge.Recovery.Fields.{Binding, operation_started}
use nvidia_converge.Recovery.Stream.{Stream, validate_event_stream, read_header}
use nvidia_converge.Recovery.Protocol.{opened}
use nvidia_converge.Recovery.Simulation.{view}
use nvidia_converge.Recovery.Acceptance.{validate_event_stream-IsJournal}
use nvidia_converge.Recovery.Journal.{
  UnresolvedOperation, ParsedJournal, parsed_of, parse_events, journal_has_terminal_resolution,
  host_mutation_possible, journal_binding, validated_operation_id, unresolved_operation,
}
use nvidia_converge.Recovery.Safety.{start-named, start-mutation}
use nvidia_converge.Recovery.Bindings.{snapshots, Steps-journal_binding}
use nvidia_converge.Recovery.Mutation.{Steps-mutated, Steps-is_backed}
use nvidia_converge.Recovery.Resolution.{is_resolved, Steps-is_resolved}

-- What the scans find in an accepted journal.
record Found (events : List Event) (s : Stream) : Type 0 where
  pub mutation : host_mutation_possible events ≡ s.mutation_possible
  pub binding : journal_binding (snapshots events) ≡ passed s.binding
  pub present : is_empty (snapshots events) ≡ is_none s.binding
  pub resolved : is_resolved events ≡ s.terminal
  pub backed : (not s.mutation_possible || not (is_none s.binding)) ≡ true

-- The start adds nothing to a scan.
quiet :
    (first : Event) (rest : List Event) (id : String)
    → read_header first ≡ passed (operation_started, id)
    → (host_mutation_possible (first ∷ rest) ≡ host_mutation_possible rest)
      × (snapshots (first ∷ rest) ≡ snapshots rest)
      × (is_resolved (first ∷ rest) ≡ is_resolved rest)
unfolding ◌==◌ host_mutation_possible
quiet first rest id h = ground (
  arith,
  start-mutation first id h,
  start-named first id "rollback-snapshot-persisted" h refl,
  start-named first id "operation-completed" h refl,
  start-named first id "report-persistence-failed" h refl,
  start-named first id "operation-recovered" h refl,
)

validate_event_stream-Found :
    (events : List Event) (s : Stream)
    → validate_event_stream events ≡ passed s
    → (s.operation_id ≢ none) × Found events s
validate_event_stream-Found events s h =
    let (id, entries, same, j) = validate_event_stream-IsJournal events s h in
    let (mutation, snapshot, resolved) = quiet j.first j.rest id j.header in
    (
      (λ e. ground arith),
      record {
        mutation =
            ap host_mutation_possible j.parts
            ∙ mutation
            ∙ sym (Steps-mutated id j.rest entries opened (view s) j.recorded j.steps);
        present =
            ap (λ es. is_empty (snapshots es)) j.parts
            ∙ ap is_empty snapshot
            ∙ (Steps-journal_binding id j.rest entries opened (view s) j.recorded j.steps refl).1;
        binding =
            ap (λ es. journal_binding (snapshots es)) j.parts
            ∙ ap journal_binding snapshot
            ∙ (Steps-journal_binding id j.rest entries opened (view s) j.recorded j.steps refl).0;
        resolved =
            ap is_resolved j.parts
            ∙ resolved
            ∙ ground (
              arith,
              Steps-is_resolved id j.rest entries opened (view s) j.recorded j.steps refl,
            );
        backed = Steps-is_backed id opened (view s) entries j.steps refl;
      },
    )

-- What parsing has read and the state that the validation ends in.
pub record Agrees (s : Stream) (p : ParsedJournal) : Type 0 where
  pub same : s.operation_id ≡ some p.operation_id
  pub resolution : journal_has_terminal_resolution p ≡ s.terminal
  pub unresolved : is_none p.operation ≡ not s.mutation_possible
  pub binding : p.snapshot_binding_present ≡ not (is_none s.binding)

-- A journal that is valid is parsed: the bindings of its snapshot events do not conflict. The
-- parsed journal has a terminal resolution, an operation to recover and a snapshot exactly when
-- the state that the validation ends in is terminal, may have changed the host and has a snapshot.
pub parse_events-Agrees :
    (events : List Event) (s : Stream)
    → validate_event_stream events ≡ passed s
    → (p : ParsedJournal) × (parse_events events ≡ passed p) × Agrees s p
unfolding parse_events validated_operation_id unresolved_operation journal_has_terminal_resolution
parse_events-Agrees events s h =
    let (started, f) = validate_event_stream-Found events s h in
    elim (Option-cases s.operation_id) [
      | inl missing ↦ absurd (started missing)
      | inr (id, e) ↦ (
        parsed_of id s.binding events,
        ground (arith, f.binding),
        record {
          same = e;
          resolution = f.resolved;
          unresolved = ground (arith, f.mutation);
          binding = ap not f.present;
        },
      )
    ]

-- An operation to recover has the binding.
pub record IsBoundTo (op : UnresolvedOperation) (b : Binding) : Type 0 where
  pub path : op.snapshot_path ≡ some b.path
  pub integrity : op.snapshot_integrity_sha256 ≡ some b.integrity
  pub operation : op.snapshot_operation_id ≡ some b.operation
  pub host : op.snapshot_host_id ≡ some b.host

-- The operation that a parsed journal leaves to recover has its identity, and all four parts of
-- the snapshot binding of the validation.
pub parse_events-IsBoundTo :
    (events : List Event) (p : ParsedJournal) (op : UnresolvedOperation)
    → parse_events events ≡ passed p
    → p.operation ≡ some op
    → (op.operation_id ≡ p.operation_id)
      × (s : Stream) × (b : Binding) × (validate_event_stream events ≡ passed s)
      × (s.binding ≡ some b)
      × IsBoundTo op b
unfolding parse_events validated_operation_id unresolved_operation
parse_events-IsBoundTo events p op h found =
    let (id, identified, more) = split_passed (validated_operation_id events) _ h in
    let (binding, read, ends) = split_passed (journal_binding (snapshots events)) _ more in
    let (s, valid, rest) = split_passed (validate_event_stream events) _ identified in
    let (started, f) = validate_event_stream-Found events s valid in
    elim (Option-cases s.binding) [
      | inl missing ↦ ground (arith, f.mutation, f.backed, ends)
      | inr (b, e) ↦
          let bound_to : binding ≡ some b = ground (arith, f.binding, read) in
          (
            ground arith,
            s,
            b,
            valid,
            e,
            record {
              path = ground arith;
              integrity = ground arith;
              operation = ground arith;
              host = ground arith;
            },
          )
    ]
