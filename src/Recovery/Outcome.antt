-- ===== src/Recovery/Outcome.antt =====
-- recovery.py: what `unresolved_operations` and `recovery_snapshot_path` decide together.
use nvidia_converge.Common.{
  ◌≡◌, refl, ap, sym, ◌∙◌, ◌⊎◌, inl, inr, String, Bool, true, false, Option, none, List, [], ◌∷◌,
  ◌++◌, any, all, all-append, contains, is_none, is_empty, not, ◌||◌, ◌==◌, ==_self, arith,
  Bool-cases,
}
use nvidia_converge.Common.Checking.{passed, rejected, split_passed, passed-injective}
use nvidia_converge.Recovery.Json.{Event}
use nvidia_converge.Recovery.Fields.{ambiguous_binding}
use nvidia_converge.Recovery.Stream.{Stream, validate_event_stream}
use nvidia_converge.Recovery.Journal.{
  UnresolvedOperation, ParsedJournal, parse_events, validated_operation_id,
  journal_has_terminal_resolution,
}
use nvidia_converge.Recovery.Parsed.{Agrees, parse_events-Agrees}
use nvidia_converge.Recovery.Operations.{
  completed_operations, completion_has_final_report, is_retired, Marked, parse_journals,
  unresolved_operations, same_binding, recovery_snapshot_path,
}
use nvidia_converge.Recovery.Authority.{
  has_authority, parse_journals-Indexed, parse_journals-authorized, collect_unresolved-authority,
  recovers_operation, awaits, collect_unresolved_complete,
}

-- The validation of a journal comes to an end of its operation: a completion that is final, or a
-- recovery.
abbrev pub has_ended : List Event → Bool
has_ended events = elim (validate_event_stream events) [
  | passed s ↦ s.terminal
  | rejected why ↦ false
]

-- A journal that is marked with the identity has not ended.
abbrev pub goes_on : String → Marked → Bool
goes_on id (name, events) = not (name == id) || not (has_ended events)

module _ (has_report : ParsedJournal → Bool) where
  parse_events-final :
      (events : List Event) (p : ParsedJournal)
      → parse_events events ≡ passed p
      → has_ended events ≡ false
      → completion_has_final_report has_report p ≡ false
  unfolding parse_events validated_operation_id completion_has_final_report
      journal_has_terminal_resolution
  parse_events-final events p one going =
      let (id, identified, more) = split_passed (validated_operation_id events) _ one in
      let (s, valid, named) = split_passed (validate_event_stream events) _ identified in
      let (q, two, a) = parse_events-Agrees events s valid in
      let same : q ≡ p = passed-injective (sym two ∙ one) in
      ground (arith, a.resolution, ap (λ r. r.completion) same, ap (λ r. r.persistence_failed) same)

  -- No completed journal has the identity, where no journal that is marked with it has ended.
  completed-goes_on :
      (id : String) (journals : List Marked) (ps : List ParsedJournal)
      → parse_journals journals ≡ passed ps
      → all (goes_on id) journals ≡ true
      → contains (completed_operations has_report ps) id ≡ false
  unfolding parse_journals
  completed-goes_on id [] ps h going = ground arith
  completed-goes_on id ((name, events) ∷ journals) ps h going =
      let x = parse_journals-Indexed name events journals ps h in
      ap (λ qs. contains (completed_operations has_report qs) id) x.together
      ∙ ground (
        arith,
        completed-goes_on id journals x.indexed x.others,
        parse_events-final events x.parsed x.one,
        ap (λ i. i == id) x.marked,
      )

-- A journal among others is parsed among others.
parse_journals-awaits :
    (completed : List String) (before after : List Marked) (id : String) (events : List Event)
    (p : ParsedJournal) (ps : List ParsedJournal)
    → parse_events events ≡ passed p
    → (p.operation_id ≡ id → awaits completed id p ≡ true)
    → parse_journals (before ++ ((id, events) ∷ after)) ≡ passed ps
    → any (awaits completed id) ps ≡ true
parse_journals-awaits completed [] after id events p ps one w h =
    let x = parse_journals-Indexed id events after ps h in
    let same : x.parsed ≡ p = passed-injective (sym x.one ∙ one) in
    let named : p.operation_id ≡ id = sym (ap (λ q. q.operation_id) same) ∙ x.marked in
    ap (any (awaits completed id)) x.together
    ∙ ground (arith, ap (awaits completed id) same, w named)
parse_journals-awaits completed ((id', events') ∷ before) after id events p ps one w h =
    let x = parse_journals-Indexed id' events' (before ++ ((id, events) ∷ after)) ps h in
    ap (any (awaits completed id)) x.together
    ∙ ground
        (arith, parse_journals-awaits completed before after id events p x.indexed one w x.others)

Agrees-awaits :
    (completed : List String) (id : String) (s : Stream) (p : ParsedJournal)
    → Agrees s p
    → s.mutation_possible ≡ true
    → s.terminal ≡ false
    → contains completed id ≡ false
    → p.operation_id ≡ id
    → awaits completed id p ≡ true
unfolding is_retired journal_has_terminal_resolution
Agrees-awaits completed id s p a changed going unfinished named = ground (
  arith,
  a.resolution,
  a.unresolved,
  ==_self id,
  ap (λ i. i == id) named,
  ap (contains completed) named,
)

-- No operation is lost: when the operations to recover are returned, those include the operation of
-- every journal that may have changed the host, where no journal that is marked with the identity
-- of that operation has come to an end, so neither this one nor another.
pub unresolved_operations-recovers :
    (has_report : ParsedJournal → Bool) (before after : List Marked) (id : String)
    (events : List Event) (s : Stream) (ops : List UnresolvedOperation)
    → unresolved_operations has_report (before ++ ((id, events) ∷ after)) ≡ passed ops
    → validate_event_stream events ≡ passed s
    → s.mutation_possible ≡ true
    → all (goes_on id) (before ++ ((id, events) ∷ after)) ≡ true
    → recovers_operation id ops ≡ true
unfolding unresolved_operations
unresolved_operations-recovers has_report before after id events s ops h valid changed going =
    let journals = before ++ ((id, events) ∷ after) in
    let (indexed, parsed, collected) = split_passed (parse_journals journals) _ h in
    let (p, one, a) = parse_events-Agrees events s valid in
    let completed = completed_operations has_report indexed in
    let open_still : s.terminal ≡ false =
      ground (arith, all-append (goes_on id) before ((id, events) ∷ after), ==_self id) in
    let unfinished = completed-goes_on has_report id journals indexed parsed going in
    collect_unresolved_complete id completed indexed [] ops
      (parse_journals-authorized journals indexed parsed)
      (parse_journals-awaits completed before after id events p indexed one
        (Agrees-awaits completed id s p a changed open_still unfinished) parsed)
      collected

-- All operations have the binding of the first.
abbrev pub has_single_binding : (String → String → Bool) → List UnresolvedOperation → Bool
has_single_binding same_path [] = true
has_single_binding same_path (op ∷ operations) = all (same_binding same_path op) operations

-- A path exactly for a single binding, and none exactly without operations.
abbrev pub Chooses : (String → String → Bool) → List UnresolvedOperation → Type 0
Chooses same_path ops =
    ((has_single_binding same_path ops ≡ true)
      × (path : Option String) × (recovery_snapshot_path same_path ops ≡ passed path)
      × (is_none path ≡ is_empty ops))
    ⊎ ((has_single_binding same_path ops ≡ false)
        × (recovery_snapshot_path same_path ops ≡ rejected ambiguous_binding))

all_paths :
    (ops : List UnresolvedOperation)
    → all has_authority ops ≡ true
    → any (λ o. is_none o.snapshot_path) ops ≡ false
all_paths [] h = refl
all_paths (op ∷ ops) h = ground (arith, all_paths ops)

authority-Chooses :
    (same_path : String → String → Bool) (ops : List UnresolvedOperation)
    → all has_authority ops ≡ true
    → Chooses same_path ops
unfolding recovery_snapshot_path
authority-Chooses same_path [] h = inl (refl, none, refl, refl)
authority-Chooses same_path (op ∷ ops) h = elim (Bool-cases (all (same_binding same_path op) ops)) [
  | inl single ↦
      inl (single, op.snapshot_path, ground (arith, all_paths (op ∷ ops) h), ground arith)
  | inr mixed ↦ inr (mixed, ground (arith, all_paths (op ∷ ops) h))
]

-- The snapshot for the operations to recover is refused only when they do not bind a single one:
-- their bindings are never missing or incomplete. There is no snapshot only without operations.
pub unresolved_operations-Chooses :
    (has_report : ParsedJournal → Bool) (same_path : String → String → Bool)
    (journals : List Marked) (ops : List UnresolvedOperation)
    → unresolved_operations has_report journals ≡ passed ops
    → Chooses same_path ops
unfolding unresolved_operations
unresolved_operations-Chooses has_report same_path journals ops h =
    let (indexed, parsed, collected) = split_passed (parse_journals journals) _ h in
    authority-Chooses same_path ops (
      collect_unresolved-authority (completed_operations has_report indexed) indexed [] ops
        (parse_journals-authorized journals indexed parsed) refl collected)
