-- ===== src/Recovery/Operations.antt =====
-- recovery.py: the operations that are left to recover, and the snapshot that recovers them.
use nvidia_converge.Common.{
  ℕ, String, Bool, true, false, not, ◌&&◌, ◌||◌, Option, none, some, List, [], ◌∷◌, ◌++◌, any, all,
  select, map, contains, length, ◌==◌, is_none, opt_eq, ltb, if◌then◌else◌,
}
use nvidia_converge.Common.Checking.{Checked, passed, rejected, ◌>>=◌}
use nvidia_converge.Recovery.Json.{Event}
use nvidia_converge.Recovery.Fields.{
  Rejection, marker_mismatch, too_many_unresolved, missing_binding, ambiguous_binding,
  incomplete_binding, field_of,
}
use nvidia_converge.Recovery.Journal.{
  UnresolvedOperation, ParsedJournal, is_false, parse_events, journal_has_terminal_resolution,
}

-- `_completion_has_final_report`. Whether the final report is there and agrees with the journal is
-- the parameter.
unfoldable pub completion_has_final_report : (ParsedJournal → Bool) → ParsedJournal → Bool
completion_has_final_report has_report parsed =
    elim parsed.completion [
      | none ↦ false
      | some completion ↦ is_false (field_of completion "incomplete")
    ]
    && not parsed.persistence_failed
    && has_report parsed

-- `completed`
abbrev pub completed_operations : (ParsedJournal → Bool) → List ParsedJournal → List String
completed_operations has_report indexed =
    map (λ p. p.operation_id) (select (completion_has_final_report has_report) indexed)

-- `terminal`: the marker of the journal is retired.
unfoldable pub is_retired : List String → ParsedJournal → Bool
is_retired completed parsed =
    is_none parsed.operation
    || contains completed parsed.operation_id
    || elim parsed.recovery_operation_id [ none ↦ false | some id ↦ contains completed id ]

-- `MAX_RECOVERY_JOURNALS`
abbrev pub max_recovery_journals : ℕ
max_recovery_journals = 1024

-- The loop of `unresolved_operations` over the indexed journals.
unfoldable pub collect_unresolved :
    List String
    → List ParsedJournal
    → List UnresolvedOperation
    → Checked Rejection (List UnresolvedOperation)
collect_unresolved completed [] found = passed found
collect_unresolved completed (parsed ∷ indexed) found =
    elim (is_retired completed parsed || journal_has_terminal_resolution parsed) [
      | true ↦ collect_unresolved completed indexed found
      | false ↦ elim parsed.operation [
        | none ↦ collect_unresolved completed indexed found
        | some op ↦ elim (ltb max_recovery_journals (length (found ++ (op ∷ [])))) [
          | true ↦ rejected too_many_unresolved
          | false ↦ collect_unresolved completed indexed (found ++ (op ∷ []))
        ]
      ]
    ]

-- An operation identity in a marker, and the events of the journal that it names.
abbrev pub Marked : Type 0
Marked = String × List Event

-- The journals of the markers, each parsed and compared with its marker.
unfoldable pub parse_journals : List Marked → Checked Rejection (List ParsedJournal)
parse_journals [] = passed []
parse_journals ((id, events) ∷ journals) = do
  parsed ← parse_events events
  if not (parsed.operation_id == id)
      then rejected marker_mismatch
      else do indexed ← parse_journals journals; passed (parsed ∷ indexed)

-- `unresolved_operations`, from the events of the journals.
unfoldable pub unresolved_operations :
    (ParsedJournal → Bool) → List Marked → Checked Rejection (List UnresolvedOperation)
unresolved_operations has_report journals = do
  indexed ← parse_journals journals
  collect_unresolved (completed_operations has_report indexed) indexed []

module _ (same_path : String → String → Bool) where
  -- Equality of two paths that may be `None`, with the equality of `Path` as a parameter.
  abbrev pub same_opt_path : Option String → Option String → Bool
  same_opt_path none none = true
  same_opt_path (some p) (some q) = same_path p q
  same_opt_path _ _ = false

  abbrev pub same_binding : UnresolvedOperation → UnresolvedOperation → Bool
  same_binding op other =
      same_opt_path op.snapshot_path other.snapshot_path
      && opt_eq op.snapshot_integrity_sha256 other.snapshot_integrity_sha256
      && opt_eq op.snapshot_operation_id other.snapshot_operation_id
      && opt_eq op.snapshot_host_id other.snapshot_host_id

  unfoldable pub recovery_snapshot_path :
      List UnresolvedOperation → Checked Rejection (Option String)
  recovery_snapshot_path [] = passed none
  recovery_snapshot_path (op ∷ operations) =
      if any (λ o. is_none o.snapshot_path) (op ∷ operations)
      then rejected missing_binding
      else if not (all (same_binding op) operations)
      then rejected ambiguous_binding
      else if is_none op.snapshot_path
          || is_none op.snapshot_integrity_sha256
          || is_none op.snapshot_operation_id
          || is_none op.snapshot_host_id
      then rejected incomplete_binding
      else passed op.snapshot_path
