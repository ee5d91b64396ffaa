-- ===== src/Recovery/Authority.antt =====
-- recovery.py: every operation left to recover has a complete snapshot binding, and none is lost.
use nvidia_converge.Common.{
  ◌≡◌, ap, sym, ◌∙◌, ◌⊎◌, inl, inr, String, Bool, true, false, not, ◌&&◌, ◌||◌, none, some, List,
  [], ◌∷◌, ◌++◌, any, all, is_none, ◌==◌, ==_iff, ==_self, arith, Option-cases, Bool-cases,
  all-append, any-append,
}
use nvidia_converge.Common.Checking.{passed, ◌>>=◌, split_passed, passed-injective}
use nvidia_converge.Recovery.Json.{Event}
use nvidia_converge.Recovery.Journal.{
  UnresolvedOperation, ParsedJournal, parse_events, journal_has_terminal_resolution,
}
use nvidia_converge.Recovery.Parsed.{parse_events-IsBoundTo}
use nvidia_converge.Recovery.Operations.{is_retired, collect_unresolved, Marked, parse_journals}

-- All four parts of a binding are there.
abbrev pub has_authority : UnresolvedOperation → Bool
has_authority op =
    not (is_none op.snapshot_path)
    && not (is_none op.snapshot_integrity_sha256)
    && not (is_none op.snapshot_operation_id)
    && not (is_none op.snapshot_host_id)

abbrev pub is_authorized : ParsedJournal → Bool
is_authorized p = elim p.operation [
  | none ↦ true
  | some op ↦ has_authority op && op.operation_id == p.operation_id
]

parse_events-is_authorized :
    (events : List Event) (p : ParsedJournal)
    → parse_events events ≡ passed p
    → is_authorized p ≡ true
parse_events-is_authorized events p h = elim (Option-cases p.operation) [
  | inl settled ↦ ground arith
  | inr (op, e) ↦
      let (same, s, b, valid, bound, is_bound) = parse_events-IsBoundTo events p op h e in
      ground (arith, same, is_bound, ==_self p.operation_id)
]

-- One journal parsed in front of others.
pub record Indexed (id : String) (events : List Event) (journals : List Marked)
    (all_parsed : List ParsedJournal) : Type 0 where
  pub parsed : ParsedJournal
  pub indexed : List ParsedJournal
  pub one : parse_events events ≡ passed parsed
  pub marked : parsed.operation_id ≡ id
  pub others : parse_journals journals ≡ passed indexed
  pub together : all_parsed ≡ parsed ∷ indexed

pub parse_journals-Indexed :
    (id : String) (events : List Event) (journals : List Marked) (ps : List ParsedJournal)
    → parse_journals ((id, events) ∷ journals) ≡ passed ps
    → Indexed id events journals ps
unfolding parse_journals
parse_journals-Indexed id events journals ps h =
    let (p, one, more) = split_passed (parse_events events) _ h in
    let marked : (p.operation_id == id) ≡ true = ground arith in
    let rest : (parse_journals journals >>= λ indexed. passed (p ∷ indexed)) ≡ passed ps =
      ground arith in
    let (indexed, others, ends) = split_passed (parse_journals journals) _ rest in
    record {
      parsed = p;
      indexed = indexed;
      one = one;
      marked = ground (arith, ==_iff p.operation_id id);
      others = others;
      together = sym (passed-injective ends);
    }

pub parse_journals-authorized :
    (journals : List Marked) (ps : List ParsedJournal)
    → parse_journals journals ≡ passed ps
    → all is_authorized ps ≡ true
unfolding parse_journals
parse_journals-authorized [] ps h = ground arith
parse_journals-authorized ((id, events) ∷ journals) ps h =
    let x = parse_journals-Indexed id events journals ps h in
    ap (all is_authorized) x.together
    ∙ ground (
      arith,
      parse_events-is_authorized events x.parsed x.one,
      parse_journals-authorized journals x.indexed x.others,
    )

-- One turn of the loop: a journal adds its operation, or leaves what was found.
abbrev pub needs_recovery : List String → ParsedJournal → Bool
needs_recovery completed p = not (is_retired completed p || journal_has_terminal_resolution p)

module _ (completed : List String) (p : ParsedJournal) (ps : List ParsedJournal)
    (found ops : List UnresolvedOperation) where
  collect_unresolved-turn :
      collect_unresolved completed (p ∷ ps) found ≡ passed ops
      → (((needs_recovery completed p ≡ false) ⊎ (p.operation ≡ none))
          × (collect_unresolved completed ps found ≡ passed ops))
        ⊎ ((op : UnresolvedOperation) × (p.operation ≡ some op)
            × (collect_unresolved completed ps (found ++ (op ∷ [])) ≡ passed ops))
  unfolding collect_unresolved
  collect_unresolved-turn h =
      elim (Bool-cases (is_retired completed p || journal_has_terminal_resolution p)) [
        | inl settled ↦ inl (inl (ground arith), ground arith)
        | inr needed ↦ elim (Option-cases p.operation) [
          | inl missing ↦ inl (inr missing, ground arith)
          | inr (op, e) ↦ inr (op, e, ground arith)
        ]
      ]

pub collect_unresolved-authority :
    (completed : List String) (ps : List ParsedJournal) (found ops : List UnresolvedOperation)
    → all is_authorized ps ≡ true
    → all has_authority found ≡ true
    → collect_unresolved completed ps found ≡ passed ops
    → all has_authority ops ≡ true
unfolding collect_unresolved
collect_unresolved-authority completed [] found ops a f h = ground arith
collect_unresolved-authority completed (p ∷ ps) found ops a f h =
    elim (collect_unresolved-turn completed p ps found ops h) [
      | inl (why, rest) ↦ collect_unresolved-authority completed ps found ops (ground arith) f rest
      | inr (op, e, rest) ↦
          collect_unresolved-authority completed ps (found ++ (op ∷ [])) ops (ground arith)
            (all-append has_authority found (op ∷ []) ∙ ground arith) rest
    ]

-- The operation of an identity is among those to recover.
abbrev pub recovers_operation : String → List UnresolvedOperation → Bool
recovers_operation id ops = any (λ op. op.operation_id == id) ops

collect_unresolved-keeps :
    (id : String) (completed : List String) (ps : List ParsedJournal)
    (found ops : List UnresolvedOperation)
    → recovers_operation id found ≡ true
    → collect_unresolved completed ps found ≡ passed ops
    → recovers_operation id ops ≡ true
unfolding collect_unresolved
collect_unresolved-keeps id completed [] found ops f h = ground arith
collect_unresolved-keeps id completed (p ∷ ps) found ops f h =
    elim (collect_unresolved-turn completed p ps found ops h) [
      | inl (why, rest) ↦ collect_unresolved-keeps id completed ps found ops f rest
      | inr (op, e, rest) ↦
          collect_unresolved-keeps id completed ps (found ++ (op ∷ [])) ops
            (any-append (λ o. o.operation_id == id) found (op ∷ []) ∙ ground arith) rest
    ]

-- An operation that a parsed journal leaves to recover.
abbrev pub awaits : List String → String → ParsedJournal → Bool
awaits completed id p =
    p.operation_id == id && not (is_none p.operation) && needs_recovery completed p

pub collect_unresolved_complete :
    (id : String) (completed : List String) (ps : List ParsedJournal)
    (found ops : List UnresolvedOperation)
    → all is_authorized ps ≡ true
    → any (awaits completed id) ps ≡ true
    → collect_unresolved completed ps found ≡ passed ops
    → recovers_operation id ops ≡ true
collect_unresolved_complete id completed [] found ops a w h = cc
collect_unresolved_complete id completed (p ∷ ps) found ops a w h =
    elim (collect_unresolved-turn completed p ps found ops h) [
      | inl (inl settled, rest) ↦
          collect_unresolved_complete id completed ps found ops (ground arith) (ground arith) rest
      | inl (inr missing, rest) ↦
          collect_unresolved_complete id completed ps found ops (ground arith) (ground arith) rest
      | inr (op, e, rest) ↦ elim (Bool-cases (awaits completed id p)) [
        | inl this ↦
            collect_unresolved-keeps id completed ps (found ++ (op ∷ [])) ops
              (any-append (λ o. o.operation_id == id) found (op ∷ [])
                ∙ ground (
                  arith,
                  ==_iff op.operation_id p.operation_id,
                  ==_iff p.operation_id id,
                  ==_self id,
                ))
              rest
        | inr other ↦
            collect_unresolved_complete id completed ps (found ++ (op ∷ [])) ops (ground arith)
              (ground arith) rest
      ]
    ]
