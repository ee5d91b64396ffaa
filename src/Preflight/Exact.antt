-- ===== src/Preflight/Exact.antt =====
-- preflight.py: an accepted rollback transaction of APT has exactly the effect of the rollback.
use nvidia_converge.Common.{
  ◌≡◌, refl, ap, ◌∙◌, String, Bool, true, false, not, ◌&&◌, ◌||◌, Option, none, some, List, [], ◌∷◌,
  map, any, select, any-append, is_none, get, sym, arith, Bool-cases, Option-cases, inl, inr,
}
use nvidia_converge.Models.{PackageInfo, HostAudit}
use nvidia_converge.Rollback.Specs.{RollbackSnapshot, apt_package_name}
use nvidia_converge.Preflight.Apt.{
  AptIdentity, AptRemoval, AptTransaction, apt_identity, same_identity, in_slot,
  resolve_apt_removal, installed_identity,
}
use nvidia_converge.Preflight.Singles.{distinct, same_identity-≡, same_identity_self}
use nvidia_converge.Preflight.Removals.{names, resolve_apt_removal-names}
use nvidia_converge.Preflight.Restore.{
  Bindings, snapshot_by_spec, audit_by_remove_spec, identities_of, observed_removals, has_identity,
  is_subset, difference_error, bound_transaction_error, apt_rollback_transaction_error,
}
use nvidia_converge.Preflight.Keeps.{is_removed, is_replaced, same_slot, after, any-map}

-- A member makes a test hold for some.
has-any :
    (f : AptIdentity → Bool) (xs : List AptIdentity) (a : AptIdentity)
    → has_identity xs a ≡ true
    → f a ≡ true
    → any f xs ≡ true
has-any f [] a h e = cc
has-any f (x ∷ xs) a h e = elim (Bool-cases (same_identity a x)) [
  | inl here ↦ ground (arith, ap f (same_identity-≡ a x here))
  | inr later ↦ ground (arith, has-any f xs a)
]

subset-any :
    (f : AptIdentity → Bool) (xs ys : List AptIdentity)
    → is_subset xs ys ≡ true
    → any f xs ≡ true
    → any f ys ≡ true
subset-any f [] ys s h = cc
subset-any f (x ∷ xs) ys s h = elim (Bool-cases (f x)) [
  | inl here ↦ has-any f ys x (ground arith) here
  | inr later ↦ subset-any f xs ys (ground arith) (ground arith)
]

-- Two lists of the same members.
same-any :
    (f : AptIdentity → Bool) (xs ys : List AptIdentity)
    → is_subset xs ys ≡ true
    → is_subset ys xs ≡ true
    → any f xs ≡ any f ys
same-any f xs ys s s' = elim (Bool-cases (any f xs)) [
  | inl holds ↦ ground (arith, subset-any f xs ys s)
  | inr fails ↦ ground (arith, subset-any f ys xs s')
]

-- Both parts of a list of observed removals.
observed_parts :
    (o : Option AptIdentity) (rest : Option (List AptIdentity)) (observed : List AptIdentity)
    → elim o [ none ↦ none | some a ↦ elim rest [ none ↦ none | some others ↦ some (a ∷ others) ] ]
      ≡ some observed
    → (b : AptIdentity) × (others : List AptIdentity) × (o ≡ some b)
      × (rest ≡ some others)
      × (b ∷ others ≡ observed)
observed_parts none rest observed h = cc
observed_parts (some a) none observed h = cc
observed_parts (some a) (some others) observed h = (a, others, refl, refl, cc)

-- What a removal names is the package that it is resolved to.
names-resolved :
    (r : AptRemoval) (current : List AptIdentity) (native : String) (a b : AptIdentity)
    → distinct current ≡ true
    → resolve_apt_removal r current native ≡ some b
    → names r current native a ≡ same_identity b a
names-resolved r current native a b d e = elim (Bool-cases (names r current native a)) [
  | inl named ↦
      let same : a ≡ b = cc ((resolve_apt_removal-names r current native a d).1 named, e) in
      named ∙ sym (ap (same_identity b) same ∙ same_identity_self b)
  | inr other ↦ elim (Bool-cases (same_identity b a)) [
    | inr differ ↦ other ∙ sym differ
    | inl same ↦
        let named =
          (resolve_apt_removal-names r current native a d).0
            (e ∙ ap some (same_identity-≡ b a same)) in
        named ∙ sym same
  ]
]

-- What is removed are the observed removals.
removed-observed :
    (current : List AptIdentity) (native : String) (removals : List AptRemoval)
    (observed : List AptIdentity) (a : AptIdentity)
    → distinct current ≡ true
    → observed_removals current native removals ≡ some observed
    → any (λ r. names r current native a) removals ≡ any (λ b. same_identity b a) observed
unfolding observed_removals
removed-observed current native [] observed a d h = ground arith
removed-observed current native (r ∷ removals) observed a d h =
    let (b, others, e, rest, parts) =
      observed_parts (resolve_apt_removal r current native)
        (observed_removals current native removals) observed h in
    ground (
      arith,
      names-resolved r current native a b d e,
      removed-observed current native removals others a d rest,
    )
    ∙ ap (any (λ c. same_identity c a)) parts

-- The audited packages are listed once.
slot-distinct :
    (a : AptIdentity) (found : Bindings)
    → any (λ m. in_slot a m.1) found ≡ false
    → any (same_identity a) (map (λ m. m.1) found) ≡ false
slot-distinct a [] h = refl
slot-distinct a ((spec, b) ∷ found) h = ground (arith, slot-distinct a found)

audit_by_remove_spec-distinct :
    (native : String) (packages : List PackageInfo) (found current : Bindings)
    → distinct (map (λ m. m.1) found) ≡ true
    → audit_by_remove_spec native packages found ≡ some current
    → distinct (map (λ m. m.1) current) ≡ true
unfolding audit_by_remove_spec
audit_by_remove_spec-distinct native [] found current d h = ground arith
audit_by_remove_spec-distinct native (p ∷ packages) found current d h =
    elim (Option-cases (apt_identity native p)) [
      | inl skipped ↦ audit_by_remove_spec-distinct native packages found current d (ground arith)
      | inr (a, e) ↦
          elim (Bool-cases
            (is_none (get found (apt_package_name p)) && not (any (λ m. in_slot a m.1) found))) [
              | inr repeated ↦ ground arith
              | inl fresh ↦
                  audit_by_remove_spec-distinct native packages ((apt_package_name p, a) ∷ found)
                    current (ground (arith, slot-distinct a found (ground arith))) (ground arith)
            ]
    ]

has-select :
    (g : AptIdentity → Bool) (xs : List AptIdentity) (a : AptIdentity)
    → has_identity (select g xs) a ≡ (has_identity xs a && g a)
has-select g [] a = refl
has-select g (x ∷ xs) a = elim (Bool-cases (same_identity a x)) [
  | inl here ↦ ground (arith, has-select g xs a, ap g (same_identity-≡ a x here))
  | inr later ↦ ground (arith, has-select g xs a)
]

same_identity_sym : (a b : AptIdentity) → same_identity a b ≡ same_identity b a
same_identity_sym a b = elim (Bool-cases (same_identity a b)) [
  | inl same ↦
      ground (arith, ap (λ x. same_identity x a) (same_identity-≡ a b same), same_identity_self a)
  | inr other ↦ elim (Bool-cases (same_identity b a)) [
    | inr other' ↦ ground arith
    | inl same ↦
        ground (arith, ap (λ x. same_identity x b) (same_identity-≡ b a same), same_identity_self b)
  ]
]

any-sym :
    (a : AptIdentity) (xs : List AptIdentity) → any (λ b. same_identity b a) xs ≡ has_identity xs a
any-sym a [] = refl
any-sym a (x ∷ xs) = ground (arith, any-sym a xs, same_identity_sym x a)

-- The packages after the rollback: the restored ones, and the current ones that are neither removed
-- nor in the slot of a restored one.
abbrev pub rolled_back : List AptIdentity → List AptIdentity → List AptIdentity → AptIdentity → Bool
rolled_back current restored removed a =
    has_identity restored a
    || (has_identity current a && not (has_identity removed a) && not (any (same_slot a) restored))

difference-exact :
    (native : String) (current restored removed observed : List AptIdentity) (t : AptTransaction)
    (a : AptIdentity)
    → distinct current ≡ true
    → observed_removals current native t.removals ≡ some observed
    → difference_error (map installed_identity t.installs) restored observed removed ≡ none
    → has_identity (after native current t) a ≡ rolled_back current restored removed a
unfolding difference_error
difference-exact native current restored removed observed t a d h e =
    let installs = map installed_identity t.installs in
    let i : is_subset installs restored ≡ true = ground arith in
    let i' : is_subset restored installs ≡ true = ground arith in
    let r : is_subset observed removed ≡ true = ground arith in
    let r' : is_subset removed observed ≡ true = ground arith in
    any-append (same_identity a) installs
      (select (λ x. not (is_removed native current t x) && not (is_replaced t x)) current)
    ∙ ground (
      arith,
      has-select (λ x. not (is_removed native current t x) && not (is_replaced t x)) current a,
      same-any (same_identity a) installs restored i i',
      same-any (same_slot a) installs restored i i',
      any-map (same_slot a) installed_identity t.installs,
      removed-observed current native t.removals observed a d h,
      any-sym a observed,
      same-any (same_identity a) observed removed r r',
    )

-- An accepted rollback transaction has found the operands of the snapshot and of the host, and after
-- it the APT packages of the host are the restored ones, with the current ones that the operands do
-- not remove and whose slot they do not restore.
pub rollback-exact :
    (t : AptTransaction) (snapshot : RollbackSnapshot) (audit : HostAudit)
    (restore_specs remove_specs : List String) (native : String)
    → apt_rollback_transaction_error (some t) snapshot audit restore_specs remove_specs native
      ≡ none
    → (restores : Bindings) × (current : Bindings) × (snapshot_by_spec snapshot native
          snapshot.packages []
        ≡ some restores)
      × (audit_by_remove_spec native audit.packages [] ≡ some current)
      × ((a : AptIdentity)
          → has_identity (after native (map (λ m. m.1) current) t) a
            ≡ rolled_back
                (map (λ m. m.1) current)
                (identities_of restores restore_specs)
                (identities_of current remove_specs)
                a)
unfolding apt_rollback_transaction_error bound_transaction_error
rollback-exact t snapshot audit restore_specs remove_specs native h =
    elim (Option-cases (snapshot_by_spec snapshot native snapshot.packages [])) [
      | inl none_is ↦ ground arith
      | inr (restores, e) ↦ elim (Option-cases (audit_by_remove_spec native audit.packages [])) [
        | inl none_is ↦ ground arith
        | inr (current, e') ↦
            elim (Option-cases (observed_removals (map (λ m. m.1) current) native t.removals)) [
              | inl none_is ↦ ground arith
              | inr (observed, seen) ↦ (
                restores,
                current,
                e,
                e',
                λ a.
                    difference-exact native (map (λ m. m.1) current)
                      (identities_of restores restore_specs) (identities_of current remove_specs)
                      observed t a
                      (audit_by_remove_spec-distinct native audit.packages [] current refl e') seen
                      (ground arith),
              )
            ]
      ]
    ]
