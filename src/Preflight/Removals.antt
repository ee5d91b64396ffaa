-- ===== src/Preflight/Removals.antt =====
-- preflight.py: which package an APT removal names, and `_resolve_apt_removal`.
use nvidia_converge.Common.{
  ◌≡◌, sym, ap, ◌∙◌, ◌↔◌, String, Bool, true, not, ◌&&◌, ◌||◌, none, some, List, ◌⊎◌, any, all,
  select, ◌==◌, arith, Bool-cases, Option-cases, inl, inr,
}
use nvidia_converge.Preflight.Apt.{
  AptIdentity, AptRemoval, same_identity, only, fits_removal, resolve_apt_removal,
}
use nvidia_converge.Preflight.Singles.{
  distinct, same_identity-≡, only-only_one, only_one-only, select-select, all_holds, all_same,
  all_holds-any, same_by,
}

-- A removal names a package of the host by its name and version, and by its architecture where it
-- gives one; without one, the package is of the native architecture or the only one of that name
-- and version.
abbrev pub names : AptRemoval → List AptIdentity → String → AptIdentity → Bool
names r candidates native a =
    any (same_identity a) candidates
    && a.name == r.name
    && a.version == r.version
    && elim r.architecture [
      | some explicit ↦ a.architecture == explicit
      | none ↦
          a.architecture == native
          || all (λ b. not (b.name == r.name && b.version == r.version) || same_identity a b)
              candidates
    ]

module _ (r : AptRemoval) (candidates : List AptIdentity) (native : String) (a : AptIdentity)
    (d : distinct candidates ≡ true) where
  -- The candidates that fit a removal of a given architecture are the same.
  fits-same :
      (architecture : String)
      → r.architecture ≡ some architecture
      → fits_removal r a ≡ true
      → all (λ b. not (fits_removal r b) || same_identity a b) candidates ≡ true
  fits-same architecture e h =
      all_holds (λ b. not (fits_removal r b) || same_identity a b) candidates
        (λ b. elim (Bool-cases (fits_removal r b)) [
          | inl fits ↦ ground (
            arith,
            same_by r.name r.version architecture a b (ground (arith, e)) (ground (arith, e)),
          )
          | inr other ↦ ground arith
        ])

  native-same :
      (a.name == r.name && a.version == r.version && a.architecture == native) ≡ true
      → all
          (λ b. not (fits_removal r b && b.architecture == native) || same_identity a b)
          candidates
        ≡ true
  native-same h =
      all_holds (λ b. not (fits_removal r b && b.architecture == native) || same_identity a b)
        candidates
        (λ b. elim (Bool-cases (fits_removal r b && b.architecture == native)) [
          | inl fits ↦ ground (arith, same_by r.name r.version native a b h (ground arith))
          | inr other ↦ ground arith
        ])

  resolve-explicit :
      (architecture : String)
      → r.architecture ≡ some architecture
      → (resolve_apt_removal r candidates native ≡ some a) ↔ (names r candidates native a ≡ true)
  unfolding resolve_apt_removal
  resolve-explicit architecture e = (
    λ h. ground (arith, e, only-only_one (fits_removal r) a candidates (ground (arith, e))),
    λ h.
        let fits : fits_removal r a ≡ true = ground (arith, e) in
        ground (
          arith,
          e,
          only_one-only (fits_removal r) a candidates d
              (ground (arith, fits-same architecture e fits)),
        ),
  )

  fits-implicit :
      r.architecture ≡ none
      → all (λ b. not (fits_removal r b) || same_identity a b) candidates
        ≡ all
            (λ b. not (b.name == r.name && b.version == r.version) || same_identity a b)
            candidates
  fits-implicit e =
      all_same (λ b. not (fits_removal r b) || same_identity a b)
        (λ b. not (b.name == r.name && b.version == r.version) || same_identity a b) candidates
        (λ b. ground (arith, e))

  -- A removal without an architecture is of the only candidate that fits, or of the native one.
  implicit-cases :
      r.architecture ≡ none
      → resolve_apt_removal r candidates native ≡ some a
      → (only (select (fits_removal r) candidates) ≡ some a)
        ⊎ (only (select (λ b. fits_removal r b && b.architecture == native) candidates) ≡ some a)
  unfolding resolve_apt_removal
  implicit-cases e h = elim (Option-cases (only (select (fits_removal r) candidates))) [
    | inr (b, one) ↦ inl (ground (arith, one))
    | inl many ↦ inr (
        ap only (sym (select-select (fits_removal r) (λ b. b.architecture == native) candidates))
        ∙ ground (arith, e, many))
  ]

  resolve-native :
      r.architecture ≡ none
      → only (select (fits_removal r) candidates) ≡ none
      → only (select (λ b. fits_removal r b && b.architecture == native) candidates) ≡ some a
      → resolve_apt_removal r candidates native ≡ some a
  unfolding resolve_apt_removal
  resolve-native e many h = ground (
    arith,
    e,
    many,
    ap only (select-select (fits_removal r) (λ b. b.architecture == native) candidates) ∙ h,
  )

  resolve-implicit :
      r.architecture ≡ none
      → (resolve_apt_removal r candidates native ≡ some a) ↔ (names r candidates native a ≡ true)
  unfolding resolve_apt_removal
  resolve-implicit e = (
    λ h. elim (implicit-cases e h) [
      | inl one ↦
          ground (arith, e, fits-implicit e, only-only_one (fits_removal r) a candidates one)
      | inr one ↦ ground (
        arith,
        e,
        only-only_one (λ b. fits_removal r b && b.architecture == native) a candidates one,
      )
    ],
    λ h. elim (Option-cases (only (select (fits_removal r) candidates))) [
      | inl many ↦ elim (Bool-cases (a.architecture == native)) [
        | inl at_home ↦ resolve-native e many (
            only_one-only (λ b. fits_removal r b && b.architecture == native) a candidates d
              (ground (arith, e, native-same (ground (arith, e)))))
        | inr abroad ↦
            let one =
              only_one-only (fits_removal r) a candidates d (ground (arith, e, fits-implicit e)) in
            ground (arith, many, one)
      ]
      | inr (b, one) ↦
          let alone = only-only_one (fits_removal r) b candidates one in
          let same = same_identity-≡ b a (
            ground (
              arith,
              e,
              all_holds-any (λ x. not (fits_removal r x) || same_identity b x) a candidates
                  (ground arith) (ground arith),
            )) in
          ground (arith, one) ∙ ap some same
    ],
  )

-- On a host where no package is listed twice, the candidate that a removal is resolved to is exactly
-- the package that it names.
pub resolve_apt_removal-names :
    (r : AptRemoval) (candidates : List AptIdentity) (native : String) (a : AptIdentity)
    → distinct candidates ≡ true
    → (resolve_apt_removal r candidates native ≡ some a) ↔ (names r candidates native a ≡ true)
resolve_apt_removal-names r candidates native a d = elim (Option-cases r.architecture) [
  | inl e ↦ resolve-implicit r candidates native a d e
  | inr (architecture, e) ↦ resolve-explicit r candidates native a d architecture e
]
