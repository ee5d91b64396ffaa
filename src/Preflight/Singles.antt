-- ===== src/Preflight/Singles.antt =====
-- preflight.py: the only identity of a list that passes a test.
use nvidia_converge.Common.{
  ◌≡◌, refl, sym, ap, ◌∙◌, String, Bool, true, false, not, ◌&&◌, ◌||◌, some, List, [], ◌∷◌, any,
  all, select, ◌==◌, ==_iff, ==_self, arith, Bool-cases, inl, inr,
}
use nvidia_converge.Models.{PackageInfo}
use nvidia_converge.Preflight.Apt.{AptIdentity, same_identity, current_identities, only}

-- No identity is there twice.
abbrev pub distinct : List AptIdentity → Bool
distinct [] = true
distinct (a ∷ identities) = not (any (same_identity a) identities) && distinct identities

pub current_identities-distinct :
    (native : String) (packages : List PackageInfo)
    → distinct (current_identities native packages) ≡ true
unfolding current_identities
current_identities-distinct native [] = refl
current_identities-distinct native (p ∷ packages) =
    ground (arith, current_identities-distinct native packages)

pub same_identity-≡ : (a b : AptIdentity) → same_identity a b ≡ true → a ≡ b
same_identity-≡ a b h =
    ground (
      arith,
      ==_iff a.name b.name,
      ==_iff a.architecture b.architecture,
      ==_iff a.version b.version,
    )

pub same_identity_self : (a : AptIdentity) → same_identity a a ≡ true
same_identity_self a = ground (arith, ==_self a.name, ==_self a.architecture, ==_self a.version)

only-cons :
    (x a : AptIdentity) (xs : List AptIdentity) → only (x ∷ xs) ≡ some a → (x ≡ a) × (xs ≡ [])
only-cons x a [] h = (cc, refl)
only-cons x a (y ∷ xs) h = cc

module _ (f : AptIdentity → Bool) (a : AptIdentity) where
  -- The identity is the only one that passes a test.
  abbrev pub only_one : List AptIdentity → Bool
  only_one xs = any (same_identity a) xs && f a && all (λ b. not (f b) || same_identity a b) xs

  nil-all :
      (xs : List AptIdentity)
      → select f xs ≡ []
      → all (λ b. not (f b) || same_identity a b) xs ≡ true
  nil-all [] h = refl
  nil-all (x ∷ xs) h = elim (Bool-cases (f x)) [
    | inl passes ↦ ground arith
    | inr fails ↦ ground (arith, nil-all xs)
  ]

  all-nil :
      (xs : List AptIdentity)
      → all (λ b. not (f b) || same_identity a b) xs ≡ true
      → any (same_identity a) xs ≡ false
      → select f xs ≡ []
  all-nil [] h away = refl
  all-nil (x ∷ xs) h away = ground (arith, all-nil xs)

  pub only-only_one : (xs : List AptIdentity) → only (select f xs) ≡ some a → only_one xs ≡ true
  only-only_one [] h = cc
  only-only_one (x ∷ xs) h = elim (Bool-cases (f x)) [
    | inl passes ↦
        let (same, alone) = only-cons x a (select f xs) (ground arith) in
        ground (arith, nil-all xs alone, ap f same, ap (same_identity a) same, same_identity_self a)
    | inr fails ↦ ground (arith, only-only_one xs)
  ]

  pub only_one-only :
      (xs : List AptIdentity)
      → distinct xs ≡ true
      → only_one xs ≡ true
      → only (select f xs) ≡ some a
  only_one-only [] d h = cc
  only_one-only (x ∷ xs) d h = elim (Bool-cases (f x)) [
    | inl passes ↦
        let same = same_identity-≡ a x (ground arith) in
        let alone =
          all-nil xs (ground arith) (ap (λ y. any (same_identity y) xs) same ∙ ground arith) in
        rw (passes, alone) (ap some (sym same))
    | inr fails ↦ elim (Bool-cases (same_identity a x)) [
      | inl same ↦ ground (arith, ap f (same_identity-≡ a x same))
      | inr other ↦ ground (arith, only_one-only xs)
    ]
  ]

pub select-select :
    (f g : AptIdentity → Bool) (xs : List AptIdentity)
    → select g (select f xs) ≡ select (λ b. f b && g b) xs
select-select f g [] = refl
select-select f g (x ∷ xs) = elim (Bool-cases (f x)) [
  | inl passes ↦ ground (arith, select-select f g xs)
  | inr fails ↦ ground (arith, select-select f g xs)
]

pub all_holds :
    (g : AptIdentity → Bool) (xs : List AptIdentity)
    → ((b : AptIdentity) → g b ≡ true)
    → all g xs ≡ true
all_holds g [] h = refl
all_holds g (x ∷ xs) h = ground (arith, h x, all_holds g xs)

pub all_same :
    (g h : AptIdentity → Bool) (xs : List AptIdentity)
    → ((b : AptIdentity) → g b ≡ h b)
    → all g xs ≡ all h xs
all_same g h [] e = refl
all_same g h (x ∷ xs) e = ground (arith, e x, all_same g h xs e)

pub all_holds-any :
    (g : AptIdentity → Bool) (a : AptIdentity) (xs : List AptIdentity)
    → all g xs ≡ true
    → any (same_identity a) xs ≡ true
    → g a ≡ true
all_holds-any g a [] h here = cc
all_holds-any g a (x ∷ xs) h here = elim (Bool-cases (same_identity a x)) [
  | inl same ↦ ground (arith, ap g (same_identity-≡ a x same))
  | inr other ↦ all_holds-any g a xs (ground arith) (ground arith)
]

-- Two identities of the name, the version and the architecture are the same.
pub same_by :
    (name version architecture : String) (a b : AptIdentity)
    → (a.name == name && a.version == version && a.architecture == architecture) ≡ true
    → (b.name == name && b.version == version && b.architecture == architecture) ≡ true
    → same_identity a b ≡ true
same_by name version architecture a b h k = ground (
  arith,
  ==_iff a.name name,
  ==_iff b.name name,
  ==_iff a.version version,
  ==_iff b.version version,
  ==_iff a.architecture architecture,
  ==_iff b.architecture architecture,
  ==_self name,
  ==_self version,
  ==_self architecture,
)
