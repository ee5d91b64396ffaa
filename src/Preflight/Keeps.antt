-- ===== src/Preflight/Keeps.antt =====
-- preflight.py: what an accepted forward transaction of APT leaves in place.
use nvidia_converge.Common.{
  ◌≡◌, refl, ap, ◌∙◌, ◌⊎◌, String, Bool, true, false, not, ◌&&◌, ◌||◌, Option, none, some, List, [],
  ◌∷◌, ◌++◌, map, any, select, any-append, ◌==◌, ==_iff, arith, Bool-cases, Option-cases, inl, inr,
}
use nvidia_converge.Models.{HostAudit}
use nvidia_converge.Preflight.Closure.{forward_package_allowed}
use nvidia_converge.Preflight.Singles.{distinct, current_identities-distinct, same_identity-≡}
use nvidia_converge.Preflight.Removals.{names, resolve_apt_removal-names}
use nvidia_converge.Preflight.Apt.{
  AptIdentity, AptInstall, AptTransaction, TransactionError, current_identities, same_identity,
  installed_identity, first_error, install_error, removal_error, apt_forward_transaction_error,
}

-- The slot of a package on a host: its name and its architecture.
abbrev pub same_slot : AptIdentity → AptIdentity → Bool
same_slot a b = a.name == b.name && a.architecture == b.architecture

-- The packages of a host after APT has run a transaction: what a removal names, and what an
-- installation takes the slot of, is gone. This does not use what the program resolves.
abbrev pub is_removed : String → List AptIdentity → AptTransaction → AptIdentity → Bool
is_removed native current t a = any (λ r. names r current native a) t.removals

abbrev pub is_replaced : AptTransaction → AptIdentity → Bool
is_replaced t a = any (λ i. same_slot a (installed_identity i)) t.installs

abbrev pub after : String → List AptIdentity → AptTransaction → List AptIdentity
after native current t =
    map installed_identity t.installs
    ++ select (λ a. not (is_removed native current t a) && not (is_replaced t a)) current

-- No error in a loop is no error for any of its elements.
any-first_error :
    {A : Type 0} (check : A → Option TransactionError) (f : A → Bool) (xs : List A)
    → first_error check xs ≡ none
    → ((x : A) → check x ≡ none → f x ≡ false)
    → any f xs ≡ false
any-first_error check f [] h each = refl
any-first_error check f (x ∷ xs) h each = elim (Option-cases (check x)) [
  | inl fine ↦ ground (arith, each x fine, any-first_error check f xs (ground arith) each)
  | inr (e, failed) ↦ ground arith
]

pub any-map :
    {A B : Type 0} (f : B → Bool) (g : A → B) (xs : List A)
    → any f (map g xs) ≡ any (λ x. f (g x)) xs
any-map f g [] = refl
any-map f g (x ∷ xs) = ground (arith, any-map f g xs)

select-same :
    (g : AptIdentity → Bool) (a : AptIdentity) (xs : List AptIdentity)
    → g a ≡ true
    → any (same_identity a) xs ≡ true
    → any (same_identity a) (select g xs) ≡ true
select-same g a [] k h = cc
select-same g a (x ∷ xs) k h = elim (Bool-cases (same_identity a x)) [
  | inl here ↦ ground (arith, ap g (same_identity-≡ a x here))
  | inr later ↦ ground (arith, select-same g a xs k)
]

same-same_slot :
    (a : AptIdentity) (xs : List AptIdentity)
    → any (same_identity a) xs ≡ true
    → any (same_slot a) xs ≡ true
same-same_slot a [] h = cc
same-same_slot a (x ∷ xs) h = ground (arith, same-same_slot a xs)

module _ (native : String) (packages : List String) (audit : HostAudit) (current : List AptIdentity)
    (t : AptTransaction) (a : AptIdentity) (d : distinct current ≡ true) where
  -- What is replaced may be touched.
  replaced-allowed :
      first_error (install_error packages audit current) t.installs ≡ none
      → forward_package_allowed a.name packages "apt-get" audit ≡ false
      → is_replaced t a ≡ false
  unfolding install_error
  replaced-allowed h foreign =
      any-first_error (install_error packages audit current)
        (λ i. same_slot a (installed_identity i)) t.installs h
        (λ i fine. allowed_name i (Bool-cases (a.name == i.name)) fine)
    where
      allowed_name :
          (i : AptInstall)
          → ((a.name == i.name) ≡ true) ⊎ ((a.name == i.name) ≡ false)
          → install_error packages audit current i ≡ none
          → same_slot a (installed_identity i) ≡ false
      allowed_name i (inl same) fine = ground (
        arith,
        foreign,
        fine,
        ap (λ n. forward_package_allowed n packages "apt-get" audit)
            ((==_iff a.name i.name).0 same),
      )
      allowed_name i (inr other) fine = ground arith

  -- What is removed is replaced, and may be touched.
  removed-replaced :
      first_error (removal_error native packages audit current t.installs) t.removals ≡ none
      → (is_replaced t a && forward_package_allowed a.name packages "apt-get" audit) ≡ false
      → is_removed native current t a ≡ false
  unfolding removal_error
  removed-replaced h foreign =
      any-first_error (removal_error native packages audit current t.installs)
        (λ r. names r current native a) t.removals h
        (λ r fine. elim (Bool-cases (names r current native a)) [
          | inr other ↦ other
          | inl named ↦
              ground
                (arith, foreign, fine, (resolve_apt_removal-names r current native a d).1 named)
        ])

  module _ (hi : first_error (install_error packages audit current) t.installs ≡ none)
      (hr : first_error (removal_error native packages audit current t.installs) t.removals ≡ none)
      (here : any (same_identity a) current ≡ true) where
    -- What is not replaced stays.
    unreplaced-stays :
        is_replaced t a ≡ false → any (same_identity a) (after native current t) ≡ true
    unreplaced-stays free =
        let kept =
          select-same (λ x. not (is_removed native current t x) && not (is_replaced t x)) a current
            (ground (arith, free, removed-replaced hr (ground arith))) here in
        any-append (same_identity a) (map installed_identity t.installs) _ ∙ ground (arith, kept)

    slot-kept : any (same_slot a) (after native current t) ≡ true
    slot-kept = elim (Bool-cases (is_replaced t a)) [
      | inr free ↦ same-same_slot a (after native current t) (unreplaced-stays free)
      | inl replaced ↦
          any-append (same_slot a) (map installed_identity t.installs) _
          ∙ ground (arith, any-map (same_slot a) installed_identity t.installs, replaced)
    ]

    version-kept :
        (forward_package_allowed a.name packages "apt-get" audit
          || any (same_identity a) (after native current t))
        ≡ true
    version-kept = elim (Bool-cases (forward_package_allowed a.name packages "apt-get" audit)) [
      | inl allowed ↦ ground arith
      | inr foreign ↦ ground (arith, unreplaced-stays (replaced-allowed hi foreign))
    ]

-- An accepted transaction takes no package away: after it every slot of the audited APT packages is
-- still taken, and the packages outside the closure of the targets are there in their versions.
pub forward-keeps :
    (native : String) (packages : List String) (audit : HostAudit) (t : AptTransaction)
    (a : AptIdentity)
    → apt_forward_transaction_error (some t) native packages audit ≡ none
    → any (same_identity a) (current_identities native audit.packages) ≡ true
    → (any (same_slot a) (after native (current_identities native audit.packages) t) ≡ true)
      × ((forward_package_allowed a.name packages "apt-get" audit
            || any (same_identity a) (after native (current_identities native audit.packages) t))
          ≡ true)
unfolding apt_forward_transaction_error
forward-keeps native packages audit t a h here =
    let current = current_identities native audit.packages in
    let d = current_identities-distinct native audit.packages in
    let hi : first_error (install_error packages audit current) t.installs ≡ none = ground arith in
    let hr : first_error (removal_error native packages audit current t.installs) t.removals
        ≡ none =
      ground arith in
    (
      slot-kept native packages audit current t a d hi hr here,
      version-kept native packages audit current t a d hi hr here,
    )
