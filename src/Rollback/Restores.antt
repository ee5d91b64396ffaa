-- ===== src/Rollback/Restores.antt =====
-- rollback.py: the delta of a rollback covers every package that is not of the baseline.
use nvidia_converge.Common.{
  ◌≡◌, refl, sym, ◌∙◌, ◌⊎◌, inl, inr, Bool, true, false, not, ◌&&◌, ◌||◌, List, [], ◌∷◌, any, all,
  select, opt_eq_iff, ==_iff, ==_self, arith, Bool-cases,
}
use nvidia_converge.Models.{PackageInfo}
use nvidia_converge.Rollback.Specs.{is_text, same_state, same_slot}
use nvidia_converge.Rollback.Delta.{
  installed_of, has_state, has_slot, current_baseline, is_missing, is_added, restore_packages,
  added_packages,
}

module _ {ℓ} {A : Type ℓ} where
  any-select : (f g : A → Bool) (xs : List A) → any f (select g xs) ≡ any (λ x. g x && f x) xs
  any-select f g [] = refl
  any-select f g (x ∷ xs) = ground (arith, any-select f g xs)

  -- A member of a list, by the tests: what holds for it holds for some, what holds for all for it.
  record Member (xs : List A) (x : A) : Type ℓ where
    pub some_of : (g : A → Bool) → g x ≡ true → any g xs ≡ true
    pub each_of : (g : A → Bool) → all g xs ≡ true → g x ≡ true

  any-Member : (f : A → Bool) (xs : List A) → any f xs ≡ true → (x : A) × (f x ≡ true) × Member xs x
  any-Member f [] h = cc
  any-Member f (x ∷ xs) h = elim (Bool-cases (f x)) [
    | inl here ↦ (x, here, record { some_of = λ g e. ground arith; each_of = λ g e. ground arith })
    | inr later ↦
        let (y, found, m) = any-Member f xs (ground arith) in
        (
          y,
          found,
          record {
            some_of = λ g e. ground (arith, m.some_of g e);
            each_of = λ g e. m.each_of g (ground arith);
          },
        )
  ]

-- Packages of one state have the same four fields.
record IsSame (p q : PackageInfo) : Type 0 where
  pub name : p.name ≡ q.name
  pub architecture : p.architecture ≡ q.architecture
  pub epoch : p.epoch ≡ q.epoch
  pub version : p.version ≡ q.version

same_state-IsSame : (p q : PackageInfo) → same_state p q ≡ true → IsSame p q
same_state-IsSame p q h = record {
  name = ground (arith, ==_iff p.name q.name);
  architecture = ground (arith, opt_eq_iff p.architecture q.architecture);
  epoch = ground (arith, opt_eq_iff p.epoch q.epoch);
  version = ground (arith, opt_eq_iff p.version q.version);
}

has_state-IsSame :
    (xs : List PackageInfo) (p q : PackageInfo) → IsSame p q → has_state xs p ≡ has_state xs q
has_state-IsSame [] p q e = refl
has_state-IsSame (x ∷ xs) p q e = ground (arith, has_state-IsSame xs p q e, e)

has_slot-IsSame :
    (xs : List PackageInfo) (p q : PackageInfo) → IsSame p q → has_slot xs p ≡ has_slot xs q
has_slot-IsSame [] p q e = refl
has_slot-IsSame (x ∷ xs) p q e = ground (arith, has_slot-IsSame xs p q e, e)

same_state_self : (p : PackageInfo) → same_state p p ≡ true
same_state_self p = ground (
  arith,
  ==_self p.name,
  opt_eq_iff p.architecture p.architecture,
  opt_eq_iff p.epoch p.epoch,
  opt_eq_iff p.version p.version,
)

same_slot-IsSame : (p q r : PackageInfo) → IsSame q r → same_slot p q ≡ same_slot p r
same_slot-IsSame p q r e = ground (arith, e)

module _ (baseline current : List PackageInfo) where
  -- A slot of the baseline that has lost its state gets it back.
  slot-restored :
      (p : PackageInfo)
      → all (λ b. not b.installed || is_text b.version) baseline ≡ true
      → has_slot (installed_of baseline) p ≡ true
      → has_slot (current_baseline baseline current) p ≡ false
      → has_slot (restore_packages baseline current) p ≡ true
  unfolding restore_packages
  slot-restored p versions old lost =
      let (b, fits, in_b) =
        any-Member (λ x. x.installed && same_slot p x) baseline
          (sym (any-select (same_slot p) (λ x. x.installed) baseline) ∙ old) in
      let gone : has_state (installed_of current) b ≡ false =
        is_gone b fits in_b (has_state (installed_of current) b) refl in
      any-select (same_slot p) (is_missing current) baseline
      ∙ in_b.some_of (λ x. is_missing current x && same_slot p x)
          (ground (arith, gone, in_b.each_of (λ x. not x.installed || is_text x.version) versions))
    where
      is_gone :
          (b : PackageInfo)
          → (b.installed && same_slot p b) ≡ true
          → Member baseline b
          → (here : Bool) → has_state (installed_of current) b ≡ here
          → has_state (installed_of current) b ≡ false
      is_gone b fits in_b false e = e
      is_gone b fits in_b true e =
          let (c, same, in_c) =
            any-Member (λ x. x.installed && same_state b x) current
              (sym (any-select (same_state b) (λ x. x.installed) current) ∙ e) in
          let is_same = same_state-IsSame b c (ground arith) in
          let kept : has_state (installed_of baseline) b ≡ true =
            any-select (same_state b) (λ x. x.installed) baseline
            ∙ in_b.some_of (λ x. x.installed && same_state b x)
                (ground (arith, same_state_self b)) in
          let found : has_slot (current_baseline baseline current) p ≡ true =
            any-select (same_slot p) (λ x. x.installed && has_state (installed_of baseline) x)
              current
            ∙ in_c.some_of
                (λ x. (x.installed && has_state (installed_of baseline) x) && same_slot p x)
                (ground (
                  arith,
                  kept,
                  has_state-IsSame (installed_of baseline) b c is_same,
                  same_slot-IsSame p b c is_same,
                )) in
          ground (arith, found)

  -- Every installed package whose state is not of the baseline is removed, or the rollback restores
  -- a package of the baseline in its place, when the snapshot has the versions of what it has
  -- installed.
  pub delta-covers :
      (p : PackageInfo)
      → all (λ b. not b.installed || is_text b.version) baseline ≡ true
      → has_state (installed_of current) p ≡ true
      → has_state (installed_of baseline) p ≡ false
      → (has_state (added_packages baseline current) p ≡ true)
        ⊎ (has_slot (restore_packages baseline current) p ≡ true)
  unfolding added_packages
  delta-covers p versions here foreign =
      elim (Bool-cases (
        not (has_slot (installed_of baseline) p)
        || has_slot (current_baseline baseline current) p)) [
          | inl removable ↦ inl (is_added_of removable)
          | inr replaced ↦ inr (slot-restored p versions (ground arith) (ground arith))
        ]
    where
      is_added_of :
          (not (has_slot (installed_of baseline) p)
              || has_slot (current_baseline baseline current) p)
            ≡ true
          → has_state (added_packages baseline current) p ≡ true
      is_added_of removable =
          let (q, same, in_q) =
            any-Member (λ x. x.installed && same_state p x) current
              (sym (any-select (same_state p) (λ x. x.installed) current) ∙ here) in
          let is_same = same_state-IsSame p q (ground arith) in
          any-select (same_state p) (is_added baseline current) current
          ∙ in_q.some_of (λ x. is_added baseline current x && same_state p x)
              (ground (
                arith,
                has_state-IsSame (installed_of baseline) p q is_same,
                has_slot-IsSame (installed_of baseline) p q is_same,
                has_slot-IsSame (current_baseline baseline current) p q is_same,
              ))
