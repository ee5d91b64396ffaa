-- ===== src/Recovery/Equalities.antt =====
-- recovery.py: the comparisons of commands, bindings and release targets decide equality.
use nvidia_converge.Common.{
  ◌≡◌, refl, sym, String, Bool, true, false, Option, none, some, List, [], ◌∷◌, ◌==◌, ==_iff,
  ==_self, arith, is_empty, Bool-cases, inl, inr,
}
use mathlib.Core.Path.{subst}
use nvidia_converge.Recovery.Fields.{Command, Binding}
use nvidia_converge.Recovery.Stream.{texts_eq, command_eq, is_bound_to, release_fits}
use nvidia_converge.Recovery.Protocol.{
  Releases, install, operation, baseline, install_baseline, operation_baseline,
}

pub texts_eq-≡ : (xs ys : List String) → texts_eq xs ys ≡ true → xs ≡ ys
texts_eq-≡ [] [] h = refl
texts_eq-≡ [] (y ∷ ys) h = cc
texts_eq-≡ (x ∷ xs) [] h = cc
texts_eq-≡ (x ∷ xs) (y ∷ ys) h = ground (arith, ==_iff x y, texts_eq-≡ xs ys)

pub texts_eq_self : (xs : List String) → texts_eq xs xs ≡ true
texts_eq_self [] = refl
texts_eq_self (x ∷ xs) = ground (arith, ==_self x, texts_eq_self xs)

pub command_eq-≡ : (c d : Command) → command_eq c d ≡ true → c ≡ d
command_eq-≡ (c, true) (d, true) h = ground (arith, texts_eq-≡ c d)
command_eq-≡ (c, false) (d, false) h = ground (arith, texts_eq-≡ c d)
command_eq-≡ (c, true) (d, false) h = ground arith
command_eq-≡ (c, false) (d, true) h = ground arith

pub command_eq_self : (c : Command) → command_eq c c ≡ true
command_eq_self (c, true) = ground (arith, texts_eq_self c)
command_eq_self (c, false) = ground (arith, texts_eq_self c)

pub is_bound_to-≡ : (o : Option Binding) (b : Binding) → is_bound_to o b ≡ true → o ≡ some b
is_bound_to-≡ none b h = cc
is_bound_to-≡ (some a) b h = ground (
  arith,
  ==_iff b.path a.path,
  ==_iff b.integrity a.integrity,
  ==_iff b.operation a.operation,
  ==_iff b.host a.host,
)

pub is_bound_to_self : (b : Binding) → is_bound_to (some b) b ≡ true
is_bound_to_self b =
    ground (arith, ==_self b.path, ==_self b.integrity, ==_self b.operation, ==_self b.host)

-- The five orders, up to the texts that they compare.
releases_of :
    {ts ts' : List String} {target target' : String}
    → ts' ≡ ts
    → target' ≡ target
    → Releases ts' target'
    → Releases ts target
releases_of {ts} {ts'} {target} {target'} e e' r =
    subst (λ l. Releases l target) e (subst (Releases ts') e' r)

pub release_fits-Releases :
    (ts : List String) (m : Bool) (target : String)
    → release_fits ts m target ≡ true
    → Releases ts target × (m ≡ true)
unfolding release_fits
release_fits-Releases ts m target h = (
  elim (Bool-cases (target == "install-target")) [
    | inl is_install ↦
        releases_of (ground arith) (ground (arith, ==_iff target "install-target")) install
    | inr no_install ↦ elim (Bool-cases (target == "operation-target")) [
      | inl is_operation ↦
          releases_of (ground arith) (ground (arith, ==_iff target "operation-target")) operation
      | inr no_operation ↦ elim (Bool-cases (is_empty ts)) [
        | inl fresh ↦
            releases_of (ground arith) (ground (arith, ==_iff target "rollback-baseline")) baseline
        | inr used ↦ elim (Bool-cases (texts_eq ts ("install-target" ∷ []))) [
          | inl after_install ↦
              releases_of (sym (texts_eq-≡ ts _ after_install))
                (ground (arith, ==_iff target "rollback-baseline")) install_baseline
          | inr other ↦
              releases_of (sym (texts_eq-≡ ts _ (ground arith)))
                (ground (arith, ==_iff target "rollback-baseline")) operation_baseline
        ]
      ]
    ]
  ],
  ground arith,
)

pub Releases-release_fits :
    (ts : List String) (target : String) → Releases ts target → release_fits ts true target ≡ true
unfolding release_fits ◌==◌
Releases-release_fits ts target install = refl
Releases-release_fits ts target operation = refl
Releases-release_fits ts target baseline = refl
Releases-release_fits ts target install_baseline = refl
Releases-release_fits ts target operation_baseline = refl
