-- ===== src/Doctor/Checks.antt =====
-- doctor.py: `if test: findings.append(Finding(id, Severity.ERROR, summary, …))`, in a row.
use nvidia_converge.Common.{
  String, ◌≡◌, refl, Bool, true, false, not, Option, none, some, List, [], ◌∷◌, ◌++◌, ◌==◌, all,
  if◌then◌else◌,
}
use nvidia_converge.Models.{Finding, error, is_error}

pub data Check : Type 0 where
  when : Bool → String → String → Check

-- The findings of a row of checks, in order.
unfoldable pub collect : List Check → List Finding
collect [] = []
collect (when test id summary ∷ rest) =
    if test
    then record { id = id; severity = error; summary = summary } ∷ collect rest
    else collect rest

-- Truthiness of an optional text, and `a is not None and b is not None and a != b`.
abbrev pub is_nonempty : Option String → Bool
is_nonempty none = false
is_nonempty (some s) = not (s == "")

abbrev pub both_differ : Option String → Option String → Bool
both_differ (some a) (some b) = not (a == b)
both_differ _ _ = false

-- Every check of a row fails to fire.
abbrev pub AllQuiet : List Check → Type 0
AllQuiet [] = Unit
AllQuiet (when test id summary ∷ rest) = (test ≡ false) × AllQuiet rest

pub collect-nil : (checks : List Check) → AllQuiet checks → collect checks ≡ []
unfolding collect
collect-nil [] h = refl
collect-nil (when test id summary ∷ rest) h = rw h.0 (collect-nil rest h.1)

pub AllQuiet-collect : (checks : List Check) → collect checks ≡ [] → AllQuiet checks
unfolding collect
AllQuiet-collect [] h = tt
AllQuiet-collect (when true id summary ∷ rest) h = cc
AllQuiet-collect (when false id summary ∷ rest) h = (refl, AllQuiet-collect rest h)

pub collect-errors : (checks : List Check) → all (λ f. is_error f.severity) (collect checks) ≡ true
unfolding collect
collect-errors [] = refl
collect-errors (when true id summary ∷ rest) = collect-errors rest
collect-errors (when false id summary ∷ rest) = collect-errors rest

pub append-nil_left {ℓ} : {A : Type ℓ} (xs ys : List A) → xs ++ ys ≡ [] → xs ≡ []
append-nil_left [] ys h = refl
append-nil_left (x ∷ xs) ys h = cc

pub append-nil_right {ℓ} : {A : Type ℓ} (xs ys : List A) → xs ++ ys ≡ [] → ys ≡ []
append-nil_right [] ys h = h
append-nil_right (x ∷ xs) ys h = cc
