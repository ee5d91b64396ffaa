-- ===== src/Common/Lists.antt =====
-- Lists measured by native numbers, and the tests that the program makes on them.
use Prim.Native.Nat.{ℕ, suc}
use Prim.Native.String.{String}
use mathlib.Core.Path.{◌≡◌, refl}
use mathlib.Core.Bool.{Bool, true, false, ◌&&◌, ◌||◌}
use mathlib.Core.Option.{Option, none, some}
use mathlib.Core.List.{List, [], ◌∷◌, ◌++◌}
use native.Mathlib.Omega.{arith}
use nvidia_converge.Common.Tests.{◌==◌, if◌then◌else◌}

module _ {ℓ} {A : Type ℓ} where
  abbrev pub length : List A → ℕ
  length [] = 0
  length (x ∷ xs) = suc (length xs)

  -- `not xs`
  abbrev pub is_empty : List A → Bool
  is_empty [] = true
  is_empty (x ∷ xs) = false

  abbrev pub head? : List A → Option A
  head? [] = none
  head? (x ∷ xs) = some x

  abbrev pub last? : List A → Option A
  last? [] = none
  last? (x ∷ []) = some x
  last? (x ∷ y ∷ xs) = last? (y ∷ xs)

  abbrev pub any : (A → Bool) → List A → Bool
  any p [] = false
  any p (x ∷ xs) = p x || any p xs

  abbrev pub all : (A → Bool) → List A → Bool
  all p [] = true
  all p (x ∷ xs) = p x && all p xs

  -- `[x for x in xs if p x]`
  abbrev pub select : (A → Bool) → List A → List A
  select p [] = []
  select p (x ∷ xs) = if p x then x ∷ select p xs else select p xs

module _ {ℓ} {A : Type ℓ} where
  pub all-append : (p : A → Bool) (xs ys : List A) → all p (xs ++ ys) ≡ (all p xs && all p ys)
  all-append p [] ys = refl
  all-append p (x ∷ xs) ys = ground (arith, all-append p xs ys)

  pub any-append : (p : A → Bool) (xs ys : List A) → any p (xs ++ ys) ≡ (any p xs || any p ys)
  any-append p [] ys = refl
  any-append p (x ∷ xs) ys = ground (arith, any-append p xs ys)

module _ {ℓ} {A : Type ℓ} where
  pub last?-append_of_last :
      (xs ys : List A) {y : A} → last? ys ≡ some y → last? (xs ++ ys) ≡ some y
  last?-append_of_last [] ys h = h
  last?-append_of_last (x ∷ []) [] h = cc
  last?-append_of_last (x ∷ []) (z ∷ ys) h = h
  last?-append_of_last (x ∷ x' ∷ xs) ys h = last?-append_of_last (x' ∷ xs) ys h

-- `x in xs`
abbrev pub contains : List String → String → Bool
contains [] a = false
contains (x ∷ xs) a = x == a || contains xs a

-- `list(dict.fromkeys(values))`: the first occurrence of each value, in order.
abbrev pub drop_seen : List String → List String → List String
drop_seen seen [] = []
drop_seen seen (x ∷ xs) = elim (contains seen x) [
  | true ↦ drop_seen seen xs
  | false ↦ x ∷ drop_seen (x ∷ seen) xs
]

abbrev pub IsNodup : List String → Type 0
IsNodup [] = Unit
IsNodup (x ∷ xs) = (contains xs x ≡ false) × IsNodup xs

-- `mapping.get(key)`
abbrev pub get {ℓ} : {A : Type ℓ} → List (String × A) → String → Option A
get [] key = none
get ((k, a) ∷ mapping) key = if k == key then some a else get mapping key
