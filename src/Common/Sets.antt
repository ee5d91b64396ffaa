-- ===== src/Common/Sets.antt =====
-- Lists of texts as sets: membership through `contains`, repetitions and sorting.
use Prim.Native.String.{String}
use mathlib.Core.Path.{◌≡◌, refl, ap, ◌∙◌}
use mathlib.Core.Logic.{inl, inr}
use mathlib.Core.Bool.{Bool, true, false, not, ◌&&◌, ◌||◌}
use mathlib.Core.List.{List, [], ◌∷◌}
use native.Mathlib.Omega.{arith}
use nvidia_converge.Common.Tests.{◌==◌, ==_iff, ==_self, Bool-cases}
use nvidia_converge.Common.Lists.{contains, drop_seen, IsNodup, all}
use nvidia_converge.Common.Sorting.{insert_sorted, sorted}

-- `contains` respects equality of texts.
pub contains-same :
    (xs : List String) (x y : String) → (x == y) ≡ true → contains xs x ≡ contains xs y
contains-same xs x y h = rw ((==_iff x y).0 h)

-- What is kept are the values that were not seen.
pub contains-drop_seen :
    (xs seen : List String) (y : String)
    → contains (drop_seen seen xs) y ≡ (contains xs y && not (contains seen y))
contains-drop_seen [] seen y = refl
contains-drop_seen (x ∷ xs) seen y = kept (contains seen x) refl (λ zs. contains-drop_seen xs zs y)
  where
    kept :
        (b : Bool)
        → contains seen x ≡ b
        → ((zs : List String)
            → contains (drop_seen zs xs) y ≡ (contains xs y && not (contains zs y)))
        → contains (elim b [ true ↦ drop_seen seen xs | false ↦ x ∷ drop_seen (x ∷ seen) xs ]) y
          ≡ ((x == y || contains xs y) && not (contains seen y))
    kept true old later = ground (arith, later seen, contains-same seen x y)
    kept false new later = ground (arith, later (x ∷ seen), contains-same seen x y)

pub drop_seen-IsNodup : (xs seen : List String) → IsNodup (drop_seen seen xs)
drop_seen-IsNodup [] seen = tt
drop_seen-IsNodup (x ∷ xs) seen = kept (contains seen x) (drop_seen-IsNodup xs)
  where
    kept :
        (b : Bool)
        → ((zs : List String) → IsNodup (drop_seen zs xs))
        → IsNodup (elim b [ true ↦ drop_seen seen xs | false ↦ x ∷ drop_seen (x ∷ seen) xs ])
    kept true later = later seen
    kept false later =
        (ground (arith, contains-drop_seen xs (x ∷ seen) x, ==_self x), later (x ∷ seen))

-- What holds of every member holds of each.
pub all-contains :
    (p : String → Bool) (xs : List String) (x : String)
    → all p xs ≡ true
    → contains xs x ≡ true
    → p x ≡ true
all-contains p [] x every found = cc
all-contains p (y ∷ ys) x every found = elim (Bool-cases (y == x)) [
  | inl same ↦ ground (arith, ap p ((==_iff y x).0 same))
  | inr other ↦ all-contains p ys x (ground arith) (ground arith)
]

contains-insert_sorted :
    (x : String) (xs : List String) (y : String)
    → contains (insert_sorted x xs) y ≡ (x == y || contains xs y)
unfolding insert_sorted
contains-insert_sorted x [] y = refl
contains-insert_sorted x (z ∷ zs) y = ground (arith, contains-insert_sorted x zs y)

-- Sorting keeps the members.
pub contains-sorted : (xs : List String) (y : String) → contains (sorted xs) y ≡ contains xs y
unfolding sorted
contains-sorted [] y = refl
contains-sorted (x ∷ xs) y =
    contains-insert_sorted x (sorted xs) y ∙ ap (λ b. x == y || b) (contains-sorted xs y)

-- What holds of each member holds of all.
pub contains-all :
    (p : String → Bool) (xs : List String)
    → ((x : String) → contains xs x ≡ true → p x ≡ true)
    → all p xs ≡ true
contains-all p [] each = refl
contains-all p (x ∷ xs) each =
    let rest : all p xs ≡ true = contains-all p xs (λ y found. each y (ground arith)) in
    ground (arith, each x (ground (arith, ==_self x)))
