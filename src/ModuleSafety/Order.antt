-- ===== src/ModuleSafety/Order.antt =====
-- module_safety.py: the unload order has every holder before what it holds.
use nvidia_converge.Common.{
  ℕ, zero, suc, ◌≡◌, refl, ap, ◌∙◌, ◌⊎◌, inl, inr, String, Bool, true, false, not, ◌||◌, Option,
  none, some, List, [], ◌∷◌, contains, all, arith, ==_self, is_empty, drop_seen,
}
use mathlib.Core.Path.{subst}
use nvidia_converge.Common.Sorting.{sorted}
use nvidia_converge.Common.Sets.{contains-sorted, contains-all, contains-drop_seen}
use nvidia_converge.ModuleSafety.{
  SysModules, Walked, done, Walk, finish, for_each, follow, unknown_modules, visit_holders, visit,
  loaded_modules, require_module_directory, require_all, visit_all, visit_fuel, start,
  order_of_loaded, unload_order_of, nvidia_module_unload_order,
}
use nvidia_converge.ModuleSafety.Walks.{
  covered, HoldersFirst, contains-rev_onto, IsOrdered, Step, Step-stay, split_done, done-injective,
  IsVisiting, for_each-Step, require-done, follow-IsVisiting, finish-Step,
}

-- The branch that gave a result.
branch_of :
    {A : Type 0} (x y : Walked A) (b : Bool) {r : Walked A}
    → elim b [ true ↦ x | false ↦ y ] ≡ r
    → ((b ≡ true) × (x ≡ r)) ⊎ ((b ≡ false) × (y ≡ r))
branch_of x y true h = inl (refl, h)
branch_of x y false h = inr (refl, h)

-- A finished visit of the holders: they were read, looped over, and the module appended.
pub record Held (sys : SysModules) (visit_holder : String → Walk → Walked Walk) (x : String)
    (w w' : Walk) (entries : Option (List String)) : Type 0 where
  pub holders : List String
  pub reached : Walk
  pub read : entries ≡ some holders
  pub looped : for_each (follow sys visit_holder) (sorted holders) w ≡ done reached
  pub finished : finish x reached ≡ w'

visit_holders-Held :
    (sys : SysModules) (visit_holder : String → Walk → Walked Walk) (x : String) (w w' : Walk)
    (entries : Option (List String))
    → visit_holders sys visit_holder x w entries ≡ done w'
    → Held sys visit_holder x w w' entries
unfolding visit_holders
visit_holders-Held sys visit_holder x w w' none h = cc
visit_holders-Held sys visit_holder x w w' (some hs) h =
    elim (branch_of _ _ (is_empty (unknown_modules (sorted hs))) h) [
      | inr (found, e) ↦ cc
      | inl (known, e) ↦
          let (w1, looped, ends) =
            split_done (for_each (follow sys visit_holder) (sorted hs) w) (λ v. done (finish x v))
              e in
          record {
            holders = hs;
            reached = w1;
            read = refl;
            looped = looped;
            finished = done-injective ends;
          }
    ]

covered_of :
    (sys : SysModules) (seen : List String) (x : String) (hs : List String)
    → sys.holders x ≡ some hs
    → all (contains seen) hs ≡ true
    → covered sys seen x ≡ true
covered_of sys seen x hs e h = ground arith

-- Every visit is a step, and visits its module where that is loaded.
visit-IsVisiting :
    (fuel : ℕ) (sys : SysModules) (visiting : List String)
    → IsVisiting sys visiting false (visit fuel sys visiting)
unfolding visit
visit-IsVisiting zero sys visiting x w w' inv h = cc
visit-IsVisiting (suc fuel) sys visiting x w w' inv h =
    elim (branch_of _ _ (contains w.visited x || not (contains w.loaded x)) h) [
      | inl (old, e) ↦
          let same : w ≡ w' = done-injective e in
          (
            subst (Step sys visiting w) same (Step-stay sys visiting w inv),
            λ loaded. ground (arith, ap (λ v. contains v.visited x) same),
          )
      | inr (new, e) ↦ elim (branch_of _ _ (contains visiting x) e) [
        | inl (cycle, e') ↦ cc
        | inr (outside, e') ↦
            let held =
              visit_holders-Held sys (visit fuel sys (x ∷ visiting)) x w w' (sys.holders x) e' in
            let (s, visited) =
              for_each-Step sys (x ∷ visiting) true (follow sys (visit fuel sys (x ∷ visiting)))
                (follow-IsVisiting sys (x ∷ visiting) (visit fuel sys (x ∷ visiting))
                  (visit-IsVisiting fuel sys (x ∷ visiting)))
                (sorted held.holders) w held.reached inv held.looped in
            (
              subst (Step sys visiting w) held.finished (
                  finish-Step sys visiting x w held.reached s (ground arith) outside (
                    covered_of sys held.reached.visited x held.holders held.read (
                      contains-all (contains held.reached.visited) held.holders
                        (λ y found. visited y (contains-sorted held.holders y ∙ found) refl)))),
              λ loaded. ground (arith, ap (λ v. contains v.visited x) held.finished, ==_self x),
            )
      ]
    ]

-- The visits from the start: all that was loaded has been visited at the end.
visit_all-Step :
    (sys : SysModules) (w w' : Walk)
    → IsOrdered sys w
    → visit_all visit_fuel sys w ≡ done w'
    → IsOrdered sys w' × ((x : String) → contains w.loaded x ≡ true → contains w'.visited x ≡ true)
unfolding visit_all
visit_all-Step sys w w' inv h =
    let (w1, one, more) =
      split_done (visit visit_fuel sys [] "nvidia" w)
        (λ v. for_each (visit visit_fuel sys []) (sorted (drop_seen [] v.loaded)) v) h in
    let (s, here) = visit-IsVisiting visit_fuel sys [] "nvidia" w w1 inv one in
    let (t, rest) =
      for_each-Step sys [] false (visit visit_fuel sys []) (visit-IsVisiting visit_fuel sys [])
        (sorted (drop_seen [] w1.loaded)) w1 w' s.ordered more in
    (
      t.ordered,
      λ x loaded.
          rest x
            (contains-sorted (drop_seen [] w1.loaded) x
              ∙ contains-drop_seen w1.loaded [] x
              ∙ ground (arith, s.loaded x))
            (s.loaded x loaded),
    )

-- An order for the modules of a host: holders first, and every loaded NVIDIA module is in it.
pub record IsSafeOrder (sys : SysModules) (order : List String) : Type 0 where
  pub names : List String
  pub listed : sys.entries ≡ some names
  pub holders_first : HoldersFirst sys [] order
  pub complete : (x : String) → contains (loaded_modules names) x ≡ true → contains order x ≡ true

require_all-done :
    {A : Type 0} (sys : SysModules) (xs : List String) (a : A) {b : A}
    → require_all sys xs a ≡ done b
    → a ≡ b
unfolding require_all
require_all-done sys [] a h = done-injective h
require_all-done sys (x ∷ xs) a h =
    let (a1, one, more) = split_done (require_module_directory sys x a) (require_all sys xs) h in
    require-done sys x one ∙ require_all-done sys xs a1 more

empty-contains : (xs : List String) (x : String) → is_empty xs ≡ true → contains xs x ≡ false
empty-contains [] x h = refl
empty-contains (y ∷ ys) x h = cc

order_of_loaded-IsSafeOrder :
    (sys : SysModules) (names order : List String)
    → sys.entries ≡ some names
    → order_of_loaded sys (loaded_modules names) ≡ done order
    → IsSafeOrder sys order
order_of_loaded-IsSafeOrder sys names order listed h =
    elim (branch_of _ _ (is_empty (loaded_modules names)) h) [
      | inl (nothing, e) ↦ record {
        names = names;
        listed = listed;
        holders_first = subst (HoldersFirst sys []) (done-injective e) tt;
        complete = λ x found. cc (empty-contains (loaded_modules names) x nothing, found);
      }
      | inr (some_loaded, e) ↦
          let (w, walked, ends) =
            split_done (visit_all visit_fuel sys (start (loaded_modules names)))
              (λ v. done v.ordered) e in
          let (inv, visited) =
            visit_all-Step sys (start (loaded_modules names)) w (record { same = refl; first = tt })
              walked in
          let same : w.ordered ≡ order = done-injective ends in
          record {
            names = names;
            listed = listed;
            holders_first = subst (HoldersFirst sys []) same inv.first;
            complete = λ x found. ground (
              arith,
              visited x found,
              ap (λ v. contains v x) inv.same,
              contains-rev_onto w.ordered [] x,
              ap (λ v. contains v x) same,
            );
          }
    ]

unload_order_of-IsSafeOrder :
    (sys : SysModules) (entries : Option (List String)) (order : List String)
    → sys.entries ≡ entries
    → unload_order_of sys entries ≡ done order
    → IsSafeOrder sys order
unload_order_of-IsSafeOrder sys none order listed h = cc
unload_order_of-IsSafeOrder sys (some names) order listed h =
    let (loaded, required, more) =
      split_done (require_all sys (loaded_modules names) (loaded_modules names))
        (order_of_loaded sys) h in
    let same : loaded_modules names ≡ loaded =
      require_all-done sys (loaded_modules names) (loaded_modules names) required in
    order_of_loaded-IsSafeOrder sys names order listed (ap (order_of_loaded sys) same ∙ more)

-- Whenever an order is returned, no module stands in it twice, all holders of a module stand before
-- it, and every NVIDIA module that was loaded at the start is in it.
pub unload_order-IsSafeOrder :
    (sys : SysModules) (order : List String)
    → nvidia_module_unload_order sys ≡ done order
    → IsSafeOrder sys order
unfolding nvidia_module_unload_order
unload_order-IsSafeOrder sys order h = unload_order_of-IsSafeOrder sys sys.entries order refl h
