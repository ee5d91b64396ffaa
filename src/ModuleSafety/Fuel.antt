-- ===== src/ModuleSafety/Fuel.antt =====
-- module_safety.py: the recursion of `visit` ends.
use nvidia_converge.Common.{
  ℕ, zero, suc, ◌<◌, ◌≤◌, ◌≡◌, refl, String, Bool, true, false, not, ◌||◌, Option, none, some, List,
  [], ◌∷◌, ◌==◌, contains, select, length, is_empty, arith, inl, inr, Bool-cases, ==_iff, ==_self,
  drop_seen, ap, sym,
}
use nvidia_converge.Common.Sorting.{sorted}
use nvidia_converge.ModuleSafety.{
  SysModules, Walked, done, raised, out_of_fuel, ◌and_then◌, known_nvidia_modules,
  require_module_directory, Walk, finish, add_loaded, for_each, follow, unknown_modules,
  visit_holders, visit, require_all, visit_all, visit_fuel, nvidia_module_unload_order,
  loaded_modules, unload_order_of, order_of_loaded, start,
}

abbrev pub ended : {A : Type 0} → Walked A → Bool
ended out_of_fuel = false
ended _ = true

-- How many of the known modules are not being visited.
abbrev missing : List String → List String → ℕ
missing visiting known = length (select (λ name. not (contains visiting name)) known)

missing-le :
    (visiting known : List String) (x : String)
    → missing (x ∷ visiting) known ≤ missing visiting known
missing-le visiting [] x = omega arith
missing-le visiting (k ∷ known) x = ground (arith, missing-le visiting known x)

missing-lt :
    (visiting known : List String) (x : String)
    → contains known x ≡ true
    → contains visiting x ≡ false
    → missing (x ∷ visiting) known < missing visiting known
missing-lt visiting [] x found fresh = cc
missing-lt visiting (k ∷ known) x found fresh = elim (Bool-cases (k == x)) [
  | inl same ↦
      let e : k ≡ x = (==_iff k x).0 same in
      ground (arith, (==_iff x k).1 (sym e), ap (contains visiting) e, missing-le visiting known x)
  | inr other ↦
      ground (arith, missing-lt visiting known x (ground arith) fresh, missing-le visiting known x)
]

and_then-ended :
    {A B : Type 0} (m : Walked A) (next : A → Walked B)
    → ended m ≡ true
    → ((a : A) → ended (next a) ≡ true)
    → ended (m and_then next) ≡ true
and_then-ended (done a) next first later = later a
and_then-ended (raised e) next first later = refl
and_then-ended out_of_fuel next first later = cc

branch-ended :
    {A : Type 0} (x y : Walked A) (b : Bool)
    → (b ≡ true → ended x ≡ true)
    → (b ≡ false → ended y ≡ true)
    → ended (elim b [ true ↦ x | false ↦ y ]) ≡ true
branch-ended x y true hx hy = hx refl
branch-ended x y false hx hy = hy refl

for_each-ended :
    (body : String → Walk → Walked Walk) (xs : List String) (w : Walk)
    → ((x : String) (w' : Walk) → contains xs x ≡ true → ended (body x w') ≡ true)
    → ended (for_each body xs w) ≡ true
unfolding for_each
for_each-ended body [] w each = refl
for_each-ended body (x ∷ xs) w each =
    and_then-ended (body x w) (for_each body xs) (each x w (ground (arith, ==_self x)))
      (λ w'. for_each-ended body xs w' (λ y w'' found. each y w'' (ground arith)))

require-ended :
    {A : Type 0} (sys : SysModules) (x : String) (a : A)
    → ended (require_module_directory sys x a) ≡ true
unfolding require_module_directory
require-ended sys x a = ground arith

follow-ended :
    (sys : SysModules) (visit_holder : String → Walk → Walked Walk) (x : String) (w : Walk)
    → ((w' : Walk) → ended (visit_holder x w') ≡ true)
    → ended (follow sys visit_holder x w) ≡ true
unfolding follow
follow-ended sys visit_holder x w each =
    and_then-ended (require_module_directory sys x (add_loaded x w)) (visit_holder x)
      (require-ended sys x (add_loaded x w)) each

-- No name outside the known ones: each name is known.
known_of_empty :
    (known names : List String) (x : String)
    → is_empty (select (λ name. not (contains known name)) names) ≡ true
    → contains names x ≡ true
    → contains known x ≡ true
known_of_empty known [] x h found = cc
known_of_empty known (n ∷ names) x h found = elim (Bool-cases (n == x)) [
  | inl same ↦ ground (arith, ap (contains known) ((==_iff n x).0 same))
  | inr other ↦ ground (arith, known_of_empty known names x)
]

holders-ended :
    (sys : SysModules) (visit_holder : String → Walk → Walked Walk) (x : String) (w : Walk)
    (entries : Option (List String))
    → ((h : String) (w' : Walk)
        → contains known_nvidia_modules h ≡ true
        → ended (visit_holder h w') ≡ true)
    → ended (visit_holders sys visit_holder x w entries) ≡ true
unfolding visit_holders
holders-ended sys visit_holder x w none each = refl
holders-ended sys visit_holder x w (some entries) each =
    branch-ended _ _ (is_empty (unknown_modules (sorted entries)))
      (λ none_found.
        and_then-ended (for_each (follow sys visit_holder) (sorted entries) w)
          (λ w'. done (finish x w'))
          (for_each-ended (follow sys visit_holder) (sorted entries) w (λ h w' found.
            follow-ended sys visit_holder h w' (λ w''.
              each h w''
                (known_of_empty known_nvidia_modules (sorted entries) h none_found found))))
          (λ w'. refl))
      (λ found. refl)

-- The modules under visit take the fuel that is not left.
visit-ended :
    (fuel : ℕ) (sys : SysModules) (visiting : List String) (x : String) (w : Walk)
    → contains known_nvidia_modules x ≡ true
    → missing visiting known_nvidia_modules < fuel
    → ended (visit fuel sys visiting x w) ≡ true
unfolding visit
visit-ended zero sys visiting x w listed h = absurd (omega arith)
visit-ended (suc fuel) sys visiting x w listed h =
    branch-ended _ _ (contains w.visited x || not (contains w.loaded x)) (λ e. refl)
      (λ fresh.
        branch-ended _ _ (contains visiting x) (λ e. refl)
          (λ outside.
            holders-ended sys (visit fuel sys (x ∷ visiting)) x w (sys.holders x)
              (λ holder w' known.
                visit-ended fuel sys (x ∷ visiting) holder w' known
                  (ground (arith, missing-lt visiting known_nvidia_modules x listed outside)))))

-- A first visit may be of any module.
first-ended :
    (sys : SysModules) (x : String) (w : Walk) → ended (visit visit_fuel sys [] x w) ≡ true
unfolding visit ◌==◌
first-ended sys x w =
    branch-ended _ _ (contains w.visited x || not (contains w.loaded x)) (λ e. refl)
      (λ fresh. holders-ended sys (visit 7 sys (x ∷ [])) x w (sys.holders x) (λ holder w' known.
        visit-ended 7 sys (x ∷ []) holder w' known
          (ground (arith, missing-le [] known_nvidia_modules x))))

all-ended :
    {A : Type 0} (sys : SysModules) (xs : List String) (a : A) → ended (require_all sys xs a) ≡ true
unfolding require_all
all-ended sys [] a = refl
all-ended sys (x ∷ xs) a =
    and_then-ended (require_module_directory sys x a) (require_all sys xs) (require-ended sys x a)
      (all-ended sys xs)

visits-ended : (sys : SysModules) (w : Walk) → ended (visit_all visit_fuel sys w) ≡ true
unfolding visit_all
visits-ended sys w =
    and_then-ended (visit visit_fuel sys [] "nvidia" w)
      (λ w'. for_each (visit visit_fuel sys []) (sorted (drop_seen [] w'.loaded)) w')
      (first-ended sys "nvidia" w)
      (λ w'.
        for_each-ended (visit visit_fuel sys []) (sorted (drop_seen [] w'.loaded)) w'
          (λ x w'' found. first-ended sys x w''))

-- Whatever the holder graph, cycles included, the computation of the unload order ends within the
-- fuel: it returns an order or raises an error.
pub unload_order-ended : (sys : SysModules) → ended (nvidia_module_unload_order sys) ≡ true
unfolding nvidia_module_unload_order
unload_order-ended sys = entries-ended sys.entries
  where
    entries-ended : (entries : Option (List String)) → ended (unload_order_of sys entries) ≡ true
    entries-ended none = refl
    entries-ended (some names) =
        and_then-ended (require_all sys (loaded_modules names) (loaded_modules names))
          (order_of_loaded sys) (all-ended sys (loaded_modules names) (loaded_modules names))
          (λ loaded.
            branch-ended _ _ (is_empty loaded) (λ e. refl)
              (λ e.
                and_then-ended (visit_all visit_fuel sys (start loaded)) (λ w. done w.ordered)
                  (visits-ended sys (start loaded)) (λ w. refl)))
