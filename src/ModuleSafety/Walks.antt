-- ===== src/ModuleSafety/Walks.antt =====
-- module_safety.py: what a visit does to the sets of a walk, and to the order built so far.
use nvidia_converge.Common.{
  ◌≡◌, refl, ap, sym, ◌∙◌, String, Bool, true, false, ◌||◌, none, some, List, [], ◌∷◌, ◌++◌, ◌==◌,
  contains, all, arith, ==_iff, ==_self, inl, inr, Bool-cases,
}
use mathlib.Core.Path.{subst}
use nvidia_converge.ModuleSafety.{
  SysModules, Walked, done, raised, out_of_fuel, ◌and_then◌, require_module_directory, Walk, finish,
  add_loaded, for_each, follow,
}

-- All holders of a module are among those seen.
abbrev pub covered : SysModules → List String → String → Bool
covered sys seen x = elim (sys.holders x) [ none ↦ false | some hs ↦ all (contains seen) hs ]

-- Each module of the order is new, and all its holders stand before it.
abbrev pub HoldersFirst : SysModules → List String → List String → Type 0
HoldersFirst sys seen [] = Unit
HoldersFirst sys seen (x ∷ xs) =
    (covered sys seen x ≡ true) × (contains seen x ≡ false) × HoldersFirst sys (x ∷ seen) xs

-- The modules of an order, the last in front.
abbrev pub rev_onto : List String → List String → List String
rev_onto [] seen = seen
rev_onto (x ∷ xs) seen = rev_onto xs (x ∷ seen)

pub rev_onto-snoc :
    (xs seen : List String) (x : String) → rev_onto (xs ++ (x ∷ [])) seen ≡ x ∷ rev_onto xs seen
rev_onto-snoc [] seen x = refl
rev_onto-snoc (y ∷ ys) seen x = rev_onto-snoc ys (y ∷ seen) x

pub HoldersFirst-snoc :
    (sys : SysModules) (xs seen : List String) (x : String)
    → HoldersFirst sys seen xs
    → covered sys (rev_onto xs seen) x ≡ true
    → contains (rev_onto xs seen) x ≡ false
    → HoldersFirst sys seen (xs ++ (x ∷ []))
HoldersFirst-snoc sys [] seen x first here fresh = (here, fresh, tt)
HoldersFirst-snoc sys (y ∷ ys) seen x (now, new, later) here fresh =
    (now, new, HoldersFirst-snoc sys ys (y ∷ seen) x later here fresh)

pub contains-rev_onto :
    (xs seen : List String) (x : String)
    → contains (rev_onto xs seen) x ≡ (contains xs x || contains seen x)
contains-rev_onto [] seen x = refl
contains-rev_onto (y ∷ ys) seen x = ground (arith, contains-rev_onto ys (y ∷ seen) x)

-- The walk is consistent: the visited modules are those of the order.
pub record IsOrdered (sys : SysModules) (w : Walk) : Type 0 where
  pub same : w.visited ≡ rev_onto w.ordered []
  pub first : HoldersFirst sys [] w.ordered

-- From one walk to a later one, while some modules are under visit.
pub record Step (sys : SysModules) (visiting : List String) (w w' : Walk) : Type 0 where
  pub ordered : IsOrdered sys w'
  pub kept : (x : String) → contains w.visited x ≡ true → contains w'.visited x ≡ true
  pub loaded : (x : String) → contains w.loaded x ≡ true → contains w'.loaded x ≡ true
  pub spared :
      (x : String) → contains visiting x ≡ true → contains w'.visited x ≡ contains w.visited x

pub Step-stay :
    (sys : SysModules) (visiting : List String) (w : Walk) → IsOrdered sys w → Step sys visiting w w
Step-stay sys visiting w inv = record {
  ordered = inv;
  kept = λ x h. h;
  loaded = λ x h. h;
  spared = λ x h. refl;
}

pub Step-then :
    (sys : SysModules) (visiting : List String) (w w' w'' : Walk)
    → Step sys visiting w w'
    → Step sys visiting w' w''
    → Step sys visiting w w''
Step-then sys visiting w w' w'' s t = record {
  ordered = t.ordered;
  kept = λ x h. t.kept x (s.kept x h);
  loaded = λ x h. t.loaded x (s.loaded x h);
  spared = λ x h. t.spared x h ∙ s.spared x h;
}

-- A walk that went on went through the first part.
pub split_done :
    {A B : Type 0} (m : Walked A) (next : A → Walked B) {b : B}
    → m and_then next ≡ done b
    → (a : A) × (m ≡ done a) × (next a ≡ done b)
split_done (raised e) next h = cc
split_done out_of_fuel next h = cc
split_done (done a) next h = (a, refl, h)

pub done-injective : {A : Type 0} {a b : A} → done a ≡ done b → a ≡ b
done-injective e = cc

-- A body that makes steps, and visits what it is called at where that is loaded or `free`.
abbrev pub IsVisiting : SysModules → List String → Bool → (String → Walk → Walked Walk) → Type 0
IsVisiting sys visiting free body =
    (x : String) (w w' : Walk)
    → IsOrdered sys w
    → body x w ≡ done w'
    → Step sys visiting w w' × ((free || contains w.loaded x) ≡ true → contains w'.visited x ≡ true)

-- A loop makes a step, and leaves all the modules it runs over visited.
pub for_each-Step :
    (sys : SysModules) (visiting : List String) (free : Bool) (body : String → Walk → Walked Walk)
    → IsVisiting sys visiting free body
    → (xs : List String) (w w' : Walk) → IsOrdered sys w
    → for_each body xs w ≡ done w'
    → Step sys visiting w w'
      × ((x : String)
          → contains xs x ≡ true
          → (free || contains w.loaded x) ≡ true
          → contains w'.visited x ≡ true)
unfolding for_each
for_each-Step sys visiting free body each [] w w' inv h = (
  subst (Step sys visiting w) (done-injective h) (Step-stay sys visiting w inv),
  λ x none_found. cc,
)
for_each-Step sys visiting free body each (y ∷ ys) w w' inv h =
    let (w1, one, more) = split_done (body y w) (for_each body ys) h in
    let (s, here) = each y w w1 inv one in
    let (t, rest) = for_each-Step sys visiting free body each ys w1 w' s.ordered more in
    (
      Step-then sys visiting w w1 w' s t,
      λ x found loaded. elim (Bool-cases (y == x)) [
        | inl same ↦
            let e : y ≡ x = (==_iff y x).0 same in
            t.kept x (ground (arith, here, ap (contains w1.visited) e, ap (contains w.loaded) e))
        | inr other ↦ rest x (ground arith) (ground (arith, s.loaded x))
      ],
    )

pub require-done :
    {A : Type 0} (sys : SysModules) (x : String) {a b : A}
    → require_module_directory sys x a ≡ done b
    → a ≡ b
unfolding require_module_directory
require-done sys x h = ground arith

add_loaded-Step :
    (sys : SysModules) (visiting : List String) (x : String) (w : Walk)
    → IsOrdered sys w
    → Step sys visiting w (add_loaded x w)
add_loaded-Step sys visiting x w inv = record {
  ordered = record { same = inv.same; first = inv.first };
  kept = λ y h. h;
  loaded = λ y h. ground arith;
  spared = λ y h. refl;
}

-- The loop over the holders loads each holder, and so visits it.
pub follow-IsVisiting :
    (sys : SysModules) (visiting : List String) (visit_holder : String → Walk → Walked Walk)
    → IsVisiting sys visiting false visit_holder
    → IsVisiting sys visiting true (follow sys visit_holder)
unfolding follow
follow-IsVisiting sys visiting visit_holder each x w w' inv h =
    let (w0, required, more) =
      split_done (require_module_directory sys x (add_loaded x w)) (visit_holder x) h in
    let e : add_loaded x w ≡ w0 = require-done sys x required in
    let s : Step sys visiting w w0 =
      subst (Step sys visiting w) e (add_loaded-Step sys visiting x w inv) in
    let (t, here) = each x w0 w' s.ordered more in
    (
      Step-then sys visiting w w0 w' s t,
      λ free. here (ground (arith, ap (λ v. contains v.loaded x) e, ==_self x)),
    )

-- A module whose holders have been visited comes last in the order.
pub finish-Step :
    (sys : SysModules) (visiting : List String) (x : String) (w w' : Walk)
    → Step sys (x ∷ visiting) w w'
    → contains w.visited x ≡ false
    → contains visiting x ≡ false
    → covered sys w'.visited x ≡ true
    → Step sys visiting w (finish x w')
finish-Step sys visiting x w w' s fresh outside cover = record {
  ordered = record {
    same = ap (λ (v : List String). x ∷ v) s.ordered.same ∙ sym (rev_onto-snoc w'.ordered [] x);
    first =
        HoldersFirst-snoc sys w'.ordered [] x s.ordered.first
          (sym (ap (λ v. covered sys v x) s.ordered.same) ∙ cover)
          (sym (ap (λ v. contains v x) s.ordered.same)
            ∙ s.spared x (ground (arith, ==_self x))
            ∙ fresh);
  };
  kept = λ y h. ground (arith, s.kept y);
  loaded = s.loaded;
  spared = λ y h. elim (Bool-cases (x == y)) [
    | inl same ↦ cc (ap (contains visiting) ((==_iff x y).0 same), outside, h)
    | inr other ↦ ground (arith, s.spared y)
  ];
}
