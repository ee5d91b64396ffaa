-- ===== src/ModuleSafety.antt =====
-- nvidia_converge/module_safety.py: the order in which the loaded NVIDIA modules can be unloaded.
pub mod Walks
pub mod Fuel
pub mod Order
use nvidia_converge.Common.{
  ℕ, zero, suc, String, Bool, true, false, not, ◌&&◌, ◌||◌, Option, none, some, List, [], ◌∷◌, ◌++◌,
  contains, select, drop_seen, is_empty, length, if◌then◌else◌,
}
use nvidia_converge.Common.Sorting.{sorted}

-- What `/sys/module` shows; `none` stands for an `OSError`.
pub record SysModules : Type 0 where
  pub entries : Option (List String)
  pub is_directory : String → Option Bool
  pub holders : String → Option (List String)

pub data ModuleDependencyError : Type 0 where
  cannot_inspect_modules : ModuleDependencyError
  cannot_inspect_holders : String → ModuleDependencyError
  unsupported_dependents : String → List String → ModuleDependencyError
  dependency_cycle : String → ModuleDependencyError
  disappeared : String → ModuleDependencyError
  not_a_directory : String → ModuleDependencyError

-- A result, an exception, or a recursion deeper than the fuel.
pub data Walked (A : Type 0) : Type 0 where
  done : A → Walked A
  raised : ModuleDependencyError → Walked A
  out_of_fuel : Walked A

infixl 5 ◌and_then◌
abbrev pub ◌and_then◌ : {A B : Type 0} → Walked A → (A → Walked B) → Walked B
done a and_then next = next a
raised e and_then next = raised e
out_of_fuel and_then next = out_of_fuel

-- `_KNOWN_NVIDIA_MODULES`
abbrev pub known_nvidia_modules : List String
known_nvidia_modules =
    "nvidia" ∷ "nvidia_drm" ∷ "nvidia_fs" ∷ "nvidia_modeset" ∷ "nvidia_peermem" ∷ "nvidia_uvm" ∷ []

-- `_require_module_directory`
unfoldable pub require_module_directory : {A : Type 0} → SysModules → String → A → Walked A
require_module_directory sys module_name value = elim (sys.is_directory module_name) [
  | none ↦ raised (disappeared module_name)
  | some true ↦ done value
  | some false ↦ raised (not_a_directory module_name)
]

-- The sets `loaded` and `visited` and the list `ordered` that `visit` changes. The set `visiting`
-- is what it was once a visit returns, and is an argument.
pub record Walk : Type 0 where
  pub loaded : List String
  pub visited : List String
  pub ordered : List String

abbrev pub add_loaded : String → Walk → Walk
add_loaded holder w = record w { loaded = holder ∷ w.loaded }

abbrev pub finish : String → Walk → Walk
finish module_name w = record {
  loaded = w.loaded;
  visited = module_name ∷ w.visited;
  ordered = w.ordered ++ (module_name ∷ []);
}

-- A loop over modules.
unfoldable pub for_each : (String → Walk → Walked Walk) → List String → Walk → Walked Walk
for_each body [] w = done w
for_each body (x ∷ xs) w = body x w and_then for_each body xs

-- The body of the loop over the holders, at the visit of a holder.
unfoldable pub follow : SysModules → (String → Walk → Walked Walk) → String → Walk → Walked Walk
follow sys visit_holder holder w =
    require_module_directory sys holder (add_loaded holder w) and_then visit_holder holder

abbrev pub unknown_modules : List String → List String
unknown_modules names = select (λ name. not (contains known_nvidia_modules name)) names

-- The part of `visit` behind the early return and the test for a cycle.
unfoldable pub visit_holders :
    SysModules → (String → Walk → Walked Walk) → String → Walk → Option (List String) → Walked Walk
visit_holders sys visit_holder module_name w none = raised (cannot_inspect_holders module_name)
visit_holders sys visit_holder module_name w (some entries) =
    elim (is_empty (unknown_modules (sorted entries))) [
      | false ↦ raised (unsupported_dependents module_name (unknown_modules (sorted entries)))
      | true ↦ for_each (follow sys visit_holder) (sorted entries) w and_then λ w'.
          done (finish module_name w')
    ]

-- `visit`
unfoldable pub visit : ℕ → SysModules → List String → String → Walk → Walked Walk
visit zero sys visiting module_name w = out_of_fuel
visit (suc fuel) sys visiting module_name w =
    elim (contains w.visited module_name || not (contains w.loaded module_name)) [
      | true ↦ done w
      | false ↦ elim (contains visiting module_name) [
        | true ↦ raised (dependency_cycle module_name)
        | false ↦
            visit_holders sys (visit fuel sys (module_name ∷ visiting)) module_name w
              (sys.holders module_name)
      ]
    ]

-- `_KNOWN_NVIDIA_MODULES & module_names`
abbrev pub loaded_modules : List String → List String
loaded_modules names = select (contains names) known_nvidia_modules

-- `for module in loaded: _require_module_directory(...)`
unfoldable pub require_all : {A : Type 0} → SysModules → List String → A → Walked A
require_all sys [] value = done value
require_all sys (x ∷ xs) value = require_module_directory sys x value and_then require_all sys xs

-- The visits of `nvidia_module_unload_order`: the base driver, then all modules loaded by then.
unfoldable pub visit_all : ℕ → SysModules → Walk → Walked Walk
visit_all fuel sys w = visit fuel sys [] "nvidia" w and_then λ w'.
    for_each (visit fuel sys []) (sorted (drop_seen [] w'.loaded)) w'

-- Visits nest at most as deep as there are known modules, and one deeper to find a cycle.
abbrev pub visit_fuel : ℕ
visit_fuel = 8

abbrev pub start : List String → Walk
start loaded = record { loaded = loaded; visited = []; ordered = [] }

-- No known module, no order; else the visits.
abbrev pub order_of_loaded : SysModules → List String → Walked (List String)
order_of_loaded sys loaded = elim (is_empty loaded) [
  | true ↦ done []
  | false ↦ visit_all visit_fuel sys (start loaded) and_then λ w. done w.ordered
]

abbrev pub unload_order_of : SysModules → Option (List String) → Walked (List String)
unload_order_of sys none = raised cannot_inspect_modules
unload_order_of sys (some names) =
    require_all sys (loaded_modules names) (loaded_modules names) and_then order_of_loaded sys

-- `nvidia_module_unload_order`. The order in which the loaded modules are tested first is that of a
-- Python set, and decides only which of two errors is raised.
unfoldable pub nvidia_module_unload_order : SysModules → Walked (List String)
nvidia_module_unload_order sys = unload_order_of sys sys.entries
