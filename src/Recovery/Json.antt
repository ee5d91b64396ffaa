-- ===== src/Recovery/Json.antt =====
-- The values of Python's JSON reader, and the type tests of recovery.py on them.
use nvidia_converge.Common.{
  String, Bool, true, false, Option, none, some, List, [], ◌∷◌, ◌==◌, zero,
}
use nvidia_converge.Models.{ℤ, pos}

-- Numbers that are no integers keep their text.
mutual
  pub data Json : Type 0 where
    null : Json
    boolean : Bool → Json
    integer : ℤ → Json
    decimal : String → Json
    text : String → Json
    array : Items → Json
    object : Members → Json

  pub data Items : Type 0 where
    nil : Items
    cons : Json → Items → Items

  pub data Members : Type 0 where
    end : Members
    member : String → Json → Members → Members

-- An event is an object. `_object_without_duplicates` has refused a repeated key.
abbrev pub Event : Type 0
Event = List (String × Json)

abbrev pub as_text : Json → Option String
as_text (text s) = some s
as_text _ = none

abbrev pub as_boolean : Json → Option Bool
as_boolean (boolean b) = some b
as_boolean _ = none

-- `isinstance(x, int) and not isinstance(x, bool)`
abbrev pub as_integer : Json → Option ℤ
as_integer (integer n) = some n
as_integer _ = none

-- A list and an object cannot be members of a set: Python raises a TypeError for the test.
abbrev pub is_unhashable : Json → Bool
is_unhashable (array xs) = true
is_unhashable (object fs) = true
is_unhashable _ = false

-- `all(isinstance(item, str) and item for item in items)`, and the texts.
abbrev pub nonempty_texts : Items → Option (List String)
nonempty_texts nil = some []
nonempty_texts (cons item items) = elim (as_text item) [
  | none ↦ none
  | some s ↦ elim (s == "") [
    | true ↦ none
    | false ↦ elim (nonempty_texts items) [ none ↦ none | some rest ↦ some (s ∷ rest) ]
  ]
]

-- The texts of a list that is not empty.
abbrev pub command_texts : Json → Option (List String)
command_texts (array (cons item items)) = nonempty_texts (cons item items)
command_texts _ = none

abbrev pub is_zero : ℤ → Bool
is_zero (pos zero) = true
is_zero _ = false
