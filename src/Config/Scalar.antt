-- ===== src/Config/Scalar.antt =====
-- nvidia_converge/desired.py: `_coerce_scalar`, the value of a scalar of the YAML subset.
use Prim.Native.Char.{Char, code}
use nvidia_converge.Common.{
  ◌≡◌, ==_iff, String, Bool, true, false, not, ◌||◌, Option, none, some, ◌==◌, nat_eq, arith,
  Result, ok, value_error, if◌then◌else◌,
}
use nvidia_converge.Common.Text.{has_char, lower}

-- A text or a Boolean.
pub data Scalar : Type 0 where
  text_value : String → Scalar
  bool_value : Bool → Scalar

abbrev pub is_quote : Char → Bool
is_quote c = nat_eq (code c) 39 || nat_eq (code c) 34

abbrev pub first_char : String → Option Char
first_char String.[] = none
first_char (String.◌∷◌ c s) = some c

abbrev pub last_from : Char → String → Char
last_from c String.[] = c
last_from c (String.◌∷◌ d s) = last_from d s

abbrev pub last_char : String → Option Char
last_char String.[] = none
last_char (String.◌∷◌ c s) = some (last_from c s)

abbrev pub drop_last_from : Char → String → String
drop_last_from c String.[] = String.[]
drop_last_from c (String.◌∷◌ d s) = String.◌∷◌ c (drop_last_from d s)

-- `value[1:-1]`
abbrev pub inner : String → String
inner String.[] = String.[]
inner (String.◌∷◌ c String.[]) = String.[]
inner (String.◌∷◌ c (String.◌∷◌ d s)) = drop_last_from d s

abbrev pub quoted : Option Char → Bool
quoted none = false
quoted (some c) = is_quote c

abbrev pub same_char : Option Char → Option Char → Bool
same_char (some c) (some d) = nat_eq (code c) (code d)
same_char _ _ = false

abbrev pub has_quote : String → Bool
has_quote s = has_char "'" s || has_char "\"" s

-- `_coerce_scalar`
unfoldable pub coerce_scalar : String → Result Scalar
coerce_scalar value =
    if quoted (first_char value) || quoted (last_char value)
    then (if not (quoted (first_char value))
          || not (quoted (last_char value))
          || not (same_char (first_char value) (last_char value))
        then value_error
        else if has_quote (inner value)
        then value_error
        else ok (text_value (inner value)))
    else if has_quote value
    then value_error
    else if lower value == "true"
    then ok (bool_value true)
    else if lower value == "false"
    then ok (bool_value false)
    else ok (text_value value)

-- A scalar that stands for a Boolean has no quote in it, and is the word for it in any case.
pub coerce_scalar-bool_value :
    (value : String) (b : Bool)
    → coerce_scalar value ≡ ok (bool_value b)
    → (has_quote value ≡ false) × (lower value ≡ (if b then "true" else "false"))
unfolding coerce_scalar
coerce_scalar-bool_value value b h =
    ground (arith, ==_iff (lower value) "true", ==_iff (lower value) "false")
