-- ===== src/Common/Text.antt =====
-- The operations of Python's `str` that the program uses, over ASCII text.
use Prim.Native.Char.{Char, code}
use Prim.Native.Nat.{ℕ}
use Prim.Native.String.{String, count}
use mathlib.Core.Bool.{Bool, true, false, not, ◌&&◌, ◌||◌}
use mathlib.Core.Option.{Option, none, some}
use nvidia_converge.Common.Tests.{leb, nat_eq, ◌==◌, if◌then◌else◌}

unfoldable pub is_digit : Char → Bool
is_digit c = leb 48 (code c) && leb (code c) 57

-- The longest prefix of characters that pass a test, and the rest: `X*` of a pattern.
unfoldable pub span : (Char → Bool) → String → String × String
span p String.[] = (String.[], String.[])
span p (String.◌∷◌ c s) =
    let (taken, rest) = span p s in
    if p c then (String.◌∷◌ c taken, rest) else (String.[], String.◌∷◌ c s)

-- A text of digits, not empty: `s.isdecimal()`.
unfoldable pub is_decimal : String → Bool
unfolding span is_digit
is_decimal s = let (digits, rest) = span is_digit s in not (digits == "") && rest == ""

-- `s.split(sep, 1)` and `s.partition(sep)` for a separator of one character.
unfoldable pub split_once : Char → String → String × Option String
split_once sep String.[] = (String.[], none)
split_once sep (String.◌∷◌ c s) =
    let (before, after) = split_once sep s in
    if nat_eq (code c) (code sep) then (String.[], some s) else (String.◌∷◌ c before, after)

-- `s.rpartition(sep)`: split at the last separator; `none` when there is none.
unfoldable pub rsplit_once : Char → String → Option (String × String)
rsplit_once sep String.[] = none
rsplit_once sep (String.◌∷◌ c s) = elim (rsplit_once sep s) [
  | some (before, after) ↦ some (String.◌∷◌ c before, after)
  | none ↦ if nat_eq (code c) (code sep) then some (String.[], s) else none
]

-- `c in s`
unfoldable pub has_char : Char → String → Bool
has_char x String.[] = false
has_char x (String.◌∷◌ c s) = nat_eq (code c) (code x) || has_char x s

unfoldable pub ends_with : String → String → Bool
ends_with String.[] suffix = String.[] == suffix
ends_with (String.◌∷◌ c s) suffix = (String.◌∷◌ c s) == suffix || ends_with s suffix

-- `s.removeprefix(prefix)`, and `none` where the prefix is not there.
unfoldable pub after_prefix : String → String → Option String
after_prefix s String.[] = some s
after_prefix String.[] (String.◌∷◌ p ps) = none
after_prefix (String.◌∷◌ c s) (String.◌∷◌ p ps) =
    if nat_eq (code c) (code p) then after_prefix s ps else none

-- The white space of ASCII, by `str.isspace`.
unfoldable pub is_space : Char → Bool
is_space c = leb 9 (code c) && leb (code c) 13 || leb 28 (code c) && leb (code c) 32

unfoldable pub left_strip : String → String
unfolding is_space
left_strip String.[] = String.[]
left_strip (String.◌∷◌ c s) = if is_space c then left_strip s else String.◌∷◌ c s

unfoldable pub right_strip : String → String
unfolding is_space
right_strip String.[] = String.[]
right_strip (String.◌∷◌ c s) =
    let rest = right_strip s in if is_space c && rest == "" then String.[] else String.◌∷◌ c rest

-- `s.strip()`
unfoldable pub strip : String → String
unfolding left_strip right_strip
strip s = right_strip (left_strip s)

-- The character of the second alphabet that stands where `c` stands in the first.
unfoldable pub recode : Char → String → String → Char
recode c (String.◌∷◌ u us) (String.◌∷◌ l ls) =
    if nat_eq (code c) (code u) then l else recode c us ls
recode c _ _ = c

-- `s.lower()`
unfoldable pub lower : String → String
unfolding recode
lower String.[] = String.[]
lower (String.◌∷◌ c s) =
    String.◌∷◌ (recode c "ABCDEFGHIJKLMNOPQRSTUVWXYZ" "abcdefghijklmnopqrstuvwxyz") (lower s)

-- `needle in s`
unfoldable pub has_text : String → String → Bool
unfolding after_prefix
has_text needle String.[] = needle == String.[]
has_text needle (String.◌∷◌ c s) = elim (after_prefix (String.◌∷◌ c s) needle) [
  | some _ ↦ true
  | none ↦ has_text needle s
]

-- `[a-f0-9]`
unfoldable pub is_lower_hex : Char → Bool
is_lower_hex c = leb 48 (code c) && leb (code c) 57 || leb 97 (code c) && leb (code c) 102

-- `[a-f0-9]{length}` for the whole text.
unfoldable pub is_hex : ℕ → String → Bool
unfolding span is_lower_hex
is_hex length s = let (hex, rest) = span is_lower_hex s in nat_eq (count hex) length && rest == ""
