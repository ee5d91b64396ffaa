-- ===== src/Common/Decimal.antt =====
-- `int` and `str` between natural numbers and their decimal digits.
use Prim.Native.Nat.{ℕ, zero, suc, ◌+◌, ◌-◌, ◌*◌, ◌/◌, ◌%◌, ◌<◌}
use Prim.Native.Char.{Char, code}
use Prim.Native.String.append
use Prim.Native.String.{String, ◌++◌ as ◌<>◌}
use mathlib.Core.Path.{◌≡◌, refl, ◌∙◌, ap}
use mathlib.Core.Logic.{inl, inr}
use mathlib.Core.Bool.{false}
use mathlib.Core.Option.{Option, some}
use native.Mathlib.Omega.{arith}
use nvidia_converge.Common.Tests.{ltb, nat_eq, if◌then◌else◌, Bool-cases}
use nvidia_converge.Common.Text.{split_once}

-- The decimal value of a text of digits, `int(s)`.
unfoldable pub read_from : ℕ → String → ℕ
read_from acc String.[] = acc
read_from acc (String.◌∷◌ c s) = read_from (acc * 10 + (code c - 48)) s

unfoldable pub read_int : String → ℕ
unfolding read_from
read_int s = read_from 0 s

unfoldable pub digit_char : ℕ → Char
digit_char zero = "0"
digit_char (suc zero) = "1"
digit_char (suc (suc zero)) = "2"
digit_char (suc (suc (suc zero))) = "3"
digit_char (suc (suc (suc (suc zero)))) = "4"
digit_char (suc (suc (suc (suc (suc zero))))) = "5"
digit_char (suc (suc (suc (suc (suc (suc zero)))))) = "6"
digit_char (suc (suc (suc (suc (suc (suc (suc zero))))))) = "7"
digit_char (suc (suc (suc (suc (suc (suc (suc (suc zero)))))))) = "8"
digit_char _ = "9"

-- The digits of a number in front of a text. The fuel is the number itself, plus one.
unfoldable pub show_onto : ℕ → ℕ → String → String
show_onto zero n tail = tail
show_onto (suc fuel) n tail =
    let longer = show_onto fuel (n / 10) (String.◌∷◌ (digit_char (n % 10)) tail) in
    if ltb n 10 then String.◌∷◌ (digit_char n) tail else longer

-- `str(n)`
unfoldable pub show_int : ℕ → String
unfolding show_onto digit_char
show_int n = show_onto (suc n) n String.[]

code-digit_char : (d : ℕ) → d < 10 → code (digit_char d) - 48 ≡ d
unfolding digit_char
code-digit_char zero h = refl
code-digit_char (suc zero) h = refl
code-digit_char (suc (suc zero)) h = refl
code-digit_char (suc (suc (suc zero))) h = refl
code-digit_char (suc (suc (suc (suc zero)))) h = refl
code-digit_char (suc (suc (suc (suc (suc zero))))) h = refl
code-digit_char (suc (suc (suc (suc (suc (suc zero)))))) h = refl
code-digit_char (suc (suc (suc (suc (suc (suc (suc zero))))))) h = refl
code-digit_char (suc (suc (suc (suc (suc (suc (suc (suc zero)))))))) h = refl
code-digit_char (suc (suc (suc (suc (suc (suc (suc (suc (suc zero))))))))) h = refl
code-digit_char (suc (suc (suc (suc (suc (suc (suc (suc (suc (suc n)))))))))) h =
    absurd (omega arith)

read_from-show_onto :
    (fuel n : ℕ) (tail : String) → n < fuel → read_from 0 (show_onto fuel n tail) ≡ read_from n tail
unfolding read_from show_onto
read_from-show_onto zero n tail h = elim h [ ]
read_from-show_onto (suc fuel) n tail h = ground (
  arith,
  code-digit_char n,
  code-digit_char (n % 10),
  read_from-show_onto fuel (n / 10) (String.◌∷◌ (digit_char (n % 10)) tail),
)

-- A printed number reads back.
pub read_int-show_int : (n : ℕ) → read_int (show_int n) ≡ n
unfolding read_int show_int
read_int-show_int n = read_from-show_onto (suc n) n String.[] (omega arith)

-- What follows a printed number.
show_onto-append : (fuel n : ℕ) (s t : String) → show_onto fuel n s <> t ≡ show_onto fuel n (s <> t)
unfolding show_onto
show_onto-append zero n s t = refl
show_onto-append (suc fuel) n s t = elim (Bool-cases (ltb n 10)) [
  | inl short ↦ rw short (append.cons (digit_char n) s t)
  | inr long ↦ rw long (
      show_onto-append fuel (n / 10) (String.◌∷◌ (digit_char (n % 10)) s) t
      ∙ ap (show_onto fuel (n / 10)) (append.cons (digit_char (n % 10)) s t))
]

show_int-append : (n : ℕ) (t : String) → show_int n <> t ≡ show_onto (suc n) n t
unfolding show_int
show_int-append n t =
    show_onto-append (suc n) n String.[] t ∙ ap (show_onto (suc n) n) (append.nil t)

digit-ne-colon : (d : ℕ) → nat_eq (code (digit_char d)) b':' ≡ false
unfolding digit_char
digit-ne-colon zero = refl
digit-ne-colon (suc zero) = refl
digit-ne-colon (suc (suc zero)) = refl
digit-ne-colon (suc (suc (suc zero))) = refl
digit-ne-colon (suc (suc (suc (suc zero)))) = refl
digit-ne-colon (suc (suc (suc (suc (suc zero))))) = refl
digit-ne-colon (suc (suc (suc (suc (suc (suc zero)))))) = refl
digit-ne-colon (suc (suc (suc (suc (suc (suc (suc zero))))))) = refl
digit-ne-colon (suc (suc (suc (suc (suc (suc (suc (suc zero)))))))) = refl
digit-ne-colon _ = refl

split_once-show_onto :
    (fuel n : ℕ) (tail before : String) (after : Option String)
    → split_once ":" tail ≡ (before, after)
    → split_once ":" (show_onto fuel n tail) ≡ (show_onto fuel n before, after)
unfolding split_once show_onto
split_once-show_onto zero n tail before after h = h
split_once-show_onto (suc fuel) n tail before after h = elim (Bool-cases (ltb n 10)) [
  | inl short ↦ rw (short, digit-ne-colon n, h) refl
  | inr long ↦ rw long (
      split_once-show_onto fuel (n / 10) _ (String.◌∷◌ (digit_char (n % 10)) before) after
        (rw (digit-ne-colon (n % 10), h) refl))
]

split_once-colon : (t : String) → split_once ":" (":" <> t) ≡ (String.[], some t)
unfolding split_once
split_once-colon t = rw (append.cons ":" String.[] t, append.nil t) refl

-- A number in front of a colon is cut off there.
pub split_once-show_int :
    (n : ℕ) (t : String) → split_once ":" (show_int n <> (":" <> t)) ≡ (show_int n, some t)
split_once-show_int n t =
    ap (split_once ":") (show_int-append n (":" <> t))
    ∙ unfold show_int in
      split_once-show_onto (suc n) n (":" <> t) String.[] (some t) (split_once-colon t)
