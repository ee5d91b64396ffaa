-- ===== src/Config/Quoting.antt =====
-- nvidia_converge/desired.py: the texts that `_coerce_scalar` reads, and how they are quoted.
use Prim.Native.Char.{Char, code}
use Prim.Native.String.append
use text.Mathlib.TextEquality.{Char-path}
use nvidia_converge.Common.{
  ◌≡◌, refl, sym, ap, ◌∙◌, ◌⊎◌, ◌↔◌, inl, inr, String, true, false, ◌==◌, ◌<>◌, nat_eq, arith, ok,
  Bool-cases,
}
use nvidia_converge.Common.Text.{has_char, lower}
use nvidia_converge.Config.Scalar.{
  text_value, is_quote, last_from, drop_last_from, first_char, last_char, inner, quoted, same_char,
  has_quote, coerce_scalar,
}

-- A text of one character.
abbrev single : Char → String
single c = String.◌∷◌ c String.[]

-- A text between two copies of a character.
abbrev between : Char → String → String
between c text = String.◌∷◌ c (text <> single c)

-- A text is what stands before its last character, and that character.
drop_last_from-last :
    (c : Char) (s : String) → String.◌∷◌ c s ≡ drop_last_from c s <> single (last_from c s)
drop_last_from-last c String.[] = rw (append.nil (single c)) refl
drop_last_from-last c (String.◌∷◌ d s) =
    ap (λ t. String.◌∷◌ c t) (drop_last_from-last d s)
    ∙ sym (append.cons c (drop_last_from d s) (single (last_from d s)))

drop_last_from-single :
    (c d : Char) (s : String) → drop_last_from c (s <> single d) ≡ String.◌∷◌ c s
drop_last_from-single c d String.[] = rw (append.nil (single d)) refl
drop_last_from-single c d (String.◌∷◌ e s) =
    rw (append.cons e s (single d)) (ap (λ t. String.◌∷◌ c t) (drop_last_from-single e d s))

last_from-single : (c d : Char) (s : String) → last_from c (s <> single d) ≡ d
last_from-single c d String.[] = rw (append.nil (single d)) refl
last_from-single c d (String.◌∷◌ e s) = rw (append.cons e s (single d)) (last_from-single e d s)

inner-between : (c : Char) (text : String) → inner (between c text) ≡ text
inner-between c String.[] = rw (append.nil (single c)) refl
inner-between c (String.◌∷◌ d s) = rw (append.cons d s (single c)) (drop_last_from-single d c s)

-- A text without quotes does not end with one.
last_from-is_quote :
    (c : Char) (s : String) → has_quote (String.◌∷◌ c s) ≡ false → is_quote (last_from c s) ≡ false
unfolding has_char
last_from-is_quote c String.[] h = ground arith
last_from-is_quote c (String.◌∷◌ d s) h = last_from-is_quote d s (ground arith)

-- How the scalar may be written for the text: as it is, where it is no word for a Boolean; or
-- between two copies of a quote; and a lone quote stands for the empty text.
pub data IsWritten (text value : String) : Type 0 where
  bare :
      value ≡ text
      → (lower text == "true") ≡ false
      → (lower text == "false") ≡ false
      → IsWritten text value
  in_single_quotes : value ≡ "'" <> (text <> "'") → IsWritten text value
  in_double_quotes : value ≡ "\"" <> (text <> "\"") → IsWritten text value
  lone_quote : (value ≡ "'") ⊎ (value ≡ "\"") → text ≡ "" → IsWritten text value

append-between : (c : Char) (text : String) → single c <> (text <> single c) ≡ between c text
append-between c text =
    append.cons c String.[] (text <> single c) ∙ rw (append.nil (text <> single c)) refl

between-coerce_scalar :
    (c : Char) (text : String)
    → is_quote c ≡ true
    → has_quote text ≡ false
    → coerce_scalar (between c text) ≡ ok (text_value text)
unfolding coerce_scalar
between-coerce_scalar c text q clean =
    rw (last_from-single c c text, inner-between c text) (ground arith)

bare-coerce_scalar :
    (text : String)
    → has_quote text ≡ false
    → (lower text == "true") ≡ false
    → (lower text == "false") ≡ false
    → coerce_scalar text ≡ ok (text_value text)
unfolding coerce_scalar has_char
bare-coerce_scalar String.[] clean no_true no_false = ground arith
bare-coerce_scalar (String.◌∷◌ c s) clean no_true no_false =
    ground (arith, last_from-is_quote c s clean)

IsWritten-coerce_scalar :
    (value text : String)
    → has_quote text ≡ false
    → IsWritten text value
    → coerce_scalar value ≡ ok (text_value text)
unfolding coerce_scalar has_char
IsWritten-coerce_scalar value text clean (bare e no_true no_false) =
    ap coerce_scalar e ∙ bare-coerce_scalar text clean no_true no_false
IsWritten-coerce_scalar value text clean (in_single_quotes e) =
    ap coerce_scalar (e ∙ append-between "'" text) ∙ between-coerce_scalar "'" text refl clean
IsWritten-coerce_scalar value text clean (in_double_quotes e) =
    ap coerce_scalar (e ∙ append-between "\"" text) ∙ between-coerce_scalar "\"" text refl clean
IsWritten-coerce_scalar value text clean (lone_quote e empty) = elim e [
  | inl one ↦ rw (one, empty) refl
  | inr one ↦ rw (one, empty) refl
]

-- A character that is a quote is one of the two.
quote-cases : (c : Char) → is_quote c ≡ true → (c ≡ "'") ⊎ (c ≡ "\"")
quote-cases c h = elim (Bool-cases (nat_eq (code c) 39)) [
  | inl one ↦ inl (Char-path c "'" (ground arith))
  | inr other ↦ inr (Char-path c "\"" (ground arith))
]

between-IsWritten :
    (c : Char) (text value : String)
    → is_quote c ≡ true
    → value ≡ between c text
    → IsWritten text value
between-IsWritten c text value q e = elim (quote-cases c q) [
  | inl same ↦ in_single_quotes (e ∙ ap (λ d. between d text) same ∙ sym (append-between "'" text))
  | inr same ↦ in_double_quotes (e ∙ ap (λ d. between d text) same ∙ sym (append-between "\"" text))
]

single-IsWritten : (c : Char) → is_quote c ≡ true → IsWritten "" (single c)
single-IsWritten c q = elim (quote-cases c q) [
  | inl same ↦ lone_quote (inl (ap single same)) refl
  | inr same ↦ lone_quote (inr (ap single same)) refl
]

coerce_scalar-cases :
    (value text : String)
    → coerce_scalar value ≡ ok (text_value text)
    → (has_quote text ≡ false)
      × ((quoted (first_char value) ≡ false)
            × (value ≡ text)
            × ((lower text == "true") ≡ false)
            × ((lower text == "false") ≡ false)
          ⊎ ((quoted (first_char value) ≡ true)
              × (same_char (first_char value) (last_char value) ≡ true)
              × (inner value ≡ text)))
unfolding coerce_scalar
coerce_scalar-cases value text h = elim (Bool-cases (quoted (first_char value))) [
  | inl opened ↦ ground arith
  | inr bare_start ↦ ground arith
]

quoted-IsWritten :
    (value text : String)
    → quoted (first_char value) ≡ true
    → same_char (first_char value) (last_char value) ≡ true
    → inner value ≡ text
    → IsWritten text value
quoted-IsWritten String.[] text opened same e = cc
quoted-IsWritten (String.◌∷◌ c String.[]) text opened same e =
    rw (sym e) (single-IsWritten c opened)
quoted-IsWritten (String.◌∷◌ c (String.◌∷◌ d s)) text opened same e =
    between-IsWritten c text _ opened (
      ap (λ t. String.◌∷◌ c t) (drop_last_from-last d s)
      ∙ cc (e, Char-path c (last_from d s) (ground arith)))

-- A scalar stands for a text exactly when there is no quote in the text and the scalar is the text
-- itself, which is then no word for a Boolean, or the text between two single or two double quotes,
-- or a lone quote, which stands for the empty text.
pub coerce_scalar-text_value :
    (value text : String)
    → (coerce_scalar value ≡ ok (text_value text))
      ↔ ((has_quote text ≡ false) × IsWritten text value)
coerce_scalar-text_value value text = (
  λ h.
      let (clean, written) = coerce_scalar-cases value text h in
      elim written [
        | inl (start, same, no_true, no_false) ↦ (clean, bare same no_true no_false)
        | inr (opened, same, e) ↦ (clean, quoted-IsWritten value text opened same e)
      ],
  λ (clean, written). IsWritten-coerce_scalar value text clean written,
)
