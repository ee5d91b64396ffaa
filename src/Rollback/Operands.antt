-- ===== src/Rollback/Operands.antt =====
-- rollback.py: the operands that `_allowed_rollback_command` takes.
use Prim.Native.Char.{Char}
use Prim.Native.String.append
use nvidia_converge.Common.{
  ◌≡◌, refl, ap, sym, ◌∙◌, ◌⊎◌, inl, inr, String, Bool, true, false, List, [], ◌∷◌, ◌==◌, ==_iff,
  ◌<>◌, arith, Bool-cases,
}
use nvidia_converge.Common.Text.{ends_with, after_prefix, span, is_lower_hex}
use nvidia_converge.Rollback.Allowed.{
  valid_package_spec, valid_local_payload_path, parts_of, push_char, is_payload_name,
  is_payload_place, drop_last, drop_first, allowed_apt_operand, allowed_zypper_operand,
}

drop_last-append : (s : String) → drop_last (s <> "-") ≡ s
unfolding drop_last
drop_last-append String.[] = refl
drop_last-append (String.◌∷◌ c String.[]) = rw (append.cons c String.[] "-") refl
drop_last-append (String.◌∷◌ c (String.◌∷◌ d s)) =
    rw (append.cons c (String.◌∷◌ d s) "-", append.cons d s "-")
      (ap (λ t. String.◌∷◌ c t)
        (ap drop_last (sym (append.cons d s "-")) ∙ drop_last-append (String.◌∷◌ d s)))

ends_with-append : (s : String) → ends_with (s <> "-") "-" ≡ true
unfolding ends_with ◌==◌
ends_with-append String.[] = refl
ends_with-append (String.◌∷◌ c s) = rw (append.cons c s "-") (ground (arith, ends_with-append s))

pub apt-removal :
    (spec : String) → valid_package_spec spec ≡ true → allowed_apt_operand (spec <> "-") ≡ true
unfolding allowed_apt_operand
apt-removal spec h =
    ground (arith, ends_with-append spec, ap valid_package_spec (drop_last-append spec))

pub zypper-removal :
    (spec : String) → valid_package_spec spec ≡ true → allowed_zypper_operand ("-" <> spec) ≡ true
unfolding allowed_zypper_operand drop_first
zypper-removal spec h = rw (append.cons "-" String.[] spec, append.nil spec) h

-- A payload path starts with a slash.
pub zypper-payload :
    (path : String)
    → valid_local_payload_path "rpm" path ≡ true
    → allowed_zypper_operand path ≡ true
unfolding allowed_zypper_operand valid_local_payload_path after_prefix
zypper-payload String.[] h = cc
zypper-payload (String.◌∷◌ c s) h = ground arith

-- A text that ends with a dash has a last part that does.
abbrev ends_dash : List String → Bool
ends_dash [] = false
ends_dash (part ∷ []) = ends_with part "-"
ends_dash (part ∷ other ∷ parts) = ends_dash (other ∷ parts)

push_char-ends_dash :
    (c : Char) (parts : List String) → ends_dash parts ≡ true → ends_dash (push_char c parts) ≡ true
unfolding ends_with
push_char-ends_dash c [] h = cc
push_char-ends_dash c (part ∷ []) h = ground arith
push_char-ends_dash c (part ∷ other ∷ parts) h = h

cons-ends_dash :
    (part : String) (parts : List String) → ends_dash parts ≡ true → ends_dash (part ∷ parts) ≡ true
cons-ends_dash part [] h = cc
cons-ends_dash part (other ∷ parts) h = h

-- What a text that ends with a dash is.
dash_cases :
    (c : Char) (s : String)
    → ends_with (String.◌∷◌ c s) "-" ≡ true
    → (String.◌∷◌ c s ≡ "-") ⊎ (ends_with s "-" ≡ true)
unfolding ends_with
dash_cases c s h = elim (Bool-cases (String.◌∷◌ c s == "-")) [
  | inl whole ↦ inl ((==_iff (String.◌∷◌ c s) "-").0 whole)
  | inr longer ↦ inr (ground arith)
]

parts_of-ends_dash : (s : String) → ends_with s "-" ≡ true → ends_dash (parts_of s) ≡ true
unfolding ends_with parts_of ◌==◌
parts_of-ends_dash String.[] h = cc
parts_of-ends_dash (String.◌∷◌ c s) h = elim (dash_cases c s h) [
  | inl whole ↦ ap (λ t. ends_dash (parts_of t)) whole
  | inr later ↦
      let rest = parts_of-ends_dash s later in
      ground (arith, cons-ends_dash "" (parts_of s) rest, push_char-ends_dash c (parts_of s) rest)
]

abbrev starts_by : (Char → Bool) → String → Bool
starts_by p String.[] = false
starts_by p (String.◌∷◌ c s) = p c

span-ends_with :
    (p : Char → Bool) (s : String)
    → starts_by p "-" ≡ false
    → ends_with s "-" ≡ true
    → ends_with (span p s).1 "-" ≡ true
unfolding ends_with span ◌==◌
span-ends_with p String.[] d h = cc
span-ends_with p (String.◌∷◌ c s) d h = elim (Bool-cases (p c)) [
  | inr stops ↦ rw stops h
  | inl goes ↦ elim (dash_cases c s h) [
    | inl whole ↦ ground (arith, ap (starts_by p) whole)
    | inr later ↦ rw goes (span-ends_with p s d later)
  ]
]

payload_name-no_dash :
    (name : String) → is_payload_name "deb" name ≡ true → ends_with name "-" ≡ false
unfolding is_payload_name is_lower_hex ends_with ◌==◌
payload_name-no_dash name h = elim (Bool-cases (ends_with name "-")) [
  | inr fine ↦ fine
  | inl dash ↦
      let rest : (span is_lower_hex name).1 ≡ ".deb" =
        ground (arith, ==_iff (span is_lower_hex name).1 ".deb") in
      let tail : ends_with (span is_lower_hex name).1 "-" ≡ true =
        span-ends_with is_lower_hex name refl dash in
      let absurd_end : false ≡ true = sym (ap (λ t. ends_with t "-") rest) ∙ tail in cc
]

payload_place-no_dash :
    (parts : List String) → is_payload_place "deb" parts ≡ true → ends_dash parts ≡ false
unfolding is_payload_place
payload_place-no_dash [] h = cc
payload_place-no_dash (directory ∷ []) h = cc
payload_place-no_dash (directory ∷ name ∷ []) h = payload_name-no_dash name (ground arith)
payload_place-no_dash (directory ∷ name ∷ part ∷ parts) h =
    payload_place-no_dash (name ∷ part ∷ parts) h

-- A payload of APT ends with its extension, not with the dash of a removal.
pub apt-payload :
    (path : String) → valid_local_payload_path "deb" path ≡ true → allowed_apt_operand path ≡ true
unfolding allowed_apt_operand valid_local_payload_path after_prefix ◌==◌
apt-payload String.[] h = cc
apt-payload (String.◌∷◌ c s) h = elim (Bool-cases (ends_with (String.◌∷◌ c s) "-")) [
  | inr fine ↦ rw fine h
  | inl dash ↦ elim (dash_cases c s dash) [
    | inl whole ↦
        let refused : false ≡ true = sym (ap (valid_local_payload_path "deb") whole) ∙ h in cc
    | inr later ↦ ground (arith, parts_of-ends_dash s later, payload_place-no_dash (parts_of s))
  ]
]
