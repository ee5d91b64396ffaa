-- ===== src/Rollback/Allowed.antt =====
-- rollback.py: `_allowed_rollback_command`, the commands that a snapshot may record.
use Prim.Native.Char.{Char, code}
use Prim.Native.String.{count}
use nvidia_converge.Common.{
  String, Bool, true, false, not, ◌&&◌, ◌||◌, Option, none, some, List, [], ◌∷◌, ◌++◌, all,
  contains, length, is_empty, ◌==◌, ◌<>◌, nat_eq, if◌then◌else◌,
}
use nvidia_converge.Common.Text.{ends_with, span, is_lower_hex, after_prefix}
use nvidia_converge.Config.{at_end, is_alphanumeric}
use nvidia_converge.Rollback.Specs.{is_dnf}
use nvidia_converge.Rollback.Commands.{apt_install, zypper_install}

-- The characters of a package name, and of a version.
unfoldable pub is_name_char : Char → Bool
unfolding is_alphanumeric
is_name_char c =
    is_alphanumeric c
    || nat_eq (code c) b'.'
    || nat_eq (code c) b'+'
    || nat_eq (code c) b'_'
    || nat_eq (code c) b':'
    || nat_eq (code c) b'-'

unfoldable pub is_version_char : Char → Bool
unfolding is_name_char
is_version_char c = is_name_char c || nat_eq (code c) b'~'

-- `[A-Za-z0-9]X*` at the start of a text, and what follows it.
unfoldable pub word_of : (Char → Bool) → String → Option String
unfolding span is_alphanumeric
word_of p String.[] = none
word_of p (String.◌∷◌ c s) = if is_alphanumeric c then some (span p s).1 else none

-- `text.startswith("-")`
abbrev pub starts_dash : String → Bool
starts_dash String.[] = false
starts_dash (String.◌∷◌ c s) = nat_eq (code c) b'-'

-- `_valid_package_spec`
unfoldable pub valid_package_spec : String → Bool
unfolding word_of is_name_char is_version_char after_prefix
valid_package_spec spec = not (starts_dash spec) && elim (word_of is_name_char spec) [
  | none ↦ false
  | some rest ↦ at_end rest || elim (after_prefix rest "=") [
    | none ↦ false
    | some version ↦ elim (word_of is_version_char version) [
      | none ↦ false
      | some tail ↦ at_end tail
    ]
  ]
]

-- `_valid_package_specs`
unfoldable pub valid_package_specs : List String → Bool
valid_package_specs specs = not (is_empty specs) && all valid_package_spec specs

-- The parts of a path around its slashes.
abbrev pub push_char : Char → List String → List String
push_char c [] = String.◌∷◌ c String.[] ∷ []
push_char c (part ∷ parts) = String.◌∷◌ c part ∷ parts

unfoldable pub parts_of : String → List String
parts_of String.[] = "" ∷ []
parts_of (String.◌∷◌ c s) =
    let parts = parts_of s in if nat_eq (code c) 47 then "" ∷ parts else push_char c parts

-- A part that `os.path.normpath` and `Path` keep, and that is no directory nearby.
abbrev pub is_plain_part : String → Bool
is_plain_part part = not (part == "" || part == "." || part == "..")

-- A digest with an extension, below a directory of payloads.
unfoldable pub is_payload_name : String → String → Bool
unfolding span is_lower_hex
is_payload_name extension name =
    let (hex, rest) = span is_lower_hex name in nat_eq (count hex) 64 && rest == "." <> extension

unfoldable pub is_payload_place : String → List String → Bool
unfolding is_payload_name ends_with
is_payload_place extension [] = false
is_payload_place extension (directory ∷ []) = false
is_payload_place extension (directory ∷ name ∷ []) =
    ends_with directory ".payloads" && is_payload_name extension name
is_payload_place extension (directory ∷ name ∷ part ∷ parts) =
    is_payload_place extension (name ∷ part ∷ parts)

-- `_valid_local_payload_path`
unfoldable pub valid_local_payload_path : String → String → Bool
unfolding parts_of is_payload_place
valid_local_payload_path extension path = elim (after_prefix path "/") [
  | none ↦ false
  | some rest ↦
      let parts = parts_of rest in all is_plain_part parts && is_payload_place extension parts
]

-- What follows some words, and `none` when the command does not start with them.
abbrev pub after_words : List String → List String → Option (List String)
after_words [] command = some command
after_words (word ∷ words) [] = none
after_words (word ∷ words) (part ∷ command) =
    let rest = after_words words command in if word == part then rest else none

-- `command.index(marker)`: what stands before the first marker, and behind it.
abbrev pub around_marker : String → List String → Option (List String × List String)
around_marker marker [] = none
around_marker marker (part ∷ command) =
    let later = around_marker marker command in
    if part == marker
    then some ([], command)
    else elim later [ none ↦ none | some (before, after) ↦ some (part ∷ before, after) ]

-- `len(set(values)) == len(values)`
abbrev pub is_unique : List String → Bool
is_unique [] = true
is_unique (x ∷ xs) = not (contains xs x) && is_unique xs

abbrev pub specs_or_none : List String → Bool
specs_or_none specs = is_empty specs || valid_package_specs specs

abbrev pub is_valid_payload : String → String → Bool
is_valid_payload extension path = valid_local_payload_path extension path

-- The parts of the local DNF transaction.
unfoldable pub allowed_transaction : List String → List String → List String → List String → Bool
allowed_transaction restore_paths remove_specs expected_installs expected_removals =
    not (
      contains (restore_paths ++ remove_specs ++ expected_installs ++ expected_removals) "--remove")
    && not (
        contains (restore_paths ++ remove_specs ++ expected_installs ++ expected_removals)
          "--expect-install")
    && not (
        contains (restore_paths ++ remove_specs ++ expected_installs ++ expected_removals)
          "--expect-remove")
    && (not (is_empty restore_paths) || not (is_empty remove_specs))
    && nat_eq (length restore_paths) (length expected_installs)
    && is_unique restore_paths
    && is_unique remove_specs
    && is_unique expected_installs
    && is_unique expected_removals
    && all (is_valid_payload "rpm") restore_paths
    && specs_or_none remove_specs
    && specs_or_none expected_installs
    && specs_or_none expected_removals

unfoldable pub allowed_dnf_local : List String → Bool
unfolding allowed_transaction
allowed_dnf_local operands = elim (around_marker "--remove" operands) [
  | none ↦ false
  | some (restore_paths, rest) ↦ elim (around_marker "--expect-install" rest) [
    | none ↦ false
    | some (remove_specs, rest') ↦ elim (around_marker "--expect-remove" rest') [
      | none ↦ false
      | some (expected_installs, expected_removals) ↦
          allowed_transaction restore_paths remove_specs expected_installs expected_removals
    ]
  ]
]

-- The last character of a text left out: `text[:-1]`.
unfoldable pub drop_last : String → String
drop_last String.[] = String.[]
drop_last (String.◌∷◌ c String.[]) = String.[]
drop_last (String.◌∷◌ c (String.◌∷◌ d s)) = String.◌∷◌ c (drop_last (String.◌∷◌ d s))

-- The first character left out: `text[1:]`.
unfoldable pub drop_first : String → String
drop_first String.[] = String.[]
drop_first (String.◌∷◌ c s) = s

-- An operand of APT: a package to remove, or a payload.
unfoldable pub allowed_apt_operand : String → Bool
allowed_apt_operand operand =
    if ends_with operand "-"
    then valid_package_spec (drop_last operand)
    else valid_local_payload_path "deb" operand

-- An operand of Zypper.
unfoldable pub allowed_zypper_operand : String → Bool
allowed_zypper_operand operand =
    if starts_dash operand
    then valid_package_spec (drop_first operand)
    else valid_local_payload_path "rpm" operand

-- The words of a DNF command behind the program.
abbrev pub dnf_words : List String → List String
dnf_words operation =
    "--disablerepo=*" ∷ "--disableplugin=versionlock" ∷ "--noautoremove" ∷ operation

-- A DNF or YUM command with the words, and at least one operand.
abbrev pub dnf_operands : List String → List String → Option (List String)
dnf_operands words [] = none
dnf_operands words (pm ∷ command) =
    if is_dnf (some pm)
    then elim (after_words words command) [
      | none ↦ none
      | some operands ↦ if is_empty operands then none else some operands
    ]
    else none

unfoldable pub allowed_zypper : List String → Bool
unfolding allowed_zypper_operand
allowed_zypper [] = false
allowed_zypper (separator ∷ operands) =
    separator == "--" && not (is_empty operands) && all allowed_zypper_operand operands

-- `_allowed_rollback_command`: the first form that a command starts with decides.
unfoldable pub allowed_rollback_command : List String → Bool
unfolding allowed_apt_operand allowed_zypper allowed_dnf_local
allowed_rollback_command command =
    elim (after_words ("python3" ∷ "-I" ∷ "-c" ∷ "DNF_LOCAL_TRANSACTION_SCRIPT" ∷ "--apply" ∷ [])
      command) [
        | some operands ↦ allowed_dnf_local operands
        | none ↦ elim (after_words apt_install command) [
          | some operands ↦ not (is_empty operands) && all allowed_apt_operand operands
          | none ↦
              elim (dnf_operands
                (dnf_words ("--setopt=localpkg_gpgcheck=1" ∷ "install" ∷ "-y" ∷ [])) command) [
                  | some operands ↦ all (is_valid_payload "rpm") operands
                  | none ↦ elim (dnf_operands (dnf_words ("remove-nevra" ∷ "-y" ∷ [])) command) [
                    | some operands ↦ valid_package_specs operands
                    | none ↦ elim (dnf_operands (dnf_words ("remove-n" ∷ "-y" ∷ [])) command) [
                      | some operands ↦ valid_package_specs operands
                      | none ↦ elim (after_words zypper_install command) [
                        | some operands ↦ allowed_zypper operands
                        | none ↦ false
                      ]
                    ]
                  ]
                ]
        ]
      ]
