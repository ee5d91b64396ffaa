-- ===== src/Config.antt =====
-- nvidia_converge/desired.py: the validation of a desired state, and the patterns it uses.
pub mod Valid
pub mod Quoting
pub mod Scalar
use Prim.Native.Char.{Char, code}
use Prim.Native.String.{count}
use nvidia_converge.Common.{
  ℕ, String, Bool, true, false, not, ◌&&◌, ◌||◌, Option, none, some, List, [], ◌∷◌, ◌==◌, ◌<>◌, leb,
  nat_eq, is_none, contains, all, if◌then◌else◌,
}
use nvidia_converge.Common.Text.{
  is_lower_hex, is_digit, span, split_once, rsplit_once, after_prefix,
}
use nvidia_converge.Models.{DesiredState, driver_major}
use nvidia_converge.CudaCompat.{
  CudaCompatStatus, compatible, not_applicable, unsupported, unknown,
  cuda_minor_compatibility_status,
}

-- `$` at the end of a pattern: the end of the text, or a line feed that is its last character.
abbrev pub at_end : String → Bool
at_end rest = rest == "" || rest == "\n"

-- A number, and what follows it; `none` without a digit.
unfoldable pub number : String → Option (String × String)
unfolding span is_digit
number s =
    let (digits, rest) = span is_digit s in if digits == "" then none else some (digits, rest)

-- A dot and a number, and what follows them.
unfoldable pub dot_number : String → Option (String × String)
unfolding number after_prefix
dot_number s = elim (after_prefix s ".") [ none ↦ none | some rest ↦ number rest ]

-- What may follow the branch in `_DRIVER_PATTERN`.
unfoldable pub driver_suffix : String → Bool
unfolding after_prefix dot_number
driver_suffix rest =
    at_end rest
    || elim (after_prefix rest "-open") [ none ↦ false | some tail ↦ at_end tail ]
    || elim (dot_number rest) [
      | none ↦ false
      | some (_, tail) ↦
          at_end tail || elim (dot_number tail) [ none ↦ false | some (_, last) ↦ at_end last ]
    ]

-- `_DRIVER_PATTERN.match`
unfoldable pub is_driver : String → Bool
unfolding number driver_suffix
is_driver driver = elim (number driver) [ none ↦ false | some (_, rest) ↦ driver_suffix rest ]

-- `_CUDA_COMPAT_PATTERN.match`
unfoldable pub is_cuda_compat : String → Bool
unfolding after_prefix number dot_number
is_cuda_compat version =
    elim (after_prefix version "none") [ none ↦ false | some tail ↦ at_end tail ]
    || elim (number version) [
      | none ↦ false
      | some (_, rest) ↦ elim (dot_number rest) [ none ↦ false | some (_, tail) ↦ at_end tail ]
    ]

unfoldable pub is_alphanumeric : Char → Bool
is_alphanumeric c =
    leb 48 (code c) && leb (code c) 57
    || leb 65 (code c) && leb (code c) 90
    || leb 97 (code c) && leb (code c) 122

unfoldable pub is_segment_char : Char → Bool
unfolding is_alphanumeric
is_segment_char c = is_alphanumeric c || nat_eq (code c) b'.' || nat_eq (code c) b'_'

unfoldable pub is_tag_char : Char → Bool
unfolding is_segment_char
is_tag_char c = is_segment_char c || nat_eq (code c) b'-'

unfoldable pub starts_alphanumeric : String → Bool
unfolding is_alphanumeric
starts_alphanumeric String.[] = false
starts_alphanumeric (String.◌∷◌ c s) = is_alphanumeric c

-- `@sha256:[a-f0-9]{64}$`
unfoldable pub is_digest : String → Bool
unfolding after_prefix span is_lower_hex
is_digest s = elim (after_prefix s "@sha256:") [
  | none ↦ false
  | some rest ↦ let (hex, tail) = span is_lower_hex rest in nat_eq (count hex) 64 && at_end tail
]

-- `_CONTAINER_IMAGE_PATTERN.match`
unfoldable pub is_container_image : String → Bool
unfolding after_prefix span is_tag_char starts_alphanumeric is_digest
is_container_image image = elim (after_prefix image "nvidia/cuda:") [
  | none ↦ false
  | some rest ↦
      let (tag, digest) = span is_tag_char rest in
      starts_alphanumeric tag && leb (count tag) 128 && is_digest digest
]

-- Three numbers around dots, and what follows them.
unfoldable pub full_version : String → Option (String × String)
unfolding number dot_number
full_version tag = elim (number tag) [
  | none ↦ none
  | some (major, rest) ↦ elim (dot_number rest) [
    | none ↦ none
    | some (minor, rest') ↦ elim (dot_number rest') [
      | none ↦ none
      | some (patch, tail) ↦ some (major <> ("." <> (minor <> ("." <> patch))), tail)
    ]
  ]
]

-- The tag of an image behind the prefix, up to the first `@`.
abbrev pub image_tag : String → String
image_tag rest = (split_once "@" rest).0

-- `_CONTAINER_CUDA_TAG_PATTERN.match` and its group.
unfoldable pub tag_version : String → Option String
unfolding full_version after_prefix
tag_version tag = elim (full_version tag) [
  | none ↦ none
  | some (version, tail) ↦
      if not (is_none (after_prefix tail "-")) || at_end tail then some version else none
]

unfoldable pub container_cuda_full_version : String → Option String
unfolding after_prefix split_once tag_version
container_cuda_full_version image = elim (after_prefix image "nvidia/cuda:") [
  | none ↦ none
  | some rest ↦ tag_version (image_tag rest)
]

-- `full_version.rsplit(".", 1)[0]`, where there is a version.
unfoldable pub container_cuda_version : String → Option String
unfolding container_cuda_full_version rsplit_once
container_cuda_version image = elim (container_cuda_full_version image) [
  | none ↦ none
  | some version ↦ elim (rsplit_once "." version) [
    | none ↦ some version
    | some (minor_version, _) ↦ some minor_version
  ]
]

abbrev push_char : Char → List String → List String
push_char c [] = String.◌∷◌ c String.[] ∷ []
push_char c (x ∷ xs) = String.◌∷◌ c x ∷ xs

-- `s.split("-")`
unfoldable pub split_dashes : String → List String
split_dashes String.[] = String.[] ∷ []
split_dashes (String.◌∷◌ c s) =
    let rest = split_dashes s in if nat_eq (code c) b'-' then String.[] ∷ rest else push_char c rest

unfoldable pub is_segment : String → Bool
unfolding span is_segment_char
is_segment s = let (taken, rest) = span is_segment_char s in not (taken == "") && rest == ""

-- `_CONTAINER_DEVEL_TAG_PATTERN.fullmatch`: segments behind dashes, one of which is `devel`.
unfoldable pub is_devel_tag : String → Bool
unfolding full_version after_prefix split_dashes is_segment
is_devel_tag tag = elim (full_version tag) [
  | none ↦ false
  | some (_, tail) ↦ elim (after_prefix tail "-") [
    | none ↦ false
    | some rest ↦ all is_segment (split_dashes rest) && contains (split_dashes rest) "devel"
  ]
]

-- `container_cuda_minor_compatibility_status`, for the branch of the desired driver.
unfoldable pub container_cuda_minor_compatibility_status : DesiredState → CudaCompatStatus
unfolding container_cuda_version
container_cuda_minor_compatibility_status d = elim (container_cuda_version d.container_test_image) [
  | none ↦ unknown
  | some version ↦ cuda_minor_compatibility_status (driver_major d) version
]

-- The texts of `DesiredConfigError` in `_validate_desired`.
pub data DesiredConfigError : Type 0 where
  must_be_one_of : String → DesiredConfigError
  driver_format cuda_compat_format cuda_compat_unmodeled mig_profile_mismatch : DesiredConfigError
  image_format image_version image_not_devel : DesiredConfigError
  unqualified_cuda unsupported_cuda : DesiredConfigError

-- The first field whose value is not in `_ALLOWED_VALUES`.
unfoldable pub disallowed_field : DesiredState → Option String
disallowed_field d =
    if not (d.role == "compute")
    then some "role"
    else if not (d.secure_boot == "signed" || d.secure_boot == "disabled")
    then some "secure_boot"
    else if not (d.container_runtime == "docker")
    then some "container_runtime"
    else if not (d.mig == "disabled" || d.mig == "enabled")
    then some "mig"
    else if not (d.mig_profile == "none" || d.mig_profile == "full")
    then some "mig_profile"
    else if not (d.kernel_policy == "pin-compatible")
    then some "kernel_policy"
    else none

-- The tests on the container image, at the end of `_validate_desired`.
unfoldable pub container_image_error : DesiredState → Option DesiredConfigError
container_image_error d =
    if not (is_container_image d.container_test_image)
    then some image_format
    else if is_none (container_cuda_version d.container_test_image)
    then some image_version
    else if not (elim (after_prefix d.container_test_image "nvidia/cuda:") [
      | none ↦ is_devel_tag (image_tag d.container_test_image)
      | some rest ↦ is_devel_tag (image_tag rest)
    ])
    then some image_not_devel
    else elim (container_cuda_minor_compatibility_status d) [
      | unknown ↦ some unqualified_cuda
      | unsupported ↦ some unsupported_cuda
      | compatible ↦ none
      | not_applicable ↦ none
    ]

-- `_validate_desired`
unfoldable pub validate_desired : DesiredState → Option DesiredConfigError
validate_desired d = elim (disallowed_field d) [
  | some field_name ↦ some (must_be_one_of field_name)
  | none ↦
      if not (is_driver d.driver)
      then some driver_format
      else if not (is_cuda_compat d.cuda_compat)
      then some cuda_compat_format
      else if not (d.cuda_compat == "none")
      then some cuda_compat_unmodeled
      else if not (d.mig_profile == (if d.mig == "enabled" then "full" else "none"))
      then some mig_profile_mismatch
      else container_image_error d
]
