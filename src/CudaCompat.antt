-- ===== src/CudaCompat.antt =====
-- nvidia_converge/cuda_compat.py: which drivers run which CUDA versions.
pub mod Matrix
pub mod Minor
use Prim.Native.Char.{code}
use nvidia_converge.Common.{
  get, ℕ, String, Bool, true, false, not, ◌&&◌, Option, none, some, List, [], ◌∷◌, ◌==◌, ◌<>◌, leb,
  nat_eq, is_none, if◌then◌else◌,
}
use nvidia_converge.Common.Text.{is_digit, is_decimal, span, split_once, after_prefix}
use nvidia_converge.Common.Decimal.{read_int}
use nvidia_converge.Models.{PackageInfo}

-- `CudaCompatStatus`, and `CudaMinorCompatibilityStatus`, which has no `not-applicable`.
pub data CudaCompatStatus : Type 0 where
  compatible not_applicable unsupported unknown : CudaCompatStatus

-- `_CUDA_FORWARD_COMPATIBILITY`: by CUDA version, then by driver branch.
abbrev pub cuda_forward_compatibility : List (String × List (String × CudaCompatStatus))
cuda_forward_compatibility =
    (
      "12.2",
      ("535", not_applicable)
          ∷ ("570", unsupported)
          ∷ ("580", unsupported)
          ∷ ("590", unsupported)
          ∷ ("595", unsupported)
          ∷ ("610", unsupported)
          ∷ [],
    )
    ∷ (
      "12.3",
      ("535", compatible)
          ∷ ("570", unsupported)
          ∷ ("580", unsupported)
          ∷ ("590", unsupported)
          ∷ ("595", unsupported)
          ∷ ("610", unsupported)
          ∷ [],
    )
    ∷ (
      "12.4",
      ("535", compatible)
          ∷ ("570", unsupported)
          ∷ ("580", unsupported)
          ∷ ("590", unsupported)
          ∷ ("595", unsupported)
          ∷ ("610", unsupported)
          ∷ [],
    )
    ∷ (
      "12.5",
      ("535", compatible)
          ∷ ("570", unsupported)
          ∷ ("580", unsupported)
          ∷ ("590", unsupported)
          ∷ ("595", unsupported)
          ∷ ("610", unsupported)
          ∷ [],
    )
    ∷ (
      "12.6",
      ("535", compatible)
          ∷ ("570", unsupported)
          ∷ ("580", unsupported)
          ∷ ("590", unsupported)
          ∷ ("595", unsupported)
          ∷ ("610", unsupported)
          ∷ [],
    )
    ∷ (
      "12.8",
      ("535", compatible)
          ∷ ("570", not_applicable)
          ∷ ("580", unsupported)
          ∷ ("590", unsupported)
          ∷ ("595", unsupported)
          ∷ ("610", unsupported)
          ∷ [],
    )
    ∷ (
      "12.9",
      ("535", compatible)
          ∷ ("570", compatible)
          ∷ ("580", unsupported)
          ∷ ("590", unsupported)
          ∷ ("595", unsupported)
          ∷ ("610", unsupported)
          ∷ [],
    )
    ∷ (
      "13.0",
      ("535", compatible)
          ∷ ("570", compatible)
          ∷ ("580", not_applicable)
          ∷ ("590", unsupported)
          ∷ ("595", unsupported)
          ∷ ("610", unsupported)
          ∷ [],
    )
    ∷ (
      "13.1",
      ("535", compatible)
          ∷ ("570", compatible)
          ∷ ("580", compatible)
          ∷ ("590", not_applicable)
          ∷ ("595", unsupported)
          ∷ ("610", unsupported)
          ∷ [],
    )
    ∷ (
      "13.2",
      ("535", compatible)
          ∷ ("570", compatible)
          ∷ ("580", compatible)
          ∷ ("590", compatible)
          ∷ ("595", not_applicable)
          ∷ ("610", unsupported)
          ∷ [],
    )
    ∷ (
      "13.3",
      ("535", compatible)
          ∷ ("570", compatible)
          ∷ ("580", compatible)
          ∷ ("590", compatible)
          ∷ ("595", compatible)
          ∷ ("610", not_applicable)
          ∷ [],
    )
    ∷ []

-- `_CUDA_MINOR_COMPATIBILITY_MINIMUM_DRIVER`
abbrev pub minimum_drivers : List (String × ℕ)
minimum_drivers = ("12", 525) ∷ ("13", 580) ∷ []

-- `mapping.get(driver_major, "unknown")`
abbrev pub get_status : List (String × CudaCompatStatus) → String → CudaCompatStatus
get_status row driver_major = elim (get row driver_major) [ none ↦ unknown | some status ↦ status ]

abbrev pub status_in :
    List (String × List (String × CudaCompatStatus)) → String → String → CudaCompatStatus
status_in matrix driver_major version = elim (get matrix version) [
  | none ↦ unknown
  | some row ↦ get_status row driver_major
]

unfoldable pub cuda_forward_compatibility_status : String → String → CudaCompatStatus
cuda_forward_compatibility_status driver_major version =
    status_in cuda_forward_compatibility driver_major version

-- `version.partition(".")` and the lookup of what stands in front.
unfoldable pub floor_of_major : String × Option String → Option ℕ
floor_of_major (major, none) = none
floor_of_major (major, some minor) = get minimum_drivers major

unfoldable pub cuda_minor_compatibility_minimum_driver : String → Option ℕ
unfolding floor_of_major split_once
cuda_minor_compatibility_minimum_driver version =
    if is_none (get cuda_forward_compatibility version)
    then none
    else floor_of_major (split_once "." version)

unfoldable pub cuda_minor_compatibility_status : String → String → CudaCompatStatus
unfolding cuda_minor_compatibility_minimum_driver is_decimal
cuda_minor_compatibility_status driver_major version =
    elim (cuda_minor_compatibility_minimum_driver version) [
      | none ↦ unknown
      | some minimum ↦
          if not (is_decimal driver_major)
          then unknown
          else if leb minimum (read_int driver_major)
          then compatible
          else unsupported
    ]

-- `version.replace(".", "-")`
unfoldable pub dots_to_dashes : String → String
dots_to_dashes String.[] = String.[]
dots_to_dashes (String.◌∷◌ c s) =
    String.◌∷◌ (if nat_eq (code c) b'.' then "-" else c) (dots_to_dashes s)

unfoldable pub cuda_compat_package_name : String → String
unfolding dots_to_dashes
cuda_compat_package_name version = "cuda-compat-" <> dots_to_dashes version

-- What follows the prefix in `_CUDA_COMPAT_PACKAGE_PATTERN`: two numbers around a dash.
unfoldable pub dashed_version : String → Option String
unfolding span is_digit after_prefix is_decimal
dashed_version s =
    let (major, tail) = span is_digit s in
    elim (after_prefix tail "-") [
      | none ↦ none
      | some minor ↦
          if not (major == "") && is_decimal minor then some (major <> ("." <> minor)) else none
    ]

unfoldable pub cuda_compat_version_from_package : String → Option String
unfolding dashed_version after_prefix
cuda_compat_version_from_package name = elim (after_prefix name "cuda-compat-") [
  | none ↦ none
  | some version ↦ dashed_version version
]

unfoldable pub is_compat_package : String → PackageInfo → Bool
unfolding cuda_compat_package_name
is_compat_package version p = p.installed && p.name == cuda_compat_package_name version

-- `next((p for p in packages if ...), None)`
unfoldable pub find_cuda_compat_package : String → List PackageInfo → Option PackageInfo
unfolding is_compat_package
find_cuda_compat_package version [] = none
find_cuda_compat_package version (p ∷ packages) =
    if is_compat_package version p then some p else find_cuda_compat_package version packages
