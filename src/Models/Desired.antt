-- ===== src/Models/Desired.antt =====
-- `DesiredState` of nvidia_converge/models.py and its derived properties.
use nvidia_converge.Common.{
  String, Bool, false, not, ◌&&◌, ◌||◌, Option, none, some, ◌==◌, if◌then◌else◌, starts_with,
}
use nvidia_converge.Common.Text.{is_digit, span, split_once, has_char, ends_with}

pub record DesiredState : Type 0 where
  pub role : String
  pub driver : String
  pub cuda_compat : String
  pub secure_boot : String
  pub container_runtime : String
  pub container_test_image : String
  pub fabric_manager : Bool
  pub mig : String
  pub mig_profile : String
  pub kernel_policy : String

-- `DesiredState()`
abbrev pub default_desired : DesiredState
default_desired = record {
  role = "compute";
  driver = "580-open";
  cuda_compat = "none";
  secure_boot = "signed";
  container_runtime = "docker";
  container_test_image =
      "nvidia/cuda:13.1.2-devel-ubuntu22.04@sha256:d8332c008e2ef270e82d286e5245e771f839645683075bba21ad9e4fa59dbcbb";
  fabric_manager = false;
  mig = "disabled";
  mig_profile = "none";
  kernel_policy = "pin-compatible";
}

-- `driver_major`: the leading digits, or what stands before the first dash.
unfoldable pub driver_major : DesiredState → String
unfolding span is_digit split_once
driver_major d =
    let (major, rest) = span is_digit d.driver in
    if major == "" then (split_once "-" d.driver).0 else major

unfoldable pub open_kernel_module : DesiredState → Bool
unfolding ends_with
open_kernel_module d = ends_with d.driver "-open"

unfoldable pub exact_driver_version : DesiredState → Bool
unfolding has_char
exact_driver_version d = has_char "." d.driver

-- `re.match(r"^(\d+)(?:\.|$)", version)` and the test of its group. `$` also matches in front of a
-- line feed at the end.
unfoldable pub matches_branch : String → String → Bool
unfolding span is_digit
matches_branch major version =
    let (branch, rest) = span is_digit version in
    not (branch == "") && (rest == "" || rest == "\n" || starts_with rest ".") && branch == major

unfoldable pub matches_driver_version : DesiredState → Option String → Bool
unfolding driver_major exact_driver_version matches_branch
matches_driver_version d none = false
matches_driver_version d (some version) =
    if version == ""
    then false
    else if exact_driver_version d
    then version == d.driver
    else matches_branch (driver_major d) version
