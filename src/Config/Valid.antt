-- ===== src/Config/Valid.antt =====
-- desired.py: what holds of a desired state that `_validate_desired` lets pass.
use nvidia_converge.Common.{
  ◌≡◌, refl, ◌⊎◌, inl, inr, String, Bool, true, false, none, ◌==◌, arith, ==_iff, ==_self,
  Bool-cases, if◌then◌else◌,
}
use Prim.Native.Char.{Char}
use nvidia_converge.Common.Text.{is_digit, span, is_decimal}
use nvidia_converge.Models.{DesiredState, driver_major}
use nvidia_converge.CudaCompat.{compatible, cuda_minor_compatibility_status}
use nvidia_converge.Config.{
  number, is_driver, validate_desired, disallowed_field, container_image_error,
  container_cuda_minor_compatibility_status,
}

-- What a span takes is taken again as a whole.
span-taken : (p : Char → Bool) (s : String) → span p (span p s).0 ≡ ((span p s).0, "")
unfolding span
span-taken p String.[] = refl
span-taken p (String.◌∷◌ c s) = elim (Bool-cases (p c)) [
  | inl good ↦ rw (good, good, span-taken p s) refl
  | inr bad ↦ rw bad refl
]

digits-is_decimal :
    (s : String) → ((span is_digit s).0 == "") ≡ false → is_decimal (span is_digit s).0 ≡ true
unfolding is_decimal
digits-is_decimal s h = rw (span-taken is_digit s) (ground (arith, ==_self ""))

-- The branch of a driver that matches the pattern is a number.
pub is_driver-is_decimal :
    (d : DesiredState) → is_driver d.driver ≡ true → is_decimal (driver_major d) ≡ true
unfolding is_driver number driver_major
is_driver-is_decimal d h = ground (arith, digits-is_decimal d.driver)

-- A desired state that the rest of the program can rely on.
pub record IsValid (d : DesiredState) : Type 0 where
  pub runtime : d.container_runtime ≡ "docker"
  pub kernel_policy : d.kernel_policy ≡ "pin-compatible"
  pub no_compat : d.cuda_compat ≡ "none"
  pub mode : (d.mig ≡ "enabled") ⊎ (d.mig ≡ "disabled")
  pub profile : d.mig_profile ≡ (if d.mig == "enabled" then "full" else "none")
  pub branch : is_decimal (driver_major d) ≡ true
  pub native : container_cuda_minor_compatibility_status d ≡ compatible

allowed-docker : (d : DesiredState) → disallowed_field d ≡ none → d.container_runtime ≡ "docker"
unfolding disallowed_field
allowed-docker d h = ground (arith, ==_iff d.container_runtime "docker")

allowed-kernel_policy :
    (d : DesiredState) → disallowed_field d ≡ none → d.kernel_policy ≡ "pin-compatible"
unfolding disallowed_field
allowed-kernel_policy d h = ground (arith, ==_iff d.kernel_policy "pin-compatible")

allowed-mode :
    (d : DesiredState) → disallowed_field d ≡ none → (d.mig ≡ "enabled") ⊎ (d.mig ≡ "disabled")
unfolding disallowed_field
allowed-mode d h = ground (arith, ==_iff d.mig "enabled", ==_iff d.mig "disabled")

image-native :
    (d : DesiredState)
    → container_image_error d ≡ none
    → container_cuda_minor_compatibility_status d ≡ compatible
unfolding container_image_error container_cuda_minor_compatibility_status
    cuda_minor_compatibility_status
image-native d h = ground arith

-- A desired state that is not refused selects Docker and the pinning policy, no CUDA compatibility
-- package, and a definite MIG mode with its profile; the branch of its driver is a number, and runs
-- the CUDA version of its container image natively.
pub validate_desired-IsValid : (d : DesiredState) → validate_desired d ≡ none → IsValid d
unfolding validate_desired
validate_desired-IsValid d h = record {
  runtime = allowed-docker d (ground arith);
  kernel_policy = allowed-kernel_policy d (ground arith);
  no_compat = ground (arith, ==_iff d.cuda_compat "none");
  mode = allowed-mode d (ground arith);
  profile = ground (arith, ==_iff d.mig_profile (if d.mig == "enabled" then "full" else "none"));
  branch = is_driver-is_decimal d (ground arith);
  native = image-native d (ground arith);
}
