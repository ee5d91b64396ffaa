-- ===== src/Examples/Configs.antt =====
-- desired.py on sample desired states, and what follows for the plans of the planner.
use nvidia_converge.Common.{
  ◌≡◌, ◌↔◌, ◌==◌, refl, inl, true, false, none, some, [], ◌∷◌, ok, value_error,
}
use nvidia_converge.Models.{
  DesiredState, HostAudit, default_desired, driver_major, open_kernel_module,
}
use nvidia_converge.Common.Decimal.{read_int}
use nvidia_converge.CudaCompat.{cuda_minor_compatibility_status}
use nvidia_converge.Config.{
  validate_desired, disallowed_field, container_image_error, is_driver, is_cuda_compat,
  is_container_image, container_cuda_version, is_devel_tag,
  container_cuda_minor_compatibility_status, driver_format,
}
use nvidia_converge.Common.{String, false, if◌then◌else◌}
use nvidia_converge.Common.Text.{lower, has_char}
use nvidia_converge.Config.Quoting.{IsWritten, coerce_scalar-text_value}
use nvidia_converge.Config.Scalar.{
  coerce_scalar, text_value, bool_value, has_quote, coerce_scalar-bool_value,
}
use nvidia_converge.Config.Valid.{IsValid, validate_desired-IsValid}
use nvidia_converge.Doctor.{diagnose}
use nvidia_converge.Planner.Recipe.{package_recipe_error}
use nvidia_converge.Planner.Policy.{
  is_module_stream, dnf_module_stream, package_policy_error, apt_pinning_package,
}
use nvidia_converge.Planner.Plan.{build_plan, plan_refusal, verify_action}
use nvidia_converge.Planner.Locked.{Locked, by_apt}
use nvidia_converge.Planner.Settled.{build_plan-Compliant}
use nvidia_converge.Examples.Program.{planner_program}
use nvidia_converge.Examples.Findings.{compliant_host-Compliant}
use nvidia_converge.Examples.Hosts.{compliant_host, bare_host}

unfoldable program : Unit {0}
unfolding validate_desired disallowed_field container_image_error is_driver is_cuda_compat
    is_container_image container_cuda_version is_devel_tag container_cuda_minor_compatibility_status
    cuda_minor_compatibility_status driver_major read_int ◌==◌
program = tt

default-valid : validate_desired default_desired ≡ none
unfolding program
default-valid = refl

spaced-refused :
    validate_desired (record default_desired { driver = "580 open" }) ≡ some driver_format
unfolding program
spaced-refused = refl

-- A line feed at the end is let through, and the driver is then not an open one.
fed-valid : validate_desired (record default_desired { driver = "580-open\n" }) ≡ none
unfolding program
fed-valid = refl

validate_desired-IsValid_example : IsValid default_desired
validate_desired-IsValid_example = validate_desired-IsValid default_desired default-valid

-- A Rocky Linux host without a driver, and a branch of five digits.
abbrev rocky_host : HostAudit
rocky_host = record bare_host {
  os_id = some "rocky";
  os_version = some "9.4";
  package_manager = some "dnf";
  kernel = record {
    running = "5.14.0-427.el9.x86_64";
    headers_installed = true;
    compiler = some "gcc 11";
    secure_boot_enabled = some true;
  };
  package_policy = record { backend = some "dnf"; observable = true; selectors = [] };
}

abbrev long_branch : DesiredState
long_branch = record default_desired { driver = "58000-open" }

long-valid : validate_desired long_branch ≡ none
unfolding program
long-valid = refl

long-admitted : plan_refusal long_branch rocky_host (diagnose long_branch rocky_host) ≡ none
unfolding planner_program
long-admitted = refl

rocky-readable : package_policy_error rocky_host ≡ none
unfolding planner_program
rocky-readable = refl

long-stream : is_module_stream (dnf_module_stream long_branch) ≡ false
unfolding is_module_stream dnf_module_stream driver_major open_kernel_module ◌==◌
long-stream = refl

-- A valid desired state whose module stream DNF commands do not accept: no plan is returned.
long-raises : build_plan long_branch rocky_host (diagnose long_branch rocky_host) ≡ value_error
unfolding planner_program
long-raises = refl

compliant-recipe : package_recipe_error default_desired compliant_host ≡ none
unfolding planner_program
compliant-recipe = refl

compliant-Locked : Locked default_desired compliant_host
unfolding planner_program apt_pinning_package
compliant-Locked = by_apt refl refl

build_plan-Compliant_example :
    build_plan default_desired compliant_host (diagnose default_desired compliant_host)
    ≡ ok (verify_action ∷ [])
build_plan-Compliant_example =
    build_plan-Compliant default_desired compliant_host default-valid (inl refl)
      compliant_host-Compliant (λ e. cc) compliant-recipe refl refl compliant-Locked

abbrev quoted_true : String
quoted_true = "'true'"

abbrev word : String
word = "true"

quoted-word : coerce_scalar quoted_true ≡ ok (text_value word)
unfolding coerce_scalar lower has_char ◌==◌
quoted-word = refl

bare-word : coerce_scalar "True" ≡ ok (bool_value true)
unfolding coerce_scalar lower has_char ◌==◌
bare-word = refl

mixed-quotes : coerce_scalar "'true\"" ≡ value_error
unfolding coerce_scalar lower has_char ◌==◌
mixed-quotes = refl

coerce_scalar-text_value_example :
    (coerce_scalar quoted_true ≡ ok (text_value word))
    ↔ ((has_quote word ≡ false) × IsWritten word quoted_true)
coerce_scalar-text_value_example = coerce_scalar-text_value quoted_true word

-- The lone quote is accepted, as the empty text.
lone_quote-accepted : coerce_scalar "'" ≡ ok (text_value "")
unfolding coerce_scalar lower has_char ◌==◌
lone_quote-accepted = refl

coerce_scalar-bool_value_example :
    (has_quote "True" ≡ false) × (lower "True" ≡ (if true then "true" else "false"))
coerce_scalar-bool_value_example = coerce_scalar-bool_value "True" true bare-word
