-- ===== src/CudaCompat/Matrix.antt =====
-- cuda_compat.py: the forward-compatibility matrix against the branch that each CUDA version ships with.
use nvidia_converge.Common.{
  get, ℕ, String, ◌≡◌, ◌↔◌, refl, not, Bool, true, false, ◌&&◌, some, List, [], ◌∷◌, ◌==◌, ltb,
  nat_eq, contains, all, arith, ==_iff, not, Bool-cases, if◌then◌else◌, inl, inr, is_none,
}
use mathlib.Core.Path.{ap₂}
use nvidia_converge.Common.Sets.{all-contains}
use nvidia_converge.Common.Decimal.{read_int}
use nvidia_converge.CudaCompat.{
  CudaCompatStatus, compatible, not_applicable, unsupported, unknown,
  cuda_forward_compatibility_status,
}

-- The driver branch that a CUDA version ships with.
abbrev pub native_branches : List (String × ℕ)
native_branches =
    ("12.2", 535)
    ∷ ("12.3", 545)
    ∷ ("12.4", 550)
    ∷ ("12.5", 555)
    ∷ ("12.6", 560)
    ∷ ("12.8", 570)
    ∷ ("12.9", 575)
    ∷ ("13.0", 580)
    ∷ ("13.1", 590)
    ∷ ("13.2", 595)
    ∷ ("13.3", 610)
    ∷ []

abbrev pub driver_branches : List String
driver_branches = "535" ∷ "570" ∷ "580" ∷ "590" ∷ "595" ∷ "610" ∷ []

-- Older drivers need the compatibility package, the native one does not, newer ones cannot use it.
abbrev pub by_branch : ℕ → ℕ → CudaCompatStatus
by_branch driver native =
    if ltb driver native
    then compatible
    else if nat_eq driver native
    then not_applicable
    else unsupported

abbrev status_eq : CudaCompatStatus → CudaCompatStatus → Bool
status_eq compatible compatible = true
status_eq not_applicable not_applicable = true
status_eq unsupported unsupported = true
status_eq unknown unknown = true
status_eq _ _ = false

status_eq_sound : (s t : CudaCompatStatus) → status_eq s t ≡ true → s ≡ t
status_eq_sound s t h = ground arith

-- Every entry that the table can be asked for is the one of the branches.
abbrev agrees : String × ℕ → String → Bool
agrees (version, native) driver =
    status_eq (cuda_forward_compatibility_status driver version)
      (by_branch (read_int driver) native)

table-agrees : all (λ entry. all (agrees entry) driver_branches) native_branches ≡ true
unfolding cuda_forward_compatibility_status ◌==◌ read_int
table-agrees = refl

some-injective {ℓ} : {A : Type ℓ} {a b : A} → some a ≡ some b → a ≡ b
some-injective e = cc

all-get {ℓ} :
    {A : Type ℓ} (p : String × A → Bool) (mapping : List (String × A)) (key : String) {a : A}
    → all p mapping ≡ true
    → get mapping key ≡ some a
    → p (key, a) ≡ true
all-get p [] key every found = cc
all-get p ((k, b) ∷ mapping) key {a} every found = elim (Bool-cases (k == key)) [
  | inl same ↦
      let value : b ≡ a = some-injective (ground arith) in
      ground (arith, ap₂ (λ x y. p (x, y)) ((==_iff k key).0 same) value)
  | inr other ↦ all-get p mapping key (ground arith) (ground arith)
]

-- The status of a driver branch for a CUDA version is decided by the branch that the version ships
-- with: compatible for an older driver, not applicable for that one, and unsupported for a newer one.
pub forward_compatibility-by_branch :
    (driver version : String) (native : ℕ)
    → contains driver_branches driver ≡ true
    → get native_branches version ≡ some native
    → cuda_forward_compatibility_status driver version ≡ by_branch (read_int driver) native
forward_compatibility-by_branch driver version native listed shipped = status_eq_sound _ _ (
    all-contains (agrees (version, native)) driver_branches driver
      (all-get (λ entry. all (agrees entry) driver_branches) native_branches version table-agrees
        shipped)
      listed)

-- Nothing outside the table has a status, and everything in it has one.
pub forward_compatibility_unknown :
    (driver version : String)
    → (cuda_forward_compatibility_status driver version ≡ unknown)
      ↔ ((contains driver_branches driver && not (is_none (get native_branches version))) ≡ false)
unfolding cuda_forward_compatibility_status
forward_compatibility_unknown driver version = (λ e. ground arith, λ e. ground arith)
