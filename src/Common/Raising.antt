-- ===== src/Common/Raising.antt =====
-- Functions that may raise Python's `ValueError`.
use mathlib.Core.Path.{◌≡◌, refl}

pub data Result {ℓ} (A : Type ℓ) : Type ℓ where
  ok : A → Result A
  value_error : Result A

module _ {ℓ κ} {A : Type ℓ} {B : Type κ} where
  -- What follows a call that raised is not run.
  infixl 5 ◌>>=◌
  abbrev pub ◌>>=◌ : Result A → (A → Result B) → Result B
  value_error >>= next = value_error
  ok value >>= next = next value

  -- A run without exception has a first call without exception.
  pub >>=-eq-ok :
      (first : Result A) (next : A → Result B) {b : B}
      → first >>= next ≡ ok b
      → (value : A) × (first ≡ ok value) × (next value ≡ ok b)
  >>=-eq-ok value_error next raised = cc
  >>=-eq-ok (ok value) next returned = (value, refl, returned)
