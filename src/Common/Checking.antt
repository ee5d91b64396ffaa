-- ===== src/Common/Checking.antt =====
-- Checks that reject their input with one of several errors.
use mathlib.Core.Path.{◌≡◌, refl}
use mathlib.Core.Bool.{Bool, true, false}

pub data Checked (E A : Type 0) : Type 0 where
  passed : A → Checked E A
  rejected : E → Checked E A

module _ {E A B : Type 0} where
  -- The first check that rejects decides.
  infixl 5 ◌>>=◌
  abbrev pub ◌>>=◌ : Checked E A → (A → Checked E B) → Checked E B
  rejected why >>= next = rejected why
  passed found >>= next = next found

  -- What passed as a whole passed in each part.
  pub split_passed :
      (m : Checked E A) (next : A → Checked E B) {b : B}
      → m >>= next ≡ passed b
      → (found : A) × (m ≡ passed found) × (next found ≡ passed b)
  split_passed (rejected why) next h = cc
  split_passed (passed found) next h = (found, refl, h)

pub passed-injective :
    {E A : Type 0} {a b : A} → ◌≡◌ {A = Checked E A} (passed a) (passed b) → a ≡ b
passed-injective e = cc

abbrev pub is_passed : {E A : Type 0} → Checked E A → Bool
is_passed (passed a) = true
is_passed (rejected why) = false
