-- ===== src/Floats.antt =====
-- C `double`: a type with the operations that the sources apply to it. IEEE arithmetic itself is
-- not modelled: `IsIeee` names the facts about it that a theorem uses.
pub mod Scaled
use edgeflow_energy_gateway.Text.{CString}
use edgeflow_energy_gateway.Common.{ℕ, Bool, true, false, ◌≡◌}

pub record Floats : Type 1 where
  pub Double : Type 0
  -- `a < b` and `a <= b`; both are false where an operand is a NaN
  pub lt : Double → Double → Bool
  pub le : Double → Double → Bool
  pub add : Double → Double → Double
  pub sub : Double → Double → Double
  pub mul : Double → Double → Double
  pub neg : Double → Double
  -- the conversion of an unsigned integer, and the constant `m / 10 ^ k`
  pub of_ℕ : ℕ → Double
  pub decimal : ℕ → ℕ → Double
  -- the conversion to an unsigned integer of so many bits, which C defines within its range
  pub to_uint : ℕ → Double → ℕ
  -- what `printf` writes for "%.4f"
  pub fixed4 : Double → CString

-- Comparisons, and a difference under gradual underflow: if b < a then 0 < a - b.
pub record IsIeee (f : Floats) : Type 0 where
  pub lt_irrefl : (a : f.Double) → f.lt a a ≡ false
  pub lt_asym : (a b : f.Double) → f.lt a b ≡ true → f.lt b a ≡ false
  pub zero-le-zero : f.le (f.of_ℕ 0) (f.of_ℕ 0) ≡ true
  pub gt-not-le : (a b : f.Double) → f.lt b a ≡ true → f.le a b ≡ false
  pub sub_pos : (a b : f.Double) → f.lt b a ≡ true → f.lt (f.of_ℕ 0) (f.sub a b) ≡ true
