-- ===== src/Common/Floats.antt =====
-- `double`: what the source uses of it. The type and its operations are parameters of the model.
use ihmc_yovariables_cpp.Common.Int.{ℤ}
use mathlib.Core.Path.{◌≡◌}
use mathlib.Core.Bool.{Bool, true, false}

pub record Doubles (D : Type 0) : Type 0 where
  pub eq : D → D → Bool
  pub lt : D → D → Bool
  pub le : D → D → Bool
  pub zero_value : D
  pub infinity : D
  pub neg_infinity : D
  pub add : D → D → D
  pub sub : D → D → D
  pub div : D → D → D
  pub abs : D → D
  pub of_int : ℤ → D

-- The comparisons of IEEE 754 on values that are not NaN: `<=` is a preorder, and `<` its strict
-- part, any two values being comparable.
pub record IsOrdered {D : Type 0} (d : Doubles D) : Type 0 where
  pub le_refl : (a : D) → d.le a a ≡ true
  pub le_trans : (a b c : D) → d.le a b ≡ true → d.le b c ≡ true → d.le a c ≡ true
  pub le_of_lt : (a b : D) → d.lt a b ≡ true → d.le a b ≡ true
  pub le_of_not_lt : (a b : D) → d.lt a b ≡ false → d.le b a ≡ true
