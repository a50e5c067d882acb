-- ===== src/Variables.antt =====
-- The variables that a buffer records: the virtual `getValueAsDouble` and `setValueFromDouble` of
-- include/ihmc/yovariables/variable/yo_variable.h, as an interface over a store that holds the value
-- of each variable under its address.
use ihmc_yovariables_cpp.Common.{ℕ}

pub record Variables (D S : Type 0) : Type 0 where
  pub get_value_as_double : S → ℕ → D
  pub set_value_from_double : S → ℕ → D → S
