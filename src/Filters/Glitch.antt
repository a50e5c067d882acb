-- ===== src/Filters/Glitch.antt =====
-- src/filters/glitch_filtered_yo_boolean.cpp and src/filters/glitch_filtered_yo_integer.cpp. The
-- fields are the values of the filter's variables; an `int` that would overflow is a fault.
pub mod Switch
pub mod Count
pub mod Steady
use ihmc_yovariables_cpp.Common.{
  ℤ, pos, ◌+ℤ◌, ltb_ℤ, leb_ℤ, eqb_ℤ, if◌then◌else◌, Bool, true, false, not, List, [], ◌∷◌, Option,
  none, some, ◌>>=◌, ◌>>◌, require,
}

-- `std::numeric_limits<int>::max()`
abbrev pub int_max : ℤ
int_max = pos 2147483647

abbrev pub same_bool : Bool → Bool → Bool
same_bool true b = b
same_bool false b = not b

abbrev pub increment : ℤ → Option ℤ
increment n = if ltb_ℤ n int_max then some (n +ℤ pos 1) else none

-- The updates of a filter, one after the other.
abbrev pub feed {ℓ κ} : {A : Type ℓ} {F : Type κ} → (A → F → Option F) → List A → F → Option F
feed update [] f = some f
feed update (x ∷ xs) f = update x f >>= feed update xs
