-- ===== src/Filters/Glitch/Switch.antt =====
-- src/filters/glitch_filtered_yo_boolean.cpp
use ihmc_yovariables_cpp.Common.{
  ℤ, pos, ltb_ℤ, leb_ℤ, if◌then◌else◌, Bool, false, Option, none, some, ◌>>=◌,
}
use ihmc_yovariables_cpp.Filters.Glitch.{same_bool, increment}

pub record Filter : Type 0 where
  pub value : Bool
  pub counter : ℤ
  pub window_size : ℤ

-- The constructor: a negative window is refused, and the value is set to false in the end.
unfoldable pub new_filter : ℤ → Option Filter
new_filter window =
    if ltb_ℤ window (pos 0)
    then none
    else some (record { value = false; counter = pos 0; window_size = window })

unfoldable pub set_value : Bool → Filter → Filter
set_value v f = record f { value = v; counter = pos 0 }

unfoldable pub update : Bool → Filter → Option Filter
unfolding set_value
update v f = do
  count ← if same_bool v f.value then some (pos 0) else increment f.counter
  let counted = record f { counter = count }
  if leb_ℤ f.window_size count then some (set_value v counted) else some counted

unfoldable pub set_window_size : ℤ → Filter → Filter
set_window_size window f = record f { window_size = window }
