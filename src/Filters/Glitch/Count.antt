-- ===== src/Filters/Glitch/Count.antt =====
-- src/filters/glitch_filtered_yo_integer.cpp, with its value as an `int`.
use ihmc_yovariables_cpp.Common.{ℤ, pos, leb_ℤ, eqb_ℤ, if◌then◌else◌, Option, some, ◌>>=◌}
use ihmc_yovariables_cpp.Filters.Glitch.{increment}

pub record Filter : Type 0 where
  pub value : ℤ
  pub previous_position : ℤ
  pub counter : ℤ
  pub window_size : ℤ

unfoldable pub set_value : ℤ → Filter → Filter
set_value v f = record f { value = v; counter = pos 0 }

unfoldable pub update : ℤ → Filter → Option Filter
unfolding set_value
update v f = do
  count ← if eqb_ℤ v f.previous_position then increment f.counter else some (pos 0)
  let counted = record f { counter = count }
  let settled = if leb_ℤ f.window_size count then set_value v counted else counted
  some (record settled { previous_position = v })
