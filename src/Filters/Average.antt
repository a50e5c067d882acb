-- ===== src/Filters/Average.antt =====
-- src/filters/simple_moving_average_filtered_yo_variable.cpp. `none` is an access out of bounds or
-- an allocation of a negative size.
pub mod Mean
use ihmc_yovariables_cpp.Common.{
  ℕ, ℤ, pos, pos_part, zero, suc, ◌+◌, ◌-◌, ◌≤◌, ◌<◌, ◌+ℤ◌, ◌≤ℤ◌, ◌<ℤ◌, add-pos, ltb_ℤ, leb_ℤ,
  eqb_ℤ, if◌then◌else◌, Bool, true, false, not, List, [], ◌∷◌, length, length-set, length-replicate,
  get_elem?, set, replicate, Option, none, some, ◌>>=◌, ◌≡◌, refl, sym, ap, ◌∙◌, arith, Doubles,
  Bool-cases, inl, inr, if_true, if_false, get_elem?-some,
}
use ihmc_yovariables_cpp.Buffer.Array.{new_array, get, set_at}

pub record Filter (D : Type 0) : Type 0 where
  pub value : D
  pub window_size : ℤ
  pub previous_update_values : List D
  pub buffer_position : ℤ
  pub buffer_has_been_filled : Bool

module _ {D : Type 0} (d : Doubles D) where
  unfoldable pub reset : Filter D → Option (Filter D)
  reset f = do
    values ← new_array d.zero_value f.window_size
    some (record f {
      buffer_position = pos 0;
      buffer_has_been_filled = false;
      previous_update_values = values;
    })

  unfoldable pub new_filter : ℤ → Option (Filter D)
  new_filter window = do
    values ← new_array d.zero_value window
    some (record {
      value = d.zero_value;
      window_size = window;
      previous_update_values = values;
      buffer_position = pos 0;
      buffer_has_been_filled = false;
    })

  unfoldable pub set_window_size : ℤ → Filter D → Option (Filter D)
  set_window_size window f = reset (record f { window_size = window })

  -- The loop that adds up the `n` values from the `i`-th on.
  unfoldable pub sum_loop : List D → ℤ → ℕ → D → Option D
  sum_loop values i zero sum = some sum
  sum_loop values i (suc n) sum = do v ← get values i; sum_loop values (i +ℤ pos 1) n (d.add sum v)

  unfoldable pub update : D → Filter D → Option (Filter D)
  unfolding reset sum_loop
  update v f = do
    f' ← if eqb_ℤ (pos (length f.previous_update_values)) f.window_size then some f else reset f
    values ← set_at f'.previous_update_values f'.buffer_position v
    let next = f'.buffer_position +ℤ pos 1
    let at_end = leb_ℤ f'.window_size next
    let position = if at_end then pos 0 else next
    let filled = if at_end then true else f'.buffer_has_been_filled
    sum ← sum_loop values (pos 0) (pos_part f'.window_size) d.zero_value
    some (record f' {
      value = d.div sum (d.of_int (if filled then f'.window_size else position));
      previous_update_values = values;
      buffer_position = position;
      buffer_has_been_filled = filled;
    })
