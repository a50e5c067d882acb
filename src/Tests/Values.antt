-- ===== src/Tests/Values.antt =====
-- The inputs: natural numbers for doubles, a store with one variable's value, small buffers.
use ihmc_yovariables_cpp.Common.{
  ℕ, ℤ, pos, negsuc, pos_part, ◌+◌, ◌-◌, ◌/◌, ltb, leb, ◌==◌, true, false, List, [], ◌∷◌, arith,
  Doubles, IsOrdered,
}
use ihmc_yovariables_cpp.Variables.{Variables}
use ihmc_yovariables_cpp.Buffer.KeyPoints.{Handler}
use ihmc_yovariables_cpp.Buffer.Bounds.{Bounds}
use ihmc_yovariables_cpp.Buffer.Entry.{Entry}
use ihmc_yovariables_cpp.Buffer.Ring.{Buffer}
use ihmc_yovariables_cpp.Buffer.Ring.Process.{Processor}

abbrev pub numbers : Doubles ℕ
numbers = record {
  eq = ◌==◌;
  lt = ltb;
  le = leb;
  zero_value = 0;
  infinity = 1000;
  neg_infinity = 0;
  add = ◌+◌;
  sub = ◌-◌;
  div = ◌/◌;
  abs = λ x. x;
  of_int = pos_part;
}

pub numbers-IsOrdered : IsOrdered numbers
numbers-IsOrdered = record {
  le_refl = λ a. ground arith;
  le_trans = λ a b c h k. ground arith;
  le_of_lt = λ a b h. ground arith;
  le_of_not_lt = λ a b h. ground arith;
}

-- Every address stands for the one variable.
abbrev pub one_cell : Variables ℕ ℕ
one_cell = record { get_value_as_double = λ s v. s; set_value_from_double = λ s v x. x }

abbrev pub no_bounds : Bounds ℕ
no_bounds = record {
  start_index = negsuc 0;
  end_index = negsuc 0;
  lower_bound = 1000;
  upper_bound = 0;
}

abbrev pub holds : List ℕ → Entry ℕ
holds xs = record {
  variable = 7;
  buffer_data = xs;
  current_bounds = no_bounds;
  bounds_changed = true;
  bounds_dirty = true;
  use_custom_bounds = false;
  custom_bounds = no_bounds;
  inverted = false;
}

abbrev pub five : Entry ℕ
five = holds (10 ∷ 11 ∷ 12 ∷ 13 ∷ 14 ∷ [])

abbrev pub marked : List ℤ → Handler
marked ks = record { enable_key_points = true; key_points = ks; listeners = 3 ∷ []; log = [] }

-- At index 4, with the interval from 1 to 3.
abbrev pub ring : Buffer ℕ ℕ
ring = record {
  in_point = pos 1;
  out_point = pos 3;
  current_index = pos 4;
  buffer_size = pos 5;
  entries = five ∷ [];
  simple_name_to_entries_map = (120 ∷ [], 7 ∷ []) ∷ [];
  key_points_handler = marked (pos 0 ∷ pos 2 ∷ []);
  index_changed_listeners = 9 ∷ [];
  lock_index = false;
  store = 42;
  index_log = [];
}

-- Adds one to what it finds.
abbrev pub adds_one : Processor ℕ
adds_one = record { go_forward = true; initialize = λ s. s; process = λ start end i s. s + 1 }
