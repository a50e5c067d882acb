-- ===== src/Tests/Entries.antt =====
-- Entries of a buffer on small inputs.
use ihmc_yovariables_cpp.Common.{
  ℕ, pos, ◌+◌, ◌%◌, ◌<◌, true, List, [], ◌∷◌, length, get_elem?, none, some, ◌≡◌, refl, arith, inl,
}
use ihmc_yovariables_cpp.Buffer.Bounds.{Bounds, computed, take_in}
use ihmc_yovariables_cpp.Buffer.Array.{get}
use ihmc_yovariables_cpp.Common.Int.{◌+ℤ◌}
use ihmc_yovariables_cpp.Buffer.Bounds.Window.{computed_covers, computed-ignores_end}
use ihmc_yovariables_cpp.Buffer.Entry.{
  swap_data, get_buffer_window, compute_buffer_size_after_cut, crop_buffer, cut_buffer,
  shift_buffer, compute_average,
}
use ihmc_yovariables_cpp.Buffer.Array.{new_array, set_at, copy_loop}
use ihmc_yovariables_cpp.Buffer.Entry.Crop.{crop_buffer-window, shift_buffer_back}
use ihmc_yovariables_cpp.Buffer.Entry.Cut.{without, cut_buffer-keeps, cut_buffer-overrun}
use ihmc_yovariables_cpp.Buffer.Entry.Write.{compute_average-ignores_start}
use ihmc_yovariables_cpp.Tests.Values.{numbers, numbers-IsOrdered, five}

-- The interval goes round the end.
crop_buffer-window_example :
    (xs : List ℕ) × (crop_buffer numbers (pos 3) (pos 0) five ≡ some (pos 3, swap_data xs five))
    × (get_buffer_window (pos 3) (pos 3) five ≡ some xs)
    × (length xs ≡ 3)
crop_buffer-window_example = crop_buffer-window numbers five 3 0 (omega arith) (omega arith)

shift_buffer_back_example :
    (xs : List ℕ) × (shift_buffer numbers (pos 2) five ≡ some (swap_data xs five))
    × ((j : ℕ) → j < 5 → get_elem? xs j ≡ get_elem? five.buffer_data ((j + 2) % 5))
    × (shift_buffer numbers (pos 3) (swap_data xs five) ≡ some (swap_data five.buffer_data five))
shift_buffer_back_example = shift_buffer_back numbers five 2 (omega arith) (omega arith)

cut_buffer-keeps_example :
    (xs : List ℕ) × (cut_buffer numbers (pos 1) (pos 2) five ≡ some (pos 3, swap_data xs five))
    × (length xs ≡ 3)
    × ((j : ℕ) → j < 3 → get_elem? xs j ≡ without numbers five.buffer_data 1 2 j)
cut_buffer-keeps_example =
    cut_buffer-keeps numbers five 1 2 (omega arith) (omega arith) (omega arith)

cut_buffer-overrun_example :
    (new front : List ℕ) × (v : ℕ) × (compute_buffer_size_after_cut (pos 2) (pos 5) (pos 5) ≡ pos 1)
    × (new_array 0 (pos 1) ≡ some new)
    × (copy_loop five.buffer_data pos pos 0 1 new ≡ some front)
    × (length front ≡ 1)
    × (get_elem? five.buffer_data 1 ≡ some v)
    × (set_at front (pos 1) v ≡ none)
    × (cut_buffer numbers (pos 2) (pos 5) five ≡ none)
cut_buffer-overrun_example = cut_buffer-overrun numbers five 2 (omega arith) (omega arith)

compute_average-ignores_start_example :
    compute_average numbers (pos 3) (pos 2) five ≡ compute_average numbers (pos 0) (pos 2) five
compute_average-ignores_start_example = compute_average-ignores_start numbers five 3 2 (omega arith)

-- The window from 1 to 4, without its end.
abbrev window : Bounds ℕ
window = record { start_index = pos 1; end_index = pos 4; lower_bound = 11; upper_bound = 13 }

computed_five : computed numbers (pos 1) (pos 4) five.buffer_data ≡ some window
unfolding computed get ◌+ℤ◌ take_in
computed_five = refl

computed_covers_example : (numbers.le 11 12 ≡ true) × (numbers.le 12 13 ≡ true)
computed_covers_example =
    computed_covers numbers numbers-IsOrdered five.buffer_data 1 4 2 window 12 computed_five
      (inl (omega arith, omega arith)) refl

computed-ignores_end_example :
    computed numbers (pos 1) (pos 3) (10 ∷ 11 ∷ 12 ∷ 99 ∷ 14 ∷ [])
    ≡ computed numbers (pos 1) (pos 3) five.buffer_data
computed-ignores_end_example =
    computed-ignores_end numbers five.buffer_data 1 3 99 (omega arith) (omega arith)
