-- ===== src/Tests/Filters.antt =====
-- Filters and integer variables on small inputs.
use ihmc_yovariables_cpp.Common.{
  ℕ, ℤ, pos, negsuc, if◌then◌else◌, true, false, [], ◌∷◌, Option, some, ◌≡◌, refl, arith,
}
use ihmc_yovariables_cpp.Filters.Glitch.{feed}
use ihmc_yovariables_cpp.Filters.Glitch.Switch
use ihmc_yovariables_cpp.Filters.Glitch.Steady.{switch_at, glitch_is_filtered}
use ihmc_yovariables_cpp.Filters.Delayed
use ihmc_yovariables_cpp.Filters.Delayed.{holding, feed-delays}
use ihmc_yovariables_cpp.Filters.Average
use ihmc_yovariables_cpp.Filters.Average.Mean.{IsAt, update-IsAt}
use ihmc_yovariables_cpp.Variable.Integer.{YoInteger}
use ihmc_yovariables_cpp.Tests.Values.{numbers}

glitch_is_filtered_example :
    feed Switch.update (true ∷ true ∷ false ∷ []) (switch_at false 0 3) ≡ some (switch_at false 0 3)
glitch_is_filtered_example = glitch_is_filtered false 2 3 (omega arith) (omega arith)

feed-delays_example :
    ◌≡◌ {A = Option ℕ}
      (some 21)
      (some (Delayed.feed (21 ∷ 22 ∷ 23 ∷ []) (holding 0 (1 ∷ 2 ∷ []))).value)
feed-delays_example = feed-delays (21 ∷ 22 ∷ []) 23 (holding 0 (1 ∷ 2 ∷ []))

-- A window of two values, of which one has been written.
abbrev half : Average.Filter ℕ
half = record {
  value = 6;
  window_size = pos 2;
  previous_update_values = 6 ∷ 0 ∷ [];
  buffer_position = pos 1;
  buffer_has_been_filled = false;
}

half-IsAt : IsAt numbers 2 1 half
half-IsAt = record { of_window = refl; of_length = refl; at_place = refl; inside = omega arith }

update-IsAt_example :
    (f' : Average.Filter ℕ) × (Average.update numbers 8 half ≡ some f')
    × IsAt numbers 2 0 f'
    × (f'.previous_update_values ≡ 6 ∷ 8 ∷ [])
    × (f'.buffer_has_been_filled ≡ true)
    × (f'.value
        ≡ numbers.div 14 (numbers.of_int (if f'.buffer_has_been_filled then pos 2 else pos 2)))
update-IsAt_example = update-IsAt numbers 2 1 8 half half-IsAt

abbrev whole : ℤ → ℤ
whole z = z

abbrev minus_five : YoInteger
minus_five = record { value = negsuc 4; notified = 0 }

abbrev seven : YoInteger
seven = record { value = pos 7; notified = 3 }
