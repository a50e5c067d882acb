-- ===== src/Tests/Enums.antt =====
-- Enum variables on small inputs. The letters a and b are 97 and 98.
use ihmc_yovariables_cpp.Common.{ℕ, ℤ, pos, negsuc, Bool, true, [], ◌∷◌, some, ◌≡◌, refl}
use ihmc_yovariables_cpp.Registry.Namespace.{equals_ignore_case}
use ihmc_yovariables_cpp.Variable.Cell.{assign}
use ihmc_yovariables_cpp.Variable.Enum.{
  EnumType, YoEnum, is_in_bounds, set_ordinal, check_if_backed_by_enum, set, get_enum_value,
  get_string_value, parse_value, set_value_from_double,
}
use ihmc_yovariables_cpp.Variable.Enum.Ordinal.{
  IsValid, set_value_from_double-IsValid, get_enum_value-set,
}
use ihmc_yovariables_cpp.Variable.Enum.Strings.{parse_value-get_string_value}

abbrev same_letter : ℕ → ℕ
same_letter c = c

-- An enum whose constants A and B have the integers 1 and 2.
abbrev from_one : EnumType
from_one = record {
  is_backed_by_enum = true;
  allow_null_value = true;
  enum_values = pos 1 ∷ pos 2 ∷ [];
  enum_values_as_string = (97 ∷ []) ∷ (98 ∷ []) ∷ [];
}

abbrev at_ordinal : ℤ → YoEnum
at_ordinal o = record { enum_type = from_one; ordinal = record { value = o; notified = 0 } }

one-IsValid : IsValid (at_ordinal (pos 1))
unfolding is_in_bounds
one-IsValid = refl

set_value_from_double-IsValid_example :
    (changed : Bool) × (t : YoEnum) × (set_value_from_double
        (λ z. z)
        (λ z. z)
        (pos 9)
        true
        (at_ordinal (pos 1))
      ≡ some (changed, t))
    × IsValid t
set_value_from_double-IsValid_example =
    set_value_from_double-IsValid (λ z. z) (λ z. z) (pos 9) true (at_ordinal (pos 1)) one-IsValid

-- Setting A, whose integer is 1, makes the value B.
set_first :
    set (some (pos 1)) true (at_ordinal (negsuc 0))
    ≡ some (true, record { enum_type = from_one; ordinal = record { value = pos 1; notified = 1 } })
unfolding set check_if_backed_by_enum set_ordinal is_in_bounds assign
set_first = refl

get_enum_value-set_example :
    get_enum_value
      (record { enum_type = from_one; ordinal = record { value = pos 1; notified = 1 } })
    ≡ some (pos 2)
get_enum_value-set_example =
    get_enum_value-set 1 true true (at_ordinal (negsuc 0))
      (record { enum_type = from_one; ordinal = record { value = pos 1; notified = 1 } }) set_first

parse_value-get_string_value_example :
    (changed : Bool) × (u : YoEnum) × (parse_value same_letter
        (98 ∷ [])
        true
        (at_ordinal (negsuc 0))
      ≡ some (changed, u))
    × (u.ordinal.value ≡ pos 1)
unfolding get_string_value equals_ignore_case
parse_value-get_string_value_example =
    parse_value-get_string_value same_letter (at_ordinal (pos 1)) (at_ordinal (negsuc 0)) (98 ∷ [])
      true one-IsValid refl refl refl refl refl
