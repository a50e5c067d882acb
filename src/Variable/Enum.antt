-- ===== src/Variable/Enum.antt =====
-- include/ihmc/yovariables/variable/yo_enum.h. A constant of the enum type is its underlying
-- integer, which `static_cast<int>` gives; the list of the constants, which `magic_enum::enum_values`
-- gives, and their names are arguments of the constructor. `none` is an exception, or an access out
-- of bounds.
pub mod Ordinal
pub mod Strings
use ihmc_yovariables_cpp.Common.{
  ℕ, ℤ, pos, negsuc, zero, suc, ◌+◌, ◌-◌, ◌==◌, ltb_ℤ, leb_ℤ, eqb_ℤ, ◌-ℤ◌, if◌then◌else◌, Bool,
  true, false, not, ◌&&◌, ◌||◌, List, [], ◌∷◌, length, get_elem?, map, Option, none, some, ◌>>=◌,
  ◌>>◌, require,
}
use ihmc_yovariables_cpp.Registry.Names.{Name, eq_name, is_empty, same_by}
use ihmc_yovariables_cpp.Registry.Namespace.{equals_ignore_case}
use ihmc_yovariables_cpp.Variable.Integer.{to_int32}
use ihmc_yovariables_cpp.Variable.Cell.{Cell, assign}

-- What the constructor fixes.
pub record EnumType : Type 0 where
  pub is_backed_by_enum : Bool
  pub allow_null_value : Bool
  pub enum_values : List ℤ
  pub enum_values_as_string : List Name

pub record YoEnum : Type 0 where
  pub enum_type : EnumType
  pub ordinal : Cell ℤ

-- `NULL_VALUE`
abbrev pub null_value : ℤ
null_value = negsuc 0

-- "null"
abbrev pub null_value_string : Name
null_value_string = 110 ∷ 117 ∷ 108 ∷ 108 ∷ []

abbrev pub is_null_ordinal : YoEnum → Bool
is_null_ordinal s = eqb_ℤ s.ordinal.value null_value

unfoldable pub get_enum_size : YoEnum → ℤ
get_enum_size s = pos (length s.enum_type.enum_values_as_string)

-- Whether `checkBounds` accepts an ordinal.
unfoldable pub is_in_bounds : EnumType → ℤ → Bool
is_in_bounds t o = not (
    (ltb_ℤ o (pos 0) && not (t.allow_null_value && eqb_ℤ o null_value))
    || leb_ℤ (pos (length t.enum_values_as_string)) o)

unfoldable pub set_ordinal : ℤ → Bool → YoEnum → Option (Bool × YoEnum)
unfolding is_in_bounds assign
set_ordinal o notify s =
    require (is_in_bounds s.enum_type o)
    >> (let (changed, cell) = assign eqb_ℤ o notify s.ordinal in
        some (changed, record s { ordinal = cell }))

-- An element at an integer index.
abbrev pub at {ℓ} : {A : Type ℓ} → List A → ℤ → Option A
at xs (pos i) = get_elem? xs i
at xs (negsuc i) = none

unfoldable pub check_if_backed_by_enum : YoEnum → Option (Unit {0})
check_if_backed_by_enum s = require s.enum_type.is_backed_by_enum

unfoldable pub value_equals : Option ℤ → YoEnum → Option Bool
unfolding check_if_backed_by_enum
value_equals v s =
    check_if_backed_by_enum s
    >> some (elim v [
      | none ↦ is_null_ordinal s
      | some e ↦ not (is_null_ordinal s) && eqb_ℤ e s.ordinal.value
    ])

-- The inner `none` is null.
unfoldable pub get_enum_value_or_null : YoEnum → Option (Option ℤ)
unfolding check_if_backed_by_enum
get_enum_value_or_null s =
    check_if_backed_by_enum s
    >> (if is_null_ordinal s
        then some none
        else at s.enum_type.enum_values s.ordinal.value >>= λ e. some (some e))

unfoldable pub get_enum_value : YoEnum → Option ℤ
unfolding get_enum_value_or_null
get_enum_value s = get_enum_value_or_null s >>= λ v. v

-- `set` of a constant, or of null.
unfoldable pub set : Option ℤ → Bool → YoEnum → Option (Bool × YoEnum)
unfolding check_if_backed_by_enum set_ordinal
set v notify s = check_if_backed_by_enum s >> elim v [
  | none ↦ require s.enum_type.allow_null_value >> set_ordinal null_value notify s
  | some e ↦ set_ordinal e notify s
]

unfoldable pub get_string_value : YoEnum → Option Name
get_string_value s =
    if is_null_ordinal s
    then some null_value_string
    else at s.enum_type.enum_values_as_string s.ordinal.value

abbrev pub min_ℤ : ℤ → ℤ → ℤ
min_ℤ a b = if ltb_ℤ b a then b else a

abbrev pub max_ℤ : ℤ → ℤ → ℤ
max_ℤ a b = if ltb_ℤ a b then b else a

-- The ordinal that a rounded double stands for.
unfoldable pub clamp_ordinal : ℤ → YoEnum → ℤ
unfolding get_enum_size
clamp_ordinal o s =
    max_ℤ (min_ℤ o (get_enum_size s -ℤ pos 1))
      (if s.enum_type.allow_null_value then null_value else pos 0)

unfoldable pub get_value_as_long_bits : YoEnum → ℤ
get_value_as_long_bits s = s.ordinal.value

unfoldable pub set_value_from_long_bits : ℤ → Bool → YoEnum → Option (Bool × YoEnum)
unfolding set_ordinal
set_value_from_long_bits z notify s = set_ordinal (to_int32 z) notify s

unfoldable pub set_value : YoEnum → Bool → YoEnum → Option (Bool × YoEnum)
unfolding get_enum_value_or_null set set_ordinal
set_value other notify s =
    if other.enum_type.is_backed_by_enum && s.enum_type.is_backed_by_enum
    then (get_enum_value_or_null other >>= λ v. set v notify s)
    else set_ordinal other.ordinal.value notify s

unfoldable pub is_zero : YoEnum → Bool
is_zero s = is_null_ordinal s

module _ {D : Type 0} (to_double : ℤ → D) (lround : D → ℤ) where
  unfoldable pub get_value_as_double : YoEnum → D
  get_value_as_double s = to_double s.ordinal.value

  unfoldable pub set_value_from_double : D → Bool → YoEnum → Option (Bool × YoEnum)
  unfolding clamp_ordinal set_ordinal
  set_value_from_double x notify s = set_ordinal (clamp_ordinal (to_int32 (lround x)) s) notify s

  unfoldable pub convert_double_value_to_string : D → YoEnum → Option Name
  unfolding clamp_ordinal
  convert_double_value_to_string x s =
      let o = clamp_ordinal (to_int32 (lround x)) s in
      if eqb_ℤ o null_value then some null_value_string else at s.enum_type.enum_values_as_string o

-- `std::tolower` is a parameter.
module _ (to_lower : ℕ → ℕ) where
  abbrev pub any_null : List Name → Bool
  any_null [] = false
  any_null (s ∷ ss) = equals_ignore_case to_lower s null_value_string || any_null ss

  -- The constructors, which refuse constants that are named like null, and `finishConstruction`.
  unfoldable pub construct : EnumType → Option YoEnum
  unfolding set_ordinal
  construct t = do
    require (not (any_null t.enum_values_as_string))
    require (not (not t.allow_null_value && is_empty t.enum_values_as_string))
    let start : YoEnum = record { enum_type = t; ordinal = record { value = pos 0; notified = 0 } }
    (_, s) ←
        set_ordinal
          (if t.allow_null_value || is_empty t.enum_values_as_string then null_value else pos 0)
          true start
    some s

  -- The index of the first constant with a name.
  abbrev pub index_of_name : Name → List Name → Option ℕ
  index_of_name s [] = none
  index_of_name s (t ∷ ts) =
      let rest = index_of_name s ts in if eq_name s t then some 0 else rest >>= λ i. some (suc i)

  unfoldable pub parse_value : Name → Bool → YoEnum → Option (Bool × YoEnum)
  unfolding set_ordinal
  parse_value name notify s =
      if eq_name (map to_lower name) null_value_string
      then set_ordinal null_value notify s
      else index_of_name name s.enum_type.enum_values_as_string >>= λ i.
          set_ordinal (pos i) notify s

  -- The object that `duplicate` returns.
  unfoldable pub duplicate : YoEnum → Option YoEnum
  unfolding construct set_ordinal
  duplicate s = do t ← construct s.enum_type; (_, u) ← set_ordinal s.ordinal.value true t; some u
