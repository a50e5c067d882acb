-- ===== src/Variable/Boolean.antt =====
-- src/variable/yo_boolean.cpp. Doubles are a parameter.
use ihmc_yovariables_cpp.Common.{
  ℕ, ℤ, pos, ◌==◌, eqb_ℤ, if◌then◌else◌, Bool, true, false, not, [], ◌∷◌, length, map, ◌≡◌, refl,
  ap, ◌∙◌,
}
use ihmc_yovariables_cpp.Registry.Names.{Name, same_by, eq_name}
use ihmc_yovariables_cpp.Variable.Cell.{Cell, assign, assign_lem}

abbrev pub YoBoolean : Type 0
YoBoolean = Cell Bool

abbrev pub same : Bool → Bool → Bool
same true b = b
same false b = not b

unfoldable pub set : Bool → Bool → YoBoolean → Bool × YoBoolean
unfolding assign
set v notify s = assign same v notify s

-- The constructor, which calls `set(false)` on the value false.
unfoldable pub construct : YoBoolean
construct = record { value = false; notified = 0 }

unfoldable pub value_equals : Bool → YoBoolean → Bool
value_equals v s = same s.value v

unfoldable pub get_value_as_long_bits : YoBoolean → ℤ
get_value_as_long_bits s = if s.value then pos 1 else pos 0

unfoldable pub set_value_from_long_bits : ℤ → Bool → YoBoolean → Bool × YoBoolean
unfolding set
set_value_from_long_bits z notify s = set (eqb_ℤ z (pos 1)) notify s

unfoldable pub set_value : YoBoolean → Bool → YoBoolean → Bool × YoBoolean
unfolding set
set_value other notify s = set other.value notify s

unfoldable pub is_zero : YoBoolean → Bool
is_zero s = not s.value

unfoldable pub duplicate : YoBoolean → YoBoolean
unfolding set construct
duplicate s = (set s.value true construct).1

-- "true" and "false"
abbrev pub true_string : Name
true_string = 116 ∷ 114 ∷ 117 ∷ 101 ∷ []

abbrev pub false_string : Name
false_string = 102 ∷ 97 ∷ 108 ∷ 115 ∷ 101 ∷ []

unfoldable pub get_value_as_string : YoBoolean → Name
get_value_as_string s = if s.value then true_string else false_string

-- `std::tolower` is a parameter.
module _ (to_lower : ℕ → ℕ) where
  unfoldable pub equals_ignore_case_true : Name → Bool
  equals_ignore_case_true s =
      if not (length s == length true_string)
      then false
      else same_by (λ a b. to_lower a == b) s true_string

  unfoldable pub parse_value : Name → Bool → YoBoolean → Bool × YoBoolean
  unfolding set equals_ignore_case_true
  parse_value name notify s = set (equals_ignore_case_true name) notify s

-- The doubles 1.0, 0.0 and 0.5, and `>=`.
module _ {D : Type 0} (one none_at_all half : D) (ge : D → D → Bool) where
  unfoldable pub get_value_as_double : YoBoolean → D
  get_value_as_double s = if s.value then one else none_at_all

  unfoldable pub set_value_from_double : D → Bool → YoBoolean → Bool × YoBoolean
  unfolding set
  set_value_from_double x notify s = set (ge x half) notify s

  unfoldable pub convert_double_value_to_string : D → Name
  convert_double_value_to_string x = if ge x half then true_string else false_string

same→eq : (a b : Bool) → same a b ≡ true → a ≡ b
same→eq true true h = refl
same→eq true false h = cc
same→eq false true h = cc
same→eq false false h = refl

set_value_lem : (v notify : Bool) (s : YoBoolean) → (set v notify s).1.value ≡ v
unfolding set
set_value_lem v notify s = (assign_lem same v notify s (same→eq s.value v)).0

same_lower :
    (to_lower : ℕ → ℕ) (s t : Name)
    → same_by (λ a b. to_lower a == b) s t ≡ eq_name (map to_lower s) t
same_lower to_lower [] [] = refl
same_lower to_lower [] (d ∷ ds) = refl
same_lower to_lower (c ∷ cs) [] = refl
same_lower to_lower (c ∷ cs) (d ∷ ds) = rw (same_lower to_lower cs ds) refl

long_bits : (v : Bool) → eqb_ℤ (if v then pos 1 else pos 0) (pos 1) ≡ v
long_bits true = refl
long_bits false = refl

as_double :
    {D : Type 0} (one none_at_all half : D) (ge : D → D → Bool)
    → ge one half ≡ true
    → ge none_at_all half ≡ false
    → (v : Bool) → ge (if v then one else none_at_all) half ≡ v
as_double one none_at_all half ge h1 h0 true = h1
as_double one none_at_all half ge h1 h0 false = h0

as_string :
    (to_lower : ℕ → ℕ)
    → map to_lower true_string ≡ true_string
    → (v : Bool) → equals_ignore_case_true to_lower (if v then true_string else false_string) ≡ v
unfolding equals_ignore_case_true
as_string to_lower e true =
    same_lower to_lower true_string true_string ∙ ap (λ x. eq_name x true_string) e
as_string to_lower e false = refl

-- A variable that is set from the 64 bits, from the double or from the string of another one has the
-- other's value, if 1.0 is at least 0.5, 0.0 is not, and lower case leaves "true" alone.
pub parse_value-get_value_as_string :
    {D : Type 0} (one none_at_all half : D) (ge : D → D → Bool) (to_lower : ℕ → ℕ) (notify : Bool)
    (s t : YoBoolean)
    → ge one half ≡ true
    → ge none_at_all half ≡ false
    → map to_lower true_string ≡ true_string
    → ((set_value_from_long_bits (get_value_as_long_bits s) notify t).1.value ≡ s.value)
      × ((set_value_from_double one none_at_all half ge
            (get_value_as_double one none_at_all half ge s)
            notify
            t).1.value
          ≡ s.value)
      × ((parse_value to_lower (get_value_as_string s) notify t).1.value ≡ s.value)
unfolding set_value_from_long_bits get_value_as_long_bits set_value_from_double get_value_as_double
    parse_value get_value_as_string
parse_value-get_value_as_string one none_at_all half ge to_lower notify s t h1 h0 lower = (
  set_value_lem _ notify t ∙ long_bits s.value,
  set_value_lem _ notify t ∙ as_double one none_at_all half ge h1 h0 s.value,
  set_value_lem _ notify t ∙ as_string to_lower lower s.value,
)
