-- ===== src/Variable/Long.antt =====
-- src/variable/yo_long.cpp. A signed overflow of the 64 bits is undefined behaviour, and a fault.
use ihmc_yovariables_cpp.Common.{
  ℤ, pos, negsuc, ◌+ℤ◌, ◌-ℤ◌, +ℤ_parts, -ℤ_parts, eq_of_parts, leb_ℤ, eqb_ℤ, eqb_ℤ→eq,
  if◌then◌else◌, Bool, true, ◌&&◌, Option, none, some, ◌>>=◌, >>=-eq-some, eq_of_some, ◌≡◌, refl,
  sym, ap, ◌∙◌, arith,
}
use ihmc_yovariables_cpp.Variable.Cell.{Cell, assign, assign_lem}

abbrev pub YoLong : Type 0
YoLong = Cell ℤ

-- 2^63 - 1 and -2^63 are the greatest and the least `std::int64_t`.
abbrev pub fits_int64 : ℤ → Bool
fits_int64 z = leb_ℤ (negsuc 9223372036854775807) z && leb_ℤ z (pos 9223372036854775807)

unfoldable pub check_int64 : ℤ → Option ℤ
check_int64 z = if fits_int64 z then some z else none

-- The constructor, which calls `set(0)` on the value 0.
unfoldable pub construct : YoLong
construct = record { value = pos 0; notified = 0 }

unfoldable pub set : ℤ → Bool → YoLong → Bool × YoLong
unfolding assign
set v notify s = assign eqb_ℤ v notify s

unfoldable pub increment : YoLong → Option YoLong
unfolding set check_int64
increment s = check_int64 (s.value +ℤ pos 1) >>= λ v. some (set v true s).1

unfoldable pub decrement : YoLong → Option YoLong
unfolding set check_int64
decrement s = check_int64 (s.value -ℤ pos 1) >>= λ v. some (set v true s).1

unfoldable pub add : ℤ → YoLong → Option YoLong
unfolding set check_int64
add n s = check_int64 (s.value +ℤ n) >>= λ v. some (set v true s).1

unfoldable pub subtract : ℤ → YoLong → Option YoLong
unfolding set check_int64
subtract n s = check_int64 (s.value -ℤ n) >>= λ v. some (set v true s).1

unfoldable pub value_equals : ℤ → YoLong → Bool
value_equals v s = eqb_ℤ s.value v

unfoldable pub get_value_as_long_bits : YoLong → ℤ
get_value_as_long_bits s = s.value

unfoldable pub set_value_from_long_bits : ℤ → Bool → YoLong → Bool × YoLong
unfolding set
set_value_from_long_bits z notify s = set z notify s

unfoldable pub set_value : YoLong → Bool → YoLong → Bool × YoLong
unfolding set
set_value other notify s = set other.value notify s

unfoldable pub is_zero : YoLong → Bool
is_zero s = eqb_ℤ s.value (pos 0)

-- The value of the object that `duplicate` returns.
unfoldable pub duplicate : YoLong → YoLong
unfolding set construct
duplicate s = (set s.value true construct).1

module _ {D : Type 0} (to_double : ℤ → D) (llround : D → ℤ) where
  unfoldable pub get_value_as_double : YoLong → D
  get_value_as_double s = to_double s.value

  unfoldable pub set_value_from_double : D → Bool → YoLong → Bool × YoLong
  unfolding set
  set_value_from_double x notify s = set (llround x) notify s

set_value_lem : (v : ℤ) (notify : Bool) (s : YoLong) → (set v notify s).1.value ≡ v
unfolding set
set_value_lem v notify s = (assign_lem eqb_ℤ v notify s (eqb_ℤ→eq s.value v)).0

checked : (z v : ℤ) → check_int64 z ≡ some v → (z ≡ v) × (fits_int64 v ≡ true)
unfolding check_int64
checked z v e = ground arith

sub_add : (a n : ℤ) → a +ℤ n -ℤ n ≡ a
sub_add a n = eq_of_parts (a +ℤ n -ℤ n) a (omega (arith, +ℤ_parts a n, -ℤ_parts (a +ℤ n) n))

-- An addition that does not overflow can be undone: the subtraction of the same number does not
-- overflow, and gives back the value. The sum is the exact one.
pub subtract-add :
    (n : ℤ) (s t : YoLong)
    → fits_int64 s.value ≡ true
    → add n s ≡ some t
    → (t.value ≡ s.value +ℤ n) × ((u : YoLong) × (subtract n t ≡ some u) × (u.value ≡ s.value))
unfolding add subtract check_int64
subtract-add n s t fits e =
    let (v, e1, e2) = >>=-eq-some (check_int64 (s.value +ℤ n)) _ e in
    let (sum, _) = checked (s.value +ℤ n) v e1 in
    let value : t.value ≡ s.value +ℤ n =
      ap (λ (x : YoLong). x.value) (sym (eq_of_some e2)) ∙ set_value_lem v true s ∙ sym sum in
    let back : t.value -ℤ n ≡ s.value = ap (λ x. x -ℤ n) value ∙ sub_add s.value n in
    (value, ((set s.value true t).1, rw (back, fits) refl, set_value_lem s.value true t))
