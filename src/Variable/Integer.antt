-- ===== src/Variable/Integer.antt =====
-- src/variable/yo_integer.cpp. The field `notified` counts the calls of `notifyListeners`. A signed
-- overflow of the 32 bits is undefined behaviour, and a fault.
pub mod Notify
use ihmc_yovariables_cpp.Common.{
  ℕ, ℤ, pos, negsuc, suc, ◌+◌, ◌-◌, ◌%◌, ◌+ℤ◌, ◌-ℤ◌, ltb, ltb_ℤ, leb_ℤ, eqb_ℤ, if◌then◌else◌, Bool,
  true, false, not, ◌&&◌, Option, none, some, ◌>>=◌,
}

pub record YoInteger : Type 0 where
  pub value : ℤ
  pub notified : ℕ

-- 2^31 - 1 and -2^31 are the greatest and the least `std::int32_t`.
abbrev pub fits_int32 : ℤ → Bool
fits_int32 z = leb_ℤ (negsuc 2147483647) z && leb_ℤ z (pos 2147483647)

unfoldable pub check_int32 : ℤ → Option ℤ
check_int32 z = if fits_int32 z then some z else none

-- `static_cast<std::int32_t>` of 64 bits: the 32 low bits, read with a sign.
unfoldable pub low_bits : ℤ → ℕ
low_bits (pos n) = n % 4294967296
low_bits (negsuc n) = 4294967295 - n % 4294967296

unfoldable pub to_int32 : ℤ → ℤ
unfolding low_bits
to_int32 z =
    let bits = low_bits z in if ltb bits 2147483648 then pos bits else negsuc (4294967295 - bits)

-- The result says whether the value has changed.
unfoldable pub set : ℤ → Bool → YoInteger → Bool × YoInteger
set v notify s =
    if not (eqb_ℤ s.value v)
    then (true, record { value = v; notified = (if notify then s.notified + 1 else s.notified) })
    else (false, s)

unfoldable pub increment : YoInteger → Option YoInteger
unfolding set check_int32
increment s = check_int32 (s.value +ℤ pos 1) >>= λ v. some (set v true s).1

unfoldable pub decrement : YoInteger → Option YoInteger
unfolding set check_int32
decrement s = check_int32 (s.value -ℤ pos 1) >>= λ v. some (set v true s).1

unfoldable pub add : ℤ → YoInteger → Option YoInteger
unfolding set check_int32
add n s = check_int32 (s.value +ℤ n) >>= λ v. some (set v true s).1

unfoldable pub sub : ℤ → YoInteger → Option YoInteger
unfolding set check_int32
sub n s = check_int32 (s.value -ℤ n) >>= λ v. some (set v true s).1

unfoldable pub value_equals : ℤ → YoInteger → Bool
value_equals v s = eqb_ℤ s.value v

unfoldable pub is_zero : YoInteger → Bool
is_zero s = eqb_ℤ s.value (pos 0)

unfoldable pub get_value_as_long_bits : YoInteger → ℤ
get_value_as_long_bits s = s.value

unfoldable pub set_value_from_long_bits : ℤ → Bool → YoInteger → Bool × YoInteger
unfolding set to_int32
set_value_from_long_bits z notify s = set (to_int32 z) notify s

unfoldable pub set_value : YoInteger → Bool → YoInteger → Bool × YoInteger
unfolding set
set_value other notify s = set other.value notify s

module _ {D : Type 0} (to_double : ℤ → D) (lround : D → ℤ) where
  unfoldable pub get_value_as_double : YoInteger → D
  get_value_as_double s = to_double s.value

  unfoldable pub set_value_from_double : D → Bool → YoInteger → Bool × YoInteger
  unfolding set to_int32
  set_value_from_double x notify s = set (to_int32 (lround x)) notify s
