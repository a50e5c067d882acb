-- ===== src/Variable/Double.antt =====
-- src/variable/yo_double.cpp. Doubles are a parameter, with the bits that `std::memcmp` and
-- `std::memcpy` read and write.
use ihmc_yovariables_cpp.Common.{
  ℤ, eqb_ℤ, eqb_ℤ→eq, eqb_ℤ_refl, Bool, true, false, ◌≡◌, refl, ap, sym, ◌∙◌, Doubles, Bool-cases,
  inl, inr,
}
use ihmc_yovariables_cpp.Variable.Cell.{Cell, assign}

-- What the variable uses besides the operations that all parts share.
pub record DoubleBits (D : Type 0) : Type 0 where
  pub to_bits : D → ℤ
  pub of_bits : ℤ → D
  pub mul : D → D → D
  pub nan : D
  pub is_nan : D → Bool

module _ {D : Type 0} (d : Doubles D) (b : DoubleBits D) where
  abbrev pub YoDouble : Type 0
  YoDouble = Cell D

  abbrev pub same_bits : D → D → Bool
  same_bits x y = eqb_ℤ (b.to_bits x) (b.to_bits y)

  unfoldable pub set : D → Bool → YoDouble → Bool × YoDouble
  unfolding assign
  set v notify s = assign same_bits v notify s

  -- The constructor, which calls `set(0.0)` on the value 0.0.
  unfoldable pub construct : YoDouble
  construct = record { value = d.zero_value; notified = 0 }

  unfoldable pub is_NaN : YoDouble → Bool
  is_NaN s = b.is_nan s.value

  unfoldable pub add : D → YoDouble → YoDouble
  unfolding set
  add x s = (set (d.add s.value x) true s).1

  unfoldable pub sub : D → YoDouble → YoDouble
  unfolding set
  sub x s = (set (d.sub s.value x) true s).1

  unfoldable pub mul : D → YoDouble → YoDouble
  unfolding set
  mul x s = (set (b.mul s.value x) true s).1

  unfoldable pub add_variable : YoDouble → YoDouble → YoDouble
  unfolding set
  add_variable other s = (set (d.add s.value other.value) true s).1

  unfoldable pub sub_variable : YoDouble → YoDouble → YoDouble
  unfolding set
  sub_variable other s = (set (d.sub s.value other.value) true s).1

  unfoldable pub mul_variable : YoDouble → YoDouble → YoDouble
  unfolding set
  mul_variable other s = (set (b.mul s.value other.value) true s).1

  unfoldable pub value_equals : D → YoDouble → Bool
  value_equals v s = d.eq s.value v

  unfoldable pub set_to_NaN : YoDouble → YoDouble
  unfolding set
  set_to_NaN s = (set b.nan true s).1

  unfoldable pub get_value_as_double : YoDouble → D
  get_value_as_double s = s.value

  unfoldable pub set_value_from_double : D → Bool → YoDouble → Bool × YoDouble
  unfolding set
  set_value_from_double x notify s = set x notify s

  unfoldable pub get_value_as_long_bits : YoDouble → ℤ
  get_value_as_long_bits s = b.to_bits s.value

  unfoldable pub set_value_from_long_bits : ℤ → Bool → YoDouble → Bool × YoDouble
  unfolding set
  set_value_from_long_bits z notify s = set (b.of_bits z) notify s

  unfoldable pub set_value : YoDouble → Bool → YoDouble → Bool × YoDouble
  unfolding set
  set_value other notify s = set other.value notify s

  unfoldable pub is_zero : YoDouble → Bool
  is_zero s = d.eq s.value d.zero_value

  unfoldable pub duplicate : YoDouble → YoDouble
  unfolding set construct
  duplicate s = (set s.value true construct).1

  -- The bits of a value that has been assigned.
  assigned_bits :
      (x : D) (notify : Bool) (s : YoDouble) → b.to_bits (set x notify s).1.value ≡ b.to_bits x
  unfolding set assign
  assigned_bits x notify s = elim (Bool-cases (same_bits s.value x)) [
    | inl e ↦ rw e (eqb_ℤ→eq (b.to_bits s.value) (b.to_bits x) e)
    | inr e ↦ rw e refl
  ]

  unchanged :
      (x : D) (notify : Bool) (s : YoDouble)
      → same_bits s.value x ≡ true
      → set x notify s ≡ (false, s)
  unfolding set assign
  unchanged x notify s e = rw e refl

  -- Setting a variable to NaN tells its listeners at most once: after it, setting it to NaN again
  -- changes nothing and tells nobody. The bits of the value are then those of NaN, though NaN is not
  -- equal to itself.
  pub set_to_NaN-set_to_NaN : (s : YoDouble) → set_to_NaN (set_to_NaN s) ≡ set_to_NaN s
  unfolding set_to_NaN
  set_to_NaN-set_to_NaN s =
      let once = (set b.nan true s).1 in
      let bits : same_bits once.value b.nan ≡ true =
        ap (λ x. eqb_ℤ x (b.to_bits b.nan)) (assigned_bits b.nan true s)
        ∙ eqb_ℤ_refl (b.to_bits b.nan) in
      ap (λ (p : Bool × YoDouble). p.1) (unchanged b.nan true once bits)

  -- The bits of a variable give its value back when another variable is set from them, if the double
  -- with the bits of a double is that double.
  pub set_value_from_long_bits-get_value_as_long_bits :
      (notify : Bool) (s t : YoDouble)
      → ((x : D) → b.of_bits (b.to_bits x) ≡ x)
      → (set_value_from_long_bits (get_value_as_long_bits s) notify t).1.value ≡ s.value
  unfolding set_value_from_long_bits get_value_as_long_bits
  set_value_from_long_bits-get_value_as_long_bits notify s t back =
      sym (back _)
      ∙ ap b.of_bits (assigned_bits (b.of_bits (b.to_bits s.value)) notify t)
      ∙ back _
      ∙ back s.value
