-- ===== src/Variable/Integer/Notify.antt =====
-- When an integer variable notifies its listeners, and what comes back from its bits.
use ihmc_yovariables_cpp.Common.{
  ℕ, ℤ, pos, negsuc, suc, ◌+◌, ◌<◌, ◌+ℤ◌, ◌-ℤ◌, +ℤ_parts, -ℤ_parts, eq_of_parts, eqb_ℤ, eqb_ℤ→eq,
  ==_ne, ◌≢◌, pos_part, neg_part, if◌then◌else◌, Bool, true, false, not, ◌&&◌, some, ◌≡◌, refl, ap,
  ◌∙◌, arith,
}
use native.Mathlib.Nat.{mod-eq_of_lt}
use ihmc_yovariables_cpp.Variable.Integer.{
  YoInteger, fits_int32, check_int32, low_bits, to_int32, set, increment, decrement,
  get_value_as_long_bits, set_value_from_long_bits, get_value_as_double, set_value_from_double,
}

-- A value that fits 32 bits is not changed by a cast to them.
to_int32_id : (z : ℤ) → fits_int32 z ≡ true → to_int32 z ≡ z
unfolding to_int32 low_bits
to_int32_id (pos n) h =
    let small : n < 2147483648 = ground arith in
    rw (mod-eq_of_lt (let s : n < 4294967296 = omega arith in s)) (ground arith)
to_int32_id (negsuc n) h =
    let small : n < 2147483648 = ground arith in
    rw (mod-eq_of_lt (let s : n < 4294967296 = omega arith in s)) (ground arith)

-- `set` leaves the variable with the value given; it returns whether that is a change, and then, if
-- it is to notify, notifies the listeners once.
pub set_lem :
    (v : ℤ) (notify : Bool) (s : YoInteger)
    → ((set v notify s).1.value ≡ v)
      × ((set v notify s).0 ≡ not (eqb_ℤ s.value v))
      × ((set v notify s).1.notified
          ≡ s.notified + (if not (eqb_ℤ s.value v) && notify then 1 else 0))
unfolding set
set_lem v notify s = ground (arith, eqb_ℤ→eq s.value v)

-- What a variable gives as 64 bits or as a double comes back when another variable is set from it, if
-- the double that stands for an integer rounds to that integer.
pub set_value_from-get_value :
    {D : Type 0} (to_double : ℤ → D) (lround : D → ℤ) (notify : Bool) (s t : YoInteger)
    → fits_int32 s.value ≡ true
    → ((z : ℤ) → fits_int32 z ≡ true → lround (to_double z) ≡ z)
    → ((set_value_from_long_bits (get_value_as_long_bits s) notify t).1.value ≡ s.value)
      × ((set_value_from_double to_double lround
            (get_value_as_double to_double lround s)
            notify
            t).1.value
          ≡ s.value)
unfolding set_value_from_long_bits get_value_as_long_bits set_value_from_double get_value_as_double
set_value_from-get_value to_double lround notify s t h r = (
  (set_lem (to_int32 s.value) notify t).0 ∙ to_int32_id s.value h,
  (set_lem (to_int32 (lround (to_double s.value))) notify t).0
      ∙ ap to_int32 (r s.value h)
      ∙ to_int32_id s.value h,
)

add_sub_one : (z : ℤ) → z +ℤ pos 1 -ℤ pos 1 ≡ z
add_sub_one z =
    eq_of_parts (z +ℤ pos 1 -ℤ pos 1) z
      (omega (arith, +ℤ_parts z (pos 1), -ℤ_parts (z +ℤ pos 1) (pos 1)))

set_changes :
    (v : ℤ) (s : YoInteger)
    → eqb_ℤ s.value v ≡ false
    → (set v true s).1 ≡ record { value = v; notified = s.notified + 1 }
unfolding set
set_changes v s h = rw h refl

eqb_apart : (a b : ℤ) (n : ℕ) → a ≡ b +ℤ pos (suc n) → eqb_ℤ a b ≡ false
eqb_apart a b n e = ==_ne _ _ (
    let ne : pos_part a + neg_part b ≢ pos_part b + neg_part a =
      λ same. absurd (omega (arith, +ℤ_parts b (pos (suc n)), ap pos_part e, ap neg_part e)) in
    ne)

eqb_swap : (a b : ℤ) → eqb_ℤ a b ≡ false → eqb_ℤ b a ≡ false
eqb_swap a b h = ground arith

increment_lem :
    (s t : YoInteger)
    → increment s ≡ some t
    → t ≡ record { value = s.value +ℤ pos 1; notified = s.notified + 1 }
unfolding increment check_int32
increment_lem s t e =
    let v = s.value +ℤ pos 1 in
    let changed = set_changes v s (eqb_swap v s.value (eqb_apart v s.value 0 refl)) in
    ground (arith, changed)

decrement_lem :
    (s t : YoInteger) (v : ℤ)
    → s.value ≡ v +ℤ pos 1
    → s.value -ℤ pos 1 ≡ v
    → fits_int32 v ≡ true
    → decrement s ≡ some (record { value = v; notified = s.notified + 1 })
unfolding decrement check_int32
decrement_lem s t v e f h = rw (f, h) (ap some (set_changes v s (eqb_apart s.value v 0 e)))

-- An increment that does not overflow can be undone: the decrement after it gives back the value, and
-- each of the two notifies the listeners once.
pub decrement-increment :
    (s t : YoInteger)
    → fits_int32 s.value ≡ true
    → increment s ≡ some t
    → (u : YoInteger) × (decrement t ≡ some u) × (u.value ≡ s.value) × (u.notified ≡ s.notified + 2)
decrement-increment s t h e =
    let t' : YoInteger = record { value = s.value +ℤ pos 1; notified = s.notified + 1 } in
    let at : t ≡ t' = increment_lem s t e in
    (
      record { value = s.value; notified = s.notified + 1 + 1 },
      ap decrement at ∙ decrement_lem t' t' s.value refl (add_sub_one s.value) h,
      refl,
      omega arith,
    )
