-- ===== src/Variable/Enum/Ordinal.antt =====
-- The ordinals that an enum variable takes.
use ihmc_yovariables_cpp.Common.{
  ℕ, ℤ, pos, negsuc, zero, suc, ◌+◌, ◌<◌, ◌≤◌, ◌-ℤ◌, pos_part, neg_part, -ℤ_parts, eqb_ℤ, eqb_ℤ→eq,
  ltb_ℤ, leb_ℤ, if◌then◌else◌, Bool, true, false, not, ◌&&◌, ◌||◌, length, get_elem?,
  get_elem?-some, Option, none, some, ◌>>=◌, require, ◌≡◌, refl, sym, ap, ◌∙◌, subst, arith,
  Bool-cases, inl, inr, >>=-eq-some, eq_of_some,
}
use ihmc_yovariables_cpp.Registry.Names.{Name, is_empty}
use ihmc_yovariables_cpp.Variable.Integer.{to_int32}
use ihmc_yovariables_cpp.Variable.Cell.{assign, assign_lem}
use ihmc_yovariables_cpp.Variable.Enum.{
  EnumType, YoEnum, null_value, null_value_string, is_null_ordinal, get_enum_size, is_in_bounds,
  set_ordinal, check_if_backed_by_enum, get_enum_value_or_null, get_enum_value, set,
  get_string_value, min_ℤ, max_ℤ, clamp_ordinal, set_value_from_double, any_null, construct,
}

-- The ordinal is that of a constant, or null where null is allowed.
abbrev pub IsValid : YoEnum → Type 0
IsValid s = is_in_bounds s.enum_type s.ordinal.value ≡ true

pub set_ordinal-some :
    (o : ℤ) (notify : Bool) (s : YoEnum)
    → is_in_bounds s.enum_type o ≡ true
    → set_ordinal o notify s
      ≡ some (
        (assign eqb_ℤ o notify s.ordinal).0,
        record s { ordinal = (assign eqb_ℤ o notify s.ordinal).1 },
      )
unfolding set_ordinal
set_ordinal-some o notify s h = rw h refl

pub set_ordinal_lem :
    (o : ℤ) (notify : Bool) (s t : YoEnum) (changed : Bool)
    → set_ordinal o notify s ≡ some (changed, t)
    → (is_in_bounds s.enum_type o ≡ true) × (t.enum_type ≡ s.enum_type) × (t.ordinal.value ≡ o)
unfolding set_ordinal
set_ordinal_lem o notify s t changed e = elim (Bool-cases (is_in_bounds s.enum_type o)) [
  | inr outside ↦ absurd (cc)
  | inl inside ↦
      let same : (assign eqb_ℤ o notify s.ordinal).1.value ≡ o =
        (assign_lem eqb_ℤ o notify s.ordinal (eqb_ℤ→eq s.ordinal.value o)).0 in
      let e' = sym (set_ordinal-some o notify s inside) ∙ e in
      (
        inside,
        sym (ap (λ (p : Bool × YoEnum). p.1.enum_type) (eq_of_some e')),
        sym (ap (λ (p : Bool × YoEnum). p.1.ordinal.value) (eq_of_some e')) ∙ same,
      )
]

set_ordinal-IsValid :
    (o : ℤ) (notify : Bool) (s t : YoEnum) (changed : Bool)
    → set_ordinal o notify s ≡ some (changed, t)
    → IsValid t
set_ordinal-IsValid o notify s t changed e =
    let (inside, type, value) = set_ordinal_lem o notify s t changed e in
    ap (λ x. is_in_bounds x t.ordinal.value) type ∙ ap (is_in_bounds s.enum_type) value ∙ inside

abbrev inside_of : ℕ → Bool → ℤ → Bool
inside_of n allow o =
    not ((ltb_ℤ o (pos 0) && not (allow && eqb_ℤ o null_value)) || leb_ℤ (pos n) o)

-- An ordinal between the least and the greatest that are allowed.
clamped_null :
    (n : ℕ) (m o : ℤ)
    → pos_part m + 1 ≡ n + neg_part m
    → inside_of n true (max_ℤ (min_ℤ o m) null_value) ≡ true
clamped_null n (pos m) (pos o) h = ground arith
clamped_null n (pos m) (negsuc o) h = ground arith
clamped_null n (negsuc m) (pos o) h = ground arith
clamped_null n (negsuc m) (negsuc o) h = ground arith

clamped_zero :
    (n : ℕ) (m o : ℤ)
    → pos_part m + 1 ≡ n + neg_part m
    → 1 ≤ n
    → inside_of n false (max_ℤ (min_ℤ o m) (pos 0)) ≡ true
clamped_zero n (pos m) (pos o) h k = ground arith
clamped_zero n (pos m) (negsuc o) h k = ground arith
clamped_zero n (negsuc m) (pos o) h k = ground arith
clamped_zero n (negsuc m) (negsuc o) h k = ground arith

some_constant : (n : ℕ) (o : ℤ) → inside_of n false o ≡ true → 1 ≤ n
some_constant zero (pos o) h = absurd (ground arith)
some_constant zero (negsuc o) h = absurd (ground arith)
some_constant (suc n) o h = omega arith

-- A rounded double is brought into bounds.
clamp_ordinal_inside :
    (o : ℤ) (s : YoEnum) → IsValid s → is_in_bounds s.enum_type (clamp_ordinal o s) ≡ true
unfolding clamp_ordinal is_in_bounds get_enum_size
clamp_ordinal_inside o s valid =
    let n = length s.enum_type.enum_values_as_string in
    let m = pos n -ℤ pos 1 in
    let parts : pos_part m + 1 ≡ n + neg_part m = omega (arith, -ℤ_parts (pos n) (pos 1)) in
    elim (Bool-cases s.enum_type.allow_null_value) [
      | inl allowed ↦ rw allowed (clamped_null n m o parts)
      | inr refused ↦
          rw refused
            (clamped_zero n m o parts (some_constant n s.ordinal.value (rw refused at valid)))
    ]

-- `setValueFromDouble` of a valid variable never throws, whatever the double rounds to, and leaves
-- the variable valid.
pub set_value_from_double-IsValid :
    {D : Type 0} (to_double : ℤ → D) (lround : D → ℤ) (x : D) (notify : Bool) (s : YoEnum)
    → IsValid s
    → (changed : Bool) × (t : YoEnum) × (set_value_from_double to_double lround x notify s
        ≡ some (changed, t))
      × IsValid t
unfolding set_value_from_double
set_value_from_double-IsValid to_double lround x notify s valid =
    let o = clamp_ordinal (to_int32 (lround x)) s in
    let e = set_ordinal-some o notify s (clamp_ordinal_inside (to_int32 (lround x)) s valid) in
    (
      (assign eqb_ℤ o notify s.ordinal).0,
      record s { ordinal = (assign eqb_ℤ o notify s.ordinal).1 },
      e,
      set_ordinal-IsValid o notify s _ _ e,
    )

-- A constructed variable is valid.
pub construct-IsValid :
    (to_lower : ℕ → ℕ) (type : EnumType) (s : YoEnum) → construct to_lower type ≡ some s → IsValid s
unfolding construct
construct-IsValid to_lower type s e =
    let (_, e1, r1) =
      >>=-eq-some (require (not (any_null to_lower type.enum_values_as_string))) _ e in
    let (_, e2, r2) =
      >>=-eq-some (require (not (not type.allow_null_value && is_empty type.enum_values_as_string)))
        _ r1 in
    let o : ℤ =
      if type.allow_null_value || is_empty type.enum_values_as_string then null_value else pos 0 in
    let start : YoEnum = record {
      enum_type = type;
      ordinal = record { value = pos 0; notified = 0 };
    } in
    let (p, e3, r3) =
      >>=-eq-some {B = YoEnum} (set_ordinal o true start) (λ (x : Bool × YoEnum). some x.1) r2 in
    subst IsValid (eq_of_some r3) (set_ordinal-IsValid o true start p.1 p.0 e3)

abbrev is_null : ℤ → Bool
is_null o = eqb_ℤ o null_value

pub index_inside :
    (n : ℕ) (allow : Bool) (o : ℤ)
    → inside_of n allow o ≡ true
    → eqb_ℤ o null_value ≡ false
    → (i : ℕ) × (o ≡ pos i) × (i < n)
index_inside n allow (pos i) h k = (i, refl, ground arith)
index_inside n true (negsuc i) h k = absurd (ground arith)
index_inside n false (negsuc i) h k = absurd (ground arith)

-- A valid variable has a string: its ordinal is that of a constant, or stands for null.
pub get_string_value_total :
    (s : YoEnum) → IsValid s → (name : Name) × (get_string_value s ≡ some name)
unfolding get_string_value is_in_bounds
get_string_value_total s valid = elim (Bool-cases (is_null_ordinal s)) [
  | inl null ↦ (null_value_string, rw null refl)
  | inr there ↦
      let names = s.enum_type.enum_values_as_string in
      let (i, e, less) =
        index_inside (length names) s.enum_type.allow_null_value s.ordinal.value valid there in
      let (name, f) = get_elem?-some names i less in (name, rw (there, e) f)
]

unwrapped : {A : Type 0} (o : Option A) → ((o >>= λ e. some (some e)) >>= λ v. v) ≡ o
unwrapped none = refl
unwrapped (some a) = refl

-- When a constant is set whose underlying integer is `i`, the value that the variable then gives is
-- the constant at index `i`, among those in their order. This is the constant that was set only if
-- the integers of the constants are their indices.
pub get_enum_value-set :
    (i : ℕ) (notify changed : Bool) (s t : YoEnum)
    → set (some (pos i)) notify s ≡ some (changed, t)
    → get_enum_value t ≡ get_elem? s.enum_type.enum_values i
unfolding set get_enum_value get_enum_value_or_null check_if_backed_by_enum
get_enum_value-set i notify changed s t e =
    let (_, backed, e') = >>=-eq-some (require s.enum_type.is_backed_by_enum) _ e in
    let (inside, type, value) = set_ordinal_lem (pos i) notify s t changed e' in
    let not_null : is_null (pos i) ≡ false = ground arith in
    rw (type, value, backed, not_null) (unwrapped (get_elem? s.enum_type.enum_values i))
