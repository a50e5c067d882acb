-- ===== src/Variable/Enum/Strings.antt =====
-- The strings of an enum variable.
use ihmc_yovariables_cpp.Common.{
  ℕ, pos, zero, suc, ◌==◌, eqb_ℤ, eqb_ℤ→eq, Bool, true, false, List, [], ◌∷◌, length, get_elem?,
  map, some, ◌≡◌, refl, sym, ap, ◌∙◌, arith, Bool-cases, inl, inr, if_true, if_false, eq_of_some,
  ==_refl,
}
use ihmc_yovariables_cpp.Registry.Names.{Name, eq_name, same_by}
use ihmc_yovariables_cpp.Registry.Namespace.{is_member, all_unique, equals_ignore_case}
use ihmc_yovariables_cpp.Registry.Namespace.Valid.{eq_name_refl, eq_name→eq}
use ihmc_yovariables_cpp.Variable.Cell.{assign, assign_lem}
use ihmc_yovariables_cpp.Variable.Enum.{
  YoEnum, null_value, null_value_string, is_null_ordinal, is_in_bounds, set_ordinal, at,
  get_string_value, any_null, index_of_name, parse_value,
}
use ihmc_yovariables_cpp.Variable.Enum.Ordinal.{IsValid, set_ordinal-some, index_inside}

member-get_elem? :
    (ts : List Name) (i : ℕ) (s : Name) → get_elem? ts i ≡ some s → is_member s ts ≡ true
member-get_elem? [] i s e = cc
member-get_elem? (t ∷ ts) zero s e = rw (eq_of_some e, eq_name_refl s) refl
member-get_elem? (t ∷ ts) (suc i) s e = ground (arith, member-get_elem? ts i s e)

module _ (to_lower : ℕ → ℕ) where
  -- In a list without duplicates a name is found where it stands.
  index_of_name-get_elem? :
      (ts : List Name) (i : ℕ) (s : Name)
      → all_unique ts ≡ true
      → get_elem? ts i ≡ some s
      → index_of_name to_lower s ts ≡ some i
  index_of_name-get_elem? [] i s u e = cc
  index_of_name-get_elem? (t ∷ ts) zero s u e = rw (eq_of_some e, eq_name_refl s) refl
  index_of_name-get_elem? (t ∷ ts) (suc i) s u e =
      let member = member-get_elem? ts i s e in
      elim (Bool-cases (eq_name s t)) [
        | inl same ↦
            let again : is_member t ts ≡ true =
              ap (λ x. is_member x ts) (sym (eq_name→eq s t same)) ∙ member in
            absurd (ground (arith, again, u))
        | inr other ↦
            let rest = index_of_name-get_elem? ts i s (ground (arith, u)) e in rw (other, rest) refl
      ]

  same_by_lower :
      (s t : Name)
      → same_by (λ c d. to_lower c == to_lower d) s t ≡ eq_name (map to_lower s) (map to_lower t)
  same_by_lower [] [] = refl
  same_by_lower [] (d ∷ ds) = refl
  same_by_lower (c ∷ cs) [] = refl
  same_by_lower (c ∷ cs) (d ∷ ds) = rw (same_by_lower cs ds) refl

  length_lower : (s : Name) → length (map to_lower s) ≡ length s
  length_lower [] = refl
  length_lower (c ∷ cs) = ap suc (length_lower cs)

  same_when_lower :
      (s t : Name) → map to_lower s ≡ map to_lower t → equals_ignore_case to_lower s t ≡ true
  unfolding equals_ignore_case
  same_when_lower s t e =
      let lengths : length s ≡ length t = sym (length_lower s) ∙ ap length e ∙ length_lower t in
      rw (lengths, ==_refl (length t), same_by_lower s t, e) (eq_name_refl (map to_lower t))

  -- No constant reads as null.
  not_null :
      (ts : List Name) (i : ℕ) (s : Name)
      → any_null to_lower ts ≡ false
      → map to_lower null_value_string ≡ null_value_string
      → get_elem? ts i ≡ some s
      → eq_name (map to_lower s) null_value_string ≡ false
  not_null [] i s h plain e = cc
  not_null (t ∷ ts) zero s h plain e =
      elim (Bool-cases (eq_name (map to_lower s) null_value_string)) [
        | inr differs ↦ differs
        | inl same ↦
            let lower : map to_lower s ≡ map to_lower null_value_string =
              eq_name→eq (map to_lower s) null_value_string same ∙ sym plain in
            let clash : equals_ignore_case to_lower t null_value_string ≡ true =
              ap (λ x. equals_ignore_case to_lower x null_value_string) (eq_of_some e)
              ∙ same_when_lower s null_value_string lower in
            absurd (ground (arith, clash, h))
      ]
  not_null (t ∷ ts) (suc i) s h plain e = not_null ts i s (ground (arith, h)) plain e

  reads_null :
      (name : Name) (notify : Bool) (t : YoEnum)
      → eq_name (map to_lower name) null_value_string ≡ true
      → parse_value to_lower name notify t ≡ set_ordinal null_value notify t
  unfolding parse_value
  reads_null name notify t h = if_true _ _ h

  reads_constant :
      (name : Name) (i : ℕ) (notify : Bool) (t : YoEnum)
      → eq_name (map to_lower name) null_value_string ≡ false
      → index_of_name to_lower name t.enum_type.enum_values_as_string ≡ some i
      → parse_value to_lower name notify t ≡ set_ordinal (pos i) notify t
  unfolding parse_value
  reads_constant name i notify t h e = if_false _ _ h ∙ rw e refl

  null_string :
      (s : YoEnum) (name : Name)
      → is_null_ordinal s ≡ true
      → get_string_value s ≡ some name
      → null_value_string ≡ name
  unfolding get_string_value
  null_string s name h e = eq_of_some (sym (if_true _ _ h) ∙ e)

  constant_string :
      (s : YoEnum) (name : Name) (i : ℕ)
      → is_null_ordinal s ≡ false
      → s.ordinal.value ≡ pos i
      → get_string_value s ≡ some name
      → get_elem? s.enum_type.enum_values_as_string i ≡ some name
  unfolding get_string_value
  constant_string s name i h v e =
      ap (at s.enum_type.enum_values_as_string) (sym v) ∙ sym (if_false _ _ h) ∙ e

  -- A variable reads the string of another one of the same type as the other's value: if the names of
  -- the constants differ, none of them reads as null, and lower case leaves null alone, then
  -- `parseValue` of what `getStringValue` of a valid variable gives does not throw and sets the
  -- ordinal of that variable.
  pub parse_value-get_string_value :
      (s t : YoEnum) (name : Name) (notify : Bool)
      → IsValid s
      → t.enum_type ≡ s.enum_type
      → all_unique s.enum_type.enum_values_as_string ≡ true
      → any_null to_lower s.enum_type.enum_values_as_string ≡ false
      → map to_lower null_value_string ≡ null_value_string
      → get_string_value s ≡ some name
      → (changed : Bool) × (u : YoEnum) × (parse_value to_lower name notify t ≡ some (changed, u))
        × (u.ordinal.value ≡ s.ordinal.value)
  unfolding is_in_bounds
  parse_value-get_string_value s t name notify valid types unique clean plain e =
      let o = s.ordinal.value in
      let names = s.enum_type.enum_values_as_string in
      let cell = assign eqb_ℤ o notify t.ordinal in
      let done = set_ordinal-some o notify t (ap (λ x. is_in_bounds x o) types ∙ valid) in
      let value = (assign_lem eqb_ℤ o notify t.ordinal (eqb_ℤ→eq t.ordinal.value o)).0 in
      let read : parse_value to_lower name notify t ≡ set_ordinal o notify t =
        elim (Bool-cases (is_null_ordinal s)) [
          | inl null ↦
              let it : map to_lower name ≡ null_value_string =
                ap (map to_lower) (sym (null_string s name null e)) ∙ plain in
              reads_null name notify t (rw it refl)
              ∙ ap (λ x. set_ordinal x notify t) (sym (eqb_ℤ→eq o null_value null))
          | inr there ↦
              let (i, v, less) =
                index_inside (length names) s.enum_type.allow_null_value o valid there in
              let held = constant_string s name i there v e in
              let index : index_of_name to_lower name t.enum_type.enum_values_as_string ≡ some i =
                ap (λ x. index_of_name to_lower name x.enum_values_as_string) types
                ∙ index_of_name-get_elem? names i name unique held in
              reads_constant name i notify t (not_null names i name clean plain held) index
              ∙ ap (λ x. set_ordinal x notify t) (sym v)
        ] in
      (cell.0, record t { ordinal = cell.1 }, read ∙ done, value)
