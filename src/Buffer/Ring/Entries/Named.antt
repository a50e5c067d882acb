-- ===== src/Buffer/Ring/Entries/Named.antt =====
-- The entries of a buffer against its map of names.
use ihmc_yovariables_cpp.Common.{
  ℕ, ◌==◌, if◌then◌else◌, true, false, List, [], ◌∷◌, ◌++◌, ◌≡◌, refl, sym, ap, ◌∙◌, arith,
  Bool-cases, Option-cases, inl, inr, ==_iff,
}
use ihmc_yovariables_cpp.Registry.Names.{Name, eq_name}
use ihmc_yovariables_cpp.Registry.Namespace.Valid.{eq_name_refl, eq_name→eq}
use ihmc_yovariables_cpp.Registry.VariableList.{put, erase_one}
use ihmc_yovariables_cpp.Registry.VariableList.Counts.{homonyms-put, homonyms-put_other}
use ihmc_yovariables_cpp.Buffer.Entry.{Entry}
use ihmc_yovariables_cpp.Buffer.Ring.{Buffer, find_entry, entry_key, entries_named}
use ihmc_yovariables_cpp.Buffer.Ring.Entries.{erase_entry, remove_variable}

module _ (to_lower : ℕ → ℕ) (name_of : ℕ → Name) where
  abbrev named : ℕ → Name
  named = entry_key to_lower name_of

  -- The variables of the entries with a name, in order.
  abbrev pub variables_named : {D : Type 0} → Name → List (Entry D) → List ℕ
  variables_named k [] = []
  variables_named k (e ∷ es) =
      let rest = variables_named k es in
      if eq_name (named e.variable) k then e.variable ∷ rest else rest

  -- Under each name the map has the entries of that name, in order.
  abbrev pub IsMapped : {D S : Type 0} → Buffer D S → Type 0
  IsMapped b =
      (k : Name) → entries_named k b.simple_name_to_entries_map ≡ variables_named k b.entries

  variables_named-append :
      {D : Type 0} (k : Name) (es : List (Entry D)) (e : Entry D)
      → variables_named k (es ++ e ∷ []) ≡ (
          if eq_name (named e.variable) k
          then variables_named k es ++ e.variable ∷ []
          else variables_named k es)
  variables_named-append k [] e = ground arith
  variables_named-append k (x ∷ es) e = ground (arith, variables_named-append k es e)

  erase_named :
      {D : Type 0} (v : ℕ) (es : List (Entry D))
      → variables_named (named v) (erase_entry v es) ≡ erase_one v (variables_named (named v) es)
  unfolding erase_entry
  erase_named v [] = refl
  erase_named v (e ∷ es) = elim (Bool-cases (e.variable == v)) [
    | inl same ↦
        let own : eq_name (named e.variable) (named v) ≡ true =
          ap (λ w. eq_name (named w) (named v)) ((==_iff e.variable v).0 same)
          ∙ eq_name_refl (named v) in
        rw (same, own, same) refl
    | inr other ↦ elim (Bool-cases (eq_name (named e.variable) (named v))) [
      | inl homonym ↦ rw (other, homonym, other) (ap (λ us. e.variable ∷ us) (erase_named v es))
      | inr apart ↦ rw (other, apart) (erase_named v es)
    ]
  ]

  erase_named_other :
      {D : Type 0} (v : ℕ) (k : Name) (es : List (Entry D))
      → eq_name (named v) k ≡ false
      → variables_named k (erase_entry v es) ≡ variables_named k es
  unfolding erase_entry
  erase_named_other v k [] h = refl
  erase_named_other v k (e ∷ es) h = elim (Bool-cases (e.variable == v)) [
    | inl same ↦
        let own : eq_name (named e.variable) k ≡ false =
          ap (λ w. eq_name (named w) k) ((==_iff e.variable v).0 same) ∙ h in
        rw (same, own) refl
    | inr other ↦ elim (Bool-cases (eq_name (named e.variable) k)) [
      | inl homonym ↦ rw (other, homonym) (ap (λ us. e.variable ∷ us) (erase_named_other v k es h))
      | inr apart ↦ rw (other, apart) (erase_named_other v k es h)
    ]
  ]

  -- The map after one more entry, and after an entry fewer.
  pub IsMapped-append :
      {D S : Type 0} (e : Entry D) (b : Buffer D S)
      → IsMapped b
      → (k : Name)
      → entries_named k (
          put
            (named e.variable)
            (entries_named (named e.variable) b.simple_name_to_entries_map ++ e.variable ∷ [])
            b.simple_name_to_entries_map)
        ≡ variables_named k (b.entries ++ e ∷ [])
  IsMapped-append e b mapped k =
      let m = b.simple_name_to_entries_map in
      let j = named e.variable in
      let us = entries_named j m ++ e.variable ∷ [] in
      elim (Bool-cases (eq_name j k)) [
        | inl same ↦
            let key : j ≡ k = eq_name→eq j k same in
            ap (λ (i : Name). entries_named i (put j us m)) (sym key)
            ∙ homonyms-put j us m
            ∙ ap (λ (i : Name). entries_named i m ++ e.variable ∷ []) key
            ∙ ap (λ vs. vs ++ e.variable ∷ []) (mapped k)
            ∙ sym (variables_named-append k b.entries e ∙ rw same refl)
        | inr apart ↦
            homonyms-put_other j k us m apart
            ∙ mapped k
            ∙ sym (variables_named-append k b.entries e ∙ rw apart refl)
      ]

  IsMapped-erase :
      {D S : Type 0} (v : ℕ) (b : Buffer D S)
      → IsMapped b
      → (k : Name)
      → entries_named k (
          put
            (named v)
            (erase_one v (entries_named (named v) b.simple_name_to_entries_map))
            b.simple_name_to_entries_map)
        ≡ variables_named k (erase_entry v b.entries)
  IsMapped-erase v b mapped k =
      let m = b.simple_name_to_entries_map in
      let us = erase_one v (entries_named (named v) m) in
      elim (Bool-cases (eq_name (named v) k)) [
        | inl same ↦
            let key : named v ≡ k = eq_name→eq (named v) k same in
            ap (λ (i : Name). entries_named i (put (named v) us m)) (sym key)
            ∙ homonyms-put (named v) us m
            ∙ ap (erase_one v) (mapped (named v))
            ∙ sym (erase_named v b.entries)
            ∙ ap (λ (i : Name). variables_named i (erase_entry v b.entries)) key
        | inr apart ↦
            homonyms-put_other (named v) k us m apart
            ∙ mapped k
            ∙ sym (erase_named_other v k b.entries apart)
      ]

  -- `removeVariable` keeps the map in step with the entries.
  pub remove_variable-IsMapped :
      {D S : Type 0} (v : ℕ) (b : Buffer D S)
      → IsMapped b
      → IsMapped (remove_variable to_lower name_of v b).1
  unfolding remove_variable
  remove_variable-IsMapped v b mapped = elim (Option-cases (find_entry v b.entries)) [
    | inl e ↦ λ k. rw (remove_variable, e) (mapped k)
    | inr (x, e) ↦ λ k. rw (remove_variable, e) (IsMapped-erase v b mapped k)
  ]
