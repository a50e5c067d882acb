-- ===== src/Registry/VariableList/Tied.antt =====
-- The list of variables against its map of names.
use ihmc_yovariables_cpp.Common.{
  ℕ, ◌+◌, ◌-◌, ◌≤◌, ◌==◌, if◌then◌else◌, Bool, true, false, List, [], ◌∷◌, ◌++◌, Option, none, some,
  ◌≡◌, ◌≢◌, ◌⊎◌, refl, sym, ap, ◌∙◌, subst, arith, Bool-cases, Option-cases, inl, inr, ℕ_discrete,
  ==_ne,
}
use ihmc_yovariables_cpp.Registry.Names.{Name, eq_name}
use ihmc_yovariables_cpp.Registry.Namespace.Valid.{eq_name_refl, eq_name→eq}
use ihmc_yovariables_cpp.Registry.VariableList.{
  Variables, NameMap, VariableList, lookup, put, is_in, erase_one, empty, key, any_same_namespace,
  register_variable_in_map, finish_add, add, remove,
}
use ihmc_yovariables_cpp.Registry.VariableList.Counts.{
  count, homonyms, homonyms-put, homonyms-put_other, homonyms-none, homonyms-some, count-append,
  count-is_in, count-erase_one,
}

-- The calls that add a variable or remove one.
pub data Step : Type 0 where
  adds removes : ℕ → Step

module _ (vs : Variables) where
  -- Each variable is in the list as often as among the homonyms of its name, and at most once.
  abbrev pub IsTied : VariableList → Type 0
  IsTied l =
      (v : ℕ)
      → (count v l.variable_list ≡ count v (homonyms (key vs v) l.simple_name_to_variables_map))
        × (count v l.variable_list ≤ 1)

  -- What a change of the homonyms of `v` means for another variable.
  homonyms_after :
      (v u : ℕ) (us : List ℕ) (m : NameMap)
      → ((homonyms (key vs u) (put (key vs v) us m) ≡ us)
          × (homonyms (key vs u) m ≡ homonyms (key vs v) m))
        ⊎ ((v ≢ u) × (homonyms (key vs u) (put (key vs v) us m) ≡ homonyms (key vs u) m))
  homonyms_after v u us m = elim (Bool-cases (eq_name (key vs v) (key vs u))) [
    | inl e ↦
        let same_key : key vs v ≡ key vs u = eq_name→eq (key vs v) (key vs u) e in
        inl (
          ap (λ (k : Name). homonyms k (put (key vs v) us m)) (sym same_key)
              ∙ homonyms-put (key vs v) us m,
          ap (λ (k : Name). homonyms k m) (sym same_key),
        )
    | inr ne ↦ inr (
      λ same_variable.
          let clash : eq_name (key vs v) (key vs u) ≡ true =
            ap (λ (w : ℕ). eq_name (key vs v) (key vs w)) (sym same_variable)
            ∙ eq_name_refl (key vs v) in
          absurd (ground (arith, ne, clash)),
      homonyms-put_other (key vs v) (key vs u) us m ne,
    )
  ]

  at_most_one :
      (v u : ℕ) (us : List ℕ) → count v us ≡ 0 → count u us ≤ 1 → count u (us ++ v ∷ []) ≤ 1
  at_most_one v u us h k = elim (ℕ_discrete v u) [
    | yes e ↦
        let none_yet : count u us ≡ 0 = subst (λ w. count w us ≡ 0) e h in
        ground (arith, count-append u v us)
    | no ne ↦ ground (arith, count-append u v us)
  ]

  -- Both the list and the homonyms get one `v` at the end.
  IsTied-append :
      (v : ℕ) (l : VariableList) (hs : List ℕ)
      → IsTied l
      → homonyms (key vs v) l.simple_name_to_variables_map ≡ hs
      → is_in v hs ≡ false
      → IsTied (record {
        variable_list = l.variable_list ++ v ∷ [];
        simple_name_to_variables_map = put (key vs v) (hs ++ v ∷ []) l.simple_name_to_variables_map;
      })
  IsTied-append v l hs t h absent u =
      let m = l.simple_name_to_variables_map in
      let none_yet : count v l.variable_list ≡ 0 =
        (t v).0 ∙ ap (count v) h ∙ count-is_in v hs absent in
      elim (homonyms_after v u (hs ++ v ∷ []) m) [
        | inl (after, before) ↦
            let held : count u (homonyms (key vs u) m) ≡ count u hs = ap (count u) (before ∙ h) in
            (
              count-append u v l.variable_list
                  ∙ ap (λ (n : ℕ). n + (if v == u then 1 else 0)) ((t u).0 ∙ held)
                  ∙ sym (count-append u v hs)
                  ∙ sym (ap (count u) after),
              at_most_one v u l.variable_list none_yet (t u).1,
            )
        | inr (other, after) ↦ (
          count-append u v l.variable_list
              ∙ ap (λ (b : Bool). count u l.variable_list + (if b then 1 else 0)) (==_ne v u other)
              ∙ (let plain : count u l.variable_list + 0 ≡ count u l.variable_list = omega arith in
                  plain)
              ∙ (t u).0
              ∙ sym (ap (count u) after),
          at_most_one v u l.variable_list none_yet (t u).1,
        )
      ]

  -- Both the list and the homonyms lose one `v`.
  IsTied-erase_one :
      (v : ℕ) (l : VariableList) (hs : List ℕ)
      → IsTied l
      → homonyms (key vs v) l.simple_name_to_variables_map ≡ hs
      → IsTied (record {
        variable_list = erase_one v l.variable_list;
        simple_name_to_variables_map =
            put (key vs v) (erase_one v hs) l.simple_name_to_variables_map;
      })
  IsTied-erase_one v l hs t h u =
      let m = l.simple_name_to_variables_map in
      let fewer : count u (erase_one v l.variable_list) ≤ 1 =
        (let bound = (t u).1 in
          let erased = count-erase_one v u l.variable_list in omega (arith, bound, erased)) in
      elim (homonyms_after v u (erase_one v hs) m) [
        | inl (after, before) ↦
            let held : count u (homonyms (key vs u) m) ≡ count u hs = ap (count u) (before ∙ h) in
            (
              count-erase_one v u l.variable_list
                  ∙ ap (λ (n : ℕ). n - (if v == u then 1 else 0)) ((t u).0 ∙ held)
                  ∙ sym (count-erase_one v u hs)
                  ∙ sym (ap (count u) after),
              fewer,
            )
        | inr (other, after) ↦ (
          count-erase_one v u l.variable_list
              ∙ ap (λ (b : Bool). count u l.variable_list - (if b then 1 else 0)) (==_ne v u other)
              ∙ (let plain : count u l.variable_list - 0 ≡ count u l.variable_list = omega arith in
                  plain)
              ∙ (t u).0
              ∙ sym (ap (count u) after),
          fewer,
        )
      ]

  erase_absent : (v : ℕ) (us : List ℕ) → count v us ≡ 0 → erase_one v us ≡ us
  erase_absent v [] h = refl
  erase_absent v (u ∷ us) h = ground (arith, erase_absent v us)

  abbrev with_last : ℕ → List ℕ → VariableList → VariableList
  with_last v hs l = record {
    variable_list = l.variable_list ++ v ∷ [];
    simple_name_to_variables_map = put (key vs v) (hs ++ v ∷ []) l.simple_name_to_variables_map;
  }

  -- The ways in which `add` ends.
  add-cases :
      (v : ℕ) (l : VariableList)
      → (add vs v l ≡ (none, l))
        ⊎ (add vs v l ≡ (some false, l))
        ⊎ ((hs : List ℕ) × (homonyms (key vs v) l.simple_name_to_variables_map ≡ hs)
            × (is_in v hs ≡ false)
            × (add vs v l ≡ (some true, with_last v hs l)))
  unfolding add register_variable_in_map
  add-cases v l =
      let m = l.simple_name_to_variables_map in
      let from = λ (r : Option Bool × NameMap). finish_add vs v l r in
      elim (Option-cases (lookup (key vs v) m)) [
        | inl e ↦
            let registered : register_variable_in_map vs v m
                ≡ (some true, put (key vs v) (v ∷ []) m) =
              rw (register_variable_in_map, e) refl in
            inr (inr ([], homonyms-none (key vs v) m e, refl, ap from registered))
        | inr (hs, e) ↦ elim (Bool-cases (is_in v hs)) [
          | inl found ↦
              let registered : register_variable_in_map vs v m ≡ (some false, m) =
                rw (register_variable_in_map, e, found) refl in
              inr (inl (ap from registered))
          | inr absent ↦ elim (Bool-cases (any_same_namespace vs v hs)) [
            | inl clash ↦
                let registered : register_variable_in_map vs v m ≡ (none, m) =
                  rw (register_variable_in_map, e, absent, clash) refl in
                inl (ap from registered)
            | inr free ↦
                let registered : register_variable_in_map vs v m
                    ≡ (some true, put (key vs v) (hs ++ v ∷ []) m) =
                  rw (register_variable_in_map, e, absent, free) refl in
                inr (inr (hs, homonyms-some (key vs v) hs m e, absent, ap from registered))
          ]
        ]
      ]

  IsTied-add : (v : ℕ) (l : VariableList) → IsTied l → IsTied (add vs v l).1
  IsTied-add v l t = elim (add-cases v l) [
    | inl e ↦ rw e t
    | inr (inl e) ↦ rw e t
    | inr (inr (hs, held, absent, e)) ↦ rw e (IsTied-append v l hs t held absent)
  ]

  remove-cases :
      (v : ℕ) (l : VariableList)
      → IsTied l
      → ((remove vs v l).1 ≡ l)
        ⊎ ((hs : List ℕ) × (homonyms (key vs v) l.simple_name_to_variables_map ≡ hs)
            × ((remove vs v l).1 ≡ record {
              variable_list = erase_one v l.variable_list;
              simple_name_to_variables_map =
                  put (key vs v) (erase_one v hs) l.simple_name_to_variables_map;
            }))
  unfolding remove
  remove-cases v l t = elim (Option-cases (lookup (key vs v) l.simple_name_to_variables_map)) [
    | inl e ↦ inl (rw (remove, e) refl)
    | inr (hs, e) ↦
        let held = homonyms-some (key vs v) hs l.simple_name_to_variables_map e in
        elim (Bool-cases (is_in v hs)) [
          | inl found ↦ inr (hs, held, rw (remove, e, found) refl)
          | inr absent ↦
              let none_here : count v l.variable_list ≡ 0 =
                (t v).0 ∙ ap (count v) held ∙ count-is_in v hs absent in
              inl (rw (remove, e, absent, erase_absent v l.variable_list none_here) refl)
        ]
  ]

  IsTied-remove : (v : ℕ) (l : VariableList) → IsTied l → IsTied (remove vs v l).1
  IsTied-remove v l t = elim (remove-cases v l t) [
    | inl e ↦ subst IsTied (sym e) t
    | inr (hs, held, e) ↦ subst IsTied (sym e) (IsTied-erase_one v l hs t held)
  ]

  -- No variable is among the homonyms of another name than its own.
  abbrev pub IsFiled : VariableList → Type 0
  IsFiled l =
      (v : ℕ) (k : Name)
      → eq_name (key vs v) k ≡ false
      → count v (homonyms k l.simple_name_to_variables_map) ≡ 0

  IsFiled-put :
      (w : ℕ) (xs us : List ℕ) (l : VariableList)
      → IsFiled l
      → ((v : ℕ) → eq_name (key vs v) (key vs w) ≡ false → count v us ≡ 0)
      → IsFiled (record {
        variable_list = xs;
        simple_name_to_variables_map = put (key vs w) us l.simple_name_to_variables_map;
      })
  IsFiled-put w xs us l f none_new v k h =
      let m = l.simple_name_to_variables_map in
      elim (Bool-cases (eq_name (key vs w) k)) [
        | inl e ↦
            let same : key vs w ≡ k = eq_name→eq (key vs w) k e in
            ap (λ (j : Name). count v (homonyms j (put (key vs w) us m))) (sym same)
            ∙ ap (count v) (homonyms-put (key vs w) us m)
            ∙ none_new v (ap (eq_name (key vs v)) same ∙ h)
        | inr ne ↦ ap (count v) (homonyms-put_other (key vs w) k us m ne) ∙ f v k h
      ]

  key_apart : (v w : ℕ) → eq_name (key vs v) (key vs w) ≡ false → w ≢ v
  key_apart v w h same =
      let clash : eq_name (key vs v) (key vs w) ≡ true =
        ap (λ (x : ℕ). eq_name (key vs v) (key vs x)) same ∙ eq_name_refl (key vs v) in
      absurd (cc)

  IsFiled-add : (v : ℕ) (l : VariableList) → IsFiled l → IsFiled (add vs v l).1
  IsFiled-add w l f = elim (add-cases w l) [
    | inl e ↦ rw e f
    | inr (inl e) ↦ rw e f
    | inr (inr (hs, held, absent, e)) ↦
        subst (λ x. IsFiled x.1) (sym e)
          (IsFiled-put w (l.variable_list ++ w ∷ []) (hs ++ w ∷ []) l f λ v h.
            let other : (w == v) ≡ false = ==_ne w v (key_apart v w h) in
            let before : count v hs ≡ 0 = ap (count v) (sym held) ∙ f v (key vs w) h in
            ground (arith, count-append v w hs))
  ]

  IsFiled-remove : (v : ℕ) (l : VariableList) → IsTied l → IsFiled l → IsFiled (remove vs v l).1
  IsFiled-remove w l t f = elim (remove-cases w l t) [
    | inl e ↦ subst IsFiled (sym e) f
    | inr (hs, held, e) ↦ subst IsFiled (sym e) (
        IsFiled-put w (erase_one w l.variable_list) (erase_one w hs) l f λ v h.
          let before : count v hs ≡ 0 = ap (count v) (sym held) ∙ f v (key vs w) h in
          ground (arith, count-erase_one w v hs))
  ]

  add_thrown : (v : ℕ) (l : VariableList) → (add vs v l).0 ≡ none → (add vs v l).1 ≡ l
  add_thrown v l h = elim (add-cases v l) [
    | inl e ↦ ap (λ x. x.1) e
    | inr (inl e) ↦ ap (λ x. x.1) e
    | inr (inr (hs, held, absent, e)) ↦
        let went : (add vs v l).0 ≡ some true = ap (λ x. x.0) e in absurd (cc)
  ]

  -- Calls in order.
  abbrev pub run : List Step → VariableList → VariableList
  run [] l = l
  run (adds v ∷ ss) l = run ss (add vs v l).1
  run (removes v ∷ ss) l = run ss (remove vs v l).1

  run_keeps :
      (ss : List Step) (l : VariableList)
      → IsTied l
      → IsFiled l
      → IsTied (run ss l) × IsFiled (run ss l)
  run_keeps [] l t f = (t, f)
  run_keeps (adds v ∷ ss) l t f = run_keeps ss (add vs v l).1 (IsTied-add v l t) (IsFiled-add v l f)
  run_keeps (removes v ∷ ss) l t f =
      run_keeps ss (remove vs v l).1 (IsTied-remove v l t) (IsFiled-remove v l t f)

  -- Whatever variables are added to a new list and removed again, by their address, and whichever of
  -- these calls throw, the list and the map hold the same variables: each is in the list as often as
  -- among the homonyms of its name, at most once, and not among the homonyms of another name. A further
  -- addition that throws leaves the list and the map as they were.
  pub run-IsTied :
      (ss : List Step)
      → IsTied (run ss empty)
        × IsFiled (run ss empty)
        × ((v : ℕ)
            → (add vs v (run ss empty)).0 ≡ none
            → (add vs v (run ss empty)).1 ≡ run ss empty)
  unfolding empty lookup
  run-IsTied ss =
      let (tied, filed) = run_keeps ss empty (λ v. (refl, omega arith)) (λ v k h. refl) in
      (tied, filed, λ v h. add_thrown v (run ss empty) h)
