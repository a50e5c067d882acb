-- ===== src/Registry/Calls/Sound.antt =====
-- What the registries and the variables keep under a removal and an addition.
use ihmc_yovariables_cpp.Common.{
  ℕ, suc, ◌≤◌, true, false, List, ◌++◌, length, map, Option, none, some, ◌≡◌, ◌≢◌, refl, ap, ◌∙◌,
  Bool-cases, inl, inr, ==_iff, ==_refl, ◌⊎◌,
}
use ihmc_yovariables_cpp.Registry.Names.{separator, find_char}
use ihmc_yovariables_cpp.Registry.Objects.{
  is_removal_allowed, illegal_operation, name_collision, RegistryChange, find, Registry, Variable,
  Store, Outcome, ok, store_of, err, is_at, change_registry, change_variable,
}
use ihmc_yovariables_cpp.Registry.Objects.Update.{
  update_same, update_other, change_registry_keeps, change_variable_keeps,
}
use ihmc_yovariables_cpp.Registry.Tree.Notify.{Lineage, Lineage-same}
use ihmc_yovariables_cpp.Registry.Calls.{variable_key, remove_variable, removes, call}
use ihmc_yovariables_cpp.Registry.Calls.Remove.{forget, removal_calls}
use ihmc_yovariables_cpp.Registry.Calls.Twice.{removed, remove_variable-set_registry}
use ihmc_yovariables_cpp.Registry.Calls.Add.{hold, hold_parameter, added}
use ihmc_yovariables_cpp.Registry.Calls.Tied.{
  Holdings, IsTied, Concerns, IsTied-forgotten, IsTied-held,
}

at_itself : (o : Option ℕ) (v : ℕ) → is_at o v ≡ true → o ≡ some v
at_itself none v h = cc
at_itself (some u) v h = ap some ((==_iff u v).0 h)

not_absent : {o : Option ℕ} {v : ℕ} → o ≡ some v → is_at o v ≡ false → ⊥
not_absent {o} {v} e h = absurd (let self : is_at (some v) v ≡ true = ==_refl v in cc)

module _ (to_lower : ℕ → ℕ) (depth : ℕ) where
  abbrev pub holdings : Store → Holdings
  holdings s = record {
    variables = λ r. (s.registry_at r).variables;
    maps = λ r. (s.registry_at r).name_to_variable_map;
    home = λ v. (s.variable_at v).registry;
    key = λ v. map to_lower (s.variable_at v).name;
  }

  -- The names of variables are legal, the tree is no deeper than the bound, and the registries and
  -- the variables' pointers agree.
  pub record IsSound (s : Store) : Type 0 where
    pub tied : IsTied (holdings s)
    pub plain : (v : ℕ) → find_char separator (s.variable_at v).name ≡ none
    pub paths : (r : ℕ) → (qs : List ℕ) × Lineage s r qs × (length qs ≤ depth)

  -- A change of one variable and one registry that leaves the variable's name alone.
  concerns :
      (v r : ℕ) (f : Registry → Registry) (g : Variable → Variable) (s t : Store)
      → t.registry_at ≡ (change_registry r f s).registry_at
      → t.variable_at ≡ (change_variable v g s).variable_at
      → ((x : Variable) → (g x).name ≡ x.name)
      → Concerns v r (holdings s) (holdings t)
  concerns v r f g s t rs vs same = record {
    other_variables = λ q ne.
        ap (λ h. (h q).variables) rs
        ∙ ap (λ (x : Registry). x.variables) (update_other s.registry_at r q _ ne);
    other_maps = λ q ne.
        ap (λ h. (h q).name_to_variable_map) rs
        ∙ ap (λ (x : Registry). x.name_to_variable_map) (update_other s.registry_at r q _ ne);
    other_homes = λ u ne.
        ap (λ h. (h u).registry) vs
        ∙ ap (λ (x : Variable). x.registry) (update_other s.variable_at v u _ ne);
    same_keys = λ u.
        ap (λ h. map to_lower (h u).name) vs
        ∙ change_variable_keeps (λ x. map to_lower x.name) v g s (λ x. ap (map to_lower) (same x))
            u;
  }

  -- What such a change keeps, if the registry and the variable are tied again.
  IsSound-change :
      (v r : ℕ) (f : Registry → Registry) (g : Variable → Variable) (cs : List (ℕ × RegistryChange))
      (s : Store)
      → ((x : Variable) → (g x).name ≡ x.name)
      → ((x : Registry) → (f x).parent ≡ x.parent)
      → IsSound s
      → let t : Store = record {
        registry_at = (change_registry r f s).registry_at;
        variable_at = (change_variable v g s).variable_at;
        told = cs;
      } in
        IsTied (holdings t) → IsSound t
  IsSound-change v r f g cs s names parents sound tied = record {
    tied = tied;
    plain = λ u.
        ap (find_char separator) (change_variable_keeps (λ x. x.name) v g s names u)
        ∙ sound.plain u;
    paths = λ q.
        let (qs, path, deep) = sound.paths q in
        (qs, Lineage-same (change_registry_keeps (λ x. x.parent) r f s parents) path, deep);
  }

  -- What a removal changes in the registry, and in the variable.
  abbrev pub forget_twice : ℕ → ℕ → Store → Registry → Registry
  forget_twice v r s g =
      let k = variable_key to_lower depth s v in
      let p = (s.variable_at v).parameter in forget v k p (forget v k p g)

  abbrev homeless : Variable → Variable
  homeless u = record u { registry = none; full_name = none }

  pub removed-IsSound :
      (v r : ℕ) (cs : List (ℕ × RegistryChange)) (s : Store)
      → IsSound s
      → (s.variable_at v).registry ≡ some r
      → IsSound (removed to_lower depth v r cs s)
  unfolding variable_key
  removed-IsSound v r cs s sound at =
      let t = removed to_lower depth v r cs s in
      IsSound-change v r (forget_twice v r s) homeless (s.told ++ (cs ++ cs)) s (λ x. refl)
        (λ x. refl) sound
        (IsTied-forgotten v r (holdings s) (holdings t)
          (concerns v r (forget_twice v r s) homeless s t refl refl (λ x. refl)) sound.tied at
          (ap (λ (g : Registry). g.variables) (update_same s.registry_at r _))
          (ap (λ (g : Registry). g.name_to_variable_map) (update_same s.registry_at r _))
          (ap (λ (u : Variable). u.registry) (update_same s.variable_at v _)))

  abbrev held_now : ℕ → Store → Registry → Registry
  held_now v s g =
      hold_parameter (s.variable_at v).parameter (hold v (variable_key to_lower depth s v) g)

  abbrev homed : ℕ → Variable → Variable
  homed r u = record u { registry = some r; full_name = none }

  pub added-IsSound :
      (v r : ℕ) (cs : List (ℕ × RegistryChange)) (s : Store)
      → IsSound s
      → (s.variable_at v).registry ≡ none
      → find (variable_key to_lower depth s v) (s.registry_at r).name_to_variable_map ≡ none
      → IsSound (added to_lower depth v r cs s)
  unfolding variable_key
  added-IsSound v r cs s sound alone fresh =
      let t = added to_lower depth v r cs s in
      IsSound-change v r (held_now v s) (homed r) (s.told ++ cs) s (λ x. refl) (λ x. refl) sound
        (IsTied-held v r (holdings s) (holdings t)
          (concerns v r (held_now v s) (homed r) s t refl refl (λ x. refl)) sound.tied alone fresh
          (ap (λ (g : Registry). g.variables) (update_same s.registry_at r _))
          (ap (λ (g : Registry). g.name_to_variable_map) (update_same s.registry_at r _))
          (ap (λ (u : Variable). u.registry) (update_same s.variable_at v _)))

  -- The ways in which a removal ends.
  pub removal-cases :
      (n v r : ℕ) (s : Store)
      → IsSound s
      → (((s.variable_at v).registry ≢ some r)
          × (call to_lower depth (suc (suc (suc (suc n)))) (removes v r) s ≡ ok tt s))
        ⊎ (call to_lower depth (suc (suc (suc (suc n)))) (removes v r) s ≡ err illegal_operation s)
        ⊎ ((cs : List (ℕ × RegistryChange)) × ((s.variable_at v).registry ≡ some r)
            × (call to_lower depth (suc (suc (suc (suc n)))) (removes v r) s
                ≡ ok tt (removed to_lower depth v r cs s)))
  unfolding call remove_variable variable_key
  removal-cases n v r s sound =
      elim (Bool-cases
        (is_at (find (variable_key to_lower depth s v) (s.registry_at r).name_to_variable_map) v)) [
          | inr absent ↦ inl (
            (λ home. let held = sound.tied.kept r v home in absurd (not_absent held absent)),
            rw absent refl,
          )
          | inl present ↦
              let held = at_itself _ v present in
              let home = (sound.tied.found r v _ held).1 in
              elim (Bool-cases (is_removal_allowed (s.registry_at r).restriction_level)) [
                | inr refused ↦ inr (inl (rw (held, ==_refl v, refused) refl))
                | inl allowed ↦
                    let (qs, path, deep) = sound.paths r in
                    inr (
                      inr (
                        removal_calls s v r qs,
                        home,
                        remove_variable-set_registry to_lower depth n v r qs s home (sound.plain v)
                            held allowed path deep,
                      ))
              ]
        ]

  -- How a call ends: with everything agreeing, or with one of two exceptions and nothing changed.
  pub data Ends (s : Store) : Outcome (Unit {0}) → Type 0 where
    goes_through : {t : Store} → IsSound t → Ends s (ok tt t)
    is_illegal : Ends s (err illegal_operation s)
    collides : Ends s (err name_collision s)

  pub Ends-IsSound :
      {s : Store} {o : Outcome (Unit {0})} → IsSound s → Ends s o → IsSound (store_of o)
  Ends-IsSound sound (goes_through agrees) = agrees
  Ends-IsSound sound is_illegal = sound
  Ends-IsSound sound collides = sound

  pub removes-Ends :
      (n v r : ℕ) (s : Store)
      → IsSound s
      → Ends s (call to_lower depth (suc (suc (suc (suc n)))) (removes v r) s)
  removes-Ends n v r s sound = elim (removal-cases n v r s sound) [
    | inl (_, e) ↦ rw e (goes_through sound)
    | inr (inl e) ↦ rw e is_illegal
    | inr (inr (cs, home, e)) ↦ rw e (goes_through (removed-IsSound v r cs s sound home))
  ]
