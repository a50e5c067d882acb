-- ===== src/Registry/Calls/Add.antt =====
-- Additions of a variable, with the calls that they nest.
use ihmc_yovariables_cpp.Common.{
  ℕ, suc, ◌≤◌, true, false, List, [], ◌∷◌, ◌++◌, length, map, if◌then◌else◌, Option, none, some,
  ◌≡◌, refl, ap, ◌∙◌, ==_refl,
}
use ihmc_yovariables_cpp.Registry.Names.{Name, separator, find_char}
use ihmc_yovariables_cpp.Registry.Objects.{
  is_addition_allowed, is_removal_allowed, variable_added, illegal_operation, RegistryChange, find,
  insert, Registry, Variable, Store, Outcome, Command, ok, err, ◌>>=◌, ◌>>◌, update,
  change_registry, change_variable,
}
use ihmc_yovariables_cpp.Registry.Objects.Update.{
  update_same, update-update, change_registry_keeps, find-insert,
}
use ihmc_yovariables_cpp.Registry.Tree.{reset_full_name}
use ihmc_yovariables_cpp.Registry.Search.{get_variable}
use ihmc_yovariables_cpp.Registry.Tree.Notify.{
  Lineage, Lineage-same, calls_along, calls_along-same, tell, notify_listeners_lem,
}
use ihmc_yovariables_cpp.Registry.Calls.{
  same_pointer, on_parameter, with_registry, variable_key, leave, join, set_registry, add_variable,
  remove_variable, place_variable, sets, adds, removes, call,
}
use ihmc_yovariables_cpp.Registry.Calls.Twice.{store_ext}
use ihmc_yovariables_cpp.Registry.Calls.Remove.{variable_at-released, leave-held}

-- What a registry keeps of a variable.
abbrev pub hold : ℕ → Name → Registry → Registry
hold v k g = record g {
  variables = g.variables ++ v ∷ [];
  name_to_variable_map = insert k v g.name_to_variable_map;
}

abbrev pub hold_parameter : Option ℕ → Registry → Registry
hold_parameter p g = record g { parameters = on_parameter (λ q qs. qs ++ q ∷ []) p g.parameters }

-- A variable that belongs to a registry, and keeps no full name.
abbrev pub joined : ℕ → ℕ → Store → Store
joined v r s =
    change_variable v (λ u. record u { full_name = none })
      (with_registry (some r) v (with_registry none v s))

module _ (to_lower : ℕ → ℕ) (depth : ℕ) where
  -- A variable that the registry holds already.
  adds_held :
      (n v r : ℕ) (s : Store)
      → is_addition_allowed (s.registry_at r).restriction_level ≡ true
      → find (variable_key to_lower depth s v) (s.registry_at r).name_to_variable_map ≡ some v
      → call to_lower depth (suc n) (adds v r) s ≡ ok tt s
  unfolding call add_variable variable_key
  adds_held n v r s allowed held = rw (allowed, ◌>>=◌, held, ==_refl v) refl

  join-held :
      (add : ℕ → ℕ → Command) (name : Name) (v r : ℕ) (s : Store) (end : Outcome (Unit {0}))
      → find (map to_lower name) (s.registry_at r).name_to_variable_map ≡ some v
      → add v r s ≡ end
      → join to_lower depth add name v (some r) s ≡ end
  unfolding join get_variable
  join-held add name v r s end held e = rw (held, ==_refl v, e) refl

  set_registry-some :
      (add remove : ℕ → ℕ → Command) (v r : ℕ) (s t : Store)
      → (s.variable_at v).registry ≡ none
      → join to_lower depth add (s.variable_at v).name v (some r) (with_registry none v s) ≡ ok tt t
      → set_registry to_lower depth add remove v (some r) s
        ≡ ok tt
            (change_variable v (λ u. record u { full_name = none }) (with_registry (some r) v t))
  unfolding set_registry leave reset_full_name
  set_registry-some add remove v r s t alone e =
      rw (alone, same_pointer, if◌then◌else◌, ◌>>◌, ◌>>=◌, e) refl

  -- The call of `setRegistry` in `addVariable`.
  sets_some :
      (n v r : ℕ) (s : Store)
      → (s.variable_at v).registry ≡ none
      → is_addition_allowed (s.registry_at r).restriction_level ≡ true
      → find (variable_key to_lower depth s v) (s.registry_at r).name_to_variable_map ≡ some v
      → call to_lower depth (suc (suc n)) (sets v (some r)) s ≡ ok tt (joined v r s)
  unfolding call variable_key
  sets_some n v r s alone allowed held =
      let u = with_registry none v s in
      let key : variable_key to_lower depth u v ≡ variable_key to_lower depth s v =
        ap (λ (x : Variable). map to_lower x.name) (variable_at-released v s) in
      let again = adds_held n v r u allowed (rw key held) in
      set_registry-some (λ x q. call to_lower depth (suc n) (adds x q))
        (λ x q. call to_lower depth (suc n) (removes x q)) v r s u alone
        (join-held (λ x q. call to_lower depth (suc n) (adds x q)) (s.variable_at v).name v r u _
          held again)

  abbrev pub added : ℕ → ℕ → List (ℕ × RegistryChange) → Store → Store
  added v r cs s = record {
    registry_at = update s.registry_at r (
        hold_parameter (s.variable_at v).parameter
          (hold v (variable_key to_lower depth s v) (s.registry_at r)));
    variable_at =
        update s.variable_at v (record (s.variable_at v) { registry = some r; full_name = none });
    told = s.told ++ cs;
  }

  place_variable_lem :
      (set : ℕ → Option ℕ → Command) (remove : ℕ → ℕ → Command) (k : Name) (v r : ℕ) (qs : List ℕ)
      (s t : Store)
      → (s.variable_at v).registry ≡ none
      → set v (some r) (change_registry r (hold v k) s) ≡ ok tt t
      → Lineage t r qs
      → length qs ≤ depth
      → place_variable to_lower depth set remove k v r s ≡ (
          let u = change_registry r (hold_parameter (t.variable_at v).parameter) t in
          ok tt (tell (calls_along u (some r) none (some v) variable_added qs) u))
  unfolding place_variable
  place_variable_lem set remove k v r qs s t alone e path deep =
      let u = change_registry r (hold_parameter (t.variable_at v).parameter) t in
      let above =
        change_registry_keeps (λ (g : Registry). g.parent) r
          (hold_parameter (t.variable_at v).parameter) t (λ g. refl) in
      rw
        (
          alone,
          ◌>>◌,
          ◌>>=◌,
          e,
          notify_listeners_lem depth (some r) none (some v) variable_added r qs u
              (Lineage-same above path) deep,
        )
        refl

  parameter-joined :
      (v r : ℕ) (s : Store) → ((joined v r s).variable_at v).parameter ≡ (s.variable_at v).parameter
  parameter-joined v r s =
      let parameter = λ (u : Variable). u.parameter in
      ap parameter (update_same (with_registry (some r) v (with_registry none v s)).variable_at v _)
      ∙ ap parameter (update_same (with_registry none v s).variable_at v _)
      ∙ ap parameter (variable_at-released v s)

  settled :
      (v r : ℕ) (cs : List (ℕ × RegistryChange)) (s : Store)
      → let t = joined v r (change_registry r (hold v (variable_key to_lower depth s v)) s) in
        tell cs (change_registry r (hold_parameter (t.variable_at v).parameter) t) ≡ added v r cs s
  settled v r cs s =
      let k = variable_key to_lower depth s v in
      let s1 = change_registry r (hold v k) s in
      let p = ((joined v r s1).variable_at v).parameter in
      store_ext
        (update-update s.registry_at r (hold v k (s.registry_at r)) (hold_parameter p)
          ∙ ap (λ x. update s.registry_at r (hold_parameter x (hold v k (s.registry_at r))))
              (parameter-joined v r s1))
        (update-update (with_registry none v s).variable_at v _ (λ u. record u { full_name = none })
          ∙ update-update s.variable_at v _ (λ u. record u { registry = some r; full_name = none }))
        refl

  -- Adding a variable that belongs to no registry ends without an exception where additions are
  -- allowed and no variable has its name in lower case, for a tree that is no deeper than the bound
  -- and three nested calls. The registry then holds the variable last, finds it under its name and
  -- keeps the parameter that it may be; the variable points at the registry, with no full name kept;
  -- every listener of the registry and of its ancestors is told once, from the registry up. Nothing
  -- else has changed.
  pub add_variable-set_registry :
      (n v r : ℕ) (qs : List ℕ) (s : Store)
      → (s.variable_at v).registry ≡ none
      → find (variable_key to_lower depth s v) (s.registry_at r).name_to_variable_map ≡ none
      → is_addition_allowed (s.registry_at r).restriction_level ≡ true
      → Lineage s r qs
      → length qs ≤ depth
      → call to_lower depth (suc (suc (suc n))) (adds v r) s
        ≡ ok tt (added v r (calls_along s (some r) none (some v) variable_added qs) s)
  unfolding call add_variable variable_key
  add_variable-set_registry n v r qs s alone fresh allowed path deep =
      let k = variable_key to_lower depth s v in
      let s1 = change_registry r (hold v k) s in
      let t = joined v r s1 in
      let p = (t.variable_at v).parameter in
      let u = change_registry r (hold_parameter p) t in
      let open_still : is_addition_allowed (s1.registry_at r).restriction_level ≡ true =
        ap is_addition_allowed (
          change_registry_keeps (λ (g : Registry). g.restriction_level) r (hold v k) s (λ g. refl)
            r)
        ∙ allowed in
      let held : find k (s1.registry_at r).name_to_variable_map ≡ some v =
        ap (λ (g : Registry). find k g.name_to_variable_map) (update_same s.registry_at r _)
        ∙ find-insert k v (s.registry_at r).name_to_variable_map in
      let parents = λ (q : ℕ).
        change_registry_keeps (λ (g : Registry). g.parent) r (hold v k) s (λ g. refl) q in
      let listeners = λ (q : ℕ).
        change_registry_keeps (λ (g : Registry). g.changed_listeners) r (hold_parameter p) t
          (λ g. refl) q
        ∙ change_registry_keeps (λ (g : Registry). g.changed_listeners) r (hold v k) s (λ g. refl)
            q in
      rw (allowed, ◌>>=◌, fresh)
        (place_variable_lem (λ x q. call to_lower depth (suc (suc n)) (sets x q))
            (λ x q. call to_lower depth (suc (suc n)) (removes x q)) k v r qs s t alone
            (sets_some n v r s1 alone open_still held) (Lineage-same parents path) deep
          ∙ ap (λ cs. ok tt (tell cs u))
              (calls_along-same s u (some r) none (some v) variable_added listeners qs)
          ∙ ap (ok tt) (settled v r (calls_along s (some r) none (some v) variable_added qs) s))

  -- A pointer to a registry cannot be changed while the registry that holds the variable allows no
  -- removal: `setRegistry` throws. By then it has reset the pointer, so that the variable points at
  -- no registry; nothing else has changed, and the old registry still holds it.
  pub set_registry-removal_refused :
      (n v r : ℕ) (target : Option ℕ) (s : Store)
      → (s.variable_at v).registry ≡ some r
      → same_pointer target (some r) ≡ false
      → find_char separator (s.variable_at v).name ≡ none
      → find (variable_key to_lower depth s v) (s.registry_at r).name_to_variable_map ≡ some v
      → is_removal_allowed (s.registry_at r).restriction_level ≡ false
      → 1 ≤ depth
      → call to_lower depth (suc (suc n)) (sets v target) s
        ≡ err illegal_operation (with_registry none v s)
  unfolding call set_registry variable_key remove_variable
  set_registry-removal_refused n v r target s at differs plain held refused deep =
      let u = with_registry none v s in
      let key : variable_key to_lower depth u v ≡ variable_key to_lower depth s v =
        ap (λ (x : Variable). map to_lower x.name) (variable_at-released v s) in
      let thrown : call to_lower depth (suc n) (removes v r) u ≡ err illegal_operation u =
        rw (key, held, ==_refl v, refused) refl in
      rw
        (
          at,
          differs,
          if◌then◌else◌,
          ◌>>◌,
          ◌>>=◌,
          leave-held to_lower depth (λ x q. call to_lower depth (suc n) (removes x q))
              (s.variable_at v).name v r u _ plain held deep thrown,
        )
        refl
