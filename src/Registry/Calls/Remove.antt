-- ===== src/Registry/Calls/Remove.antt =====
-- Removals of a variable, with the calls that they nest.
use ihmc_yovariables_cpp.Common.{
  ℕ, zero, suc, ◌≤◌, true, List, [], ◌∷◌, length, Option, none, some, ◌≡◌, refl, ap, map, arith,
  ==_refl, if◌then◌else◌,
}
use ihmc_yovariables_cpp.Registry.Names.{
  Name, separator, find_char, find_last, contains_char, check_name_does_not_contain_separator,
}
use ihmc_yovariables_cpp.Registry.VariableList.{erase_one, erase_all}
use ihmc_yovariables_cpp.Registry.Objects.{
  is_removal_allowed, variable_removed, RegistryChange, find, erase, Registry, Variable, Store,
  Outcome, Command, ok, ◌>>=◌, ◌>>◌, change_registry, change_variable,
}
use ihmc_yovariables_cpp.Registry.Objects.Update.{
  update_same, change_registry_twice, change_registry_keeps,
}
use ihmc_yovariables_cpp.Registry.Tree.{reset_full_name}
use ihmc_yovariables_cpp.Registry.Tree.Notify.{
  Lineage, root, below, Lineage-same, calls_along, calls_along-same, tell, notify_listeners_lem,
}
use ihmc_yovariables_cpp.Registry.Search.{
  has_variable_named, find_variable_named, find_variable, find_first_variable, matches,
  get_variable, split_trailing_name,
}
use ihmc_yovariables_cpp.Registry.Calls.{
  on_parameter, with_registry, variable_key, same_pointer, remove_variable, set_registry, leave,
  join, sets, adds, removes, call,
}

find_last-none : (c : ℕ) (s : Name) → find_char c s ≡ none → find_last c s ≡ none
find_last-none c [] h = refl
find_last-none c (x ∷ xs) h = ground (arith, find_last-none c xs)

-- What a registry forgets of a variable.
abbrev pub forget : ℕ → Name → Option ℕ → Registry → Registry
forget v k parameter g = record g {
  variables = erase_all v g.variables;
  name_to_variable_map = erase k g.name_to_variable_map;
  parameters = on_parameter erase_one parameter g.parameters;
}

abbrev pub taken : Name → ℕ → ℕ → Store → Store
taken k v r s = change_registry r (forget v k (s.variable_at v).parameter) s

abbrev pub removal_calls : Store → ℕ → ℕ → List ℕ → List (ℕ × RegistryChange)
removal_calls s v r qs = calls_along s (some r) none (some v) variable_removed qs

pub Path-taken :
    (k : Name) (v r q : ℕ) (qs : List ℕ) (s : Store) → Lineage s q qs → Lineage (taken k v r s) q qs
Path-taken k v r q qs s =
    Lineage-same (
      change_registry_keeps (λ g. g.parent) r (forget v k (s.variable_at v).parameter) s
        (λ g. refl))

pub calls_along-taken :
    (k : Name) (v r : ℕ) (qs : List ℕ) (s : Store)
    → removal_calls (taken k v r s) v r qs ≡ removal_calls s v r qs
calls_along-taken k v r qs s =
    calls_along-same s (taken k v r s) (some r) none (some v) variable_removed
      (change_registry_keeps (λ g. g.changed_listeners) r (forget v k (s.variable_at v).parameter) s
        (λ g. refl))
      qs

-- A variable that belongs to no registry, and keeps no full name.
abbrev pub reset : ℕ → Store → Store
reset v s = change_variable v (λ u. record u { full_name = none }) (with_registry none v s)

pub variable_at-released :
    (v : ℕ) (s : Store)
    → (with_registry none v s).variable_at v ≡ record (s.variable_at v) { registry = none }
variable_at-released v s =
    update_same s.variable_at v (record (s.variable_at v) { registry = none })

pub Lineage-nonempty : {s : Store} {r : ℕ} {qs : List ℕ} → Lineage s r qs → 1 ≤ length qs
Lineage-nonempty (root e) = omega arith
Lineage-nonempty (below e h) = omega arith

module _ (to_lower : ℕ → ℕ) (depth : ℕ) where
  -- A removal, by what its call of `setRegistry` gives.
  pub remove_variable_lem :
      (set : ℕ → Option ℕ → Command) (k : Name) (v r : ℕ) (qs : List ℕ) (s t : Store)
      → variable_key to_lower depth s v ≡ k
      → find k (s.registry_at r).name_to_variable_map ≡ some v
      → is_removal_allowed (s.registry_at r).restriction_level ≡ true
      → set v none s ≡ ok tt t
      → Lineage t r qs
      → length qs ≤ depth
      → remove_variable to_lower depth set v r s
        ≡ ok tt (tell (removal_calls t v r qs) (taken k v r t))
  unfolding remove_variable
  remove_variable_lem set k v r qs s t key held allowed reset path deep =
      let one_write =
        change_registry_twice r
          (λ g. record g {
            parameters = on_parameter erase_one (t.variable_at v).parameter g.parameters;
          })
          (λ g. record g {
            variables = erase_all v g.variables;
            name_to_variable_map = erase k g.name_to_variable_map;
          })
          t in
      rw
        (
          key,
          held,
          ==_refl v,
          allowed,
          ◌>>◌,
          ◌>>=◌,
          reset,
          key,
          one_write,
          notify_listeners_lem depth (some r) none (some v) variable_removed r qs (taken k v r t)
              (Path-taken k v r r qs t path) deep,
          calls_along-taken k v r qs t,
        )
        refl

  -- A pointer that does not change.
  pub sets_same :
      (n v : ℕ) (target : Option ℕ) (s : Store)
      → (s.variable_at v).registry ≡ target
      → call to_lower depth (suc n) (sets v target) s ≡ ok tt s
  unfolding call set_registry
  sets_same n v none s e = rw e refl
  sets_same n v (some r) s e = rw (e, ==_refl r) refl

  -- The removal of a variable whose pointer to its registry is reset already.
  inner_removal :
      (n : ℕ) (k : Name) (v r : ℕ) (qs : List ℕ) (s : Store)
      → variable_key to_lower depth s v ≡ k
      → find k (s.registry_at r).name_to_variable_map ≡ some v
      → is_removal_allowed (s.registry_at r).restriction_level ≡ true
      → (s.variable_at v).registry ≡ none
      → Lineage s r qs
      → length qs ≤ depth
      → call to_lower depth (suc (suc n)) (removes v r) s
        ≡ ok tt (tell (removal_calls s v r qs) (taken k v r s))
  unfolding call
  inner_removal n k v r qs s key held allowed alone path deep =
      remove_variable_lem (λ u q. call to_lower depth (suc n) (sets u q)) k v r qs s s key held
        allowed (sets_same n v none s alone) path deep

  -- A registry finds the variables that it holds.
  has_variable-held :
      (name : Name) (v r d : ℕ) (s : Store)
      → find_char separator name ≡ none
      → find (map to_lower name) (s.registry_at r).name_to_variable_map ≡ some v
      → 1 ≤ d
      → has_variable_named to_lower d name s r ≡ some true
  unfolding has_variable_named find_variable_named find_variable find_first_variable matches
      get_variable split_trailing_name check_name_does_not_contain_separator
  has_variable-held name v r zero s plain held deep = absurd (omega arith)
  has_variable-held name v r (suc d) s plain held deep =
      rw
        (
          split_trailing_name,
          find_last-none separator name plain,
          find_first_variable,
          held,
          contains_char,
          plain,
        )
        refl

  -- Leaving a registry that holds the variable, by what the removal gives.
  pub leave-held :
      (remove : ℕ → ℕ → Command) (name : Name) (v r : ℕ) (s : Store) (end : Outcome (Unit {0}))
      → find_char separator name ≡ none
      → find (map to_lower name) (s.registry_at r).name_to_variable_map ≡ some v
      → 1 ≤ depth
      → remove v r s ≡ end
      → leave to_lower depth remove name v (some r) s ≡ end
  unfolding leave
  leave-held remove name v r s end plain held deep removed =
      rw (has_variable-held name v r depth s plain held deep, removed) refl

  -- Resetting the pointer to the registry.
  pub set_registry-none :
      (add remove : ℕ → ℕ → Command) (v r : ℕ) (s t : Store)
      → (s.variable_at v).registry ≡ some r
      → leave to_lower depth remove (s.variable_at v).name v (some r) (with_registry none v s)
        ≡ ok tt t
      → set_registry to_lower depth add remove v none s ≡ ok tt (reset v t)
  unfolding set_registry join reset_full_name
  set_registry-none add remove v r s t at left =
      rw (at, same_pointer, if◌then◌else◌, ◌>>◌, ◌>>=◌, left) refl

  -- The pointer of a variable to a registry that holds it is reset.
  pub sets_none :
      (n v r : ℕ) (qs : List ℕ) (s : Store)
      → (s.variable_at v).registry ≡ some r
      → find_char separator (s.variable_at v).name ≡ none
      → find (variable_key to_lower depth s v) (s.registry_at r).name_to_variable_map ≡ some v
      → is_removal_allowed (s.registry_at r).restriction_level ≡ true
      → Lineage s r qs
      → length qs ≤ depth
      → call to_lower depth (suc (suc (suc n))) (sets v none) s
        ≡ ok tt (
            reset v (
              tell
                (removal_calls s v r qs)
                (taken (variable_key to_lower depth s v) v r (with_registry none v s))))
  unfolding call variable_key
  sets_none n v r qs s at plain held allowed path deep =
      let name = (s.variable_at v).name in
      let t = with_registry none v s in
      let same = variable_at-released v s in
      set_registry-none (λ u q. call to_lower depth (suc (suc n)) (adds u q))
        (λ u q. call to_lower depth (suc (suc n)) (removes u q)) v r s _ at
        (leave-held (λ u q. call to_lower depth (suc (suc n)) (removes u q)) name v r t _ plain held
          (omega (arith, Lineage-nonempty path))
          (inner_removal n (map to_lower name) v r qs t
            (ap (λ (u : Variable). map to_lower u.name) same) held allowed
            (ap (λ (u : Variable). u.registry) same) (Lineage-same (λ q. refl) path) deep))
