-- ===== src/Registry/Calls/Twice.antt =====
-- The whole of a removal, with what the listeners are told.
use ihmc_yovariables_cpp.Common.{
  ℕ, suc, ◌≤◌, true, List, ◌++◌, length, none, some, ◌≡◌, refl, ap, ◌∙◌,
}
use ihmc_yovariables_cpp.Registry.Names.{separator, find_char}
use ihmc_yovariables_cpp.Registry.Objects.{
  is_removal_allowed, variable_removed, RegistryChange, find, Registry, Variable, Store, ok, update,
}
use ihmc_yovariables_cpp.Registry.Objects.Update.{update_same, update-update}
use ihmc_yovariables_cpp.Registry.Tree.Notify.{Lineage, Lineage-same, calls_along-same, tell}
use ihmc_yovariables_cpp.Registry.Calls.{with_registry, variable_key, sets, removes, call}
use ihmc_yovariables_cpp.Registry.Calls.Remove.{
  forget, taken, removal_calls, Path-taken, calls_along-taken, remove_variable_lem, reset,
  variable_at-released, sets_none,
}
use mathlib.Core.List.{append_assoc}

parameter-reset :
    (v : ℕ) (s : Store) → ((reset v s).variable_at v).parameter ≡ (s.variable_at v).parameter
parameter-reset v s =
    ap (λ (u : Variable). u.parameter) (update_same (with_registry none v s).variable_at v _)
    ∙ ap (λ (u : Variable). u.parameter) (variable_at-released v s)

pub store_ext :
    {a b : ℕ → Registry} {c d : ℕ → Variable} {e f : List (ℕ × RegistryChange)}
    → a ≡ b
    → c ≡ d
    → e ≡ f
    → (let x : Store = record { registry_at = a; variable_at = c; told = e } in x)
      ≡ record { registry_at = b; variable_at = d; told = f }
store_ext p q r = rw (p, q, r) refl

module _ (to_lower : ℕ → ℕ) (depth : ℕ) where
  -- What a removal leaves: the variable belongs to no registry, and the registry has forgotten it
  -- in both of the nested removals.
  abbrev pub removed : ℕ → ℕ → List (ℕ × RegistryChange) → Store → Store
  removed v r cs s =
      let k = variable_key to_lower depth s v in
      let p = (s.variable_at v).parameter in
      record {
        registry_at = update s.registry_at r (forget v k p (forget v k p (s.registry_at r)));
        variable_at =
            update s.variable_at v (record (s.variable_at v) { registry = none; full_name = none });
        told = s.told ++ (cs ++ cs);
      }

  after_both :
      (v r : ℕ) (cs : List (ℕ × RegistryChange)) (s : Store)
      → let k = variable_key to_lower depth s v in
        tell cs (taken k v r (reset v (tell cs (taken k v r (with_registry none v s)))))
        ≡ removed v r cs s
  after_both v r cs s =
      let k = variable_key to_lower depth s v in
      let p = (s.variable_at v).parameter in
      let p1 = ((with_registry none v s).variable_at v).parameter in
      let p2 = ((reset v (with_registry none v s)).variable_at v).parameter in
      let same1 : p1 ≡ p = ap (λ (u : Variable). u.parameter) (variable_at-released v s) in
      let same2 : p2 ≡ p1 = parameter-reset v (with_registry none v s) in
      store_ext
        (update-update s.registry_at r (forget v k p1 (s.registry_at r)) (forget v k p2)
          ∙ ap (λ x. update s.registry_at r (forget v k x (forget v k p1 (s.registry_at r))))
              (same2 ∙ same1)
          ∙ ap (λ x. update s.registry_at r (forget v k p (forget v k x (s.registry_at r)))) same1)
        (update-update (with_registry none v s).variable_at v _ (λ u. record u { full_name = none })
          ∙ update-update s.variable_at v _ (λ u. record u { registry = none; full_name = none }))
        (append_assoc s.told cs cs)

  -- Removing a variable from the registry that it points at, which holds it under its name, ends
  -- without an exception where removals are allowed and the name is legal, for a tree that is no
  -- deeper than the bound and four nested calls. The variable then points at no registry and has no
  -- full name kept. Since `setRegistry(nullptr)` calls `removeVariable` again, the registry forgets
  -- the variable twice, and every listener of the registry and of its ancestors is told twice that
  -- the variable was removed: all of them once, from the registry up, then all of them again.
  pub remove_variable-set_registry :
      (n v r : ℕ) (qs : List ℕ) (s : Store)
      → (s.variable_at v).registry ≡ some r
      → find_char separator (s.variable_at v).name ≡ none
      → find (variable_key to_lower depth s v) (s.registry_at r).name_to_variable_map ≡ some v
      → is_removal_allowed (s.registry_at r).restriction_level ≡ true
      → Lineage s r qs
      → length qs ≤ depth
      → call to_lower depth (suc (suc (suc (suc n)))) (removes v r) s
        ≡ ok tt (removed v r (removal_calls s v r qs) s)
  unfolding call
  remove_variable-set_registry n v r qs s at plain held allowed path deep =
      let k = variable_key to_lower depth s v in
      let t = taken k v r (with_registry none v s) in
      let cs = removal_calls s v r qs in
      let u = with_registry none v s in
      let again : removal_calls (reset v (tell cs t)) v r qs ≡ cs =
        calls_along-same t (reset v (tell cs t)) (some r) none (some v) variable_removed (λ q. refl)
          qs
        ∙ calls_along-taken k v r qs u
        ∙ calls_along-same s u (some r) none (some v) variable_removed (λ q. refl) qs in
      remove_variable_lem to_lower depth (λ u q. call to_lower depth (suc (suc (suc n))) (sets u q))
        k v r qs s _ refl held allowed
        (sets_none to_lower depth n v r qs s at plain held allowed path deep)
        (Lineage-same (λ q. refl)
          (Path-taken k v r r qs (with_registry none v s) (Lineage-same (λ q. refl) path)))
        deep
      ∙ ap (λ c. ok tt (tell c (taken k v r (reset v (tell cs t))))) again
      ∙ ap (ok tt) (after_both v r cs s)
