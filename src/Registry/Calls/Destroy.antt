-- ===== src/Registry/Calls/Destroy.antt =====
-- Destruction of a registry that holds a variable.
use ihmc_yovariables_cpp.Common.{
  ℕ, suc, ◌≤◌, ◌<◌, ◌==◌, Bool, true, false, List, [], ◌∷◌, length, none, some, ◌≡◌, refl, ap, ◌∙◌,
  arith,
}
use ihmc_yovariables_cpp.Registry.Names.{separator, find_char}
use ihmc_yovariables_cpp.Registry.VariableList.{erase_all}
use ihmc_yovariables_cpp.Registry.Objects.{
  is_removal_allowed, undefined, find, Registry, Store, Command, ok, err, ◌>>=◌, ◌>>◌, for_each,
  change_variable,
}
use ihmc_yovariables_cpp.Registry.Objects.Update.{update_same}
use ihmc_yovariables_cpp.Registry.Search.{is_root}
use ihmc_yovariables_cpp.Registry.Tree.{detach_from_parent}
use ihmc_yovariables_cpp.Registry.Tree.Notify.{root, tell}
use ihmc_yovariables_cpp.Registry.Calls.{
  with_registry, variable_key, destroy_variable, destroy_held, destroy_internal, destroy,
}
use ihmc_yovariables_cpp.Registry.Calls.Remove.{taken, removal_calls, reset, sets_none}

length-erase_all : (v : ℕ) (us : List ℕ) → length (erase_all v us) ≤ length us
length-erase_all v [] = omega arith
length-erase_all v (u ∷ us) = ground (arith, length-erase_all v us)

erase_all_head : (v : ℕ) (us : List ℕ) → length (erase_all v (v ∷ us)) < length (v ∷ us)
erase_all_head v us = ground (arith, length-erase_all v us)

module _ (to_lower : ℕ → ℕ) (depth : ℕ) where
  -- A round that erases the variable leaves the iterator of the loop invalid.
  destroy_held_faults :
      (n r v : ℕ) (s t : Store)
      → destroy_variable to_lower depth n v s ≡ ok tt t
      → length (t.registry_at r).variables < length (s.registry_at r).variables
      → destroy_held to_lower depth n r v s ≡ err undefined t
  unfolding destroy_held
  destroy_held_faults n r v s t e less =
      let differs : (length (s.registry_at r).variables == length (t.registry_at r).variables)
          ≡ false =
        ground (arith, less) in
      rw (◌>>◌, ◌>>=◌, e, differs) refl

  for_each_faults :
      (f : ℕ → Command) (v : ℕ) (vs : List ℕ) (s t : Store)
      → f v s ≡ err undefined t
      → for_each f (v ∷ vs) s ≡ err undefined t
  unfolding for_each
  for_each_faults f v vs s t e = rw (◌>>◌, ◌>>=◌, e) refl

  destroy_internal_faults :
      (levels n r v : ℕ) (vs : List ℕ) (clear : Bool) (s t : Store)
      → (s.registry_at r).variables ≡ v ∷ vs
      → destroy_held to_lower depth n r v s ≡ err undefined t
      → destroy_internal to_lower depth (suc levels) n clear r s ≡ err undefined t
  unfolding destroy_internal
  destroy_internal_faults levels n r v vs clear s t first e =
      let loop = for_each_faults (destroy_held to_lower depth n r) v vs s t e in
      rw (first, ◌>>◌, ◌>>=◌, loop) refl

  -- A root needs no permission, and nothing detaches it.
  detach_root :
      (r : ℕ) (s : Store)
      → (s.registry_at r).parent ≡ none
      → detach_from_parent to_lower depth r s ≡ ok tt s
  unfolding detach_from_parent
  detach_root r s top = rw top refl

  destroy_throws :
      (n r : ℕ) (s t : Store)
      → (s.registry_at r).parent ≡ none
      → destroy_internal to_lower depth depth n false r s ≡ err undefined t
      → destroy to_lower depth n r s ≡ err undefined t
  unfolding destroy is_root
  destroy_throws n r s t top e = rw (top, ◌>>◌, ◌>>=◌, detach_root r s top, e) refl

module _ (to_lower : ℕ → ℕ) (levels : ℕ) where
  -- A variable that is removed, as `destroy` of the variable removes it.
  abbrev pub dropped : ℕ → ℕ → List ℕ → Store → Store
  dropped v r qs s =
      change_variable v (λ u. record u { changed_listeners = [] })
        (reset v (
          tell (removal_calls s v r qs)
            (taken (variable_key to_lower (suc levels) s v) v r (with_registry none v s))))

  -- Destroying a root registry that holds a variable, where removals are allowed, has undefined
  -- behaviour: the first variable erases itself from the vector that the loop of `destroyInternal`
  -- iterates over, so that the loop's iterator is invalid when it is incremented.
  pub destroy-remove_variable :
      (n v r : ℕ) (vs : List ℕ) (s : Store)
      → (s.registry_at r).parent ≡ none
      → (s.registry_at r).variables ≡ v ∷ vs
      → is_removal_allowed (s.registry_at r).restriction_level ≡ true
      → (s.variable_at v).registry ≡ some r
      → find_char separator (s.variable_at v).name ≡ none
      → find (variable_key to_lower (suc levels) s v) (s.registry_at r).name_to_variable_map
        ≡ some v
      → destroy to_lower (suc levels) (suc (suc (suc n))) r s
        ≡ err undefined (dropped v r (r ∷ []) s)
  unfolding destroy_variable
  destroy-remove_variable n v r vs s top first allowed at plain held =
      let depth = suc levels in
      let t = dropped v r (r ∷ []) s in
      let gone =
        sets_none to_lower depth n v r (r ∷ []) s at plain held allowed (root top) (omega arith) in
      let dropped_one : destroy_variable to_lower depth (suc (suc (suc n))) v s ≡ ok tt t =
        rw (◌>>◌, ◌>>=◌, gone) refl in
      let left : (t.registry_at r).variables ≡ erase_all v (v ∷ vs) =
        ap (λ (g : Registry). g.variables) (update_same s.registry_at r _)
        ∙ ap (erase_all v) first in
      let less : length (t.registry_at r).variables < length (s.registry_at r).variables =
        rw (left, first) (erase_all_head v vs) in
      let round = destroy_held_faults to_lower depth (suc (suc (suc n))) r v s t dropped_one less in
      destroy_throws to_lower depth (suc (suc (suc n))) r s t top (
        destroy_internal_faults to_lower depth levels (suc (suc (suc n))) r v vs false s t first
          round)
