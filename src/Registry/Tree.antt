-- ===== src/Registry/Tree.antt =====
-- The tree of src/registry/yo_registry.cpp: children, namespaces, restriction levels, listeners. A
-- method takes a depth, the number of levels of the tree that it may walk.
pub mod Notify
pub mod Rises
pub mod Child
use ihmc_yovariables_cpp.Common.{
  ℕ, zero, suc, ◌==◌, ltb, if◌then◌else◌, Bool, true, false, not, List, [], ◌∷◌, ◌++◌, map, Option,
  none, some,
}
use ihmc_yovariables_cpp.Registry.Names.{Name}
use ihmc_yovariables_cpp.Registry.Namespace.{Namespace, of_name, append_name, check_sanity}
use ihmc_yovariables_cpp.Registry.VariableList.{is_in, erase_one, erase_all}
use ihmc_yovariables_cpp.Registry.Objects.{
  Level, value_of, is_addition_allowed, is_removal_allowed, ChangeType, registry_added,
  registry_removed, RegistryChange, find, insert, erase, Registry, Variable, Store,
  illegal_operation, name_collision, illegal_name, invalid_argument, out_of_depth, Action, Command,
  pure, raise, gets, or_raise, ◌>>=◌, ◌>>◌, raise_if, modify, for_each, change_registry,
  change_variable, is_at,
}

unfoldable pub add_listener : ℕ → ℕ → Command
add_listener l r =
    modify (change_registry r λ g. record g { changed_listeners = g.changed_listeners ++ l ∷ [] })

unfoldable pub remove_listeners : ℕ → Command
remove_listeners r = modify (change_registry r λ g. record g { changed_listeners = [] })

unfoldable pub remove_listener : ℕ → ℕ → Action Bool
remove_listener l r = do
  held ← gets (λ s. is_in l (s.registry_at r).changed_listeners)
  modify (change_registry r λ g. record g { changed_listeners = erase_one l g.changed_listeners })
  pure held

-- The calls that one registry makes for a change.
abbrev pub calls : List ℕ → RegistryChange → List (ℕ × RegistryChange)
calls listeners change = map (λ l. (l, change)) listeners

unfoldable pub notify_listeners : ℕ → Option ℕ → Option ℕ → Option ℕ → ChangeType → ℕ → Command
notify_listeners zero parent target v type r = raise out_of_depth
notify_listeners (suc n) parent target v type r = do
  listeners ← gets (λ s. (s.registry_at r).changed_listeners)
  modify (λ s. record s {
    told =
        s.told
        ++ calls listeners (record {
          source = r;
          target_parent_registry = parent;
          target_registry = target;
          target_variable = v;
          change_type = type;
        });
  })
  above ← gets (λ s. (s.registry_at r).parent)
  elim above [ none ↦ pure tt | some p ↦ notify_listeners n parent target v type p ]

abbrev pub level_of : Store → ℕ → ℕ
level_of s r = value_of (s.registry_at r).restriction_level

abbrev pub with_level : Level → ℕ → Store → Store
with_level level r = change_registry r λ g. record g { restriction_level = level }

-- What `setRestrictionLevel` does for a child.
abbrev pub raise_child : (ℕ → Command) → Level → ℕ → Command
raise_child set_level level c = do
  is_lower ← gets (λ s. ltb (level_of s c) (value_of level))
  if is_lower then set_level c else pure tt

unfoldable pub set_restriction_level : ℕ → Level → ℕ → Command
set_restriction_level zero level r = raise out_of_depth
set_restriction_level (suc n) level r = do
  old ← gets (λ s. level_of s r)
  raise_if (ltb (value_of level) old) invalid_argument
  modify (with_level level r)
  children ← gets (λ s. (s.registry_at r).children)
  for_each (raise_child (set_restriction_level n level) level) children

unfoldable pub reset_full_name : ℕ → Command
reset_full_name v = modify (change_variable v λ u. record u { full_name = none })

-- `none` is the null pointer.
unfoldable pub set_parent_namespace : ℕ → Option Namespace → ℕ → Command
unfolding reset_full_name
set_parent_namespace zero above r = raise out_of_depth
set_parent_namespace (suc n) above r = do
  name ← gets (λ s. (s.registry_at r).name)
  ns ← or_raise (elim above [ none ↦ of_name name | some a ↦ append_name name a ]) invalid_argument
  modify (change_registry r λ g. record g { namespace = ns })
  or_raise (check_sanity ns) illegal_name
  children ← gets (λ s. (s.registry_at r).children)
  for_each
      (λ c. do mine ← gets (λ s. (s.registry_at r).namespace); set_parent_namespace n (some mine) c)
      children
  variables ← gets (λ s. (s.registry_at r).variables)
  for_each reset_full_name variables

-- `std::tolower` is a parameter.
module _ (to_lower : ℕ → ℕ) where
  unfoldable pub child_key : Store → ℕ → Name
  child_key s c = map to_lower (s.registry_at c).name

  -- For a child that is not null.
  unfoldable pub remove_child : ℕ → ℕ → ℕ → Command
  unfolding set_parent_namespace notify_listeners
  remove_child n c r = do
    is_child ← gets (λ s. is_at (s.registry_at c).parent r)
    if not is_child then pure tt else do
      level ← gets (λ s. (s.registry_at r).restriction_level)
      raise_if (not (is_removal_allowed level)) illegal_operation
      k ← gets (λ s. child_key s c)
      modify (change_registry c λ g. record g { parent = none })
      set_parent_namespace n none c
      modify (
          change_registry r λ g. record g {
            children = erase_all c g.children;
            name_to_child_map = erase k g.name_to_child_map;
          })
      notify_listeners n (some r) (some c) none registry_removed r

  unfoldable pub detach_from_parent : ℕ → ℕ → Command
  unfolding remove_child
  detach_from_parent n c = do
    above ← gets (λ s. (s.registry_at c).parent)
    elim above [ none ↦ pure tt | some p ↦ remove_child n c p ]

  -- The part of `addChild` behind its checks.
  unfoldable pub attach_child : ℕ → Bool → Name → ℕ → ℕ → Command
  unfolding detach_from_parent set_parent_namespace set_restriction_level notify_listeners
  attach_child n notify k c r = do
    detach_from_parent n c
    modify (change_registry c λ g. record g { parent = some r })
    above ← gets (λ s. (s.registry_at r).namespace)
    set_parent_namespace n (some above) c
    level ← gets (λ s. (s.registry_at r).restriction_level)
    is_lower ← gets (λ s. ltb (level_of s c) (value_of level))
    if is_lower then set_restriction_level n level c else pure tt
    modify (
        change_registry r λ g. record g {
          children = g.children ++ c ∷ [];
          name_to_child_map = insert k c g.name_to_child_map;
        })
    if notify then notify_listeners n (some r) (some c) none registry_added r else pure tt

  -- For a child that is not null.
  unfoldable pub add_child : ℕ → Bool → ℕ → ℕ → Command
  unfolding attach_child
  add_child n notify c r = do
    raise_if (c == r) illegal_operation
    level ← gets (λ s. (s.registry_at r).restriction_level)
    raise_if (not (is_addition_allowed level)) illegal_operation
    k ← gets (λ s. child_key s c)
    existing ← gets (λ s. find k (s.registry_at r).name_to_child_map)
    elim existing [
      | some e ↦ if e == c then pure tt else raise name_collision
      | none ↦ attach_child n notify k c r
    ]
