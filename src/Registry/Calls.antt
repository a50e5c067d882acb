-- ===== src/Registry/Calls.antt =====
-- The variables of src/registry/yo_registry.cpp and the registry of src/variable/yo_variable.cpp.
-- The methods `setRegistry`, `addVariable` and `removeVariable` call one another: each is given here
-- with the others as arguments, and `call` ties them, in a number of nested calls.
pub mod Tied
pub mod Sound
pub mod Runs
pub mod Destroy
pub mod Remove
pub mod Add
pub mod Twice
use ihmc_yovariables_cpp.Common.{
  ℕ, zero, suc, ◌==◌, ltb, if◌then◌else◌, Bool, true, false, not, ◌&&◌, List, [], ◌∷◌, ◌++◌, length,
  map, Option, none, some,
}
use ihmc_yovariables_cpp.Registry.Names.{Name}
use ihmc_yovariables_cpp.Registry.Namespace.{Namespace, of_name, append_name}
use ihmc_yovariables_cpp.Registry.VariableList.{erase_one, erase_all}
use ihmc_yovariables_cpp.Registry.Objects.{
  Level, fully_mutable, is_addition_allowed, is_removal_allowed, value_of, variable_added,
  variable_removed, cleared, find, insert, erase, Registry, Variable, Store, illegal_operation,
  name_collision, invalid_argument, undefined, out_of_depth, Action, Command, pure, raise, gets,
  or_raise, ◌>>=◌, ◌>>◌, raise_if, modify, for_each, change_registry, change_variable, is_at,
  is_null,
}
use ihmc_yovariables_cpp.Registry.Search.{get_variable, has_variable_named, is_root}
use ihmc_yovariables_cpp.Registry.Tree.{
  notify_listeners, reset_full_name, remove_listeners, detach_from_parent,
}

-- Whether two pointers are equal.
abbrev pub same_pointer : Option ℕ → Option ℕ → Bool
same_pointer none none = true
same_pointer none (some b) = false
same_pointer (some a) none = false
same_pointer (some a) (some b) = a == b

-- `getFullName`, which keeps the name that it computes.
unfoldable pub get_full_name : ℕ → Action Namespace
get_full_name v = do
  kept ← gets (λ s. (s.variable_at v).full_name)
  elim kept [
    | some ns ↦ pure ns
    | none ↦ do
      name ← gets (λ s. (s.variable_at v).name)
      above ← gets (λ s. (s.variable_at v).registry)
      ns ← elim above [
        | none ↦ or_raise (of_name name) invalid_argument
        | some r ↦ do
          mine ← gets (λ s. (s.registry_at r).namespace)
          or_raise (append_name name mine) invalid_argument
      ]
      modify (change_variable v λ u. record u { full_name = some ns })
      pure ns
  ]

abbrev pub with_registry : Option ℕ → ℕ → Store → Store
with_registry r v = change_variable v λ u. record u { registry = r }

-- What a registry does with the parameter that a variable may be.
abbrev pub on_parameter : (ℕ → List ℕ → List ℕ) → Option ℕ → List ℕ → List ℕ
on_parameter f none ps = ps
on_parameter f (some p) ps = f p ps

abbrev pub with_parameter : (ℕ → List ℕ → List ℕ) → ℕ → ℕ → Command
with_parameter f v r = do
  parameter ← gets (λ s. (s.variable_at v).parameter)
  modify (change_registry r λ g. record g { parameters = on_parameter f parameter g.parameters })

pub data Call : Type 0 where
  sets : ℕ → Option ℕ → Call
  adds removes : ℕ → ℕ → Call

-- `std::tolower` is a parameter; the depth bounds the tree of registries.
module _ (to_lower : ℕ → ℕ) (depth : ℕ) where
  unfoldable pub variable_key : Store → ℕ → Name
  variable_key s v = map to_lower (s.variable_at v).name

  -- The parts of `setRegistry` that concern the old registry and the new one.
  unfoldable pub leave : (ℕ → ℕ → Command) → Name → ℕ → Option ℕ → Command
  unfolding has_variable_named
  leave remove name v none = pure tt
  leave remove name v (some old) = do
    query ← gets (λ s. has_variable_named to_lower depth name s old)
    held ← or_raise query out_of_depth
    if held then remove v old else pure tt

  unfoldable pub join : (ℕ → ℕ → Command) → Name → ℕ → Option ℕ → Command
  unfolding get_variable
  join add name v none = pure tt
  join add name v (some r) = do
    existing ← gets (λ s. get_variable to_lower name s r)
    raise_if (not (is_null existing) && not (is_at existing v)) name_collision
    add v r

  -- `setRegistry`, of the pointer to a registry; the arguments are `addVariable`, `removeVariable`.
  unfoldable pub set_registry : (ℕ → ℕ → Command) → (ℕ → ℕ → Command) → ℕ → Option ℕ → Command
  unfolding reset_full_name leave join
  set_registry add remove v target = do
    current ← gets (λ s. (s.variable_at v).registry)
    if same_pointer target current then pure tt else do
      name ← gets (λ s. (s.variable_at v).name)
      modify (with_registry none v)
      leave remove name v current
      join add name v target
      modify (with_registry target v)
      reset_full_name v

  -- The argument is `setRegistry`.
  unfoldable pub remove_variable : (ℕ → Option ℕ → Command) → ℕ → ℕ → Command
  unfolding notify_listeners
  remove_variable set v r = do
    k ← gets (λ s. variable_key s v)
    held ← gets (λ s. find k (s.registry_at r).name_to_variable_map)
    if not (is_at held v) then pure tt else do
      level ← gets (λ s. (s.registry_at r).restriction_level)
      raise_if (not (is_removal_allowed level)) illegal_operation
      set v none
      modify (
          change_registry r λ g. record g {
            variables = erase_all v g.variables;
            name_to_variable_map = erase k g.name_to_variable_map;
          })
      with_parameter erase_one v r
      notify_listeners depth (some r) none (some v) variable_removed r

  -- The part of `addVariable` behind its checks.
  unfoldable pub place_variable :
      (ℕ → Option ℕ → Command) → (ℕ → ℕ → Command) → Name → ℕ → ℕ → Command
  unfolding notify_listeners
  place_variable set remove k v r = do
    current ← gets (λ s. (s.variable_at v).registry)
    elim current [ none ↦ pure tt | some old ↦ remove v old ]
    modify (
        change_registry r λ g. record g {
          variables = g.variables ++ v ∷ [];
          name_to_variable_map = insert k v g.name_to_variable_map;
        })
    set v (some r)
    with_parameter (λ p ps. ps ++ p ∷ []) v r
    notify_listeners depth (some r) none (some v) variable_added r

  -- The arguments are `setRegistry` and `removeVariable`.
  unfoldable pub add_variable : (ℕ → Option ℕ → Command) → (ℕ → ℕ → Command) → ℕ → ℕ → Command
  unfolding place_variable
  add_variable set remove v r = do
    level ← gets (λ s. (s.registry_at r).restriction_level)
    raise_if (not (is_addition_allowed level)) illegal_operation
    k ← gets (λ s. variable_key s v)
    existing ← gets (λ s. find k (s.registry_at r).name_to_variable_map)
    elim existing [
      | some e ↦ if e == v then pure tt else raise name_collision
      | none ↦ place_variable set remove k v r
    ]

  -- A call, in which at most so many calls are nested.
  unfoldable pub call : ℕ → Call → Command
  unfolding set_registry add_variable remove_variable
  call zero c = raise out_of_depth
  call (suc n) (sets v target) =
      set_registry (λ u r. call n (adds u r)) (λ u r. call n (removes u r)) v target
  call (suc n) (adds v r) =
      add_variable (λ u q. call n (sets u q)) (λ u q. call n (removes u q)) v r
  call (suc n) (removes v r) = remove_variable (λ u q. call n (sets u q)) v r

  -- `YoVariable::destroy`
  unfoldable pub destroy_variable : ℕ → ℕ → Command
  unfolding call
  destroy_variable n v = do
    call n (sets v none)
    modify (change_variable v λ u. record u { changed_listeners = [] })

  -- One round of a loop over the variables of a registry: an iterator is not valid any more when an
  -- element was erased.
  unfoldable pub destroy_held : ℕ → ℕ → ℕ → Command
  unfolding destroy_variable
  destroy_held n r v = do
    before ← gets (λ s. length (s.registry_at r).variables)
    destroy_variable n v
    after ← gets (λ s. length (s.registry_at r).variables)
    raise_if (not (before == after)) undefined

  abbrev pub emptied : Bool → Registry → Registry
  emptied clear_listeners g = record g {
    children = [];
    name_to_child_map = [];
    restriction_level = fully_mutable;
    changed_listeners = if clear_listeners then [] else g.changed_listeners;
  }

  -- `destroyInternal`, which walks at most so many levels.
  unfoldable pub destroy_internal : ℕ → ℕ → Bool → ℕ → Command
  unfolding destroy_held
  destroy_internal zero n clear_listeners r = raise out_of_depth
  destroy_internal (suc levels) n clear_listeners r = do
    variables ← gets (λ s. (s.registry_at r).variables)
    for_each (destroy_held n r) variables
    modify (
        change_registry r
          λ g. record g { variables = []; name_to_variable_map = []; parameters = [] })
    children ← gets (λ s. (s.registry_at r).children)
    for_each (destroy_internal levels n true) children
    modify (change_registry r (emptied clear_listeners))

  unfoldable pub destroy : ℕ → ℕ → Command
  unfolding detach_from_parent destroy_internal notify_listeners remove_listeners
  destroy n r = do
    root ← gets (λ s. is_root s r)
    level ← gets (λ s. (s.registry_at r).restriction_level)
    raise_if (not root && not (value_of level == value_of fully_mutable)) illegal_operation
    detach_from_parent to_lower depth r
    destroy_internal depth n false r
    notify_listeners depth none none none cleared r
    remove_listeners r
