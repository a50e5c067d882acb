-- ===== src/Tests/Registries.antt =====
-- Registries and variables on small inputs. The letters r, c and v are 114, 99 and 118.
use mathlib.Core.Logic.{◌↔◌}
use ihmc_yovariables_cpp.Common.{
  ℕ, zero, suc, ◌==◌, true, List, [], ◌∷◌, length, none, some, ◌≡◌, ◌≢◌, refl, arith,
}
use ihmc_yovariables_cpp.Common.Faults.{map_all}
use ihmc_yovariables_cpp.Registry.Names.{
  Name, split_name, join_names, check_name_does_not_contain_separator,
}
use ihmc_yovariables_cpp.Registry.Namespace.{
  of_name, Namespace, append_name, concatenate_name, of_sub_names, ends_with_name, same_name,
}
use ihmc_yovariables_cpp.Registry.VariableList.{is_in}
use ihmc_yovariables_cpp.Registry.Objects.{
  Level, fully_mutable, restricted, variable_added, is_removal_allowed, is_addition_allowed,
  undefined, illegal_operation, illegal_name, find, Registry, Variable, Store, ok, err, store_of,
}
use ihmc_yovariables_cpp.Registry.Search.{
  matches, get_variable, find_variables, find_variables_where, find_variable, has_unique_variable,
  first_of, get_root,
}
use ihmc_yovariables_cpp.Registry.Search.Finds.{Fits, find_variables-Fits}
use ihmc_yovariables_cpp.Registry.Search.Ends.{IsRanked, find_variables_ends}
use ihmc_yovariables_cpp.Registry.Tree.{set_restriction_level, add_child, child_key}
use ihmc_yovariables_cpp.Registry.Tree.Notify.{root, below, calls_along}
use ihmc_yovariables_cpp.Registry.Tree.Rises.{Rises, set_restriction_level-Rises}
use ihmc_yovariables_cpp.Registry.Tree.Child.{pointed, add_child-get_root}
use ihmc_yovariables_cpp.Registry.Calls.{
  sets, adds, removes, call, variable_key, with_registry, destroy,
}
use ihmc_yovariables_cpp.Registry.Calls.Remove.{removal_calls}
use ihmc_yovariables_cpp.Registry.Calls.Twice.{removed, remove_variable-set_registry}
use ihmc_yovariables_cpp.Registry.Calls.Add.{
  added, add_variable-set_registry, set_registry-removal_refused,
}
use ihmc_yovariables_cpp.Registry.Calls.Destroy.{dropped, destroy-remove_variable}
use ihmc_yovariables_cpp.Registry.Calls.Sound.{IsSound, Ends}
use ihmc_yovariables_cpp.Registry.Calls.Runs.{
  adding, removing, perform, perform-Ends, run, run-IsSound,
}

abbrev same_letter : ℕ → ℕ
same_letter c = c

abbrev r : Name
r = 114 ∷ []

abbrev c : Name
c = 99 ∷ []

abbrev v : Name
v = 118 ∷ []

abbrev r_ns : Namespace
r_ns = record { sub_names = r ∷ []; name = r }

abbrev r_c : Namespace
r_c = record { sub_names = r ∷ c ∷ []; name = 114 ∷ 46 ∷ 99 ∷ [] }

abbrev plain_registry : Registry
plain_registry = record {
  name = r;
  namespace = r_ns;
  variables = [];
  name_to_variable_map = [];
  parameters = [];
  parent = none;
  children = [];
  name_to_child_map = [];
  changed_listeners = 7 ∷ [];
  restriction_level = fully_mutable;
}

abbrev free : Variable
free = record {
  name = v;
  registry = none;
  full_name = none;
  changed_listeners = [];
  parameter = none;
}

-- No registry holds a variable.
abbrev empty_store : Store
empty_store = record { registry_at = λ x. plain_registry; variable_at = λ x. free; told = [] }

abbrev held_registries : Level → ℕ → Registry
held_registries level zero = record plain_registry {
  variables = 0 ∷ [];
  name_to_variable_map = (v, 0) ∷ [];
  restriction_level = level;
}
held_registries level (suc x) = plain_registry

abbrev held_variables : ℕ → Variable
held_variables zero = record free { registry = some 0 }
held_variables (suc x) = free

-- The registry 0 holds the variable 0.
abbrev held_store : Level → Store
held_store level = record {
  registry_at = held_registries level;
  variable_at = held_variables;
  told = [];
}

abbrev tree_registries : ℕ → Registry
tree_registries zero = record plain_registry { children = 1 ∷ []; name_to_child_map = (c, 1) ∷ [] }
tree_registries (suc zero) = record plain_registry {
  name = c;
  namespace = r_c;
  variables = 0 ∷ [];
  name_to_variable_map = (v, 0) ∷ [];
  parent = some 0;
}
tree_registries (suc (suc x)) = plain_registry

abbrev tree_variables : ℕ → Variable
tree_variables zero = record free { registry = some 1 }
tree_variables (suc x) = free

-- The registry 0 has the child 1, which holds the variable 0.
abbrev tree_store : Store
tree_store = record { registry_at = tree_registries; variable_at = tree_variables; told = [] }

-- The same tree, with a child whose variable has another name.
abbrev u_registries : ℕ → Registry
u_registries zero = tree_registries 0
u_registries (suc zero) = record (tree_registries 1) { variables = []; name_to_variable_map = [] }
u_registries (suc (suc x)) = plain_registry

abbrev tree_store_with_free : Store
tree_store_with_free = record { registry_at = u_registries; variable_at = λ x. free; told = [] }

zero-differs : ◌≢◌ {A = ℕ} 0 1
zero-differs same_numbers = absurd (omega arith)

abbrev height : ℕ → ℕ
height zero = 1
height (suc x) = 0

tree_store-IsRanked : IsRanked tree_store height
tree_store-IsRanked zero = (omega arith, tt)
tree_store-IsRanked (suc zero) = tt
tree_store-IsRanked (suc (suc x)) = tt

found_in_tree : find_variables same_letter 2 (some c) v tree_store 0 ≡ some (0 ∷ [])
unfolding find_variables find_variables_where matches get_variable find ends_with_name
    check_name_does_not_contain_separator map_all same_name
found_in_tree = refl

empty_store-IsSound : IsSound same_letter 1 empty_store
unfolding find
empty_store-IsSound = record {
  tied = record {
    listed = λ x y. refl;
    found = λ x y k e. absurd (cc);
    kept = λ x y e. absurd (cc);
  };
  plain = λ x. refl;
  paths = λ x. (x ∷ [], root refl, omega arith);
}

run-IsSound_example :
    IsSound same_letter 1
      (run same_letter 1 (adding 0 0 ∷ adding 0 1 ∷ adding 2 1 ∷ removing 0 1 ∷ []) empty_store)
run-IsSound_example =
    run-IsSound same_letter 1 (adding 0 0 ∷ adding 0 1 ∷ adding 2 1 ∷ removing 0 1 ∷ []) empty_store
      empty_store-IsSound

-- The variable 0 moves from the registry 0 to the registry 1.
perform-Ends_example :
    Ends same_letter 1
      (run same_letter 1 (adding 0 0 ∷ []) empty_store)
      (perform same_letter 1 (adding 0 1) (run same_letter 1 (adding 0 0 ∷ []) empty_store))
perform-Ends_example =
    perform-Ends same_letter 1 (adding 0 1) (run same_letter 1 (adding 0 0 ∷ []) empty_store)
      (run-IsSound same_letter 1 (adding 0 0 ∷ []) empty_store empty_store-IsSound)

remove_variable-set_registry_example :
    call same_letter 1 4 (removes 0 0) (held_store fully_mutable)
    ≡ ok tt (
        removed same_letter 1 0 0
          (removal_calls (held_store fully_mutable) 0 0 (0 ∷ []))
          (held_store fully_mutable))
unfolding find variable_key is_removal_allowed
remove_variable-set_registry_example =
    remove_variable-set_registry same_letter 1 0 0 0 (0 ∷ []) (held_store fully_mutable) refl refl
      refl refl (root refl) (omega arith)

add_variable-set_registry_example :
    call same_letter 2 3 (adds 3 1) tree_store_with_free
    ≡ ok tt (
        added same_letter 2 3 1
          (calls_along tree_store_with_free (some 1) none (some 3) variable_added (1 ∷ 0 ∷ []))
          tree_store_with_free)
unfolding find variable_key is_addition_allowed
add_variable-set_registry_example =
    add_variable-set_registry same_letter 2 0 3 1 (1 ∷ 0 ∷ []) tree_store_with_free refl refl refl
      (below refl (root refl)) (omega arith)

set_registry-removal_refused_example :
    call same_letter 1 2 (sets 0 none) (held_store restricted)
    ≡ err illegal_operation (with_registry none 0 (held_store restricted))
unfolding find variable_key is_removal_allowed
set_registry-removal_refused_example =
    set_registry-removal_refused same_letter 1 0 0 0 none (held_store restricted) refl refl refl
      refl refl (omega arith)

destroy-remove_variable_example :
    destroy same_letter 1 3 0 (held_store fully_mutable)
    ≡ err undefined (dropped same_letter 0 0 0 (0 ∷ []) (held_store fully_mutable))
unfolding find variable_key is_removal_allowed
destroy-remove_variable_example =
    destroy-remove_variable same_letter 0 0 0 0 [] (held_store fully_mutable) refl refl refl refl
      refl refl

add_child-get_root_example :
    (ns : Namespace) × (append_name r r_c ≡ some ns)
    × (add_child same_letter 1 true 0 1 tree_store ≡ err illegal_name (pointed 0 1 ns tree_store))
    × ((m : ℕ)
        → (get_root m (pointed 0 1 ns tree_store) 0 ≡ none)
          × (get_root m (pointed 0 1 ns tree_store) 1 ≡ none))
unfolding find child_key is_addition_allowed append_name concatenate_name of_sub_names of_name
    split_name join_names
add_child-get_root_example =
    add_child-get_root same_letter 0 true 0 1 tree_store zero-differs refl refl refl refl refl refl

set_restriction_level-Rises_example :
    Rises tree_store (store_of (set_restriction_level 2 restricted 0 tree_store))
set_restriction_level-Rises_example = set_restriction_level-Rises 2 restricted 0 tree_store

find_variables-Fits_example : (is_in 0 (0 ∷ []) ≡ true) ↔ Fits same_letter (some c) v tree_store 0 0
unfolding find_variables
find_variables-Fits_example =
    find_variables-Fits same_letter (some c) v tree_store 2 0 0 (0 ∷ []) found_in_tree

find_variables_ends_example :
    (vs : List ℕ) × (find_variables same_letter 2 none v tree_store 0 ≡ some vs)
    × (find_variable same_letter 2 none v tree_store 0 ≡ some (first_of vs))
    × (has_unique_variable same_letter 2 none v tree_store 0 ≡ some (length vs == 1))
find_variables_ends_example =
    find_variables_ends same_letter none v tree_store height tree_store-IsRanked refl 2 0
      (omega arith)
