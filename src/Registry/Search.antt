-- ===== src/Registry/Search.antt =====
-- The searches of src/tools/yo_search_tools.cpp and the queries of src/registry/yo_registry.cpp that
-- walk a tree of registries. Each takes a depth, the number of levels that it may walk; `none` is a
-- tree that is deeper, or an exception.
pub mod Fusion
pub mod Agree
pub mod Finds
pub mod Ends
use ihmc_yovariables_cpp.Common.{
  ℕ, zero, suc, ◌+◌, ◌==◌, if◌then◌else◌, Bool, true, false, not, ◌&&◌, ◌||◌, List, [], ◌∷◌, ◌++◌,
  length, get_elem?, map, Option, none, some, ◌>>=◌, ◌>>◌, map_all,
}
use ihmc_yovariables_cpp.Registry.Names.{
  Name, separator, is_empty, take, drop, find_last, check_name_does_not_contain_separator,
}
use ihmc_yovariables_cpp.Registry.Namespace.{Namespace, ends_with, ends_with_name, same}
use ihmc_yovariables_cpp.Registry.Objects.{Registry, Variable, Store, AddressMap, find, is_null}

abbrev pub concat {ℓ} : {A : Type ℓ} → List (List A) → List A
concat [] = []
concat (xs ∷ xss) = xs ++ concat xss

abbrev pub sum : List ℕ → ℕ
sum [] = 0
sum (n ∷ ns) = n + sum ns

abbrev pub keep {ℓ} : {A : Type ℓ} → (A → Bool) → List A → List A
keep f [] = []
keep f (x ∷ xs) = let rest = keep f xs in if f x then x ∷ rest else rest

abbrev pub to_list {ℓ} : {A : Type ℓ} → Option A → List A
to_list none = []
to_list (some a) = a ∷ []

abbrev pub first_of {ℓ} : {A : Type ℓ} → List A → Option A
first_of [] = none
first_of (x ∷ xs) = some x

-- The loops that return the first result that is not null.
unfoldable pub first_found {ℓ κ} :
    {A : Type ℓ} {B : Type κ} → (A → Option (Option B)) → List A → Option (Option B)
first_found f [] = some none
first_found f (x ∷ xs) =
    f x >>= λ found. elim found [ none ↦ first_found f xs | some b ↦ some (some b) ]

-- A predicate that may be null.
abbrev pub Predicate : Type 0
Predicate = Option (ℕ → Bool)

abbrev pub accepts : Predicate → ℕ → Bool
accepts none a = true
accepts (some p) a = p a

abbrev pub accepted : Predicate → Option ℕ → Option ℕ
accepted p none = none
accepted p (some a) = if accepts p a then some a else none

unfoldable pub has_parameters : Store → ℕ → Bool
has_parameters s r = not (is_empty (s.registry_at r).parameters)

unfoldable pub is_root : Store → ℕ → Bool
is_root s r = is_null (s.registry_at r).parent

unfoldable pub get_root : ℕ → Store → ℕ → Option ℕ
get_root zero s r = none
get_root (suc n) s r = elim (s.registry_at r).parent [ none ↦ some r | some p ↦ get_root n s p ]

unfoldable pub get_variable_at : ℕ → Store → ℕ → Option ℕ
get_variable_at i s r = get_elem? (s.registry_at r).variables i

-- `some true` as soon as one of them gives it.
unfoldable pub any_of {ℓ} : {A : Type ℓ} → (A → Option Bool) → List A → Option Bool
any_of f [] = some false
any_of f (x ∷ xs) = f x >>= λ b. if b then some true else any_of f xs

unfoldable pub has_parameters_deep : ℕ → Store → ℕ → Option Bool
has_parameters_deep zero s r = none
has_parameters_deep (suc n) s r =
    if has_parameters s r
    then some true
    else any_of (has_parameters_deep n s) (s.registry_at r).children

unfoldable pub collect_subtree_variables : ℕ → Store → ℕ → Option (List ℕ)
collect_subtree_variables zero s r = none
collect_subtree_variables (suc n) s r = do
  rest ← map_all (collect_subtree_variables n s) (s.registry_at r).children
  some ((s.registry_at r).variables ++ concat rest)

unfoldable pub collect_subtree_parameters : ℕ → Store → ℕ → Option (List ℕ)
collect_subtree_parameters zero s r = none
collect_subtree_parameters (suc n) s r = do
  rest ← map_all (collect_subtree_parameters n s) (s.registry_at r).children
  some ((s.registry_at r).parameters ++ concat rest)

unfoldable pub collect_subtree_registries : ℕ → Store → ℕ → Option (List ℕ)
collect_subtree_registries zero s r = none
collect_subtree_registries (suc n) s r = do
  rest ← map_all (collect_subtree_registries n s) (s.registry_at r).children
  some (r ∷ concat rest)

unfoldable pub get_number_of_variables : Store → ℕ → ℕ
get_number_of_variables s r = length (s.registry_at r).variables

unfoldable pub get_number_of_variables_deep : ℕ → Store → ℕ → Option ℕ
get_number_of_variables_deep zero s r = none
get_number_of_variables_deep (suc n) s r = do
  counts ← map_all (get_number_of_variables_deep n s) (s.registry_at r).children
  some (get_number_of_variables s r + sum counts)

-- `findVariable`, `filterVariables` and `filterRegistries` with a filter.
unfoldable pub find_filtered : ℕ → (ℕ → Bool) → Store → ℕ → Option (Option ℕ)
find_filtered zero f s r = none
find_filtered (suc n) f s r = elim (first_of (keep f (s.registry_at r).variables)) [
  | some v ↦ some (some v)
  | none ↦ first_found (find_filtered n f s) (s.registry_at r).children
]

unfoldable pub filter_variables : ℕ → (ℕ → Bool) → Store → ℕ → Option (List ℕ)
filter_variables zero f s r = none
filter_variables (suc n) f s r = do
  rest ← map_all (filter_variables n f s) (s.registry_at r).children
  some (keep f (s.registry_at r).variables ++ concat rest)

unfoldable pub filter_registries : ℕ → (ℕ → Bool) → Store → ℕ → Option (List ℕ)
filter_registries zero f s r = none
filter_registries (suc n) f s r = do
  rest ← map_all (filter_registries n f s) (s.registry_at r).children
  some ((if f r then r ∷ [] else []) ++ concat rest)

-- `splitTrailingName`
unfoldable pub split_trailing_name : Name → Option Name × Name
split_trailing_name name = elim (find_last separator name) [
  | none ↦ (none, name)
  | some i ↦ (some (take i name), drop (suc i) name)
]

-- `std::tolower` is a parameter.
module _ (to_lower : ℕ → ℕ) where
  unfoldable pub get_variable : Name → Store → ℕ → Option ℕ
  get_variable name s r = find (map to_lower name) (s.registry_at r).name_to_variable_map

  unfoldable pub get_child : Name → Store → ℕ → Option ℕ
  get_child name s r = find (map to_lower name) (s.registry_at r).name_to_child_map

  -- `none` is null.
  unfoldable pub get_parameter : Name → Store → ℕ → Option ℕ
  unfolding get_variable
  get_parameter name s r = get_variable name s r >>= λ v. (s.variable_at v).parameter

  -- Whether a registry's namespace is one that is searched.
  unfoldable pub matches : Option Name → Namespace → Option Bool
  matches none ns = some true
  matches (some ending) ns = ends_with_name to_lower false ending ns

  unfoldable pub find_first_variable :
      ℕ → Option Name → Name → Predicate → Store → ℕ → Option (Option ℕ)
  find_first_variable zero ending name p s r = none
  find_first_variable (suc n) ending name p s r = do
    here ← matches ending (s.registry_at r).namespace
    elim (if here then accepted p (get_variable name s r) else none) [
      | some v ↦ some (some v)
      | none ↦ first_found (find_first_variable n ending name p s) (s.registry_at r).children
    ]

  unfoldable pub find_first_registry :
      ℕ → Option Name → Name → Predicate → Store → ℕ → Option (Option ℕ)
  find_first_registry zero ending name p s r = none
  find_first_registry (suc n) ending name p s r = do
    here ← matches ending (s.registry_at r).namespace
    elim (if here then accepted p (get_child name s r) else none) [
      | some c ↦ some (some c)
      | none ↦ first_found (find_first_registry n ending name p s) (s.registry_at r).children
    ]

  unfoldable pub find_variables_where :
      ℕ → Option Name → Name → Predicate → Store → ℕ → Option (List ℕ)
  find_variables_where zero ending name p s r = none
  find_variables_where (suc n) ending name p s r = do
    here ← matches ending (s.registry_at r).namespace
    rest ← map_all (find_variables_where n ending name p s) (s.registry_at r).children
    some (to_list (if here then accepted p (get_variable name s r) else none) ++ concat rest)

  -- The predicate on variables: a parameter that is accepted.
  abbrev pub is_wanted : Predicate → Option ℕ → Bool
  is_wanted p none = false
  is_wanted p (some q) = accepts p q

  -- A parameter's address, if the variable that is found is one.
  unfoldable pub find_first_parameter :
      ℕ → Option Name → Name → Predicate → Store → ℕ → Option (Option ℕ)
  unfolding find_first_variable
  find_first_parameter n ending name p s r =
      find_first_variable n ending name (some (λ v. is_wanted p (s.variable_at v).parameter)) s r
      >>= λ found. some (found >>= λ v. (s.variable_at v).parameter)

  -- `findRegistry`, `findVariable`, `findVariables` and `hasUniqueVariable` of a registry.
  unfoldable pub find_registry : ℕ → Option Name → Name → Store → ℕ → Option (Option ℕ)
  unfolding find_first_registry
  find_registry n ending name s r =
      check_name_does_not_contain_separator name >> find_first_registry n ending name none s r

  unfoldable pub find_variable : ℕ → Option Name → Name → Store → ℕ → Option (Option ℕ)
  unfolding find_first_variable
  find_variable n ending name s r =
      check_name_does_not_contain_separator name >> find_first_variable n ending name none s r

  unfoldable pub find_variables : ℕ → Option Name → Name → Store → ℕ → Option (List ℕ)
  unfolding find_variables_where
  find_variables n ending name s r =
      check_name_does_not_contain_separator name >> find_variables_where n ending name none s r

  unfoldable pub count_number_of_variables : ℕ → Option Name → Name → Store → ℕ → Option ℕ
  count_number_of_variables zero parent name s r = none
  count_number_of_variables (suc n) parent name s r = do
    here ← matches parent (s.registry_at r).namespace
    counts ← map_all (count_number_of_variables n parent name s) (s.registry_at r).children
    some ((if here && not (is_null (get_variable name s r)) then 1 else 0) + sum counts)

  unfoldable pub has_unique_variable : ℕ → Option Name → Name → Store → ℕ → Option Bool
  unfolding count_number_of_variables
  has_unique_variable n ending name s r =
      check_name_does_not_contain_separator name
      >> (count_number_of_variables n ending name s r >>= λ count. some (count == 1))

  -- `findRegistry` of a namespace, and the variables of the registry that it finds.
  unfoldable pub find_registry_in : ℕ → Namespace → Store → ℕ → Option (Option ℕ)
  find_registry_in zero ending s r = none
  find_registry_in (suc n) ending s r = do
    here ← ends_with to_lower false ending (s.registry_at r).namespace
    if here
        then some (some r)
        else first_found (find_registry_in n ending s) (s.registry_at r).children

  unfoldable pub find_variables_in : ℕ → Namespace → Store → ℕ → Option (List ℕ)
  unfolding find_registry_in
  find_variables_in n ns s r = find_registry_in n ns s r >>= λ target. elim target [
    | none ↦ some []
    | some t ↦ some (s.registry_at t).variables
  ]

  -- The overloads of include/ihmc/yovariables/registry/yo_variable_holder.h that split a name.
  unfoldable pub find_variable_named : ℕ → Name → Store → ℕ → Option (Option ℕ)
  unfolding find_variable split_trailing_name
  find_variable_named n full s r =
      let (ending, name) = split_trailing_name full in find_variable n ending name s r

  unfoldable pub find_variables_named : ℕ → Name → Store → ℕ → Option (List ℕ)
  unfolding find_variables split_trailing_name
  find_variables_named n full s r =
      let (ending, name) = split_trailing_name full in find_variables n ending name s r

  unfoldable pub find_registry_named : ℕ → Name → Store → ℕ → Option (Option ℕ)
  unfolding find_registry split_trailing_name
  find_registry_named n full s r =
      let (ending, name) = split_trailing_name full in find_registry n ending name s r

  unfoldable pub has_unique_variable_named : ℕ → Name → Store → ℕ → Option Bool
  unfolding has_unique_variable split_trailing_name
  has_unique_variable_named n full s r =
      let (ending, name) = split_trailing_name full in has_unique_variable n ending name s r

  unfoldable pub has_variable_named : ℕ → Name → Store → ℕ → Option Bool
  unfolding find_variable_named
  has_variable_named n full s r =
      find_variable_named n full s r >>= λ found. some (not (is_null found))

  unfoldable pub has_variable : ℕ → Option Name → Name → Store → ℕ → Option Bool
  unfolding find_variable
  has_variable n ending name s r =
      find_variable n ending name s r >>= λ found. some (not (is_null found))

  -- Whether every name is a key of the map.
  abbrev pub all_known : List Name → AddressMap → Bool
  all_known [] m = true
  all_known (name ∷ names) m = not (is_null (find (map to_lower name) m)) && all_known names m

  -- `operator==`
  unfoldable pub same_registry : Store → ℕ → ℕ → Bool
  same_registry s r q =
      let a = s.registry_at r in
      let b = s.registry_at q in
      (r == q)
      || same a.namespace b.namespace
        && (length a.variables == length b.variables)
        && all_known (map (λ v. (s.variable_at v).name) a.variables) b.name_to_variable_map
        && (length a.children == length b.children)
        && all_known (map (λ c. (s.registry_at c).name) a.children) b.name_to_child_map
