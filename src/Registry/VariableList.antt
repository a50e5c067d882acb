-- ===== src/Registry/VariableList.antt =====
-- src/registry/yo_variable_list.cpp: a list of variables with a map from their names in lower case.
-- A variable is its address; its name and its namespace, which may be missing, are parameters, as
-- these variables do not change. `none` is an exception; a method that changes the list gives the list
-- also where it throws.
pub mod Counts
pub mod Tied
use ihmc_yovariables_cpp.Common.{
  ℕ, ℤ, pos, negsuc, zero, suc, ◌+◌, ltb, leb, ◌==◌, if◌then◌else◌, Bool, true, false, not, ◌||◌,
  List, [], ◌∷◌, ◌++◌, length, get_elem?, set, map, Option, none, some, ◌>>=◌, ◌>>◌, require,
}
use ihmc_yovariables_cpp.Registry.Names.{
  Name, eq_name, take, drop, is_empty, check_name_does_not_contain_separator,
}
use ihmc_yovariables_cpp.Registry.Namespace.{Namespace, same, ends_with_name}

pub record Variables : Type 0 where
  pub to_lower : ℕ → ℕ
  pub name_of : ℕ → Name
  pub namespace_of : ℕ → Option Namespace

-- `simpleNameToVariablesMap_`
abbrev pub NameMap : Type 0
NameMap = List (Name × List ℕ)

pub record VariableList : Type 0 where
  pub variable_list : List ℕ
  pub simple_name_to_variables_map : NameMap

unfoldable pub lookup : Name → NameMap → Option (List ℕ)
lookup k [] = none
lookup k ((l, vs) ∷ m) = let rest = lookup k m in if eq_name l k then some vs else rest

unfoldable pub put : Name → List ℕ → NameMap → NameMap
put k vs [] = (k, vs) ∷ []
put k vs ((l, us) ∷ m) =
    let rest = put k vs m in if eq_name l k then (l, vs) ∷ m else (l, us) ∷ rest

abbrev pub is_in : ℕ → List ℕ → Bool
is_in v [] = false
is_in v (u ∷ us) = (u == v) || is_in v us

-- `std::find` and `erase`.
abbrev pub erase_one : ℕ → List ℕ → List ℕ
erase_one v [] = []
erase_one v (u ∷ us) = let rest = erase_one v us in if u == v then us else u ∷ rest

-- `std::remove` and `erase`.
abbrev pub erase_all : ℕ → List ℕ → List ℕ
erase_all v [] = []
erase_all v (u ∷ us) = let rest = erase_all v us in if u == v then rest else u ∷ rest

-- `get`
unfoldable pub get_at : ℤ → VariableList → Option ℕ
get_at (pos i) l = get_elem? l.variable_list i
get_at (negsuc i) l = none

unfoldable pub empty : VariableList
empty = record { variable_list = []; simple_name_to_variables_map = [] }

unfoldable pub clear : VariableList → VariableList
clear l = record { variable_list = []; simple_name_to_variables_map = [] }

-- `indexOf`, where `none` is -1.
abbrev pub index_in : ℕ → List ℕ → Option ℕ
index_in v [] = none
index_in v (u ∷ us) =
    let rest = index_in v us in if u == v then some 0 else rest >>= λ i. some (suc i)

unfoldable pub index_of : ℕ → VariableList → ℤ
index_of v l = elim (index_in v l.variable_list) [ none ↦ negsuc 0 | some i ↦ pos i ]

abbrev pub replace : ℤ → ℕ → List ℕ → List ℕ
replace (pos i) v us = set us i v
replace (negsuc i) v us = us

module _ (vs : Variables) where
  unfoldable pub key : ℕ → Name
  key v = map vs.to_lower (vs.name_of v)

  abbrev pub same_namespace : Option Namespace → Option Namespace → Bool
  same_namespace none none = true
  same_namespace none (some b) = false
  same_namespace (some a) none = false
  same_namespace (some a) (some b) = same a b

  abbrev pub any_same_namespace : ℕ → List ℕ → Bool
  any_same_namespace v [] = false
  any_same_namespace v (u ∷ us) =
      same_namespace (vs.namespace_of u) (vs.namespace_of v) || any_same_namespace v us

  unfoldable pub register_variable_in_map : ℕ → NameMap → Option Bool × NameMap
  register_variable_in_map v m = elim (lookup (key v) m) [
    | none ↦ (some true, put (key v) (v ∷ []) m)
    | some homonyms ↦
        if is_in v homonyms
        then (some false, m)
        else if any_same_namespace v homonyms
        then (none, m)
        else (some true, put (key v) (homonyms ++ v ∷ []) m)
  ]

  -- The rest of `add`, after the registration in the map.
  abbrev pub finish_add : ℕ → VariableList → Option Bool × NameMap → Option Bool × VariableList
  finish_add v l (none, m) = (none, record l { simple_name_to_variables_map = m })
  finish_add v l (some added, m) = (
    some added,
    record {
      variable_list = if added then l.variable_list ++ v ∷ [] else l.variable_list;
      simple_name_to_variables_map = m;
    },
  )

  unfoldable pub add : ℕ → VariableList → Option Bool × VariableList
  unfolding register_variable_in_map
  add v l = finish_add v l (register_variable_in_map v l.simple_name_to_variables_map)

  unfoldable pub add_at : ℤ → ℕ → VariableList → Option (Unit {0}) × VariableList
  unfolding register_variable_in_map
  add_at (negsuc i) v l = (none, l)
  add_at (pos i) v l =
      if ltb (length l.variable_list) i
      then (none, l)
      else (let (registered, m) = register_variable_in_map v l.simple_name_to_variables_map in
          elim registered [
            | none ↦ (none, record l { simple_name_to_variables_map = m })
            | some added ↦ (
              some tt,
              record {
                variable_list =
                    if added
                    then take i l.variable_list ++ v ∷ [] ++ drop i l.variable_list
                    else l.variable_list;
                simple_name_to_variables_map = m;
              },
            )
          ])

  -- Where a variable is refused, those before it have been added.
  unfoldable pub add_all : List ℕ → VariableList → Option (Unit {0}) × VariableList
  unfolding add
  add_all [] l = (some tt, l)
  add_all (v ∷ us) l =
      let (added, l') = add v l in elim added [ none ↦ (none, l') | some _ ↦ add_all us l' ]

  -- What `set` and `remove` of an index do to the homonyms of a variable.
  unfoldable pub forget : ℕ → NameMap → NameMap
  forget v m = elim (lookup (key v) m) [
    | none ↦ m
    | some homonyms ↦ put (key v) (erase_all v homonyms) m
  ]

  -- `set`: the result is the variable that was there, or null if the new one is in the list already.
  unfoldable pub set_at : ℤ → ℕ → VariableList → Option (Option ℕ) × VariableList
  unfolding register_variable_in_map forget
  set_at i v l = elim (get_at i l) [
    | none ↦ (none, l)
    | some previous ↦
        if v == previous
        then (some (some previous), l)
        else (let (registered, m) = register_variable_in_map v l.simple_name_to_variables_map in
            elim registered [
              | none ↦ (none, record l { simple_name_to_variables_map = m })
              | some added ↦
                  if added
                  then (
                    some (some previous),
                    record {
                      variable_list = replace i v l.variable_list;
                      simple_name_to_variables_map = forget previous m;
                    },
                  )
                  else (some none, record l { simple_name_to_variables_map = m })
            ])
  ]

  unfoldable pub remove_at : ℤ → VariableList → Option ℕ × VariableList
  unfolding forget
  remove_at i l = elim (get_at i l) [
    | none ↦ (none, l)
    | some v ↦ (
      some v,
      record {
        variable_list = erase_all v l.variable_list;
        simple_name_to_variables_map = forget v l.simple_name_to_variables_map;
      },
    )
  ]

  -- `remove` of a variable that is not null.
  unfoldable pub remove : ℕ → VariableList → Bool × VariableList
  remove v l = elim (lookup (key v) l.simple_name_to_variables_map) [
    | none ↦ (false, l)
    | some homonyms ↦ (
      is_in v homonyms || is_in v l.variable_list,
      record {
        variable_list = erase_one v l.variable_list;
        simple_name_to_variables_map =
            if is_in v homonyms
            then put (key v) (erase_one v homonyms) l.simple_name_to_variables_map
            else l.simple_name_to_variables_map;
      },
    )
  ]

  -- The candidates whose namespace ends with a name, among those that have one.
  unfoldable pub ending_with : Name → List ℕ → Option (List ℕ)
  ending_with ending [] = some []
  ending_with ending (u ∷ us) = do
    matches ← elim (vs.namespace_of u) [
      | none ↦ some false
      | some ns ↦ ends_with_name vs.to_lower false ending ns
    ]
    rest ← ending_with ending us
    some (if matches then u ∷ rest else rest)

  abbrev pub first_of : List ℕ → Option ℕ
  first_of [] = none
  first_of (u ∷ us) = some u

  abbrev pub homonyms_of : Name → VariableList → List ℕ
  homonyms_of name l = elim (lookup (map vs.to_lower name) l.simple_name_to_variables_map) [
    | none ↦ []
    | some homonyms ↦ homonyms
  ]

  -- `findVariables` of a name.
  unfoldable pub find_variables : Option Name → Name → VariableList → Option (List ℕ)
  unfolding ending_with
  find_variables ending name l = check_name_does_not_contain_separator name >> elim ending [
    | none ↦ some (homonyms_of name l)
    | some e ↦ ending_with e (homonyms_of name l)
  ]

  -- `findVariable`: the first of these, or null.
  unfoldable pub find_variable : Option Name → Name → VariableList → Option (Option ℕ)
  unfolding find_variables
  find_variable ending name l = find_variables ending name l >>= λ found. some (first_of found)

  unfoldable pub count_number_of_variables : Option Name → Name → VariableList → Option ℕ
  unfolding ending_with
  count_number_of_variables parent name l = elim parent [
    | none ↦ some (length (homonyms_of name l))
    | some e ↦ ending_with e (homonyms_of name l) >>= λ found. some (length found)
  ]

  unfoldable pub has_unique_variable : Option Name → Name → VariableList → Option Bool
  unfolding count_number_of_variables
  has_unique_variable ending name l =
      check_name_does_not_contain_separator name
      >> (count_number_of_variables ending name l >>= λ n. some (n == 1))

  -- `findVariables` of a namespace.
  unfoldable pub variables_in : Namespace → List ℕ → List ℕ
  variables_in ns [] = []
  variables_in ns (u ∷ us) =
      let rest = variables_in ns us in
      if same_namespace (vs.namespace_of u) (some ns) then u ∷ rest else rest
