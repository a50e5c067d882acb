-- ===== src/Parameters.antt =====
-- src/parameters/yo_parameter.cpp, parameter_data.cpp, abstract_parameter_reader.cpp,
-- single_parameter_reader.cpp and the parameters of each type beside them. The variable that backs a
-- parameter is a parameter of the model, with the operations that its type gives. `none` is an
-- exception, or a null pointer that is followed.
pub mod Reader
pub mod Lookup
use ihmc_yovariables_cpp.Common.{
  ℕ, ◌==◌, if◌then◌else◌, Bool, true, false, not, ◌&&◌, List, [], ◌∷◌, ◌++◌, map, Option, none,
  some, ◌>>=◌, ◌>>◌, require,
}
use ihmc_yovariables_cpp.Registry.Names.{Name, separator}
use ihmc_yovariables_cpp.Registry.Namespace.{Namespace, is_root, remove_start, remove_end_length}
use ihmc_yovariables_cpp.Registry.VariableList.{is_in, erase_one}
use ihmc_yovariables_cpp.Registry.Objects.{find, erase}

-- include/ihmc/yovariables/parameters/parameter_load_status.h
pub data LoadStatus : Type 0 where
  unloaded default loaded : LoadStatus

-- What the variables of a type give their parameters: `parseValue`, the assignment of the initial
-- value, `setValueFromDouble` and `setVariableBounds`.
pub record Backing (V D : Type 0) : Type 0 where
  pub parse_value : Name → V → Option V
  pub set_initial : V → V
  pub set_value_from_double : D → V → V
  pub set_variable_bounds : D → D → V → V

pub record YoParameter (V : Type 0) : Type 0 where
  pub name : Name
  pub namespace : Option Namespace
  pub variable : V
  pub load_status : LoadStatus
  -- `changedListenerHolder_` and its listeners; the holder is a listener of the variable.
  pub changed_listeners : Option (List ℕ)

pub record ParameterData (D : Type 0) : Type 0 where
  pub value : Name
  pub min : D
  pub max : D

abbrev pub is_unloaded : LoadStatus → Bool
is_unloaded unloaded = true
is_unloaded default = false
is_unloaded loaded = false

-- The constructors of `ParameterData`; `stod` is a parameter, and so are 0.0 and 1.0.
unfoldable pub construct_data :
    {D : Type 0}
    → (Name → Option D)
    → D
    → D
    → Name
    → Option Name
    → Option Name
    → Option (ParameterData D)
construct_data stod zero one value (some min) (some max) = do
  a ← stod min
  b ← stod max
  some (record { value = value; min = a; max = b })
construct_data stod zero one value none max = some (record { value = value; min = zero; max = one })
construct_data stod zero one value (some min) none =
    some (record { value = value; min = zero; max = one })

-- What has been read: the parameters, the names of those that took their default, and the values
-- that are left.
pub record Reading (V D : Type 0) : Type 0 where
  pub parameters : List (YoParameter V)
  pub defaults : List Name
  pub left : List (Name × ParameterData D)

module _ {V D : Type 0} where
  abbrev pub with_parameter : YoParameter V → Reading V D → Reading V D
  with_parameter p r = record r { parameters = p ∷ r.parameters }

  abbrev pub with_default : Name → Reading V D → Reading V D
  with_default name r = record r { defaults = name ∷ r.defaults }

module _ {V D : Type 0} (b : Backing V D) where
  unfoldable pub is_loaded : YoParameter V → Bool
  is_loaded p = not (is_unloaded p.load_status)

  unfoldable pub check_loaded : YoParameter V → Option (Unit {0})
  unfolding is_loaded
  check_loaded p = require (is_loaded p)

  -- `getValue` of the parameters of each type: the variable, whose value is given.
  unfoldable pub get_value : YoParameter V → Option V
  unfolding check_loaded
  get_value p = check_loaded p >> some p.variable

  unfoldable pub set_load_status : LoadStatus → YoParameter V → YoParameter V
  set_load_status status p = record p { load_status = status }

  -- Whether the call ends without an exception, and the parameter after it.
  unfoldable pub set_to_string : Name → YoParameter V → Bool × YoParameter V
  set_to_string s p = elim (b.parse_value s p.variable) [
    | none ↦ (false, p)
    | some v ↦ (true, record p { variable = v })
  ]

  unfoldable pub load : Name → YoParameter V → Bool × YoParameter V
  unfolding set_to_string set_load_status
  load s p = set_to_string s (set_load_status loaded p)

  unfoldable pub set_to_default : YoParameter V → YoParameter V
  set_to_default p = record p { variable = b.set_initial p.variable }

  unfoldable pub load_default : YoParameter V → YoParameter V
  unfolding set_to_default set_load_status
  load_default p = set_to_default (set_load_status default p)

  unfoldable pub set_parameter_bounds : D → D → YoParameter V → YoParameter V
  set_parameter_bounds lower upper p = record p {
    variable = b.set_variable_bounds lower upper p.variable;
  }

  unfoldable pub add_listener : ℕ → YoParameter V → YoParameter V
  add_listener l p = record p {
    changed_listeners = elim p.changed_listeners [
      | none ↦ some (l ∷ [])
      | some ls ↦ some (ls ++ l ∷ [])
    ];
  }

  unfoldable pub remove_listeners : YoParameter V → YoParameter V
  remove_listeners p = record p { changed_listeners = (p.changed_listeners >>= λ ls. some []) }

  unfoldable pub get_listeners : YoParameter V → List ℕ
  get_listeners p = elim p.changed_listeners [ none ↦ [] | some ls ↦ ls ]

  unfoldable pub remove_listener : ℕ → YoParameter V → Bool × YoParameter V
  remove_listener l p = elim p.changed_listeners [
    | none ↦ (false, p)
    | some ls ↦ (is_in l ls, record p { changed_listeners = some (erase_one l ls) })
  ]

  -- `readParameter` of `SingleParameterReader`
  unfoldable pub read_parameter : D → LoadStatus → YoParameter V → Option (YoParameter V)
  unfolding set_load_status
  read_parameter x status p =
      require (not (is_unloaded status))
      >> some
          (set_load_status status (record p { variable = b.set_value_from_double x p.variable }))

  -- `setParameterFromThis` of `ParameterData`
  unfoldable pub set_parameter_from_this : ParameterData D → YoParameter V → Option (YoParameter V)
  unfolding load set_parameter_bounds
  set_parameter_from_this d p =
      let (ok, q) = load d.value p in require ok >> some (set_parameter_bounds d.min d.max q)

  -- `getRelativeNamespace`, for the namespace of a registry. `std::tolower` is a parameter.
  unfoldable pub get_relative_namespace : (ℕ → ℕ) → Option Namespace → Namespace → Option Namespace
  unfolding is_root remove_start remove_end_length
  get_relative_namespace to_lower none registry = none
  get_relative_namespace to_lower (some ns) registry = if is_root registry then some ns else do
    above ← remove_end_length 1 registry
    parent ← above
    rest ← remove_start to_lower parent ns
    rest

  module _ (to_lower : ℕ → ℕ) (registry : Namespace) where
    unfoldable pub relative_name : YoParameter V → Option Name
    unfolding get_relative_namespace
    relative_name p = do
      ns ← get_relative_namespace to_lower p.namespace registry
      some (ns.name ++ separator ∷ p.name)

    -- The loop of `readParametersInRegistry` over the parameters of the subtree.
    unfoldable pub read_parameters :
        List (YoParameter V) → List (Name × ParameterData D) → Option (Reading V D)
    unfolding set_parameter_from_this load_default relative_name
    read_parameters [] values = some (record { parameters = []; defaults = []; left = values })
    read_parameters (p ∷ ps) values = relative_name p >>= λ name. elim (find name values) [
      | some value ↦ do
        q ← set_parameter_from_this value p
        r ← read_parameters ps (erase name values)
        some (with_parameter q r)
      | none ↦ do
        r ← read_parameters ps values
        some (with_default name (with_parameter (load_default p) r))
    ]
