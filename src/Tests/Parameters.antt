-- ===== src/Tests/Parameters.antt =====
-- Parameters on small inputs: the value of a parameter is the length of the string that it reads,
-- which may not be empty. The letters a, b and r are 97, 98 and 114.
use ihmc_yovariables_cpp.Common.{
  map, ◌>>=◌, ℕ, if◌then◌else◌, true, List, [], ◌∷◌, length, All, none, some, ◌≡◌, refl,
}
use ihmc_yovariables_cpp.Common.Faults.{map_all}
use ihmc_yovariables_cpp.Registry.Names.{Name, is_empty}
use ihmc_yovariables_cpp.Registry.Namespace.{Namespace, is_root}
use ihmc_yovariables_cpp.Registry.Objects.{find, erase}
use ihmc_yovariables_cpp.Parameters.{
  Backing, YoParameter, ParameterData, unloaded, default, loaded, is_loaded, get_relative_namespace,
  relative_name, Reading, read_parameters,
}
use ihmc_yovariables_cpp.Parameters.Reader.{identity, read_one, read_parameters-is_loaded}
use ihmc_yovariables_cpp.Parameters.Lookup.{read_parameters-read_one}

abbrev lengths : Backing ℕ ℕ
lengths = record {
  parse_value = λ s v. if is_empty s then none else some (length s);
  set_initial = λ v. 5;
  set_value_from_double = λ x v. x;
  set_variable_bounds = λ x y v. v;
}

abbrev same_letter : ℕ → ℕ
same_letter c = c

abbrev r_ns : Namespace
r_ns = record { sub_names = (114 ∷ []) ∷ []; name = 114 ∷ [] }

abbrev parameter : Name → YoParameter ℕ
parameter name = record {
  name = name;
  namespace = some r_ns;
  variable = 0;
  load_status = unloaded;
  changed_listeners = none;
}

abbrev data_of : Name → ParameterData ℕ
data_of s = record { value = s; min = 0; max = 1 }

abbrev r_a : Name
r_a = 114 ∷ 46 ∷ 97 ∷ []

abbrev r_b : Name
r_b = 114 ∷ 46 ∷ 98 ∷ []

abbrev values : List (Name × ParameterData ℕ)
values = (r_a, data_of (97 ∷ 97 ∷ [])) ∷ ([], data_of []) ∷ []

abbrev parameters : List (YoParameter ℕ)
parameters = parameter (97 ∷ []) ∷ parameter (98 ∷ []) ∷ []

-- The first parameter is given a value, and the second one takes its default.
abbrev reading : Reading ℕ ℕ
reading = record {
  parameters =
      record (parameter (97 ∷ [])) { variable = 2; load_status = loaded }
      ∷ record (parameter (98 ∷ [])) { variable = 5; load_status = default }
      ∷ [];
  defaults = r_b ∷ [];
  left = ([], data_of []) ∷ [];
}

reads : read_parameters lengths same_letter r_ns parameters values ≡ some reading
unfolding read_parameters find erase
reads = refl

named : map_all (relative_name lengths same_letter r_ns) parameters ≡ some (r_a ∷ r_b ∷ [])
unfolding map_all relative_name get_relative_namespace is_root
named = refl

read_parameters-is_loaded_example :
    (map identity reading.parameters ≡ map identity parameters)
    × All (λ p. is_loaded lengths p ≡ true) reading.parameters
read_parameters-is_loaded_example =
    read_parameters-is_loaded lengths same_letter r_ns parameters values reading reads

read_parameters-read_one_example :
    (read_parameters lengths same_letter r_ns parameters values >>= λ r. some r.parameters)
    ≡ map_all (read_one lengths same_letter r_ns values) parameters
read_parameters-read_one_example =
    read_parameters-read_one lengths same_letter r_ns parameters values (r_a ∷ r_b ∷ []) named refl
