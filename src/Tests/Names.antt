-- ===== src/Tests/Names.antt =====
-- Names and namespaces on small inputs. The letters a and b are 97 and 98.
use ihmc_yovariables_cpp.Common.{
  ℕ, ◌==◌, if◌then◌else◌, true, false, List, [], ◌∷◌, none, some, ◌≡◌, ◌≢◌, refl, ap, arith,
}
use ihmc_yovariables_cpp.Registry.Names.{
  Name, split_name, join_names, check_name_does_not_contain_separator, to_short_name,
}
use ihmc_yovariables_cpp.Registry.Names.Split.{split_name-join_names}
use ihmc_yovariables_cpp.Registry.Namespace.{
  Namespace, of_name, contains, contains_name, search_name, same, size, same_name,
}
use ihmc_yovariables_cpp.Registry.Namespace.Parts.{contains-misses}
use ihmc_yovariables_cpp.Registry.Names.Split.{join_names-split_name}
use ihmc_yovariables_cpp.Registry.VariableList
use ihmc_yovariables_cpp.Registry.VariableList.{Variables, is_in}
use ihmc_yovariables_cpp.Registry.VariableList.Tied.{
  IsTied, IsFiled, Step, adds, removes, run-IsTied,
}
use ihmc_yovariables_cpp.Registry.VariableList.Tied

abbrev a : Name
a = 97 ∷ []

abbrev b : Name
b = 98 ∷ []

abbrev a_b : Namespace
a_b = record { sub_names = a ∷ b ∷ []; name = 97 ∷ 46 ∷ 98 ∷ [] }

abbrev a_a_b : Namespace
a_a_b = record { sub_names = a ∷ a ∷ b ∷ []; name = 97 ∷ 46 ∷ 97 ∷ 46 ∷ 98 ∷ [] }

abbrev a_b_a : Namespace
a_b_a = record { sub_names = a ∷ b ∷ a ∷ []; name = 97 ∷ 46 ∷ 98 ∷ 46 ∷ 97 ∷ [] }

abbrev same_letter : ℕ → ℕ
same_letter c = c

made_a_b : of_name a_b.name ≡ some a_b
unfolding of_name split_name
made_a_b = refl

made_a_a_b : of_name a_a_b.name ≡ some a_a_b
unfolding of_name split_name
made_a_a_b = refl

abbrev first_or : Name → ℕ → ℕ
first_or [] d = d
first_or (c ∷ cs) d = c

a-differs : a ≢ b
a-differs same_names =
    let letters : ◌≡◌ {A = ℕ} 97 98 = ap (λ (s : Name). first_or s 0) same_names in
    absurd (omega arith)

contains-a_b : contains same_letter false a_b a_b_a ≡ some true
unfolding contains size same_name
contains-a_b = refl

-- The sub-name b is found in a.b.a.
contains_name-b : contains_name same_letter false b a_b_a ≡ some true
unfolding contains_name search_name same_name
contains_name-b = refl

-- It is missed behind a sub-name that ends in it.
contains_name-ab_b :
    contains_name same_letter false b
      (record { sub_names = (97 ∷ 98 ∷ []) ∷ b ∷ []; name = 97 ∷ 98 ∷ 46 ∷ 98 ∷ [] })
    ≡ some false
unfolding contains_name search_name same_name
contains_name-ab_b = refl

differ : same a_b_a a_b ≡ false
unfolding same
differ = refl

short_name : to_short_name a_b.name ≡ b
unfolding to_short_name
short_name = refl

refused : check_name_does_not_contain_separator a_b.name ≡ none
unfolding check_name_does_not_contain_separator
refused = refl

join_names-split_name_example : join_names (split_name (46 ∷ 97 ∷ 46 ∷ [])) ≡ 46 ∷ 97 ∷ 46 ∷ []
join_names-split_name_example = join_names-split_name (46 ∷ 97 ∷ 46 ∷ [])

split_name-join_names_example : split_name (join_names (a ∷ [] ∷ b ∷ [])) ≡ a ∷ [] ∷ b ∷ []
split_name-join_names_example = split_name-join_names a ([] ∷ b ∷ []) refl (refl, (refl, tt))

contains-misses_example : contains same_letter false a_b a_a_b ≡ some false
contains-misses_example = contains-misses same_letter a b a_b a_a_b a-differs refl refl

-- Variables with the names a and A in two namespaces: the map puts them together.
abbrev three : Variables
three = record {
  to_lower = λ c. if c == 65 then 97 else c;
  name_of = λ v. if v == 2 then 65 ∷ [] else a;
  namespace_of = λ v. if v == 1 then some a_b else some a_a_b;
}

abbrev steps : List Step
steps = adds 1 ∷ adds 2 ∷ adds 3 ∷ adds 1 ∷ removes 1 ∷ []

kept : (Tied.run three steps VariableList.empty).variable_list ≡ 2 ∷ []
unfolding VariableList.add VariableList.remove VariableList.empty VariableList.key
    VariableList.lookup VariableList.put same
kept = refl

run-IsTied_example :
    IsTied three (Tied.run three steps VariableList.empty)
    × IsFiled three (Tied.run three steps VariableList.empty)
    × ((v : ℕ)
        → (VariableList.add three v (Tied.run three steps VariableList.empty)).0 ≡ none
        → (VariableList.add three v (Tied.run three steps VariableList.empty)).1
          ≡ Tied.run three steps VariableList.empty)
run-IsTied_example = run-IsTied three steps
