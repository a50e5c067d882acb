-- ===== src/Registry/Search/Ends.antt =====
-- That the searches end on a tree of finite depth.
use ihmc_yovariables_cpp.Common.{
  ℕ, zero, suc, ◌-◌, ◌<◌, ◌==◌, ltb, Bool, true, false, if◌then◌else◌, List, ◌++◌, length,
  get_elem?-some, Option, none, some, ◌≡◌, refl, ◌∙◌, arith, Bool-cases, inl, inr, All,
}
use ihmc_yovariables_cpp.Common.Faults.{map_all-All}
use ihmc_yovariables_cpp.Registry.Names.{
  Name, separator, find_char, drop, contains_char, check_name_does_not_contain_separator,
}
use ihmc_yovariables_cpp.Registry.Namespace.{Namespace, ends_with_name, same_name}
use ihmc_yovariables_cpp.Registry.Search.Agree.{
  find_variable-find_variables, has_unique_variable-find_variables,
}
use ihmc_yovariables_cpp.Registry.Objects.{Store}
use ihmc_yovariables_cpp.Registry.Search.{
  concat, to_list, Predicate, accepted, get_variable, matches, find_variables_where, find_variables,
  find_variable, has_unique_variable, first_of,
}

ends_with_name_total :
    (to_lower : ℕ → ℕ) (e : Name) (ns : Namespace)
    → (b : Bool) × (ends_with_name to_lower false e ns ≡ some b)
unfolding ends_with_name
ends_with_name_total to_lower e ns =
    let before = length ns.name - length e in
    elim (Bool-cases (ltb (length ns.name) (length e))) [
      | inl t ↦ (false, rw t refl)
      | inr f ↦ elim (Bool-cases (same_name to_lower false (drop before ns.name) e)) [
        | inr differs ↦ (false, rw (f, differs) refl)
        | inl same ↦ elim (Bool-cases (before == 0)) [
          | inl z ↦ (true, rw (f, same, z) refl)
          | inr nz ↦
              let (c, at) = get_elem?-some ns.name (before - 1) (ground arith) in
              (c == separator, rw (f, same, nz, at) refl)
        ]
      ]
    ]

matches_total :
    (to_lower : ℕ → ℕ) (ending : Option Name) (ns : Namespace)
    → (b : Bool) × (matches to_lower ending ns ≡ some b)
unfolding matches
matches_total to_lower none ns = (true, refl)
matches_total to_lower (some e) ns = ends_with_name_total to_lower e ns

-- The children have a lower rank, so that the tree is of finite depth.
abbrev pub IsRanked : Store → (ℕ → ℕ) → Type 0
IsRanked s rank = (r : ℕ) → All (λ c. rank c < rank r) (s.registry_at r).children

walk_ends :
    (to_lower : ℕ → ℕ) (ending : Option Name) (name : Name) (p : Predicate) (s : Store)
    (rank : ℕ → ℕ)
    → IsRanked s rank
    → (n r : ℕ) → rank r < n
    → (vs : List ℕ) × (find_variables_where to_lower n ending name p s r ≡ some vs)
unfolding find_variables_where
walk_ends to_lower ending name p s rank ranked zero r h = absurd (omega arith)
walk_ends to_lower ending name p s rank ranked (suc n) r h =
    let (at, e0) = matches_total to_lower ending (s.registry_at r).namespace in
    let (yss, e1, _) =
      map_all-All (λ c. rank c < rank r) (λ (ys : List ℕ). Unit {0})
        (find_variables_where to_lower n ending name p s)
        (λ c below.
          let (ys, e) =
            walk_ends to_lower ending name p s rank ranked n c (omega (arith, below, h)) in
          (ys, e, tt))
        (s.registry_at r).children (ranked r) in
    (
      to_list (if at then accepted p (get_variable to_lower name s r) else none) ++ concat yss,
      rw (e0, e1) refl,
    )

-- On a tree whose children have a lower rank, with a depth above the rank, every search for a name
-- without a separator ends. `findVariables` gives some variables, `findVariable` the first of them or
-- null, and `hasUniqueVariable` says whether there is one.
pub find_variables_ends :
    (to_lower : ℕ → ℕ) (ending : Option Name) (name : Name) (s : Store) (rank : ℕ → ℕ)
    → IsRanked s rank
    → find_char separator name ≡ none
    → (n r : ℕ) → rank r < n
    → (vs : List ℕ) × (find_variables to_lower n ending name s r ≡ some vs)
      × (find_variable to_lower n ending name s r ≡ some (first_of vs))
      × (has_unique_variable to_lower n ending name s r ≡ some (length vs == 1))
unfolding find_variables check_name_does_not_contain_separator
find_variables_ends to_lower ending name s rank ranked plain n r h =
    let (vs, e) = walk_ends to_lower ending name none s rank ranked n r h in
    let found : find_variables to_lower n ending name s r ≡ some vs = rw (contains_char, plain) e in
    (
      vs,
      found,
      find_variable-find_variables to_lower n ending name s r vs found,
      has_unique_variable-find_variables to_lower n ending name s r ∙ rw found refl,
    )
