-- ===== src/Registry/Search/Agree.antt =====
-- How the searches of one tree agree.
use ihmc_yovariables_cpp.Common.{
  ℕ, zero, suc, ◌==◌, Bool, true, false, if◌then◌else◌, not, ◌&&◌, List, [], ◌∷◌, ◌++◌, length,
  length-append, Option, none, some, ◌>>=◌, ◌≡◌, refl, ap, ◌∙◌, Bool-cases, Option-cases, inl, inr,
  >>=-eq-some, eq_of_some,
}
use ihmc_yovariables_cpp.Common.Faults.{map_all}
use ihmc_yovariables_cpp.Registry.Names.{Name, check_name_does_not_contain_separator}
use ihmc_yovariables_cpp.Registry.Objects.{Store, is_null}
use ihmc_yovariables_cpp.Registry.Search.{
  concat, keep, to_list, first_of, Predicate, accepted, get_variable, matches,
  collect_subtree_variables, collect_subtree_registries, get_number_of_variables_deep,
  get_number_of_variables, filter_variables, filter_registries, find_filtered, find_first_variable,
  find_variables_where, find_variable, find_variables, count_number_of_variables,
  has_unique_variable,
}
use ihmc_yovariables_cpp.Registry.Search.Fusion.{
  map_all-map, sum-map-length, keep-append, concat-map-keep, first_found-map_all,
}

-- `filterVariables` is the filter on all variables of the subtree: both end, or neither does within
-- the depth.
pub filter_variables-collect_subtree_variables :
    (n : ℕ) (f : ℕ → Bool) (s : Store) (r : ℕ)
    → filter_variables n f s r ≡ (collect_subtree_variables n s r >>= λ vs. some (keep f vs))
unfolding filter_variables collect_subtree_variables
filter_variables-collect_subtree_variables zero f s r = refl
filter_variables-collect_subtree_variables (suc n) f s r =
    let step =
      map_all-map (filter_variables n f s) (collect_subtree_variables n s) (keep f)
        (filter_variables-collect_subtree_variables n f s) (s.registry_at r).children in
    elim (Option-cases (map_all (collect_subtree_variables n s) (s.registry_at r).children)) [
      | inl e ↦ rw (step, e) refl
      | inr (yss, e) ↦
          rw
            (step, e, concat-map-keep f yss, keep-append f (s.registry_at r).variables (concat yss))
            refl
    ]

pub filter_registries-collect_subtree_registries :
    (n : ℕ) (f : ℕ → Bool) (s : Store) (r : ℕ)
    → filter_registries n f s r ≡ (collect_subtree_registries n s r >>= λ rs. some (keep f rs))
unfolding filter_registries collect_subtree_registries
filter_registries-collect_subtree_registries zero f s r = refl
filter_registries-collect_subtree_registries (suc n) f s r =
    let step =
      map_all-map (filter_registries n f s) (collect_subtree_registries n s) (keep f)
        (filter_registries-collect_subtree_registries n f s) (s.registry_at r).children in
    elim (Option-cases (map_all (collect_subtree_registries n s) (s.registry_at r).children)) [
      | inl e ↦ rw (step, e) refl
      | inr (yss, e) ↦ elim (Bool-cases (f r)) [
        | inl t ↦ rw (step, e, concat-map-keep f yss, t) refl
        | inr t ↦ rw (step, e, concat-map-keep f yss, t) refl
      ]
    ]

-- `getNumberOfVariablesDeep` is the number of the variables that `collectSubtreeVariables` gives.
pub get_number_of_variables_deep-collect_subtree_variables :
    (n : ℕ) (s : Store) (r : ℕ)
    → get_number_of_variables_deep n s r
      ≡ (collect_subtree_variables n s r >>= λ vs. some (length vs))
unfolding get_number_of_variables_deep collect_subtree_variables get_number_of_variables
get_number_of_variables_deep-collect_subtree_variables zero s r = refl
get_number_of_variables_deep-collect_subtree_variables (suc n) s r =
    let step =
      map_all-map (get_number_of_variables_deep n s) (collect_subtree_variables n s) length
        (get_number_of_variables_deep-collect_subtree_variables n s) (s.registry_at r).children in
    elim (Option-cases (map_all (collect_subtree_variables n s) (s.registry_at r).children)) [
      | inl e ↦ rw (step, e) refl
      | inr (yss, e) ↦
          rw (step, e, sum-map-length yss, length-append (s.registry_at r).variables (concat yss))
            refl
    ]

-- What is here comes before what is below.
first_here :
    (xs ys : List ℕ) {below : Option (Option ℕ)}
    → below ≡ some (first_of ys)
    → (elim (first_of xs) as (λ _. Option (Option ℕ)) [ some v ↦ some (some v) | none ↦ below ])
      ≡ some (first_of (xs ++ ys))
first_here [] ys e = e
first_here (x ∷ xs) ys e = refl

-- `findVariable` with a filter gives the first variable of `filterVariables`, or null where there is none.
pub find_filtered-filter_variables :
    (n : ℕ) (f : ℕ → Bool) (s : Store) (r : ℕ) (vs : List ℕ)
    → filter_variables n f s r ≡ some vs
    → find_filtered n f s r ≡ some (first_of vs)
unfolding filter_variables find_filtered
find_filtered-filter_variables zero f s r vs e = cc
find_filtered-filter_variables (suc n) f s r vs e =
    let (yss, e1, e2) =
      >>=-eq-some (map_all (filter_variables n f s) (s.registry_at r).children) _ e in
    let below =
      first_found-map_all (find_filtered n f s) (filter_variables n f s)
        (find_filtered-filter_variables n f s) (s.registry_at r).children yss e1 in
    first_here (keep f (s.registry_at r).variables) (concat yss) below
    ∙ ap (λ z. some (first_of z)) (eq_of_some e2)

module _ (to_lower : ℕ → ℕ) where
  first_accepted :
      (o : Option ℕ) (ys : List ℕ) {below : Option (Option ℕ)}
      → below ≡ some (first_of ys)
      → (elim o as (λ _. Option (Option ℕ)) [ some v ↦ some (some v) | none ↦ below ])
        ≡ some (first_of (to_list o ++ ys))
  first_accepted none ys e = e
  first_accepted (some v) ys e = refl

  find_first_variable-find_variables_where :
      (n : ℕ) (ending : Option Name) (name : Name) (p : Predicate) (s : Store) (r : ℕ) (vs : List ℕ)
      → find_variables_where to_lower n ending name p s r ≡ some vs
      → find_first_variable to_lower n ending name p s r ≡ some (first_of vs)
  unfolding find_variables_where find_first_variable
  find_first_variable-find_variables_where zero ending name p s r vs e = cc
  find_first_variable-find_variables_where (suc n) ending name p s r vs e =
      let (here, e0, e') = >>=-eq-some (matches to_lower ending (s.registry_at r).namespace) _ e in
      let (yss, e1, e2) =
        >>=-eq-some
          (map_all (find_variables_where to_lower n ending name p s) (s.registry_at r).children) _
          e' in
      let below =
        first_found-map_all (find_first_variable to_lower n ending name p s)
          (find_variables_where to_lower n ending name p s)
          (find_first_variable-find_variables_where n ending name p s) (s.registry_at r).children
          yss e1 in
      rw e0 (
        first_accepted (if here then accepted p (get_variable to_lower name s r) else none)
          (concat yss) below
        ∙ ap (λ z. some (first_of z)) (eq_of_some e2))

  -- `findVariable` gives the first variable of `findVariables`, or null where there is none.
  pub find_variable-find_variables :
      (n : ℕ) (ending : Option Name) (name : Name) (s : Store) (r : ℕ) (vs : List ℕ)
      → find_variables to_lower n ending name s r ≡ some vs
      → find_variable to_lower n ending name s r ≡ some (first_of vs)
  unfolding find_variables find_variable
  find_variable-find_variables n ending name s r vs e =
      let (_, e0, e1) = >>=-eq-some (check_name_does_not_contain_separator name) _ e in
      rw e0 (find_first_variable-find_variables_where n ending name none s r vs e1)

  count_here :
      (here : Bool) (o : Option ℕ)
      → (if here && not (is_null o) then 1 else 0)
        ≡ length (to_list (if here then accepted none o else none))
  count_here false o = refl
  count_here true none = refl
  count_here true (some v) = refl

  count_number_of_variables-find_variables_where :
      (n : ℕ) (parent : Option Name) (name : Name) (s : Store) (r : ℕ)
      → count_number_of_variables to_lower n parent name s r
        ≡ (find_variables_where to_lower n parent name none s r >>= λ vs. some (length vs))
  unfolding count_number_of_variables find_variables_where
  count_number_of_variables-find_variables_where zero parent name s r = refl
  count_number_of_variables-find_variables_where (suc n) parent name s r =
      let f = count_number_of_variables to_lower n parent name s in
      let g = find_variables_where to_lower n parent name none s in
      let o = get_variable to_lower name s r in
      let step =
        map_all-map f g length (count_number_of_variables-find_variables_where n parent name s)
          (s.registry_at r).children in
      elim (Option-cases (matches to_lower parent (s.registry_at r).namespace)) [
        | inl e0 ↦ rw e0 refl
        | inr (here, e0) ↦ elim (Option-cases (map_all g (s.registry_at r).children)) [
          | inl e ↦ rw (e0, step, e) refl
          | inr (yss, e) ↦
              rw
                (
                  e0,
                  step,
                  e,
                  sum-map-length yss,
                  length-append (to_list (if here then accepted none o else none)) (concat yss),
                  count_here here o,
                )
                refl
        ]
      ]

  -- `hasUniqueVariable` says whether `findVariables` gives one variable; both end, or neither does
  -- within the depth, and both throw for a name with a separator.
  pub has_unique_variable-find_variables :
      (n : ℕ) (ending : Option Name) (name : Name) (s : Store) (r : ℕ)
      → has_unique_variable to_lower n ending name s r
        ≡ (find_variables to_lower n ending name s r >>= λ vs. some (length vs == 1))
  unfolding has_unique_variable find_variables
  has_unique_variable-find_variables n ending name s r =
      elim (Option-cases (check_name_does_not_contain_separator name)) [
        | inl e ↦ rw e refl
        | inr (_, e) ↦ elim (Option-cases (find_variables_where to_lower n ending name none s r)) [
          | inl e' ↦
              rw (e, count_number_of_variables-find_variables_where n ending name s r, e') refl
          | inr (vs, e') ↦
              rw (e, count_number_of_variables-find_variables_where n ending name s r, e') refl
        ]
      ]
