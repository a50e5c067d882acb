-- ===== src/Registry/Search/Finds.antt =====
-- What the searches give.
use mathlib.Core.Logic.{◌↔◌}
use ihmc_yovariables_cpp.Common.{
  ℕ, zero, suc, ◌==◌, Bool, true, false, if◌then◌else◌, ◌||◌, List, [], ◌∷◌, ◌++◌, Option, none,
  some, ◌≡◌, refl, ap, sym, ◌∙◌, arith, Bool-cases, inl, inr, >>=-eq-some, eq_of_some, ==_iff,
  ==_refl,
}
use ihmc_yovariables_cpp.Common.Faults.{map_all}
use ihmc_yovariables_cpp.Registry.Names.{Name, check_name_does_not_contain_separator}
use ihmc_yovariables_cpp.Registry.VariableList.{is_in}
use ihmc_yovariables_cpp.Registry.Objects.{Store}
use ihmc_yovariables_cpp.Registry.Search.{
  concat, to_list, accepted, get_variable, matches, find_variables_where, find_variables,
}

-- A registry in the subtree of another.
pub data Within (s : Store) : ℕ → ℕ → Type 0 where
  here : {r : ℕ} → Within s r r
  below : {r c q : ℕ} → is_in c (s.registry_at r).children ≡ true → Within s c q → Within s r q

or_second : {a b : Bool} → a ≡ false → (a || b) ≡ true → b ≡ true
or_second {a} {b} e h = ap (λ x. x || b) (sym e) ∙ h

or_first : {a : Bool} (b : Bool) → a ≡ true → (a || b) ≡ true
or_first b e = ap (λ x. x || b) e

or_either : (a : Bool) {b : Bool} → b ≡ true → (a || b) ≡ true
or_either true e = refl
or_either false e = e

is_in-append : (v : ℕ) (us vs : List ℕ) → is_in v (us ++ vs) ≡ (is_in v us || is_in v vs)
is_in-append v [] vs = refl
is_in-append v (u ∷ us) vs = ground (arith, is_in-append v us vs)

-- What is in one of the results of a walk.
is_in-map_all :
    (g : ℕ → Option (List ℕ)) (v : ℕ) (xs : List ℕ) (yss : List (List ℕ))
    → map_all g xs ≡ some yss
    → is_in v (concat yss) ≡ true
    → (x : ℕ) × (is_in x xs ≡ true) × ((ys : List ℕ) × (g x ≡ some ys) × (is_in v ys ≡ true))
unfolding map_all
is_in-map_all g v [] yss e h = absurd (cc)
is_in-map_all g v (x ∷ xs) yss e h =
    let (ys, e1, rest) = >>=-eq-some (g x) _ e in
    let (tail, e2, e3) = >>=-eq-some (map_all g xs) _ rest in
    let split : (is_in v ys || is_in v (concat tail)) ≡ true =
      sym (is_in-append v ys (concat tail)) ∙ ap (λ z. is_in v (concat z)) (eq_of_some e3) ∙ h in
    elim (Bool-cases (is_in v ys)) [
      | inl t ↦ (x, ground arith, (ys, e1, t))
      | inr f ↦
          let (x', held, found) = is_in-map_all g v xs tail e2 (or_second f split) in
          (x', ground arith, found)
    ]

-- What is in the result of one step is in the results of the walk.
map_all-is_in :
    (g : ℕ → Option (List ℕ)) (v x : ℕ) (xs : List ℕ) (yss : List (List ℕ))
    → map_all g xs ≡ some yss
    → is_in x xs ≡ true
    → ((ys : List ℕ) → g x ≡ some ys → is_in v ys ≡ true)
    → is_in v (concat yss) ≡ true
unfolding map_all
map_all-is_in g v x [] yss e h found = absurd (cc)
map_all-is_in g v x (u ∷ xs) yss e h found =
    let (ys, e1, rest) = >>=-eq-some (g u) _ e in
    let (tail, e2, e3) = >>=-eq-some (map_all g xs) _ rest in
    ap (λ z. is_in v (concat z)) (sym (eq_of_some e3))
    ∙ is_in-append v ys (concat tail)
    ∙ elim (Bool-cases (u == x)) [
      | inl t ↦
          let there : is_in v ys ≡ true = found ys (ap g (sym ((==_iff u x).0 t)) ∙ e1) in
          or_first (is_in v (concat tail)) there
      | inr f ↦
          let later : is_in v (concat tail) ≡ true =
            map_all-is_in g v x xs tail e2 (or_second f h) found in
          or_either (is_in v ys) later
    ]

module _ (to_lower : ℕ → ℕ) (ending : Option Name) (name : Name) (s : Store) where
  -- A registry in the subtree whose namespace is searched holds the variable under the name.
  abbrev pub Fits : ℕ → ℕ → Type 0
  Fits r v =
      (q : ℕ) × Within s r q
      × (matches to_lower ending (s.registry_at q).namespace ≡ some true)
      × (get_variable to_lower name s q ≡ some v)

  is_here :
      (b : Bool) (o : Option ℕ) (v : ℕ)
      → is_in v (to_list (if b then accepted none o else none)) ≡ true
      → (b ≡ true) × (o ≡ some v)
  is_here true none v h = absurd (cc)
  is_here true (some u) v h = (refl, ap some ((==_iff u v).0 (ground arith)))
  is_here false o v h = absurd (cc)

  found-Fits :
      (n r v : ℕ) (vs : List ℕ)
      → find_variables_where to_lower n ending name none s r ≡ some vs
      → is_in v vs ≡ true
      → Fits r v
  unfolding find_variables_where
  found-Fits zero r v vs e h = absurd (cc)
  found-Fits (suc n) r v vs e h =
      let (at, e0, e') = >>=-eq-some (matches to_lower ending (s.registry_at r).namespace) _ e in
      let (yss, e1, e2) =
        >>=-eq-some
          (map_all (find_variables_where to_lower n ending name none s) (s.registry_at r).children)
          _ e' in
      let mine = to_list (if at then accepted none (get_variable to_lower name s r) else none) in
      let split : (is_in v mine || is_in v (concat yss)) ≡ true =
        sym (is_in-append v mine (concat yss)) ∙ ap (is_in v) (eq_of_some e2) ∙ h in
      elim (Bool-cases (is_in v mine)) [
        | inl t ↦
            let (b, o) = is_here at (get_variable to_lower name s r) v t in
            (r, here, e0 ∙ ap some b, o)
        | inr f ↦
            let (c, child, (ys, e3, there)) =
              is_in-map_all (find_variables_where to_lower n ending name none s) v
                (s.registry_at r).children yss e1 (or_second f split) in
            let (q, within, m, g) = found-Fits n c v ys e3 there in (q, below child within, m, g)
      ]

  -- The two places in which a variable that fits may be, for a walk that finds it below.
  one_place :
      (n r q v : ℕ) (at : Bool) (yss : List (List ℕ))
      → Within s r q
      → matches to_lower ending (s.registry_at q).namespace ≡ some true
      → get_variable to_lower name s q ≡ some v
      → matches to_lower ending (s.registry_at r).namespace ≡ some at
      → map_all (find_variables_where to_lower n ending name none s) (s.registry_at r).children
        ≡ some yss
      → ((c : ℕ) (ys : List ℕ)
          → Within s c q
          → find_variables_where to_lower n ending name none s c ≡ some ys
          → is_in v ys ≡ true)
      → (is_in v (to_list (if at then accepted none (get_variable to_lower name s r) else none))
          || is_in v (concat yss))
        ≡ true
  one_place n r q v at yss here m g e0 e1 found =
      let yes : at ≡ true = eq_of_some (sym e0 ∙ m) in rw (yes, g, ==_refl v) refl
  one_place n r q v at yss (below {c = c} child w) m g e0 e1 found =
      or_either
        (is_in v (to_list (if at then accepted none (get_variable to_lower name s r) else none)))
        (map_all-is_in (find_variables_where to_lower n ending name none s) v c
          (s.registry_at r).children yss e1 child (λ ys e3. found c ys w e3))

  Fits-found :
      (n r q v : ℕ) (vs : List ℕ)
      → Within s r q
      → matches to_lower ending (s.registry_at q).namespace ≡ some true
      → get_variable to_lower name s q ≡ some v
      → find_variables_where to_lower n ending name none s r ≡ some vs
      → is_in v vs ≡ true
  unfolding find_variables_where
  Fits-found zero r q v vs w m g e = absurd (cc)
  Fits-found (suc n) r q v vs w m g e =
      let (at, e0, e') = >>=-eq-some (matches to_lower ending (s.registry_at r).namespace) _ e in
      let (yss, e1, e2) =
        >>=-eq-some
          (map_all (find_variables_where to_lower n ending name none s) (s.registry_at r).children)
          _ e' in
      let mine = to_list (if at then accepted none (get_variable to_lower name s r) else none) in
      ap (is_in v) (sym (eq_of_some e2))
      ∙ is_in-append v mine (concat yss)
      ∙ one_place n r q v at yss w m g e0 e1 (λ c ys w' e3. Fits-found n c q v ys w' m g e3)

  -- `findVariables` gives the variables that some registry in the subtree, among those whose namespace
  -- ends as wanted, holds under the name in lower case, and no other.
  pub find_variables-Fits :
      (n r v : ℕ) (vs : List ℕ)
      → find_variables to_lower n ending name s r ≡ some vs
      → (is_in v vs ≡ true) ↔ Fits r v
  unfolding find_variables
  find_variables-Fits n r v vs e =
      let (_, e0, e1) = >>=-eq-some (check_name_does_not_contain_separator name) _ e in
      (found-Fits n r v vs e1, λ (q, w, m, g). Fits-found n r q v vs w m g e1)
