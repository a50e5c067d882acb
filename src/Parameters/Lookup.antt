-- ===== src/Parameters/Lookup.antt =====
-- How reading the parameters one after the other compares with looking their values up.
use ihmc_yovariables_cpp.Common.{
  ℕ, if◌then◌else◌, Bool, true, false, List, [], ◌∷◌, Option, none, some, >>=-eq-some, eq_of_some,
  ◌≡◌, refl, sym, ap, ◌∙◌, arith, Bool-cases, Option-cases, inl, inr, ◌>>=◌,
}
use ihmc_yovariables_cpp.Common.Faults.{map_all}
use ihmc_yovariables_cpp.Registry.Names.{Name, eq_name}
use ihmc_yovariables_cpp.Registry.Namespace.{Namespace, is_member, all_unique}
use ihmc_yovariables_cpp.Registry.Namespace.Valid.{eq_name→eq}
use ihmc_yovariables_cpp.Registry.Objects.{find, erase}
use ihmc_yovariables_cpp.Registry.Objects.Update.{find-erase, find-erase_other}
use ihmc_yovariables_cpp.Parameters.{
  Backing, YoParameter, ParameterData, load_default, set_parameter_from_this, relative_name,
  Reading, read_parameters, with_parameter, with_default,
}
use ihmc_yovariables_cpp.Parameters.Reader.{
  apart_sym, read, read_one, Step, takes_value, takes_default, step_of, read_absent, read_present,
}

module _ {V D : Type 0} (b : Backing V D) (to_lower : ℕ → ℕ) (registry : Namespace) where
  abbrev relatives : List (YoParameter V) → Option (List Name)
  relatives ps = map_all (relative_name b to_lower registry) ps

  none_either : (c : Bool) → ◌≡◌ {A = Option (ParameterData D)} (if c then none else none) none
  none_either true = refl
  none_either false = refl

  -- What is left of the values when one more name has been taken out.
  left_after :
      (k name : Name) (names : List Name) (values : List (Name × ParameterData D))
      → (if is_member k names then none else find k (erase name values))
        ≡ (if is_member k (name ∷ names) then none else find k values)
  left_after k name names values = elim (Bool-cases (eq_name k name)) [
    | inl same ↦
        let gone : find k (erase name values) ≡ none =
          ap (λ x. find x (erase name values)) (eq_name→eq k name same) ∙ find-erase name values in
        rw (same, gone) (none_either (is_member k names))
    | inr other ↦ rw (other, find-erase_other name k values (apart_sym k name other)) refl
  ]

  left_absent :
      (k name : Name) (names : List Name) (values : List (Name × ParameterData D))
      → find name values ≡ none
      → (if is_member k names then none else find k values)
        ≡ (if is_member k (name ∷ names) then none else find k values)
  left_absent k name names values absent = elim (Bool-cases (eq_name k name)) [
    | inl same ↦
        let gone : find k values ≡ none =
          ap (λ x. find x values) (eq_name→eq k name same) ∙ absent in
        rw (same, gone) (none_either (is_member k names))
    | inr other ↦ rw other refl
  ]

  names_cons :
      (p : YoParameter V) (ps : List (YoParameter V)) (names : List Name)
      → relatives (p ∷ ps) ≡ some names
      → (name : Name) × (ns : List Name) × (relative_name b to_lower registry p ≡ some name)
        × (relatives ps ≡ some ns)
        × (names ≡ name ∷ ns)
  unfolding map_all
  names_cons p ps names f =
      let (name, f0, f1) = >>=-eq-some (relative_name b to_lower registry p) _ f in
      let (ns, f2, f3) = >>=-eq-some (relatives ps) _ f1 in (name, ns, f0, f2, sym (eq_of_some f3))

  -- The values that are left unmatched are those whose names belong to no parameter of the subtree,
  -- with what they were.
  pub read_parameters-find :
      (ps : List (YoParameter V)) (values : List (Name × ParameterData D)) (r : Reading V D)
      (names : List Name)
      → read_parameters b to_lower registry ps values ≡ some r
      → map_all (relative_name b to_lower registry) ps ≡ some names
      → (k : Name) → find k r.left ≡ (if is_member k names then none else find k values)
  unfolding read_parameters map_all
  read_parameters-find [] values r names e f k =
      ap (λ (x : Reading V D). find k x.left) (sym (eq_of_some e))
      ∙ ap (λ ns. if is_member k ns then none else find k values) (eq_of_some f)
  read_parameters-find (p ∷ ps) values r names e f k =
      let (name, ns, f0, f1, f2) = names_cons p ps names f in
      left_by p ps values name ns f0 (step_of b to_lower registry p ps values r e)
        (λ vs t e'. read_parameters-find ps vs t ns e' f1 k)
      ∙ ap (λ z. if is_member k z then none else find k values) (sym f2)
    where
      left_by :
          (p : YoParameter V) (ps : List (YoParameter V)) (values : List (Name × ParameterData D))
          {r : Reading V D} (name : Name) (ns : List Name)
          → relative_name b to_lower registry p ≡ some name
          → Step b to_lower registry p ps values r
          → ((vs : List (Name × ParameterData D)) (t : Reading V D)
              → read b to_lower registry ps vs ≡ some t
              → find k t.left ≡ (if is_member k ns then none else find k vs))
          → find k r.left ≡ (if is_member k (name ∷ ns) then none else find k values)
      left_by p ps values name ns f0 (takes_value name' value q t e0 e1 e2 e3 at) tail =
          ap (λ (x : Reading V D). find k x.left) at
          ∙ tail (erase name' values) t e3
          ∙ left_after k name' ns values
          ∙ ap (λ z. if is_member k (z ∷ ns) then none else find k values)
              (eq_of_some (sym e0 ∙ f0))
      left_by p ps values name ns f0 (takes_default name' t e0 e1 e2 at) tail =
          ap (λ (x : Reading V D). find k x.left) at
          ∙ tail values t e2
          ∙ left_absent k name' ns values e1
          ∙ ap (λ z. if is_member k (z ∷ ns) then none else find k values)
              (eq_of_some (sym e0 ∙ f0))

  read_one_lem :
      (values : List (Name × ParameterData D)) (p : YoParameter V) (name : Name)
      → relative_name b to_lower registry p ≡ some name
      → read_one b to_lower registry values p
        ≡ (elim (find name values) as (λ _. Option (YoParameter V)) [
          | some value ↦ set_parameter_from_this b value p
          | none ↦ some (load_default b p)
        ])
  read_one_lem values p name e = rw e refl

  -- A value that has been taken out does not matter to the parameters with other names.
  other_names :
      (name : Name) (values : List (Name × ParameterData D)) (ps : List (YoParameter V))
      (ns : List Name)
      → relatives ps ≡ some ns
      → is_member name ns ≡ false
      → map_all (read_one b to_lower registry (erase name values)) ps
        ≡ map_all (read_one b to_lower registry values) ps
  unfolding map_all
  other_names name values [] ns f h = refl
  other_names name values (p ∷ ps) ns f h =
      let (n, ms, f0, f1, f2) = names_cons p ps ns f in
      let both : is_member name (n ∷ ms) ≡ false = ap (is_member name) (sym f2) ∙ h in
      let apart : eq_name name n ≡ false = ground (arith, both) in
      let rest : is_member name ms ≡ false = ground (arith, both) in
      let here : read_one b to_lower registry (erase name values) p
          ≡ read_one b to_lower registry values p =
        read_one_lem (erase name values) p n f0
        ∙ rw (find-erase_other name n values apart) (sym (read_one_lem values p n f0)) in
      rw (here, other_names name values ps ms f1 rest) refl

  abbrev parameters_of : Option (Reading V D) → Option (List (YoParameter V))
  parameters_of x = x >>= λ r. some r.parameters

  -- What one more parameter in front adds, if the rest is read.
  one_more :
      (x : Option (Reading V D)) (q : YoParameter V) (g : Reading V D → Reading V D)
      → ((r : Reading V D) → (g r).parameters ≡ q ∷ r.parameters)
      → parameters_of (x >>= λ r. some (g r)) ≡ (parameters_of x >>= λ qs. some (q ∷ qs))
  one_more none q g front = refl
  one_more (some r) q g front = ap some (front r)

  read_value :
      (x : Option (YoParameter V)) (rest : Option (Reading V D))
      (ys : Option (List (YoParameter V)))
      → parameters_of rest ≡ ys
      → parameters_of (x >>= λ q. rest >>= λ r. some (with_parameter q r))
        ≡ (x >>= λ q. ys >>= λ qs. some (q ∷ qs))
  read_value none rest ys e = refl
  read_value (some q) rest ys e = one_more rest q (with_parameter q) (λ r. refl) ∙ rw e refl

  -- If every parameter has a name below the registry and these names differ, reading the parameters
  -- one after the other, with each value taken out of the map when it is used, gives what looking each
  -- of them up in the whole map gives, and throws exactly where that does.
  pub read_parameters-read_one :
      (ps : List (YoParameter V)) (values : List (Name × ParameterData D)) (names : List Name)
      → map_all (relative_name b to_lower registry) ps ≡ some names
      → all_unique names ≡ true
      → (read_parameters b to_lower registry ps values >>= λ r. some r.parameters)
        ≡ map_all (read_one b to_lower registry values) ps
  unfolding read_parameters map_all
  read_parameters-read_one [] values names f u = refl
  read_parameters-read_one (p ∷ ps) values names f u =
      let (name, ns, f0, f1, f2) = names_cons p ps names f in
      let both : all_unique (name ∷ ns) ≡ true = ap all_unique (sym f2) ∙ u in
      let alone : is_member name ns ≡ false = ground (arith, both) in
      let rest : all_unique ns ≡ true = ground (arith, both) in
      let own = read_one_lem values p name f0 in
      elim (Option-cases (find name values)) [
        | inl absent ↦
            let found : read_one b to_lower registry values p ≡ some (load_default b p) =
              own ∙ rw absent refl in
            ap parameters_of (read_absent b to_lower registry p ps values name f0 absent)
            ∙ one_more (read b to_lower registry ps values) (load_default b p)
                (λ r. with_default name (with_parameter (load_default b p) r)) (λ r. refl)
            ∙ ap (λ x. x >>= λ qs. some (load_default b p ∷ qs))
                (read_parameters-read_one ps values ns f1 rest)
            ∙ sym (
                ap
                  (λ x. x >>= λ q.
                    map_all (read_one b to_lower registry values) ps >>= λ qs. some (q ∷ qs))
                  found)
        | inr (value, at) ↦
            let found : read_one b to_lower registry values p ≡ set_parameter_from_this b value p =
              own ∙ rw at refl in
            let tail =
              read_parameters-read_one ps (erase name values) ns f1 rest
              ∙ other_names name values ps ns f1 alone in
            ap parameters_of (read_present b to_lower registry p ps values name value f0 at)
            ∙ read_value (set_parameter_from_this b value p)
                (read b to_lower registry ps (erase name values)) _ tail
            ∙ sym (
                ap
                  (λ x. x >>= λ q.
                    map_all (read_one b to_lower registry values) ps >>= λ qs. some (q ∷ qs))
                  found)
      ]
