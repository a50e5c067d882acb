-- ===== src/Parameters/Reader.antt =====
-- What reading the parameters of a registry leaves.
use ihmc_yovariables_cpp.Common.{
  ℕ, true, false, List, [], ◌∷◌, map, Option, none, some, ◌>>=◌, All, >>=-eq-some, eq_of_some, ◌≡◌,
  refl, sym, ap, ◌∙◌, subst, Bool-cases, Option-cases, inl, inr,
}
use ihmc_yovariables_cpp.Registry.Names.{Name, eq_name}
use ihmc_yovariables_cpp.Registry.Namespace.{Namespace}
use ihmc_yovariables_cpp.Registry.Namespace.Valid.{eq_name_refl, eq_name→eq}
use ihmc_yovariables_cpp.Registry.Objects.{find, erase}
use ihmc_yovariables_cpp.Parameters.{
  Backing, YoParameter, ParameterData, loaded, is_loaded, load, load_default, set_to_string,
  set_to_default, set_load_status, set_parameter_bounds, get_value, check_loaded,
  set_parameter_from_this, relative_name, Reading, with_parameter, with_default, read_parameters,
}

pub apart_sym : (k j : Name) → eq_name k j ≡ false → eq_name j k ≡ false
apart_sym k j h = elim (Bool-cases (eq_name j k)) [
  | inr e ↦ e
  | inl e ↦
      let same : eq_name k j ≡ true = ap (λ x. eq_name k x) (eq_name→eq j k e) ∙ eq_name_refl k in
      absurd (cc)
]

-- What a parameter keeps when it is read: its name and its namespace.
abbrev pub identity : {V : Type 0} → YoParameter V → Name × Option Namespace
identity p = (p.name, p.namespace)

module _ {V D : Type 0} (b : Backing V D) where
  -- Loading marks a parameter as loaded before its value is parsed: if parsing throws, the parameter
  -- keeps its value and counts as loaded, so that its value can be read from then on.
  pub load-set_to_string :
      (s : Name) (p : YoParameter V)
      → b.parse_value s p.variable ≡ none
      → ((load b s p).0 ≡ false) × (get_value b (load b s p).1 ≡ some p.variable)
  unfolding load set_to_string set_load_status get_value check_loaded is_loaded
  load-set_to_string s p e =
      let threw : load b s p ≡ (false, set_load_status b loaded p) =
        rw (load, set_to_string, e) refl in
      (ap (λ x. x.0) threw, ap (λ x. get_value b x.1) threw)

  parsed :
      (d : ParameterData D) (p : YoParameter V) (v : V)
      → b.parse_value d.value p.variable ≡ some v
      → set_parameter_from_this b d p
        ≡ some (record p { variable = b.set_variable_bounds d.min d.max v; load_status = loaded })
  unfolding set_parameter_from_this load set_to_string set_load_status set_parameter_bounds
  parsed d p v e = rw (load, set_to_string, e) refl

  not_parsed :
      (d : ParameterData D) (p : YoParameter V)
      → b.parse_value d.value p.variable ≡ none
      → set_parameter_from_this b d p ≡ none
  unfolding set_parameter_from_this load set_to_string set_load_status
  not_parsed d p e = rw (load, set_to_string, e) refl

  set_parameter_loads :
      (d : ParameterData D) (p q : YoParameter V)
      → set_parameter_from_this b d p ≡ some q
      → (is_loaded b q ≡ true) × (identity q ≡ identity p)
  unfolding is_loaded
  set_parameter_loads d p q e = elim (Option-cases (b.parse_value d.value p.variable)) [
    | inl bad ↦ let thrown = not_parsed d p bad in absurd (cc)
    | inr (v, good) ↦
        let got = sym (eq_of_some (sym (parsed d p v good) ∙ e)) in
        (ap (is_loaded b) got, ap identity got)
  ]

  module _ (to_lower : ℕ → ℕ) (registry : Namespace) where
    -- What reading does for one parameter.
    abbrev pub read_one : List (Name × ParameterData D) → YoParameter V → Option (YoParameter V)
    read_one values p = relative_name b to_lower registry p >>= λ name. elim (find name values) [
      | some value ↦ set_parameter_from_this b value p
      | none ↦ some (load_default b p)
    ]

    abbrev pub read : List (YoParameter V) → List (Name × ParameterData D) → Option (Reading V D)
    read = read_parameters b to_lower registry

    pub read_absent :
        (p : YoParameter V) (ps : List (YoParameter V)) (values : List (Name × ParameterData D))
        (name : Name)
        → relative_name b to_lower registry p ≡ some name
        → find name values ≡ none
        → read (p ∷ ps) values
          ≡ (read ps values >>= λ r. some (with_default name (with_parameter (load_default b p) r)))
    unfolding read_parameters
    read_absent p ps values name e absent = rw (e, ◌>>=◌, absent) refl

    pub read_present :
        (p : YoParameter V) (ps : List (YoParameter V)) (values : List (Name × ParameterData D))
        (name : Name) (value : ParameterData D)
        → relative_name b to_lower registry p ≡ some name
        → find name values ≡ some value
        → read (p ∷ ps) values ≡ (
            set_parameter_from_this b value p >>= λ q.
            read ps (erase name values) >>= λ r. some (with_parameter q r))
    unfolding read_parameters
    read_present p ps values name value e present = rw (e, ◌>>=◌, present) refl

    -- One step of the loop, as a relation.
    pub data Step (p : YoParameter V) (ps : List (YoParameter V))
        (values : List (Name × ParameterData D)) (r : Reading V D) : Type 0 where
      takes_value :
          (name : Name) (value : ParameterData D) (q : YoParameter V) (t : Reading V D)
          → relative_name b to_lower registry p ≡ some name
          → find name values ≡ some value
          → set_parameter_from_this b value p ≡ some q
          → read ps (erase name values) ≡ some t
          → r ≡ with_parameter q t
          → Step p ps values r
      takes_default :
          (name : Name) (t : Reading V D)
          → relative_name b to_lower registry p ≡ some name
          → find name values ≡ none
          → read ps values ≡ some t
          → r ≡ with_default name (with_parameter (load_default b p) t)
          → Step p ps values r

    pub step_of :
        (p : YoParameter V) (ps : List (YoParameter V)) (values : List (Name × ParameterData D))
        (r : Reading V D)
        → read (p ∷ ps) values ≡ some r
        → Step p ps values r
    unfolding read_parameters
    step_of p ps values r e =
        let (name, e0, rest) = >>=-eq-some (relative_name b to_lower registry p) _ e in
        elim (Option-cases (find name values)) [
          | inl absent ↦
              let (t, e1, e2) =
                >>=-eq-some (read ps values) _ (sym (read_absent p ps values name e0 absent) ∙ e) in
              takes_default name t e0 absent e1 (sym (eq_of_some e2))
          | inr (value, present) ↦
              let (q, e1, e2) =
                >>=-eq-some (set_parameter_from_this b value p) _
                  (sym (read_present p ps values name value e0 present) ∙ e) in
              let (t, e3, e4) = >>=-eq-some (read ps (erase name values)) _ e2 in
              takes_value name value q t e0 present e1 e3 (sym (eq_of_some e4))
        ]

    default_loads :
        (p : YoParameter V)
        → (is_loaded b (load_default b p) ≡ true) × (identity (load_default b p) ≡ identity p)
    unfolding is_loaded load_default set_to_default set_load_status
    default_loads p = (refl, refl)

    -- The parameters that are read are those of the subtree, each in its place, and all are loaded.
    abbrev AreLoaded : List (YoParameter V) → Reading V D → Type 0
    AreLoaded ps r =
        (map identity r.parameters ≡ map identity ps) × All (λ p. is_loaded b p ≡ true) r.parameters

    one_loaded :
        (p q : YoParameter V) (ps : List (YoParameter V)) (r t : Reading V D)
        → r.parameters ≡ q ∷ t.parameters
        → is_loaded b q ≡ true
        → identity q ≡ identity p
        → AreLoaded ps t
        → AreLoaded (p ∷ ps) r
    one_loaded p q ps r t e loads same (tail_same, tail_loads) = (
      ap (map identity) e
          ∙ ap (λ x. x ∷ map identity t.parameters) same
          ∙ ap (λ xs. identity p ∷ xs) tail_same,
      subst (All (λ p. is_loaded b p ≡ true)) (sym e) (loads, tail_loads),
    )

    -- If the reading of the parameters of a registry ends without an exception, it has read every
    -- parameter of the subtree, in order, and every one of them counts as loaded.
    pub read_parameters-is_loaded :
        (ps : List (YoParameter V)) (values : List (Name × ParameterData D)) (r : Reading V D)
        → read_parameters b to_lower registry ps values ≡ some r
        → (map identity r.parameters ≡ map identity ps)
          × All (λ p. is_loaded b p ≡ true) r.parameters
    unfolding read_parameters
    read_parameters-is_loaded [] values r e = subst (AreLoaded []) (eq_of_some e) (refl, tt)
    read_parameters-is_loaded (p ∷ ps) values r e =
        loaded_by p ps values r (step_of p ps values r e)
          (λ vs t e'. read_parameters-is_loaded ps vs t e')
      where
        loaded_by :
            (p : YoParameter V) (ps : List (YoParameter V)) (values : List (Name × ParameterData D))
            (r : Reading V D)
            → Step p ps values r
            → ((vs : List (Name × ParameterData D)) (t : Reading V D)
                → read ps vs ≡ some t
                → AreLoaded ps t)
            → AreLoaded (p ∷ ps) r
        loaded_by p ps values r (takes_value name value q t e0 e1 e2 e3 at) tail =
            let (loads, same) = set_parameter_loads value p q e2 in
            one_loaded p q ps r t (ap (λ (x : Reading V D). x.parameters) at) loads same
              (tail (erase name values) t e3)
        loaded_by p ps values r (takes_default name t e0 e1 e2 at) tail =
            let (loads, same) = default_loads p in
            one_loaded p (load_default b p) ps r t (ap (λ (x : Reading V D). x.parameters) at) loads
              same (tail values t e2)
