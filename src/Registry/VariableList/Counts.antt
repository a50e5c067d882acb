-- ===== src/Registry/VariableList/Counts.antt =====
-- Lookups in the map of names, and how often a variable occurs in a list.
use ihmc_yovariables_cpp.Common.{
  ℕ, ◌+◌, ◌-◌, ◌==◌, if◌then◌else◌, false, List, [], ◌∷◌, ◌++◌, none, some, ◌≡◌, refl, ap, ◌∙◌,
  arith, Bool-cases, inl, inr,
}
use ihmc_yovariables_cpp.Registry.Names.{Name, eq_name}
use ihmc_yovariables_cpp.Registry.Namespace.Valid.{eq_name_refl, eq_name→eq}
use ihmc_yovariables_cpp.Registry.VariableList.{NameMap, lookup, put, is_in, erase_one}

abbrev pub count : ℕ → List ℕ → ℕ
count v [] = 0
count v (u ∷ us) = (if u == v then 1 else 0) + count v us

abbrev pub homonyms : Name → NameMap → List ℕ
homonyms k m = elim (lookup k m) [ none ↦ [] | some vs ↦ vs ]

pub lookup-put : (k : Name) (vs : List ℕ) (m : NameMap) → lookup k (put k vs m) ≡ some vs
unfolding lookup put
lookup-put k vs [] = ground (arith, eq_name_refl k)
lookup-put k vs ((l, us) ∷ m) = ground (arith, lookup-put k vs m)

pub lookup-put_other :
    (k j : Name) (vs : List ℕ) (m : NameMap)
    → eq_name k j ≡ false
    → lookup j (put k vs m) ≡ lookup j m
unfolding lookup put
lookup-put_other k j vs [] h = ground arith
lookup-put_other k j vs ((l, us) ∷ m) h = elim (Bool-cases (eq_name l k)) [
  | inl e ↦
      let other : eq_name l j ≡ false = ap (λ (n : Name). eq_name n j) (eq_name→eq l k e) ∙ h in
      ground arith
  | inr ne ↦ ground (arith, lookup-put_other k j vs m h)
]

pub homonyms-put : (k : Name) (vs : List ℕ) (m : NameMap) → homonyms k (put k vs m) ≡ vs
homonyms-put k vs m = rw (homonyms, lookup-put k vs m) refl

pub homonyms-put_other :
    (k j : Name) (vs : List ℕ) (m : NameMap)
    → eq_name k j ≡ false
    → homonyms j (put k vs m) ≡ homonyms j m
homonyms-put_other k j vs m h = rw (homonyms, lookup-put_other k j vs m h) refl

pub homonyms-none : (k : Name) (m : NameMap) → lookup k m ≡ none → homonyms k m ≡ []
homonyms-none k m h = rw (homonyms, h) refl

pub homonyms-some :
    (k : Name) (vs : List ℕ) (m : NameMap) → lookup k m ≡ some vs → homonyms k m ≡ vs
homonyms-some k vs m h = rw (homonyms, h) refl

pub count-append :
    (v u : ℕ) (us : List ℕ) → count v (us ++ u ∷ []) ≡ count v us + (if u == v then 1 else 0)
count-append v u [] = omega arith
count-append v u (x ∷ us) = omega (arith, count-append v u us)

pub count-is_in : (v : ℕ) (us : List ℕ) → is_in v us ≡ false → count v us ≡ 0
count-is_in v [] h = refl
count-is_in v (u ∷ us) h = ground (arith, count-is_in v us)

pub count-erase_one :
    (v u : ℕ) (us : List ℕ) → count u (erase_one v us) ≡ count u us - (if v == u then 1 else 0)
count-erase_one v u [] = ground arith
count-erase_one v u (x ∷ us) = ground (arith, count-erase_one v u us)
