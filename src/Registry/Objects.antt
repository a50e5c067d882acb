-- ===== src/Registry/Objects.antt =====
-- The objects of src/registry/yo_registry.cpp and src/variable/yo_variable.cpp: registries and
-- variables that point at each other. A pointer is an address in a store, which holds an object at
-- each address; a null pointer is `none`.
pub mod Update
pub mod Loops
use ihmc_yovariables_cpp.Common.{
  ℕ, ◌==◌, ltb, if◌then◌else◌, Bool, true, false, not, List, [], ◌∷◌, ◌++◌, Option, none, some, ◌⊎◌,
  inl, inr,
}
use ihmc_yovariables_cpp.Registry.Names.{Name, eq_name, is_empty, check_for_illegal_characters}
use ihmc_yovariables_cpp.Registry.Namespace.{Namespace, of_name}

-- include/ihmc/yovariables/registry/yo_registry_restriction_level.h
pub data Level : Type 0 where
  fully_mutable restricted immutable : Level

abbrev pub value_of : Level → ℕ
value_of fully_mutable = 0
value_of restricted = 1
value_of immutable = 2

unfoldable pub is_addition_allowed : Level → Bool
is_addition_allowed level = not (value_of level == value_of immutable)

unfoldable pub is_removal_allowed : Level → Bool
is_removal_allowed level = value_of level == value_of fully_mutable

pub data ChangeType : Type 0 where
  registry_added registry_removed variable_added variable_removed cleared : ChangeType

pub record RegistryChange : Type 0 where
  pub source : ℕ
  pub target_parent_registry : Option ℕ
  pub target_registry : Option ℕ
  pub target_variable : Option ℕ
  pub change_type : ChangeType

-- `nameToVariableMap_` and `nameToChildMap_`
abbrev pub AddressMap : Type 0
AddressMap = List (Name × ℕ)

-- `find` of a key, in a map to values of any type.
unfoldable pub find : {A : Type 0} → Name → List (Name × A) → Option A
find k [] = none
find k ((l, v) ∷ m) = let rest = find k m in if eq_name l k then some v else rest

-- `operator[]`
unfoldable pub insert : Name → ℕ → AddressMap → AddressMap
insert k v [] = (k, v) ∷ []
insert k v ((l, u) ∷ m) =
    let rest = insert k v m in if eq_name l k then (l, v) ∷ m else (l, u) ∷ rest

-- `erase` of a key
unfoldable pub erase : {A : Type 0} → Name → List (Name × A) → List (Name × A)
erase k [] = []
erase k ((l, u) ∷ m) = let rest = erase k m in if eq_name l k then rest else (l, u) ∷ rest

pub record Registry : Type 0 where
  pub name : Name
  pub namespace : Namespace
  pub variables : List ℕ
  pub name_to_variable_map : AddressMap
  pub parameters : List ℕ
  pub parent : Option ℕ
  pub children : List ℕ
  pub name_to_child_map : AddressMap
  pub changed_listeners : List ℕ
  pub restriction_level : Level

pub record Variable : Type 0 where
  pub name : Name
  pub registry : Option ℕ
  pub full_name : Option Namespace
  pub changed_listeners : List ℕ
  pub parameter : Option ℕ

-- The objects, and the calls made to listeners of registries so far, the latest last.
pub record Store : Type 0 where
  pub registry_at : ℕ → Registry
  pub variable_at : ℕ → Variable
  pub told : List (ℕ × RegistryChange)

pub data Error : Type 0 where
  illegal_operation name_collision illegal_name invalid_argument undefined out_of_depth : Error

-- How a method ends: what is written stays written where it throws.
pub data Outcome (A : Type 0) : Type 0 where
  ok : A → Store → Outcome A
  err : Error → Store → Outcome A

abbrev pub store_of : {A : Type 0} → Outcome A → Store
store_of (ok a s) = s
store_of (err e s) = s

abbrev pub Action : Type 0 → Type 0
Action A = Store → Outcome A

module _ {A : Type 0} where
  abbrev pub pure : A → Action A
  pure a s = ok a s

  abbrev pub raise : Error → Action A
  raise e s = err e s

  abbrev pub gets : (Store → A) → Action A
  gets f s = ok (f s) s

  abbrev pub or_raise : Option A → Error → Action A
  or_raise none e = raise e
  or_raise (some a) e = pure a

abbrev pub Command : Type 0
Command = Action (Unit {0})

infixl 5 ◌>>=◌ ◌>>◌
abbrev pub ◌>>=◌ : {A B : Type 0} → Action A → (A → Action B) → Action B
◌>>=◌ m f s = elim (m s) [ ok a s' ↦ f a s' | err e s' ↦ err e s' ]

abbrev pub ◌>>◌ : {B : Type 0} → Command → Action B → Action B
m >> k = m >>= λ _. k

abbrev pub raise_if : Bool → Error → Command
raise_if c e s = if c then err e s else ok tt s

abbrev pub modify : (Store → Store) → Command
modify f s = ok tt (f s)

unfoldable pub for_each : {A : Type 0} → (A → Command) → List A → Command
for_each f [] = pure tt
for_each f (x ∷ xs) = do f x; for_each f xs

abbrev pub update {ℓ} : {A : Type ℓ} → (ℕ → A) → ℕ → A → ℕ → A
update f k v j = if k == j then v else f j

abbrev pub change_registry : ℕ → (Registry → Registry) → Store → Store
change_registry r f s = record s { registry_at = update s.registry_at r (f (s.registry_at r)) }

abbrev pub change_variable : ℕ → (Variable → Variable) → Store → Store
change_variable v f s = record s { variable_at = update s.variable_at v (f (s.variable_at v)) }

abbrev pub is_null : {A : Type 0} → Option A → Bool
is_null none = true
is_null (some a) = false

abbrev pub is_at : Option ℕ → ℕ → Bool
is_at none a = false
is_at (some b) a = b == a

-- The constructor of a registry, or what it throws.
unfoldable pub construct_registry : Name → Error ⊎ Registry
construct_registry s = if is_empty s then inl invalid_argument else elim (of_name s) [
  | none ↦ inl invalid_argument
  | some ns ↦ elim (check_for_illegal_characters s) [
    | none ↦ inl illegal_name
    | some _ ↦ inr (record {
      name = s;
      namespace = ns;
      variables = [];
      name_to_variable_map = [];
      parameters = [];
      parent = none;
      children = [];
      name_to_child_map = [];
      changed_listeners = [];
      restriction_level = fully_mutable;
    })
  ]
]
