-- ===== src/Registry/Objects/Update.antt =====
-- Writes to the store, and the maps from names to addresses.
use ihmc_yovariables_cpp.Common.{
  ℕ, ◌==◌, false, List, [], ◌∷◌, none, some, ◌≡◌, ◌≢◌, refl, ap, ◌∙◌, fun_ext, arith, ==_refl,
  ==_ne, Bool-cases, inl, inr, sym, ℕ_discrete,
}
use ihmc_yovariables_cpp.Registry.Names.{Name, eq_name}
use ihmc_yovariables_cpp.Registry.Namespace.Valid.{eq_name_refl, eq_name→eq}
use ihmc_yovariables_cpp.Registry.Objects.{
  AddressMap, find, insert, erase, Registry, Variable, Store, update, change_registry,
  change_variable,
}

module _ {ℓ} {A : Type ℓ} where
  pub update_same : (f : ℕ → A) (k : ℕ) (a : A) → update f k a k ≡ a
  update_same f k a = rw (==_refl k) refl

  pub update_other : (f : ℕ → A) (k j : ℕ) (a : A) → k ≢ j → update f k a j ≡ f j
  update_other f k j a h = rw (==_ne k j h) refl

  pub update-update :
      (f : ℕ → A) (k : ℕ) (a : A) (g : A → A)
      → update (update f k a) k (g (update f k a k)) ≡ update f k (g a)
  update-update f k a g =
      fun_ext λ j. elim (Bool-cases (k == j)) [
        | inl e ↦ rw (update_same f k a, e) refl
        | inr e ↦ rw e refl
      ]

pub change_registry_twice :
    (r : ℕ) (f g : Registry → Registry) (s : Store)
    → change_registry r f (change_registry r g s) ≡ change_registry r (λ x. f (g x)) s
change_registry_twice r f g s =
    ap (λ h. record s { registry_at = h }) (update-update s.registry_at r (g (s.registry_at r)) f)

pub change_variable_twice :
    (v : ℕ) (f g : Variable → Variable) (s : Store)
    → change_variable v f (change_variable v g s) ≡ change_variable v (λ x. f (g x)) s
change_variable_twice v f g s =
    ap (λ h. record s { variable_at = h }) (update-update s.variable_at v (g (s.variable_at v)) f)

-- What a write to one object leaves alone.
update_keeps {ℓ κ} :
    {A : Type ℓ} {B : Type κ} (part : A → B) (f : ℕ → A) (k : ℕ) (g : A → A)
    → ((a : A) → part (g a) ≡ part a)
    → (j : ℕ) → part (update f k (g (f k)) j) ≡ part (f j)
update_keeps part f k g h j = elim (ℕ_discrete k j) [
  | yes e ↦
      ap (λ i. part (update f k (g (f k)) i)) (sym e)
      ∙ ap part (update_same f k (g (f k)))
      ∙ h (f k)
      ∙ ap (λ i. part (f i)) e
  | no ne ↦ ap part (update_other f k j (g (f k)) ne)
]

pub change_registry_keeps {ℓ} :
    {B : Type ℓ} (part : Registry → B) (r : ℕ) (f : Registry → Registry) (s : Store)
    → ((g : Registry) → part (f g) ≡ part g)
    → (q : ℕ) → part ((change_registry r f s).registry_at q) ≡ part (s.registry_at q)
change_registry_keeps part r f s h = update_keeps part s.registry_at r f h

pub change_variable_keeps {ℓ} :
    {B : Type ℓ} (part : Variable → B) (v : ℕ) (f : Variable → Variable) (s : Store)
    → ((u : Variable) → part (f u) ≡ part u)
    → (w : ℕ) → part ((change_variable v f s).variable_at w) ≡ part (s.variable_at w)
change_variable_keeps part v f s h = update_keeps part s.variable_at v f h

pub find-insert : (k : Name) (v : ℕ) (m : AddressMap) → find k (insert k v m) ≡ some v
unfolding find insert
find-insert k v [] = ground (arith, eq_name_refl k)
find-insert k v ((l, u) ∷ m) = ground (arith, find-insert k v m)

pub find-insert_other :
    (k j : Name) (v : ℕ) (m : AddressMap) → eq_name k j ≡ false → find j (insert k v m) ≡ find j m
unfolding find insert
find-insert_other k j v [] h = ground arith
find-insert_other k j v ((l, u) ∷ m) h = elim (Bool-cases (eq_name l k)) [
  | inl e ↦
      let other : eq_name l j ≡ false = ap (λ (n : Name). eq_name n j) (eq_name→eq l k e) ∙ h in
      ground arith
  | inr ne ↦ ground (arith, find-insert_other k j v m h)
]

pub find-erase : {A : Type 0} (k : Name) (m : List (Name × A)) → find k (erase k m) ≡ none
unfolding find erase
find-erase k [] = refl
find-erase k ((l, u) ∷ m) = ground (arith, find-erase k m)

pub find-erase_other :
    {A : Type 0} (k j : Name) (m : List (Name × A))
    → eq_name k j ≡ false
    → find j (erase k m) ≡ find j m
unfolding find erase
find-erase_other k j [] h = refl
find-erase_other k j ((l, u) ∷ m) h = elim (Bool-cases (eq_name l k)) [
  | inl e ↦
      let other : eq_name l j ≡ false = ap (λ (n : Name). eq_name n j) (eq_name→eq l k e) ∙ h in
      ground (arith, find-erase_other k j m h)
  | inr ne ↦ ground (arith, find-erase_other k j m h)
]
