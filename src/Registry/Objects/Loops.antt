-- ===== src/Registry/Objects/Loops.antt =====
-- Relations between the stores before and after a method.
use ihmc_yovariables_cpp.Common.{List, [], ◌∷◌, ◌≡◌, refl}
use ihmc_yovariables_cpp.Registry.Objects.{
  Store, Outcome, Action, Command, ok, err, store_of, ◌>>=◌, ◌>>◌, for_each,
}

ok_outcome :
    {B : Type 0} (o : Outcome (Unit {0})) (k : Store → Outcome B) {b : B} {t : Store}
    → (elim o as (λ _. Outcome B) [ ok a u ↦ k u | err e u ↦ err e u ]) ≡ ok b t
    → (u : Store) × (o ≡ ok tt u) × (k u ≡ ok b t)
ok_outcome (ok a u) k h = (u, refl, h)
ok_outcome (err e u) k h = absurd (cc)

-- Two steps that succeed.
pub >>-ok :
    {B : Type 0} (m : Command) (k : Action B) (s : Store) {b : B} {t : Store}
    → (m >> k) s ≡ ok b t
    → (u : Store) × (m s ≡ ok tt u) × (k u ≡ ok b t)
>>-ok m k s h = ok_outcome (m s) k h

module _ (R : Store → Store → Type 0) (same : (s : Store) → R s s)
    (chain : (s t u : Store) → R s t → R t u → R s u) where
  bind_outcome :
      {A B : Type 0} (s : Store) (o : Outcome A) (k : A → Action B)
      → R s (store_of o)
      → ((a : A) (t : Store) → R t (store_of (k a t)))
      → R s (store_of (elim o as (λ _. Outcome B) [ ok a t ↦ k a t | err e t ↦ err e t ]))
  bind_outcome s (ok a t) k h step = chain s t _ h (step a t)
  bind_outcome s (err e t) k h step = h

  pub relates_bind :
      {A B : Type 0} (m : Action A) (k : A → Action B)
      → ((t : Store) → R t (store_of (m t)))
      → ((a : A) (t : Store) → R t (store_of (k a t)))
      → (s : Store) → R s (store_of ((m >>= k) s))
  relates_bind m k h step s = bind_outcome s (m s) k (h s) step

  pub relates_for_each :
      {A : Type 0} (f : A → Command)
      → ((a : A) (t : Store) → R t (store_of (f a t)))
      → (xs : List A) (s : Store) → R s (store_of (for_each f xs s))
  unfolding for_each
  relates_for_each f h [] s = same s
  relates_for_each f h (x ∷ xs) s =
      relates_bind (f x) (λ _. for_each f xs) (h x) (λ _. relates_for_each f h xs) s
