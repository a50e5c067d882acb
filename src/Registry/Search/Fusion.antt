-- ===== src/Registry/Search/Fusion.antt =====
-- Walks over lists of children, and how they fit together.
use ihmc_yovariables_cpp.Common.{
  Bool, List, [], ◌∷◌, ◌++◌, length, length-append, map, Option, some, ◌>>=◌, ◌≡◌, refl, ap, sym,
  ◌∙◌, arith, Bool-cases, Option-cases, inl, inr, >>=-eq-some, eq_of_some,
}
use ihmc_yovariables_cpp.Common.Faults.{map_all}
use ihmc_yovariables_cpp.Registry.Search.{concat, sum, keep, first_of, first_found}

-- A walk that changes each result is the other walk with its results changed.
pub map_all-map :
    {A B C : Type 0} (f : A → Option C) (m : A → Option B) (h : B → C)
    → ((a : A) → f a ≡ (m a >>= λ b. some (h b)))
    → (xs : List A) → map_all f xs ≡ (map_all m xs >>= λ ys. some (map h ys))
unfolding map_all
map_all-map f m h same [] = refl
map_all-map f m h same (x ∷ xs) = elim (Option-cases (m x)) [
  | inl e ↦ rw (same x, e) refl
  | inr (b, e) ↦ elim (Option-cases (map_all m xs)) [
    | inl e' ↦ rw (same x, e, map_all-map f m h same xs, e') refl
    | inr (ys, e') ↦ rw (same x, e, map_all-map f m h same xs, e') refl
  ]
]

pub sum-map-length : {A : Type 0} (xss : List (List A)) → sum (map length xss) ≡ length (concat xss)
sum-map-length [] = refl
sum-map-length (xs ∷ xss) = omega (arith, length-append xs (concat xss), sum-map-length xss)

pub keep-append :
    {A : Type 0} (f : A → Bool) (xs ys : List A) → keep f (xs ++ ys) ≡ keep f xs ++ keep f ys
keep-append f [] ys = refl
keep-append f (x ∷ xs) ys = elim (Bool-cases (f x)) [
  | inl e ↦ rw (e, keep-append f xs ys) refl
  | inr e ↦ rw (e, keep-append f xs ys) refl
]

pub concat-map-keep :
    {A : Type 0} (f : A → Bool) (xss : List (List A))
    → concat (map (keep f) xss) ≡ keep f (concat xss)
concat-map-keep f [] = refl
concat-map-keep f (xs ∷ xss) = rw (concat-map-keep f xss) (sym (keep-append f xs (concat xss)))

first_step :
    {A B : Type 0} (f : A → Option (Option B)) (x : A) (xs : List A) (bs : List B) (rest : List B)
    → f x ≡ some (first_of bs)
    → first_found f xs ≡ some (first_of rest)
    → first_found f (x ∷ xs) ≡ some (first_of (bs ++ rest))
unfolding first_found
first_step f x xs [] rest p q = rw p q
first_step f x xs (b ∷ bs) rest p q = rw p refl

-- The first result of the children is the first of all their results.
pub first_found-map_all :
    {A B : Type 0} (f : A → Option (Option B)) (g : A → Option (List B))
    → ((a : A) (bs : List B) → g a ≡ some bs → f a ≡ some (first_of bs))
    → (xs : List A) (bss : List (List B)) → map_all g xs ≡ some bss
    → first_found f xs ≡ some (first_of (concat bss))
unfolding map_all first_found
first_found-map_all f g same [] [] e = refl
first_found-map_all f g same [] (bs ∷ bss) e = cc
first_found-map_all f g same (x ∷ xs) bss e =
    let (bs, e1, rest) = >>=-eq-some (g x) _ e in
    let (tail, e2, e3) = >>=-eq-some (map_all g xs) _ rest in
    let found = first_found-map_all f g same xs tail e2 in
    first_step f x xs bs (concat tail) (same x bs e1) found
    ∙ ap (λ z. some (first_of (concat z))) (eq_of_some e3)
