-- ===== src/Buffer/KeyPoints/Search.antt =====
-- `getNextKeyPoint` and `getPreviousKeyPoint`: which key point they return.
use mathlib.Core.List.{reverse, reverse-cons, reverse-reverse}
use ihmc_yovariables_cpp.Common.{
  ℤ, ◌≤ℤ◌, ◌<ℤ◌, eqb_ℤ, true, List, [], ◌∷◌, ◌++◌, ◌≡◌, ◌⊎◌, inl, inr, ◌||◌, Option-cases, ap, refl,
  sym, ◌∙◌, arith, none, some,
}
use ihmc_yovariables_cpp.Buffer.KeyPoints.{
  Handler, get_next_key_point, get_previous_key_point, first_above, first_below, front_or, else_or,
}
use ihmc_yovariables_cpp.Buffer.KeyPoints.Order.{AllAbove, IsIncreasing}
use ihmc_yovariables_cpp.Buffer.KeyPoints.Lookup.{contains}

-- Every key point of the list lies below `b`.
abbrev pub AllBelow : ℤ → List ℤ → Type 0
AllBelow b [] = Unit {0}
AllBelow b (k ∷ ks) = (k <ℤ b) × AllBelow b ks

-- What `getNextKeyPoint` is to return at `b`: the least key point above `b`; where no key point is
-- above, the least of all; and `b` where there is no key point.
abbrev pub IsNext : ℤ → List ℤ → ℤ → Type 0
IsNext b ks n =
    ((contains ks n ≡ true) × (b <ℤ n) × ((x : ℤ) → contains ks x ≡ true → b <ℤ x → n ≤ℤ x))
    ⊎ ((contains ks n ≡ true) × ((x : ℤ) → contains ks x ≡ true → (x ≤ℤ b) × (n ≤ℤ x)))
    ⊎ ((ks ≡ []) × (n ≡ b))

-- What `getPreviousKeyPoint` is to return at `b`: the greatest key point below `b`; where no key
-- point is below, the greatest of all; and `b` where there is no key point.
abbrev pub IsPrevious : ℤ → List ℤ → ℤ → Type 0
IsPrevious b ks n =
    ((contains ks n ≡ true) × (n <ℤ b) × ((x : ℤ) → contains ks x ≡ true → x <ℤ b → x ≤ℤ n))
    ⊎ ((contains ks n ≡ true) × ((x : ℤ) → contains ks x ≡ true → (b ≤ℤ x) × (x ≤ℤ n)))
    ⊎ ((ks ≡ []) × (n ≡ b))

AllAbove-contains : (b x : ℤ) (ks : List ℤ) → AllAbove b ks → contains ks x ≡ true → b <ℤ x
AllAbove-contains b x [] v c = cc
AllAbove-contains b x (k ∷ ks) v c = ground (arith, AllAbove-contains b x ks v.1)

first_above-none : (b x : ℤ) (ks : List ℤ) → first_above b ks ≡ none → contains ks x ≡ true → x ≤ℤ b
unfolding first_above
first_above-none b x [] e c = cc
first_above-none b x (k ∷ ks) e c = ground (arith, first_above-none b x ks)

first_above-found :
    (b n : ℤ) (ks : List ℤ) → first_above b ks ≡ some n → (contains ks n ≡ true) × (b <ℤ n)
unfolding first_above
first_above-found b n [] e = cc
first_above-found b n (k ∷ ks) e = ground (arith, first_above-found b n ks)

first_above-least :
    (b n x : ℤ) (ks : List ℤ)
    → IsIncreasing ks
    → first_above b ks ≡ some n
    → contains ks x ≡ true
    → b <ℤ x
    → n ≤ℤ x
unfolding first_above
first_above-least b n x [] v e c h = cc
first_above-least b n x (k ∷ ks) v e c h =
    ground (arith, first_above-least b n x ks v.1, AllAbove-contains k x ks v.0)

front-least : (k x : ℤ) (ks : List ℤ) → IsIncreasing (k ∷ ks) → contains (k ∷ ks) x ≡ true → k ≤ℤ x
front-least k x ks v c = ground (arith, AllAbove-contains k x ks v.0)

front_or-IsNext :
    (b : ℤ) (ks : List ℤ) → IsIncreasing ks → first_above b ks ≡ none → IsNext b ks (front_or ks b)
front_or-IsNext b [] v e = inr (inr (refl, refl))
front_or-IsNext b (k ∷ ks) v e =
    inr (inl (ground arith, λ x c. (first_above-none b x (k ∷ ks) e c, front-least k x ks v c)))

else_or-IsNext :
    (b : ℤ) (ks : List ℤ)
    → IsIncreasing ks
    → IsNext b ks (else_or (first_above b ks) (front_or ks b))
else_or-IsNext b ks v = elim (Option-cases (first_above b ks)) [
  | inl e ↦ rw e (front_or-IsNext b ks v e)
  | inr (n, e) ↦ rw e (
      inl (
        (first_above-found b n ks e).0,
        (first_above-found b n ks e).1,
        λ x c h. first_above-least b n x ks v e c h,
      ))
]

-- On increasing key points `getNextKeyPoint` returns the least key point above its index; where
-- there is none above, the least key point of all; and its own index where there is no key point.
pub get_next_key_point-IsNext :
    (b : ℤ) (h : Handler)
    → IsIncreasing h.key_points
    → IsNext b h.key_points (get_next_key_point b h)
unfolding get_next_key_point
get_next_key_point-IsNext b h v = else_or-IsNext b h.key_points v

-- The same for the vector walked from its back: a decreasing list.
abbrev IsDecreasing : List ℤ → Type 0
IsDecreasing [] = Unit {0}
IsDecreasing (k ∷ ks) = AllBelow k ks × IsDecreasing ks

AllBelow-contains : (b x : ℤ) (ks : List ℤ) → AllBelow b ks → contains ks x ≡ true → x <ℤ b
AllBelow-contains b x [] v c = cc
AllBelow-contains b x (k ∷ ks) v c = ground (arith, AllBelow-contains b x ks v.1)

first_below-none : (b x : ℤ) (ks : List ℤ) → first_below b ks ≡ none → contains ks x ≡ true → b ≤ℤ x
unfolding first_below
first_below-none b x [] e c = cc
first_below-none b x (k ∷ ks) e c = ground (arith, first_below-none b x ks)

first_below-found :
    (b n : ℤ) (ks : List ℤ) → first_below b ks ≡ some n → (contains ks n ≡ true) × (n <ℤ b)
unfolding first_below
first_below-found b n [] e = cc
first_below-found b n (k ∷ ks) e = ground (arith, first_below-found b n ks)

first_below-greatest :
    (b n x : ℤ) (ks : List ℤ)
    → IsDecreasing ks
    → first_below b ks ≡ some n
    → contains ks x ≡ true
    → x <ℤ b
    → x ≤ℤ n
unfolding first_below
first_below-greatest b n x [] v e c h = cc
first_below-greatest b n x (k ∷ ks) v e c h =
    ground (arith, first_below-greatest b n x ks v.1, AllBelow-contains k x ks v.0)

front-greatest :
    (k x : ℤ) (ks : List ℤ) → IsDecreasing (k ∷ ks) → contains (k ∷ ks) x ≡ true → x ≤ℤ k
front-greatest k x ks v c = ground (arith, AllBelow-contains k x ks v.0)

front_or-IsPrevious :
    (b : ℤ) (ks : List ℤ)
    → IsDecreasing ks
    → first_below b ks ≡ none
    → IsPrevious b ks (front_or ks b)
front_or-IsPrevious b [] v e = inr (inr (refl, refl))
front_or-IsPrevious b (k ∷ ks) v e =
    inr (inl (ground arith, λ x c. (first_below-none b x (k ∷ ks) e c, front-greatest k x ks v c)))

else_or-IsPrevious :
    (b : ℤ) (ks : List ℤ)
    → IsDecreasing ks
    → IsPrevious b ks (else_or (first_below b ks) (front_or ks b))
else_or-IsPrevious b ks v = elim (Option-cases (first_below b ks)) [
  | inl e ↦ rw e (front_or-IsPrevious b ks v e)
  | inr (n, e) ↦ rw e (
      inl (
        (first_below-found b n ks e).0,
        (first_below-found b n ks e).1,
        λ x c h. first_below-greatest b n x ks v e c h,
      ))
]

contains-snoc : (x k : ℤ) (ks : List ℤ) → contains (ks ++ k ∷ []) x ≡ contains (k ∷ ks) x
contains-snoc x k [] = refl
contains-snoc x k (j ∷ ks) = ground (arith, contains-snoc x k ks)

contains-reverse : (x : ℤ) (ks : List ℤ) → contains (reverse ks) x ≡ contains ks x
contains-reverse x [] = refl
contains-reverse x (k ∷ ks) =
    rw reverse-cons
      (contains-snoc x k (reverse ks) ∙ ap (λ t. eqb_ℤ k x || t) (contains-reverse x ks))

AllBelow-snoc : (b k : ℤ) (ks : List ℤ) → AllBelow b ks → k <ℤ b → AllBelow b (ks ++ k ∷ [])
AllBelow-snoc b k [] v h = (h, tt)
AllBelow-snoc b k (j ∷ ks) v h = (v.0, AllBelow-snoc b k ks v.1 h)

IsDecreasing-snoc :
    (k : ℤ) (ks : List ℤ) → IsDecreasing ks → AllAbove k ks → IsDecreasing (ks ++ k ∷ [])
IsDecreasing-snoc k [] v a = (tt, tt)
IsDecreasing-snoc k (j ∷ ks) v a = (AllBelow-snoc j k ks v.0 a.0, IsDecreasing-snoc k ks v.1 a.1)

AllAbove-snoc : (b k : ℤ) (ks : List ℤ) → AllAbove b ks → b <ℤ k → AllAbove b (ks ++ k ∷ [])
AllAbove-snoc b k [] v h = (h, tt)
AllAbove-snoc b k (j ∷ ks) v h = (v.0, AllAbove-snoc b k ks v.1 h)

AllAbove-reverse : (b : ℤ) (ks : List ℤ) → AllAbove b ks → AllAbove b (reverse ks)
AllAbove-reverse b [] v = tt
AllAbove-reverse b (k ∷ ks) v =
    rw reverse-cons (AllAbove-snoc b k (reverse ks) (AllAbove-reverse b ks v.1) v.0)

reverse-IsDecreasing : (ks : List ℤ) → IsIncreasing ks → IsDecreasing (reverse ks)
reverse-IsDecreasing [] v = tt
reverse-IsDecreasing (k ∷ ks) v =
    rw reverse-cons
      (IsDecreasing-snoc k (reverse ks) (reverse-IsDecreasing ks v.1) (AllAbove-reverse k ks v.0))

-- `IsPrevious` reads its list only through `contains`.
IsPrevious-reverse : (b n : ℤ) (ks : List ℤ) → IsPrevious b (reverse ks) n → IsPrevious b ks n
IsPrevious-reverse b n ks (inl (c, h, g)) =
    inl (rw (← contains-reverse n ks) c, h, λ x d. g x (rw contains-reverse d))
IsPrevious-reverse b n ks (inr (inl (c, g))) =
    inr (inl (rw (← contains-reverse n ks) c, λ x d. g x (rw contains-reverse d)))
IsPrevious-reverse b n ks (inr (inr (e, h))) =
    inr (inr (sym (reverse-reverse ks) ∙ ap reverse e, h))

-- On increasing key points `getPreviousKeyPoint` returns the greatest key point below its index;
-- where there is none below, the greatest of all; and its own index where there is no key point.
pub get_previous_key_point-IsPrevious :
    (b : ℤ) (h : Handler)
    → IsIncreasing h.key_points
    → IsPrevious b h.key_points (get_previous_key_point b h)
unfolding get_previous_key_point
get_previous_key_point-IsPrevious b h v =
    IsPrevious-reverse b (get_previous_key_point b h) h.key_points
      (else_or-IsPrevious b (reverse h.key_points) (reverse-IsDecreasing h.key_points v))
