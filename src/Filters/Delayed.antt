-- ===== src/Filters/Delayed.antt =====
-- src/filters/delayed_yo_double.cpp; src/filters/delayed_yo_boolean.cpp is the same for a Boolean.
-- The filter holds the `previous` values of its input, the eldest first.
use ihmc_yovariables_cpp.Common.{
  ℕ, List, [], ◌∷◌, ◌++◌, length, get_elem?, replicate, some, ◌≡◌, refl, sym, ap, ◌∙◌,
}
use mathlib.Core.List.{append_assoc}

pub record Filter (A : Type 0) : Type 0 where
  pub value : A
  pub previous : List A

module _ {A : Type 0} where
  abbrev pub holding : A → List A → Filter A
  holding v ps = record { value = v; previous = ps }

  -- The constructor fills the filter with its input.
  unfoldable pub new_filter : ℕ → A → Filter A
  new_filter ticks x = record { value = x; previous = replicate ticks x }

  -- The loop over `i` from 0, on the values from the `i`-th on: each takes the value of the next.
  abbrev pub shift_loop : List A → List A
  shift_loop [] = []
  shift_loop (p ∷ []) = p ∷ []
  shift_loop (p ∷ q ∷ ps) = q ∷ shift_loop (q ∷ ps)

  -- `back()`, which is set to the input.
  abbrev pub set_back : A → List A → List A
  set_back x [] = []
  set_back x (p ∷ []) = x ∷ []
  set_back x (p ∷ q ∷ ps) = p ∷ set_back x (q ∷ ps)

  unfoldable pub update : A → Filter A → Filter A
  update x f = elim f.previous [
    | [] ↦ record f { value = x }
    | p ∷ ps ↦ record { value = p; previous = set_back x (shift_loop f.previous) }
  ]

  unfoldable pub reset : A → Filter A → Filter A
  reset x f = record { value = x; previous = replicate (length f.previous) x }

  -- The updates with some inputs, in order.
  abbrev pub feed : List A → Filter A → Filter A
  feed [] f = f
  feed (x ∷ xs) f = feed xs (update x f)

  shift_back : (p x : A) (ps : List A) → set_back x (shift_loop (p ∷ ps)) ≡ ps ++ x ∷ []
  shift_back p x [] = refl
  shift_back p x (q ∷ []) = refl
  shift_back p x (q ∷ r ∷ ps) = ap (◌∷◌ q) (shift_back q x (r ∷ ps))

  update_nonempty :
      (p x v : A) (ps : List A)
      → update x (record { value = v; previous = p ∷ ps })
        ≡ record { value = p; previous = ps ++ x ∷ [] }
  unfolding update
  update_nonempty p x v ps =
      ap (λ (t : List A). record { value = p; previous = t }) (shift_back p x ps)

  delays :
      (xs : List A) (x v : A) (ps : List A)
      → get_elem? (ps ++ (xs ++ x ∷ [])) (length xs)
        ≡ some (feed (xs ++ x ∷ []) (holding v ps)).value
  unfolding update
  delays [] x v [] = refl
  delays [] x v (p ∷ ps) = refl
  delays (y ∷ ys) x v [] = delays ys x y []
  delays (y ∷ ys) x v (p ∷ ps) =
      ap (λ (t : List A). get_elem? t (length ys)) (sym (append_assoc ps (y ∷ []) (ys ++ x ∷ [])))
      ∙ delays ys x p (ps ++ y ∷ [])
      ∙ ap (λ (g : Filter A). some (feed (ys ++ x ∷ []) g).value) (sym (update_nonempty p y v ps))

  -- Each output of the filter is the input of as many updates ago as the filter holds values; the
  -- outputs before that are the values that it held: after the inputs `xs` and then `x`, the output is
  -- the element at the number of the `xs` of the held values followed by all the inputs.
  pub feed-delays :
      (xs : List A) (x : A) (f : Filter A)
      → get_elem? (f.previous ++ (xs ++ x ∷ [])) (length xs) ≡ some (feed (xs ++ x ∷ []) f).value
  feed-delays xs x f = delays xs x f.value f.previous
