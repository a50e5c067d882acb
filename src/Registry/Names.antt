-- ===== src/Registry/Names.antt =====
-- src/tools/yo_tools.cpp: names, and the paths of names that are written with separators. A
-- `std::string` is the list of its bytes.
pub mod Split
use ihmc_yovariables_cpp.Common.{
  ℕ, zero, suc, ◌==◌, if◌then◌else◌, Bool, true, false, ◌&&◌, ◌||◌, not, List, [], ◌∷◌, ◌++◌,
  length, Option, none, some, ◌>>=◌, require,
}

abbrev pub Name : Type 0
Name = List ℕ

-- '.'
abbrev pub separator : ℕ
separator = 46

-- `find(c)` of the standard library, from the start of what is left.
abbrev pub find_char : ℕ → Name → Option ℕ
find_char c [] = none
find_char c (x ∷ xs) =
    let rest = find_char c xs in if x == c then some 0 else rest >>= λ i. some (suc i)

-- The `n` first bytes, and what follows them.
module _ {ℓ} {A : Type ℓ} where
  abbrev pub take : ℕ → List A → List A
  take zero xs = []
  take (suc n) [] = []
  take (suc n) (x ∷ xs) = x ∷ take n xs

  abbrev pub drop : ℕ → List A → List A
  drop zero xs = xs
  drop (suc n) [] = []
  drop (suc n) (x ∷ xs) = drop n xs

abbrev pub is_empty {ℓ} : {A : Type ℓ} → List A → Bool
is_empty [] = true
is_empty (x ∷ xs) = false

-- `==` of strings, and of lists under a test.
abbrev pub same_by {ℓ} : {A : Type ℓ} → (A → A → Bool) → List A → List A → Bool
same_by eq [] [] = true
same_by eq [] (y ∷ ys) = false
same_by eq (x ∷ xs) [] = false
same_by eq (x ∷ xs) (y ∷ ys) = eq x y && same_by eq xs ys

abbrev pub eq_name : Name → Name → Bool
eq_name = same_by ◌==◌

-- The bytes of `kIllegalCharacters` of include/ihmc/yovariables/tools/yo_tools.h.
abbrev pub illegal_characters : Name
illegal_characters =
    32 ∷ 96 ∷ 126 ∷ 46 ∷ 42 ∷ 33 ∷ 63 ∷ 64 ∷ 35 ∷ 36 ∷ 37 ∷ 47 ∷ 94 ∷ 38 ∷ 40 ∷ 41 ∷ 60 ∷ 62 ∷ 44
    ∷ 58 ∷ 59 ∷ 123 ∷ 125 ∷ 39 ∷ 34 ∷ 92 ∷ 61 ∷ 43 ∷ 124 ∷ []

abbrev pub contains_char : ℕ → Name → Bool
contains_char c xs = elim (find_char c xs) [ some i ↦ true | none ↦ false ]

abbrev pub contains_any : Name → Name → Bool
contains_any [] xs = false
contains_any (c ∷ cs) xs = contains_char c xs || contains_any cs xs

-- `none` is the exception.
unfoldable pub check_for_illegal_characters : Name → Option (Unit {0})
check_for_illegal_characters s = require (not (contains_any illegal_characters s))

unfoldable pub check_name_does_not_contain_separator : Name → Option (Unit {0})
check_name_does_not_contain_separator s = require (not (contains_char separator s))

-- `splitName`: the loop, on what is left of the name. A name has at most as many separators as
-- bytes, so its length bounds the rounds.
unfoldable pub split_loop : ℕ → Name → List Name
split_loop zero s = s ∷ []
split_loop (suc fuel) s = elim (find_char separator s) [
  | none ↦ s ∷ []
  | some i ↦ take i s ∷ split_loop fuel (drop (suc i) s)
]

unfoldable pub split_name : Name → List Name
unfolding split_loop
split_name s = split_loop (length s) s

-- `joinNames`: the loop, with what has been joined.
unfoldable pub join_loop : Name → List Name → Name
join_loop joined [] = joined
join_loop joined (s ∷ ss) = join_loop (joined ++ separator ∷ [] ++ s) ss

unfoldable pub join_names : List Name → Name
unfolding join_loop
join_names [] = []
join_names (s ∷ ss) = join_loop s ss

-- `rfind(separator)`.
abbrev pub find_last : ℕ → Name → Option ℕ
find_last c [] = none
find_last c (x ∷ xs) = elim (find_last c xs) [
  | some i ↦ some (suc i)
  | none ↦ if x == c then some 0 else none
]

unfoldable pub to_short_name : Name → Name
to_short_name s = elim (find_last separator s) [ none ↦ s | some i ↦ drop (suc i) s ]
