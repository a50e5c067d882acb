-- ===== src/Registry/Namespace.antt =====
-- src/registry/yo_namespace.cpp, with `checkNamespaceSanity` and `concatenate` of
-- src/tools/yo_tools.cpp. `none` is an exception, or an access out of bounds.
pub mod Valid
pub mod Parts
use ihmc_yovariables_cpp.Common.{
  ℕ, zero, suc, ◌+◌, ◌-◌, ltb, leb, ◌==◌, if◌then◌else◌, Bool, true, false, ◌&&◌, ◌||◌, not, List,
  [], ◌∷◌, ◌++◌, length, get_elem?, Option, none, some, ◌>>=◌, ◌>>◌, require,
}
use ihmc_yovariables_cpp.Registry.Names.{
  Name, separator, take, drop, is_empty, same_by, eq_name, contains_char, split_name, join_names,
}

pub record Namespace : Type 0 where
  pub sub_names : List Name
  pub name : Name

-- The constructor from sub-names.
unfoldable pub of_sub_names : List Name → Option Namespace
of_sub_names ss =
    if is_empty ss then none else some (record { sub_names = ss; name = join_names ss })

abbrev pub any_empty : List Name → Bool
any_empty [] = false
any_empty (s ∷ ss) = is_empty s || any_empty ss

-- The constructor from a name.
unfoldable pub of_name : Name → Option Namespace
of_name s =
    if is_empty s
    then none
    else if any_empty (split_name s)
    then none
    else some (record { sub_names = split_name s; name = s })

abbrev pub any_separator : List Name → Bool
any_separator [] = false
any_separator (s ∷ ss) = contains_char separator s || any_separator ss

abbrev pub is_member : Name → List Name → Bool
is_member s [] = false
is_member s (t ∷ ts) = eq_name s t || is_member s ts

-- Whether the set of the sub-names is as large as the list.
abbrev pub all_unique : List Name → Bool
all_unique [] = true
all_unique (s ∷ ss) = not (is_member s ss) && all_unique ss

unfoldable pub check_sanity : Namespace → Option (Unit {0})
check_sanity ns = do
  require (not (any_empty ns.sub_names))
  require (not (any_separator ns.sub_names))
  require (eq_name (join_names ns.sub_names) ns.name)
  require (all_unique ns.sub_names)

unfoldable pub is_root : Namespace → Bool
is_root ns = length ns.sub_names == 1

unfoldable pub get_root_name : Namespace → Option Name
get_root_name ns = get_elem? ns.sub_names 0

unfoldable pub get_short_name : Namespace → Option Name
get_short_name ns = get_elem? ns.sub_names (length ns.sub_names - 1)

unfoldable pub size : Namespace → ℕ
size ns = length ns.sub_names

unfoldable pub get_sub_name : ℕ → Namespace → Option Name
get_sub_name i ns = get_elem? ns.sub_names i

-- `subNamespace`: the inner `none` is the result `nullopt`.
unfoldable pub sub_namespace : ℕ → ℕ → Namespace → Option (Option Namespace)
unfolding size
sub_namespace from to ns =
    if (from == 0) && (to == size ns) then some (some ns) else if from == to then some none else do
      require (leb from to && leb to (size ns))
      part ← of_sub_names (take (to - from) (drop from ns.sub_names))
      some (some part)

-- `operator==`
unfoldable pub same : Namespace → Namespace → Bool
same a b = eq_name a.name b.name

unfoldable pub remove_start_length : ℕ → Namespace → Option (Option Namespace)
remove_start_length n ns = if ltb (size ns) n then none else sub_namespace n (size ns) ns

unfoldable pub remove_end_length : ℕ → Namespace → Option (Option Namespace)
remove_end_length n ns = if ltb (size ns) n then none else sub_namespace 0 (size ns - n) ns

unfoldable pub get_parent : Namespace → Option (Option Namespace)
get_parent ns = remove_end_length 1 ns

-- `concatenate`, in its four forms. `append` and `prepend` are calls of it.
unfoldable pub concatenate : Namespace → Namespace → Option Namespace
concatenate a b = of_sub_names (a.sub_names ++ b.sub_names)

unfoldable pub concatenate_name : Namespace → Name → Option Namespace
concatenate_name a s = of_sub_names (a.sub_names ++ split_name s)

unfoldable pub concatenate_to_name : Name → Namespace → Option Namespace
concatenate_to_name s b = of_sub_names (split_name s ++ b.sub_names)

unfoldable pub concatenate_names : Name → Name → Option Namespace
concatenate_names s t = of_sub_names (split_name s ++ split_name t)

unfoldable pub append : Namespace → Namespace → Option Namespace
append other ns = concatenate ns other

unfoldable pub append_name : Name → Namespace → Option Namespace
append_name s ns = concatenate_name ns s

unfoldable pub prepend : Namespace → Namespace → Option Namespace
prepend other ns = concatenate other ns

unfoldable pub prepend_name : Name → Namespace → Option Namespace
prepend_name s ns = concatenate_to_name s ns

-- `std::tolower` is a parameter.
module _ (to_lower : ℕ → ℕ) where
  unfoldable pub equals_ignore_case : Name → Name → Bool
  equals_ignore_case s t =
      if length s == length t then same_by (λ c d. to_lower c == to_lower d) s t else false

  unfoldable pub same_name : Bool → Name → Name → Bool
  same_name ignore_case s t = if ignore_case then equals_ignore_case s t else eq_name s t

  -- The loop of `startsWith`, and of the tail of `contains`, over the query's sub-names from `i` on.
  -- A sub-name out of bounds is a fault.
  unfoldable pub match_loop : Bool → List Name → List Name → Option Bool
  match_loop ignore_case [] ss = some true
  match_loop ignore_case (q ∷ qs) [] = none
  match_loop ignore_case (q ∷ qs) (s ∷ ss) =
      let rest = match_loop ignore_case qs ss in
      if same_name ignore_case q s then rest else some false

  unfoldable pub starts_with : Bool → Namespace → Namespace → Option Bool
  starts_with ignore_case query ns =
      if ltb (size ns) (size query)
      then some false
      else match_loop ignore_case query.sub_names ns.sub_names

  -- The loop of `endsWith`, for the `k` last sub-names that are left to compare.
  unfoldable pub match_end : Bool → List Name → List Name → ℕ → ℕ → Option Bool
  match_end ignore_case qs ss zero i = some true
  match_end ignore_case qs ss (suc k) i = do
    require (leb i (length qs) && leb i (length ss))
    q ← get_elem? qs (length qs - i)
    s ← get_elem? ss (length ss - i)
    let rest = match_end ignore_case qs ss k (i + 1)
    if same_name ignore_case q s then rest else some false

  unfoldable pub ends_with : Bool → Namespace → Namespace → Option Bool
  ends_with ignore_case query ns =
      if ltb (size ns) (size query)
      then some false
      else match_end ignore_case query.sub_names ns.sub_names (size query) 1

  unfoldable pub ends_with_name : Bool → Name → Namespace → Option Bool
  ends_with_name ignore_case s ns =
      let before = length ns.name - length s in
      if ltb (length ns.name) (length s)
      then some false
      else if not (same_name ignore_case (drop before ns.name) s)
      then some false
      else if before == 0
      then some true
      else get_elem? ns.name (before - 1) >>= λ c. some (c == separator)

  unfoldable pub starts_with_name : Bool → Name → Namespace → Option Bool
  starts_with_name ignore_case s ns =
      if ltb (length ns.name) (length s)
      then some false
      else if not (same_name ignore_case (take (length s) ns.name) s)
      then some false
      else if length ns.name == length s
      then some true
      else get_elem? ns.name (length s) >>= λ c. some (c == separator)

  -- The first loop of `contains`: what is left from the first sub-name that equals the query's
  -- first, among those with room for the query.
  unfoldable pub find_start : Bool → Name → ℕ → List Name → Option (List Name)
  find_start ignore_case q m [] = none
  find_start ignore_case q m (s ∷ ss) =
      let rest = find_start ignore_case q m ss in
      if ltb (length (s ∷ ss)) m
      then none
      else if same_name ignore_case s q
      then some (s ∷ ss)
      else rest

  unfoldable pub contains : Bool → Namespace → Namespace → Option Bool
  unfolding match_loop find_start
  contains ignore_case query ns = if ltb (size ns) (size query) then some false else do
    q ← get_elem? query.sub_names 0
    elim (find_start ignore_case q (size query) ns.sub_names) [
      | none ↦ some false
      | some rest ↦ match_loop ignore_case (drop 1 query.sub_names) (drop 1 rest)
    ]

  -- The position of a string's first occurrence in a name: `std::search`, which is at the end for
  -- two empty strings, or `find`.
  unfoldable pub search_name : Bool → Name → Name → Option ℕ
  search_name ignore_case s [] = if is_empty s && not ignore_case then some 0 else none
  search_name ignore_case s (c ∷ t) =
      let rest = search_name ignore_case s t in
      if same_name ignore_case (take (length s) (c ∷ t)) s
      then some 0
      else rest >>= λ i. some (suc i)

  unfoldable pub contains_name : Bool → Name → Namespace → Option Bool
  unfolding search_name
  contains_name ignore_case s ns = elim (search_name ignore_case s ns.name) [
    | none ↦ some false
    | some start ↦ do
      before ← (if start == 0 then some separator else get_elem? ns.name (start - 1))
      let end = start + length s
      after ← (if ltb end (length ns.name) then get_elem? ns.name end else some separator)
      some (before == separator && after == separator)
  ]

  -- `removeStart` and `removeEnd` of a namespace.
  unfoldable pub remove_start : Namespace → Namespace → Option (Option Namespace)
  remove_start query ns = if same ns query then some none else do
    starts ← starts_with false query ns
    if not starts then some none else remove_start_length (size query) ns

  unfoldable pub remove_end : Namespace → Namespace → Option (Option Namespace)
  remove_end query ns = if same ns query then some none else do
    ends ← ends_with false query ns
    if not ends then some none else remove_end_length (size query) ns
