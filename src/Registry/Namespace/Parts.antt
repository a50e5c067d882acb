-- ===== src/Registry/Namespace/Parts.antt =====
-- The parts of a namespace: `startsWith`, `contains`, `removeStart` and `removeEnd`.
use mathlib.Core.Logic.{◌↔◌}
use ihmc_yovariables_cpp.Common.{
  ℕ, suc, ◌+◌, ◌-◌, ◌≤◌, ◌<◌, ltb, leb, le→ltb, ◌==◌, true, false, List, [], ◌∷◌, ◌++◌, length,
  length-append, some, ◌≡◌, ◌≢◌, refl, sym, ap, ◌∙◌, arith, Bool-cases, Option-cases, inl, inr,
  if_false,
}
use ihmc_yovariables_cpp.Registry.Names.{Name, take, drop, eq_name, join_names}
use ihmc_yovariables_cpp.Registry.Namespace.{
  Namespace, of_sub_names, size, same, same_name, match_loop, starts_with, find_start, contains,
  sub_namespace, remove_start_length, remove_start,
}
use ihmc_yovariables_cpp.Registry.Namespace.Valid.{eq_name_refl, eq_name→eq}

module _ (to_lower : ℕ → ℕ) where
  match_loop_prefix : (qs rest : List Name) → match_loop to_lower false qs (qs ++ rest) ≡ some true
  unfolding match_loop same_name
  match_loop_prefix [] rest = refl
  match_loop_prefix (q ∷ qs) rest = rw (eq_name_refl q) (match_loop_prefix qs rest)

  match_loop-prefix :
      (qs ss : List Name)
      → match_loop to_lower false qs ss ≡ some true
      → (rest : List Name) × (ss ≡ qs ++ rest)
  unfolding match_loop same_name
  match_loop-prefix [] ss h = (ss, refl)
  match_loop-prefix (q ∷ qs) [] h = cc
  match_loop-prefix (q ∷ qs) (s ∷ ss) h = elim (Bool-cases (eq_name q s)) [
    | inl e ↦
        let (rest, f) = match_loop-prefix qs ss (ground arith) in
        (rest, ground (arith, eq_name→eq q s e, f))
    | inr ne ↦ ground arith
  ]

  -- With case respected, `startsWith` is true exactly for the namespaces whose sub-names the query's
  -- begin.
  pub starts_with_iff :
      (query ns : Namespace)
      → (starts_with to_lower false query ns ≡ some true)
        ↔ ((rest : List Name) × (ns.sub_names ≡ query.sub_names ++ rest))
  unfolding starts_with size
  starts_with_iff query ns = (
    λ h. match_loop-prefix query.sub_names ns.sub_names (ground arith),
    λ found.
        let (rest, e) = found in
        let long : length ns.sub_names ≡ length query.sub_names + length rest =
          ap length e ∙ length-append query.sub_names rest in
        rw e (
          if_false _ _ (
            le→ltb (length query.sub_names) (length (query.sub_names ++ rest))
              (omega (arith, length-append query.sub_names rest)))
          ∙ match_loop_prefix query.sub_names rest),
  )

  Found : Name → List Name → List Name → Type 0
  Found q ss rest = (before after : List Name) × (ss ≡ before ++ rest) × (rest ≡ q ∷ after)

  find_start_suffix :
      (q : Name) (m : ℕ) (ss rest : List Name)
      → find_start to_lower false q m ss ≡ some rest
      → Found q ss rest
  unfolding find_start same_name Found
  find_start_suffix q m [] rest h = cc
  find_start_suffix q m (s ∷ ss) rest h = elim (Bool-cases (ltb (length (s ∷ ss)) m)) [
    | inl short ↦ ground arith
    | inr long ↦ elim (Bool-cases (eq_name s q)) [
      | inl e ↦
          let at : rest ≡ s ∷ ss = ground arith in
          ([], ss, sym at, at ∙ ap (λ (x : Name). x ∷ ss) (eq_name→eq s q e))
      | inr ne ↦
          let (before, after, e, f) = find_start_suffix q m ss rest (ground arith) in
          (s ∷ before, after, ap (◌∷◌ s) e, f)
    ]
  ]

  contains_lists :
      (q : Name) (qs ss rest : List Name) (m : ℕ)
      → find_start to_lower false q m ss ≡ some rest
      → match_loop to_lower false qs (drop 1 rest) ≡ some true
      → (before after : List Name) × (ss ≡ before ++ ((q ∷ qs) ++ after))
  unfolding Found
  contains_lists q qs ss rest m h k =
      let (before, after, e, f) = find_start_suffix q m ss rest h in
      let (left, g) = match_loop-prefix qs (drop 1 rest) k in
      (
        before,
        left,
        e ∙ ap (λ (t : List Name). before ++ t) (f ∙ ap (◌∷◌ q) (sym (ap (drop 1) f) ∙ g)),
      )

  contains_cases :
      (query ns : Namespace) (qs : List Name)
      → query.sub_names ≡ qs
      → contains to_lower false query ns ≡ some true
      → (before after : List Name) × (ns.sub_names ≡ before ++ (query.sub_names ++ after))
  unfolding contains size
  contains_cases query ns [] e h = ground arith
  contains_cases query ns (q ∷ qs) e h =
      elim (Option-cases (find_start to_lower false q (length query.sub_names) ns.sub_names)) [
        | inl f ↦ ground arith
        | inr (rest, f) ↦
            let (before, after, g) =
              contains_lists q qs ns.sub_names rest (length query.sub_names) f (ground arith) in
            (before, after, rw e g)
      ]

  -- With case respected, a namespace that `contains` a query has the query's sub-names, one after the
  -- other, among its own.
  pub contains_sound :
      (query ns : Namespace)
      → contains to_lower false query ns ≡ some true
      → (before after : List Name) × (ns.sub_names ≡ before ++ (query.sub_names ++ after))
  contains_sound query ns = contains_cases query ns query.sub_names refl

  -- `contains` is not complete, as it tries the first sub-name that fits only: no namespace whose
  -- sub-names are `x`, `x` and `y` for `x` other than `y` contains the one of `x` and `y`.
  pub contains-misses :
      (x y : Name) (query ns : Namespace)
      → x ≢ y
      → query.sub_names ≡ x ∷ y ∷ []
      → ns.sub_names ≡ x ∷ x ∷ y ∷ []
      → contains to_lower false query ns ≡ some false
  unfolding contains size find_start match_loop same_name
  contains-misses x y query ns h e f =
      let differ : eq_name y x ≡ false = elim (Bool-cases (eq_name y x)) [
        | inl same_names ↦ absurd (h (sym (eq_name→eq y x same_names)))
        | inr other ↦ other
      ] in
      rw (e, f) (ground (arith, eq_name_refl x, differ))

  drop-append : (qs rest : List Name) → drop (length qs) (qs ++ rest) ≡ rest
  drop-append [] rest = refl
  drop-append (q ∷ qs) rest = drop-append qs rest

  take-all : (ss : List Name) → take (length ss) ss ≡ ss
  take-all [] = refl
  take-all (s ∷ ss) = ap (◌∷◌ s) (take-all ss)

  sub_namespace_tail :
      (from : ℕ) (ns : Namespace) (t : Name) (ts : List Name)
      → 1 ≤ from
      → from < size ns
      → take (size ns - from) (drop from ns.sub_names) ≡ t ∷ ts
      → sub_namespace from (size ns) ns
        ≡ some (some (record { sub_names = t ∷ ts; name = join_names (t ∷ ts) }))
  unfolding sub_namespace of_sub_names
  sub_namespace_tail from ns t ts h k e =
      let starts : (from == 0) ≡ false = ground arith in
      let ends : (from == size ns) ≡ false = ground arith in
      let low : leb from (size ns) ≡ true = ground arith in
      let high : leb (size ns) (size ns) ≡ true = ground arith in
      rw (starts, ends, low, high, e) refl

  -- What `startsWith` finds, `removeStart` takes away: what is left of a namespace whose sub-names are
  -- those of another, at least one, and at least one more, is the namespace of those others.
  pub remove_start-append :
      (query ns : Namespace) (q t : Name) (qs ts : List Name)
      → query.sub_names ≡ q ∷ qs
      → ns.sub_names ≡ query.sub_names ++ t ∷ ts
      → same ns query ≡ false
      → remove_start to_lower query ns
        ≡ some (some (record { sub_names = t ∷ ts; name = join_names (t ∷ ts) }))
  unfolding remove_start sub_namespace remove_start_length size of_sub_names
  remove_start-append query ns q t qs ts first e ne =
      let starts = (starts_with_iff query ns).1 (t ∷ ts, e) in
      let long : length ns.sub_names ≡ length query.sub_names + suc (length ts) =
        ap length e ∙ length-append query.sub_names (t ∷ ts) in
      let some_first : length query.sub_names ≡ suc (length qs) = ap length first in
      let left : drop (length query.sub_names) ns.sub_names ≡ t ∷ ts =
        ap (drop (length query.sub_names)) e ∙ drop-append query.sub_names (t ∷ ts) in
      let rest : length ns.sub_names - length query.sub_names ≡ length (t ∷ ts) = omega arith in
      let all : take (length ns.sub_names - length query.sub_names)
            (drop (length query.sub_names) ns.sub_names)
          ≡ t ∷ ts =
        rw (left, rest) (take-all (t ∷ ts)) in
      if_false _ _ ne
      ∙ rw starts (
          if_false _ _ (le→ltb (length query.sub_names) (length ns.sub_names) (omega arith))
          ∙ sub_namespace_tail (length query.sub_names) ns t ts (omega arith) (omega arith) all)
