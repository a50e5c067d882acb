-- ===== src/Registry/Namespace/Valid.antt =====
-- What the constructors of a namespace give.
use mathlib.Core.List.{append_assoc}
use ihmc_yovariables_cpp.Common.{
  true, false, List, [], ◌∷◌, ◌++◌, some, require, ◌≡◌, refl, sym, ap, ◌∙◌, arith, All, if_false,
}
use ihmc_yovariables_cpp.Registry.Names.{
  Name, separator, is_empty, eq_name, split_name, join_names, join_loop,
}
use ihmc_yovariables_cpp.Registry.Names.Split.{
  HasNoSeparator, join_names-split_name, split_name-join_names, split_name-HasNoSeparator,
  split_name-pieces, join_loop_lem,
}
use ihmc_yovariables_cpp.Registry.Namespace.{
  Namespace, of_sub_names, of_name, any_empty, any_separator, all_unique, check_sanity, concatenate,
}

pub eq_name_refl : (s : Name) → eq_name s s ≡ true
eq_name_refl [] = refl
eq_name_refl (c ∷ cs) = ground (arith, eq_name_refl cs)

pub eq_name→eq : (s t : Name) → eq_name s t ≡ true → s ≡ t
eq_name→eq [] [] h = refl
eq_name→eq [] (d ∷ ds) h = cc
eq_name→eq (c ∷ cs) [] h = cc
eq_name→eq (c ∷ cs) (d ∷ ds) h = ground (arith, eq_name→eq cs ds)

any_separator_none : (ss : List Name) → All HasNoSeparator ss → any_separator ss ≡ false
any_separator_none [] h = refl
any_separator_none (s ∷ ss) h = ground (arith, h.0, any_separator_none ss h.1)

-- What a namespace has when its two fields agree.
pub record IsConsistent (ns : Namespace) : Type 0 where
  pub joined : join_names ns.sub_names ≡ ns.name
  pub none_empty : any_empty ns.sub_names ≡ false
  pub clean : All HasNoSeparator ns.sub_names

pub of_name-fields :
    (s : Name) (ns : Namespace)
    → of_name s ≡ some ns
    → (ns.sub_names ≡ split_name s) × (ns.name ≡ s) × (any_empty ns.sub_names ≡ false)
unfolding of_name
of_name-fields s ns h = ground arith

-- A namespace that is made from a name has that name, and its sub-names are consistent with it: they
-- join to it, none is empty, and none has a separator.
pub of_name-IsConsistent :
    (s : Name) (ns : Namespace) → of_name s ≡ some ns → (ns.name ≡ s) × IsConsistent ns
of_name-IsConsistent s ns h =
    let (subs, named, full) = of_name-fields s ns h in
    (
      named,
      record {
        joined = rw (subs, named) (join_names-split_name s);
        none_empty = full;
        clean = rw subs (split_name-HasNoSeparator s);
      },
    )

-- On a namespace that is made from a name, `checkSanity` fails for duplicate sub-names only.
pub check_sanity-of_name :
    (s : Name) (ns : Namespace)
    → of_name s ≡ some ns
    → check_sanity ns ≡ require (all_unique ns.sub_names)
unfolding check_sanity
check_sanity-of_name s ns h =
    let (named, ok) = of_name-IsConsistent s ns h in
    rw (ok.none_empty, any_separator_none ns.sub_names ok.clean, ok.joined, eq_name_refl) refl

of_name-split :
    (t : Name) (ws : List Name)
    → split_name t ≡ ws
    → any_empty ws ≡ false
    → of_name t ≡ some (record { sub_names = ws; name = t })
unfolding of_name split_name
of_name-split [] ws e k = ground arith
of_name-split (c ∷ cs) ws e k = rw e (if_false _ _ k)

-- The two constructors agree: sub-names without separators, none of them empty and at least one,
-- make the same namespace as their join does.
pub of_name-join_names :
    (s : Name) (ss : List Name)
    → All HasNoSeparator (s ∷ ss)
    → any_empty (s ∷ ss) ≡ false
    → of_name (join_names (s ∷ ss)) ≡ of_sub_names (s ∷ ss)
unfolding of_name of_sub_names
of_name-join_names s ss h k =
    of_name-split (join_names (s ∷ ss)) (s ∷ ss) (split_name-join_names s ss h.0 h.1) k

join_loop-append :
    (s t : Name) (ss ts : List Name)
    → join_loop s (ss ++ t ∷ ts) ≡ join_loop s ss ++ separator ∷ join_loop t ts
unfolding join_loop
join_loop-append s t [] ts =
    ap (λ (w : Name). join_loop w ts) (append_assoc s (separator ∷ []) t)
    ∙ join_loop_lem s (separator ∷ t) ts
    ∙ ap (λ (w : Name). s ++ w) (join_loop_lem (separator ∷ []) t ts)
join_loop-append s t (u ∷ us) ts = join_loop-append (s ++ separator ∷ [] ++ u) t us ts

All-append :
    (ss ts : List Name)
    → All HasNoSeparator ss
    → All HasNoSeparator ts
    → All HasNoSeparator (ss ++ ts)
All-append [] ts h k = k
All-append (s ∷ ss) ts h k = (h.0, All-append ss ts h.1 k)

any_empty-append :
    (ss ts : List Name) → any_empty ss ≡ false → any_empty ts ≡ false → any_empty (ss ++ ts) ≡ false
any_empty-append [] ts h k = k
any_empty-append (s ∷ ss) ts h k = ground (arith, any_empty-append ss ts)

join_names-append :
    (ss ts : List Name) (s t : Name)
    → join_names (s ∷ ss ++ t ∷ ts) ≡ join_names (s ∷ ss) ++ separator ∷ join_names (t ∷ ts)
unfolding join_names
join_names-append ss ts s t = join_loop-append s t ss ts

-- The concatenation of lists of sub-names that are consistent with names.
concatenate_lists :
    (ss ts : List Name)
    → is_empty ss ≡ false
    → is_empty ts ≡ false
    → All HasNoSeparator ss
    → All HasNoSeparator ts
    → any_empty ss ≡ false
    → any_empty ts ≡ false
    → of_sub_names (ss ++ ts) ≡ of_name (join_names ss ++ separator ∷ join_names ts)
concatenate_lists [] ts e f h k m n = cc
concatenate_lists (s ∷ ss) [] e f h k m n = cc
concatenate_lists (s ∷ ss) (t ∷ ts) e f h k m n =
    sym (
      of_name-join_names s (ss ++ t ∷ ts) (All-append (s ∷ ss) (t ∷ ts) h k)
        (any_empty-append (s ∷ ss) (t ∷ ts) m n))
    ∙ ap of_name (join_names-append ss ts s t)

of_name-nonempty : (s : Name) (ns : Namespace) → of_name s ≡ some ns → is_empty ns.sub_names ≡ false
of_name-nonempty s ns h =
    let (subs, named, full) = of_name-fields s ns h in ap is_empty (subs ∙ split_name-pieces s)

-- The concatenation of two namespaces that are made from names is the namespace of the two names
-- with a separator in between.
pub concatenate-of_name :
    (s t : Name) (a b : Namespace)
    → of_name s ≡ some a
    → of_name t ≡ some b
    → concatenate a b ≡ of_name (s ++ separator ∷ t)
unfolding concatenate
concatenate-of_name s t a b h k =
    let (e, ok) = of_name-IsConsistent s a h in
    let (f, fine) = of_name-IsConsistent t b k in
    concatenate_lists a.sub_names b.sub_names (of_name-nonempty s a h) (of_name-nonempty t b k)
      ok.clean fine.clean ok.none_empty fine.none_empty
    ∙ rw (ok.joined, fine.joined, e, f) refl
