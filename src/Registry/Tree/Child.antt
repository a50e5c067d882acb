-- ===== src/Registry/Tree/Child.antt =====
-- Additions of a child that throw.
use ihmc_yovariables_cpp.Common.{
  false, List, [], ◌∷◌, ◌++◌, arith, ℕ, zero, suc, Bool, true, none, some, ◌≡◌, ◌≢◌, refl, ap, ◌∙◌,
  ==_ne,
}
use ihmc_yovariables_cpp.Registry.Names.{Name, split_name, join_names}
use ihmc_yovariables_cpp.Registry.Names.Split.{pieces, split_name-pieces}
use ihmc_yovariables_cpp.Registry.Namespace.{
  Namespace, of_name, of_sub_names, concatenate_name, append_name, is_member, all_unique,
  check_sanity,
}
use ihmc_yovariables_cpp.Registry.Namespace.Valid.{eq_name_refl, of_name-fields}
use ihmc_yovariables_cpp.Registry.Objects.{
  is_addition_allowed, illegal_name, find, Registry, Store, err, ◌>>=◌, ◌>>◌, change_registry,
}
use ihmc_yovariables_cpp.Registry.Objects.Update.{update_same, update_other, change_registry_twice}
use ihmc_yovariables_cpp.Registry.Search.{get_root}
use ihmc_yovariables_cpp.Registry.Tree.{
  set_parent_namespace, child_key, detach_from_parent, attach_child, add_child,
}

-- A namespace that fails its check is written all the same.
set_parent_namespace_refused :
    (n : ℕ) (a ns : Namespace) (r : ℕ) (s : Store)
    → append_name (s.registry_at r).name a ≡ some ns
    → check_sanity ns ≡ none
    → set_parent_namespace (suc n) (some a) r s
      ≡ err illegal_name (change_registry r (λ g. record g { namespace = ns }) s)
unfolding set_parent_namespace
set_parent_namespace_refused n a ns r s e bad = rw (e, bad) refl

-- What a refused addition leaves: the child points at its parent-to-be and has the bad namespace.
abbrev pub pointed : ℕ → ℕ → Namespace → Store → Store
pointed c r ns s = change_registry c (λ g. record g { parent = some r; namespace = ns }) s

module _ (to_lower : ℕ → ℕ) where
  attach_child_refused :
      (n : ℕ) (notify : Bool) (k : Name) (c r : ℕ) (ns : Namespace) (s : Store)
      → c ≢ r
      → (s.registry_at c).parent ≡ none
      → append_name (s.registry_at c).name (s.registry_at r).namespace ≡ some ns
      → check_sanity ns ≡ none
      → attach_child to_lower (suc n) notify k c r s
        ≡ err illegal_name (change_registry c (λ g. record g { parent = some r; namespace = ns }) s)
  unfolding attach_child detach_from_parent
  attach_child_refused n notify k c r ns s ne root e bad =
      let t = change_registry c (λ g. record g { parent = some r }) s in
      let own = update_same s.registry_at c (record (s.registry_at c) { parent = some r }) in
      let other =
        update_other s.registry_at c r (record (s.registry_at c) { parent = some r }) ne in
      let grown : append_name (t.registry_at c).name (t.registry_at r).namespace ≡ some ns =
        ap (λ (g : Registry). append_name g.name (t.registry_at r).namespace) own
        ∙ ap (λ (g : Registry). append_name (s.registry_at c).name g.namespace) other
        ∙ e in
      let thrown = set_parent_namespace_refused n (t.registry_at r).namespace ns c t grown bad in
      rw (root, ◌>>◌, ◌>>=◌, thrown)
        (ap (err illegal_name) (
          change_registry_twice c (λ g. record g { namespace = ns })
            (λ g. record g { parent = some r }) s))

  -- A root cannot be added to a registry where its namespace would fail its check, as it does when
  -- an ancestor has its name: `addChild` throws. By then the root points at the registry as its
  -- parent and has the bad namespace, while the registry does not have it among its children; nothing
  -- else has changed.
  pub add_child-check_sanity :
      (n : ℕ) (notify : Bool) (c r : ℕ) (ns : Namespace) (s : Store)
      → c ≢ r
      → is_addition_allowed (s.registry_at r).restriction_level ≡ true
      → find (child_key to_lower s c) (s.registry_at r).name_to_child_map ≡ none
      → (s.registry_at c).parent ≡ none
      → append_name (s.registry_at c).name (s.registry_at r).namespace ≡ some ns
      → check_sanity ns ≡ none
      → add_child to_lower (suc n) notify c r s ≡ err illegal_name (pointed c r ns s)
  unfolding add_child
  add_child-check_sanity n notify c r ns s ne allowed fresh root e bad =
      rw (==_ne c r ne, allowed, ◌>>◌, ◌>>=◌, fresh)
        (attach_child_refused n notify (child_key to_lower s c) c r ns s ne root e bad)

is_member-middle : (x : Name) (xs ys : List Name) → is_member x (xs ++ x ∷ ys) ≡ true
is_member-middle x [] ys = ground (arith, eq_name_refl x)
is_member-middle x (y ∷ xs) ys = ground (arith, is_member-middle x xs ys)

twice-check_sanity :
    (ns : Namespace) (x : Name) (xs ys : List Name)
    → ns.sub_names ≡ x ∷ xs ++ x ∷ ys
    → check_sanity ns ≡ none
unfolding check_sanity
twice-check_sanity ns x xs ys e =
    let doubled : all_unique ns.sub_names ≡ false = rw (e, is_member-middle x xs ys) refl in
    ground (arith, doubled)

append_name-fields :
    (s : Name) (a ns : Namespace)
    → append_name s a ≡ some ns
    → ns.sub_names ≡ a.sub_names ++ split_name s
unfolding append_name concatenate_name of_sub_names
append_name-fields s a ns h = ground arith

append_name_total :
    (s x : Name) (xs : List Name) (a : Namespace)
    → a.sub_names ≡ x ∷ xs
    → (ns : Namespace) × (append_name s a ≡ some ns)
unfolding append_name concatenate_name of_sub_names
append_name_total s x xs a e = (
  record {
    sub_names = a.sub_names ++ split_name s;
    name = join_names (a.sub_names ++ split_name s);
  },
  rw e refl,
)

-- The root's name stands twice in the namespace that the root gets below its own child.
twice_in_namespace :
    (s t : Name) (a b : Namespace)
    → of_name s ≡ some a
    → append_name t a ≡ some b
    → (ns : Namespace) × (append_name s b ≡ some ns) × (check_sanity ns ≡ none)
twice_in_namespace s t a b e f =
    let x = (pieces s).0 in
    let xs = (pieces s).1 in
    let split = split_name-pieces s in
    let own : a.sub_names ≡ x ∷ xs = (of_name-fields s a e).0 ∙ split in
    let below : b.sub_names ≡ x ∷ xs ++ split_name t =
      append_name-fields t a b f ∙ ap (λ ys. ys ++ split_name t) own in
    let (ns, grown) = append_name_total s x (xs ++ split_name t) b below in
    let subs : ns.sub_names ≡ x ∷ (xs ++ split_name t) ++ x ∷ xs =
      append_name-fields s b ns grown
      ∙ ap (λ ys. ys ++ split_name s) below
      ∙ ap (λ ys. (x ∷ xs ++ split_name t) ++ ys) split in
    (ns, grown, twice-check_sanity ns x (xs ++ split_name t) xs subs)

-- Two registries that are each other's parent have no root.
no_root :
    (n c r : ℕ) (s : Store)
    → (s.registry_at c).parent ≡ some r
    → (s.registry_at r).parent ≡ some c
    → get_root n s c ≡ none
unfolding get_root
no_root zero c r s p q = refl
no_root (suc n) c r s p q = rw (get_root, p) (no_root n r c s q p)

module _ (to_lower : ℕ → ℕ) where
  -- A root `c` is added to its own child `r`, where the namespace of the root is made from its name
  -- and that of the child by appending the child's name, additions are allowed and the child has no
  -- child under the root's name. Then `addChild` throws, as the new namespace of the root has the
  -- root's name twice. By then the two are each other's parent, so that `getRoot` ends for neither of
  -- them, whatever number of levels it may walk.
  pub add_child-get_root :
      (n : ℕ) (notify : Bool) (c r : ℕ) (s : Store)
      → c ≢ r
      → is_addition_allowed (s.registry_at r).restriction_level ≡ true
      → find (child_key to_lower s c) (s.registry_at r).name_to_child_map ≡ none
      → (s.registry_at c).parent ≡ none
      → (s.registry_at r).parent ≡ some c
      → of_name (s.registry_at c).name ≡ some (s.registry_at c).namespace
      → append_name (s.registry_at r).name (s.registry_at c).namespace
        ≡ some (s.registry_at r).namespace
      → (ns : Namespace) × (append_name (s.registry_at c).name (s.registry_at r).namespace
          ≡ some ns)
        × (add_child to_lower (suc n) notify c r s ≡ err illegal_name (pointed c r ns s))
        × ((m : ℕ)
            → (get_root m (pointed c r ns s) c ≡ none) × (get_root m (pointed c r ns s) r ≡ none))
  add_child-get_root n notify c r s ne allowed fresh root at own below =
      let (ns, e, bad) =
        twice_in_namespace (s.registry_at c).name (s.registry_at r).name (s.registry_at c).namespace
          (s.registry_at r).namespace own below in
      let t = pointed c r ns s in
      let up : (t.registry_at c).parent ≡ some r =
        ap (λ (g : Registry). g.parent)
          (update_same s.registry_at c
            (record (s.registry_at c) { parent = some r; namespace = ns })) in
      let down : (t.registry_at r).parent ≡ some c =
        ap (λ (g : Registry). g.parent)
          (update_other s.registry_at c r
            (record (s.registry_at c) { parent = some r; namespace = ns }) ne)
        ∙ at in
      (
        ns,
        e,
        add_child-check_sanity to_lower n notify c r ns s ne allowed fresh root e bad,
        λ m. (no_root m c r t up down, no_root m r c t down up),
      )
