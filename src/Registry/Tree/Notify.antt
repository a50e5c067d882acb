-- ===== src/Registry/Tree/Notify.antt =====
-- Which listeners a change reaches.
use ihmc_yovariables_cpp.Common.{
  ℕ, zero, suc, ◌≤◌, List, [], ◌∷◌, ◌++◌, length, Option, none, some, ◌≡◌, refl, ◌∙◌, arith,
}
use ihmc_yovariables_cpp.Registry.Objects.{ChangeType, RegistryChange, Store, ok}
use ihmc_yovariables_cpp.Registry.Tree.{calls, notify_listeners}
use mathlib.Core.List.{append-nil, append_assoc}

-- The registries from one up to its root.
pub data Lineage (s : Store) : ℕ → List ℕ → Type 0 where
  root : {r : ℕ} → (s.registry_at r).parent ≡ none → Lineage s r (r ∷ [])
  below :
      {r p : ℕ} {qs : List ℕ}
      → (s.registry_at r).parent ≡ some p
      → Lineage s p qs
      → Lineage s r (r ∷ qs)

-- The calls that the listeners of one registry get, and those of a path.
abbrev pub calls_here :
    Store → Option ℕ → Option ℕ → Option ℕ → ChangeType → ℕ → List (ℕ × RegistryChange)
calls_here s parent target v type q = calls (s.registry_at q).changed_listeners (record {
  source = q;
  target_parent_registry = parent;
  target_registry = target;
  target_variable = v;
  change_type = type;
})

abbrev pub calls_along :
    Store → Option ℕ → Option ℕ → Option ℕ → ChangeType → List ℕ → List (ℕ × RegistryChange)
calls_along s parent target v type [] = []
calls_along s parent target v type (q ∷ qs) =
    calls_here s parent target v type q ++ calls_along s parent target v type qs

abbrev pub tell : List (ℕ × RegistryChange) → Store → Store
tell cs s = record s { told = s.told ++ cs }

Path-tell :
    {s : Store} (cs : List (ℕ × RegistryChange)) {r : ℕ} {qs : List ℕ}
    → Lineage s r qs
    → Lineage (tell cs s) r qs
Path-tell cs (root e) = root e
Path-tell cs (below e h) = below e (Path-tell cs h)

calls_along-tell :
    (s : Store) (cs : List (ℕ × RegistryChange)) (parent target v : Option ℕ) (type : ChangeType)
    (qs : List ℕ)
    → calls_along (tell cs s) parent target v type qs ≡ calls_along s parent target v type qs
calls_along-tell s cs parent target v type [] = refl
calls_along-tell s cs parent target v type (q ∷ qs) =
    rw (calls_along-tell s cs parent target v type qs) refl

pub Lineage-same :
    {s t : Store}
    → ((q : ℕ) → (t.registry_at q).parent ≡ (s.registry_at q).parent)
    → {r : ℕ} {qs : List ℕ} → Lineage s r qs
    → Lineage t r qs
Lineage-same same (root {r = r} e) = root (same r ∙ e)
Lineage-same same (below {r = r} e h) = below (same r ∙ e) (Lineage-same same h)

pub calls_along-same :
    (s t : Store) (parent target v : Option ℕ) (type : ChangeType)
    → ((q : ℕ) → (t.registry_at q).changed_listeners ≡ (s.registry_at q).changed_listeners)
    → (qs : List ℕ) → calls_along t parent target v type qs ≡ calls_along s parent target v type qs
calls_along-same s t parent target v type same [] = refl
calls_along-same s t parent target v type same (q ∷ qs) =
    rw (calls_along-same s t parent target v type same qs, same q) refl

pub notify_listeners_lem :
    (n : ℕ) (parent target v : Option ℕ) (type : ChangeType) (r : ℕ) (qs : List ℕ) (s : Store)
    → Lineage s r qs
    → length qs ≤ n
    → notify_listeners n parent target v type r s
      ≡ ok tt (tell (calls_along s parent target v type qs) s)
unfolding notify_listeners
notify_listeners_lem zero parent target v type r qs s (root e) h = absurd (omega arith)
notify_listeners_lem zero parent target v type r qs s (below {p = p} {qs = qs'} e path) h =
    absurd (omega arith)
notify_listeners_lem (suc n) parent target v type r qs s (root e) h =
    rw (e, append-nil (calls_here s parent target v type r)) refl
notify_listeners_lem (suc n) parent target v type r qs s (below {p = p} {qs = qs'} e path) h =
    let here = calls_here s parent target v type r in
    rw
      (
        e,
        notify_listeners_lem n parent target v type p qs' (tell here s) (Path-tell here path)
            (omega arith),
        calls_along-tell s here parent target v type qs',
        append_assoc s.told here (calls_along s parent target v type qs'),
      )
      refl
