-- ===== src/Registry/Tree/Rises.antt =====
-- Restriction levels of the registries.
use ihmc_yovariables_cpp.Common.{
  ℕ, zero, suc, ◌≤◌, ltb, true, false, List, [], ◌∷◌, ◌≡◌, refl, ap, sym, ◌∙◌, subst, arith,
  Bool-cases, All, inl, inr, ℕ_discrete,
}
use ihmc_yovariables_cpp.Registry.Objects.{
  Level, value_of, Registry, Store, Command, ok, err, store_of, invalid_argument, for_each,
}
use ihmc_yovariables_cpp.Registry.Objects.Update.{update_same, update_other}
use ihmc_yovariables_cpp.Registry.Objects.Loops.{>>-ok, relates_for_each}
use ihmc_yovariables_cpp.Registry.Tree.{level_of, with_level, raise_child, set_restriction_level}

-- No registry is less restricted than before.
abbrev pub Rises : Store → Store → Type 0
Rises s t = (q : ℕ) → level_of s q ≤ level_of t q

same : (s : Store) → Rises s s
same s q = omega arith

chain : (s t u : Store) → Rises s t → Rises t u → Rises s u
chain s t u h k q = omega (arith, h q, k q)

level_of-with_level :
    (level : Level) (r : ℕ) (s : Store) → level_of (with_level level r s) r ≡ value_of level
level_of-with_level level r s =
    ap (λ (g : Registry). value_of g.restriction_level)
      (update_same s.registry_at r (record (s.registry_at r) { restriction_level = level }))

-- The write of a level that is not lower.
with_level-Rises :
    (level : Level) (r : ℕ) (s : Store)
    → level_of s r ≤ value_of level
    → Rises s (with_level level r s)
with_level-Rises level r s h q = elim (ℕ_discrete r q) [
  | yes e ↦
      subst (λ i. level_of s i ≤ level_of (with_level level r s) i) e
        (omega (arith, level_of-with_level level r s, h))
  | no ne ↦
      let kept : level_of (with_level level r s) q ≡ level_of s q =
        ap (λ (g : Registry). value_of g.restriction_level) (update_other s.registry_at r q _ ne) in
      omega (arith, kept)
]

raise_child-Rises :
    (set_level : ℕ → Command) (level : Level)
    → ((c : ℕ) (t : Store) → Rises t (store_of (set_level c t)))
    → (c : ℕ) (t : Store) → Rises t (store_of (raise_child set_level level c t))
raise_child-Rises set_level level h c t = elim (Bool-cases (ltb (level_of t c) (value_of level))) [
  | inl lower ↦ rw lower (h c t)
  | inr fine ↦ rw fine (same t)
]

-- However `setRestrictionLevel` ends, no registry is less restricted than before.
pub set_restriction_level-Rises :
    (n : ℕ) (level : Level) (r : ℕ) (s : Store)
    → Rises s (store_of (set_restriction_level n level r s))
unfolding set_restriction_level
set_restriction_level-Rises zero level r s = same s
set_restriction_level-Rises (suc n) level r s =
    elim (Bool-cases (ltb (value_of level) (level_of s r))) [
      | inl lower ↦ rw lower (same s)
      | inr fine ↦
          let t = with_level level r s in
          let set_level = raise_child (set_restriction_level n level) level in
          let high : level_of s r ≤ value_of level = ground (arith, fine) in
          rw fine (
            chain s t (store_of (for_each set_level (t.registry_at r).children t))
              (with_level-Rises level r s high)
              (relates_for_each Rises same chain set_level
                (raise_child-Rises (set_restriction_level n level) level
                  (set_restriction_level-Rises n level))
                (t.registry_at r).children t))
    ]

for_each_covers :
    (level : Level) (f : ℕ → Command)
    → ((c : ℕ) (s : Store) → Rises s (store_of (f c s)))
    → ((c : ℕ) (s t : Store) → f c s ≡ ok tt t → value_of level ≤ level_of t c)
    → (cs : List ℕ) (s t : Store) → for_each f cs s ≡ ok tt t
    → All (λ c. value_of level ≤ level_of t c) cs
unfolding for_each
for_each_covers level f rises covers [] s t e = tt
for_each_covers level f rises covers (c ∷ cs) s t e =
    let (u, e1, e2) = >>-ok (f c) (for_each f cs) s e in
    let later = relates_for_each Rises same chain f rises cs u c in
    let at_end : level_of (store_of (for_each f cs u)) c ≡ level_of t c =
      ap (λ o. level_of (store_of o) c) e2 in
    (omega (arith, covers c s u e1, later, at_end), for_each_covers level f rises covers cs u t e2)

refused :
    (n : ℕ) (level : Level) (r : ℕ) (s : Store)
    → ltb (value_of level) (level_of s r) ≡ true
    → set_restriction_level (suc n) level r s ≡ err invalid_argument s
unfolding set_restriction_level
refused n level r s lower = rw lower refl

accepted :
    (n : ℕ) (level : Level) (r : ℕ) (s : Store)
    → ltb (value_of level) (level_of s r) ≡ false
    → set_restriction_level (suc n) level r s
      ≡ for_each
          (raise_child (set_restriction_level n level) level)
          ((with_level level r s).registry_at r).children
          (with_level level r s)
unfolding set_restriction_level
accepted n level r s fine = rw fine refl

raise_lower :
    (set_level : ℕ → Command) (level : Level) (c : ℕ) (s : Store)
    → ltb (level_of s c) (value_of level) ≡ true
    → raise_child set_level level c s ≡ set_level c s
raise_lower set_level level c s lower = rw lower refl

raise_fine :
    (set_level : ℕ → Command) (level : Level) (c : ℕ) (s : Store)
    → ltb (level_of s c) (value_of level) ≡ false
    → raise_child set_level level c s ≡ ok tt s
raise_fine set_level level c s fine = rw fine refl

raise_child_covers :
    (set_level : ℕ → Command) (level : Level) (c : ℕ) (s t : Store)
    → (set_level c s ≡ ok tt t → value_of level ≤ level_of t c)
    → raise_child set_level level c s ≡ ok tt t
    → value_of level ≤ level_of t c
raise_child_covers set_level level c s t h e =
    elim (Bool-cases (ltb (level_of s c) (value_of level))) [
      | inl lower ↦ h (sym (raise_lower set_level level c s lower) ∙ e)
      | inr fine ↦
          let still : ok tt s ≡ ok tt t = sym (raise_fine set_level level c s fine) ∙ e in
          let high : value_of level ≤ level_of s c = ground (arith, fine) in
          let kept : level_of s c ≡ level_of t c = ap (λ o. level_of (store_of o) c) still in
          omega (arith, high, kept)
    ]

-- If `setRestrictionLevel` succeeds, then the registry and its children, as they stood when the
-- level was written, have at least the level.
pub set_restriction_level_covers :
    (n : ℕ) (level : Level) (r : ℕ) (s t : Store)
    → set_restriction_level n level r s ≡ ok tt t
    → (value_of level ≤ level_of t r)
      × All (λ c. value_of level ≤ level_of t c) (s.registry_at r).children
unfolding set_restriction_level
set_restriction_level_covers zero level r s t e = absurd (cc)
set_restriction_level_covers (suc n) level r s t e =
    elim (Bool-cases (ltb (value_of level) (level_of s r))) [
      | inl lower ↦ absurd (cc (refused n level r s lower))
      | inr fine ↦
          let u = with_level level r s in
          let f = raise_child (set_restriction_level n level) level in
          let loop : for_each f (u.registry_at r).children u ≡ ok tt t =
            sym (accepted n level r s fine) ∙ e in
          let rises =
            raise_child-Rises (set_restriction_level n level) level
              (set_restriction_level-Rises n level) in
          let children : (u.registry_at r).children ≡ (s.registry_at r).children =
            ap (λ (g : Registry). g.children) (update_same s.registry_at r _) in
          let own = relates_for_each Rises same chain f rises (u.registry_at r).children u r in
          let at_end : level_of (store_of (for_each f (u.registry_at r).children u)) r
              ≡ level_of t r =
            ap (λ o. level_of (store_of o) r) loop in
          (
            omega (arith, level_of-with_level level r s, own, at_end),
            subst (All (λ c. value_of level ≤ level_of t c)) children (
                for_each_covers level f rises
                  (λ c x y e'.
                    raise_child_covers (set_restriction_level n level) level c x y
                      (λ e''. (set_restriction_level_covers n level c x y e'').0) e')
                  (u.registry_at r).children u t loop),
          )
    ]
