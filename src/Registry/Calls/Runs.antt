-- ===== src/Registry/Calls/Runs.antt =====
-- Sequences of calls of `addVariable` and `removeVariable`.
use ihmc_yovariables_cpp.Common.{
  ℕ, suc, ◌==◌, true, List, [], ◌∷◌, map, Option, none, some, ◌≡◌, ◌≢◌, refl, sym, ap, ◌∙◌,
  Bool-cases, Option-cases, inl, inr,
}
use ihmc_yovariables_cpp.Registry.Names.{Name}
use ihmc_yovariables_cpp.Registry.Objects.{
  is_addition_allowed, variable_added, illegal_operation, RegistryChange, find, Registry, Variable,
  Store, Command, ok, store_of, err, ◌>>=◌, ◌>>◌,
}
use ihmc_yovariables_cpp.Registry.Objects.Update.{update_same, update_other, change_registry_keeps}
use ihmc_yovariables_cpp.Registry.Tree.Notify.{calls_along}
use ihmc_yovariables_cpp.Registry.Calls.{
  variable_key, add_variable, place_variable, sets, adds, removes, call,
}
use ihmc_yovariables_cpp.Registry.Calls.Twice.{removed}
use ihmc_yovariables_cpp.Registry.Calls.Add.{added, add_variable-set_registry}
use ihmc_yovariables_cpp.Registry.Calls.Sound.{
  IsSound, forget_twice, removed-IsSound, added-IsSound, removal-cases, Ends, goes_through,
  is_illegal, collides, Ends-IsSound, removes-Ends,
}

pub data Registration : Type 0 where
  adding removing : ℕ → ℕ → Registration

module _ (to_lower : ℕ → ℕ) (depth : ℕ) where
  -- An addition behind its checks.
  adds_fresh :
      (m v r : ℕ) (s : Store)
      → is_addition_allowed (s.registry_at r).restriction_level ≡ true
      → find (variable_key to_lower depth s v) (s.registry_at r).name_to_variable_map ≡ none
      → call to_lower depth (suc m) (adds v r) s
        ≡ place_variable to_lower depth
            (λ u q. call to_lower depth m (sets u q))
            (λ u q. call to_lower depth m (removes u q))
            (variable_key to_lower depth s v)
            v
            r
            s
  unfolding call add_variable
  adds_fresh m v r s allowed fresh = rw (allowed, ◌>>=◌, fresh) refl

  -- A variable is removed from its registry first.
  place_after_removal :
      (set : ℕ → Option ℕ → Command) (remove : ℕ → ℕ → Command) (k : Name) (v r q : ℕ) (s t : Store)
      → (s.variable_at v).registry ≡ some q
      → remove v q s ≡ ok tt t
      → (t.variable_at v).registry ≡ none
      → place_variable to_lower depth set remove k v r s
        ≡ place_variable to_lower depth set remove k v r t
  unfolding place_variable
  place_after_removal set remove k v r q s t home removal alone =
      rw (home, ◌>>◌, ◌>>=◌, removal, alone) refl

  place_refused :
      (set : ℕ → Option ℕ → Command) (remove : ℕ → ℕ → Command) (k : Name) (v r q : ℕ) (s : Store)
      → (s.variable_at v).registry ≡ some q
      → remove v q s ≡ err illegal_operation s
      → place_variable to_lower depth set remove k v r s ≡ err illegal_operation s
  unfolding place_variable
  place_refused set remove k v r q s home refused = rw (home, ◌>>◌, ◌>>=◌, refused) refl

  -- A variable that belongs to a registry is added to another, when its removal goes through.
  moves :
      (n v r q : ℕ) (cs : List (ℕ × RegistryChange)) (s : Store)
      → let t = removed to_lower depth v q cs s in
        IsSound to_lower depth s
        → (s.variable_at v).registry ≡ some q
        → call to_lower depth (suc (suc (suc (suc n)))) (removes v q) s ≡ ok tt t
        → is_addition_allowed (s.registry_at r).restriction_level ≡ true
        → find (variable_key to_lower depth s v) (s.registry_at r).name_to_variable_map ≡ none
        → Ends to_lower depth s (call to_lower depth (suc (suc (suc (suc (suc n))))) (adds v r) s)
  unfolding variable_key
  moves n v r q cs s sound home removal allowed fresh =
      let k = variable_key to_lower depth s v in
      let t = removed to_lower depth v q cs s in
      let t_sound = removed-IsSound to_lower depth v q cs s sound home in
      let alone : (t.variable_at v).registry ≡ none =
        ap (λ (u : Variable). u.registry) (update_same s.variable_at v _) in
      let same_key : variable_key to_lower depth t v ≡ k =
        ap (λ (u : Variable). map to_lower u.name) (update_same s.variable_at v _) in
      let open_still : is_addition_allowed (t.registry_at r).restriction_level ≡ true =
        ap is_addition_allowed (
          change_registry_keeps (λ g. g.restriction_level) q (forget_twice to_lower depth v q s) s
            (λ g. refl) r)
        ∙ allowed in
      let other : q ≢ r = λ (e : q ≡ r). absurd (cc (sound.tied.kept q v home)) in
      let fresh_still : find k (t.registry_at r).name_to_variable_map ≡ none =
        ap (λ (g : Registry). find k g.name_to_variable_map)
          (update_other s.registry_at q r _ other)
        ∙ fresh in
      let (qs, path, deep) = t_sound.paths r in
      let m = suc (suc (suc (suc n))) in
      let set = λ (u : ℕ) (x : Option ℕ). call to_lower depth m (sets u x) in
      let remove = λ (u x : ℕ). call to_lower depth m (removes u x) in
      let added_cs = calls_along t (some r) none (some v) variable_added qs in
      let ends : call to_lower depth (suc m) (adds v r) s
          ≡ ok tt (added to_lower depth v r added_cs t) =
        adds_fresh m v r s allowed fresh
        ∙ place_after_removal set remove k v r q s t home removal alone
        ∙ ap (λ x. place_variable to_lower depth set remove x v r t) (sym same_key)
        ∙ sym (adds_fresh m v r t open_still (rw same_key fresh_still))
        ∙ add_variable-set_registry to_lower depth (suc (suc n)) v r qs t alone
            (rw same_key fresh_still) open_still path deep in
      rw ends (
        goes_through
          (added-IsSound to_lower depth v r added_cs t t_sound alone (rw same_key fresh_still)))

  added_when_fresh :
      (n v r : ℕ) (s : Store)
      → IsSound to_lower depth s
      → is_addition_allowed (s.registry_at r).restriction_level ≡ true
      → find (variable_key to_lower depth s v) (s.registry_at r).name_to_variable_map ≡ none
      → Ends to_lower depth s (call to_lower depth (suc (suc (suc (suc (suc n))))) (adds v r) s)
  added_when_fresh n v r s sound allowed fresh = elim (Option-cases (s.variable_at v).registry) [
    | inl alone ↦
        let (qs, path, deep) = sound.paths r in
        rw
          (add_variable-set_registry to_lower depth (suc (suc n)) v r qs s alone fresh allowed path
            deep)
          (goes_through (added-IsSound to_lower depth v r _ s sound alone fresh))
    | inr (q, home) ↦ elim (removal-cases to_lower depth n v q s sound) [
      | inl (elsewhere, e) ↦ absurd (elsewhere home)
      | inr (inl e) ↦
          let m = suc (suc (suc (suc n))) in
          rw
            (adds_fresh m v r s allowed fresh
              ∙ place_refused (λ u x. call to_lower depth m (sets u x))
                  (λ u x. call to_lower depth m (removes u x)) (variable_key to_lower depth s v) v r
                  q s home e)
            is_illegal
      | inr (inr (cs, _, e)) ↦ moves n v r q cs s sound home e allowed fresh
    ]
  ]

  adds-Ends :
      (n v r : ℕ) (s : Store)
      → IsSound to_lower depth s
      → Ends to_lower depth s (call to_lower depth (suc (suc (suc (suc (suc n))))) (adds v r) s)
  unfolding call add_variable
  adds-Ends n v r s sound =
      elim (Bool-cases (is_addition_allowed (s.registry_at r).restriction_level)) [
        | inr refused ↦ rw refused is_illegal
        | inl allowed ↦
            elim (Option-cases
              (find (variable_key to_lower depth s v) (s.registry_at r).name_to_variable_map)) [
                | inr (e, found) ↦ elim (Bool-cases (e == v)) [
                  | inl self ↦ rw (allowed, ◌>>=◌, found, self) (goes_through sound)
                  | inr other ↦ rw (allowed, ◌>>=◌, found, other) collides
                ]
                | inl fresh ↦ added_when_fresh n v r s sound allowed fresh
              ]
      ]

  -- Five calls may be nested.
  abbrev pub perform : Registration → Command
  perform (adding v r) = call to_lower depth 5 (adds v r)
  perform (removing v r) = call to_lower depth 5 (removes v r)

  abbrev pub run : List Registration → Store → Store
  run [] s = s
  run (c ∷ cs) s = run cs (store_of (perform c s))

  -- In a store where each registry lists exactly the variables that point at it, each of them once,
  -- and finds exactly these under their names in lower case, where the names of the variables are
  -- legal and the tree is no deeper than the bound, every addition and every removal of a variable
  -- ends: either without an exception, in a store of the same kind, or with an exception for an
  -- operation that is not allowed or for a name that is taken, and then it has changed nothing. Five
  -- nested calls suffice.
  pub perform-Ends :
      (c : Registration) (s : Store)
      → IsSound to_lower depth s
      → Ends to_lower depth s (perform c s)
  perform-Ends (adding v r) s sound = adds-Ends 0 v r s sound
  perform-Ends (removing v r) s sound = removes-Ends to_lower depth 1 v r s sound

  -- Whatever variables are added to registries and removed from them, each registry lists exactly
  -- the variables that point at it, each of them once, and finds exactly these under their names in
  -- lower case. This holds after every sequence of such calls, of which any may end in an exception,
  -- from a store where it holds, where the names of the variables are legal and the tree is no deeper
  -- than the bound; these two stay true as well.
  pub run-IsSound :
      (cs : List Registration) (s : Store)
      → IsSound to_lower depth s
      → IsSound to_lower depth (run cs s)
  run-IsSound [] s sound = sound
  run-IsSound (c ∷ cs) s sound =
      run-IsSound cs (store_of (perform c s))
        (Ends-IsSound to_lower depth sound (perform-Ends c s sound))
