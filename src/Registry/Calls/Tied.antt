-- ===== src/Registry/Calls/Tied.antt =====
-- The variables of the registries against their maps and the variables' pointers.
use ihmc_yovariables_cpp.Common.{
  ℕ, if◌then◌else◌, false, List, [], ◌∷◌, ◌++◌, Option, none, some, ◌≡◌, ◌≢◌, ◌⊎◌, refl, sym, ap,
  ◌∙◌, arith, ℕ_discrete, Bool-cases, inl, inr, ==_ne, ==_refl,
}
use ihmc_yovariables_cpp.Registry.Names.{Name, eq_name}
use ihmc_yovariables_cpp.Registry.Namespace.Valid.{eq_name_refl, eq_name→eq}
use ihmc_yovariables_cpp.Registry.VariableList.{erase_all}
use ihmc_yovariables_cpp.Registry.VariableList.Counts.{count, count-append}
use ihmc_yovariables_cpp.Registry.Objects.{AddressMap, find, insert, erase, is_at}
use ihmc_yovariables_cpp.Registry.Objects.Update.{
  find-insert, find-insert_other, find-erase, find-erase_other,
}

-- What the registries hold, by their variables and maps, and where the variables belong.
pub record Holdings : Type 0 where
  pub variables : ℕ → List ℕ
  pub maps : ℕ → AddressMap
  pub home : ℕ → Option ℕ
  pub key : ℕ → Name

-- A registry lists each variable that points at it once and no other, and finds exactly these in
-- its map, each under its own name.
pub record IsTied (h : Holdings) : Type 0 where
  pub listed : (r v : ℕ) → count v (h.variables r) ≡ (if is_at (h.home v) r then 1 else 0)
  pub found :
      (r v : ℕ) (k : Name) → find k (h.maps r) ≡ some v → (h.key v ≡ k) × (h.home v ≡ some r)
  pub kept : (r v : ℕ) → h.home v ≡ some r → find (h.key v) (h.maps r) ≡ some v

pub count-erase_all : (v : ℕ) (us : List ℕ) → count v (erase_all v us) ≡ 0
count-erase_all v [] = refl
count-erase_all v (u ∷ us) = ground (arith, count-erase_all v us)

pub count-erase_all_other : (v u : ℕ) (us : List ℕ) → v ≢ u → count u (erase_all v us) ≡ count u us
count-erase_all_other v u [] h = refl
count-erase_all_other v u (x ∷ us) h = ground (arith, count-erase_all_other v u us h)

same_home : {o : Option ℕ} {a b : ℕ} → o ≡ some a → o ≡ some b → a ≡ b
same_home p q = cc

elsewhere :
    (o : Option ℕ) (r q : ℕ) → o ≡ some r → r ≢ q → ◌≡◌ {A = ℕ} (if is_at o q then 1 else 0) 0
elsewhere o r q e h = rw (e, ==_ne r q h) refl

nowhere : (o : Option ℕ) (q : ℕ) → o ≡ none → ◌≡◌ {A = ℕ} (if is_at o q then 1 else 0) 0
nowhere o q e = rw e refl

not_same_name : {k j : Name} → k ≢ j → eq_name k j ≡ false
not_same_name {k} {j} h = elim (Bool-cases (eq_name k j)) [
  | inl e ↦ absurd (h (eq_name→eq k j e))
  | inr e ↦ e
]

-- Two names are equal, or differ in the sense of the test.
eq_name_cases : (k j : Name) → (k ≡ j) ⊎ ((eq_name k j ≡ false) × (k ≢ j))
eq_name_cases k j = elim (Bool-cases (eq_name k j)) [
  | inl e ↦ inl (eq_name→eq k j e)
  | inr e ↦ inr (e, λ g. absurd (cc (eq_name_refl k)))
]

-- A change that concerns one variable and one registry.
pub record Concerns (v r : ℕ) (h h' : Holdings) : Type 0 where
  pub other_variables : (q : ℕ) → r ≢ q → h'.variables q ≡ h.variables q
  pub other_maps : (q : ℕ) → r ≢ q → h'.maps q ≡ h.maps q
  pub other_homes : (u : ℕ) → v ≢ u → h'.home u ≡ h.home u
  pub same_keys : (u : ℕ) → h'.key u ≡ h.key u

module _ (v r : ℕ) (h h' : Holdings) (c : Concerns v r h h') (t : IsTied h) where
  -- A registry forgets a variable that pointed at it.
  pub IsTied-forgotten :
      h.home v ≡ some r
      → h'.variables r ≡ erase_all v (erase_all v (h.variables r))
      → h'.maps r ≡ erase (h.key v) (erase (h.key v) (h.maps r))
      → h'.home v ≡ none
      → IsTied h'
  IsTied-forgotten at variables maps home = record {
    listed = λ q u. elim (ℕ_discrete r q) [
      | yes e ↦ elim (ℕ_discrete v u) [
        | yes f ↦ cc (count-erase_all v (erase_all v (h.variables r)), nowhere (h'.home v) r home)
        | no nf ↦ cc (
          count-erase_all_other v u (erase_all v (h.variables r)) nf,
          count-erase_all_other v u (h.variables r) nf,
          t.listed r u,
          c.other_homes u nf,
        )
      ]
      | no ne ↦ elim (ℕ_discrete v u) [
        | yes f ↦ cc (
          c.other_variables q ne,
          t.listed q v,
          elsewhere (h.home v) r q at ne,
          nowhere (h'.home v) q home,
        )
        | no nf ↦ cc (c.other_variables q ne, t.listed q u, c.other_homes u nf)
      ]
    ];
    found = λ q u k e. elim (ℕ_discrete r q) [
      | yes f ↦ elim (eq_name_cases (h.key v) k) [
        | inl same ↦ absurd (cc (find-erase (h.key v) (erase (h.key v) (h.maps r))))
        | inr other ↦
            let before : find k (h.maps r) ≡ some u = cc (
              find-erase_other (h.key v) k (erase (h.key v) (h.maps r)) other.0,
              find-erase_other (h.key v) k (h.maps r) other.0,
            ) in
            let (named, homed) = t.found r u k before in
            let differs : v ≢ u = λ (g : v ≡ u). other.1 (cc) in
            (c.same_keys u ∙ named, cc (c.other_homes u differs))
      ]
      | no ne ↦
          let (named, homed) = t.found q u k (ap (find k) (sym (c.other_maps q ne)) ∙ e) in
          let differs : v ≢ u = λ (g : v ≡ u). ne (same_home at (ap h.home g ∙ homed)) in
          (c.same_keys u ∙ named, c.other_homes u differs ∙ homed)
    ];
    kept = λ q u e.
        let differs : v ≢ u = λ (g : v ≡ u). absurd (cc) in
        let before = t.kept q u (sym (c.other_homes u differs) ∙ e) in
        elim (ℕ_discrete r q) [
          | yes f ↦
              let apart : h.key v ≢ h.key u =
                λ (g : h.key v ≡ h.key u). differs (cc (t.kept r v at)) in
              cc (
                find-erase_other (h.key v) (h.key u) (erase (h.key v) (h.maps r))
                    (not_same_name apart),
                find-erase_other (h.key v) (h.key u) (h.maps r) (not_same_name apart),
                c.same_keys u,
              )
          | no ne ↦ cc (c.other_maps q ne, c.same_keys u)
        ];
  }

  -- A registry gets a variable that pointed at none.
  pub IsTied-held :
      h.home v ≡ none
      → find (h.key v) (h.maps r) ≡ none
      → h'.variables r ≡ h.variables r ++ v ∷ []
      → h'.maps r ≡ insert (h.key v) v (h.maps r)
      → h'.home v ≡ some r
      → IsTied h'
  IsTied-held alone fresh variables maps home = record {
    listed = λ q u. elim (ℕ_discrete r q) [
      | yes e ↦ elim (ℕ_discrete v u) [
        | yes f ↦
            let none_yet : count v (h.variables r) ≡ 0 =
              t.listed r v ∙ nowhere (h.home v) r alone in
            let one : count v (h'.variables r) ≡ 1 =
              ap (count v) variables
              ∙ count-append v v (h.variables r)
              ∙ ground (arith, none_yet) in
            let here : ◌≡◌ {A = ℕ} (if is_at (h'.home v) r then 1 else 0) 1 =
              rw (home, ==_refl r) refl in
            cc (one, here)
        | no nf ↦
            let as_before : count u (h'.variables r) ≡ count u (h.variables r) =
              ap (count u) variables
              ∙ count-append u v (h.variables r)
              ∙ ground (arith, ==_ne v u nf) in
            cc (as_before, t.listed r u, c.other_homes u nf)
      ]
      | no ne ↦ elim (ℕ_discrete v u) [
        | yes f ↦ cc (
          c.other_variables q ne,
          t.listed q v,
          nowhere (h.home v) q alone,
          elsewhere (h'.home v) r q home ne,
        )
        | no nf ↦ cc (c.other_variables q ne, t.listed q u, c.other_homes u nf)
      ]
    ];
    found = λ q u k e. elim (ℕ_discrete r q) [
      | yes f ↦ elim (eq_name_cases (h.key v) k) [
        | inl same ↦
            let it : v ≡ u = cc (find-insert (h.key v) v (h.maps r)) in (cc (c.same_keys v), cc)
        | inr other ↦
            let before : find k (h.maps r) ≡ some u =
              cc (find-insert_other (h.key v) k v (h.maps r) other.0) in
            let (named, homed) = t.found r u k before in
            let differs : v ≢ u = λ (g : v ≡ u). other.1 (cc) in
            (c.same_keys u ∙ named, cc (c.other_homes u differs))
      ]
      | no ne ↦
          let (named, homed) = t.found q u k (ap (find k) (sym (c.other_maps q ne)) ∙ e) in
          let differs : v ≢ u = λ (g : v ≡ u). absurd (cc) in
          (c.same_keys u ∙ named, c.other_homes u differs ∙ homed)
    ];
    kept = λ q u e. elim (ℕ_discrete v u) [
      | yes f ↦
          let there : r ≡ q = same_home home (ap h'.home f ∙ e) in
          cc (find-insert (h.key v) v (h.maps r), c.same_keys v)
      | no nf ↦
          let before = t.kept q u (sym (c.other_homes u nf) ∙ e) in
          elim (ℕ_discrete r q) [
            | yes f ↦
                let apart : h.key v ≢ h.key u = λ (g : h.key v ≡ h.key u). absurd (cc) in
                cc (
                  find-insert_other (h.key v) (h.key u) v (h.maps r) (not_same_name apart),
                  c.same_keys u,
                )
            | no ne ↦ cc (c.other_maps q ne, c.same_keys u)
          ]
    ];
  }
