-- ===== src/Registry/Names/Split.antt =====
-- Splitting a name at its separators and joining it again.
use ihmc_yovariables_cpp.Common.{
  ℕ, zero, suc, ◌-◌, ◌≤◌, ◌==◌, if◌then◌else◌, List, [], ◌∷◌, ◌++◌, length, ℕ_discrete, none, some,
  ◌≡◌, refl, sym, ap, ◌∙◌, arith, All, if_true, if_false, ==_ne, subst, Option-cases, inl, inr,
}
use mathlib.Core.List.{append_assoc}
use ihmc_yovariables_cpp.Registry.Names.{
  Name, separator, find_char, take, drop, split_loop, split_name, join_loop, join_names,
}

-- What lies between the separators, by recursion on the name.
abbrev pub Pieces : Type 0
Pieces = Name × List Name

abbrev pub add_char : ℕ → Pieces → Pieces
add_char c (w, ws) = if c == separator then ([], w ∷ ws) else (c ∷ w, ws)

abbrev pub pieces : Name → Pieces
pieces [] = ([], [])
pieces (c ∷ cs) = add_char c (pieces cs)

abbrev pub HasNoSeparator : Name → Type 0
HasNoSeparator s = find_char separator s ≡ none

pieces-none : (s : Name) → find_char separator s ≡ none → pieces s ≡ (s, [])
pieces-none [] h = refl
pieces-none (c ∷ cs) h = ground (arith, pieces-none cs)

pieces-some :
    (s : Name) (i : ℕ)
    → find_char separator s ≡ some i
    → pieces s ≡ (take i s, (pieces (drop (suc i) s)).0 ∷ (pieces (drop (suc i) s)).1)
pieces-some [] i h = cc
pieces-some (c ∷ cs) zero h = ground arith
pieces-some (c ∷ cs) (suc i) h = ground (arith, pieces-some cs i)

length-drop : (i : ℕ) (s : Name) → length (drop (suc i) s) ≤ length s - 1
length-drop i [] = omega arith
length-drop zero (c ∷ cs) = omega arith
length-drop (suc i) (c ∷ cs) = omega (arith, length-drop i cs)

split_loop_lem :
    (fuel : ℕ) (s : Name) → length s ≤ fuel → split_loop fuel s ≡ (pieces s).0 ∷ (pieces s).1
unfolding split_loop
split_loop_lem zero [] h = refl
split_loop_lem zero (c ∷ cs) h = absurd (omega arith)
split_loop_lem (suc fuel) s h = elim (Option-cases (find_char separator s)) [
  | inl e ↦ rw (split_loop, e) (ground (arith, pieces-none s e))
  | inr (i, e) ↦
      rw (split_loop, e)
        (ap (◌∷◌ (take i s))
            (split_loop_lem fuel (drop (suc i) s) (omega (arith, length-drop i s, h)))
          ∙ ground (arith, pieces-some s i e))
]

-- `splitName` gives the pieces between the separators, the empty ones too.
pub split_name-pieces : (s : Name) → split_name s ≡ (pieces s).0 ∷ (pieces s).1
unfolding split_name
split_name-pieces s = split_loop_lem (length s) s (omega arith)

pub join_loop_lem : (t u : Name) (ss : List Name) → join_loop (t ++ u) ss ≡ t ++ join_loop u ss
unfolding join_loop
join_loop_lem t u [] = refl
join_loop_lem t u (s ∷ ss) =
    ap (λ (w : Name). join_loop w ss)
      (ap (λ (w : Name). w ++ s) (append_assoc t u (separator ∷ []))
        ∙ append_assoc t (u ++ separator ∷ []) s)
    ∙ join_loop_lem t (u ++ separator ∷ [] ++ s) ss

join_loop-add_char :
    (c : ℕ) (p : Pieces) → join_loop (add_char c p).0 (add_char c p).1 ≡ c ∷ join_loop p.0 p.1
unfolding join_loop
join_loop-add_char c (w, ws) = elim (ℕ_discrete c separator) [
  | yes e ↦
      ap (λ (p : Pieces). join_loop p.0 p.1)
        (if_true {A = Pieces} ([], w ∷ ws) (c ∷ w, ws) (rw e refl))
      ∙ join_loop_lem (separator ∷ []) w ws
      ∙ ap (λ (x : ℕ). x ∷ join_loop w ws) (sym e)
  | no ne ↦
      ap (λ (p : Pieces). join_loop p.0 p.1)
        (if_false {A = Pieces} ([], w ∷ ws) (c ∷ w, ws) (==_ne c separator ne))
      ∙ join_loop_lem (c ∷ []) w ws
]

join_pieces : (s : Name) → join_loop (pieces s).0 (pieces s).1 ≡ s
unfolding join_loop
join_pieces [] = refl
join_pieces (c ∷ cs) = join_loop-add_char c (pieces cs) ∙ ap (◌∷◌ c) (join_pieces cs)

pieces_append :
    (s t : Name) → HasNoSeparator s → pieces (s ++ separator ∷ t) ≡ (s, (pieces t).0 ∷ (pieces t).1)
pieces_append [] t h = refl
pieces_append (c ∷ cs) t h = ground (arith, pieces_append cs t)

pieces-join_loop :
    (s : Name) (ss : List Name)
    → HasNoSeparator s
    → All HasNoSeparator ss
    → pieces (join_loop s ss) ≡ (s, ss)
unfolding join_loop
pieces-join_loop s [] h k = pieces-none s h
pieces-join_loop s (t ∷ ts) h k =
    ap pieces (
      ap (λ (w : Name). join_loop w ts) (append_assoc s (separator ∷ []) t)
      ∙ join_loop_lem s (separator ∷ t) ts
      ∙ ap (λ (w : Name). s ++ w) (join_loop_lem (separator ∷ []) t ts))
    ∙ pieces_append s (join_loop t ts) h
    ∙ ap (λ (p : Pieces). (s, p.0 ∷ p.1)) (pieces-join_loop t ts k.0 k.1)

-- Every name comes back when what `splitName` gives is joined.
pub join_names-split_name : (s : Name) → join_names (split_name s) ≡ s
unfolding join_names
join_names-split_name s = rw split_name-pieces (join_pieces s)

-- Sub-names that have no separator come back when their join is split, if there is at least one.
pub split_name-join_names :
    (s : Name) (ss : List Name)
    → HasNoSeparator s
    → All HasNoSeparator ss
    → split_name (join_names (s ∷ ss)) ≡ s ∷ ss
unfolding join_names
split_name-join_names s ss h k =
    split_name-pieces (join_loop s ss) ∙ ap (λ (p : Pieces). p.0 ∷ p.1) (pieces-join_loop s ss h k)

add_char-clean :
    (c : ℕ) (p : Pieces)
    → HasNoSeparator p.0
    → All HasNoSeparator p.1
    → HasNoSeparator (add_char c p).0 × All HasNoSeparator (add_char c p).1
add_char-clean c (w, ws) h k = elim (ℕ_discrete c separator) [
  | yes e ↦
      subst (λ (p : Pieces). HasNoSeparator p.0 × All HasNoSeparator p.1)
        (sym (if_true {A = Pieces} ([], w ∷ ws) (c ∷ w, ws) (rw e refl))) (refl, (h, k))
  | no ne ↦
      subst (λ (p : Pieces). HasNoSeparator p.0 × All HasNoSeparator p.1)
        (sym (if_false {A = Pieces} ([], w ∷ ws) (c ∷ w, ws) (==_ne c separator ne)))
        (ground (arith, h), k)
]

pieces-clean : (s : Name) → HasNoSeparator (pieces s).0 × All HasNoSeparator (pieces s).1
pieces-clean [] = (refl, tt)
pieces-clean (c ∷ cs) = let (h, k) = pieces-clean cs in add_char-clean c (pieces cs) h k

-- No sub-name that `splitName` gives has a separator.
pub split_name-HasNoSeparator : (s : Name) → All HasNoSeparator (split_name s)
split_name-HasNoSeparator s =
    subst (All HasNoSeparator) (sym (split_name-pieces s)) (pieces-clean s)
