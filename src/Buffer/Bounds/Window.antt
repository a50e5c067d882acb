-- ===== src/Buffer/Bounds/Window.antt =====
-- Which values the bounds of a window account for.
use ihmc_yovariables_cpp.Common.{
  ℕ, pos, zero, suc, ◌+ℤ◌, ◌-◌, ◌+◌, ◌≤◌, ◌<◌, true, List, length, set, get_elem?, some, ◌>>=◌,
  Doubles, IsOrdered, ◌≡◌, ◌≢◌, ◌⊎◌, inl, inr, refl, sym, ap, ◌∙◌, arith, get_elem?-set, add-pos,
  ℕ_discrete, dec_lt, ==_ne, length-set, fun_ext, lt→ltb, le→ltb, get_elem?-lt, >>=-eq-some, subst,
  eq_of_some,
}
use ihmc_yovariables_cpp.Buffer.Array.{get}
use ihmc_yovariables_cpp.Buffer.Bounds.{Bounds, take_in, scan, scan_interval, computed}

module _ {D : Type 0} (d : Doubles D) where
  -- `v` lies between the two values.
  abbrev pub Between : D → D × D → Type 0
  Between v (l, u) = (d.le l v ≡ true) × (d.le v u ≡ true)

module _ {D : Type 0} (d : Doubles D) where
  scan_interval-straight :
      (buf : List D) (s e : ℕ) (acc : D × D)
      → s < e
      → scan_interval d (pos s) (pos e) buf acc ≡ scan d buf (pos s) (e - s) acc
  unfolding scan_interval
  scan_interval-straight buf s e acc h =
      rw (lt→ltb (s + 0) (e + 0) (omega arith)) (ap (λ n. scan d buf (pos s) n acc) (omega arith))

  scan_interval-round :
      (buf : List D) (s e : ℕ) (acc : D × D)
      → e ≤ s
      → scan_interval d (pos s) (pos e) buf acc
        ≡ (scan d buf (pos s) (length buf - s) acc >>= scan d buf (pos 0) e)
  unfolding scan_interval
  scan_interval-round buf s e acc h = rw (le→ltb (e + 0) (s + 0) (omega arith)) refl

module _ {D : Type 0} (d : Doubles D) (o : IsOrdered d) where
  take_in_self : (v : D) (acc : D × D) → Between d v (take_in d v acc)
  unfolding take_in
  take_in_self v (l, u) = ground (arith, o.le_refl v, o.le_of_not_lt v l, o.le_of_not_lt u v)

  take_in-Between : (v w : D) (acc : D × D) → Between d w acc → Between d w (take_in d v acc)
  unfolding take_in
  take_in-Between v w (l, u) h =
      ground (arith, o.le_of_lt v l, o.le_of_lt u v, o.le_trans v l w, o.le_trans w u v)

  -- One round of a scan, at an index that is not negative.
  scan-step :
      (buf : List D) (i n : ℕ) (acc r : D × D)
      → scan d buf (pos i) (suc n) acc ≡ some r
      → (v : D) × (get_elem? buf i ≡ some v)
        × (scan d buf (pos (i + 1)) n (take_in d v acc) ≡ some r)
  unfolding scan get
  scan-step buf i n acc r e =
      let (v, g, run) =
        >>=-eq-some (get buf (pos i)) (λ v. scan d buf (pos i +ℤ pos 1) n (take_in d v acc)) e in
      (v, g, subst (λ z. scan d buf z n (take_in d v acc) ≡ some r) (add-pos i 1) run)

  scan-Between :
      (buf : List D) (i n : ℕ) (acc r : D × D) (w : D)
      → scan d buf (pos i) n acc ≡ some r
      → Between d w acc
      → Between d w r
  scan-Between buf i zero acc r w e h = unfold scan in subst (Between d w) (eq_of_some e) h
  scan-Between buf i (suc n) acc r w e h =
      let (v, g, run) = scan-step buf i n acc r e in
      scan-Between buf (i + 1) n (take_in d v acc) r w run (take_in-Between v w acc h)

  -- A scan of `n` places from `i` on accounts for each of them.
  scan-covers :
      (buf : List D) (i n j : ℕ) (acc r : D × D) (w : D)
      → scan d buf (pos i) n acc ≡ some r
      → i ≤ j
      → j < i + n
      → get_elem? buf j ≡ some w
      → Between d w r
  scan-covers buf i zero j acc r w e lo hi h = absurd (omega arith)
  scan-covers buf i (suc n) j acc r w e lo hi h =
      let (v, g, run) = scan-step buf i n acc r e in
      elim (ℕ_discrete i j) [
        | yes q ↦ scan-Between buf (i + 1) n (take_in d v acc) r w run (
            let same : v ≡ w = eq_of_some (sym g ∙ ap (get_elem? buf) q ∙ h) in
            subst (λ t. Between d t (take_in d v acc)) same (take_in_self v acc))
        | no q ↦ scan-covers buf (i + 1) n j (take_in d v acc) r w run (omega arith) (omega arith) h
      ]

  -- Which places `computed` looks at: [start, end) for a start below the end, else [start, size)
  -- and [0, end).
  abbrev pub IsScanned : ℕ → ℕ → ℕ → Type 0
  IsScanned s e j = ((s ≤ j) × (j < e)) ⊎ ((e ≤ s) × (s ≤ j)) ⊎ ((e ≤ s) × (j < e))

  scan_interval-covers :
      (buf : List D) (s e j : ℕ) (acc r : D × D) (w : D)
      → scan_interval d (pos s) (pos e) buf acc ≡ some r
      → IsScanned s e j
      → get_elem? buf j ≡ some w
      → Between d w r
  scan_interval-covers buf s e j acc r w run k h = elim (dec_lt s e) [
    | yes lt ↦
        let run' : scan d buf (pos s) (e - s) acc ≡ some r =
          sym (scan_interval-straight d buf s e acc lt) ∙ run in
        scan-covers buf s (e - s) j acc r w run' (omega arith) (omega arith) h
    | no ge ↦
        let (mid, first, second) =
          >>=-eq-some (scan d buf (pos s) (length buf - s) acc) (scan d buf (pos 0) e)
            (sym (scan_interval-round d buf s e acc (omega arith)) ∙ run) in
        elim (dec_lt j e) [
          | yes lt ↦ scan-covers buf 0 e j mid r w second (omega arith) (omega arith) h
          | no far ↦ scan-Between buf 0 e mid r w second (
              scan-covers buf s (length buf - s) j acc mid w first (omega arith)
                (omega (arith, get_elem?-lt buf j w h)) h)
        ]
  ]

  -- The bounds of a window of a buffer, on values none of which is NaN, lie on either side of every
  -- value at an index that the window's loops reach.
  pub computed_covers :
      (buf : List D) (s e j : ℕ) (b : Bounds D) (w : D)
      → computed d (pos s) (pos e) buf ≡ some b
      → IsScanned s e j
      → get_elem? buf j ≡ some w
      → (d.le b.lower_bound w ≡ true) × (d.le w b.upper_bound ≡ true)
  unfolding computed
  computed_covers buf s e j b w run k h =
      let ((l, u), found, made) =
        >>=-eq-some (scan_interval d (pos s) (pos e) buf (d.infinity, d.neg_infinity)) _ run in
      let lies = scan_interval-covers buf s e j _ (l, u) w found k h in
      subst (λ (t : Bounds D). Between d w (t.lower_bound, t.upper_bound)) (eq_of_some made) lies

module _ {D : Type 0} (d : Doubles D) where
  scan-set :
      (buf : List D) (k i n : ℕ) (v : D) (acc : D × D)
      → k < length buf
      → (k < i) ⊎ (i + n ≤ k)
      → scan d (set buf k v) (pos i) n acc ≡ scan d buf (pos i) n acc
  unfolding scan get
  scan-set buf k i zero v acc h far = refl
  scan-set buf k i (suc n) v acc h far =
      rw (get_elem?-set buf k i v h, ==_ne k i (omega arith))
        (ap (◌>>=◌ (get_elem? buf i))
          (fun_ext λ w. rw add-pos (scan-set buf k (i + 1) n v (take_in d w acc) h (omega arith))))

  -- The bounds of a window [start, end] do not depend on the value at its end, unless the start is
  -- the end.
  pub computed-ignores_end :
      (buf : List D) (s e : ℕ) (v : D)
      → e < length buf
      → s ≢ e
      → computed d (pos s) (pos e) (set buf e v) ≡ computed d (pos s) (pos e) buf
  unfolding computed
  computed-ignores_end buf s e v h ne = elim (dec_lt s e) [
    | yes lt ↦
        rw (scan_interval-straight d (set buf e v) s e _ lt, scan_interval-straight d buf s e _ lt)
          (rw (scan-set buf e s (e - s) v _ h (inr (omega arith))))
    | no ge ↦
        rw
          (
            scan_interval-round d (set buf e v) s e _ (omega arith),
            scan_interval-round d buf s e _ (omega arith),
            length-set,
            scan-set buf e s (length buf - s) v _ h (inl (omega arith)),
          )
          (rw (fun_ext λ acc. scan-set buf e 0 e v acc h (inr (omega arith))))
  ]
