-- ===== src/Buffer/Array/Copy.antt =====
-- What the copy loops of an array write.
use ihmc_yovariables_cpp.Common.{
  ℕ, ℤ, pos, zero, suc, ◌+◌, ◌-◌, ◌≤◌, ◌<◌, ltb, leb, ◌&&◌, if◌then◌else◌, List, length, get_elem?,
  set, some, ◌≡◌, refl, ap, ◌∙◌, arith, length-set, get_elem?-set, get_elem?-some, ℕ_discrete,
}
use ihmc_yovariables_cpp.Buffer.Array.{get, set_at, copy_loop, fill_loop}

module _ {ℓ} {A : Type ℓ} where
  -- The array `r` is `new` with the places lo - off, …, lo - off + n - 1 written.
  pub record IsCopied (old : List A) (s : ℕ → ℕ) (off lo n : ℕ) (new r : List A) : Type ℓ where
    pub size : length r ≡ length new
    pub elems :
        (j : ℕ)
        → get_elem? r j ≡ (
            if leb lo (j + off) && ltb (j + off) (lo + n)
            then get_elem? old (s (j + off))
            else get_elem? new j)

  copy_step :
      (old : List A) (s : ℕ → ℕ) (off lo n : ℕ) (new : List A) (v : A) (r : List A)
      → off ≤ lo
      → lo - off < length new
      → get_elem? old (s lo) ≡ some v
      → IsCopied old s off (lo + 1) n (set new (lo - off) v) r
      → IsCopied old s off lo (suc n) new r
  copy_step old s off lo n new v r ho hl e c = record {
    size = c.size ∙ length-set new (lo - off) v;
    elems = λ j. elim (ℕ_discrete (j + off) lo) [
      | yes q ↦ ground (arith, c.elems j, get_elem?-set new (lo - off) j v hl, ap s q)
      | no q ↦ ground (arith, c.elems j, get_elem?-set new (lo - off) j v hl)
    ];
  }

  pub get-pos : (xs : List A) (i : ℕ) (z : ℤ) → z ≡ pos i → get xs z ≡ get_elem? xs i
  unfolding get
  get-pos xs i z e = rw e

  pub set_at-pos :
      (xs : List A) (i : ℕ) (z : ℤ) (v : A)
      → z ≡ pos i
      → i < length xs
      → set_at xs z v ≡ some (set xs i v)
  unfolding set_at
  set_at-pos xs i z v e h = rw e (ground arith)

  -- A copy loop whose sources `src i` and targets `dst i` are in bounds ends, with `dst i` holding
  -- the element of `src i` and every other place as it was.
  pub copy_loop-IsCopied :
      (old : List A) (src dst : ℕ → ℤ) (s : ℕ → ℕ) (off lo n : ℕ) (new : List A)
      → ((i : ℕ) → lo ≤ i → i < lo + n → (src i ≡ pos (s i)) × (s i < length old))
      → ((i : ℕ) → lo ≤ i → i < lo + n → dst i ≡ pos (i - off))
      → off ≤ lo
      → lo + n ≤ length new + off
      → (r : List A) × (copy_loop old src dst lo n new ≡ some r) × IsCopied old s off lo n new r
  unfolding copy_loop
  copy_loop-IsCopied old src dst s off lo zero new hs hd ho hn =
      (new, refl, record { size = refl; elems = λ j. ground arith })
  copy_loop-IsCopied old src dst s off lo (suc n) new hs hd ho hn =
      let here = hs lo (omega arith) (omega arith) in
      let (v, e) = get_elem?-some old (s lo) here.1 in
      let new' = set new (lo - off) v in
      let (r, run, c) =
        copy_loop-IsCopied old src dst s off (lo + 1) n new'
          (λ i p q. hs i (omega arith) (omega arith)) (λ i p q. hd i (omega arith) (omega arith))
          (omega arith) (omega (arith, length-set new (lo - off) v)) in
      (
        r,
        rw (get-pos old (s lo) (src lo) here.0 ∙ e) (
            rw
              (set_at-pos new (lo - off) (dst lo) v (hd lo (omega arith) (omega arith))
                (omega arith))
              run),
        copy_step old s off lo n new v r ho (omega arith) e c,
      )

  -- A fill loop in bounds ends, with the value in its places and every other place as it was.
  pub fill_loop_lem :
      (v : A) (lo n : ℕ) (new : List A)
      → lo + n ≤ length new
      → (r : List A) × (fill_loop v lo n new ≡ some r)
        × (length r ≡ length new)
        × ((j : ℕ)
            → get_elem? r j ≡ (if leb lo j && ltb j (lo + n) then some v else get_elem? new j))
  unfolding fill_loop
  fill_loop_lem v lo zero new h = (new, refl, refl, λ j. ground arith)
  fill_loop_lem v lo (suc n) new h =
      let new' = set new lo v in
      let (r, run, size, elems) =
        fill_loop_lem v (lo + 1) n new' (omega (arith, length-set new lo v)) in
      (
        r,
        rw (set_at-pos new lo (pos lo) v refl (omega arith)) run,
        size ∙ length-set new lo v,
        λ j. ground (arith, elems j, get_elem?-set new lo j v),
      )
