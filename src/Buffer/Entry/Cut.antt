-- ===== src/Buffer/Entry/Cut.antt =====
-- `cutBuffer` of an entry.
use ihmc_yovariables_cpp.Common.{
  ℕ, ℤ, pos, zero, suc, ◌+◌, ◌-◌, ◌≤◌, ◌<◌, ◌+ℤ◌, ◌-ℤ◌, ltb_ℤ, eqb_ℤ, add-pos, sub-pos, int_laws,
  ltb, if◌then◌else◌, false, ◌||◌, List, length, length-replicate, replicate, get_elem?,
  get_elem?-ext, get_elem?-some, set, length-set, Option-cases, Option, none, some, ◌≡◌, refl, sym,
  ap, ◌∙◌, arith, dec_lt, inl, inr, Doubles,
}
use native.Mathlib.Nat.{add-zero}
use ihmc_yovariables_cpp.Buffer.Array.{get, set_at, new_array, copy_loop}
use ihmc_yovariables_cpp.Buffer.Array.Copy.{set_at-pos, copy_loop-IsCopied}
use ihmc_yovariables_cpp.Buffer.Entry.{
  Entry, size, swap_data, compute_buffer_size_after_cut, cut_buffer,
}

cut_width : (s t : ℕ) → s ≤ t → pos t -ℤ pos s +ℤ pos 1 ≡ pos (t - s + 1)
cut_width s t h = omega int_laws

pub cut_size :
    (s t n : ℕ)
    → s ≤ t
    → t < n
    → compute_buffer_size_after_cut (pos s) (pos t) (pos n) ≡ pos (n - (t - s + 1))
unfolding compute_buffer_size_after_cut
cut_size s t n h lt = rw (cut_width s t h) (sub-pos n (t - s + 1) (omega arith))

cut_guards :
    (s t n : ℕ)
    → s ≤ t
    → t ≤ n
    → (ltb_ℤ (pos t) (pos s) ≡ false) × ((ltb_ℤ (pos s) (pos 0) || ltb_ℤ (pos n) (pos t)) ≡ false)
cut_guards s t n h lt = ground arith

overrun_size :
    (s n : ℕ) → 1 ≤ s → s ≤ n → compute_buffer_size_after_cut (pos s) (pos n) (pos n) ≡ pos (s - 1)
unfolding compute_buffer_size_after_cut
overrun_size s n h lt =
    rw (cut_width s n lt) (sub-pos n (n - s + 1) (omega arith) ∙ ap pos (omega arith))

not_emptied :
    (s n : ℕ) → 2 ≤ s → (if eqb_ℤ (pos (s - 1)) (pos 0) then pos n else pos (s - 1)) ≡ pos (s - 1)
not_emptied s n h = ground arith

module _ {D : Type 0} (d : Doubles D) where
  -- The two loops of `cutBuffer`, into an array of `m` zeros.
  cut_loops :
      (old : List D) (s t m : ℕ)
      → s ≤ t
      → t < length old
      → length old ≤ m + (t - s + 1)
      → (front xs : List D) × (copy_loop old pos pos 0 s (replicate m d.zero_value) ≡ some front)
        × (copy_loop old pos (λ i. pos i -ℤ pos (t - s + 1)) (t + 1) (length old - (t + 1)) front
            ≡ some xs)
        × (length xs ≡ m)
        × ((j : ℕ)
            → get_elem? xs j ≡ (
                if ltb j s
                then get_elem? old j
                else if ltb (j + (t - s + 1)) (length old)
                then get_elem? old (j + (t - s + 1))
                else get_elem? (replicate m d.zero_value) j))
  cut_loops old s t m h lt room =
      let fresh = replicate m d.zero_value in
      let w = t - s + 1 in
      let (front, run, c) =
        copy_loop-IsCopied old pos pos (λ i. i) 0 0 s fresh (λ i p q. (refl, omega arith))
          (λ i p q. ap pos (omega arith)) (omega arith)
          (omega (arith, length-replicate m d.zero_value)) in
      let (xs, run', c') =
        copy_loop-IsCopied old pos (λ i. pos i -ℤ pos w) (λ i. i) w (t + 1) (length old - (t + 1))
          front (λ i p q. (refl, omega arith)) (λ i p q. sub-pos i w (omega arith)) (omega arith)
          (omega (arith, c.size, length-replicate m d.zero_value)) in
      (
        front,
        xs,
        run,
        run',
        c'.size ∙ c.size ∙ length-replicate m d.zero_value,
        λ j. ground (arith, c'.elems j, c.elems j, ap (get_elem? old) (add-zero j)),
      )

  -- The value that place `j` holds after the interval [s, t] is cut out.
  abbrev pub without : List D → ℕ → ℕ → ℕ → Option D
  without old s t j = if ltb j s then get_elem? old j else get_elem? old (j + (t - s + 1))

  cut_run :
      (e : Entry D) (s t m : ℕ) (front xs : List D)
      → s ≤ t
      → t < length e.buffer_data
      → let old = e.buffer_data in
        let n = compute_buffer_size_after_cut (pos s) (pos t) (size old) in
        (if eqb_ℤ n (pos 0) then size old else n) ≡ pos m
        → copy_loop old pos pos 0 s (replicate m d.zero_value) ≡ some front
        → copy_loop old pos (λ i. pos i -ℤ pos (t - s + 1)) (t + 1) (length old - (t + 1)) front
          ≡ some xs
        → cut_buffer d (pos s) (pos t) e ≡ some (size xs, swap_data xs e)
  unfolding cut_buffer new_array
  cut_run e s t m front xs h lt em run run' =
      let g = cut_guards s t (length e.buffer_data) h (omega arith) in
      rw (g.0, g.1, em, run, cut_width s t h, add-pos, run') refl

  -- For an interval [s, t] within the buffer that is not all of it, `cutBuffer` returns the size less
  -- the interval's length and leaves exactly the values outside the interval, in their order.
  pub cut_buffer-keeps :
      (e : Entry D) (s t : ℕ)
      → s ≤ t
      → t < length e.buffer_data
      → t - s + 1 < length e.buffer_data
      → let m = length e.buffer_data - (t - s + 1) in
        (xs : List D) × (cut_buffer d (pos s) (pos t) e ≡ some (pos m, swap_data xs e))
        × (length xs ≡ m)
        × ((j : ℕ) → j < m → get_elem? xs j ≡ without e.buffer_data s t j)
  cut_buffer-keeps e s t h lt some_left =
      let old = e.buffer_data in
      let n = length old in
      let m = n - (t - s + 1) in
      let (front, xs, run, run', len, elems) = cut_loops old s t m h lt (omega arith) in
      (
        xs,
        cut_run e s t m front xs h lt (rw (cut_size s t n h lt) (ground arith)) run run'
            ∙ ap (λ k. some (pos k, swap_data xs e)) len,
        len,
        λ j hj. ground (arith, elems j),
      )

  -- Cutting the whole buffer keeps its size and leaves every value zero.
  pub cut_buffer-whole :
      (e : Entry D) (t : ℕ)
      → t + 1 ≡ length e.buffer_data
      → cut_buffer d (pos 0) (pos t) e
        ≡ some (size e.buffer_data, swap_data (replicate (length e.buffer_data) d.zero_value) e)
  cut_buffer-whole e t whole =
      let old = e.buffer_data in
      let n = length old in
      let (front, xs, run, run', len, elems) =
        cut_loops old 0 t n (omega arith) (omega arith) (omega arith) in
      let blank : xs ≡ replicate n d.zero_value =
        get_elem?-ext xs (replicate n d.zero_value) (len ∙ sym (length-replicate n d.zero_value))
          λ j hj. ground (arith, elems j) in
      cut_run e 0 t n front xs (omega arith) (omega arith)
        (rw (cut_size 0 t n (omega arith) (omega arith)) (ground arith)) run run'
      ∙ ap (λ k. some (pos k, swap_data xs e)) len
      ∙ ap (λ ys. some (pos n, swap_data ys e)) blank

  set_at-overrun : (xs : List D) (i : ℕ) (v : D) → length xs ≤ i → set_at xs (pos i) v ≡ none
  unfolding set_at
  set_at-overrun xs i v h = ground arith

  -- A loop that copies more places than the new array has faults.
  copy_loop-overrun :
      (old : List D) (src : ℕ → ℤ) (lo n : ℕ) (new : List D)
      → lo ≤ length new
      → length new < lo + n
      → copy_loop old src pos lo n new ≡ none
  unfolding copy_loop
  copy_loop-overrun old src lo zero new h long = absurd (omega arith)
  copy_loop-overrun old src lo (suc n) new h long = elim (Option-cases (get old (src lo))) [
    | inl e ↦ rw e refl
    | inr (v, e) ↦ elim (dec_lt lo (length new)) [
      | yes lt ↦
          rw (e, set_at-pos new lo (pos lo) v refl lt)
            (copy_loop-overrun old src (lo + 1) n (set new lo v)
              (omega (arith, length-set new lo v)) (omega (arith, length-set new lo v)))
      | no ge ↦ rw (e, set_at-overrun new lo v (omega arith)) refl
    ]
  ]

  -- The guard lets an end pass that is the size itself. For a start `s` from 2 on the new array then
  -- has `s - 1` places; the first loop fills all of these with the values before the interval and goes
  -- on to write the value at `s - 1`, which is outside the array; and `cutBuffer` gives no result.
  pub cut_buffer-overrun :
      (e : Entry D) (s : ℕ)
      → 2 ≤ s
      → s ≤ length e.buffer_data
      → let old = e.buffer_data in
        (new front : List D) × (v : D) × (compute_buffer_size_after_cut
            (pos s)
            (size old)
            (size old)
          ≡ pos (s - 1))
        × (new_array d.zero_value (pos (s - 1)) ≡ some new)
        × (copy_loop old pos pos 0 (s - 1) new ≡ some front)
        × (length front ≡ s - 1)
        × (get_elem? old (s - 1) ≡ some v)
        × (set_at front (pos (s - 1)) v ≡ none)
        × (cut_buffer d (pos s) (size old) e ≡ none)
  unfolding cut_buffer new_array
  cut_buffer-overrun e s h lt =
      let old = e.buffer_data in
      let n = length old in
      let new = replicate (s - 1) d.zero_value in
      let g = cut_guards s n n lt (omega arith) in
      let room : length new ≡ s - 1 = length-replicate (s - 1) d.zero_value in
      let sized = overrun_size s n (omega arith) lt in
      let (front, run, c) =
        copy_loop-IsCopied old pos pos (λ i. i) 0 0 (s - 1) new (λ i p q. (refl, omega arith))
          (λ i p q. ap pos (omega arith)) (omega arith) (omega (arith, room)) in
      let (v, here) = get_elem?-some old (s - 1) (omega arith) in
      (
        new,
        front,
        v,
        sized,
        refl,
        run,
        c.size ∙ room,
        here,
        set_at-overrun front (s - 1) v (omega (arith, c.size, room)),
        rw (g.0, g.1, sized, not_emptied s n h)
            (rw (copy_loop-overrun old pos 0 s new (omega arith) (omega (arith, room))) refl),
      )
