-- ===== src/Filters/Average/Mean.antt =====
-- What the moving average computes.
use ihmc_yovariables_cpp.Common.{
  ℕ, pos, ◌+◌, ◌<◌, add-pos, leb, eqb_ℤ, if◌then◌else◌, true, false, List, [], ◌∷◌, ◌++◌, length,
  length-append, length-set, length-replicate, get_elem?, set, replicate, some, ◌≡◌, refl, sym, ap,
  ◌∙◌, subst, arith, Doubles,
}
use mathlib.Core.List.{append_assoc}
use ihmc_yovariables_cpp.Buffer.Array.{new_array, get}
use ihmc_yovariables_cpp.Buffer.Array.Copy.{set_at-pos}
use ihmc_yovariables_cpp.Filters.Average.{Filter, reset, set_window_size, sum_loop, update}

module _ {D : Type 0} (d : Doubles D) where
  -- The sum of a list, from the first element on.
  abbrev pub total : List D → D → D
  total [] sum = sum
  total (v ∷ vs) sum = total vs (d.add sum v)

  get_elem?-middle :
      (before rest : List D) (v : D) → get_elem? (before ++ v ∷ rest) (length before) ≡ some v
  get_elem?-middle [] rest v = refl
  get_elem?-middle (x ∷ before) rest v = get_elem?-middle before rest v

  sum_loop_lem :
      (before rest : List D) (sum : D)
      → sum_loop d (before ++ rest) (pos (length before)) (length rest) sum ≡ some (total rest sum)
  unfolding sum_loop get
  sum_loop_lem before [] sum = refl
  sum_loop_lem before (v ∷ rest) sum =
      let moved : length (before ++ v ∷ []) ≡ length before + 1 = length-append before (v ∷ []) in
      rw (get_elem?-middle before rest v, add-pos)
        (ap (λ (t : List D). sum_loop d t (pos (length before + 1)) (length rest) (d.add sum v))
            (sym (append_assoc before (v ∷ []) rest))
          ∙ ap
              (λ (i : ℕ). sum_loop d (before ++ v ∷ [] ++ rest) (pos i) (length rest) (d.add sum v))
              (sym moved)
          ∙ sum_loop_lem (before ++ v ∷ []) rest (d.add sum v))

  sum_all :
      (values : List D) (n : ℕ)
      → length values ≡ n
      → sum_loop d values (pos 0) n d.zero_value ≡ some (total values d.zero_value)
  sum_all values n e =
      subst (λ m. sum_loop d values (pos 0) m d.zero_value ≡ some (total values d.zero_value)) e
        (sum_loop_lem [] values d.zero_value)

  -- A filter of a window of `n` values whose next place is the `i`-th.
  pub record IsAt (n i : ℕ) (f : Filter D) : Type 0 where
    pub of_window : f.window_size ≡ pos n
    pub of_length : length f.previous_update_values ≡ n
    pub at_place : f.buffer_position ≡ pos i
    pub inside : i < n

  -- The filter after an update.
  abbrev updated : ℕ → ℕ → D → Filter D → Filter D
  updated n i v f =
      let values = set f.previous_update_values i v in
      let filled = if leb n (i + 1) then true else f.buffer_has_been_filled in
      record f {
        value =
            d.div (total values d.zero_value) (d.of_int (if filled then pos n else pos (i + 1)));
        window_size = pos n;
        previous_update_values = values;
        buffer_position = pos (if leb n (i + 1) then 0 else i + 1);
        buffer_has_been_filled = filled;
      }

  update_run : (n i : ℕ) (v : D) (f : Filter D) → IsAt n i f → update d v f ≡ some (updated n i v f)
  unfolding update
  update_run n i v f s =
      let full : eqb_ℤ (pos (length f.previous_update_values)) f.window_size ≡ true =
        rw (s.of_window, s.of_length) (ground arith) in
      let place : i < length f.previous_update_values = omega (arith, s.of_length, s.inside) in
      let written = set_at-pos f.previous_update_values i f.buffer_position v s.at_place place in
      let sum =
        sum_all (set f.previous_update_values i v) n
          (length-set f.previous_update_values i v ∙ s.of_length) in
      rw full (rw (written, s.of_window, s.at_place, add-pos) (rw sum (ground arith)))

  -- On a filter whose array has the length of its window and whose next place is inside, so that the
  -- window is not empty, an update does not fault and leaves these so. It writes the value at the next place, moves on to the place after it,
  -- or back to the first one, and the output is the sum of the whole window over the number of values
  -- that have been written since the reset, which is the window's size from its last place on.
  pub update-IsAt :
      (n i : ℕ) (v : D) (f : Filter D)
      → IsAt n i f
      → (f' : Filter D) × (update d v f ≡ some f')
        × IsAt n (if leb n (i + 1) then 0 else i + 1) f'
        × (f'.previous_update_values ≡ set f.previous_update_values i v)
        × (f'.buffer_has_been_filled ≡ (if leb n (i + 1) then true else f.buffer_has_been_filled))
        × (f'.value
            ≡ d.div
                (total (set f.previous_update_values i v) d.zero_value)
                (d.of_int (if f'.buffer_has_been_filled then pos n else pos (i + 1))))
  unfolding update
  update-IsAt n i v f s = (
    updated n i v f,
    update_run n i v f s,
    record {
      of_window = refl;
      of_length = length-set f.previous_update_values i v ∙ s.of_length;
      at_place = refl;
      inside = (let h = s.inside in ground arith);
    },
    refl,
    refl,
    refl,
  )

  -- A change of the window's size to one or more starts the filter anew.
  pub set_window_size-IsAt :
      (n : ℕ) (f : Filter D)
      → 0 < n
      → (f' : Filter D) × (set_window_size d (pos n) f ≡ some f')
        × IsAt n 0 f'
        × (f'.buffer_has_been_filled ≡ false)
  unfolding set_window_size reset new_array
  set_window_size-IsAt n f h = (
    record f {
      window_size = pos n;
      buffer_position = pos 0;
      buffer_has_been_filled = false;
      previous_update_values = replicate n d.zero_value;
    },
    refl,
    record {
      of_window = refl;
      of_length = length-replicate n d.zero_value;
      at_place = refl;
      inside = h;
    },
    refl,
  )
