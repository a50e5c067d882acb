-- ===== src/Buffer/Entry.antt =====
-- src/buffer/yo_buffer_variable_entry.cpp: the history of one variable. The atomic operations are
-- those of one thread: a compare-and-swap succeeds at once. `none` is a fault: undefined behaviour,
-- or an allocation or a check that throws.
pub mod Window
pub mod Crop
pub mod Cut
pub mod Resize
pub mod Write
use ihmc_yovariables_cpp.Common.{
  ℕ, ℤ, pos, negsuc, zero, suc, ◌+◌, ◌-◌, ◌*◌, ◌+ℤ◌, ◌-ℤ◌, pos_part, neg_part, rem, quot, ltb, leb,
  ltb_ℤ, leb_ℤ, eqb_ℤ, ◌==◌, if◌then◌else◌, Bool, true, false, not, ◌&&◌, ◌||◌, List, [], ◌∷◌,
  length, Option, none, some, ◌>>=◌, ◌>>◌, require, Doubles,
}
use ihmc_yovariables_cpp.Buffer.Array.{new_array, get, set_at, copy_loop, fill_loop}
use ihmc_yovariables_cpp.Buffer.Bounds.{
  Bounds, empty, computed, widened_to_include, same_bounds, rounds,
}
use ihmc_yovariables_cpp.Variables.{Variables}

pub record Entry (D : Type 0) : Type 0 where
  pub variable : ℕ
  pub buffer_data : List D
  pub current_bounds : Bounds D
  pub bounds_changed : Bool
  pub bounds_dirty : Bool
  pub use_custom_bounds : Bool
  pub custom_bounds : Bounds D
  pub inverted : Bool

-- `int length()`
abbrev pub size {ℓ} : {A : Type ℓ} → List A → ℤ
size xs = pos (length xs)

-- The remainder by a size: a division by zero is undefined.
unfoldable pub rem_size : ℤ → ℤ → Option ℤ
rem_size a n = if eqb_ℤ n (pos 0) then none else some (rem a n)

unfoldable pub compute_buffer_size_after_crop : ℤ → ℤ → ℤ → Option ℤ
unfolding rem_size
compute_buffer_size_after_crop start end previous = do
  new_size ← rem_size (end -ℤ start +ℤ pos 1 +ℤ previous) previous
  some (if eqb_ℤ new_size (pos 0) then previous else new_size)

unfoldable pub compute_buffer_size_after_cut : ℤ → ℤ → ℤ → ℤ
compute_buffer_size_after_cut start end previous = previous -ℤ (end -ℤ start +ℤ pos 1)

module _ {D : Type 0} where
  unfoldable pub set_inverted : Bool → Entry D → Entry D
  set_inverted b e = record e { inverted = b }

  -- The parameter is called `autoScale`.
  unfoldable pub set_use_custom_bounds : Bool → Entry D → Entry D
  set_use_custom_bounds auto_scale e = record e { use_custom_bounds = not auto_scale }

  unfoldable pub is_using_custom_bounds : Entry D → Bool
  is_using_custom_bounds e = not e.use_custom_bounds

  unfoldable pub reset_bounds_changed_flag : Entry D → Entry D
  reset_bounds_changed_flag e = record e { bounds_changed = false }

  unfoldable pub read_buffer_at : ℤ → Entry D → Option D
  read_buffer_at i e = get e.buffer_data i

  -- The loop of `getBufferWindow`: `n` samples from index `i` on, which goes round at the end.
  unfoldable pub window_loop : List D → ℤ → ℕ → Option (List D)
  window_loop buf i zero = some []
  window_loop buf i (suc n) = do
    v ← get buf i
    rest ← window_loop buf (if leb_ℤ (size buf) (i +ℤ pos 1) then pos 0 else i +ℤ pos 1) n
    some (v ∷ rest)

  unfoldable pub get_buffer_window : ℤ → ℤ → Entry D → Option (List D)
  unfolding window_loop
  get_buffer_window start (pos n) e = window_loop e.buffer_data start n
  get_buffer_window start (negsuc n) e = none

  unfoldable pub get_buffer : Entry D → Option (List D)
  unfolding get_buffer_window
  get_buffer e = get_buffer_window (pos 0) (size e.buffer_data) e

  -- The resizing operations store the new array and mark the bounds.
  abbrev pub swap_data : List D → Entry D → Entry D
  swap_data xs e = record e { buffer_data = xs; bounds_dirty = true }

module _ {D : Type 0} (d : Doubles D) where
  unfoldable pub clear_buffer : ℤ → Entry D → Option (Entry D)
  clear_buffer n e = do
    xs ← new_array d.zero_value n
    some (record e { buffer_data = xs; current_bounds = empty d; bounds_dirty = true })

  -- The constructor: the member initialisers, then `clearBuffer`.
  unfoldable pub new_entry : ℕ → ℤ → Option (Entry D)
  unfolding clear_buffer
  new_entry variable n = clear_buffer n (record {
    variable = variable;
    buffer_data = [];
    current_bounds = empty d;
    bounds_changed = true;
    bounds_dirty = true;
    use_custom_bounds = false;
    custom_bounds = empty d;
    inverted = false;
  })

  -- The end of `writeBufferAt`: the bounds are swapped if they grow.
  unfoldable pub widen_bounds : D → Entry D → Entry D
  widen_bounds v e =
      let widened = widened_to_include d v e.current_bounds in
      if same_bounds d widened e.current_bounds
      then e
      else record e { current_bounds = widened; bounds_changed = true }

  unfoldable pub write_buffer_at : D → ℤ → Entry D → Option (Entry D)
  unfolding widen_bounds
  write_buffer_at v i e = do
    old ← get e.buffer_data i
    if d.eq old v
        then some e
        else do xs ← set_at e.buffer_data i v; some (widen_bounds v (record e { buffer_data = xs }))

  unfoldable pub fill_buffer : D → Entry D → Option (Entry D)
  fill_buffer v e = do
    xs ← fill_loop v 0 (length e.buffer_data) e.buffer_data
    some (record e { buffer_data = xs; current_bounds = empty d })

  unfoldable pub enlarge_buffer_size : ℤ → Entry D → Option (Entry D)
  enlarge_buffer_size new_size e =
      let old = e.buffer_data in
      let n = length old in
      do
        new ← new_array d.zero_value new_size
        copied ← copy_loop old pos pos 0 n new
        last ← get old (pos n -ℤ pos 1)
        filled ← fill_loop last n (length new - n) copied
        some (swap_data filled e)

  -- The result is the new length, or -1 for an interval that is refused.
  unfoldable pub crop_buffer : ℤ → ℤ → Entry D → Option (ℤ × Entry D)
  unfolding compute_buffer_size_after_crop
  crop_buffer start end e =
      let old = e.buffer_data in
      if ltb_ℤ start (pos 0) || ltb_ℤ (size old) end then some (negsuc 0, e) else do
        n ← compute_buffer_size_after_crop start end (size old)
        new ← new_array d.zero_value n
        cropped ← copy_loop old (λ i. rem (pos i +ℤ start) (size old)) pos 0 (length new) new
        some (size cropped, swap_data cropped e)

  unfoldable pub cut_buffer : ℤ → ℤ → Entry D → Option (ℤ × Entry D)
  unfolding compute_buffer_size_after_cut
  cut_buffer start end e =
      let old = e.buffer_data in
      if ltb_ℤ end start
      then some (negsuc 0, e)
      else if ltb_ℤ start (pos 0) || ltb_ℤ (size old) end
      then some (negsuc 0, e)
      else do
        let n = compute_buffer_size_after_cut start end (size old)
        new ← new_array d.zero_value (if eqb_ℤ n (pos 0) then size old else n)
        let difference = end -ℤ start +ℤ pos 1
        front ← copy_loop old pos pos 0 (pos_part start) new
        let next = pos_part (end +ℤ pos 1)
        cut ← copy_loop old pos (λ i. pos i -ℤ difference) next (length old - next) front
        some (size cut, swap_data cut e)

  -- A division by zero is undefined. The bounds are left as they were.
  unfoldable pub thin_data : ℤ → Entry D → Option (ℤ × Entry D)
  thin_data every e =
      let old = e.buffer_data in
      do
        require (not (eqb_ℤ every (pos 0)))
        new ← new_array d.zero_value (quot (length old) every)
        thinned ← copy_loop old (λ i. pos (i * pos_part every)) pos 0 (length new) new
        some (size thinned, record e { buffer_data = thinned })

  unfoldable pub shift_buffer : ℤ → Entry D → Option (Entry D)
  shift_buffer shift e =
      let old = e.buffer_data in
      if leb_ℤ shift (pos 0) || leb_ℤ (size old) shift then some e else do
        new ← new_array d.zero_value (size old)
        shifted ← copy_loop old (λ i. rem (pos i +ℤ shift) (size old)) pos 0 (length old) new
        some (swap_data shifted e)

  -- `!=` on the two bounds.
  unfoldable pub bounds_differ : Bounds D → Bounds D → Bool
  bounds_differ a b =
      not (d.eq a.lower_bound b.lower_bound) || not (d.eq a.upper_bound b.upper_bound)

  -- `boundsDirty_` is not cleared here.
  unfoldable pub update_bounds : Entry D → Option (Entry D)
  unfolding bounds_differ
  update_bounds e = do
    new ← computed d (pos 0) (size e.buffer_data -ℤ pos 1) e.buffer_data
    some (record e { current_bounds = new; bounds_changed = bounds_differ new e.current_bounds })

  unfoldable pub get_bounds : Entry D → Option (Bounds D × Entry D)
  unfolding update_bounds
  get_bounds e =
      if e.bounds_dirty
      then update_bounds e >>= (λ e'. some (e'.current_bounds, e'))
      else some (e.current_bounds, e)

  unfoldable pub get_window_bounds : ℤ → ℤ → Entry D → Option (Bounds D × Entry D)
  unfolding bounds_differ
  get_window_bounds start end e =
      let old = e.current_bounds in
      if e.bounds_dirty || (not (eqb_ℤ start old.start_index) || not (eqb_ℤ end old.end_index))
      then computed d start end e.buffer_data >>= (λ new. some (
        new,
        record e {
          current_bounds = new;
          bounds_changed = bounds_differ new old;
          bounds_dirty = false;
        },
      ))
      else some (old, e)

  -- The loop of `computeAverage`, which begins at index 0.
  unfoldable pub sum_loop : List D → ℤ → ℕ → D → Option D
  sum_loop buf i zero total = some total
  sum_loop buf i (suc n) total = do
    v ← get buf i
    sum_loop buf (if leb_ℤ (size buf) (i +ℤ pos 1) then pos 0 else i +ℤ pos 1) n (d.add total v)

  -- `none` also for the two exceptions.
  unfoldable pub compute_average : ℤ → ℤ → Entry D → Option D
  unfolding sum_loop
  compute_average start n e = do
    require (not (ltb_ℤ start (pos 0) || leb_ℤ (size e.buffer_data) start))
    require (not (leb_ℤ n (pos 0) || ltb_ℤ (size e.buffer_data) n))
    total ← sum_loop e.buffer_data (pos 0) (pos_part n) d.zero_value
    some (d.div total (d.of_int n))

  -- The data part of `epsilonEquals`, for two entries of one length.
  unfoldable pub values_close : D → D → D → Bool
  values_close epsilon a b = d.eq a b || d.le (d.abs (d.sub a b)) epsilon

module _ {D S : Type 0} (d : Doubles D) (vs : Variables D S) where
  unfoldable pub write_into_buffer_at : S → ℤ → Entry D → Option (Entry D)
  unfolding write_buffer_at
  write_into_buffer_at s i e = write_buffer_at d (vs.get_value_as_double s e.variable) i e

module _ {D S : Type 0} (vs : Variables D S) where
  unfoldable pub read_from_buffer_at : ℤ → Entry D → S → Option S
  unfolding read_buffer_at
  read_from_buffer_at i e s = do
    v ← read_buffer_at i e
    some (vs.set_value_from_double s e.variable v)
