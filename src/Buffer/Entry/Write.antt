-- ===== src/Buffer/Entry/Write.antt =====
-- `writeBufferAt`, `fillBuffer`, and what the bounds and the average look at.
use ihmc_yovariables_cpp.Common.{
  ℕ, pos, ◌-◌, ◌≤◌, ◌<◌, ◌-ℤ◌, leb_ℤ, ltb_ℤ, sub-pos, true, false, ◌||◌, length, set, length-set,
  get_elem?-some, Option, none, some, ◌≡◌, refl, sym, ap, ◌∙◌, arith, inl, inr, Doubles, ◌⊎◌,
  Bool-cases, Option-cases,
}
use ihmc_yovariables_cpp.Buffer.Array.Copy.{get-pos, set_at-pos}
use ihmc_yovariables_cpp.Buffer.Bounds.{Bounds, computed}
use ihmc_yovariables_cpp.Buffer.Bounds.Window.{computed-ignores_end}
use ihmc_yovariables_cpp.Buffer.Entry.{
  Entry, size, read_buffer_at, write_buffer_at, widen_bounds, get_bounds, compute_average,
}

start_in_range : (s n : ℕ) → s < n → (ltb_ℤ (pos s) (pos 0) || leb_ℤ (pos n) (pos s)) ≡ false
start_in_range s n h = ground arith

-- The bounds that `getBounds` returns, without the entry.
abbrev pub bounds_of : {D : Type 0} → Option (Bounds D × Entry D) → Option (Bounds D)
bounds_of none = none
bounds_of (some (b, e)) = some b

module _ {D : Type 0} (d : Doubles D) where
  data-widen_bounds : (v : D) (e : Entry D) → (widen_bounds d v e).buffer_data ≡ e.buffer_data
  unfolding widen_bounds
  data-widen_bounds v e = ground arith

  variable-widen_bounds : (v : D) (e : Entry D) → (widen_bounds d v e).variable ≡ e.variable
  unfolding widen_bounds
  variable-widen_bounds v e = ground arith

  -- A write in range does not fault. Where the place holds a value that `==` takes for the new one, as
  -- it takes the two zeros for each other, nothing changes. Else the place holds the new value, and
  -- every other place, the size and the variable are as they were.
  pub write_buffer_at_lem :
      (e : Entry D) (i : ℕ) (v : D)
      → i < length e.buffer_data
      → (old : D) × (e' : Entry D) × (read_buffer_at (pos i) e ≡ some old)
        × (write_buffer_at d v (pos i) e ≡ some e')
        × (((d.eq old v ≡ true) × (e' ≡ e))
            ⊎ ((d.eq old v ≡ false)
                × (e'.buffer_data ≡ set e.buffer_data i v)
                × (e'.variable ≡ e.variable)))
  unfolding write_buffer_at read_buffer_at
  write_buffer_at_lem e i v h =
      let (old, here) = get_elem?-some e.buffer_data i h in
      let found = get-pos e.buffer_data i (pos i) refl ∙ here in
      elim (Bool-cases (d.eq old v)) [
        | inl same ↦ (
          old,
          e,
          found,
          rw (get-pos e.buffer_data i (pos i) refl, here) (rw same refl),
          inl (same, refl),
        )
        | inr new ↦ (
          old,
          widen_bounds d v (record e { buffer_data = set e.buffer_data i v }),
          found,
          rw (get-pos e.buffer_data i (pos i) refl, here)
              (rw (new, set_at-pos e.buffer_data i (pos i) v refl h) refl),
          inr (new, data-widen_bounds v _, variable-widen_bounds v _),
        )
      ]

  -- The average over a part of the buffer does not depend on where the part starts: the loop begins
  -- at index 0 for every start in the buffer.
  pub compute_average-ignores_start :
      (e : Entry D) (s n : ℕ)
      → s < length e.buffer_data
      → compute_average d (pos s) (pos n) e ≡ compute_average d (pos 0) (pos n) e
  unfolding compute_average
  compute_average-ignores_start e s n h =
      rw
        (
          start_in_range s (length e.buffer_data) h,
          start_in_range 0 (length e.buffer_data) (omega arith),
        )
        refl

  bounds_of-get_bounds :
      (e : Entry D)
      → e.bounds_dirty ≡ true
      → bounds_of (get_bounds d e) ≡ computed d (pos 0) (size e.buffer_data -ℤ pos 1) e.buffer_data
  unfolding get_bounds
  bounds_of-get_bounds e dirty =
      rw dirty
        (elim (Option-cases (computed d (pos 0) (size e.buffer_data -ℤ pos 1) e.buffer_data)) [
          | inl c ↦ rw c refl
          | inr (b, c) ↦ rw c refl
        ])

  -- The bounds of a whole buffer of two or more values do not depend on the last value.
  pub get_bounds-ignores_last :
      (e : Entry D) (v : D)
      → e.bounds_dirty ≡ true
      → 2 ≤ length e.buffer_data
      → bounds_of
          (get_bounds d (record e { buffer_data = set e.buffer_data (length e.buffer_data - 1) v }))
        ≡ bounds_of (get_bounds d e)
  get_bounds-ignores_last e v dirty h =
      let n = length e.buffer_data in
      let xs = set e.buffer_data (n - 1) v in
      let last : size e.buffer_data -ℤ pos 1 ≡ pos (n - 1) = sub-pos n 1 (omega arith) in
      bounds_of-get_bounds (record e { buffer_data = xs }) dirty
      ∙ ap (λ k. computed d (pos 0) (pos k -ℤ pos 1) xs) (length-set e.buffer_data (n - 1) v)
      ∙ ap (λ k. computed d (pos 0) k xs) last
      ∙ computed-ignores_end d e.buffer_data 0 (n - 1) v (omega arith) (omega arith)
      ∙ ap (λ k. computed d (pos 0) k e.buffer_data) (sym last)
      ∙ sym (bounds_of-get_bounds e dirty)
