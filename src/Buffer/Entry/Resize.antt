-- ===== src/Buffer/Entry/Resize.antt =====
-- `enlargeBufferSize` and `thinData` of an entry, and `clearBuffer`.
use ihmc_yovariables_cpp.Common.{
  ℕ, pos, ◌-◌, ◌*◌, ◌/◌, ◌≤◌, ◌<◌, ◌-ℤ◌, eqb_ℤ, sub-pos, quot-pos, ltb, if◌then◌else◌, false, List,
  length, length-replicate, replicate, get_elem?, get_elem?-some, some, ◌≡◌, refl, ap, ◌∙◌, arith,
  Doubles,
}
use native.Mathlib.Nat.{add-zero}
use ihmc_yovariables_cpp.Buffer.Array.{new_array}
use ihmc_yovariables_cpp.Buffer.Array.Copy.{get-pos, copy_loop-IsCopied, fill_loop_lem}
use ihmc_yovariables_cpp.Buffer.Entry.{Entry, swap_data, enlarge_buffer_size, thin_data}

-- The last sample of each block of `every` places begins within the buffer.
thin_index : (i n every : ℕ) → 0 < every → i < n / every → i * every < n
thin_index i n every h lt = grind arith

not_zero : (n : ℕ) → 0 < n → eqb_ℤ (pos n) (pos 0) ≡ false
not_zero n h = ground arith

module _ {D : Type 0} (d : Doubles D) where
  -- Enlarging a buffer that is not empty keeps its values in front and repeats the last one behind.
  pub enlarge_buffer_size_lem :
      (e : Entry D) (m : ℕ)
      → 0 < length e.buffer_data
      → length e.buffer_data ≤ m
      → let n = length e.buffer_data in
        (xs : List D) × (enlarge_buffer_size d (pos m) e ≡ some (swap_data xs e))
        × (length xs ≡ m)
        × ((j : ℕ)
            → j < m
            → get_elem? xs j
              ≡ (if ltb j n then get_elem? e.buffer_data j else get_elem? e.buffer_data (n - 1)))
  unfolding enlarge_buffer_size new_array
  enlarge_buffer_size_lem e m h le =
      let old = e.buffer_data in
      let n = length old in
      let fresh = replicate m d.zero_value in
      let (copied, run, c) =
        copy_loop-IsCopied old pos pos (λ i. i) 0 0 n fresh (λ i p q. (refl, omega arith))
          (λ i p q. ap pos (omega arith)) (omega arith)
          (omega (arith, length-replicate m d.zero_value)) in
      let (last, at_last) = get_elem?-some old (n - 1) (omega arith) in
      let (xs, run', len, elems) =
        fill_loop_lem last n (m - n) copied
          (omega (arith, c.size, length-replicate m d.zero_value)) in
      (
        xs,
        rw
            (
              run,
              get-pos old (n - 1) (pos n -ℤ pos 1) (sub-pos n 1 (omega arith)),
              at_last,
              length-replicate,
              run',
            )
            refl,
        len ∙ c.size ∙ length-replicate m d.zero_value,
        λ j lt. ground (arith, elems j, c.elems j, ap (get_elem? old) (add-zero j), at_last),
      )

  -- Thinning by `every` keeps the values at the multiples of `every` below the size rounded down to
  -- one, and returns how many these are. It does not mark the bounds.
  pub thin_data_lem :
      (e : Entry D) (every : ℕ)
      → 0 < every
      → let m = length e.buffer_data / every in
        (xs : List D) × (thin_data d (pos every) e ≡ some (pos m, record e { buffer_data = xs }))
        × (length xs ≡ m)
        × ((j : ℕ) → j < m → get_elem? xs j ≡ get_elem? e.buffer_data (j * every))
  unfolding thin_data new_array
  thin_data_lem e every h =
      let old = e.buffer_data in
      let m = length old / every in
      let fresh = replicate m d.zero_value in
      let (xs, run, c) =
        copy_loop-IsCopied old (λ i. pos (i * every)) pos (λ i. i * every) 0 0 m fresh
          (λ i p q. (refl, thin_index i (length old) every h (omega arith)))
          (λ i p q. ap pos (omega arith)) (omega arith)
          (omega (arith, length-replicate m d.zero_value)) in
      let len = c.size ∙ length-replicate m d.zero_value in
      (
        xs,
        rw (not_zero every h, quot-pos)
            (rw (length-replicate m d.zero_value) (rw run (rw len refl))),
        len,
        λ j lt. ground (arith, c.elems j, ap (λ t. get_elem? old (t * every)) (add-zero j)),
      )
