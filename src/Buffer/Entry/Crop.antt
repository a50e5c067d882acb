-- ===== src/Buffer/Entry/Crop.antt =====
-- `cropBuffer` and `shiftBuffer` of an entry: both read the old array round its end.
use ihmc_yovariables_cpp.Common.{
  ℕ, pos, ◌+◌, ◌-◌, ◌%◌, ◌≤◌, ◌<◌, ◌+ℤ◌, ◌-ℤ◌, rem, rem-pos, leb_ℤ, ltb_ℤ, eqb_ℤ, add-pos, int_laws,
  leb, if◌then◌else◌, false, ◌||◌, List, length, length-replicate, replicate, get_elem?,
  get_elem?-ext, some, ◌≡◌, refl, sym, ap, ◌∙◌, arith, dec_lt, Doubles,
}
use native.Mathlib.Nat.{
  mod-lt, mod-eq_of_lt, mod-add-mod, add-mod_right, add-zero, mod_self, add_comm,
}
use ihmc_yovariables_cpp.Buffer.Array.{new_array, copy_loop}
use ihmc_yovariables_cpp.Buffer.Array.Copy.{copy_loop-IsCopied}
use ihmc_yovariables_cpp.Buffer.Entry.{
  Entry, size, swap_data, rem_size, compute_buffer_size_after_crop, get_buffer_window, crop_buffer,
  shift_buffer,
}
use ihmc_yovariables_cpp.Buffer.Entry.Window.{window_loop_lem}

-- The number of places from `s` to `t` in a buffer of `n` places, going round at the end.
abbrev pub span : ℕ → ℕ → ℕ → ℕ
span s t n = if leb s t then t - s + 1 else n - s + t + 1

pub rem_size-pos : (a n : ℕ) → 0 < n → rem_size (pos a) (pos n) ≡ some (pos (a % n))
unfolding rem_size
rem_size-pos a n h = rw rem-pos (ground arith)

crop_sum : (s t n : ℕ) → s ≤ n → pos t -ℤ pos s +ℤ pos 1 +ℤ pos n ≡ pos (t + 1 + n - s)
crop_sum s t n h = omega int_laws

-- A number from 1 to n, taken modulo n and with 0 read as n, is itself.
mod_or_all :
    (k n : ℕ) → 0 < k → k ≤ n → (if eqb_ℤ (pos (k % n)) (pos 0) then pos n else pos (k % n)) ≡ pos k
mod_or_all k n p h = elim (dec_lt k n) [
  | yes lt ↦ rw (mod-eq_of_lt lt) (ground arith)
  | no ge ↦ let e : k ≡ n = omega arith in rw (e, mod_self) (ground arith)
]

span_straight : (s t n : ℕ) → s ≤ t → span s t n ≡ t - s + 1
span_straight s t n h = ground arith

span_round : (s t n : ℕ) → t < s → span s t n ≡ n - s + t + 1
span_round s t n h = ground arith

span-mod : (s t n : ℕ) → s < n → t < n → (t + 1 + n - s) % n ≡ span s t n % n
span-mod s t n hs ht = elim (dec_lt t s) [
  | yes lt ↦ rw (span_round s t n lt) (ap (λ k. k % n) (omega arith))
  | no ge ↦
      rw (span_straight s t n (omega arith))
        (ap (λ k. k % n) {y = t - s + 1 + n} (omega arith) ∙ add-mod_right (t - s + 1) n)
]

span_bounds : (s t n : ℕ) → s < n → t < n → (0 < span s t n) × (span s t n ≤ n)
span_bounds s t n hs ht = ground arith

pub compute_crop_lem :
    (s t n : ℕ)
    → s < n
    → t < n
    → compute_buffer_size_after_crop (pos s) (pos t) (pos n) ≡ some (pos (span s t n))
unfolding compute_buffer_size_after_crop
compute_crop_lem s t n hs ht =
    rw (crop_sum s t n (omega arith), rem_size-pos (t + 1 + n - s) n (omega arith))
      (rw (span-mod s t n hs ht) (
        ap some
          (mod_or_all (span s t n) n (span_bounds s t n hs ht).0 (span_bounds s t n hs ht).1)))

-- The guard lets an interval pass whose end is at most the size.
pub accepted : (s t n : ℕ) → t ≤ n → (ltb_ℤ (pos s) (pos 0) || ltb_ℤ (pos n) (pos t)) ≡ false
accepted s t n h = ground arith

in_range : (k n : ℕ) → 0 < k → k < n → (leb_ℤ (pos k) (pos 0) || leb_ℤ (pos n) (pos k)) ≡ false
in_range k n p h = ground arith

turn_back : (j k n : ℕ) → k ≤ n → j < n → ((j + (n - k)) % n + k) % n ≡ j
turn_back j k n hk hj =
    mod-add-mod (j + (n - k)) n k
    ∙ ap (λ t. t % n) {y = j + n} (omega arith)
    ∙ add-mod_right j n
    ∙ mod-eq_of_lt hj

module _ {D : Type 0} (d : Doubles D) where
  -- The loop that crops and shifts: place `i` takes the value `s` places further round.
  round_copy :
      (old : List D) (s m : ℕ)
      → 0 < length old
      → (r : List D) × (copy_loop old
            (λ i. rem (pos i +ℤ pos s) (size old))
            pos
            0
            m
            (replicate m d.zero_value)
          ≡ some r)
        × (length r ≡ m)
        × ((j : ℕ) → j < m → get_elem? r j ≡ get_elem? old ((j + s) % length old))
  round_copy old s m h =
      let fresh = replicate m d.zero_value in
      let (r, run, c) =
        copy_loop-IsCopied old (λ i. rem (pos i +ℤ pos s) (size old)) pos
          (λ i. (i + s) % length old) 0 0 m fresh
          (λ i p q. (rw add-pos (rem-pos (i + s) (length old)), mod-lt (i + s) h))
          (λ i p q. ap pos (omega arith)) (omega arith)
          (omega (arith, length-replicate m d.zero_value)) in
      (
        r,
        run,
        c.size ∙ length-replicate m d.zero_value,
        λ j lt.
            ground (arith, c.elems j, ap (λ t. get_elem? old ((t + s) % length old)) (add-zero j)),
      )

  -- For an interval [s, t] within the buffer, which goes round its end if t < s, `cropBuffer` keeps
  -- exactly the window of that interval: the data afterwards is what `getBufferWindow` read before.
  pub crop_buffer-window :
      (e : Entry D) (s t : ℕ)
      → s < length e.buffer_data
      → t < length e.buffer_data
      → let n = span s t (length e.buffer_data) in
        (xs : List D) × (crop_buffer d (pos s) (pos t) e ≡ some (pos n, swap_data xs e))
        × (get_buffer_window (pos s) (pos n) e ≡ some xs)
        × (length xs ≡ n)
  unfolding crop_buffer get_buffer_window new_array
  crop_buffer-window e s t hs ht =
      let old = e.buffer_data in
      let n = span s t (length old) in
      let (r, run, len, elems) = round_copy old s n (omega arith) in
      let (xs, read, len', elems') = window_loop_lem old s n hs in
      (
        r,
        rw (accepted s t (length old) (omega arith)) (
            rw (compute_crop_lem s t (length old) hs ht)
              (rw (length-replicate n d.zero_value) (rw run (rw len refl)))),
        read
            ∙ ap some (
                get_elem?-ext xs r (len' ∙ sym len) λ i lt.
                  elems' i (omega arith)
                  ∙ ap (λ k. get_elem? old (k % length old)) (add_comm s i)
                  ∙ sym (elems i (omega arith))),
        len,
      )

  -- A shift in range moves each value that many places towards the front, going round.
  pub shift_buffer_lem :
      (e : Entry D) (k : ℕ)
      → 0 < k
      → k < length e.buffer_data
      → (xs : List D) × (shift_buffer d (pos k) e ≡ some (swap_data xs e))
        × (length xs ≡ length e.buffer_data)
        × ((j : ℕ)
            → j < length e.buffer_data
            → get_elem? xs j ≡ get_elem? e.buffer_data ((j + k) % length e.buffer_data))
  unfolding shift_buffer new_array
  shift_buffer_lem e k pos_k lt =
      let old = e.buffer_data in
      let (r, run, len, elems) = round_copy old k (length old) (omega arith) in
      (r, rw (in_range k (length old) pos_k lt) (rw run refl), len, elems)

  -- Shifting by `k` and then by the rest of the size puts every value back in its place; in between
  -- each value stands `k` places nearer to the front, going round.
  pub shift_buffer_back :
      (e : Entry D) (k : ℕ)
      → 0 < k
      → k < length e.buffer_data
      → let n = length e.buffer_data in
        (xs : List D) × (shift_buffer d (pos k) e ≡ some (swap_data xs e))
        × ((j : ℕ) → j < n → get_elem? xs j ≡ get_elem? e.buffer_data ((j + k) % n))
        × (shift_buffer d (pos (n - k)) (swap_data xs e) ≡ some (swap_data e.buffer_data e))
  shift_buffer_back e k pos_k lt =
      let old = e.buffer_data in
      let n = length old in
      let (xs, run, len, elems) = shift_buffer_lem e k pos_k lt in
      let (ys, run', len', elems') =
        shift_buffer_lem (swap_data xs e) (n - k) (omega arith) (omega (arith, len)) in
      let same : ys ≡ old = get_elem?-ext ys old (len' ∙ len) λ j h.
        elems' j (omega (arith, len'))
        ∙ ap (λ m. get_elem? xs ((j + (n - k)) % m)) len
        ∙ elems ((j + (n - k)) % n) (mod-lt (j + (n - k)) (omega arith))
        ∙ ap (get_elem? old) (turn_back j k n (omega arith) (omega (arith, len, len'))) in
      (xs, run, elems, rw same at run')
