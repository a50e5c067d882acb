-- ===== src/Buffer/Entry/Window.antt =====
-- Windows of a buffer: what `getBufferWindow` reads.
use ihmc_yovariables_cpp.Common.{
  ℕ, pos, zero, suc, ◌+◌, ◌%◌, ◌<◌, ◌+ℤ◌, leb_ℤ, add-pos, leb, if◌then◌else◌, List, [], ◌∷◌, length,
  get_elem?, get_elem?-some, get_elem?-ext, some, ◌≡◌, refl, sym, ap, ◌∙◌, arith, dec_lt,
}
use native.Mathlib.Nat.{mod-eq_of_lt, mod-add-mod, mod_self}
use ihmc_yovariables_cpp.Buffer.Array.{get}
use ihmc_yovariables_cpp.Buffer.Entry.{Entry, window_loop, get_buffer}

-- The index after `i` in a buffer of `n` places.
pub next_index : (i n : ℕ) → i < n → (if leb n (i + 1) then 0 else i + 1) ≡ (i + 1) % n
next_index i n h = elim (dec_lt (i + 1) n) [
  | yes lt ↦ rw (mod-eq_of_lt lt) (ground arith)
  | no ge ↦ let last : i + 1 ≡ n = omega arith in rw last (ground (arith, mod_self n))
]

wrap_index :
    (i n : ℕ)
    → i < n
    → (if leb_ℤ (pos n) (pos i +ℤ pos 1) then pos 0 else pos i +ℤ pos 1) ≡ pos ((i + 1) % n)
wrap_index i n h = rw add-pos (ground (arith, next_index i n h))

pub mod-shift : (i k n : ℕ) → (i + suc k) % n ≡ ((i + 1) % n + k) % n
mod-shift i k n = rw mod-add-mod (ap (λ t. t % n) (omega arith))

module _ {D : Type 0} where
  cons-elems :
      (buf xs : List D) (v : D) (i n : ℕ)
      → i < length buf
      → get_elem? buf i ≡ some v
      → ((k : ℕ) → k < n → get_elem? xs k ≡ get_elem? buf (((i + 1) % length buf + k) % length buf))
      → (k : ℕ) → k < suc n
      → get_elem? (v ∷ xs) k ≡ get_elem? buf ((i + k) % length buf)
  cons-elems buf xs v i n h e rest zero lt =
      sym e ∙ ap (get_elem? buf) (sym (mod-eq_of_lt h) ∙ ap (λ t. t % length buf) (omega arith))
  cons-elems buf xs v i n h e rest (suc k) lt =
      rest k (omega arith) ∙ ap (get_elem? buf) (sym (mod-shift i k (length buf)))

  -- A window that starts in the buffer is read without a fault and goes round at its end.
  pub window_loop_lem :
      (buf : List D) (i n : ℕ)
      → i < length buf
      → (xs : List D) × (window_loop buf (pos i) n ≡ some xs)
        × (length xs ≡ n)
        × ((k : ℕ) → k < n → get_elem? xs k ≡ get_elem? buf ((i + k) % length buf))
  unfolding window_loop get
  window_loop_lem buf i zero h = ([], refl, refl, λ k lt. absurd (omega arith))
  window_loop_lem buf i (suc n) h =
      let j = (i + 1) % length buf in
      let (v, e) = get_elem?-some buf i h in
      let (xs, run, len, elems) = window_loop_lem buf j n (omega arith) in
      (
        v ∷ xs,
        rw (e, wrap_index i (length buf) h, run) refl,
        ap suc len,
        cons-elems buf xs v i n h e elems,
      )

  -- `getBuffer` of a buffer that is not empty returns its data.
  pub get_buffer_lem : (e : Entry D) → 0 < length e.buffer_data → get_buffer e ≡ some e.buffer_data
  unfolding get_buffer
  get_buffer_lem e h =
      let buf = e.buffer_data in
      let (xs, run, len, elems) = window_loop_lem buf 0 (length buf) h in
      run
      ∙ ap some (
          get_elem?-ext xs buf len λ i lt.
            elems i (omega arith)
            ∙ ap (get_elem? buf)
                (ap (λ t. t % length buf) (omega arith) ∙ mod-eq_of_lt {n = i} (omega arith)))
