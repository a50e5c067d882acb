-- ===== src/Buffer/Ring/Valid.antt =====
-- A valid ring: it is not empty, its indices lie in it, and its entries have its size.
use ihmc_yovariables_cpp.Common.{
  ℤ, pos, pos_part, ◌<◌, ◌+ℤ◌, ◌≤ℤ◌, ◌<ℤ◌, if◌then◌else◌, Bool, true, false, leb_ℤ, ◌⊎◌, require,
  ◌>>◌, List, [], ◌∷◌, length, some, ◌>>=◌, All, ◌≡◌, refl, sym, ap, ◌∙◌, arith, -ℤ_parts,
  parts_apart, subst, Bool-cases, if_true, if_false, inl, inr, pos_of_nonneg, get_elem?-some,
}
use ihmc_yovariables_cpp.Variables.{Variables}
use ihmc_yovariables_cpp.Buffer.Array.Copy.{get-pos}
use ihmc_yovariables_cpp.Buffer.Entry
use ihmc_yovariables_cpp.Buffer.Entry.{Entry, size, read_buffer_at}
use ihmc_yovariables_cpp.Buffer.Ring.{
  Buffer, tick_target, is_index_between_bounds, notify_index_changed_listeners,
}
use ihmc_yovariables_cpp.Buffer.Ring.Tick.{
  fits_int, clamp_index, read_entries, read_from_buffer, set_current_index,
  tick_and_read_from_buffer,
}

-- `0 <= i && i < n`
abbrev pub InRange : ℤ → ℤ → Type 0
InRange i n = (pos 0 ≤ℤ i) × (i <ℤ n)

abbrev pub HasSize : {D : Type 0} → ℤ → Entry D → Type 0
HasSize n e = size e.buffer_data ≡ n

pub record IsValid {D S : Type 0} (b : Buffer D S) : Type 0 where
  pub in_ok : InRange b.in_point b.buffer_size
  pub out_ok : InRange b.out_point b.buffer_size
  pub current_ok : InRange b.current_index b.buffer_size
  pub entries_ok : All (HasSize b.buffer_size) b.entries

clamp_index-InRange : (i n : ℤ) → pos 0 <ℤ n → InRange (clamp_index i n) n
unfolding clamp_index
clamp_index-InRange i n h = ground (arith, -ℤ_parts n (pos 1))

-- An index in range of a buffer's size is a number below its length.
pub in_array :
    {D : Type 0} (i n : ℤ) (xs : List D)
    → InRange i n
    → size xs ≡ n
    → (i ≡ pos (pos_part i)) × (pos_part i < length xs)
in_array i n xs h e =
    let h' : InRange i (size xs) = subst (InRange i) (sym e) h in
    (pos_of_nonneg i h'.0, omega (arith, parts_apart i))

clamp_index_inside : (i n : ℤ) → InRange i n → clamp_index i n ≡ i
unfolding clamp_index
clamp_index_inside i n h = ground arith

-- The indices between the in-point and the out-point. Where the in-point is behind the out-point,
-- these are the indices up to the out-point and those from behind the in-point on.
abbrev pub Between : {D S : Type 0} → ℤ → Buffer D S → Type 0
Between i b =
    InRange i b.buffer_size
    × (((b.in_point ≤ℤ b.out_point) × (b.in_point ≤ℤ i) × (i ≤ℤ b.out_point))
        ⊎ ((b.out_point <ℤ b.in_point) × ((i ≤ℤ b.out_point) ⊎ (b.in_point <ℤ i))))

-- Where a tick leads from an index, and whether it rolls over.
abbrev pub Ticks : {D S : Type 0} → ℤ → Buffer D S → Bool → ℤ → Type 0
Ticks step b rolled j =
    (Between (b.current_index +ℤ step) b × (rolled ≡ false) × (j ≡ b.current_index +ℤ step))
    ⊎ (¬ Between (b.current_index +ℤ step) b
        × (rolled ≡ true)
        × (((pos 0 ≤ℤ step) × (j ≡ b.in_point)) ⊎ ((step <ℤ pos 0) × (j ≡ b.out_point))))

tick_target-InRange :
    {D S : Type 0} (step : ℤ) (b : Buffer D S)
    → IsValid b
    → InRange (tick_target step b).1 b.buffer_size
unfolding tick_target is_index_between_bounds
tick_target-InRange step b v = ground arith

Between-cases :
    {D S : Type 0} (i : ℤ) (b : Buffer D S)
    → ((is_index_between_bounds i b ≡ true) × Between i b)
      ⊎ ((is_index_between_bounds i b ≡ false) × ¬ Between i b)
unfolding is_index_between_bounds
Between-cases i b = elim (Bool-cases (is_index_between_bounds i b)) [
  | inl h ↦ inl (h, ground arith)
  | inr h ↦ inr (h, λ k. ground arith)
]

sign :
    {D S : Type 0} (step : ℤ) (b : Buffer D S)
    → let j = (if leb_ℤ (pos 0) step then b.in_point else b.out_point) in
      ((pos 0 ≤ℤ step) × (j ≡ b.in_point)) ⊎ ((step <ℤ pos 0) × (j ≡ b.out_point))
sign step b = elim (Bool-cases (leb_ℤ (pos 0) step)) [
  | inl h ↦ inl (ground arith, if_true _ _ h)
  | inr h ↦ inr (ground arith, if_false _ _ h)
]

tick_target-Ticks :
    {D S : Type 0} (step : ℤ) (b : Buffer D S)
    → Ticks step b (tick_target step b).0 (tick_target step b).1
unfolding tick_target
tick_target-Ticks step b = elim (Between-cases (b.current_index +ℤ step) b) [
  | inl (inside, between) ↦ rw inside (inl (between, refl, refl))
  | inr (outside, apart) ↦ rw outside (inr (apart, refl, sign step b))
]

IsValid-moved :
    {D S : Type 0} (b b' : Buffer D S)
    → IsValid b
    → b'.in_point ≡ b.in_point
    → b'.out_point ≡ b.out_point
    → b'.buffer_size ≡ b.buffer_size
    → b'.entries ≡ b.entries
    → InRange b'.current_index b'.buffer_size
    → IsValid b'
IsValid-moved b b' v ei eo en es c = record {
  in_ok = rw (ei, en) v.in_ok;
  out_ok = rw (eo, en) v.out_ok;
  current_ok = c;
  entries_ok = rw (es, en) v.entries_ok;
}

module _ {D S : Type 0} (vs : Variables D S) where
  read_entries_total :
      (i n : ℤ) (es : List (Entry D)) (s : S)
      → InRange i n
      → All (HasSize n) es
      → (s' : S) × (read_entries vs i es s ≡ some s')
  unfolding read_entries Entry.read_from_buffer_at
  read_entries_total i n [] s h v = (s, refl)
  read_entries_total i n (e ∷ es) s h v =
      let (at, below) = in_array i n e.buffer_data h v.0 in
      let (x, here) = get_elem?-some e.buffer_data (pos_part i) below in
      let (s', rest) = read_entries_total i n es (vs.set_value_from_double s e.variable x) h v.1 in
      (s', rw (get-pos e.buffer_data (pos_part i) i at, here) rest)

  -- On a ring that is valid but for its current index, `setCurrentIndex` ends without a fault. Unless
  -- the ring is locked it moves to the index given, or to the other end if that lies outside.
  pub set_current_index_total :
      (i : ℤ) (b : Buffer D S)
      → pos 0 <ℤ b.buffer_size
      → All (HasSize b.buffer_size) b.entries
      → (b' : Buffer D S) × (set_current_index vs i b ≡ some b')
        × (b'.current_index
            ≡ (if b.lock_index then b.current_index else clamp_index i b.buffer_size))
        × (b'.in_point ≡ b.in_point)
        × (b'.out_point ≡ b.out_point)
        × (b'.buffer_size ≡ b.buffer_size)
        × (b'.entries ≡ b.entries)
        × (b'.lock_index ≡ b.lock_index)
  unfolding set_current_index read_from_buffer
  set_current_index_total i b h v = elim (Bool-cases b.lock_index) [
    | inl locked ↦ (b, rw locked refl, rw locked refl, refl, refl, refl, refl, refl)
    | inr free ↦
        let j = clamp_index i b.buffer_size in
        let (s, run) =
          read_entries_total j b.buffer_size b.entries b.store
            (clamp_index-InRange i b.buffer_size h) v in
        (
          notify_index_changed_listeners (record b { current_index = j; store = s }),
          rw free (rw run refl),
          unfold notify_index_changed_listeners in rw free refl,
          unfold notify_index_changed_listeners in refl,
          unfold notify_index_changed_listeners in refl,
          unfold notify_index_changed_listeners in refl,
          unfold notify_index_changed_listeners in refl,
          unfold notify_index_changed_listeners in refl,
        )
  ]

  -- `setCurrentIndex` keeps a ring valid, for every index that it is given.
  pub set_current_index-IsValid :
      (i : ℤ) (b : Buffer D S)
      → IsValid b
      → (b' : Buffer D S) × (set_current_index vs i b ≡ some b')
        × IsValid b'
        × (b.lock_index ≡ false → InRange i b.buffer_size → b'.current_index ≡ i)
  set_current_index-IsValid i b v =
      let (b', run, at, ei, eo, en, es, el) =
        set_current_index_total i b (omega arith) v.entries_ok in
      (
        b',
        run,
        IsValid-moved b b' v ei eo en es
            (rw (at, en) (ground (arith, clamp_index-InRange i b.buffer_size (omega arith)))),
        λ free h. at ∙ if_false _ _ free ∙ clamp_index_inside i b.buffer_size h,
      )

  -- On a valid ring whose current index plus the step does not overflow, `tickAndReadFromBuffer` does
  -- not fault and leaves the ring valid. A locked ring stays as it was, and the result is false. An
  -- unlocked one moves by the step where that leads to an index between the in- and the out-point
  -- (without the in-point itself where the interval goes round), and the result is false; else it goes to the in-point, for a negative step to the out-point, and the
  -- result is true. The two points stay.
  pub tick_and_read-IsValid :
      (step : ℤ) (b : Buffer D S)
      → IsValid b
      → fits_int (b.current_index +ℤ step) ≡ true
      → (rolled : Bool) × (b' : Buffer D S) × (tick_and_read_from_buffer vs step b
          ≡ some (rolled, b'))
        × IsValid b'
        × (b.lock_index ≡ true → (rolled ≡ false) × (b' ≡ b))
        × (b.lock_index ≡ false → Ticks step b rolled b'.current_index)
        × (b'.in_point ≡ b.in_point)
        × (b'.out_point ≡ b.out_point)
  unfolding tick_and_read_from_buffer
  tick_and_read-IsValid step b v fits = elim (Bool-cases b.lock_index) [
    | inl locked ↦
        (false, b, if_true _ _ locked, v, λ _. (refl, refl), λ free. absurd (cc), refl, refl)
    | inr free ↦
        let (rolled, target) = tick_target step b in
        let (b', run, at, ei, eo, en, es, el) =
          set_current_index_total target b (omega arith) v.entries_ok in
        let inside = tick_target-InRange step b v in
        let there : b'.current_index ≡ target =
          at ∙ if_false _ _ free ∙ clamp_index_inside target b.buffer_size inside in
        (
          rolled,
          b',
          if_false _ _ free
              ∙ ap (λ o. require o >> (set_current_index vs target b >>= λ c. some (rolled, c)))
                  fits
              ∙ ap (λ o. o >>= λ c. some (rolled, c)) run,
          IsValid-moved b b' v ei eo en es (rw (there, en) inside),
          λ locked. absurd (cc),
          λ _. rw there (tick_target-Ticks step b),
          ei,
          eo,
        )
  ]
