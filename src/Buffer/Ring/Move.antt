-- ===== src/Buffer/Ring/Move.antt =====
-- `tickAndWriteIntoBuffer`: the ring of samples as a recorder.
use ihmc_yovariables_cpp.Common.{
  ℤ, pos, pos_part, neg_part, ◌+ℤ◌, ◌<ℤ◌, eqb_ℤ, if◌then◌else◌, length, length-set, some, All,
  All-weaken, map_all-All, ◌≡◌, ◌≢◌, refl, ap, ◌∙◌, arith, +ℤ_parts, Doubles, set, get_elem?-set,
  ==_refl, sym, subst, true, inl, inr, ◌⊎◌,
}
use ihmc_yovariables_cpp.Buffer.Array.{get}
use ihmc_yovariables_cpp.Buffer.Array.Copy.{get-pos}
use ihmc_yovariables_cpp.Variables.{Variables}
use ihmc_yovariables_cpp.Buffer.Entry
use ihmc_yovariables_cpp.Buffer.Entry.{Entry, size, read_buffer_at}
use ihmc_yovariables_cpp.Buffer.Entry.Write.{write_buffer_at_lem}
use ihmc_yovariables_cpp.Buffer.Ring.{Buffer, advance, notify_index_changed_listeners}
use ihmc_yovariables_cpp.Buffer.Ring.Tick.{write_into_buffer, tick_and_write_into_buffer}
use ihmc_yovariables_cpp.Buffer.Ring.Valid.{IsValid, InRange, HasSize, in_array}

advance-IsValid : {D S : Type 0} (b : Buffer D S) → IsValid b → IsValid (advance b)
unfolding advance
advance-IsValid b v = record {
  in_ok = ground (arith, +ℤ_parts b.in_point (pos 1), +ℤ_parts b.current_index (pos 1));
  out_ok = ground (arith, +ℤ_parts b.current_index (pos 1));
  current_ok = ground (arith, +ℤ_parts b.current_index (pos 1));
  entries_ok = v.entries_ok;
}

index-advance :
    {D S : Type 0} (b : Buffer D S)
    → IsValid b
    → (advance b).current_index
      ≡ (if eqb_ℤ (b.current_index +ℤ pos 1) b.buffer_size then pos 0 else b.current_index +ℤ pos 1)
unfolding advance
index-advance b v = ground (arith, +ℤ_parts b.current_index (pos 1))

keep_going :
    {D S : Type 0} (b : Buffer D S)
    → pos 1 <ℤ b.buffer_size
    → IsValid b
    → (advance b).in_point ≢ (advance b).current_index
unfolding advance
keep_going b h v e = ground (
  arith,
  +ℤ_parts b.in_point (pos 1),
  +ℤ_parts b.current_index (pos 1),
  ap pos_part e,
  ap neg_part e,
)

module _ {D S : Type 0} (d : Doubles D) (vs : Variables D S) where
  -- An entry has the buffer's size, and at an index it holds the value of its variable, or a value
  -- that `==` takes for it.
  abbrev pub Recorded : S → ℤ → ℤ → Entry D → Type 0
  Recorded s i n e =
      HasSize n e
      × (x : D) × (read_buffer_at i e ≡ some x)
      × ((x ≡ vs.get_value_as_double s e.variable)
          ⊎ (d.eq x (vs.get_value_as_double s e.variable) ≡ true))

  write_entry :
      (s : S) (i n : ℤ) (e : Entry D)
      → InRange i n
      → HasSize n e
      → (e' : Entry D) × (Entry.write_into_buffer_at d vs s i e ≡ some e') × Recorded s i n e'
  unfolding Entry.write_into_buffer_at read_buffer_at
  write_entry s i n e h z =
      let (at, below) = in_array i n e.buffer_data h z in
      let k = pos_part i in
      let value = vs.get_value_as_double s e.variable in
      let (old, e', found, run, ends) = write_buffer_at_lem d e k value below in
      elim ends [
        | inl (same, kept) ↦ (
          e',
          rw at run,
          subst (Recorded s i n) (sym kept)
              (z, old, ap (λ j. read_buffer_at j e) at ∙ found, inr same),
        )
        | inr (_, held, named) ↦
            let here : read_buffer_at i e' ≡ some value =
              ap (λ xs. get xs i) held
              ∙ get-pos (set e.buffer_data k value) k i at
              ∙ get_elem?-set e.buffer_data k k value below
              ∙ rw (==_refl k) refl in
            (
              e',
              rw at run,
              (
                ap pos (ap length held ∙ length-set e.buffer_data k value) ∙ z,
                value,
                here,
                inl (ap (vs.get_value_as_double s) (sym named)),
              ),
            )
      ]

  -- On a valid ring `tickAndWriteIntoBuffer` does not fault, whether or not the ring is locked, and
  -- leaves it valid. The current index is one further, going round at the end, and is the out-point;
  -- every entry holds there the value of its variable, or one that `==` takes for it, as it takes the
  -- two zeros for each other; and in a ring of two places or more the
  -- in-point is not the place just written.
  pub tick_and_write-records :
      (b : Buffer D S)
      → IsValid b
      → (b' : Buffer D S) × (tick_and_write_into_buffer d vs b ≡ some b')
        × IsValid b'
        × (b'.current_index ≡ (
            if eqb_ℤ (b.current_index +ℤ pos 1) b.buffer_size
            then pos 0
            else b.current_index +ℤ pos 1))
        × (b'.out_point ≡ b'.current_index)
        × (pos 1 <ℤ b.buffer_size → b'.in_point ≢ b'.current_index)
        × All (Recorded b'.store b'.current_index b'.buffer_size) b'.entries
  unfolding tick_and_write_into_buffer write_into_buffer
  tick_and_write-records b v =
      let c = advance b in
      let w = advance-IsValid b v in
      let (es, run, ok) =
        map_all-All (HasSize c.buffer_size) (Recorded c.store c.current_index c.buffer_size)
          (Entry.write_into_buffer_at d vs c.store c.current_index)
          (λ e z. write_entry c.store c.current_index c.buffer_size e w.current_ok z) c.entries
          w.entries_ok in
      (
        notify_index_changed_listeners (record c { entries = es }),
        rw run refl,
        record {
          in_ok = w.in_ok;
          out_ok = w.out_ok;
          current_ok = w.current_ok;
          entries_ok =
              All-weaken (Recorded c.store c.current_index c.buffer_size) (HasSize c.buffer_size)
                (λ e r. r.0) es ok;
        },
        index-advance b v,
        refl,
        λ two. keep_going b two v,
        ok,
      )
