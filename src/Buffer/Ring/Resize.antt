-- ===== src/Buffer/Ring/Resize.antt =====
-- src/buffer/yo_buffer.cpp: the operations that change the size of the ring or turn it.
use ihmc_yovariables_cpp.Common.{
  ℤ, pos, ◌+ℤ◌, ◌-ℤ◌, ltb_ℤ, leb_ℤ, eqb_ℤ, if◌then◌else◌, ◌||◌, List, [], ◌∷◌, Option, some, ◌>>=◌,
  map_all, Doubles,
}
use ihmc_yovariables_cpp.Variables.{Variables}
use ihmc_yovariables_cpp.Buffer.Entry
use ihmc_yovariables_cpp.Buffer.Entry.{
  Entry, size, rem_size, compute_buffer_size_after_crop, compute_buffer_size_after_cut,
}
use ihmc_yovariables_cpp.Buffer.Ring.{Buffer}
use ihmc_yovariables_cpp.Buffer.Ring.Tick.{tick_and_read_from_buffer, goto_in_point, goto_out_point}

-- The current index after `cropBuffer` and `cutBuffer`, in a buffer of the new size.
unfoldable pub index_after_cut : ℤ → ℤ → ℤ → Option ℤ
index_after_cut current start n = do
  i ← rem_size (current -ℤ start +ℤ n) n
  some (if ltb_ℤ i (pos 0) || leb_ℤ n i then pos 0 else i)

module _ {D : Type 0} where
  -- The loops of `cutBuffer` and `thinData`: a result that is not negative is the new size.
  unfoldable pub resize_entries :
      (Entry D → Option (ℤ × Entry D)) → ℤ → List (Entry D) → Option (ℤ × List (Entry D))
  resize_entries f n [] = some (n, [])
  resize_entries f n (e ∷ es) = do
    (m, e') ← f e
    (n', es') ← resize_entries f (if leb_ℤ (pos 0) m then m else n) es
    some (n', e' ∷ es')

module _ {D S : Type 0} (d : Doubles D) where
  unfoldable pub enlarge_buffer_size : ℤ → Buffer D S → Option (Buffer D S)
  enlarge_buffer_size n b = do
    es ← map_all (Entry.enlarge_buffer_size d n) b.entries
    some (record b { entries = es; buffer_size = n })

module _ {D S : Type 0} (d : Doubles D) (vs : Variables D S) where
  unfoldable pub shift_buffer : ℤ → Buffer D S → Option (Buffer D S)
  shift_buffer shift b =
      if eqb_ℤ shift (pos 0)
      then some b
      else if leb_ℤ shift (pos 0) || leb_ℤ b.buffer_size shift
      then some b
      else do
        es ← map_all (Entry.shift_buffer d shift) b.entries
        current ← rem_size (b.current_index -ℤ shift +ℤ b.buffer_size) b.buffer_size
        out ← rem_size (b.out_point -ℤ shift +ℤ b.buffer_size) b.buffer_size
        (_, b') ← tick_and_read_from_buffer vs (pos 0) (record b {
          entries = es;
          current_index = if ltb_ℤ current (pos 0) then pos 0 else current;
          in_point = pos 0;
          out_point = out;
        })
        some b'

  unfoldable pub crop_buffer : ℤ → ℤ → Buffer D S → Option (Buffer D S)
  unfolding index_after_cut goto_in_point
  crop_buffer start end b = if ltb_ℤ start (pos 0) || ltb_ℤ b.buffer_size end then some b else do
    n ← compute_buffer_size_after_crop start end b.buffer_size
    es ← map_all (λ e. Entry.crop_buffer d start end e >>= λ r. some r.1) b.entries
    current ← index_after_cut b.current_index start n
    goto_in_point vs (record b {
      buffer_size = n;
      entries = es;
      current_index = current;
      in_point = pos 0;
      out_point = n -ℤ pos 1;
    })

  unfoldable pub crop_in_out : Buffer D S → Option (Buffer D S)
  crop_in_out b =
      if eqb_ℤ b.in_point b.out_point
      then crop_buffer b.in_point (b.in_point +ℤ pos 1) b
      else crop_buffer b.in_point b.out_point b

  unfoldable pub cut_buffer : ℤ → ℤ → Buffer D S → Option (Buffer D S)
  unfolding index_after_cut goto_out_point
  cut_buffer start end b =
      if ltb_ℤ start (pos 0) || (ltb_ℤ b.buffer_size end || ltb_ℤ end start) then some b else do
        (n, es) ←
            resize_entries (Entry.cut_buffer d start end)
              (compute_buffer_size_after_cut start end b.buffer_size) b.entries
        current ← index_after_cut b.current_index start n
        goto_out_point vs (record b {
          buffer_size = n;
          entries = es;
          current_index = current;
          in_point = pos 0;
          out_point = start -ℤ pos 1;
        })

  unfoldable pub cut_in_out : Buffer D S → Option (Buffer D S)
  cut_in_out b =
      if leb_ℤ b.in_point b.out_point then cut_buffer b.in_point b.out_point b else some b

  unfoldable pub resize_buffer : ℤ → Buffer D S → Option (Buffer D S)
  resize_buffer n b =
      if ltb_ℤ n b.buffer_size
      then rem_size (b.in_point +ℤ n -ℤ pos 1) b.buffer_size
        >>= (λ end. crop_buffer b.in_point end b)
      else if ltb_ℤ b.buffer_size n
      then shift_buffer b.in_point b >>= enlarge_buffer_size d n
      else some b

  -- What `thinData` does after its shift.
  unfoldable pub thin_shifted : ℤ → Buffer D S → Option (Buffer D S)
  unfolding goto_in_point
  thin_shifted n b = if leb_ℤ b.buffer_size (n +ℤ n) then some b else do
    (m, es) ← resize_entries (Entry.thin_data d n) b.buffer_size b.entries
    goto_in_point vs (record b { buffer_size = m; entries = es; out_point = m -ℤ pos 1 })

  unfoldable pub thin_data : ℤ → Buffer D S → Option (Buffer D S)
  thin_data n b = do
    b' ← shift_buffer b.in_point b
    thin_shifted n (record b' { in_point = pos 0; current_index = pos 0 })
